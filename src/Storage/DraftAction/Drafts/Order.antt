-- ===== src/Storage/DraftAction/Drafts/Order.antt =====
-- Every operation on drafts keeps the revisions of each work item in order.
use mathlib.Core.Path.{subst}
use twindesk.Prelude.{
  suc, ◌+◌, ◌≡◌, refl, sym, ap, ◌∙◌, ◌⊎◌, inl, inr, true, false, none, some, List, [], ◌∷◌, String,
  arith, any,
}
use twindesk.Result.{ok}
use twindesk.Domain.Model.{DraftState, Draft, DraftStateTransition}
use twindesk.Domain.Validation.{parse_draft, parse_draft_state_transition}
use twindesk.Domain.StateTransitions.{apply_draft_state_transition}
use twindesk.Storage.Table.{find, update, insert}
use twindesk.Storage.Database.{Database}
use twindesk.Storage.DraftAction.Rows.{
  draft_row, DraftWriteResult, DraftRevisionWrite, DraftRevisionWriteResult, is_active,
}
use twindesk.Storage.DraftAction.Drafts.{
  conflicts_with, latest_of, latest_draft, create_draft, transition_draft, revise_draft,
}
use twindesk.Storage.DraftAction.Drafts.Ladder.{
  find_draft, count_of, AllInactive, IsLadder, latest_of-count, find-latest_of, inactive_of_latest,
  IsLadder-update, count_of-update, inactive_after_update,
}

find-none_of_any :
    (draft : Draft) (rows : List Draft)
    → any (conflicts_with draft) rows ≡ false
    → find_draft draft.id rows ≡ none
unfolding find
find-none_of_any draft [] h = refl
find-none_of_any draft (d ∷ rows) h = ground (arith, find-none_of_any draft rows)

-- What a new draft must be to go on top of the drafts of its work item.
record Fits (draft : Draft) (rows : List Draft) : Type 0 where
  new_id : find_draft draft.id rows ≡ none
  next : draft.revision ≡ suc (count_of draft.work_item_id rows)
  others_done : AllInactive draft.work_item_id rows

-- What `create_draft` has checked when it inserts.
create_draft_effect :
    (db : Database) (input : Draft) {r : DraftWriteResult} {db' : Database}
    → create_draft db input ≡ ok (r, db')
    → (db' ≡ db)
      ⊎ ((db'.drafts ≡ input ∷ db.drafts)
          × (any (conflicts_with input) db.drafts ≡ false)
          × (((latest_draft db input.work_item_id ≡ none) × (input.revision ≡ 1))
              ⊎ ((b : Draft) × (latest_draft db input.work_item_id ≡ some b)
                  × (input.revision ≡ b.revision + 1)
                  × (is_active b.state ≡ false))))
unfolding create_draft parse_draft insert
create_draft_effect db input h = ground arith

latest-Fits :
    (draft : Draft) (db : Database)
    → IsLadder db.drafts
    → any (conflicts_with draft) db.drafts ≡ false
    → ((latest_draft db draft.work_item_id ≡ none) × (draft.revision ≡ 1))
      ⊎ ((b : Draft) × (latest_draft db draft.work_item_id ≡ some b)
          × (draft.revision ≡ b.revision + 1)
          × (is_active b.state ≡ false))
    → Fits draft db.drafts
unfolding latest_draft
latest-Fits draft db h c l = record {
  new_id = find-none_of_any draft db.drafts c;
  next = ground (arith, latest_of-count draft.work_item_id db.drafts h);
  others_done = inactive_of_latest draft.work_item_id db.drafts h (λ b found. ground arith);
}

IsLadder-cons :
    (draft : Draft) (rows : List Draft) → Fits draft rows → IsLadder rows → IsLadder (draft ∷ rows)
IsLadder-cons draft rows f h = (f.next, f.others_done, f.new_id, h)

pub create_draft-IsLadder :
    (db : Database) (input : Draft) {r : DraftWriteResult} {db' : Database}
    → create_draft db input ≡ ok (r, db')
    → IsLadder db.drafts
    → IsLadder db'.drafts
create_draft-IsLadder db input e h = elim (create_draft_effect db input e) [
  | inl same ↦ rw same h
  | inr (put, c, l) ↦ rw put (IsLadder-cons input db.drafts (latest-Fits input db h c l) h)
]

-- The change that a transition makes to its row.
abbrev moved : Draft → Draft → Draft
moved u d = record d { state = u.state; updated_at = u.updated_at }

transition_draft_effect :
    (db : Database) (t : DraftStateTransition) {r : DraftWriteResult} {db' : Database}
    → transition_draft db t ≡ ok (r, db')
    → (db' ≡ db)
      ⊎ ((x : Draft) × (u : Draft) × (find_draft t.draft_id db.drafts ≡ some x)
          × (apply_draft_state_transition x t ≡ ok u)
          × (db'.drafts ≡ update (λ d. d.id) u.id (moved u) db.drafts))
unfolding transition_draft parse_draft parse_draft_state_transition insert draft_row
transition_draft_effect db t h = ground arith

-- A draft that can be moved is active, and keeps its identity.
apply_draft_active :
    (x : Draft) (t : DraftStateTransition) (u : Draft)
    → apply_draft_state_transition x t ≡ ok u
    → (is_active x.state ≡ true) × (u.id ≡ x.id) × (u.state ≡ t.to_state) × (x.id ≡ t.draft_id)
unfolding apply_draft_state_transition parse_draft parse_draft_state_transition
apply_draft_active x t u e = ground arith

pub transition_draft-IsLadder :
    (db : Database) (t : DraftStateTransition) {r : DraftWriteResult} {db' : Database}
    → transition_draft db t ≡ ok (r, db')
    → IsLadder db.drafts
    → IsLadder db'.drafts
transition_draft-IsLadder db t e h = elim (transition_draft_effect db t e) [
  | inl same ↦ rw same h
  | inr (x, u, found, step, put) ↦
      let (active, id, _, named) = apply_draft_active x t u step in
      rw put (
        IsLadder-update u.id (moved u) (λ d. refl) (λ d. refl) (λ d. refl) db.drafts x
          (subst (λ k. find_draft k db.drafts ≡ some x) (sym (id ∙ named)) found) (inr active) h)
]

revise_draft_effect :
    (db : Database) (w : DraftRevisionWrite) {r : DraftRevisionWriteResult} {db' : Database}
    → revise_draft db w ≡ ok (r, db')
    → (db' ≡ db)
      ⊎ ((x : Draft) × (u : Draft) × (find_draft w.transition.draft_id db.drafts ≡ some x)
          × (apply_draft_state_transition x w.transition ≡ ok u)
          × (w.transition.to_state ≡ DraftState.superseded)
          × (w.draft.work_item_id ≡ x.work_item_id)
          × (w.draft.revision ≡ x.revision + 1)
          × ((b : Draft) × (latest_draft db x.work_item_id ≡ some b) × (b.id ≡ x.id))
          × (db'.drafts ≡ w.draft ∷ update (λ d. d.id) u.id (moved u) db.drafts)
          × (any (conflicts_with w.draft) (update (λ d. d.id) u.id (moved u) db.drafts) ≡ false))
unfolding revise_draft parse_draft parse_draft_state_transition insert draft_row
revise_draft_effect db w h = ground arith

-- A draft that has the latest one's id is the latest one.
latest_by_id :
    (item k : String) (rows : List Draft) (x b : Draft)
    → IsLadder rows
    → find_draft k rows ≡ some x
    → latest_of item rows ≡ some b
    → b.id ≡ x.id
    → x.id ≡ k
    → latest_of item rows ≡ some x
latest_by_id item k rows x b h found l same named =
    ground (arith, find-latest_of item rows b h l, same ∙ named)

pub revise_draft-IsLadder :
    (db : Database) (w : DraftRevisionWrite) {r : DraftRevisionWriteResult} {db' : Database}
    → revise_draft db w ≡ ok (r, db')
    → IsLadder db.drafts
    → IsLadder db'.drafts
unfolding latest_draft
revise_draft-IsLadder db w e h = elim (revise_draft_effect db w e) [
  | inl same ↦ rw same h
  | inr (x, u, found, step, ends, item, next, (b, latest, same), put, c) ↦
      let (active, id, state, named) = apply_draft_active x w.transition u step in
      let found' : find_draft u.id db.drafts ≡ some x =
        subst (λ k. find_draft k db.drafts ≡ some x) (sym (id ∙ named)) found in
      let top : latest_of x.work_item_id db.drafts ≡ some x =
        latest_by_id x.work_item_id w.transition.draft_id db.drafts x b h found latest same named in
      let rows : List Draft = update (λ d. d.id) u.id (moved u) db.drafts in
      let ladder : IsLadder rows =
        IsLadder-update u.id (moved u) (λ d. refl) (λ d. refl) (λ d. refl) db.drafts x found'
          (inr active) h in
      rw put (
        IsLadder-cons w.draft rows
          (record {
            new_id = find-none_of_any w.draft rows c;
            next = ground (
              arith,
              item,
              latest_of-count x.work_item_id db.drafts h,
              count_of-update u.id (moved u) (λ d. refl) (λ d. refl) (λ d. refl) x.work_item_id
                  db.drafts,
            );
            others_done =
                subst (λ i. AllInactive i rows) (sym item)
                  (inactive_after_update u.id (moved u) (λ d. refl) (λ d. refl) (λ d. refl)
                    x.work_item_id db.drafts x top (sym id) (ap is_active (state ∙ ends)) h);
          })
          ladder)
]
