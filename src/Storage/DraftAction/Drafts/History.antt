-- ===== src/Storage/DraftAction/Drafts/History.antt =====
-- The drafts that any history of calls leaves.
use twindesk.Prelude.{
  ℕ, ◌≤◌, ◌≡◌, refl, ap, Bool, true, ◌&&◌, List, [], ◌∷◌, String, arith, leb, ◌==◌, string_eq,
  nat_eq, count_if, all, not, ◌||◌, ◌!=◌, if◌then◌else◌,
}
use twindesk.Domain.Model.{Draft, DraftStateTransition}
use twindesk.Storage.Database.{Database, committed, committed-keeps}
use twindesk.Storage.DraftAction.Rows.{DraftRevisionWrite, is_active}
use twindesk.Storage.DraftAction.Drafts.{create_draft, transition_draft, revise_draft}
use twindesk.Storage.DraftAction.Drafts.Ladder.{belongs, count_of, AllInactive, IsLadder}
use twindesk.Storage.DraftAction.Drafts.Order.{
  create_draft-IsLadder, transition_draft-IsLadder, revise_draft-IsLadder,
}

pub data DraftCall : Type 0 where
  creates : Draft → DraftCall
  moves : DraftStateTransition → DraftCall
  revises : DraftRevisionWrite → DraftCall

unfoldable pub call : Database → DraftCall → Database
call db (creates d) = committed db (create_draft db d)
call db (moves t) = committed db (transition_draft db t)
call db (revises w) = committed db (revise_draft db w)

unfoldable pub calls : Database → List DraftCall → Database
calls db [] = db
calls db (c ∷ cs) = calls (call db c) cs

call-IsLadder : (db : Database) (c : DraftCall) → IsLadder db.drafts → IsLadder (call db c).drafts
unfolding call
call-IsLadder db (creates d) h =
    committed-keeps (λ x. IsLadder x.drafts) db (create_draft db d) h
      (λ a db' e. create_draft-IsLadder db d e h)
call-IsLadder db (moves t) h =
    committed-keeps (λ x. IsLadder x.drafts) db (transition_draft db t) h
      (λ a db' e. transition_draft-IsLadder db t e h)
call-IsLadder db (revises w) h =
    committed-keeps (λ x. IsLadder x.drafts) db (revise_draft db w) h
      (λ a db' e. revise_draft-IsLadder db w e h)

calls-IsLadder :
    (db : Database) (cs : List DraftCall) → IsLadder db.drafts → IsLadder (calls db cs).drafts
unfolding calls
calls-IsLadder db [] h = h
calls-IsLadder db (c ∷ cs) h = calls-IsLadder (call db c) cs (call-IsLadder db c h)

abbrev active_in : String → Draft → Bool
active_in item d = belongs item d && is_active d.state

abbrev revision_in : String → ℕ → Draft → Bool
revision_in item r d = belongs item d && d.revision == r

-- The drafts of a table in order, whatever the order of its rows.
pub record InOrder (rows : List Draft) : Type 0 where
  pub one_active : (item : String) → count_if (active_in item) rows ≤ 1
  pub revisions :
      (item : String) (r : ℕ)
      → count_if (revision_in item r) rows
        ≡ (if leb 1 r && leb r (count_of item rows) then 1 else 0)
  pub newest :
      (item : String)
      → all
          (λ d.
            d.work_item_id != item || not (is_active d.state) || d.revision == count_of item rows)
          rows
        ≡ true

none_active :
    (j item : String) (rows : List Draft)
    → AllInactive j rows
    → j ≡ item
    → count_if (active_in item) rows ≡ 0
none_active j item [] h e = refl
none_active j item (d ∷ rows) h e = ground (arith, none_active j item rows h.1 e)

inactive_below :
    (j item : String) (n : ℕ) (rows : List Draft)
    → AllInactive j rows
    → j ≡ item
    → all (λ d. d.work_item_id != item || not (is_active d.state) || d.revision == n) rows ≡ true
inactive_below j item n [] h e = refl
inactive_below j item n (d ∷ rows) h e = ground (arith, inactive_below j item n rows h.1 e)

one_active_of_ladder :
    (item : String) (rows : List Draft) → IsLadder rows → count_if (active_in item) rows ≤ 1
one_active_of_ladder item [] h = omega arith
one_active_of_ladder item (d ∷ rows) h =
    ground (arith, one_active_of_ladder item rows h.3, none_active d.work_item_id item rows h.1)

count_of-same :
    (j item : String) (rows : List Draft) → j ≡ item → count_of j rows ≡ count_of item rows
count_of-same j item rows e = ap (λ i. count_of i rows) e

revisions_of_ladder :
    (item : String) (r : ℕ) (rows : List Draft)
    → IsLadder rows
    → count_if (revision_in item r) rows ≡ (if leb 1 r && leb r (count_of item rows) then 1 else 0)
unfolding count_of
revisions_of_ladder item r [] h = ground arith
revisions_of_ladder item r (d ∷ rows) h =
    ground (arith, revisions_of_ladder item r rows h.3, count_of-same d.work_item_id item rows)

newest_of_ladder :
    (item : String) (n : ℕ) (rows : List Draft)
    → IsLadder rows
    → count_of item rows ≡ n
    → all (λ d. d.work_item_id != item || not (is_active d.state) || d.revision == n) rows ≡ true
unfolding count_of
newest_of_ladder item n [] h e = refl
newest_of_ladder item n (d ∷ rows) h e = ground (
  arith,
  newest_of_ladder item n rows h.3,
  inactive_below d.work_item_id item n rows h.1,
  count_of-same d.work_item_id item rows,
)

-- After any history of creations, transitions and revisions from an empty table, refused ones
-- included, each work item has at most one active draft, its drafts have the revisions 1 to their
-- number once each, and an active draft is the one with the last revision.
pub calls-InOrder :
    (db : Database) (cs : List DraftCall) → db.drafts ≡ [] → InOrder (calls db cs).drafts
calls-InOrder db cs e =
    let h = calls-IsLadder db cs (rw e tt) in
    record {
      one_active = λ item. one_active_of_ladder item (calls db cs).drafts h;
      revisions = λ item r. revisions_of_ladder item r (calls db cs).drafts h;
      newest = λ item.
          newest_of_ladder item (count_of item (calls db cs).drafts) (calls db cs).drafts h refl;
    }
