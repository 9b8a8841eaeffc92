-- ===== src/Storage/Projection/Refinement.antt =====
-- packages/storage-sqlite/src/work-item-projection.ts: the stored work items are the bases with the
-- user's actions on them, after any history of puts, actions and rebuilds.
use twindesk.Prelude.{
  ◌≡◌, ◌≢◌, refl, sym, ap, ◌∙◌, List, [], ◌∷◌, String, arith, String_discrete, ◌==◌, string_eq,
}
use twindesk.Result.{ok, >>=-eq-ok, rethrow, rethrow-eq-ok}
use twindesk.Domain.Records.{WorkItem, WorkItemUserAction}
use twindesk.Domain.Parsers.{parse_work_item_user_action}
use twindesk.Storage.Table.{select}
use twindesk.Storage.Database.{Database, committed, committed-keeps}
use twindesk.Storage.Digest.{Document}
use twindesk.Storage.DraftAction.Rows.{or_throw}
use twindesk.Storage.Projection.Rows.{
  ActionDisposition, WorkItemProjectionInput, WorkItemProjectionWriteResult,
  WorkItemUserActionWriteResult, base_row, current_row, read_base, actions_of,
  parse_projection_input, catch_projection, parse_stored_action,
}
use twindesk.Storage.Projection.Materialize.{rebuild_in_transaction, rebuild_work_item_projection}
use twindesk.Storage.Projection.Put.{
  put_work_item_projection_in_transaction, put_work_item_projection,
}
use twindesk.Storage.Projection.Actions.{
  action_conflicts, insert_action, rebuilt_with, write_action, action_at, repeated_action,
  new_action, action_transaction, apply_work_item_user_action,
}
use twindesk.Storage.Projection.View.{
  view, view_of_written, rebuild_in_transaction_effect, current_row_written,
}
use twindesk.Storage.Projection.Effects.{IsPut, put_work_item_projection_in_transaction_effect}

abbrev pub Agrees : Database → String → Type 0
Agrees db j = current_row db j ≡ view db j

-- A step at one work item, which leaves it in agreement and every other one as it was.
pub record IsStep (db : Database) (id : String) (db' : Database) : Type 0 where
  pub current : (j : String) → id ≢ j → current_row db' j ≡ current_row db j
  pub views : (j : String) → id ≢ j → view db' j ≡ view db j
  pub here : Agrees db' id

pub Agrees-after_step :
    (db : Database) (id : String) (db' : Database) (j : String)
    → IsStep db id db'
    → Agrees db j
    → Agrees db' j
Agrees-after_step db id db' j s h = elim (String_discrete id j) [
  | yes same ↦ rw (sym same) s.here
  | no other ↦ s.current j other ∙ h ∙ sym (s.views j other)
]

pub IsStep-of_put :
    (db : Database) (id : String) (db' : Database) → IsPut db id db' → IsStep db id db'
unfolding view actions_of
IsStep-of_put db id db' p = record {
  current = p.current;
  views = λ j n. rw (p.bases j n) (
      let same : db'.user_actions ≡ db.user_actions = ap (λ d. d.user_actions) p.frame in
      rw same refl);
  here = p.here;
}

IsStep-of_rebuild :
    (db : Database) (id : String) (w : WorkItem) (db' : Database)
    → rebuild_in_transaction db id ≡ ok (w, db')
    → IsStep db id db'
IsStep-of_rebuild db id w db' h =
    let (seen, same, written) = rebuild_in_transaction_effect db id w db' h in
    rw written (record {
      current = λ j n. ground (arith, current_row_written db w j);
      views = λ j n. view_of_written db w j;
      here = rw (view_of_written db w id) (rw seen (ground (arith, current_row_written db w id)));
    })

abbrev pub with_action : Database → WorkItemUserAction → Database
with_action db a = record db { user_actions = a ∷ db.user_actions }

pub insert_action_effect :
    (db : Database) (a : WorkItemUserAction) (db' : Database)
    → insert_action db a ≡ ok db'
    → db' ≡ with_action db a
unfolding insert_action
insert_action_effect db a db' h = ground arith

view_of_with_action :
    (db : Database) (a : WorkItemUserAction) (j : String)
    → a.work_item_id ≢ j
    → view (with_action db a) j ≡ view db j
unfolding view actions_of select base_row
view_of_with_action db a j n =
    let same : select (λ b. b.work_item_id == j) (a ∷ db.user_actions)
        ≡ select (λ b. b.work_item_id == j) db.user_actions =
      ground arith in
    rw same refl

-- An action on an item leaves the others' views, and so does the rebuild that follows.
IsStep-after_action :
    (db mid : Database) (a : WorkItemUserAction) (w : WorkItem) (db' : Database)
    → mid ≡ with_action db a
    → rebuild_in_transaction mid a.work_item_id ≡ ok (w, db')
    → IsStep db a.work_item_id db'
unfolding current_row
IsStep-after_action db mid a w db' e h =
    let step = IsStep-of_rebuild mid a.work_item_id w db' h in
    record {
      current = λ j n. step.current j n ∙ rw e refl;
      views = λ j n. step.views j n ∙ rw e (view_of_with_action db a j n);
      here = step.here;
    }

pub rebuilt_with-IsStep :
    (d : ActionDisposition) (db : Database) (id : String) (r : WorkItemUserActionWriteResult)
    (db' : Database)
    → rebuilt_with d db id ≡ ok (r, db')
    → (w : WorkItem) × (rebuild_in_transaction db id ≡ ok (w, db'))
unfolding rebuilt_with
rebuilt_with-IsStep d db id r db' h =
    let (item, h₁, h₂) = >>=-eq-ok (rebuild_in_transaction db id) _ h in (item.0, h₁ ∙ ground arith)

write_action-IsStep :
    (db : Database) (a : WorkItemUserAction) (r : WorkItemUserActionWriteResult) (db' : Database)
    → write_action db a ≡ ok (r, db')
    → IsStep db a.work_item_id db'
unfolding write_action
write_action-IsStep db a r db' h =
    let (stored, h₁, h₂) = >>=-eq-ok (insert_action db a) _ h in
    let (w, h₃) = rebuilt_with-IsStep _ stored a.work_item_id r db' h₂ in
    IsStep-after_action db stored a w db' (insert_action_effect db a stored h₁) h₃

pub new_action_written :
    (db : Database) (base : WorkItem) (a : WorkItemUserAction) (r : WorkItemUserActionWriteResult)
    (db' : Database)
    → new_action db base a ≡ ok (r, db')
    → write_action db a ≡ ok (r, db')
unfolding new_action
new_action_written db base a r db' h = ground arith

pub repeated_action_rebuilt :
    (db : Database) (a : WorkItemUserAction) (rows : List WorkItemUserAction)
    (r : WorkItemUserActionWriteResult) (db' : Database)
    → repeated_action db a rows ≡ ok (r, db')
    → rebuilt_with ActionDisposition.duplicate db a.work_item_id ≡ ok (r, db')
unfolding repeated_action
repeated_action_rebuilt db a [] r db' h = cc
repeated_action_rebuilt db a (row ∷ []) r db' h =
    let (stored, h₁, h₂) = >>=-eq-ok (parse_stored_action row) _ h in ground arith
repeated_action_rebuilt db a (row ∷ other ∷ rows) r db' h = cc

action_rows-IsStep :
    (db : Database) (base : WorkItem) (a : WorkItemUserAction) (rows : List WorkItemUserAction)
    (r : WorkItemUserActionWriteResult) (db' : Database)
    → action_at db base a rows ≡ ok (r, db')
    → IsStep db a.work_item_id db'
unfolding action_at
action_rows-IsStep db base a [] r db' h =
    write_action-IsStep db a r db' (new_action_written db base a r db' h)
action_rows-IsStep db base a (row ∷ rows) r db' h =
    let (w, rebuilt) =
      rebuilt_with-IsStep _ db a.work_item_id r db'
        (repeated_action_rebuilt db a (row ∷ rows) r db' h) in
    IsStep-of_rebuild db a.work_item_id w db' rebuilt

pub parse_action_same :
    (input a : WorkItemUserAction) → parse_work_item_user_action input ≡ ok a → a ≡ input
unfolding parse_work_item_user_action
parse_action_same input a h = ground arith

apply_work_item_user_action-IsStep :
    (db : Database) (input : WorkItemUserAction) (r : WorkItemUserActionWriteResult)
    (db' : Database)
    → apply_work_item_user_action db input ≡ ok (r, db')
    → IsStep db input.work_item_id db'
unfolding apply_work_item_user_action action_transaction
apply_work_item_user_action-IsStep db input r db' h =
    let (a, h₁, h₂) = >>=-eq-ok (parse_work_item_user_action input) _ h in
    let h₃ = rethrow-eq-ok catch_projection (action_transaction db a) h₂ in
    let (found, _, h₄) = >>=-eq-ok (read_base db a.work_item_id) _ h₃ in
    let (base, _, h₅) = >>=-eq-ok (or_throw found _) _ h₄ in
    rw (sym (parse_action_same input a h₁))
      (action_rows-IsStep db base a (select (action_conflicts a) db.user_actions) r db' h₅)

rebuild_work_item_projection-IsStep :
    (db : Database) (id : String) (w : WorkItem) (db' : Database)
    → rebuild_work_item_projection db id ≡ ok (w, db')
    → IsStep db id db'
unfolding rebuild_work_item_projection
rebuild_work_item_projection-IsStep db id w db' h =
    let h₁ : rethrow catch_projection (rebuild_in_transaction db id) ≡ ok (w, db') = ground arith in
    IsStep-of_rebuild db id w db' (rethrow-eq-ok catch_projection (rebuild_in_transaction db id) h₁)

pub data ProjectionCall : Type 0 where
  puts : WorkItemProjectionInput → ProjectionCall
  acts : WorkItemUserAction → ProjectionCall
  rebuilds : String → ProjectionCall

module _ (sha256_hex : Document → String) where
  put_work_item_projection-IsStep :
      (db : Database) (input : WorkItemProjectionInput) (r : WorkItemProjectionWriteResult)
      (db' : Database)
      → put_work_item_projection sha256_hex db input ≡ ok (r, db')
      → (id : String) × IsStep db id db'
  unfolding put_work_item_projection
  put_work_item_projection-IsStep db input r db' h =
      let (p, _, h₁) = >>=-eq-ok (parse_projection_input input) _ h in
      (
        p.work_item.id,
        IsStep-of_put db p.work_item.id db' (
            put_work_item_projection_in_transaction_effect sha256_hex db p r db' (
              rethrow-eq-ok catch_projection
                (put_work_item_projection_in_transaction sha256_hex db p) h₁)),
      )

  unfoldable pub call : Database → ProjectionCall → Database
  call db (puts input) = committed db (put_work_item_projection sha256_hex db input)
  call db (acts a) = committed db (apply_work_item_user_action db a)
  call db (rebuilds id) = committed db (rebuild_work_item_projection db id)

  unfoldable pub calls : Database → List ProjectionCall → Database
  unfolding call
  calls db [] = db
  calls db (c ∷ cs) = calls (call db c) cs

  call-Agrees :
      (db : Database) (c : ProjectionCall) (j : String) → Agrees db j → Agrees (call db c) j
  unfolding call
  call-Agrees db (puts input) j a =
      committed-keeps (λ x. Agrees x j) db (put_work_item_projection sha256_hex db input) a
        (λ r db' h.
          let (id, s) = put_work_item_projection-IsStep db input r db' h in
          Agrees-after_step db id db' j s a)
  call-Agrees db (acts action) j a =
      committed-keeps (λ x. Agrees x j) db (apply_work_item_user_action db action) a
        (λ r db' h.
          Agrees-after_step db action.work_item_id db' j
            (apply_work_item_user_action-IsStep db action r db' h) a)
  call-Agrees db (rebuilds id) j a =
      committed-keeps (λ x. Agrees x j) db (rebuild_work_item_projection db id) a
        (λ w db' h.
          Agrees-after_step db id db' j (rebuild_work_item_projection-IsStep db id w db' h) a)

  -- Where a work item agrees with its base and the user's actions on it, which it does in an empty
  -- database, it agrees after any history of puts, actions and rebuilds, refused ones included: it
  -- is stored exactly where its base is, and is the base with the actions in the order of their
  -- revisions.
  pub calls-view :
      (db : Database) (cs : List ProjectionCall) (id : String)
      → current_row db id ≡ view db id
      → current_row (calls db cs) id ≡ view (calls db cs) id
  unfolding calls
  calls-view db [] id a = a
  calls-view db (c ∷ cs) id a = calls-view (call db c) cs id (call-Agrees db c id a)
