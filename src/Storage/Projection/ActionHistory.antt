-- ===== src/Storage/Projection/ActionHistory.antt =====
-- packages/storage-sqlite/src/work-item-projection.ts: the numbers of the user's actions after any
-- history of puts, actions and rebuilds.
use twindesk.Prelude.{◌≡◌, sym, ap, ◌∙◌, List, [], ◌∷◌, String, arith, length, string_eq}
use twindesk.Result.{ok, >>=-eq-ok, rethrow, rethrow-eq-ok}
use twindesk.Domain.Records.{WorkItem, WorkItemUserAction}
use twindesk.Domain.Parsers.{parse_work_item_user_action}
use twindesk.Storage.Table.{select}
use twindesk.Storage.Database.{Database, committed-keeps}
use twindesk.Storage.Digest.{Document}
use twindesk.Storage.DraftAction.Rows.{or_throw}
use twindesk.Storage.Projection.Rows.{
  WorkItemUserActionWriteResult, catch_projection, parse_projection_input, read_base, actions_of,
}
use twindesk.Storage.Projection.Materialize.{
  rebuild_in_transaction, rebuild_work_item_projection, write_current_projection,
}
use twindesk.Storage.Projection.Put.{
  put_work_item_projection, put_work_item_projection_in_transaction,
}
use twindesk.Storage.Projection.Actions.{
  action_conflicts, last_action, expected_revision, insert_action, write_action, new_action,
  action_at, action_transaction, apply_work_item_user_action,
}
use twindesk.Storage.Projection.View.{rebuild_in_transaction_effect}
use twindesk.Storage.Projection.Effects.{put_work_item_projection_in_transaction_effect}
use twindesk.Storage.Projection.Refinement.{
  ProjectionCall, puts, acts, rebuilds, call, calls, insert_action_effect, rebuilt_with-IsStep,
  new_action_written, repeated_action_rebuilt,
}
use twindesk.Storage.Projection.ActionLog.{
  IsLog, expected_revision-IsLog, numbered-IsLog, revisions, count_up,
}

-- What each call leaves of the actions: them, or them and the next one.
abbrev Grown : Database → Database → Type 0
Grown db db' = IsLog db.user_actions → IsLog db'.user_actions

rebuild_keeps_actions :
    (db : Database) (id : String) (w : WorkItem) (db' : Database)
    → rebuild_in_transaction db id ≡ ok (w, db')
    → db'.user_actions ≡ db.user_actions
unfolding write_current_projection
rebuild_keeps_actions db id w db' h =
    let (_, _, written) = rebuild_in_transaction_effect db id w db' h in
    ap (λ d. d.user_actions) written

written_action-IsLog :
    (db : Database) (a : WorkItemUserAction) (r : WorkItemUserActionWriteResult) (db' : Database)
    → a.revision ≡ expected_revision (last_action a.work_item_id db.user_actions)
    → write_action db a ≡ ok (r, db')
    → Grown db db'
unfolding write_action
written_action-IsLog db a r db' next h log =
    let (stored, h₁, h₂) = >>=-eq-ok (insert_action db a) _ h in
    let (w, h₃) = rebuilt_with-IsStep _ stored a.work_item_id r db' h₂ in
    let kept =
      rebuild_keeps_actions stored a.work_item_id w db' h₃
      ∙ ap (λ d. d.user_actions) (insert_action_effect db a stored h₁) in
    rw kept (next ∙ expected_revision-IsLog a.work_item_id db.user_actions log, log)

new_action-next :
    (db : Database) (base : WorkItem) (a : WorkItemUserAction) (r : WorkItemUserActionWriteResult)
    (db' : Database)
    → new_action db base a ≡ ok (r, db')
    → a.revision ≡ expected_revision (last_action a.work_item_id db.user_actions)
unfolding new_action
new_action-next db base a r db' h = ground arith

action_at-IsLog :
    (db : Database) (base : WorkItem) (a : WorkItemUserAction) (rows : List WorkItemUserAction)
    (r : WorkItemUserActionWriteResult) (db' : Database)
    → action_at db base a rows ≡ ok (r, db')
    → Grown db db'
unfolding action_at
action_at-IsLog db base a [] r db' h log =
    written_action-IsLog db a r db' (new_action-next db base a r db' h)
      (new_action_written db base a r db' h) log
action_at-IsLog db base a (row ∷ rows) r db' h log =
    let (w, rebuilt) =
      rebuilt_with-IsStep _ db a.work_item_id r db'
        (repeated_action_rebuilt db a (row ∷ rows) r db' h) in
    rw (rebuild_keeps_actions db a.work_item_id w db' rebuilt) log

apply_work_item_user_action-IsLog :
    (db : Database) (input : WorkItemUserAction) (r : WorkItemUserActionWriteResult)
    (db' : Database)
    → apply_work_item_user_action db input ≡ ok (r, db')
    → Grown db db'
unfolding apply_work_item_user_action action_transaction
apply_work_item_user_action-IsLog db input r db' h =
    let (a, h₁, h₂) = >>=-eq-ok (parse_work_item_user_action input) _ h in
    let h₃ = rethrow-eq-ok catch_projection (action_transaction db a) h₂ in
    let (found, _, h₄) = >>=-eq-ok (read_base db a.work_item_id) _ h₃ in
    let (base, _, h₅) = >>=-eq-ok (or_throw found _) _ h₄ in
    action_at-IsLog db base a (select (action_conflicts a) db.user_actions) r db' h₅

module _ (sha256_hex : Document → String) where
  call-IsLog :
      (db : Database) (c : ProjectionCall)
      → IsLog db.user_actions
      → IsLog (call sha256_hex db c).user_actions
  unfolding call put_work_item_projection rebuild_work_item_projection
  call-IsLog db (puts input) log =
      committed-keeps (λ x. IsLog x.user_actions) db (put_work_item_projection sha256_hex db input)
        log
        (λ r db' h.
          let (p, _, h₁) = >>=-eq-ok (parse_projection_input input) _ h in
          let put = put_work_item_projection_in_transaction_effect sha256_hex db p r db' (
            rethrow-eq-ok catch_projection (put_work_item_projection_in_transaction sha256_hex db p)
              h₁) in
          rw (ap (λ d. d.user_actions) put.frame) log)
  call-IsLog db (acts a) log =
      committed-keeps (λ x. IsLog x.user_actions) db (apply_work_item_user_action db a) log
        (λ r db' h. apply_work_item_user_action-IsLog db a r db' h log)
  call-IsLog db (rebuilds id) log =
      committed-keeps (λ x. IsLog x.user_actions) db (rebuild_work_item_projection db id) log
        (λ w db' h.
          let h₁ : rethrow catch_projection (rebuild_in_transaction db id) ≡ ok (w, db') =
            ground arith in
          rw
            (rebuild_keeps_actions db id w db'
              (rethrow-eq-ok catch_projection (rebuild_in_transaction db id) h₁))
            log)

  calls-IsLog :
      (db : Database) (cs : List ProjectionCall)
      → IsLog db.user_actions
      → IsLog (calls sha256_hex db cs).user_actions
  unfolding calls
  calls-IsLog db [] log = log
  calls-IsLog db (c ∷ cs) log = calls-IsLog (call sha256_hex db c) cs (call-IsLog db c log)

  -- After any history of puts, actions and rebuilds from a database without actions, refused ones
  -- included, the actions on a work item, as they are read, have the revisions 1 to their number, in
  -- that order.
  pub calls-revisions :
      (db : Database) (cs : List ProjectionCall) (item : String)
      → db.user_actions ≡ []
      → revisions (actions_of (calls sha256_hex db cs) item)
        ≡ count_up (length (actions_of (calls sha256_hex db cs) item))
  unfolding actions_of
  calls-revisions db cs item e =
      let log = calls-IsLog db cs (rw e tt) in
      let (numbers, count) = numbered-IsLog item (calls sha256_hex db cs).user_actions log in
      numbers ∙ ap count_up (sym count)
