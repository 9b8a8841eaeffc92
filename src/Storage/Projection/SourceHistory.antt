-- ===== src/Storage/Projection/SourceHistory.antt =====
-- packages/storage-sqlite/src/work-item-projection.ts: the sources of threads after any history of
-- puts, actions and rebuilds.
use twindesk.Prelude.{◌≡◌, refl, ap, ◌∙◌, true, List, [], ◌∷◌, String, arith, string_eq}
use twindesk.Result.{ok, >>=-eq-ok, rethrow, rethrow-eq-ok}
use twindesk.Domain.Records.{WorkItem, WorkItemUserAction}
use twindesk.Domain.Parsers.{parse_work_item_user_action}
use twindesk.Storage.Table.{select}
use twindesk.Storage.Database.{Database, committed-keeps}
use twindesk.Storage.Digest.{Document}
use twindesk.Storage.DraftAction.Rows.{or_throw}
use twindesk.Storage.Projection.Rows.{
  WorkItemProjectionInput, WorkItemProjectionWriteResult, WorkItemUserActionWriteResult,
  catch_projection, parse_projection_input, read_base,
}
use twindesk.Storage.Projection.Materialize.{
  rebuild_in_transaction, rebuild_work_item_projection, write_current_projection,
}
use twindesk.Storage.Projection.Put.{
  put_work_item_projection, put_work_item_projection_in_transaction,
}
use twindesk.Storage.Projection.Actions.{
  action_conflicts, insert_action, write_action, action_at, action_transaction,
  apply_work_item_user_action,
}
use twindesk.Storage.Projection.View.{rebuild_in_transaction_effect}
use twindesk.Storage.Projection.Refinement.{
  ProjectionCall, puts, acts, rebuilds, call, calls, insert_action_effect, rebuilt_with-IsStep,
  new_action_written, repeated_action_rebuilt,
}
use twindesk.Storage.Projection.Sources.{
  keeps_sources, keeps_sources_refl, keeps_sources_trans, write_thread_kept,
}
use twindesk.Storage.Projection.Rows.{thread_row}
use twindesk.Storage.Projection.Advance.{assert_thread_not_deleted, validate_source_events}
use twindesk.Storage.Projection.Put.{write_thread, write_base}
use twindesk.Storage.Projection.Effects.{write_base_effect}

abbrev Kept : Database → Database → String → Type 0
Kept db db' j = keeps_sources (thread_row db j) (thread_row db' j) ≡ true

same_threads-Kept : (db db' : Database) (j : String) → db'.threads ≡ db.threads → Kept db db' j
unfolding thread_row
same_threads-Kept db db' j e = rw e (keeps_sources_refl (thread_row db j))

rebuild_keeps_threads :
    (db : Database) (id : String) (w : WorkItem) (db' : Database)
    → rebuild_in_transaction db id ≡ ok (w, db')
    → db'.threads ≡ db.threads
unfolding write_current_projection
rebuild_keeps_threads db id w db' h =
    let (_, _, written) = rebuild_in_transaction_effect db id w db' h in ap (λ d. d.threads) written

write_action_keeps_threads :
    (db : Database) (a : WorkItemUserAction) (r : WorkItemUserActionWriteResult) (db' : Database)
    → write_action db a ≡ ok (r, db')
    → db'.threads ≡ db.threads
unfolding write_action
write_action_keeps_threads db a r db' h =
    let (stored, h₁, h₂) = >>=-eq-ok (insert_action db a) _ h in
    let (w, h₃) = rebuilt_with-IsStep _ stored a.work_item_id r db' h₂ in
    rebuild_keeps_threads stored a.work_item_id w db' h₃
    ∙ ap (λ d. d.threads) (insert_action_effect db a stored h₁)

action_at_keeps_threads :
    (db : Database) (base : WorkItem) (a : WorkItemUserAction) (rows : List WorkItemUserAction)
    (r : WorkItemUserActionWriteResult) (db' : Database)
    → action_at db base a rows ≡ ok (r, db')
    → db'.threads ≡ db.threads
unfolding action_at
action_at_keeps_threads db base a [] r db' h =
    write_action_keeps_threads db a r db' (new_action_written db base a r db' h)
action_at_keeps_threads db base a (row ∷ rows) r db' h =
    let (w, rebuilt) =
      rebuilt_with-IsStep _ db a.work_item_id r db'
        (repeated_action_rebuilt db a (row ∷ rows) r db' h) in
    rebuild_keeps_threads db a.work_item_id w db' rebuilt

action_keeps_threads :
    (db : Database) (input : WorkItemUserAction) (r : WorkItemUserActionWriteResult)
    (db' : Database)
    → apply_work_item_user_action db input ≡ ok (r, db')
    → db'.threads ≡ db.threads
unfolding apply_work_item_user_action action_transaction
action_keeps_threads db input r db' h =
    let (a, h₁, h₂) = >>=-eq-ok (parse_work_item_user_action input) _ h in
    let h₃ = rethrow-eq-ok catch_projection (action_transaction db a) h₂ in
    let (found, _, h₄) = >>=-eq-ok (read_base db a.work_item_id) _ h₃ in
    let (base, _, h₅) = >>=-eq-ok (or_throw found _) _ h₄ in
    action_at_keeps_threads db base a (select (action_conflicts a) db.user_actions) r db' h₅

module _ (sha256_hex : Document → String) where
  put-Kept :
      (db : Database) (input : WorkItemProjectionInput) (r : WorkItemProjectionWriteResult)
      (db' : Database) (j : String)
      → put_work_item_projection_in_transaction sha256_hex db input ≡ ok (r, db')
      → Kept db db' j
  unfolding put_work_item_projection_in_transaction thread_row
  put-Kept db input r db' j h =
      let (_, _, h₁) = >>=-eq-ok (assert_thread_not_deleted sha256_hex db input.thread.id) _ h in
      let (_, _, h₂) =
        >>=-eq-ok (validate_source_events db input.thread input.thread.source_event_ids) _ h₁ in
      let (thread, t₁, h₃) = >>=-eq-ok (write_thread db input.thread) _ h₂ in
      let (base, b₁, h₄) = >>=-eq-ok (write_base thread.1 input.work_item) _ h₃ in
      let (item, i₁, h₅) = >>=-eq-ok (rebuild_in_transaction base.1 input.work_item.id) _ h₄ in
      let is_last : db' ≡ item.1 = ground arith in
      let (frame, _) = write_base_effect thread.1 input.work_item base.0 base.1 b₁ in
      let same : db'.threads ≡ thread.1.threads =
        ap (λ d. d.threads) is_last
        ∙ rebuild_keeps_threads base.1 input.work_item.id item.0 item.1 i₁
        ∙ ap (λ d. d.threads) frame in
      rw same (write_thread_kept db input.thread thread.0 thread.1 j t₁)

  call-Kept : (db : Database) (c : ProjectionCall) (j : String) → Kept db (call sha256_hex db c) j
  unfolding call put_work_item_projection rebuild_work_item_projection
  call-Kept db (puts input) j =
      committed-keeps (λ x. Kept db x j) db (put_work_item_projection sha256_hex db input)
        (same_threads-Kept db db j refl)
        (λ r db' h.
          let (p, _, h₁) = >>=-eq-ok (parse_projection_input input) _ h in
          put-Kept db p r db' j (
            rethrow-eq-ok catch_projection (put_work_item_projection_in_transaction sha256_hex db p)
              h₁))
  call-Kept db (acts a) j =
      committed-keeps (λ x. Kept db x j) db (apply_work_item_user_action db a)
        (same_threads-Kept db db j refl)
        (λ r db' h. same_threads-Kept db db' j (action_keeps_threads db a r db' h))
  call-Kept db (rebuilds id) j =
      committed-keeps (λ x. Kept db x j) db (rebuild_work_item_projection db id)
        (same_threads-Kept db db j refl)
        (λ w db' h.
          let h₁ : rethrow catch_projection (rebuild_in_transaction db id) ≡ ok (w, db') =
            ground arith in
          same_threads-Kept db db' j (
            rebuild_keeps_threads db id w db'
              (rethrow-eq-ok catch_projection (rebuild_in_transaction db id) h₁)))

  -- Over any history of puts, actions and rebuilds, refused ones included, a stored thread stays
  -- stored with the time of its creation, keeps every event that it names, and its time never goes
  -- back.
  pub calls-keeps_sources :
      (db : Database) (cs : List ProjectionCall) (id : String)
      → keeps_sources (thread_row db id) (thread_row (calls sha256_hex db cs) id) ≡ true
  unfolding calls
  calls-keeps_sources db [] id = keeps_sources_refl (thread_row db id)
  calls-keeps_sources db (c ∷ cs) id =
      keeps_sources_trans (thread_row db id) (thread_row (call sha256_hex db c) id)
        (thread_row (calls sha256_hex (call sha256_hex db c) cs) id) (call-Kept db c id)
        (calls-keeps_sources (call sha256_hex db c) cs id)
