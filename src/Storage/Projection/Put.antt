-- ===== src/Storage/Projection/Put.antt =====
-- packages/storage-sqlite/src/work-item-projection.ts: storing a new version of a thread and of the
-- base of a work item.
use twindesk.Prelude.{Option, none, some, List, [], ◌∷◌, String, ◌==◌, if◌then◌else◌}
use twindesk.Result.{Result, ok, ◌>>=◌, ◌>>◌, rethrow}
use twindesk.Domain.Records.{ExternalThread, WorkItem, external_thread_eq, work_item_eq}
use twindesk.Storage.Table.{update}
use twindesk.Storage.Database.{Database}
use twindesk.Storage.Digest.{Document}
use twindesk.Storage.Projection.Rows.{
  WorkItemProjectionInput, WriteDisposition, inserted, updated, unchanged,
  WorkItemProjectionWriteResult, catch_projection, parse_projection_input, read_thread_in_snapshot,
  read_base,
}
use twindesk.Storage.Projection.Advance.{
  assert_thread_not_deleted, validate_source_events, assert_thread_can_advance,
  assert_base_can_advance,
}
use twindesk.Storage.Projection.Materialize.{rebuild_in_transaction}

-- The columns that the UPDATE of a thread sets, and its links.
unfoldable pub updated_thread : ExternalThread → ExternalThread → ExternalThread
updated_thread thread t = record t {
  subject = thread.subject;
  updated_at = thread.updated_at;
  external_references = thread.external_references;
  source_event_ids = thread.source_event_ids;
}

abbrev pub update_thread : Database → ExternalThread → Database
update_thread db thread = record db {
  threads = update (λ t. t.id) thread.id (updated_thread thread) db.threads;
}

unfoldable pub advance_thread :
    Database → ExternalThread → ExternalThread → Result (WriteDisposition × Database)
unfolding assert_thread_can_advance update updated_thread
advance_thread db thread existing = do
  assert_thread_can_advance existing thread
  if existing == thread then ok (unchanged, db) else ok (updated, update_thread db thread)

-- `writeThread` and `writeBase`, at what is stored.
unfoldable pub put_thread :
    Database → ExternalThread → Option ExternalThread → Result (WriteDisposition × Database)
unfolding advance_thread
put_thread db thread none = ok (inserted, record db { threads = thread ∷ db.threads })
put_thread db thread (some existing) = advance_thread db thread existing

unfoldable pub write_thread : Database → ExternalThread → Result (WriteDisposition × Database)
unfolding put_thread read_thread_in_snapshot
write_thread db thread =
    read_thread_in_snapshot db thread.id >>= λ found. put_thread db thread found

unfoldable pub updated_base : WorkItem → WorkItem → WorkItem
updated_base work_item w = record w {
  inbox_state = work_item.inbox_state;
  title = work_item.title;
  summary = work_item.summary;
  attention_reason = work_item.attention_reason;
  selected_persona_id = work_item.selected_persona_id;
  updated_at = work_item.updated_at;
  source_event_ids = work_item.source_event_ids;
}

abbrev pub update_base : Database → WorkItem → Database
update_base db work_item = record db {
  bases = update (λ w. w.id) work_item.id (updated_base work_item) db.bases;
}

unfoldable pub advance_base : Database → WorkItem → WorkItem → Result (WriteDisposition × Database)
unfolding assert_base_can_advance update updated_base
advance_base db work_item existing = do
  assert_base_can_advance existing work_item
  if existing == work_item then ok (unchanged, db) else ok (updated, update_base db work_item)

unfoldable pub put_base :
    Database → WorkItem → Option WorkItem → Result (WriteDisposition × Database)
unfolding advance_base
put_base db work_item none = ok (inserted, record db { bases = work_item ∷ db.bases })
put_base db work_item (some existing) = advance_base db work_item existing

unfoldable pub write_base : Database → WorkItem → Result (WriteDisposition × Database)
unfolding put_base read_base
write_base db work_item = read_base db work_item.id >>= λ found. put_base db work_item found

unfoldable pub combined_disposition : WriteDisposition → WriteDisposition → WriteDisposition
combined_disposition inserted base = inserted
combined_disposition updated inserted = inserted
combined_disposition updated base = updated
combined_disposition unchanged base = base

module _ (sha256_hex : Document → String) where
  unfoldable pub put_work_item_projection_in_transaction :
      Database → WorkItemProjectionInput → Result (WorkItemProjectionWriteResult × Database)
  unfolding assert_thread_not_deleted validate_source_events write_thread write_base
      rebuild_in_transaction combined_disposition
  put_work_item_projection_in_transaction db input = do
    assert_thread_not_deleted sha256_hex db input.thread.id
    validate_source_events db input.thread input.thread.source_event_ids
    thread ← write_thread db input.thread
    base ← write_base thread.1 input.work_item
    item ← rebuild_in_transaction base.1 input.work_item.id
    ok (record { disposition = combined_disposition thread.0 base.0; work_item = item.0 }, item.1)

  unfoldable pub put_work_item_projection :
      Database → WorkItemProjectionInput → Result (WorkItemProjectionWriteResult × Database)
  unfolding parse_projection_input put_work_item_projection_in_transaction
  put_work_item_projection db input = do
    projection ← parse_projection_input input
    rethrow catch_projection (put_work_item_projection_in_transaction db projection)

  -- The projections of one batch, in their order.
  unfoldable pub put_projections :
      Database
      → List WorkItemProjectionInput
      → Result (List WorkItemProjectionWriteResult × Database)
  unfolding put_work_item_projection_in_transaction
  put_projections db [] = ok ([], db)
  put_projections db (p ∷ ps) = do
    first ← put_work_item_projection_in_transaction db p
    rest ← put_projections first.1 ps
    ok (first.0 ∷ rest.0, rest.1)
