-- ===== src/Storage/Projection/Effects.antt =====
-- packages/storage-sqlite/src/work-item-projection.ts: what a put leaves as it is.
use twindesk.Prelude.{◌≡◌, ◌≢◌, refl, ◌∙◌, Option, none, some, ◌∷◌, String, arith, string_eq}
use twindesk.Result.{ok, >>=-eq-ok}
use twindesk.Domain.Records.{ExternalThread, WorkItem}
use twindesk.Storage.Table.{find-update, find_there}
use twindesk.Storage.Database.{Database}
use twindesk.Storage.Digest.{Document}
use twindesk.Storage.Projection.Rows.{
  WorkItemProjectionInput, WorkItemProjectionWriteResult, WriteDisposition, base_row, current_row,
  read_base, read_thread_in_snapshot,
}
use twindesk.Storage.Projection.Materialize.{write_current_projection, rebuild_in_transaction}
use twindesk.Storage.Projection.Put.{
  put_thread, write_thread, advance_thread, put_base, write_base, advance_base, updated_base,
  update_base, put_work_item_projection_in_transaction,
}
use twindesk.Storage.Projection.Advance.{assert_thread_not_deleted, validate_source_events}
use twindesk.Storage.Projection.View.{
  view, view_of_written, rebuild_in_transaction_effect, current_row_written,
}

put_thread_effect :
    (db : Database) (t : ExternalThread) (found : Option ExternalThread) (d : WriteDisposition)
    (db' : Database)
    → put_thread db t found ≡ ok (d, db')
    → db' ≡ record db { threads = db'.threads }
unfolding put_thread advance_thread
put_thread_effect db t none d db' h = ground arith
put_thread_effect db t (some existing) d db' h = ground arith

write_thread_effect :
    (db : Database) (t : ExternalThread) (d : WriteDisposition) (db' : Database)
    → write_thread db t ≡ ok (d, db')
    → db' ≡ record db { threads = db'.threads }
unfolding write_thread
write_thread_effect db t d db' h =
    let (found, h₁, h₂) = >>=-eq-ok (read_thread_in_snapshot db t.id) _ h in
    put_thread_effect db t found d db' h₂

find_of_update_base :
    (db : Database) (w : WorkItem) (j : String)
    → w.id ≢ j
    → base_row (update_base db w) j ≡ base_row db j
unfolding base_row updated_base
find_of_update_base db w j n =
    ground (arith, find-update (λ b. b.id) w.id j (updated_base w) (λ r. refl) db.bases)

-- What a write of a base leaves.
abbrev BaseWritten : Database → WorkItem → Database → Type 0
BaseWritten db w db' =
    (db' ≡ record db { bases = db'.bases })
    × ((j : String) → w.id ≢ j → base_row db' j ≡ base_row db j)

put_base_effect :
    (db : Database) (w : WorkItem) (found : Option WorkItem) (d : WriteDisposition) (db' : Database)
    → put_base db w found ≡ ok (d, db')
    → BaseWritten db w db'
unfolding put_base advance_base base_row
put_base_effect db w none d db' h = (
  ground arith,
  λ j n.
      let same : db' ≡ record db { bases = w ∷ db.bases } = ground arith in
      rw same (find_there (λ b. b.id) j w db.bases n),
)
put_base_effect db w (some existing) d db' h =
    (ground arith, λ j n. ground (arith, find_of_update_base db w j n))

pub write_base_effect :
    (db : Database) (w : WorkItem) (d : WriteDisposition) (db' : Database)
    → write_base db w ≡ ok (d, db')
    → BaseWritten db w db'
unfolding write_base
write_base_effect db w d db' h =
    let (found, h₁, h₂) = >>=-eq-ok (read_base db w.id) _ h in put_base_effect db w found d db' h₂

-- A put leaves every table but those of threads, bases and work items, and of the last two every
-- row but its own, which becomes the view.
pub record IsPut (db : Database) (id : String) (db' : Database) : Type 0 where
  pub frame :
      db' ≡ record db { threads = db'.threads; bases = db'.bases; work_items = db'.work_items }
  pub bases : (j : String) → id ≢ j → base_row db' j ≡ base_row db j
  pub current : (j : String) → id ≢ j → current_row db' j ≡ current_row db j
  pub here : current_row db' id ≡ view db' id

-- The three writes of a put, one after the other.
IsPut-steps :
    (db mid last db' : Database) (id : String) (w item : WorkItem)
    → mid ≡ record db { threads = mid.threads }
    → w.id ≡ id
    → BaseWritten mid w last
    → view last id ≡ some item
    → item.id ≡ id
    → db' ≡ write_current_projection last item
    → IsPut db id db'
unfolding base_row current_row write_current_projection
IsPut-steps db mid last db' id w item first e second seen same written = record {
  frame = ground (arith, second.0);
  bases = λ j n. ground (arith, second.1 j, second.0);
  current = λ j n. rw written (ground (arith, second.0, current_row_written last item j));
  here = rw written (
      rw (view_of_written last item id)
        (rw seen (ground (arith, current_row_written last item id))));
}

module _ (sha256_hex : Document → String) where
  pub put_work_item_projection_in_transaction_effect :
      (db : Database) (input : WorkItemProjectionInput) (r : WorkItemProjectionWriteResult)
      (db' : Database)
      → put_work_item_projection_in_transaction sha256_hex db input ≡ ok (r, db')
      → IsPut db input.work_item.id db'
  unfolding put_work_item_projection_in_transaction
  put_work_item_projection_in_transaction_effect db input r db' h =
      let (_, _, h₁) = >>=-eq-ok (assert_thread_not_deleted sha256_hex db input.thread.id) _ h in
      let (_, _, h₂) =
        >>=-eq-ok (validate_source_events db input.thread input.thread.source_event_ids) _ h₁ in
      let (thread, t₁, h₃) = >>=-eq-ok (write_thread db input.thread) _ h₂ in
      let (base, b₁, h₄) = >>=-eq-ok (write_base thread.1 input.work_item) _ h₃ in
      let (item, i₁, h₅) = >>=-eq-ok (rebuild_in_transaction base.1 input.work_item.id) _ h₄ in
      let (seen, same, written) =
        rebuild_in_transaction_effect base.1 input.work_item.id item.0 item.1 i₁ in
      let is_last : db' ≡ item.1 = ground arith in
      IsPut-steps db thread.1 base.1 db' input.work_item.id input.work_item item.0
        (write_thread_effect db input.thread thread.0 thread.1 t₁) refl
        (write_base_effect thread.1 input.work_item base.0 base.1 b₁) seen same (is_last ∙ written)
