-- ===== src/Storage/Projection/Rows.antt =====
-- packages/storage-sqlite/src/work-item-projection.ts: the inputs as they are parsed, and the stored
-- threads, bases and actions as they are read.
use twindesk.Prelude.{
  Bool, Option, none, some, List, [], ◌∷◌, String, all, any, length, leb, ◌==◌, ◌!=◌, string_eq,
  if◌then◌else◌,
}
use twindesk.Result.{Result, ok, Thrown, projection, ◌>>=◌, ◌>>◌, throw_if, throw_unless, rethrow}
use twindesk.Result.{WorkItemProjectionCode as Code}
use twindesk.Domain.Records.{ExternalThread, WorkItem, WorkItemUserAction}
use twindesk.Domain.Parsers.{
  distinct_by, same_text, parse_external_thread, parse_work_item, parse_work_item_user_action,
}
use twindesk.Storage.Table.{select, find}
use twindesk.Storage.Database.{Database}

pub record WorkItemProjectionInput : Type 0 where
  pub thread : ExternalThread
  pub work_item : WorkItem

pub data WriteDisposition : Type 0 where
  inserted updated unchanged : WriteDisposition

pub record WorkItemProjectionWriteResult : Type 0 where
  pub disposition : WriteDisposition
  pub work_item : WorkItem

pub data ActionDisposition : Type 0 where
  inserted duplicate : ActionDisposition

pub record WorkItemUserActionWriteResult : Type 0 where
  pub disposition : ActionDisposition
  pub work_item : WorkItem

abbrev pub fail : Code → Thrown
fail = projection

-- `wrapStorageError`
abbrev pub catch_projection : Thrown → Thrown
catch_projection (projection code) = projection code
catch_projection _ = projection Code.storage_error

abbrev pub stored_invalid {ℓ} : {A : Type ℓ} → Result A → Result A
stored_invalid = rethrow (λ _. fail Code.stored_projection_invalid)

abbrev pub contains : List String → String → Bool
contains ids id = any (same_text id) ids

-- Every element of the first list is in the second.
abbrev pub includes_all : List String → List String → Bool
includes_all ids in_ids = all (contains in_ids) ids

unfoldable pub parse_projection_input : WorkItemProjectionInput → Result WorkItemProjectionInput
unfolding parse_external_thread parse_work_item
parse_projection_input input = do
  thread ← parse_external_thread input.thread
  work_item ← parse_work_item input.work_item
  throw_if (work_item.thread_id != thread.id) (fail Code.identity_conflict)
  throw_unless (includes_all work_item.source_event_ids thread.source_event_ids)
      (fail Code.source_mismatch)
  ok (record { thread = thread; work_item = work_item })

unfoldable pub parse_each {ℓ κ} :
    {A : Type ℓ} {B : Type κ} → (A → Result B) → List A → Result (List B)
parse_each parse [] = ok []
parse_each parse (a ∷ as') = do b ← parse a; rest ← parse_each parse as'; ok (b ∷ rest)

unfoldable pub parse_work_item_projection_batch :
    List WorkItemProjectionInput → Result (List WorkItemProjectionInput)
unfolding parse_each parse_projection_input distinct_by
parse_work_item_projection_batch inputs = do
  throw_unless (leb (length inputs) 1000) (fail Code.invalid_request)
  projections ← parse_each parse_projection_input inputs
  throw_unless (distinct_by (λ p q. p.work_item.id == q.work_item.id) projections)
      (fail Code.invalid_request)
  ok projections

unfoldable pub thread_row : Database → String → Option ExternalThread
thread_row db id = find (λ t. t.id) id db.threads

unfoldable pub base_row : Database → String → Option WorkItem
base_row db id = find (λ w. w.id) id db.bases

unfoldable pub current_row : Database → String → Option WorkItem
current_row db id = find (λ w. w.id) id db.work_items

unfoldable pub parse_stored_work_item : WorkItem → Result WorkItem
unfolding parse_work_item
parse_stored_work_item row = stored_invalid (parse_work_item row)

unfoldable pub read_thread_in_snapshot : Database → String → Result (Option ExternalThread)
unfolding parse_external_thread thread_row
read_thread_in_snapshot db id = elim (thread_row db id) [
  | none ↦ ok none
  | some row ↦ (stored_invalid (parse_external_thread row) >>= λ t. ok (some t))
]

abbrev read_item : Option WorkItem → Result (Option WorkItem)
read_item none = ok none
read_item (some row) = parse_stored_work_item row >>= λ w. ok (some w)

unfoldable pub read_base : Database → String → Result (Option WorkItem)
unfolding base_row parse_stored_work_item
read_base db id = read_item (base_row db id)

unfoldable pub read_work_item_in_snapshot : Database → String → Result (Option WorkItem)
unfolding current_row parse_stored_work_item
read_work_item_in_snapshot db id = read_item (current_row db id)

-- `ORDER BY revision`
unfoldable pub insert_by_revision :
    WorkItemUserAction → List WorkItemUserAction → List WorkItemUserAction
insert_by_revision a [] = a ∷ []
insert_by_revision a (b ∷ rows) =
    let rest = insert_by_revision a rows in
    if leb a.revision b.revision then a ∷ b ∷ rows else b ∷ rest

unfoldable pub sort_by_revision : List WorkItemUserAction → List WorkItemUserAction
unfolding insert_by_revision
sort_by_revision [] = []
sort_by_revision (a ∷ rows) = insert_by_revision a (sort_by_revision rows)

unfoldable pub actions_of : Database → String → List WorkItemUserAction
unfolding select sort_by_revision
actions_of db item = sort_by_revision (select (λ a. a.work_item_id == item) db.user_actions)

unfoldable pub parse_stored_action : WorkItemUserAction → Result WorkItemUserAction
unfolding parse_work_item_user_action
parse_stored_action row = stored_invalid (parse_work_item_user_action row)

unfoldable pub read_work_item_actions_in_snapshot :
    Database → String → Result (List WorkItemUserAction)
unfolding parse_each parse_stored_action actions_of
read_work_item_actions_in_snapshot db item = parse_each parse_stored_action (actions_of db item)
