-- ===== src/Storage/Projection/Actions.antt =====
-- packages/storage-sqlite/src/work-item-projection.ts: the user's actions, numbered 1, 2, … for each
-- work item.
use twindesk.Prelude.{
  ℕ, suc, Bool, ◌&&◌, ◌||◌, Option, none, some, List, [], ◌∷◌, String, ltb, ◌==◌, ◌!=◌, string_eq,
  nat_eq, any, if◌then◌else◌,
}
use twindesk.Time.{IsoTimestamp, date_parse}
use twindesk.Result.{Result, ok, err, constraint, ◌>>=◌, ◌>>◌, throw_if, throw_unless, rethrow}
use twindesk.Result.{WorkItemProjectionCode as Code}
use twindesk.Domain.Records.{WorkItem, WorkItemUserAction, work_item_user_action_eq}
use twindesk.Domain.Parsers.{parse_work_item_user_action}
use twindesk.Storage.Table.{select}
use twindesk.Storage.Database.{Database}
use twindesk.Storage.DraftAction.Rows.{or_throw}
use twindesk.Storage.Projection.Rows.{
  ActionDisposition, inserted, duplicate, WorkItemUserActionWriteResult, fail, catch_projection,
  read_base, parse_stored_action,
}
use twindesk.Storage.Projection.Materialize.{rebuild_in_transaction}

unfoldable pub action_conflicts : WorkItemUserAction → WorkItemUserAction → Bool
action_conflicts a row =
    row.id == a.id || row.work_item_id == a.work_item_id && row.revision == a.revision

-- `ORDER BY revision DESC LIMIT 1`
abbrev pub later_action : Option WorkItemUserAction → WorkItemUserAction → WorkItemUserAction
later_action none a = a
later_action (some best) a = if ltb best.revision a.revision then a else best

unfoldable pub last_action : String → List WorkItemUserAction → Option WorkItemUserAction
last_action item [] = none
last_action item (a ∷ rows) =
    let best = last_action item rows in
    if a.work_item_id == item then some (later_action best a) else best

unfoldable pub expected_revision : Option WorkItemUserAction → ℕ
expected_revision none = 1
expected_revision (some previous) = suc previous.revision

unfoldable pub previous_time : WorkItem → Option WorkItemUserAction → IsoTimestamp
previous_time base none = base.updated_at
previous_time base (some previous) =
    if ltb (date_parse previous.occurred_at) (date_parse base.updated_at)
    then base.updated_at
    else previous.occurred_at

-- `INSERT INTO work_item_user_actions`: the id is unique, and so is the revision of a work item.
unfoldable pub insert_action : Database → WorkItemUserAction → Result Database
unfolding action_conflicts
insert_action db a = do
  throw_if (any (action_conflicts a) db.user_actions) constraint
  ok (record db { user_actions = a ∷ db.user_actions })

-- The rebuild that ends both outcomes.
unfoldable pub rebuilt_with :
    ActionDisposition → Database → String → Result (WorkItemUserActionWriteResult × Database)
unfolding rebuild_in_transaction
rebuilt_with disposition db id = rebuild_in_transaction db id >>= λ item.
    ok (record { disposition = disposition; work_item = item.0 }, item.1)

-- The rows that conflict are one that is the same action, and it is applied once.
unfoldable pub repeated_action :
    Database
    → WorkItemUserAction
    → List WorkItemUserAction
    → Result (WorkItemUserActionWriteResult × Database)
unfolding parse_stored_action rebuilt_with
repeated_action db a (row ∷ []) = do
  stored ← parse_stored_action row
  throw_unless (stored == a) (fail Code.action_conflict)
  rebuilt_with duplicate db a.work_item_id
repeated_action db a rows = err (fail Code.action_conflict)

unfoldable pub write_action :
    Database → WorkItemUserAction → Result (WorkItemUserActionWriteResult × Database)
unfolding insert_action rebuilt_with
write_action db a = insert_action db a >>= λ stored. rebuilt_with inserted stored a.work_item_id

unfoldable pub new_action :
    Database → WorkItem → WorkItemUserAction → Result (WorkItemUserActionWriteResult × Database)
unfolding last_action expected_revision previous_time write_action
new_action db base a = do
  let previous = last_action a.work_item_id db.user_actions
  throw_if (a.revision != expected_revision previous) (fail Code.action_sequence)
  throw_if (ltb (date_parse a.occurred_at) (date_parse (previous_time base previous)))
      (fail Code.action_chronology)
  write_action db a

-- What follows the SELECT of the rows that conflict.
unfoldable pub action_at :
    Database
    → WorkItem
    → WorkItemUserAction
    → List WorkItemUserAction
    → Result (WorkItemUserActionWriteResult × Database)
unfolding repeated_action new_action
action_at db base a [] = new_action db base a
action_at db base a (row ∷ rows) = repeated_action db a (row ∷ rows)

unfoldable pub action_transaction :
    Database → WorkItemUserAction → Result (WorkItemUserActionWriteResult × Database)
unfolding read_base select action_at
action_transaction db a = do
  found ← read_base db a.work_item_id
  base ← or_throw found (fail Code.missing_projection)
  action_at db base a (select (action_conflicts a) db.user_actions)

unfoldable pub apply_work_item_user_action :
    Database → WorkItemUserAction → Result (WorkItemUserActionWriteResult × Database)
unfolding parse_work_item_user_action action_transaction
apply_work_item_user_action db input = do
  a ← parse_work_item_user_action input
  rethrow catch_projection (action_transaction db a)
