-- ===== src/Storage/Projection/Materialize.antt =====
-- packages/storage-sqlite/src/work-item-projection.ts: the current work item, from its base and the
-- user's actions in the order of their revisions.
use twindesk.Prelude.{none, some, List, [], ◌∷◌, String, ltb, if◌then◌else◌}
use twindesk.Time.{IsoTimestamp, date_parse}
use twindesk.Result.{Result, ok, ◌>>=◌, ◌>>◌, throw_unless, rethrow}
use twindesk.Result.{WorkItemProjectionCode as Code}
use twindesk.Domain.Records.{
  WorkItem, UserAction, set_inbox_state, select_persona, clear_persona, WorkItemUserAction,
}
use twindesk.Domain.Parsers.{parse_work_item}
use twindesk.Domain.Validation.{string_at}
use twindesk.Storage.Table.{upsert}
use twindesk.Storage.Database.{Database}
use twindesk.Storage.DraftAction.Rows.{or_throw}
use twindesk.Storage.Projection.Rows.{
  fail, catch_projection, read_base, read_work_item_actions_in_snapshot,
}

abbrev after_action : UserAction → WorkItem → WorkItem
after_action (set_inbox_state s) w = record w { inbox_state = s }
after_action (select_persona persona) w = record w { selected_persona_id = some persona }
after_action clear_persona w = record w { selected_persona_id = none }

abbrev later : IsoTimestamp → IsoTimestamp → IsoTimestamp
later t s = if ltb (date_parse t) (date_parse s) then s else t

-- One turn of the loop, which passes over an action that is older than the base.
unfoldable pub apply_action : WorkItem → WorkItem → WorkItemUserAction → WorkItem
apply_action base w a =
    if ltb (date_parse a.occurred_at) (date_parse base.updated_at)
    then w
    else record (after_action a.action w) { updated_at = later w.updated_at a.occurred_at }

unfoldable pub apply_actions : WorkItem → WorkItem → List WorkItemUserAction → WorkItem
unfolding apply_action
apply_actions base w [] = w
apply_actions base w (a ∷ as') = apply_actions base (apply_action base w a) as'

unfoldable pub materialize_work_item : Database → WorkItem → Result WorkItem
unfolding apply_actions parse_work_item read_work_item_actions_in_snapshot
materialize_work_item db base = do
  actions ← read_work_item_actions_in_snapshot db base.id
  parse_work_item (apply_actions base base actions)

unfoldable pub write_current_projection : Database → WorkItem → Database
unfolding upsert
write_current_projection db w = record db { work_items = upsert (λ row. row.id) w db.work_items }

unfoldable pub rebuild_in_transaction : Database → String → Result (WorkItem × Database)
unfolding read_base materialize_work_item write_current_projection
rebuild_in_transaction db id = do
  found ← read_base db id
  base ← or_throw found (fail Code.missing_projection)
  projection ← materialize_work_item db base
  ok (projection, write_current_projection db projection)

unfoldable pub rebuild_work_item_projection : Database → String → Result (WorkItem × Database)
unfolding rebuild_in_transaction
rebuild_work_item_projection db id = do
  throw_unless (string_at id) (fail Code.invalid_request)
  rethrow catch_projection (rebuild_in_transaction db id)
