-- ===== src/Storage/Projection/Inbox.antt =====
-- packages/storage-sqlite/src/work-item-projection.ts: reading work items and threads, and the pages
-- of the inbox. `julianday` of a timestamp is ordered as its instant is.
use twindesk.Prelude.{
  ℕ, suc, Bool, true, ◌&&◌, ◌||◌, Option, none, some, List, [], ◌∷◌, String, any, length, leb, ltb,
  ◌==◌, string_eq, nat_eq,
}
use twindesk.Time.{IsoTimestamp, timestamp_at, date_parse}
use twindesk.Result.{Result, ok, domain_validation, ◌>>=◌, ◌>>◌, throw_unless, rethrow}
use twindesk.Result.{WorkItemProjectionCode as Code}
use twindesk.Domain.Records.{ExternalThread, InboxState, WorkItem, inbox_state_eq}
use twindesk.Domain.Parsers.{distinct_by}
use twindesk.Domain.Validation.{string_at}
use twindesk.Storage.Table.{select}
use twindesk.Storage.TextOrder.{text_before}
use twindesk.Storage.Pages.{take, last_of, sort_by, next_cursor_of, matching}
use twindesk.Storage.Database.{Database}
use twindesk.Storage.DraftAction.Rows.{or_throw}
use twindesk.Storage.Projection.Rows.{
  fail, catch_projection, parse_each, read_thread_in_snapshot, read_work_item_in_snapshot,
}

unfoldable pub read_work_item : Database → String → Result (Option WorkItem)
unfolding read_work_item_in_snapshot
read_work_item db id = do
  throw_unless (string_at id) (fail Code.invalid_request)
  rethrow catch_projection (read_work_item_in_snapshot db id)

unfoldable pub read_thread : Database → String → Result (Option ExternalThread)
unfolding read_thread_in_snapshot
read_thread db id = do
  throw_unless (string_at id) (fail Code.invalid_request)
  rethrow catch_projection (read_thread_in_snapshot db id)

pub record InboxCursor : Type 0 where
  pub updated_at : IsoTimestamp
  pub id : String

-- The query after its defaults are filled in.
pub record InboxQuery : Type 0 where
  pub states : List InboxState
  pub limit : ℕ
  pub after : Option InboxCursor

pub record InboxPage : Type 0 where
  pub items : List WorkItem
  pub next_cursor : Option InboxCursor

abbrev pub all_inbox_states : List InboxState
all_inbox_states =
    InboxState.needs_reply ∷ InboxState.needs_review ∷ InboxState.waiting ∷ InboxState.done ∷ []

unfoldable pub parse_inbox_cursor : Option InboxCursor → Result (Option InboxCursor)
parse_inbox_cursor none = ok none
parse_inbox_cursor (some c) = do
  throw_unless (timestamp_at c.updated_at) domain_validation
  throw_unless (string_at c.id) (fail Code.invalid_request)
  ok (some c)

abbrev or_default {ℓ} : {A : Type ℓ} → A → Option A → A
or_default d none = d
or_default d (some a) = a

unfoldable pub parse_inbox_query :
    Option (List InboxState) → Option ℕ → Option InboxCursor → Result InboxQuery
unfolding distinct_by parse_inbox_cursor
parse_inbox_query states_value limit_value after_value = do
  let states = or_default all_inbox_states states_value
  let limit = or_default 50 limit_value
  throw_unless (leb 1 (length states)) (fail Code.invalid_request)
  throw_unless (distinct_by (λ s t. s == t) states) (fail Code.invalid_request)
  throw_unless (leb 1 limit && leb limit 100) (fail Code.invalid_request)
  after ← parse_inbox_cursor after_value
  ok (record { states = states; limit = limit; after = after })

-- `julianday(updated_at) DESC, id ASC`: the row stands after the cursor.
unfoldable pub follows : InboxCursor → WorkItem → Bool
unfolding text_before
follows c w =
    ltb (date_parse w.updated_at) (date_parse c.updated_at)
    || date_parse w.updated_at == date_parse c.updated_at && text_before c.id w.id

abbrev pub cursor_of : WorkItem → InboxCursor
cursor_of w = record { updated_at = w.updated_at; id = w.id }

-- In the order of the inbox, the first row stands before the second.
abbrev pub more_recent : WorkItem → WorkItem → Bool
more_recent v w = follows (cursor_of v) w

abbrev after_cursor : Option InboxCursor → WorkItem → Bool
after_cursor none w = true
after_cursor (some c) w = follows c w

unfoldable pub in_query : InboxQuery → WorkItem → Bool
unfolding follows
in_query q w = any (λ s. w.inbox_state == s) q.states && after_cursor q.after w

unfoldable pub inbox_rows : Database → InboxQuery → List WorkItem
unfolding take sort_by select in_query follows
inbox_rows db q = take (suc q.limit) (matching more_recent (in_query q) db.work_items)

unfoldable pub inbox_item : Database → WorkItem → Result WorkItem
unfolding read_work_item_in_snapshot
inbox_item db row = do
  found ← read_work_item_in_snapshot db row.id
  or_throw found (fail Code.stored_projection_invalid)

unfoldable pub inbox_page : Database → InboxQuery → Result InboxPage
unfolding inbox_rows parse_each inbox_item last_of take
inbox_page db q = do
  let rows = inbox_rows db q
  items ← parse_each (inbox_item db) (take q.limit rows)
  ok (record {
    items = items;
    next_cursor = next_cursor_of cursor_of (ltb q.limit (length rows)) (last_of items);
  })

unfoldable pub query_inbox :
    Database → Option (List InboxState) → Option ℕ → Option InboxCursor → Result InboxPage
unfolding parse_inbox_query inbox_page
query_inbox db states limit after = do
  q ← parse_inbox_query states limit after
  rethrow catch_projection (inbox_page db q)
