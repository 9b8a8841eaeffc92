-- ===== src/Storage/Projection/Paging.antt =====
-- packages/storage-sqlite/src/work-item-projection.ts: what a page of the inbox holds.
use twindesk.Prelude.{
  ℕ, suc, ◌≤◌, ◌≡◌, ◌∙◌, true, Option, none, some, List, [], ◌∷◌, arith, length, ltb, All,
  string_eq,
}
use twindesk.Result.{ok, >>=-eq-ok, rethrow-eq-ok}
use twindesk.Domain.Records.{InboxState, WorkItem}
use twindesk.Domain.Parsers.{parse_work_item}
use twindesk.Storage.Table.{select}
use twindesk.Storage.Database.{Database}
use twindesk.Storage.Projection.Rows.{
  catch_projection, parse_each, read_work_item_in_snapshot, current_row, parse_stored_work_item,
}
use twindesk.Storage.Projection.Inbox.{
  InboxCursor, InboxQuery, InboxPage, parse_inbox_query, in_query, more_recent, cursor_of, follows,
  inbox_rows, inbox_item, inbox_page, query_inbox,
}
use twindesk.Time.{date_parse}
use twindesk.Storage.TextOrder.{text_before_asym, text_before_trans, text_before_eq}
use twindesk.Storage.Pages.Strict.{IsStrict}
use twindesk.Storage.Pages.Contents.{IsPage, matching-IsPage}
use twindesk.Storage.Pages.Order.{IsByTime}
use twindesk.Storage.Pages.{
  take, last_of, next_cursor_of, matching, distinct_keys, IsFound, All-IsFound, All-select,
  All-sort, All-take, take-take,
}

inbox_item_same :
    (db : Database) (row w : WorkItem)
    → IsFound (λ w. w.id) db.work_items row
    → inbox_item db row ≡ ok w
    → w ≡ row
unfolding inbox_item read_work_item_in_snapshot current_row parse_stored_work_item parse_work_item
inbox_item_same db row w f h = ground (arith, f)

inbox_items_same :
    (db : Database) (rows items : List WorkItem)
    → All (IsFound (λ w. w.id) db.work_items) rows
    → parse_each (inbox_item db) rows ≡ ok items
    → items ≡ rows
unfolding parse_each
inbox_items_same db [] items f h = ground arith
inbox_items_same db (row ∷ rows) items f h =
    let (first, h₁, h₂) = >>=-eq-ok (inbox_item db row) _ h in
    let (rest, h₃, h₄) = >>=-eq-ok (parse_each (inbox_item db) rows) _ h₂ in
    let is_row = inbox_item_same db row first f.0 h₁ in
    let are_rows = inbox_items_same db rows rest f.1 h₃ in ground arith

inbox_page-items :
    (db : Database) (q : InboxQuery) (page : InboxPage)
    → distinct_keys (λ w. w.id) db.work_items ≡ true
    → inbox_page db q ≡ ok page
    → (page.items ≡ take q.limit (matching more_recent (in_query q) db.work_items))
      × (page.next_cursor
          ≡ next_cursor_of cursor_of
              (ltb q.limit
                (length (take (suc q.limit) (matching more_recent (in_query q) db.work_items))))
              (last_of page.items))
unfolding inbox_page inbox_rows
inbox_page-items db q page d h =
    let found = All-take (IsFound (λ w. w.id) db.work_items) q.limit (inbox_rows db q) (
      All-take (IsFound (λ w. w.id) db.work_items) (suc q.limit)
        (matching more_recent (in_query q) db.work_items)
        (All-sort (IsFound (λ w. w.id) db.work_items) more_recent
          (select (in_query q) db.work_items)
          (All-select (IsFound (λ w. w.id) db.work_items) (in_query q) db.work_items
            (All-IsFound (λ w. w.id) db.work_items d)))) in
    let (items, h₁, h₂) =
      >>=-eq-ok (parse_each (inbox_item db) (take q.limit (inbox_rows db q))) _ h in
    let same = inbox_items_same db (take q.limit (inbox_rows db q)) items found h₁ in
    let cut = take-take q.limit (matching more_recent (in_query q) db.work_items) in
    let is_items : page.items ≡ items = ground arith in (is_items ∙ same ∙ cut, ground arith)

more_recent-IsByTime : IsByTime (λ w. date_parse w.updated_at) more_recent
unfolding follows
more_recent-IsByTime v w = (λ h. ground arith, λ h. ground arith)

more_recent-IsStrict : IsStrict (λ w. w.id) more_recent
unfolding follows
more_recent-IsStrict = record {
  asym = λ v w h. ground (arith, text_before_asym v.id w.id);
  trans = λ u v w h k. ground (arith, text_before_trans u.id v.id w.id);
  total = λ v w other h. ground (arith, other, text_before_eq v.id w.id);
}

inbox_page-IsPage :
    (db : Database) (q : InboxQuery) (page : InboxPage)
    → distinct_keys (λ w. w.id) db.work_items ≡ true
    → 1 ≤ q.limit
    → inbox_page db q ≡ ok page
    → IsPage
        (λ w. date_parse w.updated_at)
        cursor_of
        follows
        (in_query q)
        q.limit
        db.work_items
        page.items
        page.next_cursor
inbox_page-IsPage db q page d low h =
    let (items, next) = inbox_page-items db q page d h in
    matching-IsPage (λ w. w.id) (λ w. date_parse w.updated_at) cursor_of follows
      more_recent-IsByTime more_recent-IsStrict (in_query q) q.limit db.work_items page.items
      page.next_cursor d low items next

parse_inbox_query-limit :
    (states : Option (List InboxState)) (limit : Option ℕ) (after : Option InboxCursor)
    (q : InboxQuery)
    → parse_inbox_query states limit after ≡ ok q
    → (1 ≤ q.limit) × (q.limit ≤ 100)
unfolding parse_inbox_query
parse_inbox_query-limit states limit none q h = ground arith
parse_inbox_query-limit states limit (some c) q h = ground arith

-- Where the ids of the work items are distinct: a query of the inbox that is answered was well formed,
-- with a limit of 1 to 100. Its answer and a rest behind it are together the work items that are
-- asked for, each as often as it is stored, none updated later than one before it; where there is no
-- rest it names no next cursor, and otherwise the answer is as long as the limit, the next cursor is
-- that of its last item, and the rest are the work items asked for that follow that cursor.
pub query_inbox-IsPage :
    (db : Database) (states : Option (List InboxState)) (limit : Option ℕ)
    (after : Option InboxCursor) (page : InboxPage)
    → distinct_keys (λ w. w.id) db.work_items ≡ true
    → query_inbox db states limit after ≡ ok page
    → (q : InboxQuery) × (parse_inbox_query states limit after ≡ ok q)
      × (1 ≤ q.limit)
      × (q.limit ≤ 100)
      × IsPage
          (λ w. date_parse w.updated_at)
          cursor_of
          follows
          (in_query q)
          q.limit
          db.work_items
          page.items
          page.next_cursor
unfolding query_inbox
query_inbox-IsPage db states limit after page d h =
    let (q, h₁, h₂) = >>=-eq-ok (parse_inbox_query states limit after) _ h in
    let h₃ = rethrow-eq-ok catch_projection (inbox_page db q) h₂ in
    let (low, high) = parse_inbox_query-limit states limit after q h₁ in
    (q, h₁, low, high, inbox_page-IsPage db q page d low h₃)
