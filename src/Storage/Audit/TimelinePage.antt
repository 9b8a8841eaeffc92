-- ===== src/Storage/Audit/TimelinePage.antt =====
-- packages/storage-sqlite/src/audit-timeline.ts: what a page of the timeline holds.
use twindesk.Prelude.{
  ℕ, suc, ◌≤◌, ◌≡◌, sym, ap, ◌∙◌, true, ◌==◌, ◌&&◌, List, [], ◌∷◌, arith, length, leb, ltb, All,
  string_eq,
}
use twindesk.Result.{AuditTimelineCode as Code}
use twindesk.Result.{Result, ok, err, >>=-eq-ok, throw_unless, rethrow-eq-ok}
use twindesk.Domain.Audit.{AuditRecord, parse_audit_record, audit_category_eq, audit_outcome_eq}
use twindesk.Storage.Table.{select}
use twindesk.Storage.Database.{Database}
use twindesk.Storage.Projection.Rows.{parse_each}
use twindesk.Storage.Pages.{
  take, last_of, next_cursor_of, matching, distinct_keys, IsFound, All-IsFound, All-select,
  All-sort, All-take, take-take,
}
use twindesk.Storage.Audit.{
  catch_audit, audit_row, parse_stored_audit_record, read_audit_in_snapshot,
}
use twindesk.Storage.Audit.References.{fail}
use twindesk.Time.{date_parse}
use twindesk.Storage.TextOrder.{text_before_asym, text_before_trans, text_before_eq}
use twindesk.Storage.Pages.Strict.{IsStrict}
use twindesk.Storage.Pages.Contents.{IsPage, matching-IsPage}
use twindesk.Storage.Pages.Order.{IsByTime}
use twindesk.Storage.Audit.Timeline.{
  audit_follows, AuditTimelineQuery, AuditTimelinePage, ParsedTimelineQuery, filter_or_all,
  limit_or_default, parse_identifier, parse_reference, parse_timeline_cursor, parse_timeline_query,
  in_timeline, audit_categories, audit_outcomes, later, timeline_cursor_of, timeline_rows,
  timeline_record, timeline_page, query_audit_timeline,
}

timeline_record_same :
    (db : Database) (row w : AuditRecord)
    → IsFound (λ a. a.id) db.audit_records row
    → timeline_record db row ≡ ok w
    → w ≡ row
unfolding timeline_record read_audit_in_snapshot audit_row parse_stored_audit_record
    parse_audit_record
timeline_record_same db row w f h = ground (arith, f)

timeline_records_same :
    (db : Database) (rows items : List AuditRecord)
    → All (IsFound (λ a. a.id) db.audit_records) rows
    → parse_each (timeline_record db) rows ≡ ok items
    → items ≡ rows
unfolding parse_each
timeline_records_same db [] items f h = ground arith
timeline_records_same db (row ∷ rows) items f h =
    let (first, h₁, h₂) = >>=-eq-ok (timeline_record db row) _ h in
    let (rest, h₃, h₄) = >>=-eq-ok (parse_each (timeline_record db) rows) _ h₂ in
    let is_row = timeline_record_same db row first f.0 h₁ in
    let are_rows = timeline_records_same db rows rest f.1 h₃ in ground arith

timeline_page-records :
    (db : Database) (q : ParsedTimelineQuery) (page : AuditTimelinePage)
    → distinct_keys (λ a. a.id) db.audit_records ≡ true
    → timeline_page db q ≡ ok page
    → (page.records ≡ take q.limit (matching later (in_timeline q) db.audit_records))
      × (page.next_cursor
          ≡ next_cursor_of timeline_cursor_of
              (ltb q.limit
                (length (take (suc q.limit) (matching later (in_timeline q) db.audit_records))))
              (last_of page.records))
unfolding timeline_page timeline_rows
timeline_page-records db q page d h =
    let found = All-take (IsFound (λ a. a.id) db.audit_records) q.limit (timeline_rows db q) (
      All-take (IsFound (λ a. a.id) db.audit_records) (suc q.limit)
        (matching later (in_timeline q) db.audit_records)
        (All-sort (IsFound (λ a. a.id) db.audit_records) later
          (select (in_timeline q) db.audit_records)
          (All-select (IsFound (λ a. a.id) db.audit_records) (in_timeline q) db.audit_records
            (All-IsFound (λ a. a.id) db.audit_records d)))) in
    let (items, h₁, h₂) =
      >>=-eq-ok (parse_each (timeline_record db) (take q.limit (timeline_rows db q))) _ h in
    let same = timeline_records_same db (take q.limit (timeline_rows db q)) items found h₁ in
    let cut = take-take q.limit (matching later (in_timeline q) db.audit_records) in
    let is_items : page.records ≡ items = ground arith in (is_items ∙ same ∙ cut, ground arith)

later-IsByTime : IsByTime (λ a. date_parse a.occurred_at) later
unfolding audit_follows
later-IsByTime v w = (λ h. ground arith, λ h. ground arith)

later-IsStrict : IsStrict (λ a. a.id) later
unfolding audit_follows
later-IsStrict = record {
  asym = λ v w h. ground (
    arith,
    text_before_asym w.occurred_at v.occurred_at,
    text_before_asym v.id w.id,
    ap date_parse,
  );
  trans = λ u v w h k. ground (
    arith,
    text_before_trans w.occurred_at v.occurred_at u.occurred_at,
    text_before_trans u.id v.id w.id,
  );
  total = λ v w other h.
      ground (arith, other, text_before_eq w.occurred_at v.occurred_at, text_before_eq v.id w.id);
}

timeline_page-IsPage :
    (db : Database) (q : ParsedTimelineQuery) (page : AuditTimelinePage)
    → distinct_keys (λ a. a.id) db.audit_records ≡ true
    → 1 ≤ q.limit
    → timeline_page db q ≡ ok page
    → IsPage
        (λ a. date_parse a.occurred_at)
        timeline_cursor_of
        audit_follows
        (in_timeline q)
        q.limit
        db.audit_records
        page.records
        page.next_cursor
timeline_page-IsPage db q page d low h =
    let (items, next) = timeline_page-records db q page d h in
    matching-IsPage (λ a. a.id) (λ a. date_parse a.occurred_at) timeline_cursor_of audit_follows
      later-IsByTime later-IsStrict (in_timeline q) q.limit db.audit_records page.records
      page.next_cursor d low items next

limit_within :
    (n limit : ℕ)
    → limit ≡ n
    → throw_unless (leb 1 n && leb n 100) (fail Code.invalid_request) ≡ ok tt
    → (1 ≤ limit) × (limit ≤ 100)
limit_within n limit same h = ground arith

abbrev limit_of : Result ParsedTimelineQuery → ℕ
limit_of (ok q) = q.limit
limit_of (err e) = 0

parse_timeline_query-limit :
    (input : AuditTimelineQuery) (q : ParsedTimelineQuery)
    → parse_timeline_query input ≡ ok q
    → (1 ≤ q.limit) × (q.limit ≤ 100)
unfolding parse_timeline_query
parse_timeline_query-limit input q h =
    let n = limit_or_default input.limit in
    let (_, _, h₁) =
      >>=-eq-ok (filter_or_all (λ c d. c == d) input.categories audit_categories) _ h in
    let (_, _, h₂) = >>=-eq-ok (filter_or_all (λ c d. c == d) input.outcomes audit_outcomes) _ h₁ in
    let (_, within, h₃) =
      >>=-eq-ok (throw_unless (leb 1 n && leb n 100) (fail Code.invalid_request)) _ h₂ in
    let (_, _, h₄) = >>=-eq-ok (parse_identifier input.work_item_id) _ h₃ in
    let (_, _, h₅) = >>=-eq-ok (parse_reference input.reference) _ h₄ in
    let (_, _, h₆) = >>=-eq-ok (parse_timeline_cursor input.after) _ h₅ in
    let same : q.limit ≡ n = ap limit_of (sym h₆) in limit_within n q.limit same within

-- Where the ids of the audit records are distinct: a query of the timeline that is answered was well
-- formed, with a limit of 1 to 100. Its answer and a rest behind it are together the records that are
-- asked for, each as often as it is stored, none of a later instant than one before it; where there is
-- no rest it names no next cursor, and otherwise the answer is as long as the limit, the next cursor
-- is that of its last record, and the rest are the records asked for that follow that cursor.
pub query_audit_timeline-IsPage :
    (db : Database) (input : AuditTimelineQuery) (page : AuditTimelinePage)
    → distinct_keys (λ a. a.id) db.audit_records ≡ true
    → query_audit_timeline db input ≡ ok page
    → (q : ParsedTimelineQuery) × (parse_timeline_query input ≡ ok q)
      × (1 ≤ q.limit)
      × (q.limit ≤ 100)
      × IsPage
          (λ a. date_parse a.occurred_at)
          timeline_cursor_of
          audit_follows
          (in_timeline q)
          q.limit
          db.audit_records
          page.records
          page.next_cursor
unfolding query_audit_timeline
query_audit_timeline-IsPage db input page d h =
    let (q, h₁, h₂) = >>=-eq-ok (parse_timeline_query input) _ h in
    let h₃ = rethrow-eq-ok catch_audit (timeline_page db q) h₂ in
    let (low, high) = parse_timeline_query-limit input q h₁ in
    (q, h₁, low, high, timeline_page-IsPage db q page d low h₃)
