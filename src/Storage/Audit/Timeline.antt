-- ===== src/Storage/Audit/Timeline.antt =====
-- packages/storage-sqlite/src/audit-timeline.ts: `queryAuditTimeline`. `julianday` of a timestamp is
-- ordered as its instant is.
use twindesk.Prelude.{
  ℕ, suc, Bool, true, ◌&&◌, ◌||◌, Option, none, some, List, [], ◌∷◌, String, any, length, leb, ltb,
  ◌==◌, string_eq, nat_eq,
}
use twindesk.Time.{IsoTimestamp, timestamp_at, date_parse}
use twindesk.Result.{Result, ok, err, domain_validation, ◌>>=◌, ◌>>◌, throw_unless, rethrow}
use twindesk.Result.{AuditTimelineCode as Code}
use twindesk.Domain.Audit.{
  AuditCategory, AuditOutcome, AuditReference, AuditRecord, work_item, audit_category_eq,
  audit_outcome_eq, same_audit_reference,
}
use twindesk.Domain.Parsers.{distinct_by}
use twindesk.Domain.Validation.{string_at}
use twindesk.Storage.Table.{select}
use twindesk.Storage.Pages.{take, last_of, sort_by, next_cursor_of, matching}
use twindesk.Storage.Database.{Database}
use twindesk.Storage.DraftAction.Rows.{or_throw}
use twindesk.Storage.Projection.Rows.{parse_each}
use twindesk.Storage.TextOrder.{text_before}
use twindesk.Storage.Audit.References.{fail}
use twindesk.Storage.Audit.{catch_audit, read_audit_in_snapshot}

pub record AuditTimelineCursor : Type 0 where
  pub occurred_at : IsoTimestamp
  pub id : String

-- The request: each part may be missing.
pub record AuditTimelineQuery : Type 0 where
  pub work_item_id : Option String
  pub reference : Option AuditReference
  pub categories : Option (List AuditCategory)
  pub outcomes : Option (List AuditOutcome)
  pub limit : Option ℕ
  pub after : Option AuditTimelineCursor

pub record AuditTimelinePage : Type 0 where
  pub records : List AuditRecord
  pub next_cursor : Option AuditTimelineCursor

-- The query after its defaults are filled in.
pub record ParsedTimelineQuery : Type 0 where
  pub item : Option String
  pub reference : Option AuditReference
  pub categories : List AuditCategory
  pub outcomes : List AuditOutcome
  pub limit : ℕ
  pub after : Option AuditTimelineCursor

abbrev pub audit_categories : List AuditCategory
audit_categories =
    AuditCategory.ingestion ∷ AuditCategory.routing ∷ AuditCategory.run ∷ AuditCategory.draft
    ∷ AuditCategory.approval ∷ AuditCategory.execution ∷ AuditCategory.system ∷ []

abbrev pub audit_outcomes : List AuditOutcome
audit_outcomes =
    AuditOutcome.pending ∷ AuditOutcome.success ∷ AuditOutcome.failure ∷ AuditOutcome.cancelled
    ∷ AuditOutcome.uncertain ∷ []

unfoldable pub parse_enum_filter {ℓ} : {A : Type ℓ} → (A → A → Bool) → List A → Result (List A)
unfolding distinct_by
parse_enum_filter same [] = err (fail Code.invalid_request)
parse_enum_filter same (x ∷ xs) = do
  throw_unless (distinct_by same (x ∷ xs)) (fail Code.invalid_request)
  ok (x ∷ xs)

abbrev pub filter_or_all {ℓ} :
    {A : Type ℓ} → (A → A → Bool) → Option (List A) → List A → Result (List A)
filter_or_all same none allowed = ok allowed
filter_or_all same (some xs) allowed = parse_enum_filter same xs

unfoldable pub parse_identifier : Option String → Result (Option String)
parse_identifier none = ok none
parse_identifier (some id) = throw_unless (string_at id) (fail Code.invalid_request) >> ok (some id)

unfoldable pub parse_reference : Option AuditReference → Result (Option AuditReference)
parse_reference none = ok none
parse_reference (some r) = throw_unless (string_at r.id) (fail Code.invalid_request) >> ok (some r)

unfoldable pub parse_timeline_cursor :
    Option AuditTimelineCursor → Result (Option AuditTimelineCursor)
parse_timeline_cursor none = ok none
parse_timeline_cursor (some c) = do
  throw_unless (timestamp_at c.occurred_at) domain_validation
  throw_unless (string_at c.id) (fail Code.invalid_request)
  ok (some c)

abbrev pub limit_or_default : Option ℕ → ℕ
limit_or_default none = 50
limit_or_default (some n) = n

unfoldable pub parse_timeline_query : AuditTimelineQuery → Result ParsedTimelineQuery
unfolding parse_enum_filter parse_identifier parse_reference parse_timeline_cursor
parse_timeline_query input = do
  categories ← filter_or_all (λ c d. c == d) input.categories audit_categories
  outcomes ← filter_or_all (λ c d. c == d) input.outcomes audit_outcomes
  let limit = limit_or_default input.limit
  throw_unless (leb 1 limit && leb limit 100) (fail Code.invalid_request)
  item ← parse_identifier input.work_item_id
  reference ← parse_reference input.reference
  after ← parse_timeline_cursor input.after
  ok (record {
    item = item;
    reference = reference;
    categories = categories;
    outcomes = outcomes;
    limit = limit;
    after = after;
  })

abbrev names_item : Option String → AuditRecord → Bool
names_item none a = true
names_item (some id) a =
    any (λ r. same_audit_reference r (record { kind = work_item; id = id })) a.references

abbrev names_reference : Option AuditReference → AuditRecord → Bool
names_reference none a = true
names_reference (some reference) a = any (λ r. same_audit_reference r reference) a.references

-- `julianday(occurred_at) DESC, occurred_at DESC, id ASC`: the row stands after the cursor.
unfoldable pub audit_follows : AuditTimelineCursor → AuditRecord → Bool
unfolding text_before
audit_follows c a =
    ltb (date_parse a.occurred_at) (date_parse c.occurred_at)
    || date_parse a.occurred_at == date_parse c.occurred_at
      && text_before a.occurred_at c.occurred_at
    || a.occurred_at == c.occurred_at && text_before c.id a.id

abbrev pub timeline_cursor_of : AuditRecord → AuditTimelineCursor
timeline_cursor_of a = record { occurred_at = a.occurred_at; id = a.id }

-- In the order of the timeline, the first row stands before the second.
abbrev pub later : AuditRecord → AuditRecord → Bool
later a b = audit_follows (timeline_cursor_of a) b

abbrev after_timeline_cursor : Option AuditTimelineCursor → AuditRecord → Bool
after_timeline_cursor none a = true
after_timeline_cursor (some c) a = audit_follows c a

unfoldable pub in_timeline : ParsedTimelineQuery → AuditRecord → Bool
unfolding audit_follows
in_timeline q a =
    any (λ c. a.category == c) q.categories
    && any (λ o. a.outcome == o) q.outcomes
    && names_item q.item a
    && names_reference q.reference a
    && after_timeline_cursor q.after a

unfoldable pub timeline_rows : Database → ParsedTimelineQuery → List AuditRecord
unfolding take sort_by select in_timeline audit_follows
timeline_rows db q = take (suc q.limit) (matching later (in_timeline q) db.audit_records)

unfoldable pub timeline_record : Database → AuditRecord → Result AuditRecord
unfolding read_audit_in_snapshot
timeline_record db row = do
  found ← read_audit_in_snapshot db row.id
  or_throw found (fail Code.stored_record_invalid)

unfoldable pub timeline_page : Database → ParsedTimelineQuery → Result AuditTimelinePage
unfolding timeline_rows parse_each timeline_record last_of take
timeline_page db q = do
  let rows = timeline_rows db q
  records ← parse_each (timeline_record db) (take q.limit rows)
  ok (record {
    records = records;
    next_cursor = next_cursor_of timeline_cursor_of (ltb q.limit (length rows)) (last_of records);
  })

unfoldable pub query_audit_timeline : Database → AuditTimelineQuery → Result AuditTimelinePage
unfolding parse_timeline_query timeline_page
query_audit_timeline db input = do
  q ← parse_timeline_query input
  rethrow catch_audit (timeline_page db q)
