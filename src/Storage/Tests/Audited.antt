-- ===== src/Storage/Tests/Audited.antt =====
-- The theorems on audit records at concrete inputs.
use twindesk.Storage.Tests.Samples.{is_ok, value, value-eq, sample_db}
use twindesk.Prelude.{
  ◌≡◌, ◌≤◌, refl, true, none, some, [], ◌∷◌, String_discrete, Option_discrete, ℕ_discrete,
}
use twindesk.Time.{
  timestamp_at, fraction, fields_with, fields, is_leap, days_in_month, on_calendar,
  days_before_year, days_before_month, milliseconds, date_parse,
}
use twindesk.Result.{Result, ok}
use twindesk.Domain.Json.{
  number, text, no_member, member, utf16, units_leb, insert_member, canonical, json_at, same_json,
}
use twindesk.Domain.Parsers.{distinct_by}
use twindesk.Domain.Validation.{is_space, string_at}
use twindesk.Domain.Audit.{
  AuditRecord, AuditActor, AuditCategory, AuditOutcome, work_item, external_thread, session,
  AuditCategory_discrete, AuditOutcome_discrete, AuditActor_discrete, AuditReferenceKind_discrete,
  audit_actor_at, audit_record_at, parse_audit_record,
}
use twindesk.Storage.Table.{find, insert, select}
use twindesk.Storage.Database.{Database}
use twindesk.Storage.Audit.References.{
  unique, item_ids, earliest_of, resolution_from_rows, related_rows, resolve_local_reference,
  ids_of_kind, assert_one_thread, assert_kinds, validate_resolved, validate_found, validate_each,
  validate_references,
}
use twindesk.Storage.Audit.{
  AuditAppendResult, audit_row, parse_stored_audit_record, read_audit_in_snapshot, same_references,
  same_audit_record, stored_audit, write_audit_record, append_at, append_record, append_from,
  parse_audit_batch, append_audit_records_in_transaction, append_audit_records,
}
use twindesk.Storage.Audit.Append.{
  all_repeated, append_audit_records-again, appends, appends-keeps_row,
}
use twindesk.Storage.Pages.{take, last_of, insert_by, sort_by, distinct_keys}
use twindesk.Storage.Pages.Contents.{IsPage}
use twindesk.Storage.Projection.Rows.{parse_each}
use twindesk.Storage.Audit.Timeline.{
  AuditTimelineQuery, AuditTimelinePage, ParsedTimelineQuery, parse_enum_filter, parse_identifier,
  parse_reference, parse_timeline_cursor, parse_timeline_query, audit_follows, in_timeline,
  timeline_cursor_of, timeline_rows, timeline_record, timeline_page, query_audit_timeline,
}
use twindesk.Storage.Audit.TimelinePage.{query_audit_timeline-IsPage}
use twindesk.Storage.Audit.Documented.{AreDocumented, appends-AreDocumented}

abbrev sample_audit : AuditRecord
sample_audit = record {
  id = "audit-1";
  category = AuditCategory.routing;
  outcome = AuditOutcome.success;
  actor = AuditActor.connector "feishu";
  summary = "A thread was routed.";
  references =
      record { kind = work_item; id = "item-1" }
      ∷ record { kind = external_thread; id = "thread-1" }
      ∷ record { kind = session; id = "session-1" }
      ∷ [];
  details = member "reason" (text "asked") (member "attempt" (number "1") no_member);
  occurred_at = "2026-03-01T10:00:00Z";
}

-- The same id with another summary.
abbrev other_audit : AuditRecord
other_audit = record sample_audit { summary = "Something else." }

abbrev append_run : Result (AuditAppendResult × Database)
append_run = append_audit_records sample_db (sample_audit ∷ [])

abbrev audited_db : Database
audited_db = record sample_db { audit_records = stored_audit sample_audit ∷ [] }

-- The records of a work item, one to a page.
abbrev timeline_query : AuditTimelineQuery
timeline_query = record {
  work_item_id = some "item-1";
  reference = none;
  categories = some (AuditCategory.routing ∷ []);
  outcomes = none;
  limit = some 1;
  after = none;
}

abbrev timeline_run : Result AuditTimelinePage
timeline_run = query_audit_timeline audited_db timeline_query

audit_runs :
    (is_ok append_run ≡ true)
    × (audit_row audited_db "audit-1" ≡ some (stored_audit sample_audit))
    × (is_ok timeline_run ≡ true)
    × (distinct_keys (λ a. a.id) audited_db.audit_records ≡ true)
unfolding String_discrete Option_discrete ℕ_discrete utf16 units_leb insert_member canonical json_at
    same_json distinct_by is_space string_at fraction fields_with fields is_leap days_in_month
    on_calendar timestamp_at days_before_year days_before_month milliseconds date_parse
    AuditCategory_discrete AuditOutcome_discrete AuditActor_discrete AuditReferenceKind_discrete
    audit_actor_at audit_record_at parse_audit_record find insert select unique item_ids earliest_of
    resolution_from_rows related_rows resolve_local_reference ids_of_kind assert_one_thread
    assert_kinds validate_resolved validate_found validate_each validate_references audit_row
    parse_stored_audit_record read_audit_in_snapshot same_references same_audit_record stored_audit
    write_audit_record append_at append_record append_from parse_audit_batch
    append_audit_records_in_transaction append_audit_records take last_of insert_by sort_by
    parse_each parse_enum_filter parse_identifier parse_reference parse_timeline_cursor
    parse_timeline_query audit_follows in_timeline timeline_rows timeline_record timeline_page
    query_audit_timeline
audit_runs = (refl, refl, refl, refl)

append_audit_records-again_example :
    append_audit_records (value append_run audit_runs.0).1 (sample_audit ∷ [])
    ≡ ok (all_repeated 0 (sample_audit ∷ []), (value append_run audit_runs.0).1)
append_audit_records-again_example =
    append_audit_records-again sample_db (sample_audit ∷ []) (value append_run audit_runs.0).0
      (value append_run audit_runs.0).1 (value-eq append_run audit_runs.0)

appends-keeps_row_example :
    audit_row (appends audited_db ((other_audit ∷ []) ∷ (sample_audit ∷ []) ∷ [])) "audit-1"
    ≡ some (stored_audit sample_audit)
appends-keeps_row_example =
    appends-keeps_row audited_db ((other_audit ∷ []) ∷ (sample_audit ∷ []) ∷ []) "audit-1"
      (stored_audit sample_audit) audit_runs.1

appends-AreDocumented_example :
    AreDocumented (appends sample_db ((sample_audit ∷ []) ∷ (other_audit ∷ []) ∷ []))
appends-AreDocumented_example =
    appends-AreDocumented sample_db ((sample_audit ∷ []) ∷ (other_audit ∷ []) ∷ []) tt

query_audit_timeline-IsPage_example :
    (q : ParsedTimelineQuery) × (parse_timeline_query timeline_query ≡ ok q)
    × (1 ≤ q.limit)
    × (q.limit ≤ 100)
    × IsPage
        (λ a. date_parse a.occurred_at)
        timeline_cursor_of
        audit_follows
        (in_timeline q)
        q.limit
        audited_db.audit_records
        (value timeline_run audit_runs.2).records
        (value timeline_run audit_runs.2).next_cursor
query_audit_timeline-IsPage_example =
    query_audit_timeline-IsPage audited_db timeline_query (value timeline_run audit_runs.2)
      audit_runs.3 (value-eq timeline_run audit_runs.2)
