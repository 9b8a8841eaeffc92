-- ===== src/Storage/Tests/Synced/Batch.antt =====
-- A batch of one event, its projection and its cursor, and what runs of it give.
use Prim.Native.Char.{Char, code}
use twindesk.Prelude.{
  arith, sym, ◌≢◌, ℕ, ◌≡◌, refl, ap, true, none, some, [], ◌∷◌, String, String_discrete,
  Option_discrete, ℕ_discrete,
}
use twindesk.Time.{◌▹◌}
use twindesk.Result.{Result}
use twindesk.Domain.Records.{
  partial, ExternalEvent, InboxState, set_inbox_state, WorkItemUserAction, ConnectorCursor,
}
use twindesk.Domain.Json.{number, text, array, item, no_member, member}
use twindesk.Storage.Database.{Database}
use twindesk.Storage.Digest.{Document, canonical_json}
use twindesk.Storage.Events.{EventIngestionResult, event_digest, event_json, ingest_external_events}
use twindesk.Storage.Events.Repeat.{Separates}
use twindesk.Storage.Projection.Rows.{WorkItemProjectionInput}
use twindesk.Storage.Projection.Inbox.{InboxPage, query_inbox}
use twindesk.Storage.Pages.{distinct_keys, take, last_of, insert_by, sort_by}
use twindesk.Storage.Sync.{
  ConnectorSyncCommitRequest, ConnectorSyncCommitResult, commit_connector_sync_batch,
}
use twindesk.Storage.Tests.Samples.{
  is_ok, sample_hash, sample_target, sample_thread, sample_item, sample_db,
}
use twindesk.Storage.Events.{
  text_items, sorted_missing, stored_context, stored_event, parse_stored_event,
  read_external_event_in_snapshot, event_matches, conflict_key, conflict_keys, insert_event,
  parse_external_event_batch, any_matching_row, ingest_at, ingest_event, ingest_from,
  ingest_external_events_in_transaction,
}
use twindesk.Storage.Projection.Rows.{
  parse_projection_input, parse_each, parse_work_item_projection_batch, thread_row, base_row,
  current_row, parse_stored_work_item, read_thread_in_snapshot, read_base,
  read_work_item_in_snapshot, insert_by_revision, sort_by_revision, actions_of, parse_stored_action,
  read_work_item_actions_in_snapshot,
}
use twindesk.Storage.Projection.Advance.{
  reference_of, timestamp_regresses, reference_lost, validate_source_event, validate_source_events,
  assert_thread_can_advance, assert_base_can_advance, assert_thread_not_deleted,
}
use twindesk.Storage.Projection.Materialize.{
  apply_action, apply_actions, materialize_work_item, write_current_projection,
  rebuild_in_transaction, rebuild_work_item_projection,
}
use twindesk.Storage.Projection.Put.{
  updated_thread, advance_thread, put_thread, write_thread, updated_base, advance_base, put_base,
  write_base, combined_disposition, put_work_item_projection_in_transaction,
  put_work_item_projection, put_projections,
}
use twindesk.Storage.Projection.Inbox.{
  read_work_item, read_thread, parse_inbox_cursor, parse_inbox_query, follows, in_query, inbox_rows,
  inbox_item, inbox_page,
}
use twindesk.Storage.Sync.{
  parse_cursor_key, assert_cursor_identity, assert_event_identities, parse_commit_request,
  parse_stored_cursor, cursor_matches, same_checkpoint, assert_forward_cursor, advanced_cursor,
  move_cursor, advance_cursor, write_cursor_at, write_cursor_in_transaction, write_candidate,
  read_connector_cursor, commit_transaction,
}
use twindesk.Domain.Parsers.{
  distinct_by, string_array_at, reference_identity, reference_array_at, context_at,
  external_event_at, parse_external_event, external_thread_at, parse_external_thread, work_item_at,
  parse_work_item, work_item_user_action_at, parse_work_item_user_action, connector_cursor_at,
  parse_connector_cursor,
}
use twindesk.Domain.Json.{
  utf16, units_leb, insert_text, sort_texts, insert_member, canonical, json_at,
}
use twindesk.Storage.Table.{select, find, update, insert, update_one, upsert}
use twindesk.Domain.Validation.{is_space, string_at, external_reference_at}
use twindesk.Time.{
  fraction, fields_with, fields, is_leap, days_in_month, on_calendar, timestamp_at,
  days_before_year, days_before_month, milliseconds, date_parse,
}
use twindesk.Domain.Records.{
  InboxState_discrete, ExternalReference_discrete, ExternalThread_discrete, WorkItem_discrete,
  Units_discrete,
}

-- Two texts as one: each character of the first is marked.
pair : String → String → String
pair String.[] t = "0" ▹ t
pair (String.◌∷◌ c s) t = "1" ▹ c ▹ pair s t

first_code : String → ℕ
first_code String.[] = 0
first_code (String.◌∷◌ c s) = code c

tail_of : String → String
tail_of String.[] = ""
tail_of (String.◌∷◌ c s) = s

first_char : String → Char
first_char String.[] = "0"
first_char (String.◌∷◌ c s) = c

differ : (a b : ℕ) → a ≡ 48 → b ≡ 49 → a ≢ b
differ a b p q e = omega arith

pair-injective : (s t s' t' : String) → pair s t ≡ pair s' t' → (s ≡ s') × (t ≡ t')
unfolding pair first_code tail_of first_char
pair-injective String.[] t String.[] t' h = (refl, ap tail_of h)
pair-injective String.[] t (String.◌∷◌ c' s') t' h =
    absurd (differ 48 49 refl refl (ap first_code h))
pair-injective (String.◌∷◌ c s) t String.[] t' h =
    absurd (differ 48 49 refl refl (sym (ap first_code h)))
pair-injective (String.◌∷◌ c s) t (String.◌∷◌ c' s') t' h =
    let rest = ap tail_of h in
    let same : c ≡ c' = ap first_char rest in
    let ih = pair-injective s t s' t' (ap tail_of rest) in (rw same (ap (λ u. c' ▹ u) ih.0), ih.1)

-- A hash that tells events apart by their ids and keys.
pub pair_hash : Document → String
pair_hash (canonical_json (array (item k (item v (item (text id) (item (text key) rest)))))) =
    pair id key
pair_hash _ = ""

pub pair_hash-Separates : Separates pair_hash
unfolding pair_hash event_digest event_json
pair_hash-Separates a b h = pair-injective a.id a.idempotency_key b.id b.idempotency_key h

abbrev pub empty_db : Database
empty_db = record sample_db { threads = []; work_items = [] }

abbrev pub sample_event : ExternalEvent
sample_event = record {
  id = "event-1";
  idempotency_key = "key-1";
  source = sample_target;
  event_type = "message.received";
  occurred_at = "2026-03-01T08:59:00Z";
  received_at = "2026-03-01T09:00:00Z";
  context = partial ("thread" ∷ "author" ∷ []);
  normalized = member "text" (text "Lunch?") (member "count" (number "1") no_member);
}

abbrev pub sample_put : WorkItemProjectionInput
sample_put = record { thread = sample_thread; work_item = sample_item }

abbrev pub sample_cursor : ConnectorCursor
sample_cursor = record {
  id = "cursor-1";
  connector_id = "feishu";
  account_id = "account-1";
  stream = "messages";
  position = "p-1";
  committed_through = some "2026-03-01T09:00:00Z";
  updated_at = "2026-03-01T09:00:01Z";
}

abbrev pub sample_batch : ConnectorSyncCommitRequest
sample_batch = record {
  key = record { connector_id = "feishu"; account_id = "account-1"; stream = "messages" };
  events = sample_event ∷ [];
  candidate_cursor = some sample_cursor;
  projections = sample_put ∷ [];
}

-- A batch whose cursor goes back.
abbrev pub later_batch : ConnectorSyncCommitRequest
later_batch = record sample_batch {
  candidate_cursor =
      some (record sample_cursor { position = "p-2"; updated_at = "2026-03-01T08:00:00Z" });
}

abbrev pub sample_user_action : WorkItemUserAction
sample_user_action = record {
  id = "action-1";
  work_item_id = "item-1";
  revision = 1;
  action = set_inbox_state InboxState.done;
  occurred_at = "2026-03-01T09:30:00Z";
}

abbrev pub synced_db : Database
synced_db = record empty_db { cursors = sample_cursor ∷ [] }

abbrev pub ingestion : Result (EventIngestionResult × Database)
ingestion = ingest_external_events pair_hash empty_db (sample_event ∷ [])

abbrev pub commit : Result (ConnectorSyncCommitResult × Database)
commit = commit_connector_sync_batch sample_hash empty_db sample_batch

abbrev pub inbox : Result InboxPage
inbox = query_inbox sample_db none (some 1) none

-- The ingestion, the batch and the query all succeed.
pub runs :
    (is_ok ingestion ≡ true)
    × (is_ok commit ≡ true)
    × (is_ok inbox ≡ true)
    × (distinct_keys (λ w. w.id) sample_db.work_items ≡ true)
unfolding String_discrete Option_discrete ℕ_discrete pair_hash pair text_items sorted_missing
    event_json stored_context stored_event parse_stored_event read_external_event_in_snapshot
    event_matches conflict_key conflict_keys insert_event parse_external_event_batch event_digest
    any_matching_row ingest_at ingest_event ingest_from ingest_external_events_in_transaction
    ingest_external_events parse_projection_input parse_each parse_work_item_projection_batch
    thread_row base_row current_row parse_stored_work_item read_thread_in_snapshot read_base
    read_work_item_in_snapshot insert_by_revision sort_by_revision actions_of parse_stored_action
    read_work_item_actions_in_snapshot reference_of timestamp_regresses reference_lost
    validate_source_event validate_source_events assert_thread_can_advance assert_base_can_advance
    assert_thread_not_deleted apply_action apply_actions materialize_work_item
    write_current_projection rebuild_in_transaction rebuild_work_item_projection updated_thread
    advance_thread put_thread write_thread updated_base advance_base put_base write_base
    combined_disposition put_work_item_projection_in_transaction put_work_item_projection
    put_projections read_work_item read_thread parse_inbox_cursor parse_inbox_query follows
    insert_by sort_by in_query take inbox_rows inbox_item last_of inbox_page query_inbox
    parse_cursor_key assert_cursor_identity assert_event_identities parse_commit_request
    parse_stored_cursor cursor_matches same_checkpoint assert_forward_cursor advanced_cursor
    move_cursor advance_cursor write_cursor_at write_cursor_in_transaction write_candidate
    read_connector_cursor commit_transaction commit_connector_sync_batch distinct_by string_array_at
    reference_identity reference_array_at context_at external_event_at parse_external_event
    external_thread_at parse_external_thread work_item_at parse_work_item work_item_user_action_at
    parse_work_item_user_action connector_cursor_at parse_connector_cursor utf16 units_leb
    insert_text sort_texts insert_member canonical json_at select find update insert update_one
    upsert is_space string_at external_reference_at fraction fields_with fields is_leap
    days_in_month on_calendar timestamp_at days_before_year days_before_month milliseconds
    date_parse InboxState_discrete ExternalReference_discrete ExternalThread_discrete
    WorkItem_discrete Units_discrete
runs = (refl, refl, refl, refl)
