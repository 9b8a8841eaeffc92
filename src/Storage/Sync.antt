-- ===== src/Storage/Sync.antt =====
-- packages/storage-sqlite/src/sync-cursor.ts: the position of each connector's stream, and the commit
-- of a synchronized batch: its events, its projections and then its cursor, in one transaction.
pub mod Forward
pub mod Commit
pub mod Checkpoint
pub mod History
use twindesk.Prelude.{
  ℕ, Bool, true, false, not, ◌&&◌, ◌||◌, Option, none, some, List, [], ◌∷◌, String, all, any, ltb,
  ◌==◌, ◌!=◌, string_eq, option_eq, if◌then◌else◌,
}
use twindesk.Time.{IsoTimestamp, date_parse}
use twindesk.Result.{
  Result, ok, err, Thrown, constraint, event_ingestion, sync_cursor, projection, ◌>>=◌, ◌>>◌,
  throw_if, throw_unless, rethrow,
}
use twindesk.Result.{SyncCursorCode as Code}
use twindesk.Domain.Records.{ExternalEvent, ConnectorCursor}
use twindesk.Domain.Validation.{string_at}
use twindesk.Domain.Parsers.{parse_connector_cursor}
use twindesk.Storage.Table.{select, update}
use twindesk.Storage.Database.{Database}
use twindesk.Storage.Digest.{Document}
use twindesk.Storage.Events.{
  EventIngestionResult, parse_external_event_batch, ingest_external_events_in_transaction,
}
use twindesk.Storage.Projection.Rows.{
  WorkItemProjectionInput, WorkItemProjectionWriteResult, parse_work_item_projection_batch,
}
use twindesk.Storage.Projection.Put.{put_projections}

pub record ConnectorCursorKey : Type 0 where
  pub connector_id : String
  pub account_id : String
  pub stream : String

pub record ConnectorSyncCommitRequest : Type 0 where
  pub key : ConnectorCursorKey
  pub events : List ExternalEvent
  pub candidate_cursor : Option ConnectorCursor
  pub projections : List WorkItemProjectionInput

-- A disposition other than `not_provided` names the cursor.
pub data CursorCommitResult : Type 0 where
  not_provided : CursorCommitResult
  inserted advanced unchanged : String → CursorCommitResult

pub record ConnectorSyncCommitResult : Type 0 where
  pub ingestion : EventIngestionResult
  pub projections : List WorkItemProjectionWriteResult
  pub cursor : CursorCommitResult

abbrev pub fail : Code → Thrown
fail = sync_cursor

unfoldable pub parse_cursor_key : ConnectorCursorKey → Result ConnectorCursorKey
parse_cursor_key key = do
  throw_unless (string_at key.connector_id && string_at key.account_id && string_at key.stream)
      (fail Code.invalid_request)
  ok key

unfoldable pub assert_cursor_identity :
    Option ConnectorCursor → ConnectorCursorKey → Result (Unit {0})
assert_cursor_identity none key = ok tt
assert_cursor_identity (some c) key =
    throw_unless
      (c.connector_id == key.connector_id
        && c.account_id == key.account_id
        && c.stream == key.stream)
      (fail Code.identity_mismatch)

unfoldable pub assert_event_identities : List ExternalEvent → ConnectorCursorKey → Result (Unit {0})
assert_event_identities es key =
    throw_unless
      (all (λ e. e.source.connector_id == key.connector_id && e.source.account_id == key.account_id)
        es)
      (fail Code.identity_mismatch)

abbrev pub parse_candidate : Option ConnectorCursor → Result (Option ConnectorCursor)
parse_candidate none = ok none
parse_candidate (some c) = parse_connector_cursor c >>= λ parsed. ok (some parsed)

unfoldable pub parse_commit_request : ConnectorSyncCommitRequest → Result ConnectorSyncCommitRequest
unfolding parse_cursor_key parse_external_event_batch parse_connector_cursor
    parse_work_item_projection_batch assert_cursor_identity assert_event_identities
parse_commit_request input = do
  key ← parse_cursor_key input.key
  events ← parse_external_event_batch input.events
  candidate ← parse_candidate input.candidate_cursor
  projections ← parse_work_item_projection_batch input.projections
  assert_cursor_identity candidate key
  assert_event_identities events key
  ok (record {
    key = key;
    events = events;
    candidate_cursor = candidate;
    projections = projections;
  })

unfoldable pub parse_stored_cursor : ConnectorCursor → Result ConnectorCursor
unfolding parse_connector_cursor
parse_stored_cursor row =
    rethrow (λ _. fail Code.stored_cursor_invalid) (parse_connector_cursor row)

abbrev pub same_stream : ConnectorCursor → ConnectorCursor → Bool
same_stream left right =
    left.connector_id == right.connector_id
    && left.account_id == right.account_id
    && left.stream == right.stream

-- `WHERE id = ? OR (connector_id = ? AND account_id = ? AND stream = ?)`
unfoldable pub cursor_matches : ConnectorCursor → ConnectorCursor → Bool
cursor_matches candidate row = row.id == candidate.id || same_stream row candidate

unfoldable pub same_checkpoint : ConnectorCursor → ConnectorCursor → Bool
same_checkpoint left right =
    left.position == right.position && left.committed_through == right.committed_through

-- The durable watermark is missing from the candidate or later than there.
abbrev pub watermark_regresses : Option IsoTimestamp → Option IsoTimestamp → Bool
watermark_regresses none candidate = false
watermark_regresses (some durable) none = true
watermark_regresses (some durable) (some candidate) =
    ltb (date_parse candidate) (date_parse durable)

unfoldable pub assert_forward_cursor : ConnectorCursor → ConnectorCursor → Result (Unit {0})
assert_forward_cursor existing candidate = do
  throw_if (ltb (date_parse candidate.updated_at) (date_parse existing.updated_at))
      (fail Code.cursor_regression)
  throw_if (watermark_regresses existing.committed_through candidate.committed_through)
      (fail Code.cursor_regression)

-- The columns that the UPDATE sets.
unfoldable pub advanced_cursor : ConnectorCursor → ConnectorCursor → ConnectorCursor
advanced_cursor candidate row = record row {
  position = candidate.position;
  committed_through = candidate.committed_through;
  updated_at = candidate.updated_at;
}

unfoldable pub move_cursor : Database → ConnectorCursor → Database
unfolding update advanced_cursor
move_cursor db candidate = record db {
  cursors = update (λ c. c.id) candidate.id (advanced_cursor candidate) db.cursors;
}

unfoldable pub advance_cursor :
    Database → ConnectorCursor → ConnectorCursor → Result (CursorCommitResult × Database)
unfolding same_checkpoint assert_forward_cursor move_cursor
advance_cursor db candidate existing = do
  let forward =
      assert_forward_cursor existing candidate
      >> ok (advanced candidate.id, move_cursor db candidate)
  throw_unless (existing.id == candidate.id && same_stream existing candidate)
      (fail Code.cursor_conflict)
  if same_checkpoint existing candidate then ok (unchanged existing.id, db) else forward

-- `writeCursorInTransaction`, at the rows that have the candidate's id or its stream.
unfoldable pub write_cursor_at :
    Database → ConnectorCursor → List ConnectorCursor → Result (CursorCommitResult × Database)
unfolding parse_stored_cursor advance_cursor
write_cursor_at db candidate [] =
    ok (inserted candidate.id, record db { cursors = candidate ∷ db.cursors })
write_cursor_at db candidate (row ∷ []) =
    parse_stored_cursor row >>= λ existing. advance_cursor db candidate existing
write_cursor_at db candidate rows = err (fail Code.cursor_conflict)

unfoldable pub write_cursor_in_transaction :
    Database → ConnectorCursor → Result (CursorCommitResult × Database)
unfolding select cursor_matches write_cursor_at
write_cursor_in_transaction db candidate =
    write_cursor_at db candidate (select (cursor_matches candidate) db.cursors)

unfoldable pub write_candidate :
    Database → Option ConnectorCursor → Result (CursorCommitResult × Database)
unfolding write_cursor_in_transaction
write_candidate db none = ok (not_provided, db)
write_candidate db (some c) = write_cursor_in_transaction db c

-- Every error that is of none of the three classes becomes `storage_error`.
abbrev pub catch_sync : Thrown → Thrown
catch_sync (event_ingestion e) = event_ingestion e
catch_sync (sync_cursor code) = sync_cursor code
catch_sync (projection code) = projection code
catch_sync _ = sync_cursor Code.storage_error

unfoldable pub read_connector_cursor :
    Database → ConnectorCursorKey → Result (Option ConnectorCursor)
unfolding parse_cursor_key select parse_stored_cursor
read_connector_cursor db input = do
  key ← parse_cursor_key input
  elim (select
      (λ row.
        row.connector_id == key.connector_id
        && row.account_id == key.account_id
        && row.stream == key.stream)
      db.cursors) [ [] ↦ ok none | row ∷ rows ↦ (parse_stored_cursor row >>= λ c. ok (some c)) ]

module _ (sha256_hex : Document → String) where
  unfoldable pub commit_transaction :
      Database → ConnectorSyncCommitRequest → Result (ConnectorSyncCommitResult × Database)
  unfolding ingest_external_events_in_transaction put_projections write_candidate
  commit_transaction db request = do
    ingested ← ingest_external_events_in_transaction sha256_hex db request.events
    projected ← put_projections sha256_hex ingested.1 request.projections
    committed ← write_candidate projected.1 request.candidate_cursor
    ok (
      record { ingestion = ingested.0; projections = projected.0; cursor = committed.0 },
      committed.1,
    )

  unfoldable pub commit_connector_sync_batch :
      Database → ConnectorSyncCommitRequest → Result (ConnectorSyncCommitResult × Database)
  unfolding parse_commit_request commit_transaction
  commit_connector_sync_batch db input = do
    request ← parse_commit_request input
    rethrow catch_sync (commit_transaction db request)
