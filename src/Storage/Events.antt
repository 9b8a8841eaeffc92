-- ===== src/Storage/Events.antt =====
-- packages/storage-sqlite/src/event-ingestion.ts. A stored event is the event with its missing parts
-- sorted and its normalized object in canonical form, which is what its row's JSON texts hold.
pub mod Stored
pub mod Repeat
pub mod Again
use twindesk.Prelude.{
  ℕ, suc, ◌+◌, Bool, true, false, ◌&&◌, ◌||◌, Option, none, some, List, [], ◌∷◌, String, ◌==◌,
  string_eq, if◌then◌else◌, any, is_some,
}
use twindesk.Result.{
  Result, ok, err, Thrown, constraint, event_ingestion, EventIngestionCode, EventIngestionError,
  EventConflictKey, ◌>>=◌, ◌>>◌, throw_if, throw_unless, rethrow,
}
use twindesk.Domain.Model.{ExternalReference}
use twindesk.Domain.Records.{ContextState, complete, partial, ExternalEvent}
use twindesk.Domain.Json.{
  Json, null, number, text, array, object, Items, no_item, item, canonical, canonical_members,
  sort_texts,
}
use twindesk.Domain.Parsers.{parse_external_event}
use twindesk.Storage.Table.{select, find}
use twindesk.Storage.Database.{Database}
use twindesk.Storage.Digest.{Document, canonical_json}

pub data EventDisposition : Type 0 where
  inserted duplicate : EventDisposition

pub record EventIngestionItem : Type 0 where
  pub input_index : ℕ
  pub event_id : String
  pub disposition : EventDisposition

pub record EventIngestionResult : Type 0 where
  pub inserted_count : ℕ
  pub duplicate_count : ℕ
  pub items : List EventIngestionItem

abbrev pub empty_ingestion_result : EventIngestionResult
empty_ingestion_result = record { inserted_count = 0; duplicate_count = 0; items = [] }

unfoldable pub text_items : List String → Items
text_items [] = no_item
text_items (s ∷ ss) = item (text s) (text_items ss)

abbrev text_or_null : Option String → Json
text_or_null none = null
text_or_null (some s) = text s

abbrev pub context_status : ContextState → String
context_status complete = "complete"
context_status (partial missing) = "partial"

unfoldable pub sorted_missing : ContextState → Json
unfolding text_items sort_texts
sorted_missing complete = null
sorted_missing (partial missing) = array (text_items (sort_texts missing))

-- The array that `eventDigest` hashes.
unfoldable pub event_json : ExternalEvent → Json
unfolding sorted_missing
event_json e = array (
    item (text "external_event") (
      item (number "1") (
        item (text e.id) (
          item (text e.idempotency_key) (
            item (text e.source.connector_id) (
              item (text e.source.account_id) (
                item (text e.source.object_type) (
                  item (text e.source.external_id) (
                    item (text_or_null e.source.source_timestamp) (
                      item (text e.event_type) (
                        item (text e.occurred_at) (
                          item (text (context_status e.context)) (
                            item (sorted_missing e.context)
                              (item (object e.normalized) no_item))))))))))))))

unfoldable pub stored_context : ContextState → ContextState
unfolding sort_texts
stored_context complete = complete
stored_context (partial missing) = partial (sort_texts missing)

-- The row that the INSERT writes, as `parseStoredEvent` reads it.
unfoldable pub stored_event : ExternalEvent → ExternalEvent
unfolding stored_context canonical
stored_event e = record e {
  context = stored_context e.context;
  normalized = canonical_members e.normalized;
}

abbrev pub ingestion_failure : EventIngestionCode → Option ℕ → Option EventConflictKey → Thrown
ingestion_failure code index key =
    event_ingestion (record { code = code; input_index = index; conflict_key = key })

unfoldable pub parse_stored_event : ExternalEvent → Result ExternalEvent
unfolding parse_external_event
parse_stored_event row =
    rethrow (λ _. ingestion_failure EventIngestionCode.stored_event_invalid none none)
      (parse_external_event row)

unfoldable pub read_external_event_in_snapshot : Database → String → Result (Option ExternalEvent)
unfolding parse_stored_event
read_external_event_in_snapshot db id = elim (find (λ e. e.id) id db.events) [
  | none ↦ ok none
  | some row ↦ (parse_stored_event row >>= λ e. ok (some e))
]

unfoldable pub event_matches : ExternalEvent → ExternalEvent → Bool
event_matches e row = row.id == e.id || row.idempotency_key == e.idempotency_key

unfoldable pub conflict_key : ExternalEvent → ExternalEvent → Option EventConflictKey
conflict_key row e =
    if row.id == e.id
    then (if row.idempotency_key == e.idempotency_key
        then some EventConflictKey.both
        else some EventConflictKey.id)
    else if row.idempotency_key == e.idempotency_key
    then some EventConflictKey.idempotency_key
    else none

abbrev same_key : EventConflictKey → EventConflictKey → Bool
same_key EventConflictKey.id EventConflictKey.id = true
same_key EventConflictKey.idempotency_key EventConflictKey.idempotency_key = true
same_key EventConflictKey.both EventConflictKey.both = true
same_key _ _ = false

-- One step of the `reduce` over the conflicting rows, and the whole of it.
abbrev combined_key : Option EventConflictKey → Option EventConflictKey → Option EventConflictKey
combined_key none current = current
combined_key (some combined) none = some combined
combined_key (some combined) (some current) =
    if same_key current combined then some combined else some EventConflictKey.both

unfoldable pub conflict_keys :
    ExternalEvent → Option EventConflictKey → List ExternalEvent → Option EventConflictKey
unfolding conflict_key
conflict_keys e combined [] = combined
conflict_keys e combined (row ∷ rows) =
    conflict_keys e (combined_key combined (conflict_key row e)) rows

-- `key ?? 'both'`
abbrev key_or_both : Option EventConflictKey → EventConflictKey
key_or_both none = EventConflictKey.both
key_or_both (some key) = key

abbrev is_single {ℓ} : {A : Type ℓ} → List A → Bool
is_single (x ∷ []) = true
is_single _ = false

-- Every error of the loop that is not its own becomes `write_failed`.
abbrev pub catch_ingestion : ℕ → Thrown → Thrown
catch_ingestion index (event_ingestion e) = event_ingestion e
catch_ingestion index _ = ingestion_failure EventIngestionCode.write_failed (some index) none

-- `INSERT INTO external_events`: the id and the idempotency key are unique.
unfoldable pub insert_event : Database → ExternalEvent → Result Database
unfolding event_matches
insert_event db e = do
  throw_if (any (event_matches e) db.events) constraint
  ok (record db { events = stored_event e ∷ db.events })

unfoldable pub parse_external_event_batch : List ExternalEvent → Result (List ExternalEvent)
parse_external_event_batch [] = ok []
parse_external_event_batch (e ∷ es) = do
  parsed ← parse_external_event e
  rest ← parse_external_event_batch es
  ok (parsed ∷ rest)

module _ (sha256_hex : Document → String) where
  unfoldable pub event_digest : ExternalEvent → String
  unfolding event_json canonical
  event_digest e = sha256_hex (canonical_json (canonical (event_json e)))

  -- `rows.find(…)`: the rows up to the first match are parsed.
  unfoldable pub any_matching_row : ExternalEvent → List ExternalEvent → Result Bool
  unfolding parse_stored_event
  any_matching_row e [] = ok false
  any_matching_row e (row ∷ rows) = do
    stored ← parse_stored_event row
    if event_digest stored == event_digest e then ok true else any_matching_row e rows

  -- The body of the loop, at the rows that have the event's id or its key.
  unfoldable pub ingest_at :
      Database → ℕ → ExternalEvent → List ExternalEvent → Result (EventDisposition × Database)
  unfolding any_matching_row insert_event conflict_keys
  ingest_at db index e [] = insert_event db e >>= λ db'. ok (inserted, db')
  ingest_at db index e (row ∷ rows) = do
    found ← any_matching_row e (row ∷ rows)
    let key = key_or_both (conflict_keys e none (row ∷ rows))
    throw_unless (found && is_single (row ∷ rows))
        (ingestion_failure EventIngestionCode.idempotency_conflict (some index) (some key))
    ok (duplicate, db)

  unfoldable pub ingest_event : Database → ℕ → ExternalEvent → Result (EventDisposition × Database)
  unfolding ingest_at
  ingest_event db index e = ingest_at db index e (select (event_matches e) db.events)

  abbrev pub with_item :
      ℕ → ExternalEvent → EventDisposition → EventIngestionResult → EventIngestionResult
  with_item index e inserted r = record {
    inserted_count = suc r.inserted_count;
    duplicate_count = r.duplicate_count;
    items = record { input_index = index; event_id = e.id; disposition = inserted } ∷ r.items;
  }
  with_item index e duplicate r = record {
    inserted_count = r.inserted_count;
    duplicate_count = suc r.duplicate_count;
    items = record { input_index = index; event_id = e.id; disposition = duplicate } ∷ r.items;
  }

  -- The loop from an index on.
  unfoldable pub ingest_from :
      Database → ℕ → List ExternalEvent → Result (EventIngestionResult × Database)
  unfolding ingest_event
  ingest_from db index [] = ok (empty_ingestion_result, db)
  ingest_from db index (e ∷ es) = do
    step ← rethrow (catch_ingestion index) (ingest_event db index e)
    rest ← ingest_from step.1 (suc index) es
    ok (with_item index e step.0 rest.0, rest.1)

  unfoldable pub ingest_external_events_in_transaction :
      Database → List ExternalEvent → Result (EventIngestionResult × Database)
  ingest_external_events_in_transaction db es = ingest_from db 0 es

  unfoldable pub ingest_external_events :
      Database → List ExternalEvent → Result (EventIngestionResult × Database)
  unfolding parse_external_event_batch ingest_external_events_in_transaction
  ingest_external_events db input = do
    es ← parse_external_event_batch input
    ingest_external_events_in_transaction db es
