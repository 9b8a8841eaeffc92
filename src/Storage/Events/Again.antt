-- ===== src/Storage/Events/Again.antt =====
-- packages/storage-sqlite/src/event-ingestion.ts: whole batches, ingested once and again.
use twindesk.Prelude.{
  append_one, length-append_one, sym, String, ℕ, suc, ◌+◌, ◌≡◌, refl, ap, ◌∙◌, inl, inr, true, List,
  [], ◌∷◌, ◌++◌, arith, length, All,
}
use twindesk.Result.{ok, >>=-eq-ok, rethrow, rethrow-eq-ok}
use twindesk.Domain.Records.{ExternalEvent}
use twindesk.Domain.Parsers.{external_event_at, parse_external_event}
use twindesk.Storage.Table.{select}
use twindesk.Storage.Database.{Database}
use twindesk.Storage.Digest.{Document}
use twindesk.Storage.Events.{
  EventDisposition, duplicate, EventIngestionItem, EventIngestionResult, stored_event,
  event_matches, ingest_event, ingest_from, ingest_external_events, parse_external_event_batch,
  ingest_external_events_in_transaction, with_item, catch_ingestion,
}
use twindesk.Storage.Events.Repeat.{
  IsKnown, Separates, ingest_at_effect, ingest_event-IsKnown-again, ingest_event-learns,
  ingest_event-keeps,
}

-- What the ingestion of a batch of known events returns.
unfoldable pub duplicate_items : ℕ → List ExternalEvent → List EventIngestionItem
duplicate_items index [] = []
duplicate_items index (e ∷ es) =
    record { input_index = index; event_id = e.id; disposition = duplicate }
    ∷ duplicate_items (suc index) es

unfoldable pub all_duplicates : ℕ → List ExternalEvent → EventIngestionResult
unfolding duplicate_items
all_duplicates index es = record {
  inserted_count = 0;
  duplicate_count = length es;
  items = duplicate_items index es;
}

pub parse_external_event_batch_same :
    (input es : List ExternalEvent)
    → parse_external_event_batch input ≡ ok es
    → (es ≡ input) × All (λ e. external_event_at e ≡ true) input
unfolding parse_external_event_batch parse_external_event
parse_external_event_batch_same [] es h = ground arith
parse_external_event_batch_same (e ∷ input) es h =
    let (first, h₁, h₂) = >>=-eq-ok (parse_external_event e) _ h in
    let (rest, h₃, h₄) = >>=-eq-ok (parse_external_event_batch input) _ h₂ in
    let ih = parse_external_event_batch_same input rest h₃ in (ground arith, (ground arith, ih.1))

module _ (sha256_hex : Document → String) where
  -- One turn of the loop and the turns after it.
  abbrev pub Turn :
      Database → ℕ → ExternalEvent → List ExternalEvent → EventIngestionResult → Database → Type 0
  Turn db index e es r db' =
      (d : EventDisposition) × (mid : Database) × (rest : EventIngestionResult) × (ingest_event
          sha256_hex db index e
        ≡ ok (d, mid))
      × (ingest_from sha256_hex mid (suc index) es ≡ ok (rest, db'))
      × (r ≡ with_item sha256_hex index e d rest)

  pub ingest_from-Turn :
      (db : Database) (index : ℕ) (e : ExternalEvent) (es : List ExternalEvent)
      (r : EventIngestionResult) (db' : Database)
      → ingest_from sha256_hex db index (e ∷ es) ≡ ok (r, db')
      → Turn db index e es r db'
  unfolding ingest_from
  ingest_from-Turn db index e es r db' h =
      let (first, h₁, h₂) =
        >>=-eq-ok (rethrow (catch_ingestion index) (ingest_event sha256_hex db index e)) _ h in
      let (rest, h₃, h₄) = >>=-eq-ok (ingest_from sha256_hex first.1 (suc index) es) _ h₂ in
      (
        first.0,
        first.1,
        rest.0,
        rethrow-eq-ok (catch_ingestion index) (ingest_event sha256_hex db index e) h₁,
        ground arith,
        ground arith,
      )

  pub ingest_from-keeps :
      (db : Database) (index : ℕ) (e : ExternalEvent) (es : List ExternalEvent)
      (r : EventIngestionResult) (db' : Database)
      → IsKnown sha256_hex db e
      → ingest_from sha256_hex db index es ≡ ok (r, db')
      → IsKnown sha256_hex db' e
  unfolding ingest_from
  ingest_from-keeps db index e [] r db' k h = let same : db' ≡ db = ground arith in rw same k
  ingest_from-keeps db index e (e' ∷ es) r db' k h =
      let (d, mid, rest, h₁, h₂, h₃) = ingest_from-Turn db index e' es r db' h in
      ingest_from-keeps mid (suc index) e es rest db'
        (ingest_event-keeps sha256_hex db index e e' d mid k h₁) h₂

  ingest_from-learns :
      Separates sha256_hex
      → (db : Database) (index : ℕ) (es : List ExternalEvent) (r : EventIngestionResult)
        (db' : Database)
      → All (λ e. external_event_at e ≡ true) es
      → ingest_from sha256_hex db index es ≡ ok (r, db')
      → All (IsKnown sha256_hex db') es
  ingest_from-learns separates db index [] r db' v h = tt
  ingest_from-learns separates db index (e ∷ es) r db' v h =
      let (d, mid, rest, h₁, h₂, h₃) = ingest_from-Turn db index e es r db' h in
      (
        ingest_from-keeps mid (suc index) e es rest db'
            (ingest_event-learns sha256_hex separates db index e d mid v.0 h₁) h₂,
        ingest_from-learns separates mid (suc index) es rest db' v.1 h₂,
      )

  ingest_from-again :
      (db : Database) (index : ℕ) (es : List ExternalEvent)
      → All (IsKnown sha256_hex db) es
      → ingest_from sha256_hex db index es ≡ ok (all_duplicates index es, db)
  unfolding ingest_from all_duplicates
  ingest_from-again db index [] k = refl
  ingest_from-again db index (e ∷ es) k =
      rw (ingest_event-IsKnown-again sha256_hex db index e k.0)
        (rw (ingest_from-again db (suc index) es k.1) refl)

  parse_batch_again :
      (es : List ExternalEvent)
      → All (λ e. external_event_at e ≡ true) es
      → parse_external_event_batch es ≡ ok es
  unfolding parse_external_event_batch parse_external_event
  parse_batch_again [] v = refl
  parse_batch_again (e ∷ es) v = rw v.0 (rw (parse_batch_again es v.1) refl)

  -- Where events with the same digest have the same id and key: a batch that was ingested is ingested
  -- again without an error, as duplicates all, and the database stays as it is.
  pub ingest_external_events-again :
      Separates sha256_hex
      → (db : Database) (es : List ExternalEvent) (r : EventIngestionResult) (db' : Database)
      → ingest_external_events sha256_hex db es ≡ ok (r, db')
      → ingest_external_events sha256_hex db' es ≡ ok (all_duplicates 0 es, db')
  unfolding ingest_external_events ingest_external_events_in_transaction
  ingest_external_events-again separates db es r db' h =
      let (parsed, h₁, h₂) = >>=-eq-ok (parse_external_event_batch es) _ h in
      let (same, valid) = parse_external_event_batch_same es parsed h₁ in
      let known = ingest_from-learns separates db 0 es r db' valid (rw (sym same) h₂) in
      rw (parse_batch_again es valid) (ingest_from-again db' 0 es known)

  pub ingest_from-adds :
      (db : Database) (index : ℕ) (es : List ExternalEvent) (r : EventIngestionResult)
      (db' : Database)
      → ingest_from sha256_hex db index es ≡ ok (r, db')
      → (added : List ExternalEvent) × (db' ≡ record db { events = added ++ db.events })
        × (length added ≡ r.inserted_count)
        × (r.inserted_count + r.duplicate_count ≡ length es)
        × (length r.items ≡ length es)
  unfolding ingest_from ingest_event
  ingest_from-adds db index [] r db' h =
      ([], ground arith, ground arith, ground arith, ground arith)
  ingest_from-adds db index (e ∷ es) r db' h =
      let (d, mid, rest, h₁, h₂, h₃) = ingest_from-Turn db index e es r db' h in
      let (added, a₁, a₂, a₃, a₄) = ingest_from-adds mid (suc index) es rest db' h₂ in
      elim (ingest_at_effect sha256_hex db index e (select (event_matches e) db.events) d mid h₁) [
        | inl (none_found, first, at) ↦ (
          added ++ stored_event e ∷ [],
          a₁ ∙ rw at (rw (append_one added (stored_event e) db.events) refl),
          rw h₃ (rw first (length-append_one added (stored_event e) ∙ ap suc a₂)),
          rw h₃ (rw first (ground arith)),
          rw h₃ (rw first (ap suc a₄)),
        )
        | inr (row, only, valid, digest, again, same) ↦ (
          added,
          a₁ ∙ rw same refl,
          rw h₃ (rw again a₂),
          rw h₃ (rw again (ground arith)),
          rw h₃ (rw again (ap suc a₄)),
        )
      ]

  -- A batch that is ingested adds rows to the table of events and changes nothing else: as many as
  -- are counted as inserted, and the inserted and the duplicates are all of the batch.
  pub ingest_external_events-adds :
      (db : Database) (es : List ExternalEvent) (r : EventIngestionResult) (db' : Database)
      → ingest_external_events sha256_hex db es ≡ ok (r, db')
      → (added : List ExternalEvent) × (db' ≡ record db { events = added ++ db.events })
        × (length added ≡ r.inserted_count)
        × (r.inserted_count + r.duplicate_count ≡ length es)
        × (length r.items ≡ length es)
  unfolding ingest_external_events ingest_external_events_in_transaction
  ingest_external_events-adds db es r db' h =
      let (parsed, h₁, h₂) = >>=-eq-ok (parse_external_event_batch es) _ h in
      let same = (parse_external_event_batch_same es parsed h₁).0 in
      ingest_from-adds db 0 es r db' (rw (sym same) h₂)
