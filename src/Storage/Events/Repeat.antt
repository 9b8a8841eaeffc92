-- ===== src/Storage/Events/Repeat.antt =====
-- packages/storage-sqlite/src/event-ingestion.ts: what the ingestion of an event leaves, and ingesting
-- again what is stored.
use twindesk.Prelude.{
  ℕ, ◌≡◌, refl, ◌∙◌, ◌⊎◌, inl, inr, true, false, List, [], ◌∷◌, String, arith, string_eq,
}
use twindesk.Result.{ok, >>=-eq-ok}
use twindesk.Domain.Records.{ExternalEvent}
use twindesk.Domain.Parsers.{external_event_at, parse_external_event}
use twindesk.Storage.Table.{select, select_found}
use twindesk.Storage.Database.{Database}
use twindesk.Storage.Digest.{Document}
use twindesk.Storage.Events.{
  EventDisposition, inserted, duplicate, stored_event, parse_stored_event, event_matches,
  insert_event, event_digest, any_matching_row, ingest_at, ingest_event,
}
use twindesk.Storage.Events.Stored.{external_event_at-stored_event, event_digest-stored_event}

abbrev pub with_event : Database → ExternalEvent → Database
with_event db e = record db { events = stored_event e ∷ db.events }

insert_event_effect :
    (db db' : Database) (e : ExternalEvent) → insert_event db e ≡ ok db' → db' ≡ with_event db e
unfolding insert_event
insert_event_effect db db' e h = ground arith

parse_stored_event_same :
    (row e : ExternalEvent)
    → parse_stored_event row ≡ ok e
    → (external_event_at row ≡ true) × (e ≡ row)
unfolding parse_stored_event parse_external_event
parse_stored_event_same row e h = ground arith

unmatched_by_new :
    (db : Database) (e e' row : ExternalEvent)
    → select (event_matches e) db.events ≡ row ∷ []
    → row.id ≡ e.id
    → row.idempotency_key ≡ e.idempotency_key
    → select (event_matches e') db.events ≡ []
    → event_matches e (stored_event e') ≡ false
unfolding event_matches stored_event
unmatched_by_new db e e' row only i k new =
    ground (arith, select_found (event_matches e) (event_matches e') row db.events [] only)

module _ (sha256_hex : Document → String) where
  -- The two outcomes of one turn of the loop.
  abbrev pub IngestsNew :
      Database → ExternalEvent → List ExternalEvent → EventDisposition → Database → Type 0
  IngestsNew db e rows d db' = (rows ≡ []) × (d ≡ inserted) × (db' ≡ with_event db e)

  abbrev pub IngestsAgain :
      Database → ExternalEvent → List ExternalEvent → EventDisposition → Database → Type 0
  IngestsAgain db e rows d db' =
      (row : ExternalEvent) × (rows ≡ row ∷ [])
      × (external_event_at row ≡ true)
      × (event_digest sha256_hex row ≡ event_digest sha256_hex e)
      × (d ≡ duplicate)
      × (db' ≡ db)

  pub ingest_at_effect :
      (db : Database) (index : ℕ) (e : ExternalEvent) (rows : List ExternalEvent)
      (d : EventDisposition) (db' : Database)
      → ingest_at sha256_hex db index e rows ≡ ok (d, db')
      → IngestsNew db e rows d db' ⊎ IngestsAgain db e rows d db'
  unfolding ingest_at any_matching_row parse_stored_event parse_external_event insert_event
  ingest_at_effect db index e [] d db' h = inl (ground arith)
  ingest_at_effect db index e (row ∷ []) d db' h =
      inr (row, refl, ground arith, ground arith, ground arith, ground arith)
  ingest_at_effect db index e (row ∷ other ∷ rows) d db' h =
      let r = >>=-eq-ok (any_matching_row sha256_hex e (row ∷ other ∷ rows)) _ h in ground arith

  pub ingest_at-again :
      (db : Database) (index : ℕ) (e row : ExternalEvent)
      → external_event_at row ≡ true
      → event_digest sha256_hex row ≡ event_digest sha256_hex e
      → ingest_at sha256_hex db index e (row ∷ []) ≡ ok (duplicate, db)
  unfolding ingest_at any_matching_row parse_stored_event parse_external_event
  ingest_at-again db index e row v s = ground arith

  -- The database holds an event: one row has its id or its key, and that row is the event's.
  pub record IsKnown (db : Database) (e : ExternalEvent) : Type 0 where
    pub row : ExternalEvent
    pub only : select (event_matches e) db.events ≡ row ∷ []
    pub valid : external_event_at row ≡ true
    pub digest : event_digest sha256_hex row ≡ event_digest sha256_hex e
    pub id : row.id ≡ e.id
    pub key : row.idempotency_key ≡ e.idempotency_key

  pub ingest_event-IsKnown-again :
      (db : Database) (index : ℕ) (e : ExternalEvent)
      → IsKnown db e
      → ingest_event sha256_hex db index e ≡ ok (duplicate, db)
  unfolding ingest_event
  ingest_event-IsKnown-again db index e k =
      rw k.only (ingest_at-again db index e k.row k.valid k.digest)

  -- Events with the same digest have the same id and key.
  abbrev pub Separates : Type 0
  Separates =
      (a b : ExternalEvent)
      → event_digest sha256_hex a ≡ event_digest sha256_hex b
      → (a.id ≡ b.id) × (a.idempotency_key ≡ b.idempotency_key)

  select_of_with_event :
      (db : Database) (e : ExternalEvent)
      → select (event_matches e) db.events ≡ []
      → select (event_matches e) (with_event db e).events ≡ stored_event e ∷ []
  unfolding select event_matches stored_event
  select_of_with_event db e h = ground arith

  pub ingest_event-learns :
      Separates
      → (db : Database) (index : ℕ) (e : ExternalEvent) (d : EventDisposition) (db' : Database)
      → external_event_at e ≡ true
      → ingest_event sha256_hex db index e ≡ ok (d, db')
      → IsKnown db' e
  unfolding ingest_event stored_event
  ingest_event-learns separates db index e d db' v h =
      elim (ingest_at_effect db index e (select (event_matches e) db.events) d db' h) [
        | inl new ↦ rw new.2 (record {
          row = stored_event e;
          only = select_of_with_event db e new.0;
          valid = external_event_at-stored_event e ∙ v;
          digest = event_digest-stored_event sha256_hex e;
          id = refl;
          key = refl;
        })
        | inr (row, only, valid, digest, again, same) ↦ rw same (record {
          row = row;
          only = only;
          valid = valid;
          digest = digest;
          id = (separates row e digest).0;
          key = (separates row e digest).1;
        })
      ]

  pub ingest_event-keeps :
      (db : Database) (index : ℕ) (e e' : ExternalEvent) (d : EventDisposition) (db' : Database)
      → IsKnown db e
      → ingest_event sha256_hex db index e' ≡ ok (d, db')
      → IsKnown db' e
  unfolding ingest_event select
  ingest_event-keeps db index e e' d db' k h =
      elim (ingest_at_effect db index e' (select (event_matches e') db.events) d db' h) [
        | inl new ↦ rw new.2 (record {
          row = k.row;
          only = rw (unmatched_by_new db e e' k.row k.only k.id k.key new.0) k.only;
          valid = k.valid;
          digest = k.digest;
          id = k.id;
          key = k.key;
        })
        | inr (row, only, valid, digest, again, same) ↦ rw same k
      ]
