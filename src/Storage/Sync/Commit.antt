-- ===== src/Storage/Sync/Commit.antt =====
-- packages/storage-sqlite/src/sync-cursor.ts: the first two of a batch's three writes, its events and
-- its projections.
use twindesk.Prelude.{
  ℕ, suc, ◌≡◌, refl, ap, ◌∙◌, inl, inr, Bool, true, List, [], ◌∷◌, String, arith, all, any, ◌==◌,
  string_eq,
}
use twindesk.Result.{ok, >>=-eq-ok}
use twindesk.Domain.Records.{ExternalEvent}
use twindesk.Storage.Table.{select}
use twindesk.Storage.Database.{Database}
use twindesk.Storage.Digest.{Document}
use twindesk.Storage.Events.{
  EventDisposition, EventIngestionResult, event_matches, event_digest, ingest_event, ingest_from,
}
use twindesk.Storage.Events.Stored.{event_digest-stored_event}
use twindesk.Storage.Events.Repeat.{ingest_at_effect}
use twindesk.Storage.Events.Again.{ingest_from-Turn}
use twindesk.Storage.Projection.Rows.{
  WorkItemProjectionInput, WorkItemProjectionWriteResult, current_row,
}
use twindesk.Storage.Projection.Put.{put_projections, put_work_item_projection_in_transaction}
use twindesk.Storage.Projection.View.{view}
use twindesk.Storage.Projection.Effects.{put_work_item_projection_in_transaction_effect}
use twindesk.Storage.Projection.Refinement.{Agrees-after_step, IsStep-of_put}

any_selected :
    (p q : ExternalEvent → Bool) (r : ExternalEvent) (rows rest : List ExternalEvent)
    → select p rows ≡ r ∷ rest
    → q r ≡ true
    → any q rows ≡ true
unfolding select
any_selected p q r [] rest h t = cc
any_selected p q r (x ∷ rows) rest h t = ground (arith, any_selected p q r rows rest)

module _ (sha256_hex : Document → String) where
  -- A row of the table has the event's digest.
  unfoldable pub is_durable : Database → ExternalEvent → Bool
  is_durable db e = any (λ row. event_digest sha256_hex row == event_digest sha256_hex e) db.events

  ingest_event-durable :
      (db : Database) (index : ℕ) (e : ExternalEvent) (d : EventDisposition) (db' : Database)
      → ingest_event sha256_hex db index e ≡ ok (d, db')
      → is_durable db' e ≡ true
  unfolding ingest_event is_durable
  ingest_event-durable db index e d db' h =
      elim (ingest_at_effect sha256_hex db index e (select (event_matches e) db.events) d db' h) [
        | inl (nothing, first, at) ↦ rw at (ground (arith, event_digest-stored_event sha256_hex e))
        | inr (row, only, valid, digest, again, same) ↦ rw same (
            any_selected (event_matches e)
              (λ row'. event_digest sha256_hex row' == event_digest sha256_hex e) row db.events []
              only (ground arith))
      ]

  ingest_event-stays :
      (db : Database) (index : ℕ) (e e' : ExternalEvent) (d : EventDisposition) (db' : Database)
      → ingest_event sha256_hex db index e' ≡ ok (d, db')
      → is_durable db e ≡ true
      → is_durable db' e ≡ true
  unfolding ingest_event is_durable
  ingest_event-stays db index e e' d db' h k =
      elim (ingest_at_effect sha256_hex db index e' (select (event_matches e') db.events) d db' h) [
        | inl (nothing, first, at) ↦ rw at (ground (arith, k))
        | inr (row, only, valid, digest, again, same) ↦ rw same k
      ]

  ingest_from-stays :
      (db : Database) (index : ℕ) (e : ExternalEvent) (es : List ExternalEvent)
      (r : EventIngestionResult) (db' : Database)
      → ingest_from sha256_hex db index es ≡ ok (r, db')
      → is_durable db e ≡ true
      → is_durable db' e ≡ true
  unfolding ingest_from
  ingest_from-stays db index e [] r db' h k = let same : db' ≡ db = ground arith in rw same k
  ingest_from-stays db index e (e' ∷ es) r db' h k =
      let (d, mid, rest, h₁, h₂, h₃) = ingest_from-Turn sha256_hex db index e' es r db' h in
      ingest_from-stays mid (suc index) e es rest db' h₂
        (ingest_event-stays db index e e' d mid h₁ k)

  pub ingest_from-durable :
      (db : Database) (index : ℕ) (es : List ExternalEvent) (r : EventIngestionResult)
      (db' : Database)
      → ingest_from sha256_hex db index es ≡ ok (r, db')
      → all (is_durable db') es ≡ true
  ingest_from-durable db index [] r db' h = refl
  ingest_from-durable db index (e ∷ es) r db' h =
      let (d, mid, rest, h₁, h₂, h₃) = ingest_from-Turn sha256_hex db index e es r db' h in
      rw
        (ingest_from-stays mid (suc index) e es rest db' h₂
          (ingest_event-durable db index e d mid h₁))
        (ingest_from-durable mid (suc index) es rest db' h₂)

  -- A batch of puts leaves events and cursors, and keeps every work item in agreement.
  pub put_projections_effect :
      (db : Database) (ps : List WorkItemProjectionInput) (rs : List WorkItemProjectionWriteResult)
      (db' : Database)
      → put_projections sha256_hex db ps ≡ ok (rs, db')
      → (db'.events ≡ db.events)
        × (db'.cursors ≡ db.cursors)
        × ((j : String) → current_row db j ≡ view db j → current_row db' j ≡ view db' j)
  unfolding put_projections
  put_projections_effect db [] rs db' h =
      let same : db' ≡ db = ground arith in rw same (refl, refl, λ j a. a)
  put_projections_effect db (p ∷ ps) rs db' h =
      let (first, h₁, h₂) =
        >>=-eq-ok (put_work_item_projection_in_transaction sha256_hex db p) _ h in
      let (rest, h₃, h₄) = >>=-eq-ok (put_projections sha256_hex first.1 ps) _ h₂ in
      let is_last : db' ≡ rest.1 = ground arith in
      let put = put_work_item_projection_in_transaction_effect sha256_hex db p first.0 first.1 h₁ in
      let (events, cursors, agrees) = put_projections_effect first.1 ps rest.0 rest.1 h₃ in
      rw is_last (
        events ∙ ap (λ d. d.events) put.frame,
        cursors ∙ ap (λ d. d.cursors) put.frame,
        λ j a. agrees j (
            Agrees-after_step db p.work_item.id first.1 j
              (IsStep-of_put db p.work_item.id first.1 put) a),
      )
