-- ===== src/Storage/Projection/Advance.antt =====
-- packages/storage-sqlite/src/work-item-projection.ts: what a new version of a thread or a base must
-- keep of the stored one, and the events that a thread names.
use twindesk.Prelude.{
  Bool, true, false, not, ◌&&◌, ◌||◌, Option, none, some, List, [], ◌∷◌, String, any, ltb, ◌==◌,
  ◌!=◌, string_eq, if◌then◌else◌,
}
use twindesk.Time.{IsoTimestamp, timestamp_at, date_parse}
use twindesk.Result.{Result, ok, err, ◌>>◌, throw_if, throw_unless}
use twindesk.Result.{WorkItemProjectionCode as Code}
use twindesk.Domain.Model.{ExternalReference}
use twindesk.Domain.Records.{ExternalThread, WorkItem, external_thread_eq, work_item_eq, units_eq}
use twindesk.Domain.Parsers.{reference_identity}
use twindesk.Domain.Validation.{optional}
use twindesk.Storage.Table.{find}
use twindesk.Storage.Database.{Database}
use twindesk.Storage.Digest.{Document, plain}
use twindesk.Storage.Projection.Rows.{fail, contains, includes_all}

-- `new Map(…).get(referenceIdentity(reference))`: of equal keys the last one stays.
unfoldable pub reference_of : ExternalReference → List ExternalReference → Option ExternalReference
unfolding reference_identity
reference_of r [] = none
reference_of r (s ∷ rs) = elim (reference_of r rs) [
  | some later ↦ some later
  | none ↦ if reference_identity s == reference_identity r then some s else none
]

-- A stored source timestamp that is missing from the candidate or later than there.
unfoldable pub timestamp_regresses : Option IsoTimestamp → Option IsoTimestamp → Bool
timestamp_regresses none candidate = false
timestamp_regresses (some stored) none = true
timestamp_regresses (some stored) (some candidate) = ltb (date_parse candidate) (date_parse stored)

unfoldable pub reference_lost : List ExternalReference → ExternalReference → Bool
unfolding reference_of timestamp_regresses
reference_lost candidates r = elim (reference_of r candidates) [
  | none ↦ true
  | some s ↦ timestamp_regresses r.source_timestamp s.source_timestamp
]

unfoldable pub validate_source_event : Database → ExternalThread → String → Result (Unit {0})
unfolding reference_lost
validate_source_event db thread id = elim (find (λ e. e.id) id db.events) [
  | none ↦ err (fail Code.missing_event)
  | some event ↦ do
    throw_unless (optional timestamp_at event.source.source_timestamp)
        (fail Code.stored_projection_invalid)
    throw_if (reference_lost thread.external_references event.source) (fail Code.source_mismatch)
]

unfoldable pub validate_source_events : Database → ExternalThread → List String → Result (Unit {0})
unfolding validate_source_event
validate_source_events db thread [] = ok tt
validate_source_events db thread (id ∷ ids) = do
  validate_source_event db thread id
  validate_source_events db thread ids

unfoldable pub assert_thread_can_advance : ExternalThread → ExternalThread → Result (Unit {0})
unfolding reference_lost
assert_thread_can_advance existing candidate = do
  throw_if (existing.created_at != candidate.created_at) (fail Code.identity_conflict)
  throw_if (ltb (date_parse candidate.updated_at) (date_parse existing.updated_at))
      (fail Code.stale_projection)
  throw_if
      (not (includes_all existing.source_event_ids candidate.source_event_ids)
        || any (reference_lost candidate.external_references) existing.external_references)
      (fail Code.stale_projection)
  throw_if (candidate.updated_at == existing.updated_at && existing != candidate)
      (fail Code.identity_conflict)

unfoldable pub assert_base_can_advance : WorkItem → WorkItem → Result (Unit {0})
assert_base_can_advance existing candidate = do
  throw_if
      (existing.thread_id != candidate.thread_id || existing.created_at != candidate.created_at)
      (fail Code.identity_conflict)
  throw_if (ltb (date_parse candidate.updated_at) (date_parse existing.updated_at))
      (fail Code.stale_projection)
  throw_unless (includes_all existing.source_event_ids candidate.source_event_ids)
      (fail Code.stale_projection)
  throw_if (candidate.updated_at == existing.updated_at && existing != candidate)
      (fail Code.identity_conflict)

module _ (sha256_hex : Document → String) where
  unfoldable pub assert_thread_not_deleted : Database → String → Result (Unit {0})
  assert_thread_not_deleted db thread_id =
      throw_if (contains db.deleted_threads (sha256_hex (plain thread_id)))
        (fail Code.deleted_thread)
