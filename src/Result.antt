-- ===== src/Result.antt =====
-- The errors of the source as values. Each package throws a class of its own with a code; a `catch`
-- that tests `instanceof` lets its own class through and replaces every other one.
use twindesk.Prelude.{ℕ, Option, ◌≡◌, refl, Bool, true, false}

-- domain/src/state-transitions.ts
pub data TransitionCode : Type 0 where
  identity_mismatch stale_state chronology : TransitionCode

-- storage-sqlite/src/draft-action-state.ts
pub data DraftActionCode : Type 0 where
  invalid_request missing_work_item missing_persona persona_mismatch missing_draft draft_conflict
        active_draft revision_conflict missing_proposal proposal_conflict target_mismatch
        digest_mismatch stale_state transition_conflict stored_record_invalid storage_error :
      DraftActionCode

-- storage-sqlite/src/approval-state.ts
pub data ApprovalCode : Type 0 where
  invalid_request missing_proposal missing_approval proposal_state approval_conflict
        binding_mismatch approval_expired already_consumed stored_record_invalid storage_error :
      ApprovalCode

-- storage-sqlite/src/action-execution-state.ts
pub data ExecutionCode : Type 0 where
  invalid_request missing_proposal missing_approval binding_mismatch approval_expired
        execution_state dispatch_conflict receipt_conflict stored_record_invalid storage_error :
      ExecutionCode

-- storage-sqlite/src/event-ingestion.ts
pub data EventIngestionCode : Type 0 where
  idempotency_conflict stored_event_invalid write_failed : EventIngestionCode

pub data EventConflictKey : Type 0 where
  id idempotency_key both : EventConflictKey

pub record EventIngestionError : Type 0 where
  pub code : EventIngestionCode
  pub input_index : Option ℕ
  pub conflict_key : Option EventConflictKey

-- storage-sqlite/src/sync-cursor.ts
pub data SyncCursorCode : Type 0 where
  invalid_request identity_mismatch cursor_conflict cursor_regression stored_cursor_invalid
        storage_error :
      SyncCursorCode

-- storage-sqlite/src/work-item-projection.ts
pub data WorkItemProjectionCode : Type 0 where
  invalid_request identity_conflict stale_projection missing_event source_mismatch
        missing_projection deleted_thread action_conflict action_sequence action_chronology
        stored_projection_invalid storage_error :
      WorkItemProjectionCode

-- storage-sqlite/src/audit-timeline.ts
pub data AuditTimelineCode : Type 0 where
  invalid_request record_conflict missing_reference reference_mismatch reference_chronology
        stored_record_invalid storage_error :
      AuditTimelineCode

-- plugin-work-hub/src/action-execution-host.ts
pub data WorkHubActionExecutionCode : Type 0 where
  invalid_request approval_unavailable execution_unavailable ownership_unavailable
        stored_state_invalid receipt_incomplete audit_incomplete :
      WorkHubActionExecutionCode

-- `constraint` is SQLite's refusal of a statement, `aborted` the reason of an aborted signal.
pub data Thrown : Type 0 where
  domain_validation constraint aborted : Thrown
  state_transition : TransitionCode → Thrown
  draft_action : DraftActionCode → Thrown
  approval : ApprovalCode → Thrown
  execution : ExecutionCode → Thrown
  event_ingestion : EventIngestionError → Thrown
  sync_cursor : SyncCursorCode → Thrown
  projection : WorkItemProjectionCode → Thrown
  audit_timeline : AuditTimelineCode → Thrown
  work_hub : WorkHubActionExecutionCode → Thrown

pub data Result {ℓ} (A : Type ℓ) : Type ℓ where
  ok : A → Result A
  err : Thrown → Result A

abbrev pub throw_if : Bool → Thrown → Result (Unit {0})
throw_if true e = err e
throw_if false e = ok tt

abbrev pub throw_unless : Bool → Thrown → Result (Unit {0})
throw_unless true e = ok tt
throw_unless false e = err e

-- The source's next statement, which a throw passes over.
infixl 5 ◌>>=◌ ◌>>◌
abbrev pub ◌>>=◌ {ℓ κ} : {V : Type ℓ} {W : Type κ} → Result V → (V → Result W) → Result W
err thrown >>= next = err thrown
ok value >>= next = next value

abbrev pub ◌>>◌ {κ} : {W : Type κ} → Result (Unit {0}) → Result W → Result W
check >> rest = check >>= λ done. rest

-- `try { m } catch (error) { throw f(error) }`
abbrev pub rethrow {ℓ} : {A : Type ℓ} → (Thrown → Thrown) → Result A → Result A
rethrow f (ok a) = ok a
rethrow f (err e) = err (f e)

module _ {ℓ κ} {V : Type ℓ} {W : Type κ} where
  pub >>=-eq-ok :
      (m : Result V) (next : V → Result W) {w : W}
      → (m >>= next) ≡ ok w
      → (v : V) × (m ≡ ok v) × (next v ≡ ok w)
  >>=-eq-ok (err thrown) next h = cc
  >>=-eq-ok (ok value) next h = (value, refl, h)

module _ {ℓ} {A : Type ℓ} where
  pub rethrow-eq-ok : (f : Thrown → Thrown) (m : Result A) {a : A} → rethrow f m ≡ ok a → m ≡ ok a
  rethrow-eq-ok f (ok a) h = h
  rethrow-eq-ok f (err e) h = cc
