-- ===== src/Storage/Database.antt =====
-- packages/storage-sqlite/src/schema.ts: the tables that events, work items, cursors, drafts,
-- proposals, approvals and executions are kept in, and the effect of COMMIT and ROLLBACK.
use twindesk.Prelude.{ℕ, ◌≡◌, refl, Option, List, String}
use twindesk.Time.{IsoTimestamp}
use twindesk.Result.{Result, ok, err}
use twindesk.Domain.Audit.{AuditRecord}
use twindesk.Domain.Records.{
  ExternalEvent, ExternalThread, WorkItem, WorkItemUserAction, ConnectorCursor,
}
use twindesk.Domain.Model.{
  DraftState, Draft, DraftStateTransition, ProposalState, ActionProposal,
  ActionProposalStateTransition, ApprovalRecord, FailedRetry, ActionReceipt,
}

-- The state in which a record was first stored.
pub record CreationRow (S : Type 0) : Type 0 where
  pub record_id : String
  pub initial_state : S
  pub initial_updated_at : IsoTimestamp

pub record StoredReceipt : Type 0 where
  pub execution_attempt_id : String
  pub receipt : ActionReceipt

-- `settled_outcome` with the retry disposition that goes with it.
pub data SettledOutcome : Type 0 where
  succeeded uncertain : SettledOutcome
  failed : FailedRetry → SettledOutcome

pub record Settlement : Type 0 where
  pub outcome : SettledOutcome
  pub settled_at : IsoTimestamp

pub record StoredDispatch : Type 0 where
  pub execution_attempt_id : String
  pub ordinal : ℕ
  pub proposal_id : String
  pub connector_id : String
  pub account_id : String
  pub idempotency_key : String
  pub reserved_at : IsoTimestamp
  pub settlement : Option Settlement

-- A thread or a work item holds the rows of its link tables, in the order of their ordinals, and
-- `deleted_threads` the thread digests of the deletion receipts.
pub record Database : Type 0 where
  pub events : List ExternalEvent
  pub threads : List ExternalThread
  pub deleted_threads : List String
  pub bases : List WorkItem
  pub user_actions : List WorkItemUserAction
  pub work_items : List WorkItem
  pub cursors : List ConnectorCursor
  pub audit_records : List AuditRecord
  pub drafts : List Draft
  pub draft_creations : List (CreationRow DraftState)
  pub draft_transitions : List DraftStateTransition
  pub proposals : List ActionProposal
  pub proposal_creations : List (CreationRow ProposalState)
  pub proposal_transitions : List ActionProposalStateTransition
  pub approvals : List ApprovalRecord
  pub receipts : List StoredReceipt
  pub dispatches : List StoredDispatch

-- What a transaction leaves: its writes if it commits, and nothing of them if it throws.
abbrev pub committed {ℓ} : {A : Type ℓ} → Database → Result (A × Database) → Database
committed db (ok (a, db')) = db'
committed db (err e) = db

pub committed-keeps {ℓ κ} :
    {A : Type ℓ} (P : Database → Type κ) (db : Database) (m : Result (A × Database))
    → P db
    → ((a : A) (db' : Database) → m ≡ ok (a, db') → P db')
    → P (committed db m)
committed-keeps P db (ok (a, db')) h keeps = keeps a db' refl
committed-keeps P db (err e) h keeps = h
