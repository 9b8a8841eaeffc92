-- ===== src/Storage/Tests/Samples.antt =====
-- A small database and the calls of one action on it, from the draft to the receipt.
use twindesk.Prelude.{ℕ, Bool, true, false, none, some, [], ◌∷◌, String, ◌≡◌, refl}
use mathlib.Core.Bool.{false≢true}
use twindesk.Result.{Result, ok, err}
use twindesk.Domain.Model.{
  DraftState, DraftContent, Draft, DraftStateTransition, MediaType, ActionRisk, IdentityType,
  ProposalState, ActionProposal, ExternalReference, ApprovalDecision, ApprovalRecord,
  ApprovedAction, ActionReceipt, Outcome,
}
use twindesk.Domain.Records.{ExternalThread, InboxState, WorkItem}
use twindesk.Storage.Database.{Database}
use twindesk.Storage.Digest.{Document, ActionApprovalBindings}
use twindesk.Storage.Approval.Requests.{
  ActionApprovalRequest, ActionApprovalDecision, ActionApprovalConsumption, Disposition,
  ActionApprovalConsumptionResult,
}
use twindesk.Storage.Execution.Recover.{
  ActionExecutionRecoveryRequest, ActionExecutionRecoveryResult,
}
use twindesk.Storage.Execution.Begin.{ActionExecutionStart}
use twindesk.Storage.Execution.Dispatch.{ActionDispatchReservation}
use twindesk.Storage.Execution.Receipt.{ActionExecutionReceiptWrite}

abbrev pub is_ok {ℓ} : {A : Type ℓ} → Result A → Bool
is_ok (ok a) = true
is_ok (err e) = false

abbrev pub value {ℓ} : {A : Type ℓ} (m : Result A) → is_ok m ≡ true → A
value (ok a) h = a
value (err e) h = absurd (false≢true h)

pub value-eq {ℓ} : {A : Type ℓ} (m : Result A) (h : is_ok m ≡ true) → m ≡ ok (value m h)
value-eq (ok a) h = refl
value-eq (err e) h = cc

abbrev digest64 : String
digest64 = "0123456789abcdef0123456789abcdef0123456789abcdef0123456789abcdef"

-- A hash for the tests.
abbrev pub sample_hash : Document → String
sample_hash document = digest64

abbrev sample_digest : String
sample_digest = "sha256:0123456789abcdef0123456789abcdef0123456789abcdef0123456789abcdef"

abbrev pub sample_content : DraftContent
sample_content = record { media_type = MediaType.text_plain; text = "See you at ten." }

abbrev pub sample_draft : Draft
sample_draft = record {
  id = "draft-1";
  work_item_id = "item-1";
  persona_id = "persona-1";
  session_id = none;
  run_id = none;
  revision = 1;
  state = DraftState.editing;
  content = sample_content;
  rationale = none;
  created_at = "2026-03-01T10:00:00Z";
  updated_at = "2026-03-01T10:00:00Z";
}

abbrev pub sample_review : DraftStateTransition
sample_review = record {
  id = "transition-1";
  draft_id = "draft-1";
  from_state = DraftState.editing;
  to_state = DraftState.ready_for_review;
  occurred_at = "2026-03-01T10:01:00Z";
}

abbrev pub sample_target : ExternalReference
sample_target = record {
  connector_id = "feishu";
  account_id = "account-1";
  object_type = "message";
  external_id = "m-1";
  source_timestamp = none;
}

abbrev pub sample_proposal : ActionProposal
sample_proposal = record {
  id = "proposal-1";
  work_item_id = "item-1";
  draft_id = some "draft-1";
  action_type = "reply";
  risk = ActionRisk.write;
  identity = record {
    connector_id = "feishu";
    account_id = "account-1";
    identity_type = IdentityType.user;
    display_name = "Ada";
  };
  target = sample_target;
  content = sample_content;
  content_digest = sample_digest;
  idempotency_key = "key-1";
  state = ProposalState.proposed;
  created_at = "2026-03-01T10:02:00Z";
  updated_at = "2026-03-01T10:02:00Z";
}

abbrev pub sample_thread : ExternalThread
sample_thread = record {
  id = "thread-1";
  subject = "Lunch";
  external_references = sample_target ∷ [];
  source_event_ids = "event-1" ∷ [];
  created_at = "2026-03-01T09:00:00Z";
  updated_at = "2026-03-01T09:00:00Z";
}

abbrev pub sample_item : WorkItem
sample_item = record {
  id = "item-1";
  thread_id = "thread-1";
  source_event_ids = "event-1" ∷ [];
  inbox_state = InboxState.needs_reply;
  title = "Lunch";
  summary = "A question about lunch.";
  attention_reason = "A question was asked.";
  selected_persona_id = some "persona-1";
  created_at = "2026-03-01T09:00:00Z";
  updated_at = "2026-03-01T09:00:00Z";
}

abbrev pub sample_db : Database
sample_db = record {
  events = [];
  threads = sample_thread ∷ [];
  deleted_threads = [];
  bases = [];
  user_actions = [];
  work_items = sample_item ∷ [];
  cursors = [];
  audit_records = [];
  drafts = [];
  draft_creations = [];
  draft_transitions = [];
  proposals = [];
  proposal_creations = [];
  proposal_transitions = [];
  approvals = [];
  receipts = [];
  dispatches = [];
}

abbrev pub sample_bindings : ActionApprovalBindings
sample_bindings = record {
  identity_digest = sample_digest;
  target_digest = sample_digest;
  content_digest = sample_digest;
}

abbrev pub sample_request : ActionApprovalRequest
sample_request = record {
  id = "approval-1";
  proposal_id = "proposal-1";
  requested_at = "2026-03-01T10:03:00Z";
  expires_at = "2026-03-01T11:03:00Z";
}

abbrev pub sample_decision : ActionApprovalDecision
sample_decision = record {
  approval_id = "approval-1";
  proposal_id = "proposal-1";
  decision = ApprovalDecision.approved;
  bindings = sample_bindings;
  decided_at = "2026-03-01T10:04:00Z";
  responder_user_id = some "user-1";
}

abbrev pub sample_consumption : ActionApprovalConsumption
sample_consumption = record {
  approval_id = "approval-1";
  proposal_id = "proposal-1";
  bindings = sample_bindings;
  consumed_at = "2026-03-01T10:05:00Z";
}

-- 2026-03-01T10:30:00Z
abbrev pub sample_now : ℕ
sample_now = 63939580200000

abbrev pub sample_action : ApprovedAction
sample_action = record {
  proposal = record sample_proposal {
    state = ProposalState.approved;
    updated_at = "2026-03-01T10:04:00Z";
  };
  approval = record {
    id = "approval-1";
    proposal_id = "proposal-1";
    decision = ApprovalDecision.approved;
    identity_digest = sample_digest;
    target_digest = sample_digest;
    content_digest = sample_digest;
    requested_at = "2026-03-01T10:03:00Z";
    expires_at = "2026-03-01T11:03:00Z";
    decided_at = some "2026-03-01T10:04:00Z";
    responder_user_id = some "user-1";
    consumed_at = none;
  };
  execution_attempt_id = "execution-approval-0123456789abcdef0123456789abcdef";
}

abbrev pub sample_start : ActionExecutionStart
sample_start = record { action = sample_action; started_at = "2026-03-01T10:06:00Z" }

abbrev pub sample_reservation : ActionDispatchReservation
sample_reservation = record { action = sample_action; reserved_at = "2026-03-01T10:07:00Z" }

abbrev pub sample_receipt : Outcome → ActionReceipt
sample_receipt outcome = record {
  proposal_id = "proposal-1";
  connector_id = "feishu";
  account_id = "account-1";
  idempotency_key = "key-1";
  attempted_at = "2026-03-01T10:08:00Z";
  outcome = outcome;
}

abbrev pub sample_success : ActionExecutionReceiptWrite
sample_success = record {
  action = sample_action;
  receipt = sample_receipt (Outcome.succeeded sample_target);
}

-- Where the calls up to the consumption leave the database, written out.
abbrev pub with_proposal : ProposalState → String → Database
with_proposal s at = record sample_db {
  drafts =
      record sample_draft {
        state = DraftState.ready_for_review;
        updated_at = "2026-03-01T10:01:00Z";
      }
      ∷ [];
  proposals = record sample_proposal { state = s; updated_at = at } ∷ [];
}

-- The draft is reviewed, and there is no proposal.
abbrev pub reviewed_db : Database
reviewed_db = record (with_proposal ProposalState.proposed "2026-03-01T10:02:00Z") {
  proposals = [];
}

abbrev pub with_approval : ProposalState → String → ApprovalRecord → Database
with_approval s at a = record (with_proposal s at) { approvals = a ∷ [] }

abbrev pub sample_pending : ApprovalRecord
sample_pending = record {
  id = "approval-1";
  proposal_id = "proposal-1";
  decision = ApprovalDecision.pending;
  identity_digest = sample_digest;
  target_digest = sample_digest;
  content_digest = sample_digest;
  requested_at = "2026-03-01T10:03:00Z";
  expires_at = "2026-03-01T11:03:00Z";
  decided_at = none;
  responder_user_id = none;
  consumed_at = none;
}

abbrev pub sample_consumed : ApprovalRecord
sample_consumed = record sample_action.approval { consumed_at = some "2026-03-01T10:05:00Z" }

abbrev pub pending_db : Database
pending_db = with_approval ProposalState.awaiting_approval "2026-03-01T10:03:00Z" sample_pending

abbrev pub approved_db : Database
approved_db = with_approval ProposalState.approved "2026-03-01T10:04:00Z" sample_action.approval

abbrev pub consumed_db : Database
consumed_db = with_approval ProposalState.approved "2026-03-01T10:04:00Z" sample_consumed

abbrev pub executing_db : Database
executing_db = with_approval ProposalState.executing "2026-03-01T10:06:00Z" sample_consumed

-- What the consumption returns, and what its repetition does.
abbrev pub consumption_result : Disposition → ActionApprovalConsumptionResult
consumption_result disposition = record {
  disposition = disposition;
  approval = sample_consumed;
  action = sample_action;
}

abbrev pub sample_recovery : ActionExecutionRecoveryRequest
sample_recovery = record {
  approval_id = "approval-1";
  proposal_id = "proposal-1";
  execution_attempt_id = "execution-approval-0123456789abcdef0123456789abcdef";
}

abbrev pub recovered : ActionExecutionRecoveryResult
recovered = record { action = sample_action; stored_receipt = none }
