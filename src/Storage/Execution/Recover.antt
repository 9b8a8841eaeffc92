-- ===== src/Storage/Execution/Recover.antt =====
-- packages/storage-sqlite/src/action-execution-state.ts: `recoverActionExecution`, which rebuilds the
-- approved action of an attempt that was left open.
use twindesk.Prelude.{
  Bool, true, false, not, ◌&&◌, ◌||◌, Option, none, some, String, ◌!=◌, string_eq, is_some,
}
use twindesk.Result.{Result, ok, ◌>>=◌, ◌>>◌, throw_if, throw_unless, rethrow}
use twindesk.Result.{ExecutionCode as Code}
use twindesk.Domain.Model.{
  ProposalState, ActionProposal, ApprovalDecision, ApprovalRecord, ApprovedAction,
  proposal_state_eq, approval_decision_eq,
}
use twindesk.Domain.Validation.{parse_approval_record}
use twindesk.Storage.Database.{Database, StoredReceipt}
use twindesk.Storage.Digest.{
  Document, compute_action_approval_bindings, compute_approval_execution_attempt_id,
}
use twindesk.Storage.DraftAction.Rows.{read_action_proposal, or_throw}
use twindesk.Storage.Approval.Requests.{
  bounded_string, read_action_approval, same_bindings, approval_bindings, proposal_for_state,
}
use twindesk.Storage.Execution.Requests.{
  fail, catch_execution, read_receipt_in_snapshot, recoverable,
}

pub record ActionExecutionRecoveryRequest : Type 0 where
  pub approval_id : String
  pub proposal_id : String
  pub execution_attempt_id : String

pub record ActionExecutionRecoveryResult : Type 0 where
  pub action : ApprovedAction
  pub stored_receipt : Option StoredReceipt

unfoldable pub open_state : ProposalState → Bool
open_state ProposalState.executing = true
open_state ProposalState.uncertain = true
open_state ProposalState.failed = true
open_state _ = false

unfoldable pub open_receipt : Option StoredReceipt → Bool
open_receipt none = true
open_receipt (some r) = recoverable r.receipt

module _ (sha256_hex : Document → String) where
  unfoldable pub recovery_action : ActionProposal → ApprovalRecord → Result ApprovedAction
  recovery_action proposal a = do
    throw_if (a.decision != ApprovalDecision.approved) (fail Code.execution_state)
    decided ← or_throw a.decided_at (fail Code.execution_state)
    snapshot ←
        parse_approval_record
          (record a { decision = ApprovalDecision.approved; consumed_at = none })
    approved ← proposal_for_state proposal ProposalState.approved decided
    ok (record {
      proposal = approved;
      approval = snapshot;
      execution_attempt_id = compute_approval_execution_attempt_id sha256_hex a.id;
    })

  unfoldable pub recovery_snapshot :
      Database → ActionExecutionRecoveryRequest → Result ActionExecutionRecoveryResult
  recovery_snapshot db r = do
    found ← read_action_proposal db r.proposal_id
    stored ← read_action_approval db r.approval_id
    proposal ← or_throw found (fail Code.missing_proposal)
    a ← or_throw stored (fail Code.missing_approval)
    throw_if (a.proposal_id != proposal.id) (fail Code.missing_approval)
    receipt ← read_receipt_in_snapshot db r.execution_attempt_id
    throw_if
        (a.decision != ApprovalDecision.approved
          || not (is_some a.consumed_at)
          || not (open_state proposal.state)
          || not (open_receipt receipt))
        (fail Code.execution_state)
    bindings ← compute_action_approval_bindings sha256_hex proposal
    throw_unless (same_bindings bindings (approval_bindings a)) (fail Code.binding_mismatch)
    action ← recovery_action proposal a
    ok (record { action = action; stored_receipt = receipt })

  unfoldable pub recover_action_execution :
      Database → ActionExecutionRecoveryRequest → Result ActionExecutionRecoveryResult
  recover_action_execution db r = do
    throw_unless
        (bounded_string 512 r.approval_id
          && bounded_string 512 r.proposal_id
          && bounded_string 512 r.execution_attempt_id)
        (fail Code.invalid_request)
    throw_if
        (r.execution_attempt_id != compute_approval_execution_attempt_id sha256_hex r.approval_id)
        (fail Code.binding_mismatch)
    rethrow catch_execution (recovery_snapshot db r)
