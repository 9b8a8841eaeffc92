-- ===== src/Storage/Approval/Decided.antt =====
-- packages/storage-sqlite/src/approval-state.ts: what `decideActionApproval` leaves in the tables of
-- approvals and proposals.
use twindesk.Prelude.{ℕ, ◌≡◌, ◌≢◌, ◌≤◌, ◌⊎◌, some, string_eq, option_eq}
use twindesk.Time.{date_parse}
use twindesk.Domain.Model.{
  ActionProposal, ApprovalRecord, ApprovalDecision, ProposalState, approval_decision_eq,
  proposal_state_eq,
}
use twindesk.Storage.Database.{Database}
use twindesk.Storage.DraftAction.Rows.{proposal_row}
use twindesk.Storage.Approval.Requests.{
  ActionApprovalDecision, ActionApprovalResult, approval_row, applied, duplicate,
}
use twindesk.Storage.Approval.Decide.{with_responder}

-- The approval that a decision makes, and the row that the UPDATE makes.
abbrev decided : ApprovalRecord → ActionApprovalDecision → ApprovalRecord
decided a d =
    with_responder d.responder_user_id
      (record a { decision = d.decision; decided_at = some d.decided_at })

abbrev write_decided : ApprovalRecord → ApprovalRecord → ApprovalRecord
write_decided after row = record row {
  decision = after.decision;
  decided_at = after.decided_at;
  responder_user_id = after.responder_user_id;
}

-- The decision was made already, and both rows are returned as they are.
pub record IsRepeated (db db' : Database) (d : ActionApprovalDecision) (x : ActionApprovalResult)
    : Type 0 where
  pub disposition : x.disposition ≡ duplicate
  pub unchanged : db' ≡ db
  pub approval : approval_row db d.approval_id ≡ some x.approval
  pub proposal : proposal_row db d.proposal_id ≡ some x.proposal
  pub decision : x.approval.decision ≡ d.decision
  pub decided_at : x.approval.decided_at ≡ some d.decided_at
  pub responder : x.approval.responder_user_id ≡ d.responder_user_id

-- An approval approves the proposal, a rejection rejects it, and every other decision cancels it.
abbrev pub IsState : ApprovalDecision → ProposalState → Type 0
IsState decision state =
    ((decision ≡ ApprovalDecision.approved) × (state ≡ ProposalState.approved))
    ⊎ (((decision ≡ ApprovalDecision.rejected) × (state ≡ ProposalState.rejected))
        ⊎ ((decision ≢ ApprovalDecision.approved)
            × (decision ≢ ApprovalDecision.rejected)
            × (state ≡ ProposalState.cancelled)))

-- An expiry is not before the end of the approval, every other decision is made and observed not
-- after it.
abbrev pub IsTimely : ApprovalDecision → ℕ → ℕ → ℕ → Type 0
IsTimely decision at observed end =
    ((decision ≡ ApprovalDecision.expired) × (end ≤ at))
    ⊎ ((decision ≢ ApprovalDecision.expired) × (observed ≤ end))

-- The decision is made: the pending approval and the proposal that waits for it are in the tables
-- before, and the decided approval and the proposal in its new state after.
pub record IsDecided (db db' : Database) (d : ActionApprovalDecision) (observed : ℕ)
    (x : ActionApprovalResult) : Type 0 where
  pub pending : ApprovalRecord
  pub waiting : ActionProposal
  pub approval_before : approval_row db d.approval_id ≡ some pending
  pub proposal_before : proposal_row db d.proposal_id ≡ some waiting
  pub is_pending : pending.decision ≡ ApprovalDecision.pending
  pub is_waiting : waiting.state ≡ ProposalState.awaiting_approval
  pub disposition : x.disposition ≡ applied
  pub approval_after : approval_row db' d.approval_id ≡ some x.approval
  pub proposal_after : proposal_row db' d.proposal_id ≡ some x.proposal
  pub decision : x.approval.decision ≡ d.decision
  pub decided_at : x.approval.decided_at ≡ some d.decided_at
  pub same_proposal :
      x.proposal ≡ record waiting { state = x.proposal.state; updated_at = d.decided_at }
  pub state : IsState d.decision x.proposal.state
  pub in_past : date_parse d.decided_at ≤ observed
  pub timely :
      IsTimely d.decision (date_parse d.decided_at) observed (date_parse x.approval.expires_at)
