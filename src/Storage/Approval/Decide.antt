-- ===== src/Storage/Approval/Decide.antt =====
-- packages/storage-sqlite/src/approval-state.ts: `decideActionApproval`. `now` is the observed clock.
use twindesk.Prelude.{
  ℕ, Bool, ◌&&◌, ◌||◌, Option, List, none, some, String, ltb, ◌==◌, ◌!=◌, string_eq, option_eq,
  if◌then◌else◌,
}
use twindesk.Time.{date_parse}
use twindesk.Result.{Result, ok, ◌>>=◌, ◌>>◌, throw_if, throw_unless, rethrow}
use twindesk.Result.{ApprovalCode as Code}
use twindesk.Domain.Model.{
  ProposalState, ActionProposal, ApprovalDecision, ApprovalRecord, proposal_state_eq,
  approval_decision_eq,
}
use twindesk.Domain.Validation.{parse_approval_record}
use twindesk.Storage.Table.{update_one}
use twindesk.Storage.Database.{Database}
use twindesk.Storage.Digest.{Document}
use twindesk.Storage.DraftAction.Rows.{or_throw}
use twindesk.Storage.Approval.Requests.{
  ActionApprovalDecision, fail, catch_approval, observed_timestamp, parse_decision, same_bindings,
  approval_bindings, require_proposal, require_approval, proposal_for_state, assert_bindings,
  applied, duplicate, ActionApprovalResult, set_proposal,
}

unfoldable pub same_decision : ApprovalRecord → ActionApprovalDecision → Bool
same_decision a d =
    a.decision == d.decision
    && a.decided_at == some d.decided_at
    && a.responder_user_id == d.responder_user_id
    && same_bindings (approval_bindings a) d.bindings

-- Outside its lifetime: decided in the future, expired before its end, or decided after it.
unfoldable pub outside_lifetime : ApprovalDecision → ℕ → ℕ → ℕ → Bool
outside_lifetime decision decided observed expires =
    ltb observed decided
    || decision == ApprovalDecision.expired && (ltb decided expires || ltb observed expires)
    || decision != ApprovalDecision.expired && (ltb expires decided || ltb expires observed)

abbrev pub state_of_decision : ApprovalDecision → ProposalState
state_of_decision ApprovalDecision.approved = ProposalState.approved
state_of_decision ApprovalDecision.rejected = ProposalState.rejected
state_of_decision _ = ProposalState.cancelled

abbrev pub with_responder : Option String → ApprovalRecord → ApprovalRecord
with_responder none a = a
with_responder (some user) a = record a { responder_user_id = some user }

-- `UPDATE approval_records SET … WHERE id = ? AND decision = 'pending'`
unfoldable pub write_decision : Database → ApprovalRecord → Result (List ApprovalRecord)
write_decision db decided =
    or_throw
      (update_one (λ row. row.id) decided.id (λ row. row.decision == ApprovalDecision.pending)
        (λ row. record row {
          decision = decided.decision;
          decided_at = decided.decided_at;
          responder_user_id = decided.responder_user_id;
        })
        db.approvals)
      (fail Code.approval_conflict)

-- `UPDATE action_proposals SET … WHERE id = ? AND state = 'awaiting_approval'`
unfoldable pub write_decided_proposal :
    Database → ActionApprovalDecision → String → Result (List ActionProposal)
write_decided_proposal db d id =
    or_throw
      (update_one (λ p. p.id) id (λ p. p.state == ProposalState.awaiting_approval)
        (set_proposal (state_of_decision d.decision) d.decided_at) db.proposals)
      (fail Code.proposal_state)

module _ (sha256_hex : Document → String) where
  unfoldable pub new_decision :
      Database
      → ActionApprovalDecision
      → ℕ
      → ApprovalRecord
      → ActionProposal
      → Result (ActionApprovalResult × Database)
  new_decision db d observed a proposal = do
    throw_if (proposal.state != ProposalState.awaiting_approval) (fail Code.proposal_state)
    throw_if (ltb (date_parse d.decided_at) (date_parse a.requested_at)) (fail Code.invalid_request)
    throw_if
        (outside_lifetime d.decision (date_parse d.decided_at) observed (date_parse a.expires_at))
        (fail Code.approval_expired)
    decided ← parse_approval_record (
        with_responder d.responder_user_id
          (record a { decision = d.decision; decided_at = some d.decided_at }))
    approvals ← write_decision db decided
    proposals ← write_decided_proposal db d proposal.id
    updated ← proposal_for_state proposal (state_of_decision d.decision) d.decided_at
    ok (
      record { disposition = applied; approval = decided; proposal = updated },
      record db { approvals = approvals; proposals = proposals },
    )

  unfoldable pub decide_transaction :
      Database → ActionApprovalDecision → ℕ → Result (ActionApprovalResult × Database)
  unfolding new_decision
  decide_transaction db d observed = do
    a ← require_approval db d.approval_id d.proposal_id
    proposal ← require_proposal db d.proposal_id
    assert_bindings sha256_hex proposal a (some d.bindings)
    if a.decision == ApprovalDecision.pending
        then new_decision db d observed a proposal
        else (throw_unless (same_decision a d) (fail Code.approval_conflict)
            >> ok (record { disposition = duplicate; approval = a; proposal = proposal }, db))

  unfoldable pub decide_action_approval :
      Database → ActionApprovalDecision → ℕ → Result (ActionApprovalResult × Database)
  unfolding decide_transaction
  decide_action_approval db input now = do
    d ← parse_decision input
    observed ← observed_timestamp now
    rethrow catch_approval (decide_transaction db d (date_parse observed))
