-- ===== src/Storage/Approval/Consume.antt =====
-- packages/storage-sqlite/src/approval-state.ts: `consumeActionApproval`. `now` is the observed clock.
use twindesk.Prelude.{
  ℕ, not, ◌&&◌, ◌||◌, List, none, some, String, ltb, ◌==◌, ◌!=◌, string_eq, option_eq,
  if◌then◌else◌, is_some,
}
use twindesk.Time.{IsoTimestamp, date_parse}
use twindesk.Result.{Result, ok, err, Thrown, ◌>>=◌, ◌>>◌, throw_if, rethrow}
use twindesk.Result.{ApprovalCode as Code}
use twindesk.Domain.Model.{
  ProposalState, ActionProposal, ApprovalDecision, ApprovalRecord, ApprovedAction,
  proposal_state_eq, approval_decision_eq,
}
use twindesk.Domain.Validation.{parse_approval_record}
use twindesk.Storage.Table.{update_one}
use twindesk.Storage.Database.{Database}
use twindesk.Storage.Digest.{Document, compute_approval_execution_attempt_id}
use twindesk.Storage.DraftAction.Rows.{or_throw}
use twindesk.Storage.Approval.Requests.{
  ActionApprovalConsumption, fail, catch_approval, observed_timestamp, parse_consumption,
  require_proposal, require_approval, proposal_for_state, assert_bindings, consumed, duplicate,
  ActionApprovalConsumptionResult,
}

-- `UPDATE … SET consumed_at = ? WHERE id = ? AND decision = 'approved' AND consumed_at IS NULL`
unfoldable pub write_consumption : Database → String → IsoTimestamp → Result (List ApprovalRecord)
write_consumption db id at =
    or_throw
      (update_one (λ row. row.id) id
        (λ row. row.decision == ApprovalDecision.approved && not (is_some row.consumed_at))
        (λ row. record row { consumed_at = some at }) db.approvals)
      (fail Code.already_consumed)

module _ (sha256_hex : Document → String) where
  -- The source builds the snapshot after COMMIT. Were it refused, the write would stay there and be
  -- undone here; the times that it demands hold of every consumed approval.
  unfoldable pub unconsumed_approval : ApprovalRecord → Result ApprovalRecord
  unconsumed_approval a =
      parse_approval_record (record a { decision = ApprovalDecision.approved; consumed_at = none })

  unfoldable pub approved_proposal_snapshot :
      ActionProposal → ApprovalRecord → Result ActionProposal
  approved_proposal_snapshot proposal a = elim a.decided_at [
    | none ↦ err Thrown.domain_validation
    | some decided ↦ proposal_for_state proposal ProposalState.approved decided
  ]

  unfoldable pub approved_action : ActionProposal → ApprovalRecord → Result ApprovedAction
  unfolding unconsumed_approval approved_proposal_snapshot
  approved_action proposal a = do
    snapshot ← approved_proposal_snapshot proposal a
    unconsumed ← unconsumed_approval a
    ok (record {
      proposal = snapshot;
      approval = unconsumed;
      execution_attempt_id = compute_approval_execution_attempt_id sha256_hex a.id;
    })

  unfoldable pub new_consumption :
      Database
      → ActionApprovalConsumption
      → ApprovalRecord
      → ActionProposal
      → Result (ActionApprovalConsumptionResult × Database)
  unfolding approved_action
  new_consumption db c a proposal = do
    throw_if (proposal.state != ProposalState.approved) (fail Code.proposal_state)
    approvals ← write_consumption db a.id c.consumed_at
    updated ← parse_approval_record (record a { consumed_at = some c.consumed_at })
    action ← approved_action proposal updated
    ok (
      record { disposition = consumed; approval = updated; action = action },
      record db { approvals = approvals },
    )

  unfoldable pub consume_transaction :
      Database → ActionApprovalConsumption → ℕ → Result (ActionApprovalConsumptionResult × Database)
  unfolding new_consumption approved_action
  consume_transaction db c observed = do
    a ← require_approval db c.approval_id c.proposal_id
    proposal ← require_proposal db c.proposal_id
    assert_bindings sha256_hex proposal a (some c.bindings)
    throw_if (a.decision != ApprovalDecision.approved) (fail Code.proposal_state)
    decided ← or_throw a.decided_at (fail Code.proposal_state)
    let at = date_parse c.consumed_at
    let expires = date_parse a.expires_at
    throw_if
        (ltb at (date_parse decided) || ltb expires at || ltb observed at || ltb expires observed)
        (fail Code.approval_expired)
    if is_some a.consumed_at
        then (approved_action proposal a >>= λ action.
            ok (record { disposition = duplicate; approval = a; action = action }, db))
        else new_consumption db c a proposal

  unfoldable pub consume_action_approval :
      Database → ActionApprovalConsumption → ℕ → Result (ActionApprovalConsumptionResult × Database)
  unfolding consume_transaction
  consume_action_approval db input now = do
    c ← parse_consumption input
    observed ← observed_timestamp now
    rethrow catch_approval (consume_transaction db c (date_parse observed))
