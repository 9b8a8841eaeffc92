-- ===== src/Storage/Approval/Request.antt =====
-- packages/storage-sqlite/src/approval-state.ts: `requestActionApproval`. `now` is the observed clock.
use twindesk.Prelude.{
  ℕ, Bool, ◌&&◌, ◌||◌, Option, none, some, List, [], ◌∷◌, String, ltb, leb, ◌==◌, ◌!=◌, string_eq,
  option_eq,
}
use twindesk.Time.{date_parse}
use twindesk.Result.{Result, ok, ◌>>=◌, ◌>>◌, throw_if, throw_unless, rethrow}
use twindesk.Result.{ApprovalCode as Code}
use twindesk.Domain.Model.{
  ProposalState, ApprovalDecision, ApprovalRecord, proposal_state_eq, approval_decision_eq,
}
use twindesk.Domain.Validation.{parse_approval_record}
use twindesk.Storage.Table.{select, update_one, insert}
use twindesk.Storage.Database.{Database}
use twindesk.Storage.Digest.{
  Document, ActionApprovalBindings, compute_action_approval_bindings, request_transition_id,
}
use twindesk.Storage.DraftAction.Rows.{or_throw}
use twindesk.Storage.Approval.Requests.{
  ActionApprovalRequest, fail, catch_approval, observed_timestamp, parse_request,
  parse_stored_approval, require_proposal, proposal_for_state, assert_bindings, inserted, duplicate,
  ActionApprovalResult, set_proposal,
}

-- `WHERE id = ? OR proposal_id = ?`
unfoldable pub approvals_for : Database → ActionApprovalRequest → List ApprovalRecord
approvals_for db r = select (λ a. a.id == r.id || a.proposal_id == r.proposal_id) db.approvals

unfoldable pub same_request : ApprovalRecord → ActionApprovalRequest → Bool
same_request a r =
    a.id == r.id
    && a.proposal_id == r.proposal_id
    && a.requested_at == r.requested_at
    && a.expires_at == r.expires_at

-- A second request for the same approval repeats the first, or conflicts with it.
unfoldable pub stored_request : List ApprovalRecord → Result (Option ApprovalRecord)
stored_request (row ∷ []) = parse_stored_approval row >>= λ a. ok (some a)
stored_request rows = ok none

unfoldable pub pending_approval : ActionApprovalRequest → ActionApprovalBindings → ApprovalRecord
pending_approval r b = record {
  id = r.id;
  proposal_id = r.proposal_id;
  decision = ApprovalDecision.pending;
  identity_digest = b.identity_digest;
  target_digest = b.target_digest;
  content_digest = b.content_digest;
  requested_at = r.requested_at;
  expires_at = r.expires_at;
  decided_at = none;
  responder_user_id = none;
  consumed_at = none;
}

module _ (sha256_hex : Document → String) where
  unfoldable pub repeated_request :
      Database
      → ActionApprovalRequest
      → List ApprovalRecord
      → Result (ActionApprovalResult × Database)
  unfolding stored_request
  repeated_request db r rows = do
    stored ← stored_request rows
    proposal ← require_proposal db r.proposal_id
    a ← or_throw stored (fail Code.approval_conflict)
    throw_unless (same_request a r) (fail Code.approval_conflict)
    assert_bindings sha256_hex proposal a none
    ok (record { disposition = duplicate; approval = a; proposal = proposal }, db)

  unfoldable pub new_request :
      Database → ActionApprovalRequest → ℕ → Result (ActionApprovalResult × Database)
  unfolding pending_approval
  new_request db r observed = do
    proposal ← require_proposal db r.proposal_id
    throw_if (proposal.state != ProposalState.proposed) (fail Code.proposal_state)
    throw_if (ltb (date_parse r.requested_at) (date_parse proposal.updated_at))
        (fail Code.invalid_request)
    throw_if (ltb observed (date_parse r.requested_at) || leb (date_parse r.expires_at) observed)
        (fail Code.approval_expired)
    bindings ← compute_action_approval_bindings sha256_hex proposal
    a ← parse_approval_record (pending_approval r bindings)
    approvals ← insert (λ row. row.id) a db.approvals
    transitions ←
        insert (λ row. row.id)
          (record {
            id = request_transition_id sha256_hex a.id;
            proposal_id = a.proposal_id;
            from_state = ProposalState.proposed;
            to_state = ProposalState.awaiting_approval;
            occurred_at = a.requested_at;
          })
          db.proposal_transitions
    proposals ←
        or_throw
          (update_one (λ p. p.id) a.proposal_id (λ p. p.state == ProposalState.proposed)
            (set_proposal ProposalState.awaiting_approval a.requested_at) db.proposals)
          (fail Code.proposal_state)
    -- What this demands of the row, its CHECK demands before COMMIT; so in `new_decision`.
    updated ← proposal_for_state proposal ProposalState.awaiting_approval a.requested_at
    ok (
      record { disposition = inserted; approval = a; proposal = updated },
      record db {
        approvals = approvals;
        proposal_transitions = transitions;
        proposals = proposals;
      },
    )

  unfoldable pub request_transaction :
      Database → ActionApprovalRequest → ℕ → Result (ActionApprovalResult × Database)
  unfolding repeated_request new_request
  request_transaction db r observed = elim (approvals_for db r) [
    | [] ↦ new_request db r observed
    | row ∷ rows ↦ repeated_request db r (row ∷ rows)
  ]

  unfoldable pub request_action_approval :
      Database → ActionApprovalRequest → ℕ → Result (ActionApprovalResult × Database)
  unfolding request_transaction
  request_action_approval db input now = do
    r ← parse_request input
    observed ← observed_timestamp now
    rethrow catch_approval (request_transaction db r (date_parse observed))
