-- ===== src/Storage/Execution/Requests.antt =====
-- packages/storage-sqlite/src/action-execution-state.ts: the requests as they are parsed, the durable
-- action that they must match, and reading stored receipts and dispatches.
use twindesk.Prelude.{
  ℕ, Bool, true, false, not, ◌&&◌, ◌||◌, Option, none, some, List, [], ◌∷◌, String, ltb, leb, ◌==◌,
  ◌!=◌, string_eq, nat_eq, option_eq, if◌then◌else◌, is_some,
}
use twindesk.Time.{IsoTimestamp, timestamp_at, date_parse, clock_timestamp}
use twindesk.Result.{
  Result, ok, err, Thrown, execution, ◌>>=◌, ◌>>◌, throw_if, throw_unless, rethrow,
}
use twindesk.Result.{ExecutionCode as Code}
use twindesk.Domain.Model.{
  ProposalState, ExternalReference, ActionProposal, ApprovalDecision, ApprovalRecord, FailedRetry,
  ConnectorIssue, Outcome, ActionReceipt, ApprovedAction, proposal_state_eq, approval_decision_eq,
}
use twindesk.Domain.Validation.{parse_action_proposal, parse_approval_record}
use twindesk.Storage.Table.{find}
use twindesk.Storage.Database.{Database, StoredReceipt, StoredDispatch, Settlement}
use twindesk.Storage.Digest.{
  Document, compute_action_approval_bindings, compute_approval_execution_attempt_id,
}
use twindesk.Storage.DraftAction.Rows.{read_action_proposal, or_throw, same_proposal}
use twindesk.Storage.Approval.Requests.{
  bounded_string, read_action_approval, same_bindings, approval_bindings,
}

abbrev pub fail : Code → Thrown
fail = execution

-- The last `catch` of each operation.
abbrev pub catch_execution : Thrown → Thrown
catch_execution (execution code) = execution code
catch_execution _ = execution Code.storage_error

-- 1970-01-01, in milliseconds since the year 0.
abbrev pub epoch : ℕ
epoch = 62167219200000

unfoldable pub observed_timestamp : ℕ → Result IsoTimestamp
observed_timestamp now = do
  throw_if (ltb now epoch) (fail Code.invalid_request)
  or_throw (clock_timestamp now) (fail Code.invalid_request)

-- `sameBindings`: the two approvals agree in all but the decision and the consumption.
unfoldable pub same_approval : ApprovalRecord → ApprovalRecord → Bool
same_approval left right =
    left.id == right.id
    && left.proposal_id == right.proposal_id
    && same_bindings (approval_bindings left) (approval_bindings right)
    && left.requested_at == right.requested_at
    && left.expires_at == right.expires_at
    && left.decided_at == right.decided_at
    && left.responder_user_id == right.responder_user_id

-- `proposalFingerprint` leaves out the state and the time of the last change. The source compares
-- JSON texts of it, which also fix the order of the keys.
abbrev fingerprint : ActionProposal → ActionProposal
fingerprint p = record p { state = ProposalState.proposed; updated_at = p.created_at }

unfoldable pub same_fingerprint : ActionProposal → ActionProposal → Bool
same_fingerprint left right = same_proposal (fingerprint left) (fingerprint right)

abbrev invalid {ℓ} : {A : Type ℓ} → Result A → Result A
invalid = rethrow (λ _. fail Code.invalid_request)

unfoldable pub external_reference : ExternalReference → Bool
external_reference r =
    bounded_string 512 r.connector_id
    && bounded_string 512 r.account_id
    && bounded_string 512 r.object_type
    && bounded_string 512 r.external_id
    && elim r.source_timestamp [ none ↦ true | some t ↦ timestamp_at t ]

unfoldable pub issue_at : ConnectorIssue → Bool
issue_at i = bounded_string 128 i.code && bounded_string 1024 i.message

unfoldable pub outcome_at : Outcome → Bool
unfolding external_reference issue_at
outcome_at (Outcome.succeeded r) = external_reference r
outcome_at (Outcome.failed i retry) = issue_at i
outcome_at (Outcome.uncertain i) = issue_at i

unfoldable pub receipt_at : ActionReceipt → Bool
unfolding outcome_at
receipt_at r =
    bounded_string 512 r.proposal_id
    && bounded_string 512 r.connector_id
    && bounded_string 512 r.account_id
    && bounded_string 512 r.idempotency_key
    && timestamp_at r.attempted_at
    && outcome_at r.outcome

unfoldable pub parse_receipt : ActionReceipt → Result ActionReceipt
parse_receipt r = if receipt_at r then ok r else err (fail Code.invalid_request)

unfoldable pub receipt_row : Database → String → Option StoredReceipt
receipt_row db attempt = find (λ r. r.execution_attempt_id) attempt db.receipts

unfoldable pub parse_stored_receipt : StoredReceipt → Result StoredReceipt
parse_stored_receipt row =
    if receipt_at row.receipt && bounded_string 512 row.execution_attempt_id
    then ok row
    else err (fail Code.stored_record_invalid)

unfoldable pub read_receipt_in_snapshot : Database → String → Result (Option StoredReceipt)
unfolding parse_stored_receipt
read_receipt_in_snapshot db attempt = elim (receipt_row db attempt) [
  | none ↦ ok none
  | some row ↦ (parse_stored_receipt row >>= λ r. ok (some r))
]

unfoldable pub settlement_at : StoredDispatch → Option Settlement → Bool
settlement_at d none = true
settlement_at d (some s) =
    timestamp_at s.settled_at && leb (date_parse d.reserved_at) (date_parse s.settled_at)

unfoldable pub dispatch_at : StoredDispatch → Bool
unfolding settlement_at
dispatch_at d =
    leb 1 d.ordinal
    && timestamp_at d.reserved_at
    && settlement_at d d.settlement
    && bounded_string 512 d.execution_attempt_id
    && bounded_string 512 d.proposal_id
    && bounded_string 512 d.connector_id
    && bounded_string 512 d.account_id
    && bounded_string 512 d.idempotency_key

-- `WHERE execution_attempt_id = ? ORDER BY ordinal DESC LIMIT 1`
abbrev pub later_ordinal : Option StoredDispatch → StoredDispatch → Option StoredDispatch
later_ordinal none d = some d
later_ordinal (some best) d = if ltb best.ordinal d.ordinal then some d else some best

unfoldable pub latest_dispatch : String → List StoredDispatch → Option StoredDispatch
latest_dispatch attempt [] = none
latest_dispatch attempt (d ∷ rows) =
    let best = latest_dispatch attempt rows in
    if d.execution_attempt_id == attempt then later_ordinal best d else best

unfoldable pub read_latest_dispatch : Database → String → Result (Option StoredDispatch)
read_latest_dispatch db attempt = elim (latest_dispatch attempt db.dispatches) [
  | none ↦ ok none
  | some row ↦ if dispatch_at row then ok (some row) else err (fail Code.stored_record_invalid)
]

-- A receipt after which the same attempt may go on.
abbrev pub recoverable : ActionReceipt → Bool
recoverable r = elim r.outcome [
  | Outcome.succeeded e ↦ false
  | Outcome.failed i retry ↦ elim retry [
    | FailedRetry.do_not_retry ↦ false
    | FailedRetry.retry_same_key ↦ true
  ]
  | Outcome.uncertain i ↦ true
]

module _ (sha256_hex : Document → String) where
  unfoldable pub parse_approved_action : ApprovedAction → Result ApprovedAction
  parse_approved_action value = do
    proposal ← invalid (parse_action_proposal value.proposal)
    approval ← invalid (parse_approval_record value.approval)
    throw_unless (bounded_string 512 value.execution_attempt_id) (fail Code.invalid_request)
    throw_if
        (proposal.state != ProposalState.approved
          || approval.decision != ApprovalDecision.approved
          || is_some approval.consumed_at
          || approval.proposal_id != proposal.id
          || value.execution_attempt_id
            != compute_approval_execution_attempt_id sha256_hex approval.id)
        (fail Code.invalid_request)
    bindings ← compute_action_approval_bindings sha256_hex proposal
    throw_unless (same_bindings bindings (approval_bindings approval)) (fail Code.binding_mismatch)
    ok value

  -- The durable proposal and approval that an action must match.
  unfoldable pub require_durable_action : Database → ApprovedAction → Result ActionProposal
  require_durable_action db action = do
    found ← read_action_proposal db action.proposal.id
    proposal ← or_throw found (fail Code.missing_proposal)
    stored ← read_action_approval db action.approval.id
    approval ← or_throw stored (fail Code.missing_approval)
    throw_if (approval.proposal_id != proposal.id) (fail Code.missing_approval)
    throw_if
        (approval.decision != ApprovalDecision.approved
          || not (is_some approval.consumed_at)
          || not (same_approval approval action.approval)
          || not (same_fingerprint proposal action.proposal))
        (fail Code.binding_mismatch)
    bindings ← compute_action_approval_bindings sha256_hex proposal
    throw_if (bindings.content_digest != approval.content_digest) (fail Code.binding_mismatch)
    ok proposal

-- `readActionApproval(…) as ApprovalRecord`, after `require_durable_action` has found it.
unfoldable pub durable_approval : Database → ApprovedAction → Result ApprovalRecord
durable_approval db action = do
  stored ← read_action_approval db action.approval.id
  or_throw stored (fail Code.storage_error)
