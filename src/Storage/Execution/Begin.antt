-- ===== src/Storage/Execution/Begin.antt =====
-- packages/storage-sqlite/src/action-execution-state.ts: `beginActionExecution`. `now` is the
-- observed clock.
use twindesk.Prelude.{
  ℕ, Bool, true, false, ◌||◌, Option, none, some, String, ltb, ◌==◌, string_eq, if◌then◌else◌,
}
use twindesk.Time.{IsoTimestamp, timestamp_at, date_parse}
use twindesk.Result.{Result, ok, ◌>>=◌, ◌>>◌, throw_if, throw_unless, rethrow}
use twindesk.Result.{ExecutionCode as Code}
use twindesk.Domain.Model.{
  ProposalState, ActionProposal, ApprovalRecord, FailedRetry, Outcome, ApprovedAction,
  proposal_state_eq,
}
use twindesk.Storage.Table.{update_one}
use twindesk.Storage.Database.{Database, StoredReceipt}
use twindesk.Storage.Digest.{Document}
use twindesk.Storage.DraftAction.Rows.{or_throw}
use twindesk.Storage.Approval.Requests.{proposal_for_state, set_proposal}
use twindesk.Storage.Execution.Requests.{
  fail, catch_execution, observed_timestamp, parse_approved_action, require_durable_action,
  durable_approval, read_receipt_in_snapshot,
}

pub record ActionExecutionStart : Type 0 where
  pub action : ApprovedAction
  pub started_at : IsoTimestamp

pub data StartDisposition : Type 0 where
  started duplicate : StartDisposition

pub record ActionExecutionStartResult : Type 0 where
  pub disposition : StartDisposition
  pub proposal : ActionProposal

-- A receipt after which nothing may be tried again.
abbrev pub terminal : Option StoredReceipt → Bool
terminal none = false
terminal (some r) = elim r.receipt.outcome [
  | Outcome.succeeded e ↦ true
  | Outcome.failed i retry ↦ elim retry [
    | FailedRetry.do_not_retry ↦ true
    | FailedRetry.retry_same_key ↦ false
  ]
  | Outcome.uncertain i ↦ false
]

-- `retryableState`: the state of the proposal with the receipt that the attempt already has.
unfoldable pub retryable_state : ProposalState → Option StoredReceipt → Bool
retryable_state ProposalState.approved none = true
retryable_state ProposalState.failed (some r) = elim r.receipt.outcome [
  | Outcome.succeeded e ↦ false
  | Outcome.failed i retry ↦ elim retry [
    | FailedRetry.do_not_retry ↦ false
    | FailedRetry.retry_same_key ↦ true
  ]
  | Outcome.uncertain i ↦ false
]
retryable_state ProposalState.uncertain (some r) = elim r.receipt.outcome [
  | Outcome.succeeded e ↦ false
  | Outcome.failed i retry ↦ false
  | Outcome.uncertain i ↦ true
]
retryable_state _ _ = false

-- Started before it was consumed, in the future, or observed after the approval's end.
unfoldable pub outside_execution : ApprovalRecord → ℕ → ℕ → Bool
outside_execution a start observed =
    elim a.consumed_at [ none ↦ false | some consumed ↦ ltb start (date_parse consumed) ]
    || ltb observed start
    || ltb (date_parse a.expires_at) observed

module _ (sha256_hex : Document → String) where
  unfoldable pub parse_start : ActionExecutionStart → Result ActionExecutionStart
  parse_start s = do
    parse_approved_action sha256_hex s.action >>= λ a. ok tt
    throw_unless (timestamp_at s.started_at) (fail Code.invalid_request)
    ok s

  unfoldable pub start_execution :
      Database
      → ActionExecutionStart
      → ActionProposal
      → Option StoredReceipt
      → Result (ActionExecutionStartResult × Database)
  start_execution db s proposal existing = do
    throw_unless (retryable_state proposal.state existing) (fail Code.execution_state)
    proposals ←
        or_throw
          (update_one (λ p. p.id) proposal.id (λ p. p.state == proposal.state)
            (set_proposal ProposalState.executing s.started_at) db.proposals)
          (fail Code.execution_state)
    -- Read after COMMIT: what it demands of the row, its CHECK demands.
    executing ← proposal_for_state proposal ProposalState.executing s.started_at
    ok (record { disposition = started; proposal = executing }, record db { proposals = proposals })

  unfoldable pub begin_transaction :
      Database → ActionExecutionStart → ℕ → Result (ActionExecutionStartResult × Database)
  unfolding start_execution
  begin_transaction db s observed = do
    proposal ← require_durable_action sha256_hex db s.action
    a ← durable_approval db s.action
    throw_if (outside_execution a (date_parse s.started_at) observed) (fail Code.approval_expired)
    existing ← read_receipt_in_snapshot db s.action.execution_attempt_id
    throw_if (terminal existing) (fail Code.execution_state)
    if proposal.state == ProposalState.executing
        then ok (record { disposition = duplicate; proposal = proposal }, db)
        else start_execution db s proposal existing

  unfoldable pub begin_action_execution :
      Database → ActionExecutionStart → ℕ → Result (ActionExecutionStartResult × Database)
  unfolding parse_start begin_transaction
  begin_action_execution db input now = do
    s ← parse_start input
    observed ← observed_timestamp now
    rethrow catch_execution (begin_transaction db s (date_parse observed))
