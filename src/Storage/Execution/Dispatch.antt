-- ===== src/Storage/Execution/Dispatch.antt =====
-- packages/storage-sqlite/src/action-execution-state.ts: `reserveActionDispatch`. `now` is the
-- observed clock.
use twindesk.Prelude.{
  ℕ, ◌+◌, Bool, true, false, ◌&&◌, ◌||◌, Option, none, some, List, [], ◌∷◌, String, ltb, ◌==◌, ◌!=◌,
  string_eq, nat_eq, if◌then◌else◌,
}
use twindesk.Time.{IsoTimestamp, timestamp_at, date_parse}
use twindesk.Result.{Result, ok, err, constraint, ◌>>=◌, ◌>>◌, throw_if, throw_unless, rethrow}
use twindesk.Result.{ExecutionCode as Code}
use twindesk.Domain.Model.{
  ProposalState, ActionProposal, ApprovalRecord, FailedRetry, ApprovedAction, proposal_state_eq,
}
use twindesk.Storage.Database.{Database, StoredDispatch, SettledOutcome}
use twindesk.Storage.Digest.{Document}
use twindesk.Storage.DraftAction.Rows.{or_throw}
use twindesk.Storage.Execution.Requests.{
  fail, catch_execution, observed_timestamp, parse_approved_action, require_durable_action,
  durable_approval, read_latest_dispatch,
}

pub record ActionDispatchReservation : Type 0 where
  pub action : ApprovedAction
  pub reserved_at : IsoTimestamp

pub data ReservationDisposition : Type 0 where
  reserved blocked : ReservationDisposition

pub record ActionDispatchReservationResult : Type 0 where
  pub disposition : ReservationDisposition
  pub dispatch : StoredDispatch

-- `mayRetry`: the dispatch is settled as failed, to be tried again under the same key.
unfoldable pub may_retry : StoredDispatch → Bool
may_retry d = elim d.settlement [
  | none ↦ false
  | some s ↦ elim s.outcome [
    | SettledOutcome.succeeded ↦ false
    | SettledOutcome.uncertain ↦ false
    | SettledOutcome.failed retry ↦ elim retry [
      | FailedRetry.do_not_retry ↦ false
      | FailedRetry.retry_same_key ↦ true
    ]
  ]
]

unfoldable pub foreign_dispatch : StoredDispatch → String → ActionProposal → ℕ → Bool
foreign_dispatch d attempt proposal observed =
    d.execution_attempt_id != attempt
    || d.proposal_id != proposal.id
    || d.connector_id != proposal.identity.connector_id
    || d.account_id != proposal.identity.account_id
    || d.idempotency_key != proposal.idempotency_key
    || ltb observed (date_parse d.reserved_at)

-- The two keys of the table: (execution_attempt_id, ordinal) and (proposal_id, ordinal).
unfoldable pub same_dispatch_key : StoredDispatch → StoredDispatch → Bool
same_dispatch_key d e =
    d.ordinal == e.ordinal
    && (d.execution_attempt_id == e.execution_attempt_id || d.proposal_id == e.proposal_id)

unfoldable pub dispatch_taken : StoredDispatch → List StoredDispatch → Bool
dispatch_taken d [] = false
dispatch_taken d (e ∷ rows) = same_dispatch_key d e || dispatch_taken d rows

unfoldable pub insert_dispatch : StoredDispatch → List StoredDispatch → Result (List StoredDispatch)
insert_dispatch d rows = if dispatch_taken d rows then err constraint else ok (d ∷ rows)

abbrev pub new_dispatch : String → ℕ → ActionProposal → IsoTimestamp → StoredDispatch
new_dispatch attempt ordinal proposal reserved_at = record {
  execution_attempt_id = attempt;
  ordinal = ordinal;
  proposal_id = proposal.id;
  connector_id = proposal.identity.connector_id;
  account_id = proposal.identity.account_id;
  idempotency_key = proposal.idempotency_key;
  reserved_at = reserved_at;
  settlement = none;
}

-- Not executing, reserved before the execution began or in the future, or past the approval's end.
unfoldable pub unauthorized_dispatch : ActionProposal → ApprovalRecord → ℕ → ℕ → Bool
unauthorized_dispatch p a reserved_at observed =
    p.state != ProposalState.executing
    || ltb reserved_at (date_parse p.updated_at)
    || ltb observed reserved_at
    || ltb (date_parse a.expires_at) observed

-- `INSERT`, and the dispatch read back as the latest one of its attempt.
unfoldable pub write_dispatch :
    Database → StoredDispatch → Result (ActionDispatchReservationResult × Database)
write_dispatch db d = do
  dispatches ← insert_dispatch d db.dispatches
  let after = record db { dispatches = dispatches }
  latest ← read_latest_dispatch after d.execution_attempt_id
  dispatch ← or_throw latest (fail Code.storage_error)
  throw_if (dispatch.ordinal != d.ordinal) (fail Code.storage_error)
  ok (record { disposition = reserved; dispatch = dispatch }, after)

unfoldable pub next_dispatch :
    Database
    → ActionDispatchReservation
    → ℕ
    → ActionProposal
    → Option StoredDispatch
    → Result (ActionDispatchReservationResult × Database)
next_dispatch db r observed proposal none =
    write_dispatch db (new_dispatch r.action.execution_attempt_id 1 proposal r.reserved_at)
next_dispatch db r observed proposal (some latest) = do
  throw_if (foreign_dispatch latest r.action.execution_attempt_id proposal observed)
      (fail Code.stored_record_invalid)
  if may_retry latest
      then write_dispatch db
          (new_dispatch r.action.execution_attempt_id (latest.ordinal + 1) proposal r.reserved_at)
      else ok (record { disposition = blocked; dispatch = latest }, db)

module _ (sha256_hex : Document → String) where
  unfoldable pub parse_dispatch_reservation :
      ActionDispatchReservation → Result ActionDispatchReservation
  parse_dispatch_reservation r = do
    parse_approved_action sha256_hex r.action >>= λ a. ok tt
    throw_unless (timestamp_at r.reserved_at) (fail Code.invalid_request)
    ok r

  unfoldable pub reserve_transaction :
      Database → ActionDispatchReservation → ℕ → Result (ActionDispatchReservationResult × Database)
  reserve_transaction db r observed = do
    proposal ← require_durable_action sha256_hex db r.action
    a ← durable_approval db r.action
    throw_if (unauthorized_dispatch proposal a (date_parse r.reserved_at) observed)
        (fail Code.execution_state)
    latest ← read_latest_dispatch db r.action.execution_attempt_id
    next_dispatch db r observed proposal latest

  unfoldable pub reserve_action_dispatch :
      Database → ActionDispatchReservation → ℕ → Result (ActionDispatchReservationResult × Database)
  reserve_action_dispatch db input now = do
    r ← parse_dispatch_reservation input
    observed ← observed_timestamp now
    rethrow catch_execution (reserve_transaction db r (date_parse observed))
