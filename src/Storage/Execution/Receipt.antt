-- ===== src/Storage/Execution/Receipt.antt =====
-- packages/storage-sqlite/src/action-execution-state.ts: `recordActionExecutionReceipt`. `now` is the
-- observed clock.
use twindesk.Prelude.{
  ℕ, Bool, true, false, not, ◌&&◌, ◌||◌, Option, none, some, List, [], ◌∷◌, String, count_if, ltb,
  ◌==◌, ◌!=◌, string_eq, nat_eq, if◌then◌else◌, is_some,
}
use twindesk.Time.{IsoTimestamp, date_parse}
use twindesk.Result.{Result, ok, ◌>>=◌, ◌>>◌, throw_if, rethrow}
use twindesk.Result.{ExecutionCode as Code}
use twindesk.Domain.Model.{
  ProposalState, ActionProposal, Outcome, ActionReceipt, ApprovedAction, proposal_state_eq,
  action_receipt_eq,
}
use twindesk.Storage.Table.{insert, update_one}
use twindesk.Storage.Database.{Database, StoredReceipt, StoredDispatch, Settlement, SettledOutcome}
use twindesk.Storage.Digest.{Document}
use twindesk.Storage.DraftAction.Rows.{or_throw}
use twindesk.Storage.Approval.Requests.{proposal_for_state, set_proposal}
use twindesk.Storage.Execution.Requests.{
  fail, catch_execution, observed_timestamp, parse_approved_action, require_durable_action,
  parse_receipt, read_receipt_in_snapshot, read_latest_dispatch, recoverable,
}

pub record ActionExecutionReceiptWrite : Type 0 where
  pub action : ApprovedAction
  pub receipt : ActionReceipt

pub data ReceiptDisposition : Type 0 where
  inserted updated duplicate : ReceiptDisposition

pub record ActionExecutionReceiptWriteResult : Type 0 where
  pub disposition : ReceiptDisposition
  pub stored_receipt : StoredReceipt
  pub proposal : ActionProposal

unfoldable pub receipt_state : ActionReceipt → ProposalState
receipt_state r = elim r.outcome [
  | Outcome.succeeded e ↦ ProposalState.succeeded
  | Outcome.failed i retry ↦ ProposalState.failed
  | Outcome.uncertain i ↦ ProposalState.uncertain
]

unfoldable pub settled_outcome : ActionReceipt → SettledOutcome
settled_outcome r = elim r.outcome [
  | Outcome.succeeded e ↦ SettledOutcome.succeeded
  | Outcome.failed i retry ↦ SettledOutcome.failed retry
  | Outcome.uncertain i ↦ SettledOutcome.uncertain
]

-- The receipt is not one of this proposal's identity and key, or is older than its last change.
unfoldable pub receipt_mismatch : ActionReceipt → ActionProposal → Bool
receipt_mismatch r p =
    r.proposal_id != p.id
    || r.connector_id != p.identity.connector_id
    || r.account_id != p.identity.account_id
    || r.idempotency_key != p.idempotency_key
    || ltb (date_parse r.attempted_at) (date_parse p.updated_at)
    || elim r.outcome [
      | Outcome.succeeded e ↦
          (e.connector_id != p.identity.connector_id || e.account_id != p.identity.account_id)
      | Outcome.failed i retry ↦ false
      | Outcome.uncertain i ↦ false
    ]

abbrev pub is_row : String → ℕ → StoredDispatch → Bool
is_row attempt ordinal d = d.execution_attempt_id == attempt && d.ordinal == ordinal

-- `UPDATE action_dispatches SET … WHERE execution_attempt_id = ? AND ordinal = ?`
unfoldable pub settle : String → ℕ → Settlement → List StoredDispatch → List StoredDispatch
settle attempt ordinal s [] = []
settle attempt ordinal s (d ∷ rows) =
    let rest = settle attempt ordinal s rows in
    (if is_row attempt ordinal d then record d { settlement = some s } else d) ∷ rest

unfoldable pub settles_backwards : StoredDispatch → ActionReceipt → ℕ → Bool
settles_backwards d r settled_at =
    d.proposal_id != r.proposal_id
    || d.connector_id != r.connector_id
    || d.account_id != r.account_id
    || d.idempotency_key != r.idempotency_key
    || ltb settled_at (date_parse d.reserved_at)
    || elim d.settlement [ none ↦ false | some s ↦ ltb settled_at (date_parse s.settled_at) ]

unfoldable pub settle_latest_dispatch :
    Database → String → ActionReceipt → IsoTimestamp → Result Database
settle_latest_dispatch db attempt r settled_at = do
  found ← read_latest_dispatch db attempt
  elim found [
    | none ↦ ok db
    | some latest ↦
        (throw_if (settles_backwards latest r (date_parse settled_at))
            (fail Code.stored_record_invalid)
          >> throw_if (count_if (is_row attempt latest.ordinal) db.dispatches != 1)
              (fail Code.dispatch_conflict)
          >> ok (record db {
            dispatches =
                settle attempt latest.ordinal
                  (record { outcome = settled_outcome r; settled_at = settled_at }) db.dispatches;
          }))
  ]

-- The row of an attempt is inserted, or overwritten where its receipt left the attempt open.
unfoldable pub write_receipt_row :
    Database
    → String
    → ActionReceipt
    → ActionProposal
    → Option StoredReceipt
    → Result (ReceiptDisposition × List StoredReceipt)
write_receipt_row db attempt r proposal none = do
  throw_if (proposal.state != ProposalState.executing) (fail Code.execution_state)
  receipts ←
      insert (λ row. row.execution_attempt_id)
        (record { execution_attempt_id = attempt; receipt = r }) db.receipts
  ok (inserted, receipts)
write_receipt_row db attempt r proposal (some existing) = do
  throw_if
      (not (recoverable existing.receipt)
        || proposal.state != ProposalState.executing && proposal.state != ProposalState.uncertain
        || ltb (date_parse r.attempted_at) (date_parse existing.receipt.attempted_at))
      (fail Code.receipt_conflict)
  receipts ←
      or_throw
        (update_one (λ row. row.execution_attempt_id) attempt (λ row. true)
          (λ row. record row { receipt = r }) db.receipts)
        (fail Code.receipt_conflict)
  ok (updated, receipts)

-- `UPDATE action_proposals SET … WHERE id = ? AND state IN ('executing', 'uncertain')`
unfoldable pub move_proposal :
    Database → ActionReceipt → ActionProposal → Result (List ActionProposal)
move_proposal db r proposal =
    or_throw
      (update_one (λ p. p.id) proposal.id
        (λ p. p.state == ProposalState.executing || p.state == ProposalState.uncertain)
        (set_proposal (receipt_state r) r.attempted_at) db.proposals)
      (fail Code.execution_state)

unfoldable pub new_receipt :
    Database
    → String
    → ActionReceipt
    → IsoTimestamp
    → ActionProposal
    → Option StoredReceipt
    → Result (ActionExecutionReceiptWriteResult × Database)
new_receipt db attempt r observed proposal existing = do
  (disposition, receipts) ← write_receipt_row db attempt r proposal existing
  proposals ← move_proposal db r proposal
  after ←
      settle_latest_dispatch (record db { receipts = receipts; proposals = proposals }) attempt r
        observed
  found ← read_receipt_in_snapshot after attempt
  stored ← or_throw found (fail Code.storage_error)
  -- Read after COMMIT: what it demands of the row, its CHECK demands.
  settled ← proposal_for_state proposal (receipt_state r) r.attempted_at
  ok (record { disposition = disposition; stored_receipt = stored; proposal = settled }, after)

-- Every dispatch is settled: the latest one, or there is none.
unfoldable pub dispatch_settled : Option StoredDispatch → Bool
dispatch_settled none = true
dispatch_settled (some d) = is_some d.settlement

-- The same receipt again: nothing to do where the latest dispatch is settled.
unfoldable pub repeated_receipt :
    Database
    → String
    → ActionReceipt
    → IsoTimestamp
    → ActionProposal
    → StoredReceipt
    → Result (ActionExecutionReceiptWriteResult × Database)
repeated_receipt db attempt r observed proposal existing = do
  latest ← read_latest_dispatch db attempt
  if dispatch_settled latest
      then (throw_if (proposal.state != receipt_state r) (fail Code.stored_record_invalid)
          >> ok (
            record { disposition = duplicate; stored_receipt = existing; proposal = proposal },
            db,
          ))
      else new_receipt db attempt r observed proposal (some existing)

unfoldable pub record_receipt :
    Database
    → String
    → ActionReceipt
    → IsoTimestamp
    → ActionProposal
    → Option StoredReceipt
    → Result (ActionExecutionReceiptWriteResult × Database)
record_receipt db attempt r observed proposal none = new_receipt db attempt r observed proposal none
record_receipt db attempt r observed proposal (some existing) =
    if existing.receipt == r
    then repeated_receipt db attempt r observed proposal existing
    else new_receipt db attempt r observed proposal (some existing)

module _ (sha256_hex : Document → String) where
  unfoldable pub parse_receipt_write :
      ActionExecutionReceiptWrite → Result ActionExecutionReceiptWrite
  parse_receipt_write w = do
    parse_approved_action sha256_hex w.action >>= λ a. ok tt
    parse_receipt w.receipt >>= λ r. ok tt
    ok w

  unfoldable pub receipt_transaction :
      Database
      → ActionExecutionReceiptWrite
      → IsoTimestamp
      → Result (ActionExecutionReceiptWriteResult × Database)
  receipt_transaction db w observed = do
    proposal ← require_durable_action sha256_hex db w.action
    throw_if (receipt_mismatch w.receipt proposal) (fail Code.binding_mismatch)
    existing ← read_receipt_in_snapshot db w.action.execution_attempt_id
    record_receipt db w.action.execution_attempt_id w.receipt observed proposal existing

  unfoldable pub record_action_execution_receipt :
      Database
      → ActionExecutionReceiptWrite
      → ℕ
      → Result (ActionExecutionReceiptWriteResult × Database)
  record_action_execution_receipt db input now = do
    w ← parse_receipt_write input
    observed ← observed_timestamp now
    throw_if (ltb (date_parse observed) (date_parse w.receipt.attempted_at))
        (fail Code.invalid_request)
    rethrow catch_execution (receipt_transaction db w observed)
