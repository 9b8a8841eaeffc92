-- ===== src/Storage/Execution/Effects.antt =====
-- What each operation of an execution does to the journal of dispatches and to the receipts.
mod Receipts
use Receipts.{new_receipt-IsJournal, new_receipt-terminal, record_receipt_effect}
use twindesk.Prelude.{
  ℕ, ◌+◌, ◌≡◌, refl, ◌⊎◌, inl, inr, true, false, Option, none, some, List, ◌∷◌, String, arith, ltb,
  string_eq, nat_eq,
}
use twindesk.Result.{ExecutionCode as Code}
use twindesk.Time.{date_parse, IsoTimestamp}
use mathlib.Core.Path.{subst}
use twindesk.Result.{>>=-eq-ok, rethrow-eq-ok, throw_if, ok}
use twindesk.Domain.Model.{ActionProposal, ActionReceipt}
use twindesk.Storage.Table.{find, insert, update_one, find-update}
use twindesk.Storage.Database.{Database, StoredReceipt, StoredDispatch}
use twindesk.Storage.Digest.{Document}
use twindesk.Storage.Execution.Requests.{
  fail, catch_execution, observed_timestamp, require_durable_action, latest_dispatch,
  read_latest_dispatch, receipt_row, read_receipt_in_snapshot,
}
use twindesk.Storage.Execution.Begin.{
  ActionExecutionStart, ActionExecutionStartResult, begin_action_execution, terminal,
}
use twindesk.Storage.Execution.Dispatch.{
  ActionDispatchReservation, ActionDispatchReservationResult, may_retry, insert_dispatch,
  write_dispatch, next_dispatch, parse_dispatch_reservation, reserve_transaction,
  reserve_action_dispatch, reserved, blocked,
}
use twindesk.Storage.Execution.Receipt.{
  ActionExecutionReceiptWrite, move_proposal, receipt_mismatch, ReceiptDisposition, settled_outcome,
  ActionExecutionReceiptWriteResult, settle, settle_latest_dispatch, write_receipt_row,
  parse_receipt_write, new_receipt, repeated_receipt, record_receipt, receipt_transaction,
  record_action_execution_receipt,
}
use twindesk.Storage.Execution.Journal.{
  IsJournal, latest_dispatch-count, retried_of_latest, IsJournal-settle,
}

module _ (sha256_hex : Document → String) where
  pub begin-dispatches :
      (db : Database) (s : ActionExecutionStart) (now : ℕ) {r : ActionExecutionStartResult}
      {db' : Database}
      → begin_action_execution sha256_hex db s now ≡ ok (r, db')
      → (db'.dispatches ≡ db.dispatches) × (db'.receipts ≡ db.receipts)
  unfolding begin_action_execution
  begin-dispatches db s now h = ground arith

  -- What a reservation does to the journal.
  pub reserve_effect :
      (db : Database) (i : ActionDispatchReservation) (now : ℕ)
      {r : ActionDispatchReservationResult} {db' : Database}
      → reserve_action_dispatch sha256_hex db i now ≡ ok (r, db')
      → (db'.receipts ≡ db.receipts)
        × ((db'.dispatches ≡ db.dispatches)
            ⊎ ((d : StoredDispatch) × (db'.dispatches ≡ d ∷ db.dispatches)
                × (d.execution_attempt_id ≡ i.action.execution_attempt_id)
                × (((latest_dispatch d.execution_attempt_id db.dispatches ≡ none) × (d.ordinal ≡ 1))
                    ⊎ ((l : StoredDispatch) × (latest_dispatch d.execution_attempt_id db.dispatches
                          ≡ some l)
                        × (d.ordinal ≡ l.ordinal + 1)
                        × (may_retry l ≡ true)))))
  unfolding parse_dispatch_reservation reserve_action_dispatch reserve_transaction next_dispatch
      write_dispatch insert_dispatch read_latest_dispatch
  reserve_effect db i now h = ground arith

  receipt_transaction_effect :
      (db : Database) (w : ActionExecutionReceiptWrite) (observed : IsoTimestamp)
      {x : ActionExecutionReceiptWriteResult × Database}
      → receipt_transaction sha256_hex db w observed ≡ ok x
      → (proposal : ActionProposal) × (existing : Option StoredReceipt) × (read_receipt_in_snapshot
            db w.action.execution_attempt_id
          ≡ ok existing)
        × (record_receipt db w.action.execution_attempt_id w.receipt observed proposal existing
            ≡ ok x)
  unfolding receipt_transaction
  receipt_transaction_effect db w observed h =
      let (proposal, _, rest) = >>=-eq-ok (require_durable_action sha256_hex db w.action) _ h in
      let (_, _, rest') = >>=-eq-ok (throw_if (receipt_mismatch w.receipt proposal) _) _ rest in
      let (existing, e, last) =
        >>=-eq-ok (read_receipt_in_snapshot db w.action.execution_attempt_id) _ rest' in
      (proposal, existing, e, last)

  parse_receipt_write_same :
      (w w' : ActionExecutionReceiptWrite) → parse_receipt_write sha256_hex w ≡ ok w' → w' ≡ w
  unfolding parse_receipt_write
  parse_receipt_write_same w w' h = ground arith

  record_effect :
      (db : Database) (w : ActionExecutionReceiptWrite) (now : ℕ)
      {x : ActionExecutionReceiptWriteResult × Database}
      → record_action_execution_receipt sha256_hex db w now ≡ ok x
      → (observed : IsoTimestamp) × (receipt_transaction sha256_hex db w observed ≡ ok x)
  unfolding record_action_execution_receipt
  record_effect db w now {x} h =
      let (w', e, rest) = >>=-eq-ok (parse_receipt_write sha256_hex w) _ h in
      let (observed, _, rest') = >>=-eq-ok (observed_timestamp now) _ rest in
      let late = ltb (date_parse observed) (date_parse w'.receipt.attempted_at) in
      let (_, _, last) = >>=-eq-ok (throw_if late (fail Code.invalid_request)) _ rest' in
      (
        observed,
        subst (λ v. receipt_transaction sha256_hex db v observed ≡ ok x)
            (parse_receipt_write_same w w' e) (rethrow-eq-ok catch_execution _ last),
      )

  pub reserve-IsJournal :
      (db : Database) (i : ActionDispatchReservation) (now : ℕ)
      {r : ActionDispatchReservationResult} {db' : Database}
      → reserve_action_dispatch sha256_hex db i now ≡ ok (r, db')
      → IsJournal db.dispatches
      → IsJournal db'.dispatches
  reserve-IsJournal db i now e h = elim (reserve_effect db i now e).1 [
    | inl same ↦ rw same h
    | inr (d, added, attempt, below) ↦ rw added (
      ground (arith, latest_dispatch-count d.execution_attempt_id db.dispatches h),
      retried_of_latest d.execution_attempt_id db.dispatches h (λ l found. ground arith),
      h,
    )
  ]

  pub record-IsJournal :
      (db : Database) (w : ActionExecutionReceiptWrite) (now : ℕ)
      {r : ActionExecutionReceiptWriteResult} {db' : Database}
      → record_action_execution_receipt sha256_hex db w now ≡ ok (r, db')
      → IsJournal db.dispatches
      → IsJournal db'.dispatches
  record-IsJournal db w now e h =
      let (at, e') = record_effect db w now e in
      let (proposal, existing, _, e'') = receipt_transaction_effect db w at e' in
      let attempt = w.action.execution_attempt_id in
      elim (record_receipt_effect db attempt w.receipt at proposal existing e'') [
        | inl same ↦ rw same h
        | inr new ↦ new_receipt-IsJournal db attempt w.receipt at proposal existing new h
      ]

  pub record-terminal :
      (db : Database) (w : ActionExecutionReceiptWrite) (now : ℕ)
      {r : ActionExecutionReceiptWriteResult} {db' : Database} (k : String) (s : StoredReceipt)
      → record_action_execution_receipt sha256_hex db w now ≡ ok (r, db')
      → receipt_row db k ≡ some s
      → terminal (some s) ≡ true
      → receipt_row db' k ≡ some s
  record-terminal db w now k s e found t =
      let (at, e') = record_effect db w now e in
      let (proposal, existing, read, e'') = receipt_transaction_effect db w at e' in
      let attempt = w.action.execution_attempt_id in
      elim (record_receipt_effect db attempt w.receipt at proposal existing e'') [
        | inl same ↦ rw same found
        | inr new ↦
            new_receipt-terminal db attempt w.receipt at proposal existing k s new read found t
      ]

  -- A reservation is blocked by the latest dispatch of the attempt, unless that one failed and is to
  -- be retried under the same key, and then leaves the database as it is; or it is reserved, as the
  -- first dispatch of the attempt or as the one after such a failed one, and is then the latest.
  pub reserve_action_dispatch-cases :
      (db : Database) (i : ActionDispatchReservation) (now : ℕ)
      {x : ActionDispatchReservationResult} {db' : Database}
      → reserve_action_dispatch sha256_hex db i now ≡ ok (x, db')
      → ((x.disposition ≡ blocked)
          × (db' ≡ db)
          × (latest_dispatch i.action.execution_attempt_id db.dispatches ≡ some x.dispatch)
          × (may_retry x.dispatch ≡ false))
        ⊎ ((x.disposition ≡ reserved)
            × (latest_dispatch i.action.execution_attempt_id db'.dispatches ≡ some x.dispatch)
            × (((latest_dispatch i.action.execution_attempt_id db.dispatches ≡ none)
                  × (x.dispatch.ordinal ≡ 1))
                ⊎ ((l : StoredDispatch) × (latest_dispatch i.action.execution_attempt_id
                        db.dispatches
                      ≡ some l)
                    × (may_retry l ≡ true)
                    × (x.dispatch.ordinal ≡ l.ordinal + 1))))
  unfolding parse_dispatch_reservation reserve_action_dispatch reserve_transaction next_dispatch
      write_dispatch insert_dispatch read_latest_dispatch
  reserve_action_dispatch-cases db i now h = ground arith
