-- ===== src/Storage/Execution/History.antt =====
-- What any history of execution calls leaves in the journal of dispatches and in the receipts.
use twindesk.Prelude.{
  ℕ, ◌≤◌, ◌≡◌, refl, true, not, ◌&&◌, ◌||◌, some, List, [], ◌∷◌, String, arith, all, count_if, leb,
  if◌then◌else◌, ◌==◌, ◌!=◌, string_eq, nat_eq,
}
use twindesk.Storage.Database.{Database, StoredReceipt, StoredDispatch, committed, committed-keeps}
use twindesk.Storage.Digest.{Document}
use twindesk.Storage.Execution.Requests.{receipt_row}
use twindesk.Storage.Execution.Begin.{ActionExecutionStart, begin_action_execution, terminal}
use twindesk.Storage.Execution.Dispatch.{
  ActionDispatchReservation, may_retry, reserve_action_dispatch,
}
use twindesk.Storage.Execution.Receipt.{
  ActionExecutionReceiptWrite, record_action_execution_receipt,
}
use twindesk.Storage.Execution.Journal.{count_of, count_of-same, AllRetried, IsJournal}
use twindesk.Storage.Execution.Effects.{
  begin-dispatches, reserve_effect, reserve-IsJournal, record-IsJournal, record-terminal,
}

-- Each call with the clock that it reads.
pub data ExecutionCall : Type 0 where
  begins : ActionExecutionStart → ℕ → ExecutionCall
  reserves : ActionDispatchReservation → ℕ → ExecutionCall
  records : ActionExecutionReceiptWrite → ℕ → ExecutionCall

-- The dispatches of a table as journals, whatever the order of its rows.
pub record InJournals (rows : List StoredDispatch) : Type 0 where
  pub numbers :
      (attempt : String) (n : ℕ)
      → count_if (λ d. d.execution_attempt_id == attempt && d.ordinal == n) rows
        ≡ (if leb 1 n && leb n (count_of attempt rows) then 1 else 0)
  pub one_open :
      (attempt : String)
      → count_if (λ d. d.execution_attempt_id == attempt && not (may_retry d)) rows ≤ 1
  pub open_is_last :
      (attempt : String)
      → all
          (λ d.
            d.execution_attempt_id != attempt || may_retry d || d.ordinal == count_of attempt rows)
          rows
        ≡ true

numbers_of_journal :
    (attempt : String) (n : ℕ) (rows : List StoredDispatch)
    → IsJournal rows
    → count_if (λ d. d.execution_attempt_id == attempt && d.ordinal == n) rows
      ≡ (if leb 1 n && leb n (count_of attempt rows) then 1 else 0)
unfolding count_of
numbers_of_journal attempt n [] h = ground arith
numbers_of_journal attempt n (d ∷ rows) h = ground (
  arith,
  numbers_of_journal attempt n rows h.2,
  count_of-same d.execution_attempt_id attempt rows,
)

none_open :
    (j attempt : String) (rows : List StoredDispatch)
    → AllRetried j rows
    → j ≡ attempt
    → count_if (λ d. d.execution_attempt_id == attempt && not (may_retry d)) rows ≡ 0
none_open j attempt [] h e = refl
none_open j attempt (d ∷ rows) h e = ground (arith, none_open j attempt rows h.1 e)

one_open_of_journal :
    (attempt : String) (rows : List StoredDispatch)
    → IsJournal rows
    → count_if (λ d. d.execution_attempt_id == attempt && not (may_retry d)) rows ≤ 1
one_open_of_journal attempt [] h = omega arith
one_open_of_journal attempt (d ∷ rows) h =
    ground (
      arith,
      one_open_of_journal attempt rows h.2,
      none_open d.execution_attempt_id attempt rows h.1,
    )

retried_below :
    (j attempt : String) (n : ℕ) (rows : List StoredDispatch)
    → AllRetried j rows
    → j ≡ attempt
    → all (λ d. d.execution_attempt_id != attempt || may_retry d || d.ordinal == n) rows ≡ true
retried_below j attempt n [] h e = refl
retried_below j attempt n (d ∷ rows) h e = ground (arith, retried_below j attempt n rows h.1 e)

open_is_last_of_journal :
    (attempt : String) (n : ℕ) (rows : List StoredDispatch)
    → IsJournal rows
    → count_of attempt rows ≡ n
    → all (λ d. d.execution_attempt_id != attempt || may_retry d || d.ordinal == n) rows ≡ true
unfolding count_of
open_is_last_of_journal attempt n [] h e = refl
open_is_last_of_journal attempt n (d ∷ rows) h e = ground (
  arith,
  open_is_last_of_journal attempt n rows h.2,
  retried_below d.execution_attempt_id attempt n rows h.1,
  count_of-same d.execution_attempt_id attempt rows,
)

journal-InJournals : (rows : List StoredDispatch) → IsJournal rows → InJournals rows
journal-InJournals rows h = record {
  numbers = λ attempt n. numbers_of_journal attempt n rows h;
  one_open = λ attempt. one_open_of_journal attempt rows h;
  open_is_last = λ attempt. open_is_last_of_journal attempt (count_of attempt rows) rows h refl;
}

module _ (sha256_hex : Document → String) where
  unfoldable pub call : Database → ExecutionCall → Database
  call db (begins s now) = committed db (begin_action_execution sha256_hex db s now)
  call db (reserves i now) = committed db (reserve_action_dispatch sha256_hex db i now)
  call db (records w now) = committed db (record_action_execution_receipt sha256_hex db w now)

  unfoldable pub calls : Database → List ExecutionCall → Database
  calls db [] = db
  calls db (c ∷ cs) = calls (call db c) cs

  call-IsJournal :
      (db : Database) (c : ExecutionCall)
      → IsJournal db.dispatches
      → IsJournal (call db c).dispatches
  unfolding call
  call-IsJournal db (begins s now) h =
      committed-keeps (λ x. IsJournal x.dispatches) db (begin_action_execution sha256_hex db s now)
        h (λ a db' e. rw ((begin-dispatches sha256_hex db s now e).0) h)
  call-IsJournal db (reserves i now) h =
      committed-keeps (λ x. IsJournal x.dispatches) db (reserve_action_dispatch sha256_hex db i now)
        h (λ a db' e. reserve-IsJournal sha256_hex db i now e h)
  call-IsJournal db (records w now) h =
      committed-keeps (λ x. IsJournal x.dispatches) db
        (record_action_execution_receipt sha256_hex db w now) h
        (λ a db' e. record-IsJournal sha256_hex db w now e h)

  calls-IsJournal :
      (db : Database) (cs : List ExecutionCall)
      → IsJournal db.dispatches
      → IsJournal (calls db cs).dispatches
  unfolding calls
  calls-IsJournal db [] h = h
  calls-IsJournal db (c ∷ cs) h = calls-IsJournal (call db c) cs (call-IsJournal db c h)

  call-terminal :
      (db : Database) (c : ExecutionCall) (k : String) (s : StoredReceipt)
      → terminal (some s) ≡ true
      → receipt_row db k ≡ some s
      → receipt_row (call db c) k ≡ some s
  unfolding call receipt_row
  call-terminal db (begins b now) k s t h =
      committed-keeps (λ x. receipt_row x k ≡ some s) db
        (begin_action_execution sha256_hex db b now) h
        (λ a db' e. rw ((begin-dispatches sha256_hex db b now e).1) h)
  call-terminal db (reserves i now) k s t h =
      committed-keeps (λ x. receipt_row x k ≡ some s) db
        (reserve_action_dispatch sha256_hex db i now) h
        (λ a db' e. rw ((reserve_effect sha256_hex db i now e).0) h)
  call-terminal db (records w now) k s t h =
      committed-keeps (λ x. receipt_row x k ≡ some s) db
        (record_action_execution_receipt sha256_hex db w now) h
        (λ a db' e. record-terminal sha256_hex db w now k s e h t)

  -- After any history of begun executions, reservations and receipts, refused ones included, from
  -- an empty journal: the dispatches of each attempt have the numbers 1 to their number once each,
  -- at most one of them is not settled as failed to be retried under the same key, and such a one
  -- is the last.
  pub calls-InJournals :
      (db : Database) (cs : List ExecutionCall)
      → db.dispatches ≡ []
      → InJournals (calls db cs).dispatches
  calls-InJournals db cs e =
      journal-InJournals (calls db cs).dispatches (calls-IsJournal db cs (rw e tt))

  -- No history of begun executions, reservations and receipts changes a stored receipt that
  -- succeeded, or that failed and is not to be retried.
  pub calls-terminal :
      (db : Database) (cs : List ExecutionCall) (attempt : String) (s : StoredReceipt)
      → terminal (some s) ≡ true
      → receipt_row db attempt ≡ some s
      → receipt_row (calls db cs) attempt ≡ some s
  unfolding calls
  calls-terminal db [] k s t h = h
  calls-terminal db (c ∷ cs) k s t h =
      calls-terminal (call db c) cs k s t (call-terminal db c k s t h)
