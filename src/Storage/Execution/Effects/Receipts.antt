-- ===== src/Storage/Execution/Effects/Receipts.antt =====
-- What storing a receipt does to the rows of receipts and to the journal.
use twindesk.Prelude.{
  ◌≡◌, refl, ◌⊎◌, inl, inr, true, Option, none, some, List, String, arith, string_eq, nat_eq,
}
use twindesk.Time.{IsoTimestamp}
use twindesk.Result.{>>=-eq-ok, ok}
use twindesk.Domain.Model.{ActionProposal, ActionReceipt}
use twindesk.Storage.Table.{find, insert, update_one, find-update}
use twindesk.Storage.Database.{Database, StoredReceipt, StoredDispatch}
use twindesk.Storage.Execution.Requests.{
  latest_dispatch, read_latest_dispatch, receipt_row, read_receipt_in_snapshot,
}
use twindesk.Storage.Execution.Begin.{terminal}
use twindesk.Storage.Execution.Receipt.{
  move_proposal, ReceiptDisposition, settled_outcome, ActionExecutionReceiptWriteResult, settle,
  settle_latest_dispatch, write_receipt_row, new_receipt, repeated_receipt, record_receipt,
}
use twindesk.Storage.Execution.Journal.{IsJournal, latest_dispatch-count, IsJournal-settle}

settle_latest_effect :
    (db : Database) (attempt : String) (r : ActionReceipt) (at : IsoTimestamp) {db' : Database}
    → settle_latest_dispatch db attempt r at ≡ ok db'
    → (db'.receipts ≡ db.receipts)
      × ((db'.dispatches ≡ db.dispatches)
          ⊎ ((l : StoredDispatch) × (latest_dispatch attempt db.dispatches ≡ some l)
              × (db'.dispatches
                  ≡ settle attempt l.ordinal
                      (record { outcome = settled_outcome r; settled_at = at })
                      db.dispatches)))
unfolding settle_latest_dispatch read_latest_dispatch
settle_latest_effect db attempt r at h = ground arith

write_receipt_row-terminal :
    (db : Database) (attempt : String) (r : ActionReceipt) (proposal : ActionProposal)
    (existing : Option StoredReceipt) {d : ReceiptDisposition} (k : String) (s : StoredReceipt)
    (rows : List StoredReceipt)
    → write_receipt_row db attempt r proposal existing ≡ ok (d, rows)
    → read_receipt_in_snapshot db attempt ≡ ok existing
    → receipt_row db k ≡ some s
    → terminal (some s) ≡ true
    → find (λ x. x.execution_attempt_id) k rows ≡ some s
unfolding write_receipt_row receipt_row read_receipt_in_snapshot insert update_one find
write_receipt_row-terminal db attempt r proposal none k s rows e read found t = ground (arith)
write_receipt_row-terminal db attempt r proposal (some x) k s rows e read found t = ground (
  arith,
  find-update (λ x. x.execution_attempt_id) attempt k (λ row. record row { receipt = r })
      (λ row. refl) db.receipts,
)

-- What writing a receipt does, whatever was read before.
new_receipt_effect :
    (db : Database) (attempt : String) (r : ActionReceipt) (at : IsoTimestamp)
    (proposal : ActionProposal) (existing : Option StoredReceipt)
    {x : ActionExecutionReceiptWriteResult} {db' : Database}
    → new_receipt db attempt r at proposal existing ≡ ok (x, db')
    → (d : ReceiptDisposition) × (receipts : List StoredReceipt) × (write_receipt_row db attempt r
          proposal existing
        ≡ ok (d, receipts))
      × (db'.receipts ≡ receipts)
      × ((db'.dispatches ≡ db.dispatches)
          ⊎ ((l : StoredDispatch) × (latest_dispatch attempt db.dispatches ≡ some l)
              × (db'.dispatches
                  ≡ settle attempt l.ordinal
                      (record { outcome = settled_outcome r; settled_at = at })
                      db.dispatches)))
unfolding new_receipt
new_receipt_effect db attempt r at proposal existing h =
    let (w, e, rest) = >>=-eq-ok _ _ h in
    let (proposals, f, rest') = >>=-eq-ok (move_proposal db r proposal) _ rest in
    let (after, g, last) = >>=-eq-ok (settle_latest_dispatch _ attempt r at) _ rest' in
    let e' = settle_latest_effect _ attempt r at g in (w.0, w.1, e, ground arith, ground arith)

pub new_receipt-IsJournal :
    (db : Database) (attempt : String) (r : ActionReceipt) (at : IsoTimestamp)
    (proposal : ActionProposal) (existing : Option StoredReceipt)
    {x : ActionExecutionReceiptWriteResult} {db' : Database}
    → new_receipt db attempt r at proposal existing ≡ ok (x, db')
    → IsJournal db.dispatches
    → IsJournal db'.dispatches
new_receipt-IsJournal db attempt r at proposal existing e h =
    let (_, _, _, _, effect) = new_receipt_effect db attempt r at proposal existing e in
    elim effect [
      | inl same ↦ rw same h
      | inr (l, found, after) ↦ rw after (
          IsJournal-settle attempt l.ordinal _ db.dispatches h
            (ground (arith, latest_dispatch-count attempt db.dispatches h)))
    ]

-- A receipt that leaves nothing open is not written over.
pub new_receipt-terminal :
    (db : Database) (attempt : String) (r : ActionReceipt) (at : IsoTimestamp)
    (proposal : ActionProposal) (existing : Option StoredReceipt)
    {x : ActionExecutionReceiptWriteResult} {db' : Database} (k : String) (s : StoredReceipt)
    → new_receipt db attempt r at proposal existing ≡ ok (x, db')
    → read_receipt_in_snapshot db attempt ≡ ok existing
    → receipt_row db k ≡ some s
    → terminal (some s) ≡ true
    → receipt_row db' k ≡ some s
unfolding receipt_row
new_receipt-terminal db attempt r at proposal existing k s e read found t =
    let (_, rows, write, after, _) = new_receipt_effect db attempt r at proposal existing e in
    rw after (write_receipt_row-terminal db attempt r proposal existing k s rows write read found t)

pub record_receipt_effect :
    (db : Database) (attempt : String) (r : ActionReceipt) (at : IsoTimestamp)
    (proposal : ActionProposal) (existing : Option StoredReceipt)
    {x : ActionExecutionReceiptWriteResult} {db' : Database}
    → record_receipt db attempt r at proposal existing ≡ ok (x, db')
    → (db' ≡ db) ⊎ (new_receipt db attempt r at proposal existing ≡ ok (x, db'))
unfolding record_receipt repeated_receipt
record_receipt_effect db attempt r at proposal none h = inr h
record_receipt_effect db attempt r at proposal (some e) h = ground arith
