-- ===== src/Storage/Audit/Append.antt =====
-- packages/storage-sqlite/src/audit-timeline.ts: whole batches, appended once and again, and any history
-- of appends.
use twindesk.Prelude.{
  sym, String, ℕ, suc, ◌≡◌, refl, ap, ◌∙◌, true, List, some, [], ◌∷◌, arith, length, All,
}
use twindesk.Result.{ok, >>=-eq-ok, throw_unless, rethrow, rethrow-eq-ok}
use twindesk.Domain.Audit.{AuditRecord, audit_record_at, parse_audit_record}
use twindesk.Domain.Parsers.{is_nonempty}
use twindesk.Storage.Database.{Database, committed, committed-keeps}
use twindesk.Storage.Audit.{
  AuditDisposition, duplicate, AuditAppendItem, AuditAppendResult, catch_audit, audit_row,
  append_record, append_from, with_append, parse_audit_batch, append_audit_records_in_transaction,
  append_audit_records,
}
use twindesk.Storage.Audit.Repeat.{
  IsRecorded, append_record-keeps_row, append_record-records, append_record-keeps,
  append_record-again,
}

-- What the append of a batch of recorded records returns.
unfoldable pub repeated_items : ℕ → List AuditRecord → List AuditAppendItem
repeated_items index [] = []
repeated_items index (a ∷ as') =
    record { input_index = index; disposition = duplicate } ∷ repeated_items (suc index) as'

unfoldable pub all_repeated : ℕ → List AuditRecord → AuditAppendResult
unfolding repeated_items
all_repeated index as' = record {
  inserted_count = 0;
  duplicate_count = length as';
  items = repeated_items index as';
}

-- One turn of the loop and the turns after it.
abbrev pub Turn :
    Database → ℕ → AuditRecord → List AuditRecord → AuditAppendResult → Database → Type 0
Turn db index a as' r db' =
    (d : AuditDisposition) × (mid : Database) × (rest : AuditAppendResult) × (append_record db a
      ≡ ok (d, mid))
    × (append_from mid (suc index) as' ≡ ok (rest, db'))
    × (r ≡ with_append index d rest)

pub append_from-Turn :
    (db : Database) (index : ℕ) (a : AuditRecord) (as' : List AuditRecord) (r : AuditAppendResult)
    (db' : Database)
    → append_from db index (a ∷ as') ≡ ok (r, db')
    → Turn db index a as' r db'
unfolding append_from
append_from-Turn db index a as' r db' h =
    let (first, h₁, h₂) = >>=-eq-ok (append_record db a) _ h in
    let (rest, h₃, h₄) = >>=-eq-ok (append_from first.1 (suc index) as') _ h₂ in
    (first.0, first.1, rest.0, ground arith, ground arith, ground arith)

append_from-keeps :
    (db : Database) (index : ℕ) (a : AuditRecord) (as' : List AuditRecord) (r : AuditAppendResult)
    (db' : Database)
    → IsRecorded db a
    → append_from db index as' ≡ ok (r, db')
    → IsRecorded db' a
unfolding append_from
append_from-keeps db index a [] r db' k h = let same : db' ≡ db = ground arith in rw same k
append_from-keeps db index a (b ∷ bs) r db' k h =
    let (d, mid, rest, h₁, h₂, _) = append_from-Turn db index b bs r db' h in
    append_from-keeps mid (suc index) a bs rest db' (append_record-keeps db a b d mid k h₁) h₂

append_from-keeps_row :
    (db : Database) (index : ℕ) (id : String) (row : AuditRecord) (as' : List AuditRecord)
    (r : AuditAppendResult) (db' : Database)
    → audit_row db id ≡ some row
    → append_from db index as' ≡ ok (r, db')
    → audit_row db' id ≡ some row
unfolding append_from
append_from-keeps_row db index id row [] r db' f h = let same : db' ≡ db = ground arith in rw same f
append_from-keeps_row db index id row (b ∷ bs) r db' f h =
    let (d, mid, rest, h₁, h₂, _) = append_from-Turn db index b bs r db' h in
    append_from-keeps_row mid (suc index) id row bs rest db'
      (append_record-keeps_row db b row id d mid f h₁) h₂

append_from-records :
    (db : Database) (index : ℕ) (as' : List AuditRecord) (r : AuditAppendResult) (db' : Database)
    → All (λ a. audit_record_at a ≡ true) as'
    → append_from db index as' ≡ ok (r, db')
    → All (IsRecorded db') as'
append_from-records db index [] r db' v h = tt
append_from-records db index (a ∷ as') r db' v h =
    let (d, mid, rest, h₁, h₂, _) = append_from-Turn db index a as' r db' h in
    (
      append_from-keeps mid (suc index) a as' rest db' (append_record-records db a d mid v.0 h₁) h₂,
      append_from-records mid (suc index) as' rest db' v.1 h₂,
    )

append_from-again :
    (db : Database) (index : ℕ) (as' : List AuditRecord)
    → All (IsRecorded db) as'
    → append_from db index as' ≡ ok (all_repeated index as', db)
unfolding append_from all_repeated
append_from-again db index [] k = refl
append_from-again db index (a ∷ as') k =
    rw (append_record-again db a k.0) (rw (append_from-again db (suc index) as' k.1) refl)

parse_audit_batch_same :
    (input as' : List AuditRecord)
    → parse_audit_batch input ≡ ok as'
    → (as' ≡ input) × All (λ a. audit_record_at a ≡ true) input
unfolding parse_audit_batch parse_audit_record
parse_audit_batch_same [] as' h = ground arith
parse_audit_batch_same (a ∷ input) as' h =
    let (first, h₁, h₂) = >>=-eq-ok (rethrow _ (parse_audit_record a)) _ h in
    let (rest, h₃, h₄) = >>=-eq-ok (parse_audit_batch input) _ h₂ in
    let ih = parse_audit_batch_same input rest h₃ in (ground arith, (ground arith, ih.1))

-- What a successful append has checked and done.
pub append_audit_records_effect :
    (db : Database) (batch : List AuditRecord) (r : AuditAppendResult) (db' : Database)
    → append_audit_records db batch ≡ ok (r, db')
    → (is_nonempty batch ≡ true)
      × (parse_audit_batch batch ≡ ok batch)
      × (append_from db 0 batch ≡ ok (r, db'))
unfolding append_audit_records append_audit_records_in_transaction
append_audit_records_effect db batch r db' h =
    let h₁ = rethrow-eq-ok catch_audit (append_audit_records_in_transaction db batch) h in
    let (_, h₂, h₃) = >>=-eq-ok (throw_unless (is_nonempty batch) _) _ h₁ in
    let (parsed, h₄, h₅) = >>=-eq-ok (parse_audit_batch batch) _ h₃ in
    let same = (parse_audit_batch_same batch parsed h₄).0 in
    (ground arith, h₄ ∙ ap ok same, rw (sym same) h₅)

-- A batch of audit records that was appended is appended again without an error, as duplicates all,
-- and the database stays as it is.
pub append_audit_records-again :
    (db : Database) (batch : List AuditRecord) (r : AuditAppendResult) (db' : Database)
    → append_audit_records db batch ≡ ok (r, db')
    → append_audit_records db' batch ≡ ok (all_repeated 0 batch, db')
unfolding append_audit_records append_audit_records_in_transaction
append_audit_records-again db batch r db' h =
    let (some_record, parses, appended) = append_audit_records_effect db batch r db' h in
    let valid = (parse_audit_batch_same batch batch parses).1 in
    let known = append_from-records db 0 batch r db' valid appended in
    rw some_record (rw parses (rw (append_from-again db' 0 batch known) refl))

-- A history of appends, refused ones included.
unfoldable pub appends : Database → List (List AuditRecord) → Database
unfolding append_audit_records
appends db [] = db
appends db (batch ∷ rest) = appends (committed db (append_audit_records db batch)) rest

-- Over any history of appends, refused ones included, a stored audit record stays stored as it is.
pub appends-keeps_row :
    (db : Database) (history : List (List AuditRecord)) (id : String) (row : AuditRecord)
    → audit_row db id ≡ some row
    → audit_row (appends db history) id ≡ some row
unfolding appends
appends-keeps_row db [] id row f = f
appends-keeps_row db (batch ∷ rest) id row f =
    appends-keeps_row (committed db (append_audit_records db batch)) rest id row (
      committed-keeps (λ x. audit_row x id ≡ some row) db (append_audit_records db batch) f
        (λ r db' h.
          append_from-keeps_row db 0 id row batch r db' f
            (append_audit_records_effect db batch r db' h).2))
