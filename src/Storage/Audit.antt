-- ===== src/Storage/Audit.antt =====
-- packages/storage-sqlite/src/audit-timeline.ts: `appendAuditRecords` and what it reads. A stored
-- record is the record with its details in canonical form, and the rows of its references in their
-- order. The index that an error names is not kept.
pub mod References
pub mod Repeat
pub mod Append
pub mod Checked
pub mod Documented
pub mod Timeline
pub mod TimelinePage
use twindesk.Prelude.{
  ℕ, suc, Bool, true, false, ◌&&◌, Option, none, some, List, [], ◌∷◌, String, ◌==◌, string_eq,
}
use twindesk.Result.{
  Result, ok, err, Thrown, audit_timeline, ◌>>=◌, ◌>>◌, throw_if, throw_unless, rethrow,
}
use twindesk.Result.{AuditTimelineCode as Code}
use twindesk.Domain.Json.{canonical, canonical_members, same_members}
use twindesk.Domain.Audit.{
  AuditReference, AuditRecord, audit_category_eq, audit_outcome_eq, audit_actor_eq,
  same_audit_reference, parse_audit_record,
}
use twindesk.Domain.Parsers.{is_nonempty}
use twindesk.Domain.Validation.{string_at}
use twindesk.Storage.Table.{find, insert}
use twindesk.Storage.Database.{Database}
use twindesk.Storage.Audit.References.{fail, validate_references}

pub data AuditDisposition : Type 0 where
  inserted duplicate : AuditDisposition

pub record AuditAppendItem : Type 0 where
  pub input_index : ℕ
  pub disposition : AuditDisposition

pub record AuditAppendResult : Type 0 where
  pub inserted_count : ℕ
  pub duplicate_count : ℕ
  pub items : List AuditAppendItem

abbrev pub catch_audit : Thrown → Thrown
catch_audit (audit_timeline code) = audit_timeline code
catch_audit _ = audit_timeline Code.storage_error

unfoldable pub audit_row : Database → String → Option AuditRecord
audit_row db id = find (λ a. a.id) id db.audit_records

unfoldable pub parse_stored_audit_record : AuditRecord → Result AuditRecord
unfolding parse_audit_record
parse_stored_audit_record row =
    rethrow (λ _. fail Code.stored_record_invalid) (parse_audit_record row)

unfoldable pub read_audit_in_snapshot : Database → String → Result (Option AuditRecord)
unfolding audit_row parse_stored_audit_record
read_audit_in_snapshot db id = elim (audit_row db id) [
  | none ↦ ok none
  | some row ↦ (parse_stored_audit_record row >>= λ a. ok (some a))
]

unfoldable pub read_audit_record : Database → String → Result (Option AuditRecord)
unfolding read_audit_in_snapshot
read_audit_record db id = do
  throw_unless (string_at id) (fail Code.invalid_request)
  rethrow catch_audit (read_audit_in_snapshot db id)

unfoldable pub same_references : List AuditReference → List AuditReference → Bool
same_references [] [] = true
same_references (r ∷ rs) (s ∷ ss) = same_audit_reference r s && same_references rs ss
same_references _ _ = false

unfoldable pub same_audit_record : AuditRecord → AuditRecord → Bool
unfolding same_references canonical same_members
same_audit_record left right =
    left.id == right.id
    && left.category == right.category
    && left.outcome == right.outcome
    && left.actor == right.actor
    && left.summary == right.summary
    && left.occurred_at == right.occurred_at
    && same_members (canonical_members left.details) (canonical_members right.details)
    && same_references left.references right.references

-- The row that the INSERTs write.
unfoldable pub stored_audit : AuditRecord → AuditRecord
unfolding canonical
stored_audit a = record a { details = canonical_members a.details }

unfoldable pub write_audit_record : Database → AuditRecord → Result Database
unfolding insert stored_audit
write_audit_record db a = insert (λ r. r.id) (stored_audit a) db.audit_records >>= λ rows.
    ok (record db { audit_records = rows })

-- The body of the loop, at what is stored under the record's id.
unfoldable pub append_at :
    Database → AuditRecord → Option AuditRecord → Result (AuditDisposition × Database)
unfolding same_audit_record validate_references write_audit_record
append_at db a (some existing) = do
  throw_unless (same_audit_record existing a) (fail Code.record_conflict)
  ok (duplicate, db)
append_at db a none = do
  validate_references db a
  write_audit_record db a >>= λ db'. ok (inserted, db')

unfoldable pub append_record : Database → AuditRecord → Result (AuditDisposition × Database)
unfolding read_audit_in_snapshot append_at
append_record db a = read_audit_in_snapshot db a.id >>= λ existing. append_at db a existing

abbrev pub with_append : ℕ → AuditDisposition → AuditAppendResult → AuditAppendResult
with_append index inserted r = record {
  inserted_count = suc r.inserted_count;
  duplicate_count = r.duplicate_count;
  items = record { input_index = index; disposition = inserted } ∷ r.items;
}
with_append index duplicate r = record {
  inserted_count = r.inserted_count;
  duplicate_count = suc r.duplicate_count;
  items = record { input_index = index; disposition = duplicate } ∷ r.items;
}

unfoldable pub append_from : Database → ℕ → List AuditRecord → Result (AuditAppendResult × Database)
unfolding append_record
append_from db index [] = ok (record { inserted_count = 0; duplicate_count = 0; items = [] }, db)
append_from db index (a ∷ as') = do
  step ← append_record db a
  rest ← append_from step.1 (suc index) as'
  ok (with_append index step.0 rest.0, rest.1)

unfoldable pub parse_audit_batch : List AuditRecord → Result (List AuditRecord)
parse_audit_batch [] = ok []
parse_audit_batch (a ∷ as') = do
  first ← rethrow (λ _. fail Code.invalid_request) (parse_audit_record a)
  rest ← parse_audit_batch as'
  ok (first ∷ rest)

unfoldable pub append_audit_records_in_transaction :
    Database → List AuditRecord → Result (AuditAppendResult × Database)
unfolding parse_audit_batch append_from
append_audit_records_in_transaction db inputs = do
  throw_unless (is_nonempty inputs) (fail Code.invalid_request)
  records ← parse_audit_batch inputs
  append_from db 0 records

unfoldable pub append_audit_records :
    Database → List AuditRecord → Result (AuditAppendResult × Database)
unfolding append_audit_records_in_transaction
append_audit_records db inputs = rethrow catch_audit (append_audit_records_in_transaction db inputs)
