-- ===== src/Storage/Audit/Repeat.antt =====
-- packages/storage-sqlite/src/audit-timeline.ts: what the append of a record leaves, and appending again
-- what is stored.
use twindesk.Prelude.{
  ◌≡◌, refl, ap, ◌∙◌, ◌⊎◌, inl, inr, true, Option, none, some, List, [], ◌∷◌, String, arith,
  string_eq,
}
use twindesk.Result.{ok, >>=-eq-ok}
use twindesk.Domain.Json.{canonical, canonical_members, object}
use twindesk.Domain.Json.Canonical.{
  canonical_members-canonical_members, same_members_refl, json_at-canonical,
}
use twindesk.Domain.Audit.{
  AuditReference, AuditRecord, audit_record_at, parse_audit_record, audit_reference_kind_eq,
  audit_category_eq, audit_outcome_eq, audit_actor_eq,
}
use twindesk.Storage.Table.{find, insert, find_here, find_there}
use twindesk.Storage.Database.{Database}
use twindesk.Storage.Audit.References.{validate_references}
use twindesk.Storage.Audit.{
  AuditDisposition, inserted, duplicate, audit_row, parse_stored_audit_record,
  read_audit_in_snapshot, same_references, same_audit_record, stored_audit, write_audit_record,
  append_at, append_record,
}

abbrev pub with_audit : Database → AuditRecord → Database
with_audit db a = record db { audit_records = stored_audit a ∷ db.audit_records }

same_references_refl : (rs : List AuditReference) → same_references rs rs ≡ true
unfolding same_references
same_references_refl [] = refl
same_references_refl (r ∷ rs) = ground (arith, same_references_refl rs)

same_audit_record-stored_audit : (a : AuditRecord) → same_audit_record (stored_audit a) a ≡ true
unfolding same_audit_record stored_audit
same_audit_record-stored_audit a = rw (canonical_members-canonical_members a.details) (
    ground
      (arith, same_members_refl (canonical_members a.details), same_references_refl a.references))

audit_record_at-stored_audit :
    (a : AuditRecord) → audit_record_at (stored_audit a) ≡ audit_record_at a
unfolding audit_record_at stored_audit canonical
audit_record_at-stored_audit a = rw (json_at-canonical 0 (object a.details)) refl

write_audit_record_effect :
    (db db' : Database) (a : AuditRecord)
    → write_audit_record db a ≡ ok db'
    → (audit_row db a.id ≡ none) × (db' ≡ with_audit db a)
unfolding write_audit_record insert audit_row stored_audit
write_audit_record_effect db db' a h = ground arith

-- The two outcomes of one turn of the loop.
abbrev pub AppendsNew : Database → AuditRecord → AuditDisposition → Database → Type 0
AppendsNew db a d db' =
    (audit_row db a.id ≡ none)
    × (validate_references db a ≡ ok tt)
    × (d ≡ inserted)
    × (db' ≡ with_audit db a)

abbrev pub AppendsAgain : Database → AuditRecord → AuditDisposition → Database → Type 0
AppendsAgain db a d db' =
    (row : AuditRecord) × (audit_row db a.id ≡ some row)
    × (audit_record_at row ≡ true)
    × (same_audit_record row a ≡ true)
    × (d ≡ duplicate)
    × (db' ≡ db)

read_audit_effect :
    (db : Database) (id : String) (found : Option AuditRecord)
    → read_audit_in_snapshot db id ≡ ok found
    → audit_row db id ≡ found
unfolding read_audit_in_snapshot parse_stored_audit_record parse_audit_record
read_audit_effect db id found h = ground arith

read_audit_valid :
    (db : Database) (id : String) (row : AuditRecord)
    → read_audit_in_snapshot db id ≡ ok (some row)
    → audit_record_at row ≡ true
unfolding read_audit_in_snapshot parse_stored_audit_record parse_audit_record
read_audit_valid db id row h = ground arith

append_at_effect :
    (db : Database) (a : AuditRecord) (found : Option AuditRecord) (d : AuditDisposition)
    (db' : Database)
    → read_audit_in_snapshot db a.id ≡ ok found
    → append_at db a found ≡ ok (d, db')
    → AppendsNew db a d db' ⊎ AppendsAgain db a d db'
unfolding append_at
append_at_effect db a none d db' r h =
    let (_, h₁, h₂) = >>=-eq-ok (validate_references db a) _ h in
    let (mid, h₃, h₄) = >>=-eq-ok (write_audit_record db a) _ h₂ in
    let (new, at) = write_audit_record_effect db mid a h₃ in
    let is_last : db' ≡ mid = ground arith in inl (new, h₁, ground arith, is_last ∙ at)
append_at_effect db a (some row) d db' r h = inr (
  row,
  read_audit_effect db a.id (some row) r,
  read_audit_valid db a.id row r,
  ground arith,
  ground arith,
  ground arith,
)

pub append_record_effect :
    (db : Database) (a : AuditRecord) (d : AuditDisposition) (db' : Database)
    → append_record db a ≡ ok (d, db')
    → AppendsNew db a d db' ⊎ AppendsAgain db a d db'
unfolding append_record
append_record_effect db a d db' h =
    let (found, h₁, h₂) = >>=-eq-ok (read_audit_in_snapshot db a.id) _ h in
    append_at_effect db a found d db' h₁ h₂

-- The database holds a record: the row of its id is a valid record and says the same.
pub record IsRecorded (db : Database) (a : AuditRecord) : Type 0 where
  pub row : AuditRecord
  pub at : audit_row db a.id ≡ some row
  pub valid : audit_record_at row ≡ true
  pub same : same_audit_record row a ≡ true

-- A stored row is there after an append, as it is.
pub append_record-keeps_row :
    (db : Database) (a row : AuditRecord) (id : String) (d : AuditDisposition) (db' : Database)
    → audit_row db id ≡ some row
    → append_record db a ≡ ok (d, db')
    → audit_row db' id ≡ some row
unfolding audit_row stored_audit
append_record-keeps_row db a row id d db' f h = elim (append_record_effect db a d db' h) [
  | inl (new, _, _, at) ↦ rw at (
      find_there (λ r. r.id) id (stored_audit a) db.audit_records
        (λ same. ground (arith, f, new, ap (λ k. find (λ r. r.id) k db.audit_records) same))
      ∙ f)
  | inr (_, _, _, _, _, same) ↦ rw same f
]

pub append_record-records :
    (db : Database) (a : AuditRecord) (d : AuditDisposition) (db' : Database)
    → audit_record_at a ≡ true
    → append_record db a ≡ ok (d, db')
    → IsRecorded db' a
unfolding audit_row stored_audit
append_record-records db a d db' v h = elim (append_record_effect db a d db' h) [
  | inl (_, _, _, at) ↦ rw at (record {
    row = stored_audit a;
    at = find_here (λ r. r.id) a.id (stored_audit a) db.audit_records refl;
    valid = audit_record_at-stored_audit a ∙ v;
    same = same_audit_record-stored_audit a;
  })
  | inr (row, f, valid, equal, _, same) ↦
      rw same (record { row = row; at = f; valid = valid; same = equal })
]

pub append_record-keeps :
    (db : Database) (a b : AuditRecord) (d : AuditDisposition) (db' : Database)
    → IsRecorded db a
    → append_record db b ≡ ok (d, db')
    → IsRecorded db' a
append_record-keeps db a b d db' k h = record {
  row = k.row;
  at = append_record-keeps_row db b k.row a.id d db' k.at h;
  valid = k.valid;
  same = k.same;
}

read_again :
    (db : Database) (id : String) (row : AuditRecord)
    → audit_row db id ≡ some row
    → audit_record_at row ≡ true
    → read_audit_in_snapshot db id ≡ ok (some row)
unfolding read_audit_in_snapshot parse_stored_audit_record parse_audit_record
read_again db id row f v = ground arith

pub append_record-again :
    (db : Database) (a : AuditRecord) → IsRecorded db a → append_record db a ≡ ok (duplicate, db)
unfolding append_record append_at
append_record-again db a k = rw (read_again db a.id k.row k.at k.valid) (rw k.same refl)
