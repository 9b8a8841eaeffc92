-- ===== src/Storage/Audit/Documented.antt =====
-- packages/storage-sqlite/src/audit-timeline.ts: the references of stored audit records after any history
-- of appends.
use twindesk.Prelude.{ℕ, suc, ◌≡◌, inl, inr, List, [], ◌∷◌, String, arith, All}
use twindesk.Time.{IsoTimestamp}
use twindesk.Result.{ok}
use twindesk.Domain.Audit.{
  AuditReferenceKind, connector, external_event, external_thread, work_item, session, run,
  tool_call, draft, action_proposal, approval_record, action_receipt, connector_cursor,
  AuditReference, AuditRecord,
}
use twindesk.Storage.Database.{Database, committed, committed-keeps}
use twindesk.Storage.Audit.{
  AuditDisposition, AuditAppendResult, stored_audit, append_record, append_from,
  append_audit_records,
}
use twindesk.Storage.Audit.Repeat.{with_audit, append_record_effect}
use twindesk.Storage.Audit.Append.{appends, append_audit_records_effect, append_from-Turn}
use twindesk.Storage.Audit.Checked.{IsThere, IsDocumented, validate_references-IsDocumented}

-- Every reference of every stored audit record is there.
abbrev pub AreDocumented : Database → Type 0
AreDocumented db = All (IsDocumented db) db.audit_records

module _ (db : Database) (new : AuditRecord) where
  IsThere-later :
      (refs : List AuditReference) (at : IsoTimestamp) (kind : AuditReferenceKind) (id : String)
      → IsThere db refs at kind id
      → IsThere (with_audit db new) refs at kind id
  IsThere-later refs at external_event id h = h
  IsThere-later refs at external_thread id h = h
  IsThere-later refs at work_item id h = h
  IsThere-later refs at draft id h = h
  IsThere-later refs at action_proposal id h = h
  IsThere-later refs at approval_record id h = h
  IsThere-later refs at action_receipt id h = h
  IsThere-later refs at connector_cursor id h = h
  IsThere-later refs at connector id h = tt
  IsThere-later refs at session id h = tt
  IsThere-later refs at run id h = tt
  IsThere-later refs at tool_call id h = tt

  references_later :
      (all_refs refs : List AuditReference) (at : IsoTimestamp)
      → All (λ r. IsThere db all_refs at r.kind r.id) refs
      → All (λ r. IsThere (with_audit db new) all_refs at r.kind r.id) refs
  references_later all_refs [] at h = tt
  references_later all_refs (r ∷ refs) at h =
      (IsThere-later all_refs at r.kind r.id h.0, references_later all_refs refs at h.1)

  AreDocumented-later :
      (rows : List AuditRecord)
      → All (IsDocumented db) rows
      → All (IsDocumented (with_audit db new)) rows
  AreDocumented-later [] h = tt
  AreDocumented-later (a ∷ rows) h =
      (references_later a.references a.references a.occurred_at h.0, AreDocumented-later rows h.1)

append_record-AreDocumented :
    (db : Database) (a : AuditRecord) (d : AuditDisposition) (db' : Database)
    → AreDocumented db
    → append_record db a ≡ ok (d, db')
    → AreDocumented db'
unfolding stored_audit
append_record-AreDocumented db a d db' h e = elim (append_record_effect db a d db' e) [
  | inl (_, checked, _, at) ↦
      let is_there = validate_references-IsDocumented db a checked in
      rw at (
        references_later db a a.references a.references a.occurred_at is_there,
        AreDocumented-later db a db.audit_records h,
      )
  | inr (_, _, _, _, _, same) ↦ rw same h
]

append_from-AreDocumented :
    (db : Database) (index : ℕ) (as' : List AuditRecord) (r : AuditAppendResult) (db' : Database)
    → AreDocumented db
    → append_from db index as' ≡ ok (r, db')
    → AreDocumented db'
unfolding append_from
append_from-AreDocumented db index [] r db' h e = let same : db' ≡ db = ground arith in rw same h
append_from-AreDocumented db index (a ∷ as') r db' h e =
    let (d, mid, rest, h₁, h₂, _) = append_from-Turn db index a as' r db' e in
    append_from-AreDocumented mid (suc index) as' rest db'
      (append_record-AreDocumented db a d mid h h₁) h₂

-- Over any history of appends, refused ones included, it stays so that each reference of a stored
-- audit record to a table of the database names a row there, which is not later than the record, and
-- that a reference to a draft, proposal, approval or receipt comes with one to its work item.
pub appends-AreDocumented :
    (db : Database) (history : List (List AuditRecord))
    → AreDocumented db
    → AreDocumented (appends db history)
unfolding appends
appends-AreDocumented db [] h = h
appends-AreDocumented db (batch ∷ rest) h =
    appends-AreDocumented (committed db (append_audit_records db batch)) rest (
      committed-keeps AreDocumented db (append_audit_records db batch) h (λ r db' e.
        append_from-AreDocumented db 0 batch r db' h
          (append_audit_records_effect db batch r db' e).2))
