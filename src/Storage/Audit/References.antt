-- ===== src/Storage/Audit/References.antt =====
-- packages/storage-sqlite/src/audit-timeline.ts: `resolveLocalReference` and `validateReferences`.
use twindesk.Prelude.{
  Bool, false, not, ◌&&◌, ◌||◌, Option, none, some, List, [], ◌∷◌, String, any, ltb, ◌==◌, ◌!=◌,
  string_eq, if◌then◌else◌,
}
use twindesk.Time.{IsoTimestamp, date_parse}
use twindesk.Result.{Result, ok, Thrown, audit_timeline, ◌>>◌, throw_if, throw_unless}
use twindesk.Result.{AuditTimelineCode as Code}
use twindesk.Domain.Records.{WorkItem}
use twindesk.Domain.Audit.{
  AuditReferenceKind, external_event, external_thread, work_item, session, run, tool_call, draft,
  action_proposal, approval_record, action_receipt, connector_cursor, AuditReference, AuditRecord,
  audit_reference_kind_eq,
}
use twindesk.Domain.Parsers.{is_nonempty}
use twindesk.Storage.Table.{find, select}
use twindesk.Storage.Database.{Database}
use twindesk.Storage.Projection.Rows.{contains}

abbrev pub fail : Code → Thrown
fail = audit_timeline

-- A row of the SELECTs below; a LEFT JOIN without a match has no work item.
pub record RelatedRow : Type 0 where
  pub work_item_id : Option String
  pub earliest_at : IsoTimestamp

pub record ResolvedReference : Type 0 where
  pub exists : Bool
  pub work_item_ids : List String
  pub earliest_at : Option IsoTimestamp

abbrev pub map_list {ℓ κ} : {A : Type ℓ} {B : Type κ} → (A → B) → List A → List B
map_list f [] = []
map_list f (x ∷ xs) = f x ∷ map_list f xs

abbrev pub option_rows {ℓ} : {A : Type ℓ} → (A → List RelatedRow) → Option A → List RelatedRow
option_rows f none = []
option_rows f (some a) = f a

abbrev pub joined : IsoTimestamp → List WorkItem → List RelatedRow
joined at [] = record { work_item_id = none; earliest_at = at } ∷ []
joined at (w ∷ ws) = map_list (λ v. record { work_item_id = some v.id; earliest_at = at }) (w ∷ ws)

abbrev pub one_row : Option String → IsoTimestamp → List RelatedRow
one_row item at = record { work_item_id = item; earliest_at = at } ∷ []

-- `new Set(ids)`; no result depends on its order.
unfoldable pub unique : List String → List String
unique [] = []
unique (id ∷ ids) = let rest = unique ids in if contains rest id then rest else id ∷ rest

unfoldable pub item_ids : List RelatedRow → List String
item_ids [] = []
item_ids (r ∷ rows) =
    let rest = item_ids rows in elim r.work_item_id [ none ↦ rest | some id ↦ id ∷ rest ]

abbrev earlier : Option IsoTimestamp → IsoTimestamp → Option IsoTimestamp
earlier none at = some at
earlier (some best) at = if ltb (date_parse at) (date_parse best) then some at else some best

unfoldable pub earliest_of : Option IsoTimestamp → List RelatedRow → Option IsoTimestamp
earliest_of best [] = best
earliest_of best (r ∷ rows) = earliest_of (earlier best r.earliest_at) rows

unfoldable pub resolution_from_rows : List RelatedRow → ResolvedReference
unfolding unique item_ids earliest_of
resolution_from_rows rows = record {
  exists = is_nonempty rows;
  work_item_ids = unique (item_ids rows);
  earliest_at = earliest_of none rows;
}

unfoldable pub related_rows : Database → AuditReferenceKind → String → Option (List RelatedRow)
unfolding find select
related_rows db external_event id = some (
    option_rows
      (λ e. joined e.received_at (select (λ w. contains w.source_event_ids e.id) db.work_items))
      (find (λ e. e.id) id db.events))
related_rows db external_thread id = some (
    option_rows (λ t. joined t.created_at (select (λ w. w.thread_id == t.id) db.work_items))
      (find (λ t. t.id) id db.threads))
related_rows db work_item id =
    some (option_rows (λ w. one_row (some w.id) w.created_at) (find (λ w. w.id) id db.work_items))
related_rows db draft id =
    some (
      option_rows (λ d. one_row (some d.work_item_id) d.created_at) (find (λ d. d.id) id db.drafts))
related_rows db action_proposal id = some (
    option_rows (λ p. one_row (some p.work_item_id) p.created_at)
      (find (λ p. p.id) id db.proposals))
related_rows db approval_record id = some (
    option_rows
      (λ a.
        option_rows (λ p. one_row (some p.work_item_id) a.requested_at)
          (find (λ p. p.id) a.proposal_id db.proposals))
      (find (λ a. a.id) id db.approvals))
related_rows db action_receipt id = some (
    option_rows
      (λ s.
        option_rows (λ p. one_row (some p.work_item_id) s.receipt.attempted_at)
          (find (λ p. p.id) s.receipt.proposal_id db.proposals))
      (find (λ s. s.execution_attempt_id) id db.receipts))
related_rows db connector_cursor id =
    some (option_rows (λ c. one_row none c.updated_at) (find (λ c. c.id) id db.cursors))
related_rows db _ id = none

unfoldable pub resolve_local_reference : Database → AuditReference → Option ResolvedReference
unfolding related_rows resolution_from_rows
resolve_local_reference db r = elim (related_rows db r.kind r.id) [
  | none ↦ none
  | some rows ↦ some (resolution_from_rows rows)
]

unfoldable pub ids_of_kind : AuditReferenceKind → List AuditReference → List String
ids_of_kind kind [] = []
ids_of_kind kind (r ∷ rs) =
    let rest = ids_of_kind kind rs in if r.kind == kind then r.id ∷ rest else rest

-- The work items of one record belong to one thread.
unfoldable pub assert_one_thread : Database → Option String → List String → Result (Unit {0})
unfolding find
assert_one_thread db owner [] = ok tt
assert_one_thread db owner (id ∷ ids) = elim (find (λ w. w.id) id db.work_items) [
  | none ↦ assert_one_thread db owner ids
  | some w ↦ elim owner [
    | none ↦ assert_one_thread db (some w.thread_id) ids
    | some thread ↦
        throw_if (w.thread_id != thread) (fail Code.reference_mismatch)
        >> assert_one_thread db (some w.thread_id) ids
  ]
]

abbrev pub has_kind : List AuditReference → AuditReferenceKind → Bool
has_kind rs kind = any (λ r. r.kind == kind) rs

unfoldable pub assert_kinds : List AuditReference → List String → Result (Unit {0})
assert_kinds rs items = do
  throw_if
      ((has_kind rs session || has_kind rs run || has_kind rs tool_call) && not (is_nonempty items))
      (fail Code.reference_mismatch)
  throw_if
      ((has_kind rs draft
          || has_kind rs action_proposal
          || has_kind rs approval_record
          || has_kind rs action_receipt)
        && not (is_nonempty items))
      (fail Code.reference_mismatch)
  throw_if (has_kind rs run && not (has_kind rs session)) (fail Code.reference_mismatch)
  throw_if (has_kind rs tool_call && not (has_kind rs run)) (fail Code.reference_mismatch)

abbrev pub before : IsoTimestamp → Option IsoTimestamp → Bool
before at none = false
before at (some earliest) = ltb (date_parse at) (date_parse earliest)

unfoldable pub validate_resolved :
    AuditRecord → List String → AuditReference → ResolvedReference → Result (Unit {0})
validate_resolved a items r resolved = do
  throw_unless resolved.exists (fail Code.missing_reference)
  throw_if
      (is_nonempty items && r.kind != connector_cursor && not (is_nonempty resolved.work_item_ids))
      (fail Code.reference_mismatch)
  throw_if
      (is_nonempty items
        && is_nonempty resolved.work_item_ids
        && not (any (contains items) resolved.work_item_ids))
      (fail Code.reference_mismatch)
  throw_if (before a.occurred_at resolved.earliest_at) (fail Code.reference_chronology)

-- A reference to what is stored elsewhere is not resolved.
unfoldable pub validate_found :
    AuditRecord → List String → AuditReference → Option ResolvedReference → Result (Unit {0})
unfolding validate_resolved
validate_found a items r none = ok tt
validate_found a items r (some resolved) = validate_resolved a items r resolved

unfoldable pub validate_each :
    Database → AuditRecord → List String → List AuditReference → Result (Unit {0})
unfolding resolve_local_reference validate_found
validate_each db a items [] = ok tt
validate_each db a items (r ∷ rs) = do
  validate_found a items r (resolve_local_reference db r)
  validate_each db a items rs

unfoldable pub validate_references : Database → AuditRecord → Result (Unit {0})
unfolding unique ids_of_kind assert_one_thread assert_kinds validate_each
validate_references db a = do
  let items = unique (ids_of_kind work_item a.references)
  assert_one_thread db none items
  assert_kinds a.references items
  validate_each db a items a.references
