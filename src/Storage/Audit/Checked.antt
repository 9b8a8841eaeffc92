-- ===== src/Storage/Audit/Checked.antt =====
-- packages/storage-sqlite/src/audit-timeline.ts: what the references of the stored audit records name.
use twindesk.Prelude.{
  ◌≡◌, ◌≤◌, refl, ap, Bool, true, false, ◌&&◌, ◌||◌, Option, some, none, List, [], ◌∷◌, String,
  arith, All, any, ◌==◌, string_eq,
}
use twindesk.Time.{IsoTimestamp, date_parse}
use twindesk.Result.{ok, >>=-eq-ok}
use twindesk.Domain.Model.{ActionProposal, ApprovalRecord, Draft}
use twindesk.Domain.Records.{ExternalEvent, ExternalThread, WorkItem, ConnectorCursor}
use twindesk.Domain.Parsers.{is_nonempty}
use twindesk.Domain.Audit.{
  AuditReferenceKind, connector, external_event, external_thread, work_item, session, run,
  tool_call, draft, action_proposal, approval_record, action_receipt, connector_cursor,
  AuditReference, AuditRecord, audit_reference_kind_eq, AuditReferenceKind_discrete,
}
use twindesk.Storage.Table.{find}
use twindesk.Storage.Database.{Database, StoredReceipt}
use twindesk.Storage.Projection.Rows.{contains}
use twindesk.Storage.Audit.References.{
  RelatedRow, ResolvedReference, option_rows, joined, one_row, map_list, before, has_kind, unique,
  item_ids, earliest_of, resolution_from_rows, ids_of_kind, assert_one_thread, assert_kinds,
  related_rows, resolve_local_reference, validate_resolved, validate_found, validate_each,
  validate_references,
}

-- The references name a work item.
abbrev names : List AuditReference → String → Bool
names refs item = any (λ r. r.kind == work_item && r.id == item) refs

-- What a reference of a record of some time, among its references, names: a row of the table of its
-- kind, that is not later. Whatever belongs to a work item comes with a reference to that work item.
abbrev pub IsThere :
    Database → List AuditReference → IsoTimestamp → AuditReferenceKind → String → Type 0
IsThere db refs at external_event id =
    (e : ExternalEvent) × (find (λ e. e.id) id db.events ≡ some e)
    × (date_parse e.received_at ≤ date_parse at)
IsThere db refs at external_thread id =
    (t : ExternalThread) × (find (λ t. t.id) id db.threads ≡ some t)
    × (date_parse t.created_at ≤ date_parse at)
IsThere db refs at work_item id =
    (w : WorkItem) × (find (λ w. w.id) id db.work_items ≡ some w)
    × (date_parse w.created_at ≤ date_parse at)
IsThere db refs at draft id =
    (d : Draft) × (find (λ d. d.id) id db.drafts ≡ some d)
    × (date_parse d.created_at ≤ date_parse at)
    × (names refs d.work_item_id ≡ true)
IsThere db refs at action_proposal id =
    (p : ActionProposal) × (find (λ p. p.id) id db.proposals ≡ some p)
    × (date_parse p.created_at ≤ date_parse at)
    × (names refs p.work_item_id ≡ true)
IsThere db refs at approval_record id =
    (a : ApprovalRecord) × (p : ActionProposal) × (find (λ a. a.id) id db.approvals ≡ some a)
    × (find (λ p. p.id) a.proposal_id db.proposals ≡ some p)
    × (date_parse a.requested_at ≤ date_parse at)
    × (names refs p.work_item_id ≡ true)
IsThere db refs at action_receipt id =
    (s : StoredReceipt) × (p : ActionProposal) × (find (λ s. s.execution_attempt_id) id db.receipts
      ≡ some s)
    × (find (λ p. p.id) s.receipt.proposal_id db.proposals ≡ some p)
    × (date_parse s.receipt.attempted_at ≤ date_parse at)
    × (names refs p.work_item_id ≡ true)
IsThere db refs at connector_cursor id =
    (c : ConnectorCursor) × (find (λ c. c.id) id db.cursors ≡ some c)
    × (date_parse c.updated_at ≤ date_parse at)
IsThere db refs at connector id = Unit {0}
IsThere db refs at session id = Unit {0}
IsThere db refs at run id = Unit {0}
IsThere db refs at tool_call id = Unit {0}

-- All references of a record are there.
abbrev pub IsDocumented : Database → AuditRecord → Type 0
IsDocumented db a = All (λ r. IsThere db a.references a.occurred_at r.kind r.id) a.references

contains-unique :
    (id : String) (ids : List String) → contains (unique ids) id ≡ true → contains ids id ≡ true
unfolding unique
contains-unique id [] h = h
contains-unique id (x ∷ ids) h = ground (arith, contains-unique id ids)

contains-ids_of_kind :
    (id : String) (refs : List AuditReference)
    → contains (ids_of_kind work_item refs) id ≡ true
    → names refs id ≡ true
unfolding ids_of_kind
contains-ids_of_kind id [] h = cc
contains-ids_of_kind id (r ∷ refs) h = ground (arith, contains-ids_of_kind id refs)

abbrev items_of : AuditRecord → List String
items_of a = unique (ids_of_kind work_item a.references)

module _ (a : AuditRecord) (r : AuditReference) where
  abbrev Passes : List RelatedRow → Type 0
  Passes rows = validate_resolved a (items_of a) r (resolution_from_rows rows) ≡ ok tt

  rows_found {ℓ} :
      {A : Type ℓ} (rows : A → List RelatedRow) (o : Option A)
      → Passes (option_rows rows o)
      → (x : A) × (o ≡ some x) × Passes (rows x)
  unfolding validate_resolved resolution_from_rows
  rows_found rows none h = cc
  rows_found rows (some x) h = (x, refl, h)

  one_row_in_time :
      (item : Option String) (at : IsoTimestamp)
      → Passes (one_row item at)
      → date_parse at ≤ date_parse a.occurred_at
  unfolding validate_resolved resolution_from_rows unique item_ids earliest_of
  one_row_in_time item at h = ground arith

  one_row_contained :
      (items : List String) (item : String) (at : IsoTimestamp)
      → is_nonempty items ≡ true
      → validate_resolved a items r (resolution_from_rows (one_row (some item) at)) ≡ ok tt
      → contains items item ≡ true
  unfolding validate_resolved resolution_from_rows unique item_ids earliest_of
  one_row_contained items item at some_item h = ground arith

  one_row_named :
      (item : String) (at : IsoTimestamp)
      → is_nonempty (items_of a) ≡ true
      → Passes (one_row (some item) at)
      → names a.references item ≡ true
  one_row_named item at some_item h = contains-ids_of_kind item a.references (
      contains-unique item (ids_of_kind work_item a.references)
        (one_row_contained (items_of a) item at some_item h))

  earliest_of-rows :
      (at : IsoTimestamp) (ws : List WorkItem)
      → earliest_of
          (some at)
          (map_list (λ w. record { work_item_id = some w.id; earliest_at = at }) ws)
        ≡ some at
  unfolding earliest_of
  earliest_of-rows at [] = refl
  earliest_of-rows at (w ∷ ws) = ground (arith, earliest_of-rows at ws)

  earliest_of-joined :
      (at : IsoTimestamp) (ws : List WorkItem) → earliest_of none (joined at ws) ≡ some at
  unfolding earliest_of
  earliest_of-joined at [] = refl
  earliest_of-joined at (w ∷ ws) = earliest_of-rows at ws

  resolved_in_time :
      (items : List String) (found : ResolvedReference) (at : IsoTimestamp)
      → found.earliest_at ≡ some at
      → validate_resolved a items r found ≡ ok tt
      → date_parse at ≤ date_parse a.occurred_at
  unfolding validate_resolved
  resolved_in_time items found at e h =
      let not_before : before a.occurred_at found.earliest_at ≡ false = ground arith in
      ground (arith, ap (before a.occurred_at) e, not_before)

  joined_in_time :
      (at : IsoTimestamp) (ws : List WorkItem)
      → Passes (joined at ws)
      → date_parse at ≤ date_parse a.occurred_at
  unfolding resolution_from_rows
  joined_in_time at ws h =
      resolved_in_time (items_of a) (resolution_from_rows (joined at ws)) at
        (earliest_of-joined at ws) h

  -- The kinds of what belongs to a work item.
  abbrev is_owned : AuditReferenceKind → Bool
  is_owned kind =
      kind == draft || kind == action_proposal || kind == approval_record || kind == action_receipt

  reference_checked :
      (db : Database) (kind : AuditReferenceKind) (id : String)
      → (is_owned kind ≡ true → is_nonempty (items_of a) ≡ true)
      → validate_found a
          (items_of a)
          r
          (resolve_local_reference db (record { kind = kind; id = id }))
        ≡ ok tt
      → IsThere db a.references a.occurred_at kind id
  unfolding resolve_local_reference related_rows validate_found AuditReferenceKind_discrete
  reference_checked db external_event id n h =
      let (e, found, passes) = rows_found _ (find (λ e. e.id) id db.events) h in
      (e, found, joined_in_time e.received_at _ passes)
  reference_checked db external_thread id n h =
      let (t, found, passes) = rows_found _ (find (λ t. t.id) id db.threads) h in
      (t, found, joined_in_time t.created_at _ passes)
  reference_checked db work_item id n h =
      let (w, found, passes) = rows_found _ (find (λ w. w.id) id db.work_items) h in
      (w, found, one_row_in_time (some w.id) w.created_at passes)
  reference_checked db draft id n h =
      let (d, found, passes) = rows_found _ (find (λ d. d.id) id db.drafts) h in
      (
        d,
        found,
        one_row_in_time (some d.work_item_id) d.created_at passes,
        one_row_named d.work_item_id d.created_at (n refl) passes,
      )
  reference_checked db action_proposal id n h =
      let (p, found, passes) = rows_found _ (find (λ p. p.id) id db.proposals) h in
      (
        p,
        found,
        one_row_in_time (some p.work_item_id) p.created_at passes,
        one_row_named p.work_item_id p.created_at (n refl) passes,
      )
  reference_checked db approval_record id n h =
      let (x, found, inner) = rows_found _ (find (λ x. x.id) id db.approvals) h in
      let (p, of, passes) = rows_found _ (find (λ p. p.id) x.proposal_id db.proposals) inner in
      (
        x,
        p,
        found,
        of,
        one_row_in_time (some p.work_item_id) x.requested_at passes,
        one_row_named p.work_item_id x.requested_at (n refl) passes,
      )
  reference_checked db action_receipt id n h =
      let (s, found, inner) = rows_found _ (find (λ s. s.execution_attempt_id) id db.receipts) h in
      let (p, of, passes) =
        rows_found _ (find (λ p. p.id) s.receipt.proposal_id db.proposals) inner in
      (
        s,
        p,
        found,
        of,
        one_row_in_time (some p.work_item_id) s.receipt.attempted_at passes,
        one_row_named p.work_item_id s.receipt.attempted_at (n refl) passes,
      )
  reference_checked db connector_cursor id n h =
      let (c, found, passes) = rows_found _ (find (λ c. c.id) id db.cursors) h in
      (c, found, one_row_in_time none c.updated_at passes)
  reference_checked db connector id n h = tt
  reference_checked db session id n h = tt
  reference_checked db run id n h = tt
  reference_checked db tool_call id n h = tt

abbrev owns : List AuditReference → Bool
owns refs =
    has_kind refs draft
    || has_kind refs action_proposal
    || has_kind refs approval_record
    || has_kind refs action_receipt

assert_kinds_owned :
    (refs : List AuditReference) (items : List String)
    → assert_kinds refs items ≡ ok tt
    → owns refs ≡ true
    → is_nonempty items ≡ true
unfolding assert_kinds
assert_kinds_owned refs items h o = ground arith

validate_each_checked :
    (db : Database) (a : AuditRecord) (refs : List AuditReference)
    → (owns refs ≡ true → is_nonempty (items_of a) ≡ true)
    → validate_each db a (items_of a) refs ≡ ok tt
    → All (λ r. IsThere db a.references a.occurred_at r.kind r.id) refs
unfolding validate_each
validate_each_checked db a [] n h = tt
validate_each_checked db a (r ∷ refs) n h =
    let (_, h₁, h₂) =
      >>=-eq-ok (validate_found a (items_of a) r (resolve_local_reference db r)) _ h in
    (
      reference_checked a r db r.kind r.id (λ o. n (ground (arith, o))) h₁,
      validate_each_checked db a refs (λ o. n (ground (arith, o))) h₂,
    )

pub validate_references-IsDocumented :
    (db : Database) (a : AuditRecord) → validate_references db a ≡ ok tt → IsDocumented db a
unfolding validate_references
validate_references-IsDocumented db a h =
    let (_, _, h₁) = >>=-eq-ok (assert_one_thread db none (items_of a)) _ h in
    let (_, kinds, h₂) = >>=-eq-ok (assert_kinds a.references (items_of a)) _ h₁ in
    validate_each_checked db a a.references (assert_kinds_owned a.references (items_of a) kinds) h₂
