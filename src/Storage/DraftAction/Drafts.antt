-- ===== src/Storage/DraftAction/Drafts.antt =====
-- packages/storage-sqlite/src/draft-action-state.ts: `createDraft`, `transitionDraft` and
-- `reviseDraft`. The part of an operation before BEGIN throws as it is; what the transaction
-- throws goes through `catch_draft_action`, and the transaction is rolled back.
pub mod Ladder
pub mod Order
pub mod History
use twindesk.Prelude.{
  ℕ, suc, ◌+◌, Bool, true, false, not, ◌&&◌, ◌||◌, Option, none, some, List, [], ◌∷◌, String, ltb,
  leb, ◌==◌, ◌!=◌, string_eq, nat_eq, option_eq, if◌then◌else◌, is_some, any,
}
use twindesk.Time.{IsoTimestamp, date_parse}
use twindesk.Result.{Result, ok, err, Thrown, ◌>>=◌, ◌>>◌, throw_if, throw_unless, rethrow}
use twindesk.Result.{DraftActionCode as Code}
use twindesk.Domain.Model.{DraftState, Draft, DraftStateTransition, draft_state_eq}
use twindesk.Domain.Validation.{parse_draft, parse_draft_state_transition, positive_integer_at}
use twindesk.Domain.StateTransitions.{apply_draft_state_transition}
use twindesk.Domain.Records.{WorkItem}
use twindesk.Storage.Table.{select, find, update, insert}
use twindesk.Storage.Database.{Database, CreationRow}
use twindesk.Storage.DraftAction.Rows.{
  WriteDisposition, inserted, applied, duplicate, DraftWriteResult, DraftRevisionWrite,
  DraftRevisionWriteResult, fail, catch_draft_action, stored_invalid, parse_stored_draft, draft_row,
  read_draft, or_throw, is_active, same_draft_creation, same_draft_transition,
}

-- `WHERE id = ? OR (work_item_id = ? AND revision = ?)`
abbrev pub conflicts_with : Draft → Draft → Bool
conflicts_with draft row =
    row.id == draft.id || row.work_item_id == draft.work_item_id && row.revision == draft.revision

unfoldable pub conflicting_drafts : Database → Draft → List Draft
conflicting_drafts db draft = select (conflicts_with draft) db.drafts

unfoldable pub draft_creation_row : Database → String → Option (CreationRow DraftState)
draft_creation_row db id = find (λ c. c.record_id) id db.draft_creations

unfoldable pub draft_transition_row : Database → String → Option DraftStateTransition
draft_transition_row db id = find (λ t. t.id) id db.draft_transitions

unfoldable pub work_item_row : Database → String → Option WorkItem
work_item_row db id = find (λ w. w.id) id db.work_items

-- `WHERE work_item_id = ? ORDER BY revision DESC LIMIT 1`
abbrev pub later_revision : Option Draft → Draft → Option Draft
later_revision none d = some d
later_revision (some best) d = if ltb best.revision d.revision then some d else some best

unfoldable pub latest_of : String → List Draft → Option Draft
latest_of item [] = none
latest_of item (d ∷ rows) =
    let best = latest_of item rows in if d.work_item_id == item then later_revision best d else best

unfoldable pub latest_draft : Database → String → Option Draft
latest_draft db item = latest_of item db.drafts

-- `readDraftByWorkItemRevision` and `readLatestDraftByWorkItem`.
unfoldable pub read_draft_by_work_item_revision : Database → String → ℕ → Result (Option Draft)
unfolding positive_integer_at parse_stored_draft
read_draft_by_work_item_revision db item revision = do
  throw_unless (positive_integer_at revision) (fail Code.invalid_request)
  elim (select (λ d. d.work_item_id == item && d.revision == revision) db.drafts) [
    | [] ↦ ok none
    | row ∷ _ ↦ (parse_stored_draft row >>= λ d. ok (some d))
  ]

unfoldable pub read_latest_draft_by_work_item : Database → String → Result (Option Draft)
unfolding parse_stored_draft
read_latest_draft_by_work_item db item = elim (latest_draft db item) [
  | none ↦ ok none
  | some row ↦ (parse_stored_draft row >>= λ d. ok (some d))
]

-- The two INSERTs of a new draft. Besides its primary key a draft's work item and revision are
-- unique.
unfoldable pub insert_draft : Database → Draft → Result Database
unfolding conflicting_drafts
insert_draft db draft = do
  throw_if (any (conflicts_with draft) db.drafts) Thrown.constraint
  creations ←
      insert (λ c. c.record_id)
        (record {
          record_id = draft.id;
          initial_state = draft.state;
          initial_updated_at = draft.updated_at;
        })
        db.draft_creations
  ok (record db { drafts = draft ∷ db.drafts; draft_creations = creations })

-- The stored draft that a repeated creation finds, if it is alone and was created alike.
unfoldable pub existing_draft : Database → Draft → List Draft → Result Draft
unfolding parse_stored_draft
existing_draft db draft (row ∷ []) = do
  stored ← parse_stored_draft row
  same ← same_draft_creation stored (draft_creation_row db stored.id) draft
  throw_unless same (fail Code.draft_conflict)
  ok stored
existing_draft db draft rows = err (fail Code.draft_conflict)

unfoldable pub new_draft : Database → Draft → Result (DraftWriteResult × Database)
unfolding insert_draft
new_draft db draft = do
  work_item ← or_throw (work_item_row db draft.work_item_id) (fail Code.missing_work_item)
  persona ← or_throw work_item.selected_persona_id (fail Code.missing_persona)
  throw_if (persona != draft.persona_id) (fail Code.persona_mismatch)
  throw_if (ltb (date_parse draft.created_at) (date_parse work_item.updated_at))
      (fail Code.invalid_request)
  elim (latest_draft db draft.work_item_id) [
    | none ↦ throw_if (draft.revision != 1) (fail Code.revision_conflict)
    | some previous ↦ do
      throw_if (draft.revision != previous.revision + 1) (fail Code.revision_conflict)
      throw_if (is_active previous.state) (fail Code.active_draft)
  ]
  db' ← insert_draft db draft
  ok (record { disposition = inserted; draft = draft }, db')

unfoldable pub create_draft_transaction : Database → Draft → Result (DraftWriteResult × Database)
unfolding existing_draft new_draft
create_draft_transaction db draft = elim (conflicting_drafts db draft) [
  | [] ↦ new_draft db draft
  | row ∷ rows ↦ do
    stored ← existing_draft db draft (row ∷ rows)
    ok (record { disposition = duplicate; draft = stored }, db)
]

unfoldable pub create_draft : Database → Draft → Result (DraftWriteResult × Database)
unfolding create_draft_transaction
create_draft db input = do
  draft ← parse_draft input
  throw_unless (is_active draft.state) (fail Code.invalid_request)
  rethrow catch_draft_action (create_draft_transaction db draft)

-- The stored draft that a transition names, or `missing_draft`.
unfoldable pub require_draft : Database → String → Result Draft
unfolding read_draft
require_draft db id = do found ← read_draft db id; or_throw found (fail Code.missing_draft)

-- The INSERT of the transition and the UPDATE of the draft.
unfoldable pub write_draft_transition : Database → DraftStateTransition → Draft → Result Database
write_draft_transition db t updated = do
  transitions ← insert (λ row. row.id) t db.draft_transitions
  ok (record db {
    draft_transitions = transitions;
    drafts =
        update (λ d. d.id) updated.id
          (λ d. record d { state = updated.state; updated_at = updated.updated_at }) db.drafts;
  })

unfoldable pub stale : Result Draft → Result Draft
stale = rethrow (λ _. fail Code.stale_state)

unfoldable pub transition_draft_transaction :
    Database → DraftStateTransition → Result (DraftWriteResult × Database)
unfolding require_draft write_draft_transition stale
transition_draft_transaction db t = elim (draft_transition_row db t.id) [
  | some row ↦ do
    throw_unless (same_draft_transition row t) (fail Code.transition_conflict)
    draft ← require_draft db t.draft_id
    ok (record { disposition = duplicate; draft = draft }, db)
  | none ↦ do
    draft ← require_draft db t.draft_id
    updated ← stale (apply_draft_state_transition draft t)
    db' ← write_draft_transition db t updated
    ok (record { disposition = applied; draft = updated }, db')
]

unfoldable pub transition_draft :
    Database → DraftStateTransition → Result (DraftWriteResult × Database)
unfolding transition_draft_transaction
transition_draft db input = do
  t ← parse_draft_state_transition input
  rethrow catch_draft_action (transition_draft_transaction db t)

unfoldable pub revision_write_at : DraftRevisionWrite → Result DraftRevisionWrite
revision_write_at value =
    rethrow (λ _. fail Code.invalid_request)
      (do
        t ← parse_draft_state_transition value.transition
        draft ← parse_draft value.draft
        throw_if
            (t.to_state != DraftState.superseded
              || not (is_active draft.state)
              || draft.created_at != t.occurred_at
              || draft.updated_at != t.occurred_at)
            Thrown.domain_validation
        ok (record { transition = t; draft = draft }))

-- A revision whose transition or draft is stored already is a repetition, or a conflict.
unfoldable pub repeated_revision :
    Database
    → DraftStateTransition
    → Draft
    → Draft
    → Option DraftStateTransition
    → List Draft
    → Result (DraftRevisionWriteResult × Database)
unfolding parse_stored_draft
repeated_revision db t draft source (some stored_transition) (row ∷ []) = do
  stored ← parse_stored_draft row
  throw_unless (same_draft_transition stored_transition t) (fail Code.draft_conflict)
  same ← same_draft_creation stored (draft_creation_row db stored.id) draft
  throw_unless same (fail Code.draft_conflict)
  throw_if (source.state != DraftState.superseded) (fail Code.draft_conflict)
  ok (record { disposition = duplicate; source = source; draft = stored }, db)
repeated_revision db t draft source _ (row ∷ []) = do
  stored ← parse_stored_draft row
  err (fail Code.draft_conflict)
repeated_revision db t draft source _ _ = err (fail Code.draft_conflict)

unfoldable pub new_revision :
    Database → DraftStateTransition → Draft → Draft → Result (DraftRevisionWriteResult × Database)
unfolding stale write_draft_transition insert_draft
new_revision db t draft source = do
  throw_if (source.state != t.from_state) (fail Code.stale_state)
  superseded ← stale (apply_draft_state_transition source t)
  elim (latest_draft db source.work_item_id) [
    | none ↦ err (fail Code.revision_conflict)
    | some latest ↦ throw_if (latest.id != source.id) (fail Code.revision_conflict)
  ]
  work_item ← or_throw (work_item_row db draft.work_item_id) (fail Code.missing_work_item)
  throw_if (work_item.selected_persona_id != some draft.persona_id) (fail Code.persona_mismatch)
  throw_if (ltb (date_parse draft.created_at) (date_parse work_item.updated_at))
      (fail Code.invalid_request)
  db₁ ← write_draft_transition db t superseded
  db₂ ← insert_draft db₁ draft
  ok (record { disposition = inserted; source = superseded; draft = draft }, db₂)

unfoldable pub revise_draft_transaction :
    Database → DraftStateTransition → Draft → Result (DraftRevisionWriteResult × Database)
unfolding require_draft repeated_revision new_revision
revise_draft_transaction db t draft = do
  source ← require_draft db t.draft_id
  throw_if
      (draft.work_item_id != source.work_item_id
        || draft.persona_id != source.persona_id
        || draft.revision != source.revision + 1)
      (fail Code.revision_conflict)
  let existing_transition = draft_transition_row db t.id
  let existing_drafts = conflicting_drafts db draft
  elim existing_transition [
    | some row ↦ repeated_revision db t draft source (some row) existing_drafts
    | none ↦ elim existing_drafts [
      | [] ↦ new_revision db t draft source
      | row ∷ rows ↦ repeated_revision db t draft source none (row ∷ rows)
    ]
  ]

unfoldable pub revise_draft :
    Database → DraftRevisionWrite → Result (DraftRevisionWriteResult × Database)
unfolding revision_write_at revise_draft_transaction
revise_draft db input = do
  write ← revision_write_at input
  rethrow catch_draft_action (revise_draft_transaction db write.transition write.draft)
