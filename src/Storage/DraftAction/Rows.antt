-- ===== src/Storage/DraftAction/Rows.antt =====
-- packages/storage-sqlite/src/draft-action-state.ts: reading stored drafts and proposals, and the
-- comparisons by which a repeated request is told from a conflicting one.
use twindesk.Prelude.{
  Bool, true, false, ◌&&◌, Option, none, some, String, ◌==◌, string_eq, nat_eq, option_eq,
  if◌then◌else◌,
}
use twindesk.Result.{Result, ok, err, draft_action, Thrown, ◌>>=◌, rethrow}
use twindesk.Result.{DraftActionCode as Code}
use twindesk.Domain.Model.{
  DraftState, DraftContent, Draft, DraftStateTransition, ProposalState, ActionProposal,
  ActionProposalStateTransition, draft_state_eq, media_type_eq, proposal_state_eq, action_risk_eq,
  identity_type_eq,
}
use twindesk.Domain.Validation.{parse_draft, parse_action_proposal}
use twindesk.Storage.Table.{find}
use twindesk.Storage.Database.{Database, CreationRow}

pub data WriteDisposition : Type 0 where
  inserted applied duplicate : WriteDisposition

pub record DraftWriteResult : Type 0 where
  pub disposition : WriteDisposition
  pub draft : Draft

pub record DraftRevisionWrite : Type 0 where
  pub transition : DraftStateTransition
  pub draft : Draft

pub record DraftRevisionWriteResult : Type 0 where
  pub disposition : WriteDisposition
  pub source : Draft
  pub draft : Draft

pub record ProposalWriteResult : Type 0 where
  pub disposition : WriteDisposition
  pub proposal : ActionProposal

abbrev pub fail : Code → Thrown
fail = draft_action

-- The last `catch` of each operation.
abbrev pub catch_draft_action : Thrown → Thrown
catch_draft_action (draft_action code) = draft_action code
catch_draft_action _ = draft_action Code.storage_error

abbrev pub stored_invalid {ℓ} : {A : Type ℓ} → Result A → Result A
stored_invalid = rethrow (λ _. fail Code.stored_record_invalid)

unfoldable pub parse_stored_draft : Draft → Result Draft
parse_stored_draft row = stored_invalid (parse_draft row)

unfoldable pub parse_stored_proposal : ActionProposal → Result ActionProposal
parse_stored_proposal row = stored_invalid (parse_action_proposal row)

abbrev pub read_row {ℓ} : {A : Type ℓ} → (A → Result A) → Option A → Result (Option A)
read_row parse none = ok none
read_row parse (some row) = parse row >>= λ a. ok (some a)

unfoldable pub draft_row : Database → String → Option Draft
draft_row db id = find (λ d. d.id) id db.drafts

unfoldable pub proposal_row : Database → String → Option ActionProposal
proposal_row db id = find (λ p. p.id) id db.proposals

unfoldable pub read_draft : Database → String → Result (Option Draft)
unfolding parse_stored_draft
read_draft db id = read_row parse_stored_draft (draft_row db id)

unfoldable pub read_action_proposal : Database → String → Result (Option ActionProposal)
unfolding parse_stored_proposal
read_action_proposal db id = read_row parse_stored_proposal (proposal_row db id)

abbrev pub or_throw {ℓ} : {A : Type ℓ} → Option A → Thrown → Result A
or_throw none e = err e
or_throw (some a) e = ok a

unfoldable pub same_content : DraftContent → DraftContent → Bool
same_content left right = left.media_type == right.media_type && left.text == right.text

unfoldable pub same_draft : Draft → Draft → Bool
unfolding same_content
same_draft left right =
    left.id == right.id
    && left.work_item_id == right.work_item_id
    && left.persona_id == right.persona_id
    && left.session_id == right.session_id
    && left.run_id == right.run_id
    && left.revision == right.revision
    && left.state == right.state
    && same_content left.content right.content
    && left.rationale == right.rationale
    && left.created_at == right.created_at
    && left.updated_at == right.updated_at

unfoldable pub same_proposal : ActionProposal → ActionProposal → Bool
unfolding same_content
same_proposal left right =
    left.id == right.id
    && left.work_item_id == right.work_item_id
    && left.draft_id == right.draft_id
    && left.action_type == right.action_type
    && left.risk == right.risk
    && left.identity.connector_id == right.identity.connector_id
    && left.identity.account_id == right.identity.account_id
    && left.identity.identity_type == right.identity.identity_type
    && left.identity.display_name == right.identity.display_name
    && left.target.connector_id == right.target.connector_id
    && left.target.account_id == right.target.account_id
    && left.target.object_type == right.target.object_type
    && left.target.external_id == right.target.external_id
    && left.target.source_timestamp == right.target.source_timestamp
    && same_content left.content right.content
    && left.content_digest == right.content_digest
    && left.idempotency_key == right.idempotency_key
    && left.state == right.state
    && left.created_at == right.created_at
    && left.updated_at == right.updated_at

abbrev pub is_active : DraftState → Bool
is_active DraftState.editing = true
is_active DraftState.ready_for_review = true
is_active _ = false

-- Whether the input is what the stored draft was created from.
unfoldable pub same_draft_creation : Draft → Option (CreationRow DraftState) → Draft → Result Bool
same_draft_creation stored none input = err (fail Code.stored_record_invalid)
same_draft_creation stored (some creation) input =
    if is_active creation.initial_state
    then (stored_invalid (
          parse_draft (record stored {
            state = creation.initial_state;
            updated_at = creation.initial_updated_at;
          }))
        >>= λ first. ok (same_draft first input))
    else ok false

unfoldable pub same_proposal_creation :
    ActionProposal → Option (CreationRow ProposalState) → ActionProposal → Result Bool
same_proposal_creation stored none input = err (fail Code.stored_record_invalid)
same_proposal_creation stored (some creation) input =
    if creation.initial_state == ProposalState.proposed
    then (stored_invalid (
          parse_action_proposal (record stored {
            state = creation.initial_state;
            updated_at = creation.initial_updated_at;
          }))
        >>= λ first. ok (same_proposal first input))
    else ok false

unfoldable pub same_draft_transition : DraftStateTransition → DraftStateTransition → Bool
same_draft_transition row value =
    row.id == value.id
    && row.draft_id == value.draft_id
    && row.from_state == value.from_state
    && row.to_state == value.to_state
    && row.occurred_at == value.occurred_at

unfoldable pub same_proposal_transition :
    ActionProposalStateTransition → ActionProposalStateTransition → Bool
same_proposal_transition row value =
    row.id == value.id
    && row.proposal_id == value.proposal_id
    && row.from_state == value.from_state
    && row.to_state == value.to_state
    && row.occurred_at == value.occurred_at
