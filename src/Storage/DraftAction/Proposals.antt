-- ===== src/Storage/DraftAction/Proposals.antt =====
-- packages/storage-sqlite/src/draft-action-state.ts: `createActionProposal` and
-- `transitionActionProposal`. `sha256_hex` is Node's hash (Storage/Digest).
use Prim.Native.Nat.{Ordering}
use Prim.Native.String.{compare}
pub mod Laws
use twindesk.Prelude.{
  Bool, true, false, not, ◌&&◌, ◌||◌, Option, none, some, List, [], ◌∷◌, String, ltb, ◌==◌, ◌!=◌,
  string_eq, nat_eq, option_eq, if◌then◌else◌, any,
}
use twindesk.Time.{IsoTimestamp, date_parse}
use twindesk.Result.{Result, ok, err, Thrown, ◌>>=◌, ◌>>◌, throw_if, throw_unless, rethrow}
use twindesk.Result.{DraftActionCode as Code}
use twindesk.Domain.Model.{
  DraftState, Draft, ProposalState, ExternalReference, ActionProposal,
  ActionProposalStateTransition, draft_state_eq, proposal_state_eq,
}
use twindesk.Domain.Validation.{parse_action_proposal, parse_action_proposal_state_transition}
use twindesk.Domain.StateTransitions.{apply_action_proposal_state_transition}
use twindesk.Domain.Records.{WorkItem}
use twindesk.Storage.Table.{select, find, update, insert}
use twindesk.Storage.Database.{Database, CreationRow}
use twindesk.Storage.Digest.{Document, compute_draft_content_digest}
use twindesk.Storage.DraftAction.Rows.{
  WriteDisposition, inserted, applied, duplicate, ProposalWriteResult, fail, catch_draft_action,
  stored_invalid, parse_stored_proposal, proposal_row, read_draft, read_action_proposal, or_throw,
  same_content, same_proposal_creation, same_proposal_transition,
}
use twindesk.Storage.DraftAction.Drafts.{work_item_row}

-- `WHERE id = ? OR idempotency_key = ?`
abbrev pub conflicts_with : ActionProposal → ActionProposal → Bool
conflicts_with proposal row =
    row.id == proposal.id || row.idempotency_key == proposal.idempotency_key

unfoldable pub conflicting_proposals : Database → ActionProposal → List ActionProposal
conflicting_proposals db proposal = select (conflicts_with proposal) db.proposals

unfoldable pub proposal_creation_row : Database → String → Option (CreationRow ProposalState)
proposal_creation_row db id = find (λ c. c.record_id) id db.proposal_creations

unfoldable pub proposal_transition_row : Database → String → Option ActionProposalStateTransition
proposal_transition_row db id = find (λ t. t.id) id db.proposal_transitions

abbrev pub same_reference : ExternalReference → ExternalReference → Bool
same_reference left right =
    left.connector_id == right.connector_id
    && left.account_id == right.account_id
    && left.object_type == right.object_type
    && left.external_id == right.external_id
    && left.source_timestamp == right.source_timestamp

-- The SELECT of the target among the references of the work item's thread.
unfoldable pub has_reference : Database → String → ExternalReference → Bool
has_reference db thread_id target =
    any (λ t. t.id == thread_id && any (λ r. same_reference r target) t.external_references)
      db.threads

-- `ORDER BY updated_at DESC, id DESC LIMIT 1`, on the texts.
abbrev text_ltb : String → String → Bool
text_ltb s t = elim (compare s t) [ Ordering.lt ↦ true | _ ↦ false ]

unfoldable pub more_recent : ActionProposal → ActionProposal → Bool
more_recent best p =
    text_ltb best.updated_at p.updated_at
    || best.updated_at == p.updated_at && text_ltb best.id p.id

unfoldable pub latest_proposal : List ActionProposal → Option ActionProposal
unfolding more_recent
latest_proposal [] = none
latest_proposal (p ∷ rows) = elim (latest_proposal rows) [
  | none ↦ some p
  | some best ↦ if more_recent best p then some p else some best
]

unfoldable pub read_latest_action_proposal_by_work_item :
    Database → String → Result (Option ActionProposal)
unfolding parse_stored_proposal latest_proposal
read_latest_action_proposal_by_work_item db item =
    elim (latest_proposal (select (λ p. p.work_item_id == item) db.proposals)) [
      | none ↦ ok none
      | some row ↦ (parse_stored_proposal row >>= λ p. ok (some p))
    ]

-- The two INSERTs of a new proposal: its id and its idempotency key are unique.
unfoldable pub insert_proposal : Database → ActionProposal → Result Database
insert_proposal db proposal = do
  throw_if (any (conflicts_with proposal) db.proposals) Thrown.constraint
  creations ←
      insert (λ c. c.record_id)
        (record {
          record_id = proposal.id;
          initial_state = proposal.state;
          initial_updated_at = proposal.updated_at;
        })
        db.proposal_creations
  ok (record db { proposals = proposal ∷ db.proposals; proposal_creations = creations })

unfoldable pub existing_proposal :
    Database → ActionProposal → List ActionProposal → Result ActionProposal
unfolding parse_stored_proposal
existing_proposal db proposal (row ∷ []) = do
  stored ← parse_stored_proposal row
  same ← same_proposal_creation stored (proposal_creation_row db stored.id) proposal
  throw_unless same (fail Code.proposal_conflict)
  ok stored
existing_proposal db proposal rows = err (fail Code.proposal_conflict)

-- The draft that a proposal names must be the one it sends, ready for review.
unfoldable pub check_proposal_draft : Database → ActionProposal → WorkItem → Result (Unit {0})
unfolding read_draft same_content
check_proposal_draft db proposal work_item = elim proposal.draft_id [
  | none ↦ ok tt
  | some draft_id ↦ do
    found ← read_draft db draft_id
    draft ← or_throw found (fail Code.missing_draft)
    throw_if
        (draft.work_item_id != proposal.work_item_id
          || draft.state != DraftState.ready_for_review
          || not (same_content draft.content proposal.content)
          || ltb (date_parse proposal.created_at) (date_parse draft.updated_at)
          || ltb (date_parse draft.updated_at) (date_parse work_item.updated_at))
        (fail Code.draft_conflict)
]

unfoldable pub new_proposal : Database → ActionProposal → Result (ProposalWriteResult × Database)
unfolding check_proposal_draft insert_proposal
new_proposal db proposal = do
  work_item ← or_throw (work_item_row db proposal.work_item_id) (fail Code.missing_work_item)
  throw_if (ltb (date_parse proposal.created_at) (date_parse work_item.updated_at))
      (fail Code.invalid_request)
  check_proposal_draft db proposal work_item
  throw_unless (has_reference db work_item.thread_id proposal.target) (fail Code.target_mismatch)
  db' ← insert_proposal db proposal
  ok (record { disposition = inserted; proposal = proposal }, db')

unfoldable pub create_proposal_transaction :
    Database → ActionProposal → Result (ProposalWriteResult × Database)
unfolding existing_proposal new_proposal
create_proposal_transaction db proposal = elim (conflicting_proposals db proposal) [
  | [] ↦ new_proposal db proposal
  | row ∷ rows ↦ do
    stored ← existing_proposal db proposal (row ∷ rows)
    ok (record { disposition = duplicate; proposal = stored }, db)
]

module _ (sha256_hex : Document → String) where
  unfoldable pub create_action_proposal :
      Database → ActionProposal → Result (ProposalWriteResult × Database)
  unfolding create_proposal_transaction
  create_action_proposal db input = do
    proposal ← parse_action_proposal input
    throw_if (proposal.state != ProposalState.proposed) (fail Code.invalid_request)
    digest ← compute_draft_content_digest sha256_hex proposal.content
    throw_if (digest != proposal.content_digest) (fail Code.digest_mismatch)
    rethrow catch_draft_action (create_proposal_transaction db proposal)

unfoldable pub require_proposal : Database → String → Result ActionProposal
unfolding read_action_proposal
require_proposal db id = do
  found ← read_action_proposal db id
  or_throw found (fail Code.missing_proposal)

unfoldable pub transition_proposal_transaction :
    Database → ActionProposalStateTransition → Result (ProposalWriteResult × Database)
unfolding require_proposal
transition_proposal_transaction db t = elim (proposal_transition_row db t.id) [
  | some row ↦ do
    throw_unless (same_proposal_transition row t) (fail Code.transition_conflict)
    proposal ← require_proposal db t.proposal_id
    ok (record { disposition = duplicate; proposal = proposal }, db)
  | none ↦ do
    proposal ← require_proposal db t.proposal_id
    updated ←
        rethrow (λ _. fail Code.stale_state) (apply_action_proposal_state_transition proposal t)
    transitions ← insert (λ row. row.id) t db.proposal_transitions
    ok (
      record { disposition = applied; proposal = updated },
      record db {
        proposal_transitions = transitions;
        proposals =
            update (λ p. p.id) updated.id
              (λ p. record p { state = updated.state; updated_at = updated.updated_at })
              db.proposals;
      },
    )
]

unfoldable pub transition_action_proposal :
    Database → ActionProposalStateTransition → Result (ProposalWriteResult × Database)
unfolding transition_proposal_transaction
transition_action_proposal db input = do
  t ← parse_action_proposal_state_transition input
  rethrow catch_draft_action (transition_proposal_transaction db t)
