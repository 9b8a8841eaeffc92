-- ===== src/Storage/DraftAction/Proposals/Laws.antt =====
-- What a stored proposal has been checked against.
use twindesk.Prelude.{
  ◌≡◌, refl, ◌⊎◌, inl, inr, true, false, Option, none, some, List, [], ◌∷◌, String, arith, any, ltb,
  string_eq, ◌==◌, ◌||◌,
}
use twindesk.Time.{date_parse}
use twindesk.Result.{ok}
use twindesk.Domain.Model.{
  DraftState, Draft, ProposalState, ActionProposal, draft_state_eq, proposal_state_eq,
}
use twindesk.Domain.Validation.{parse_draft, parse_action_proposal}
use twindesk.Domain.Records.{WorkItem}
use twindesk.Storage.Table.{select}
use twindesk.Storage.Database.{Database}
use twindesk.Storage.Digest.{Document, compute_draft_content_digest}
use twindesk.Storage.DraftAction.Rows.{
  draft_row, read_draft, parse_stored_draft, same_content, ProposalWriteResult, inserted, duplicate,
}
use twindesk.Storage.DraftAction.Drafts.{work_item_row}
use twindesk.Storage.DraftAction.Proposals.{
  conflicts_with, conflicting_proposals, has_reference, insert_proposal, existing_proposal,
  check_proposal_draft, new_proposal, create_proposal_transaction, create_action_proposal,
}

-- The draft that a proposal names, if it names one: one of its work item, ready for review, with the
-- content that the proposal sends, and not changed after the proposal was made.
abbrev pub DraftReviewed : Database → ActionProposal → Option String → Type 0
DraftReviewed db proposal none = Unit {0}
DraftReviewed db proposal (some id) =
    (d : Draft) × (draft_row db id ≡ some d)
    × (d.work_item_id ≡ proposal.work_item_id)
    × (d.state ≡ DraftState.ready_for_review)
    × (d.content ≡ proposal.content)
    × (ltb (date_parse proposal.created_at) (date_parse d.updated_at) ≡ false)

check_proposal_draft-DraftReviewed :
    (db : Database) (proposal : ActionProposal) (w : WorkItem) (o : Option String)
    → proposal.draft_id ≡ o
    → check_proposal_draft db proposal w ≡ ok tt
    → DraftReviewed db proposal o
unfolding check_proposal_draft read_draft parse_stored_draft parse_draft same_content
check_proposal_draft-DraftReviewed db proposal w none e h = tt
check_proposal_draft-DraftReviewed db proposal w (some id) e h = ground arith

no_conflict :
    (proposal : ActionProposal) (rows : List ActionProposal)
    → select (conflicts_with proposal) rows ≡ []
    → any (conflicts_with proposal) rows ≡ false
unfolding select
no_conflict proposal [] h = refl
no_conflict proposal (p ∷ rows) h = ground (arith, no_conflict proposal rows)

module _ (sha256_hex : Document → String) where
  create_effect :
      (db : Database) (input : ActionProposal) {x : ProposalWriteResult} {db' : Database}
      → create_action_proposal sha256_hex db input ≡ ok (x, db')
      → ((x.disposition ≡ duplicate) × (db' ≡ db))
        ⊎ ((x.disposition ≡ inserted)
            × (x.proposal ≡ input)
            × (input.state ≡ ProposalState.proposed)
            × (compute_draft_content_digest sha256_hex input.content ≡ ok input.content_digest)
            × (any (conflicts_with input) db.proposals ≡ false)
            × (db'.proposals ≡ input ∷ db.proposals)
            × ((w : WorkItem) × (work_item_row db input.work_item_id ≡ some w)
                × (has_reference db w.thread_id input.target ≡ true)
                × (check_proposal_draft db input w ≡ ok tt)))
  unfolding create_action_proposal create_proposal_transaction existing_proposal new_proposal
      insert_proposal conflicting_proposals parse_action_proposal
  create_effect db input h = ground (arith, no_conflict input db.proposals)

  -- A proposal that is stored anew is stored as given and is in state proposed; its digest is the
  -- digest of its content; no stored proposal has its id or its idempotency key; its target is a
  -- reference of the thread of its work item; and a draft that it names is one of that work item,
  -- ready for review, has the content that the proposal sends, and is not changed after the
  -- proposal was made. Any other call that succeeds is a duplicate and leaves the database.
  pub create_action_proposal-cases :
      (db : Database) (input : ActionProposal) {x : ProposalWriteResult} {db' : Database}
      → create_action_proposal sha256_hex db input ≡ ok (x, db')
      → ((x.disposition ≡ duplicate) × (db' ≡ db))
        ⊎ ((x.disposition ≡ inserted)
            × (db'.proposals ≡ input ∷ db.proposals)
            × (input.state ≡ ProposalState.proposed)
            × (compute_draft_content_digest sha256_hex input.content ≡ ok input.content_digest)
            × (any
                  (λ p. p.id == input.id || p.idempotency_key == input.idempotency_key)
                  db.proposals
                ≡ false)
            × ((w : WorkItem) × (work_item_row db input.work_item_id ≡ some w)
                × (has_reference db w.thread_id input.target ≡ true))
            × DraftReviewed db input input.draft_id)
  create_action_proposal-cases db input h = elim (create_effect db input h) [
    | inl same ↦ inl same
    | inr (i, p, s, digest, fresh, rows, (w, found, target, draft)) ↦ inr (
      i,
      rows,
      s,
      digest,
      fresh,
      (w, found, target),
      check_proposal_draft-DraftReviewed db input w input.draft_id refl draft,
    )
  ]
