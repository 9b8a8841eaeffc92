-- ===== src/Domain/StateTransitions/Laws.antt =====
-- What one local transition demands and changes, and what a sequence of them can reach.
use twindesk.Prelude.{
  ℕ, suc, ◌+◌, ◌≤◌, ◌≡◌, refl, ap, ◌↔◌, ◌⊎◌, inl, Bool, true, false, List, [], ◌∷◌, arith, length,
}
use twindesk.Time.{date_parse}
use twindesk.Result.{Result, ok, ◌>>=◌, >>=-eq-ok}
use twindesk.Domain.Model.{
  DraftState, Draft, DraftStateTransition, ProposalState, ActionProposal,
  ActionProposalStateTransition,
}
use twindesk.Domain.Validation.{
  draft_at, parse_draft, draft_transition_allowed, parse_draft_state_transition, action_proposal_at,
  parse_action_proposal, proposal_transition_allowed, parse_action_proposal_state_transition,
}
use twindesk.Domain.StateTransitions.{
  apply_draft_state_transition, apply_action_proposal_state_transition,
}

-- When a transition may be applied to a draft, and to a proposal.
pub record DraftReady (d : Draft) (t : DraftStateTransition) : Type 0 where
  pub draft_valid : draft_at d ≡ true
  pub transition_valid : parse_draft_state_transition t ≡ ok t
  pub same_record : d.id ≡ t.draft_id
  pub same_state : d.state ≡ t.from_state
  pub in_order : date_parse d.updated_at ≤ date_parse t.occurred_at

pub record ProposalReady (p : ActionProposal) (t : ActionProposalStateTransition) : Type 0 where
  pub proposal_valid : action_proposal_at p ≡ true
  pub transition_valid : parse_action_proposal_state_transition t ≡ ok t
  pub same_record : p.id ≡ t.proposal_id
  pub same_state : p.state ≡ t.from_state
  pub in_order : date_parse p.updated_at ≤ date_parse t.occurred_at

-- A valid record stays valid under a later time.
draft_at_moved :
    (d : Draft) (t : DraftStateTransition)
    → DraftReady d t
    → draft_at (record d { state = t.to_state; updated_at = t.occurred_at }) ≡ true
unfolding draft_at parse_draft_state_transition
draft_at_moved d t r = ground arith

draft_transition_sound :
    (d : Draft) (t : DraftStateTransition) {d' : Draft}
    → apply_draft_state_transition d t ≡ ok d'
    → DraftReady d t × (d' ≡ record d { state = t.to_state; updated_at = t.occurred_at })
unfolding apply_draft_state_transition parse_draft parse_draft_state_transition
draft_transition_sound d t h = ground arith

draft_transition_complete :
    (d : Draft) (t : DraftStateTransition)
    → DraftReady d t
    → apply_draft_state_transition d t
      ≡ ok (record d { state = t.to_state; updated_at = t.occurred_at })
unfolding apply_draft_state_transition parse_draft parse_draft_state_transition
draft_transition_complete d t r = ground (arith, draft_at_moved d t r)

-- A transition of a draft succeeds exactly when the draft and the transition are valid, the
-- transition names this draft and its present state, and does not precede its last change; the
-- result differs from the draft in state and time only.
pub apply_draft_state_transition_iff :
    (d : Draft) (t : DraftStateTransition) (d' : Draft)
    → (apply_draft_state_transition d t ≡ ok d')
      ↔ (DraftReady d t × (d' ≡ record d { state = t.to_state; updated_at = t.occurred_at }))
apply_draft_state_transition_iff d t d' =
    (draft_transition_sound d t, λ h. cc (h.1, draft_transition_complete d t h.0))

proposal_at_moved :
    (p : ActionProposal) (t : ActionProposalStateTransition)
    → ProposalReady p t
    → action_proposal_at (record p { state = t.to_state; updated_at = t.occurred_at }) ≡ true
unfolding action_proposal_at parse_action_proposal_state_transition
proposal_at_moved p t r = ground arith

proposal_transition_sound :
    (p : ActionProposal) (t : ActionProposalStateTransition) {p' : ActionProposal}
    → apply_action_proposal_state_transition p t ≡ ok p'
    → ProposalReady p t × (p' ≡ record p { state = t.to_state; updated_at = t.occurred_at })
unfolding apply_action_proposal_state_transition parse_action_proposal
    parse_action_proposal_state_transition
proposal_transition_sound p t h = ground arith

proposal_transition_complete :
    (p : ActionProposal) (t : ActionProposalStateTransition)
    → ProposalReady p t
    → apply_action_proposal_state_transition p t
      ≡ ok (record p { state = t.to_state; updated_at = t.occurred_at })
unfolding apply_action_proposal_state_transition parse_action_proposal
    parse_action_proposal_state_transition
proposal_transition_complete p t r = ground (arith, proposal_at_moved p t r)

-- Applying a transition to a proposal succeeds exactly when both are valid, it names this
-- proposal and its present state and does not precede its last change; the result differs in
-- state and time only.
pub apply_action_proposal_state_transition_iff :
    (p : ActionProposal) (t : ActionProposalStateTransition) (p' : ActionProposal)
    → (apply_action_proposal_state_transition p t ≡ ok p')
      ↔ (ProposalReady p t × (p' ≡ record p { state = t.to_state; updated_at = t.occurred_at }))
apply_action_proposal_state_transition_iff p t p' =
    (proposal_transition_sound p t, λ h. cc (h.1, proposal_transition_complete p t h.0))

-- Transitions one after the other.
unfoldable pub apply_drafts : Draft → List DraftStateTransition → Result Draft
apply_drafts d [] = ok d
apply_drafts d (t ∷ ts) = do d' ← apply_draft_state_transition d t; apply_drafts d' ts

unfoldable pub apply_proposals :
    ActionProposal → List ActionProposalStateTransition → Result ActionProposal
apply_proposals p [] = ok p
apply_proposals p (t ∷ ts) = do
  p' ← apply_action_proposal_state_transition p t
  apply_proposals p' ts

-- How many transitions a state has before it.
abbrev pub steps_left : DraftState → ℕ
steps_left DraftState.editing = 2
steps_left DraftState.ready_for_review = 1
steps_left DraftState.superseded = 0
steps_left DraftState.cancelled = 0

steps_left-allowed :
    (s s' : DraftState) → draft_transition_allowed s s' ≡ true → suc (steps_left s') ≤ steps_left s
unfolding draft_transition_allowed
steps_left-allowed s s' h = ground arith

transition_allowed_of_ready :
    (d : Draft) (t : DraftStateTransition)
    → DraftReady d t
    → draft_transition_allowed d.state t.to_state ≡ true
unfolding parse_draft_state_transition
transition_allowed_of_ready d t r = ground arith

-- A draft lives through two local transitions at most: a sequence that succeeds is no longer than
-- the number of steps that its first state has left over its last.
pub apply_drafts_bounded :
    (d : Draft) (ts : List DraftStateTransition) {d' : Draft}
    → apply_drafts d ts ≡ ok d'
    → length ts + steps_left d'.state ≤ steps_left d.state
unfolding apply_drafts
apply_drafts_bounded d [] h = ground arith
apply_drafts_bounded d (t ∷ ts) h =
    let (d₁, step, rest) = >>=-eq-ok _ _ h in
    let (r, e) = draft_transition_sound d t step in
    omega (
      arith,
      ap (λ (x : Draft). steps_left x.state) e,
      steps_left-allowed d.state t.to_state (transition_allowed_of_ready d t r),
      apply_drafts_bounded d₁ ts rest,
    )

-- The states that need no approval and no execution.
abbrev pub is_local : ProposalState → Bool
is_local ProposalState.proposed = true
is_local ProposalState.awaiting_approval = true
is_local ProposalState.rejected = true
is_local ProposalState.cancelled = true
is_local _ = false

is_local-allowed :
    (s s' : ProposalState)
    → proposal_transition_allowed s s' ≡ true
    → (is_local s ≡ true) × (is_local s' ≡ true)
unfolding proposal_transition_allowed
is_local-allowed s s' h = ground arith

transition_allowed_of_proposal :
    (p : ActionProposal) (t : ActionProposalStateTransition)
    → ProposalReady p t
    → proposal_transition_allowed p.state t.to_state ≡ true
unfolding parse_action_proposal_state_transition
transition_allowed_of_proposal p t r = ground arith

-- Local transitions never reach a state that stands for an approval or an execution, and none
-- leaves such a state: after a sequence that succeeds, the proposal is either untouched, or it was
-- and is in one of the local states.
pub apply_proposals_local :
    (p : ActionProposal) (ts : List ActionProposalStateTransition) {p' : ActionProposal}
    → apply_proposals p ts ≡ ok p'
    → ((ts ≡ []) × (p' ≡ p)) ⊎ ((is_local p.state ≡ true) × (is_local p'.state ≡ true))
unfolding apply_proposals
apply_proposals_local p [] h = inl (refl, ground arith)
apply_proposals_local p (t ∷ ts) h =
    let (p₁, step, rest) = >>=-eq-ok _ _ h in
    let (r, e) = proposal_transition_sound p t step in
    let allowed = is_local-allowed p.state t.to_state (transition_allowed_of_proposal p t r) in
    ground (arith, apply_proposals_local p₁ ts rest)
