-- ===== src/Domain/StateTransitions.antt =====
-- packages/domain/src/state-transitions.ts: one validated local transition of a draft or of a
-- proposal, with no effect outside the record.
pub mod Laws
use twindesk.Prelude.{Bool, ltb, ◌!=◌, String, string_eq, Eq}
use twindesk.Time.{IsoTimestamp, date_parse}
use twindesk.Result.{Result, ok, err, state_transition, TransitionCode, ◌>>=◌, ◌>>◌, throw_if}
use twindesk.Domain.Model.{
  Draft, DraftStateTransition, ActionProposal, ActionProposalStateTransition, draft_state_eq,
  proposal_state_eq,
}
use twindesk.Domain.Validation.{
  parse_draft, parse_draft_state_transition, parse_action_proposal,
  parse_action_proposal_state_transition,
}

unfoldable pub assert_transition_preconditions :
    {S : Type 0} ⦃e : Eq S⦄
    → String
    → S
    → IsoTimestamp
    → String
    → S
    → IsoTimestamp
    → Result (Unit {0})
assert_transition_preconditions record_id state updated_at target_id from_state occurred_at = do
  throw_if (record_id != target_id) (state_transition TransitionCode.identity_mismatch)
  throw_if (state != from_state) (state_transition TransitionCode.stale_state)
  throw_if (ltb (date_parse occurred_at) (date_parse updated_at))
      (state_transition TransitionCode.chronology)

unfoldable pub apply_draft_state_transition : Draft → DraftStateTransition → Result Draft
unfolding assert_transition_preconditions
apply_draft_state_transition draft_input transition_input = do
  draft ← parse_draft draft_input
  t ← parse_draft_state_transition transition_input
  assert_transition_preconditions draft.id draft.state draft.updated_at t.draft_id t.from_state
      t.occurred_at
  parse_draft (record draft { state = t.to_state; updated_at = t.occurred_at })

unfoldable pub apply_action_proposal_state_transition :
    ActionProposal → ActionProposalStateTransition → Result ActionProposal
unfolding assert_transition_preconditions
apply_action_proposal_state_transition proposal_input transition_input = do
  proposal ← parse_action_proposal proposal_input
  t ← parse_action_proposal_state_transition transition_input
  assert_transition_preconditions proposal.id proposal.state proposal.updated_at t.proposal_id
      t.from_state t.occurred_at
  parse_action_proposal (record proposal { state = t.to_state; updated_at = t.occurred_at })
