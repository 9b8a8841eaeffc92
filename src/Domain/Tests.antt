-- ===== src/Domain/Tests.antt =====
-- The laws of the local transitions at concrete inputs.
use twindesk.Domain.Json.{
  Json, number, text, array, object, no_item, item, no_member, member, canonical, insert_member,
  units_leb, utf16,
}
use twindesk.Domain.Json.Reordered.{Reordered, canonical_iff-Reordered}
use twindesk.Prelude.{
  ◌≡◌, refl, ◌⊎◌, ◌↔◌, ◌+◌, ◌≤◌, true, none, some, [], ◌∷◌, String_discrete, ℕ_discrete, length,
}
use twindesk.Time.{
  timestamp_at, date_parse, fields, fraction, fields_with, milliseconds, days_before_year,
  days_before_month, is_leap, days_in_month, on_calendar,
}
use twindesk.Result.{ok}
use twindesk.Domain.Model.{
  DraftState, DraftContent, Draft, DraftStateTransition, MediaType, ActionRisk, IdentityType,
  ProposalState, ActionProposal, ActionProposalStateTransition, DraftState_discrete,
  ProposalState_discrete,
}
use twindesk.Domain.Validation.{
  is_space, string_at, draft_content_at, draft_at, parse_draft, draft_transition_allowed,
  parse_draft_state_transition, digest_at, digest_text, external_reference_at, identity_at,
  action_proposal_at, parse_action_proposal, proposal_transition_allowed,
  parse_action_proposal_state_transition,
}
use twindesk.Domain.StateTransitions.{
  assert_transition_preconditions, apply_draft_state_transition,
  apply_action_proposal_state_transition,
}
use twindesk.Domain.StateTransitions.Laws.{
  DraftReady, ProposalReady, apply_draft_state_transition_iff,
  apply_action_proposal_state_transition_iff, apply_drafts, apply_drafts_bounded, apply_proposals,
  apply_proposals_local, is_local, steps_left,
}

abbrev content : DraftContent
content = record { media_type = MediaType.text_plain; text = "See you at ten." }

abbrev draft_in : DraftState → Draft
draft_in s = record {
  id = "draft-1";
  work_item_id = "item-1";
  persona_id = "persona-1";
  session_id = none;
  run_id = none;
  revision = 1;
  state = s;
  content = content;
  rationale = none;
  created_at = "2026-03-01T10:00:00Z";
  updated_at = "2026-03-01T10:00:00Z";
}

abbrev review : DraftStateTransition
review = record {
  id = "transition-1";
  draft_id = "draft-1";
  from_state = DraftState.editing;
  to_state = DraftState.ready_for_review;
  occurred_at = "2026-03-01T10:00:00Z";
}

abbrev proposal_in : ProposalState → ActionProposal
proposal_in s = record {
  id = "proposal-1";
  work_item_id = "item-1";
  draft_id = some "draft-1";
  action_type = "reply";
  risk = ActionRisk.write;
  identity = record {
    connector_id = "feishu";
    account_id = "account-1";
    identity_type = IdentityType.user;
    display_name = "Ada";
  };
  target = record {
    connector_id = "feishu";
    account_id = "account-1";
    object_type = "message";
    external_id = "m-1";
    source_timestamp = none;
  };
  content = content;
  content_digest = "sha256:0123456789abcdef0123456789abcdef0123456789abcdef0123456789abcdef";
  idempotency_key = "key-1";
  state = s;
  created_at = "2026-03-01T10:00:00Z";
  updated_at = "2026-03-01T10:00:00Z";
}

abbrev cancel : ActionProposalStateTransition
cancel = record {
  id = "transition-2";
  proposal_id = "proposal-1";
  from_state = ProposalState.proposed;
  to_state = ProposalState.cancelled;
  occurred_at = "2026-03-01T10:00:00Z";
}

runs :
    (apply_drafts (draft_in DraftState.editing) (review ∷ [])
      ≡ ok (draft_in DraftState.ready_for_review))
    × (apply_proposals (proposal_in ProposalState.proposed) (cancel ∷ [])
        ≡ ok (proposal_in ProposalState.cancelled))
unfolding apply_drafts apply_proposals String_discrete ℕ_discrete DraftState_discrete
    ProposalState_discrete timestamp_at date_parse fields fraction fields_with milliseconds
    days_before_year days_before_month is_leap days_in_month on_calendar is_space string_at
    draft_content_at draft_at parse_draft draft_transition_allowed parse_draft_state_transition
    digest_at digest_text external_reference_at identity_at action_proposal_at parse_action_proposal
    proposal_transition_allowed parse_action_proposal_state_transition
    assert_transition_preconditions apply_draft_state_transition
    apply_action_proposal_state_transition
runs = (refl, refl)

apply_draft_state_transition_iff_example :
    (apply_draft_state_transition (draft_in DraftState.editing) review
      ≡ ok (draft_in DraftState.ready_for_review))
    ↔ (DraftReady (draft_in DraftState.editing) review
        × (draft_in DraftState.ready_for_review ≡ draft_in DraftState.ready_for_review))
apply_draft_state_transition_iff_example =
    apply_draft_state_transition_iff (draft_in DraftState.editing) review
      (draft_in DraftState.ready_for_review)

apply_action_proposal_state_transition_iff_example :
    (apply_action_proposal_state_transition (proposal_in ProposalState.proposed) cancel
      ≡ ok (proposal_in ProposalState.cancelled))
    ↔ (ProposalReady (proposal_in ProposalState.proposed) cancel
        × (proposal_in ProposalState.cancelled ≡ proposal_in ProposalState.cancelled))
apply_action_proposal_state_transition_iff_example =
    apply_action_proposal_state_transition_iff (proposal_in ProposalState.proposed) cancel
      (proposal_in ProposalState.cancelled)

apply_drafts_bounded_example :
    length (review ∷ []) + steps_left DraftState.ready_for_review ≤ steps_left DraftState.editing
apply_drafts_bounded_example =
    apply_drafts_bounded (draft_in DraftState.editing) (review ∷ []) runs.0

apply_proposals_local_example :
    (((cancel ∷ []) ≡ [])
      × (proposal_in ProposalState.cancelled ≡ proposal_in ProposalState.proposed))
    ⊎ ((is_local ProposalState.proposed ≡ true) × (is_local ProposalState.cancelled ≡ true))
apply_proposals_local_example =
    apply_proposals_local (proposal_in ProposalState.proposed) (cancel ∷ []) runs.1

abbrev sample_json : Json
sample_json =
    object
      (member "text" (text "Lunch?") (member "count" (array (item (number "1") no_item)) no_member))

-- The same members in another order.
abbrev other_order : Json
other_order =
    object
      (member "count" (array (item (number "1") no_item)) (member "text" (text "Lunch?") no_member))

canonical_iff-Reordered_example :
    (canonical sample_json ≡ canonical other_order) ↔ Reordered sample_json other_order
canonical_iff-Reordered_example = canonical_iff-Reordered sample_json other_order

-- The members are sorted by key.
canonical_sample :
    canonical sample_json
    ≡ object (
        member "count"
          (array (item (number "1") no_item))
          (member "text" (text "Lunch?") no_member))
unfolding canonical insert_member units_leb utf16
canonical_sample = refl
