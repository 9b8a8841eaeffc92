-- ===== src/Domain/Validation.antt =====
-- packages/domain/src/validation.ts: what the parsers of the records demand of their contents. Each
-- parser returns its argument, and the path that an error names is not kept.
use twindesk.Prelude.{
  ℕ, Bool, true, false, not, ◌&&◌, ◌||◌, Option, none, some, List, ◌∷◌, String, all, length, leb,
  ltb, ◌==◌, nat_eq, string_eq, if◌then◌else◌,
}
use twindesk.Time.{IsoTimestamp, codes, timestamp_at, date_parse}
use twindesk.Result.{Result, ok, err, domain_validation}
use twindesk.Domain.Model.{
  DraftState, DraftContent, Draft, DraftStateTransition, ProposalState, ActionIdentity,
  ExternalReference, ActionProposal, ActionProposalStateTransition, ApprovalDecision,
  ApprovalRecord,
}

-- The white space that `trim` removes.
unfoldable pub is_space : ℕ → Bool
is_space c =
    leb 9 c && leb c 13
    || c == 32
    || c == 160
    || c == 5760
    || leb 8192 c && leb c 8202
    || c == 8232
    || c == 8233
    || c == 8239
    || c == 8287
    || c == 12288
    || c == 65279

unfoldable pub string_at : String → Bool
unfolding is_space
string_at s = not (all is_space (codes s))

abbrev pub optional : (String → Bool) → Option String → Bool
optional p none = true
optional p (some s) = p s

abbrev is_lower_hex : ℕ → Bool
is_lower_hex c = leb b'0' c && leb c b'9' || leb b'a' c && leb c b'f'

-- `/^sha256:[a-f0-9]{64}$/u`
unfoldable pub digest_text : List ℕ → Bool
digest_text (s ∷ h ∷ a ∷ d₁ ∷ d₂ ∷ d₃ ∷ colon ∷ hex) =
    s == b's'
    && h == b'h'
    && a == b'a'
    && d₁ == b'2'
    && d₂ == b'5'
    && d₃ == b'6'
    && colon == b':'
    && length hex == 64
    && all is_lower_hex hex
digest_text _ = false

unfoldable pub digest_at : String → Bool
unfolding digest_text
digest_at s = digest_text (codes s)

-- `chronology`: the end is not earlier than the start.
abbrev pub chronology : IsoTimestamp → IsoTimestamp → Bool
chronology start end = leb (date_parse start) (date_parse end)

abbrev optional_chronology : Option IsoTimestamp → Option IsoTimestamp → Bool
optional_chronology (some start) (some end) = chronology start end
optional_chronology _ _ = true

unfoldable pub external_reference_at : ExternalReference → Bool
external_reference_at r =
    string_at r.connector_id
    && string_at r.account_id
    && string_at r.object_type
    && string_at r.external_id
    && optional timestamp_at r.source_timestamp

unfoldable pub draft_content_at : DraftContent → Bool
draft_content_at c = string_at c.text

abbrev pub parse_if {ℓ} : {A : Type ℓ} → (A → Bool) → A → Result A
parse_if p a = if p a then ok a else err domain_validation

-- `Number.MAX_SAFE_INTEGER`
abbrev pub max_safe_integer : ℕ
max_safe_integer = 9007199254740991

unfoldable pub positive_integer_at : ℕ → Bool
positive_integer_at n = leb 1 n && leb n max_safe_integer

unfoldable pub draft_at : Draft → Bool
unfolding draft_content_at positive_integer_at
draft_at d =
    string_at d.id
    && string_at d.work_item_id
    && string_at d.persona_id
    && optional string_at d.session_id
    && optional string_at d.run_id
    && positive_integer_at d.revision
    && draft_content_at d.content
    && optional string_at d.rationale
    && timestamp_at d.created_at
    && timestamp_at d.updated_at
    && chronology d.created_at d.updated_at

unfoldable pub parse_draft : Draft → Result Draft
parse_draft = parse_if draft_at

unfoldable pub draft_transition_allowed : DraftState → DraftState → Bool
draft_transition_allowed DraftState.editing DraftState.ready_for_review = true
draft_transition_allowed DraftState.editing DraftState.superseded = true
draft_transition_allowed DraftState.editing DraftState.cancelled = true
draft_transition_allowed DraftState.ready_for_review DraftState.superseded = true
draft_transition_allowed DraftState.ready_for_review DraftState.cancelled = true
draft_transition_allowed _ _ = false

unfoldable pub parse_draft_state_transition : DraftStateTransition → Result DraftStateTransition
unfolding draft_transition_allowed
parse_draft_state_transition = parse_if λ t.
    string_at t.id
    && string_at t.draft_id
    && draft_transition_allowed t.from_state t.to_state
    && timestamp_at t.occurred_at

unfoldable pub identity_at : ActionIdentity → Bool
identity_at i = string_at i.connector_id && string_at i.account_id && string_at i.display_name

unfoldable pub action_proposal_at : ActionProposal → Bool
unfolding identity_at external_reference_at draft_content_at
action_proposal_at p =
    string_at p.id
    && string_at p.work_item_id
    && optional string_at p.draft_id
    && string_at p.action_type
    && identity_at p.identity
    && external_reference_at p.target
    && p.identity.connector_id == p.target.connector_id
    && p.identity.account_id == p.target.account_id
    && draft_content_at p.content
    && digest_at p.content_digest
    && string_at p.idempotency_key
    && timestamp_at p.created_at
    && timestamp_at p.updated_at
    && chronology p.created_at p.updated_at

unfoldable pub parse_action_proposal : ActionProposal → Result ActionProposal
parse_action_proposal = parse_if action_proposal_at

unfoldable pub proposal_transition_allowed : ProposalState → ProposalState → Bool
proposal_transition_allowed ProposalState.proposed ProposalState.awaiting_approval = true
proposal_transition_allowed ProposalState.proposed ProposalState.cancelled = true
proposal_transition_allowed ProposalState.awaiting_approval ProposalState.rejected = true
proposal_transition_allowed ProposalState.awaiting_approval ProposalState.cancelled = true
proposal_transition_allowed _ _ = false

unfoldable pub parse_action_proposal_state_transition :
    ActionProposalStateTransition → Result ActionProposalStateTransition
unfolding proposal_transition_allowed
parse_action_proposal_state_transition = parse_if λ t.
    string_at t.id
    && string_at t.proposal_id
    && proposal_transition_allowed t.from_state t.to_state
    && timestamp_at t.occurred_at

-- The fields that a decision requires and forbids.
unfoldable pub decision_fields_at :
    ApprovalDecision → Option IsoTimestamp → Option String → Option IsoTimestamp → Bool
decision_fields_at ApprovalDecision.pending none none none = true
decision_fields_at ApprovalDecision.approved (some _) (some _) _ = true
decision_fields_at ApprovalDecision.rejected (some _) (some _) none = true
decision_fields_at ApprovalDecision.cancelled (some _) _ none = true
decision_fields_at ApprovalDecision.expired (some _) _ none = true
decision_fields_at _ _ _ _ = false

-- An approval is decided no later than it expires; so is its consumption.
unfoldable pub approval_deadline_at : ApprovalDecision → Option IsoTimestamp → IsoTimestamp → Bool
approval_deadline_at ApprovalDecision.approved (some decided) expires = chronology decided expires
approval_deadline_at _ _ _ = true

unfoldable pub approval_record_at : ApprovalRecord → Bool
unfolding decision_fields_at approval_deadline_at
approval_record_at a =
    string_at a.id
    && string_at a.proposal_id
    && digest_at a.identity_digest
    && digest_at a.target_digest
    && digest_at a.content_digest
    && timestamp_at a.requested_at
    && timestamp_at a.expires_at
    && ltb (date_parse a.requested_at) (date_parse a.expires_at)
    && optional timestamp_at a.decided_at
    && optional string_at a.responder_user_id
    && optional timestamp_at a.consumed_at
    && decision_fields_at a.decision a.decided_at a.responder_user_id a.consumed_at
    && optional_chronology (some a.requested_at) a.decided_at
    && approval_deadline_at a.decision a.decided_at a.expires_at
    && optional_chronology a.decided_at a.consumed_at
    && optional_chronology a.consumed_at (some a.expires_at)

unfoldable pub parse_approval_record : ApprovalRecord → Result ApprovalRecord
parse_approval_record = parse_if approval_record_at
