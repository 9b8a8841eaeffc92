-- ===== src/Domain/Model.antt =====
-- packages/domain/src/model.ts and connector.ts: the records that drafts, proposals, approvals and
-- executions are made of. `kind` and `schemaVersion` have one value each, and are left out.
use twindesk.Prelude.{ℕ, Bool, Option, String, Eq, String_discrete}
use twindesk.Time.{IsoTimestamp}

pub data DraftState : Type 0 where
  editing ready_for_review superseded cancelled : DraftState

pub data MediaType : Type 0 where
  text_plain text_markdown : MediaType

pub record DraftContent : Type 0 where
  pub media_type : MediaType
  pub text : String

pub record Draft : Type 0 where
  pub id : String
  pub work_item_id : String
  pub persona_id : String
  pub session_id : Option String
  pub run_id : Option String
  pub revision : ℕ
  pub state : DraftState
  pub content : DraftContent
  pub rationale : Option String
  pub created_at : IsoTimestamp
  pub updated_at : IsoTimestamp

pub record DraftStateTransition : Type 0 where
  pub id : String
  pub draft_id : String
  pub from_state : DraftState
  pub to_state : DraftState
  pub occurred_at : IsoTimestamp

pub data ActionRisk : Type 0 where
  write destructive : ActionRisk

pub data IdentityType : Type 0 where
  bot user : IdentityType

pub data ProposalState : Type 0 where
  proposed awaiting_approval approved rejected cancelled executing succeeded failed uncertain :
      ProposalState

pub record ActionIdentity : Type 0 where
  pub connector_id : String
  pub account_id : String
  pub identity_type : IdentityType
  pub display_name : String

pub record ExternalReference : Type 0 where
  pub connector_id : String
  pub account_id : String
  pub object_type : String
  pub external_id : String
  pub source_timestamp : Option IsoTimestamp

pub record ActionProposal : Type 0 where
  pub id : String
  pub work_item_id : String
  pub draft_id : Option String
  pub action_type : String
  pub risk : ActionRisk
  pub identity : ActionIdentity
  pub target : ExternalReference
  pub content : DraftContent
  pub content_digest : String
  pub idempotency_key : String
  pub state : ProposalState
  pub created_at : IsoTimestamp
  pub updated_at : IsoTimestamp

pub record ActionProposalStateTransition : Type 0 where
  pub id : String
  pub proposal_id : String
  pub from_state : ProposalState
  pub to_state : ProposalState
  pub occurred_at : IsoTimestamp

pub data ApprovalDecision : Type 0 where
  pending approved rejected cancelled expired : ApprovalDecision

pub record ApprovalRecord : Type 0 where
  pub id : String
  pub proposal_id : String
  pub decision : ApprovalDecision
  pub identity_digest : String
  pub target_digest : String
  pub content_digest : String
  pub requested_at : IsoTimestamp
  pub expires_at : IsoTimestamp
  pub decided_at : Option IsoTimestamp
  pub responder_user_id : Option String
  pub consumed_at : Option IsoTimestamp

-- `retryDisposition` of a failed receipt; an uncertain one always says `reconcile_first`.
pub data FailedRetry : Type 0 where
  do_not_retry retry_same_key : FailedRetry

pub record ConnectorIssue : Type 0 where
  pub code : String
  pub message : String
  pub retryable : Bool

-- The three shapes of an ActionReceipt's outcome, each with the fields that only it has.
pub data Outcome : Type 0 where
  succeeded : ExternalReference → Outcome
  failed : ConnectorIssue → FailedRetry → Outcome
  uncertain : ConnectorIssue → Outcome

pub record ActionReceipt : Type 0 where
  pub proposal_id : String
  pub connector_id : String
  pub account_id : String
  pub idempotency_key : String
  pub attempted_at : IsoTimestamp
  pub outcome : Outcome

-- The snapshot that a Connector may execute: connector.ts, `ApprovedAction`.
pub record ApprovedAction : Type 0 where
  pub proposal : ActionProposal
  pub approval : ApprovalRecord
  pub execution_attempt_id : String

unfoldable pub DraftState_discrete : Discrete DraftState
DraftState_discrete = hlevel

unfoldable pub MediaType_discrete : Discrete MediaType
MediaType_discrete = hlevel

unfoldable pub ProposalState_discrete : Discrete ProposalState
ProposalState_discrete = hlevel

unfoldable pub ActionRisk_discrete : Discrete ActionRisk
ActionRisk_discrete = hlevel

unfoldable pub IdentityType_discrete : Discrete IdentityType
IdentityType_discrete = hlevel

unfoldable pub ApprovalDecision_discrete : Discrete ApprovalDecision
ApprovalDecision_discrete = hlevel

unfoldable pub FailedRetry_discrete : Discrete FailedRetry
FailedRetry_discrete = hlevel

instance abbrev pub draft_state_eq : Eq DraftState
draft_state_eq = record { dec = DraftState_discrete }

instance abbrev pub media_type_eq : Eq MediaType
media_type_eq = record { dec = MediaType_discrete }

instance abbrev pub proposal_state_eq : Eq ProposalState
proposal_state_eq = record { dec = ProposalState_discrete }

instance abbrev pub action_risk_eq : Eq ActionRisk
action_risk_eq = record { dec = ActionRisk_discrete }

instance abbrev pub identity_type_eq : Eq IdentityType
identity_type_eq = record { dec = IdentityType_discrete }

instance abbrev pub approval_decision_eq : Eq ApprovalDecision
approval_decision_eq = record { dec = ApprovalDecision_discrete }

unfoldable pub ActionReceipt_discrete : Discrete ActionReceipt
ActionReceipt_discrete = hlevel String_discrete

instance abbrev pub action_receipt_eq : Eq ActionReceipt
action_receipt_eq = record { dec = ActionReceipt_discrete }
