-- ===== src/Domain/Records.antt =====
-- packages/domain/src/model.ts: the records that synchronization, work items and the audit timeline
-- are made of. `kind` and `schemaVersion` have one value each, and are left out.
use twindesk.Prelude.{ℕ, Option, List, String, Eq, String_discrete, ℕ_discrete}
use twindesk.Time.{IsoTimestamp}
use twindesk.Domain.Model.{ExternalReference}
use twindesk.Domain.Json.{Members}

pub data ContextState : Type 0 where
  complete : ContextState
  partial : List String → ContextState

pub record ExternalEvent : Type 0 where
  pub id : String
  pub idempotency_key : String
  pub source : ExternalReference
  pub event_type : String
  pub occurred_at : IsoTimestamp
  pub received_at : IsoTimestamp
  pub context : ContextState
  pub normalized : Members

pub record ExternalThread : Type 0 where
  pub id : String
  pub subject : String
  pub external_references : List ExternalReference
  pub source_event_ids : List String
  pub created_at : IsoTimestamp
  pub updated_at : IsoTimestamp

pub data InboxState : Type 0 where
  needs_reply needs_review waiting done : InboxState

pub record WorkItem : Type 0 where
  pub id : String
  pub thread_id : String
  pub source_event_ids : List String
  pub inbox_state : InboxState
  pub title : String
  pub summary : String
  pub attention_reason : String
  pub selected_persona_id : Option String
  pub created_at : IsoTimestamp
  pub updated_at : IsoTimestamp

-- The three shapes of a user action, each with the field that only it has.
pub data UserAction : Type 0 where
  set_inbox_state : InboxState → UserAction
  select_persona : String → UserAction
  clear_persona : UserAction

pub record WorkItemUserAction : Type 0 where
  pub id : String
  pub work_item_id : String
  pub revision : ℕ
  pub action : UserAction
  pub occurred_at : IsoTimestamp

pub record ConnectorCursor : Type 0 where
  pub id : String
  pub connector_id : String
  pub account_id : String
  pub stream : String
  pub position : String
  pub committed_through : Option IsoTimestamp
  pub updated_at : IsoTimestamp

unfoldable pub InboxState_discrete : Discrete InboxState
InboxState_discrete = hlevel

instance abbrev pub inbox_state_eq : Eq InboxState
inbox_state_eq = record { dec = InboxState_discrete }

unfoldable pub ExternalReference_discrete : Discrete ExternalReference
ExternalReference_discrete = hlevel String_discrete

instance abbrev pub external_reference_eq : Eq ExternalReference
external_reference_eq = record { dec = ExternalReference_discrete }

unfoldable pub ExternalThread_discrete : Discrete ExternalThread
ExternalThread_discrete = hlevel (String_discrete, ExternalReference_discrete)

instance abbrev pub external_thread_eq : Eq ExternalThread
external_thread_eq = record { dec = ExternalThread_discrete }

unfoldable pub WorkItem_discrete : Discrete WorkItem
WorkItem_discrete = hlevel String_discrete

instance abbrev pub work_item_eq : Eq WorkItem
work_item_eq = record { dec = WorkItem_discrete }

unfoldable pub WorkItemUserAction_discrete : Discrete WorkItemUserAction
WorkItemUserAction_discrete = hlevel (String_discrete, ℕ_discrete)

instance abbrev pub work_item_user_action_eq : Eq WorkItemUserAction
work_item_user_action_eq = record { dec = WorkItemUserAction_discrete }

unfoldable pub Units_discrete : Discrete (List ℕ)
Units_discrete = hlevel ℕ_discrete

instance abbrev pub units_eq : Eq (List ℕ)
units_eq = record { dec = Units_discrete }
