-- ===== src/Domain/Parsers.antt =====
-- packages/domain/src/validation.ts: the parsers of events, threads, work items, user actions and
-- cursors.
use twindesk.Prelude.{
  ℕ, Bool, true, false, not, ◌&&◌, List, [], ◌∷◌, ◌++◌, String, all, any, ◌==◌, string_eq,
}
use twindesk.Time.{codes, timestamp_at}
use twindesk.Result.{Result}
use twindesk.Domain.Model.{ExternalReference}
use twindesk.Domain.Records.{
  ContextState, complete, partial, ExternalEvent, ExternalThread, WorkItem, UserAction,
  set_inbox_state, select_persona, clear_persona, WorkItemUserAction, ConnectorCursor, units_eq,
}
use twindesk.Domain.Json.{json_at, object}
use twindesk.Domain.Validation.{
  string_at, positive_integer_at, optional, external_reference_at, chronology, parse_if,
}

-- `new Set(values).size === values.length`, by a test of equality.
unfoldable pub distinct_by {ℓ} : {A : Type ℓ} → (A → A → Bool) → List A → Bool
distinct_by same [] = true
distinct_by same (x ∷ xs) = not (any (same x) xs) && distinct_by same xs

abbrev pub same_text : String → String → Bool
same_text s t = s == t

abbrev pub is_nonempty {ℓ} : {A : Type ℓ} → List A → Bool
is_nonempty [] = false
is_nonempty (x ∷ xs) = true

-- `stringArrayAt` with `nonEmpty`.
unfoldable pub string_array_at : List String → Bool
unfolding distinct_by
string_array_at ss = is_nonempty ss && all string_at ss && distinct_by same_text ss

-- `${connectorId}\0${accountId}\0${objectType}\0${externalId}`
unfoldable pub reference_identity : ExternalReference → List ℕ
reference_identity r =
    codes r.connector_id
    ++ 0 ∷ codes r.account_id
    ++ 0 ∷ codes r.object_type
    ++ 0 ∷ codes r.external_id

abbrev pub same_identity : ExternalReference → ExternalReference → Bool
same_identity r s = reference_identity r == reference_identity s

unfoldable pub reference_array_at : List ExternalReference → Bool
unfolding distinct_by reference_identity
reference_array_at rs =
    is_nonempty rs && all external_reference_at rs && distinct_by same_identity rs

unfoldable pub context_at : ContextState → Bool
unfolding string_array_at
context_at complete = true
context_at (partial missing) = string_array_at missing

unfoldable pub external_event_at : ExternalEvent → Bool
unfolding context_at
external_event_at e =
    string_at e.id
    && string_at e.idempotency_key
    && external_reference_at e.source
    && string_at e.event_type
    && timestamp_at e.occurred_at
    && timestamp_at e.received_at
    && chronology e.occurred_at e.received_at
    && context_at e.context
    && json_at 0 (object e.normalized)

unfoldable pub parse_external_event : ExternalEvent → Result ExternalEvent
parse_external_event = parse_if external_event_at

unfoldable pub external_thread_at : ExternalThread → Bool
unfolding reference_array_at string_array_at
external_thread_at t =
    string_at t.id
    && string_at t.subject
    && reference_array_at t.external_references
    && string_array_at t.source_event_ids
    && timestamp_at t.created_at
    && timestamp_at t.updated_at
    && chronology t.created_at t.updated_at

unfoldable pub parse_external_thread : ExternalThread → Result ExternalThread
parse_external_thread = parse_if external_thread_at

unfoldable pub work_item_at : WorkItem → Bool
unfolding string_array_at
work_item_at w =
    string_at w.id
    && string_at w.thread_id
    && string_array_at w.source_event_ids
    && string_at w.title
    && string_at w.summary
    && string_at w.attention_reason
    && optional string_at w.selected_persona_id
    && timestamp_at w.created_at
    && timestamp_at w.updated_at
    && chronology w.created_at w.updated_at

unfoldable pub parse_work_item : WorkItem → Result WorkItem
parse_work_item = parse_if work_item_at

abbrev action_fields_at : UserAction → Bool
action_fields_at (set_inbox_state s) = true
action_fields_at (select_persona persona) = string_at persona
action_fields_at clear_persona = true

unfoldable pub work_item_user_action_at : WorkItemUserAction → Bool
unfolding positive_integer_at
work_item_user_action_at a =
    string_at a.id
    && string_at a.work_item_id
    && positive_integer_at a.revision
    && action_fields_at a.action
    && timestamp_at a.occurred_at

unfoldable pub parse_work_item_user_action : WorkItemUserAction → Result WorkItemUserAction
parse_work_item_user_action = parse_if work_item_user_action_at

unfoldable pub connector_cursor_at : ConnectorCursor → Bool
connector_cursor_at c =
    string_at c.id
    && string_at c.connector_id
    && string_at c.account_id
    && string_at c.stream
    && string_at c.position
    && optional timestamp_at c.committed_through
    && timestamp_at c.updated_at

unfoldable pub parse_connector_cursor : ConnectorCursor → Result ConnectorCursor
parse_connector_cursor = parse_if connector_cursor_at
