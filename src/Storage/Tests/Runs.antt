-- ===== src/Storage/Tests/Runs.antt =====
-- Runs of the operations: the calls of one action, from the proposal to the receipt.
use twindesk.Prelude.{◌≡◌, refl, true, some, String_discrete, Option_discrete, ℕ_discrete}
use twindesk.Result.{ok}
use twindesk.Storage.Execution.Recover.{
  recovery_action, recovery_snapshot, open_state, open_receipt, recover_action_execution,
}
use twindesk.Storage.Tests.Samples.{
  sample_recovery, recovered, is_ok, consumption_result, sample_hash, reviewed_db, sample_proposal,
  pending_db, sample_decision, sample_now, approved_db, sample_consumption, consumed_db,
  sample_start, executing_db, sample_reservation,
}
use twindesk.Time.{
  fraction, fields_with, fields, is_leap, days_in_month, on_calendar, timestamp_at,
  days_before_year, days_before_month, milliseconds, date_parse, year_from, month_from, fields_of,
  iso_text, clock_timestamp,
}
use twindesk.Domain.Model.{
  ActionRisk_discrete, DraftState_discrete, MediaType_discrete, ProposalState_discrete,
  IdentityType_discrete, ApprovalDecision_discrete, ActionReceipt_discrete,
}
use twindesk.Domain.Validation.{
  is_space, string_at, digest_text, digest_at, external_reference_at, draft_content_at, draft_at,
  parse_draft, draft_transition_allowed, parse_draft_state_transition, identity_at,
  action_proposal_at, parse_action_proposal, proposal_transition_allowed,
  parse_action_proposal_state_transition, decision_fields_at, approval_deadline_at,
  approval_record_at, parse_approval_record,
}
use twindesk.Domain.StateTransitions.{
  assert_transition_preconditions, apply_draft_state_transition,
  apply_action_proposal_state_transition,
}
use twindesk.Storage.Table.{select, find, update, insert, update_one}
use twindesk.Storage.Digest.{
  take_chars, join, canonical_digest, compute_draft_content_digest, identity_document,
  target_document, compute_action_approval_bindings, compute_approval_execution_attempt_id,
  request_transition_id,
}
use twindesk.Storage.DraftAction.Rows.{
  parse_stored_draft, parse_stored_proposal, draft_row, proposal_row, read_draft,
  read_action_proposal, same_content, same_draft, same_proposal, same_draft_creation,
  same_proposal_creation, same_draft_transition, same_proposal_transition,
}
use twindesk.Storage.DraftAction.Drafts.{
  conflicting_drafts, draft_creation_row, draft_transition_row, work_item_row, latest_of,
  latest_draft, read_draft_by_work_item_revision, read_latest_draft_by_work_item, insert_draft,
  existing_draft, new_draft, create_draft_transaction, create_draft, require_draft,
  write_draft_transition, stale, transition_draft_transaction, transition_draft, revision_write_at,
  repeated_revision, new_revision, revise_draft_transaction, revise_draft,
}
use twindesk.Storage.DraftAction.Proposals.{
  conflicting_proposals, proposal_creation_row, proposal_transition_row, has_reference,
  insert_proposal, existing_proposal, check_proposal_draft, new_proposal,
  create_proposal_transaction, create_action_proposal, require_proposal,
  transition_proposal_transaction, transition_action_proposal,
}
use twindesk.Storage.Approval.Requests.{
  consumed, duplicate, units, first_is, last_is, bounded_string, observed_timestamp, parse_request,
  bindings_at, responder_at, parse_decision, parse_consumption, parse_stored_approval, approval_row,
  read_approval_in_snapshot, read_action_approval, require_proposal as requests_require_proposal,
  require_approval, proposal_for_state, assert_bindings,
}
use twindesk.Storage.Approval.Request.{
  approvals_for, same_request, stored_request, pending_approval, repeated_request, new_request,
  request_transaction, request_action_approval,
}
use twindesk.Storage.Approval.Decide.{
  same_decision, outside_lifetime, write_decision, write_decided_proposal, new_decision,
  decide_transaction, decide_action_approval,
}
use twindesk.Storage.Approval.Consume.{
  write_consumption, unconsumed_approval, approved_proposal_snapshot, approved_action,
  new_consumption, consume_transaction, consume_action_approval,
}
use twindesk.Storage.Execution.Requests.{
  observed_timestamp as requests_observed_timestamp, same_approval, same_fingerprint,
  external_reference, issue_at, outcome_at, receipt_at, parse_receipt, receipt_row,
  parse_stored_receipt, read_receipt_in_snapshot, settlement_at, dispatch_at, latest_dispatch,
  read_latest_dispatch, parse_approved_action, require_durable_action, durable_approval,
}
use twindesk.Storage.Execution.Begin.{
  retryable_state, outside_execution, parse_start, start_execution, begin_transaction,
  begin_action_execution,
}
use twindesk.Storage.Execution.Dispatch.{
  may_retry, foreign_dispatch, same_dispatch_key, dispatch_taken, insert_dispatch,
  unauthorized_dispatch, write_dispatch, next_dispatch, parse_dispatch_reservation,
  reserve_transaction, reserve_action_dispatch,
}
use twindesk.Storage.Execution.Receipt.{
  receipt_state, settled_outcome, receipt_mismatch, settle, settles_backwards,
  settle_latest_dispatch, write_receipt_row, move_proposal, new_receipt, dispatch_settled,
  repeated_receipt, record_receipt, parse_receipt_write, receipt_transaction,
  record_action_execution_receipt,
}

-- Every call of the action succeeds at the clock of the samples.
pub runs :
    (is_ok (create_action_proposal sample_hash reviewed_db sample_proposal) ≡ true)
    × (is_ok (decide_action_approval sample_hash pending_db sample_decision sample_now) ≡ true)
    × (consume_action_approval sample_hash approved_db sample_consumption sample_now
        ≡ ok (consumption_result consumed, consumed_db))
    × (consume_action_approval sample_hash consumed_db sample_consumption sample_now
        ≡ ok (consumption_result duplicate, consumed_db))
    × (is_ok (begin_action_execution sample_hash consumed_db sample_start sample_now) ≡ true)
    × (is_ok (reserve_action_dispatch sample_hash executing_db sample_reservation sample_now)
        ≡ true)
    × (recover_action_execution sample_hash executing_db sample_recovery ≡ ok recovered)
    × (clock_timestamp sample_now ≡ some "2026-03-01T10:30:00.000Z")
unfolding recovery_action recovery_snapshot open_state open_receipt recover_action_execution
    String_discrete Option_discrete ℕ_discrete fraction fields_with fields is_leap days_in_month
    on_calendar timestamp_at days_before_year days_before_month milliseconds date_parse year_from
    month_from fields_of iso_text clock_timestamp ActionRisk_discrete DraftState_discrete
    MediaType_discrete ProposalState_discrete IdentityType_discrete ApprovalDecision_discrete
    ActionReceipt_discrete is_space string_at digest_text digest_at external_reference_at
    draft_content_at draft_at parse_draft draft_transition_allowed parse_draft_state_transition
    identity_at action_proposal_at parse_action_proposal proposal_transition_allowed
    parse_action_proposal_state_transition decision_fields_at approval_deadline_at
    approval_record_at parse_approval_record assert_transition_preconditions
    apply_draft_state_transition apply_action_proposal_state_transition select find update insert
    update_one take_chars join canonical_digest compute_draft_content_digest identity_document
    target_document compute_action_approval_bindings compute_approval_execution_attempt_id
    request_transition_id parse_stored_draft parse_stored_proposal draft_row proposal_row read_draft
    read_action_proposal same_content same_draft same_proposal same_draft_creation
    same_proposal_creation same_draft_transition same_proposal_transition conflicting_drafts
    draft_creation_row draft_transition_row work_item_row latest_of latest_draft
    read_draft_by_work_item_revision read_latest_draft_by_work_item insert_draft existing_draft
    new_draft create_draft_transaction create_draft require_draft write_draft_transition stale
    transition_draft_transaction transition_draft revision_write_at repeated_revision new_revision
    revise_draft_transaction revise_draft conflicting_proposals proposal_creation_row
    proposal_transition_row has_reference insert_proposal existing_proposal check_proposal_draft
    new_proposal create_proposal_transaction create_action_proposal require_proposal
    transition_proposal_transaction transition_action_proposal units first_is last_is bounded_string
    observed_timestamp parse_request bindings_at responder_at parse_decision parse_consumption
    parse_stored_approval approval_row read_approval_in_snapshot read_action_approval
    requests_require_proposal require_approval proposal_for_state assert_bindings approvals_for
    same_request stored_request pending_approval repeated_request new_request request_transaction
    request_action_approval same_decision outside_lifetime write_decision write_decided_proposal
    new_decision decide_transaction decide_action_approval write_consumption unconsumed_approval
    approved_proposal_snapshot approved_action new_consumption consume_transaction
    consume_action_approval requests_observed_timestamp same_approval same_fingerprint
    external_reference issue_at outcome_at receipt_at parse_receipt receipt_row parse_stored_receipt
    read_receipt_in_snapshot settlement_at dispatch_at latest_dispatch read_latest_dispatch
    parse_approved_action require_durable_action durable_approval retryable_state outside_execution
    parse_start start_execution begin_transaction begin_action_execution may_retry foreign_dispatch
    same_dispatch_key dispatch_taken insert_dispatch unauthorized_dispatch write_dispatch
    next_dispatch parse_dispatch_reservation reserve_transaction reserve_action_dispatch
    receipt_state settled_outcome receipt_mismatch settle settles_backwards settle_latest_dispatch
    write_receipt_row move_proposal new_receipt dispatch_settled repeated_receipt record_receipt
    parse_receipt_write receipt_transaction record_action_execution_receipt
runs = (refl, refl, refl, refl, refl, refl, refl, refl)
