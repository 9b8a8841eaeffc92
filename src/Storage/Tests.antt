-- ===== src/Storage/Tests.antt =====
-- The theorems on drafts, proposals, approvals and executions at concrete inputs.
mod Samples
mod Runs
mod Synced
mod Audited
use Samples.*
use Runs.{runs}
use twindesk.Prelude.{
  ℕ, ◌+◌, ◌≡◌, refl, ◌⊎◌, Bool, true, false, Option, none, some, List, [], ◌∷◌, String, any,
  string_eq, ◌==◌, ◌||◌, String_discrete, ltb,
}
use twindesk.Time.{IsoTimestamp, date_parse, clock_timestamp}
use twindesk.Result.{Result, ok, err}
use twindesk.Domain.Model.{ProposalState, ActionProposal}
use twindesk.Domain.Records.{WorkItem}
use twindesk.Storage.Table.{find}
use twindesk.Storage.Database.{Database, StoredReceipt, StoredDispatch}
use twindesk.Storage.Digest.{compute_draft_content_digest}
use twindesk.Storage.DraftAction.Rows.{ProposalWriteResult, WriteDisposition as ProposalDisposition}
use twindesk.Storage.DraftAction.Drafts.{work_item_row}
use twindesk.Storage.DraftAction.Drafts.History.{
  DraftCall, creates, moves, revises, calls as draft_calls, InOrder, calls-InOrder,
}
use twindesk.Storage.DraftAction.Proposals.{conflicts_with, has_reference, create_action_proposal}
use twindesk.Storage.DraftAction.Proposals.Laws.{DraftReviewed, create_action_proposal-cases}
use twindesk.Storage.Approval.Requests.{
  ActionApprovalResult, ActionApprovalConsumptionResult, approval_row, applied, duplicate,
}
use twindesk.Storage.Approval.Decide.{
  decide_action_approval, same_decision, outside_lifetime, state_of_decision,
}
use twindesk.Storage.Approval.Consume.{consume_action_approval}
use twindesk.Storage.Approval.Grows.{Grows}
use twindesk.Storage.Approval.History.{
  ApprovalCall, requests, decides, consumes, calls as approval_calls, calls-Grows,
  consume_action_approval-once,
}
use twindesk.Storage.Execution.Requests.{receipt_row, latest_dispatch}
use twindesk.Storage.Execution.Begin.{begin_action_execution}
use twindesk.Storage.Execution.Dispatch.{
  ActionDispatchReservationResult, may_retry, reserve_action_dispatch, reserved, blocked,
}
use twindesk.Storage.Execution.Authorized.{
  IsAuthorized, MayDispatch, begin_action_execution-IsAuthorized,
  reserve_action_dispatch-IsAuthorized,
}
use twindesk.Storage.Execution.Effects.{reserve_action_dispatch-cases}
use twindesk.Storage.Execution.History.{
  ExecutionCall, begins, reserves, records, calls as execution_calls, InJournals, calls-InJournals,
  calls-terminal,
}

abbrev sample_draft_calls : List DraftCall
sample_draft_calls = creates sample_draft ∷ moves sample_review ∷ creates sample_draft ∷ []

calls-InOrder_example : InOrder (draft_calls sample_db sample_draft_calls).drafts
calls-InOrder_example = calls-InOrder sample_db sample_draft_calls refl

abbrev sample_approval_calls : List ApprovalCall
sample_approval_calls =
    requests sample_request sample_now
    ∷ decides sample_decision sample_now
    ∷ consumes sample_consumption sample_now
    ∷ []

calls-Grows_example :
    Grows
      (approval_row pending_db "approval-1")
      (approval_row (approval_calls sample_hash pending_db sample_approval_calls) "approval-1")
calls-Grows_example = calls-Grows sample_hash pending_db sample_approval_calls "approval-1"

abbrev sample_execution_calls : List ExecutionCall
sample_execution_calls =
    begins sample_start sample_now
    ∷ reserves sample_reservation sample_now
    ∷ reserves sample_reservation sample_now
    ∷ records sample_success sample_now
    ∷ []

calls-InJournals_example :
    InJournals (execution_calls sample_hash consumed_db sample_execution_calls).dispatches
calls-InJournals_example = calls-InJournals sample_hash consumed_db sample_execution_calls refl

abbrev succeeded_row : StoredReceipt
succeeded_row = record {
  execution_attempt_id = sample_action.execution_attempt_id;
  receipt = sample_success.receipt;
}

abbrev succeeded_db : Database
succeeded_db = record executing_db { receipts = succeeded_row ∷ [] }

succeeded_found :
    receipt_row succeeded_db "execution-approval-0123456789abcdef0123456789abcdef"
    ≡ some succeeded_row
unfolding receipt_row find String_discrete
succeeded_found = refl

calls-terminal_example :
    receipt_row
      (execution_calls sample_hash succeeded_db sample_execution_calls)
      "execution-approval-0123456789abcdef0123456789abcdef"
    ≡ some succeeded_row
calls-terminal_example =
    calls-terminal sample_hash succeeded_db sample_execution_calls
      "execution-approval-0123456789abcdef0123456789abcdef" succeeded_row refl succeeded_found

abbrev created : ProposalWriteResult × Database
created = value (create_action_proposal sample_hash reviewed_db sample_proposal) runs.0

create_action_proposal-cases_example :
    ((created.0.disposition ≡ ProposalDisposition.duplicate) × (created.1 ≡ reviewed_db))
    ⊎ ((created.0.disposition ≡ ProposalDisposition.inserted)
        × (created.1.proposals ≡ sample_proposal ∷ [])
        × (sample_proposal.state ≡ ProposalState.proposed)
        × (compute_draft_content_digest sample_hash sample_content
            ≡ ok sample_proposal.content_digest)
        × (any
              (λ (p : ActionProposal).
                p.id == sample_proposal.id || p.idempotency_key == sample_proposal.idempotency_key)
              []
            ≡ false)
        × ((w : WorkItem) × (work_item_row reviewed_db "item-1" ≡ some w)
            × (has_reference reviewed_db w.thread_id sample_target ≡ true))
        × DraftReviewed reviewed_db sample_proposal (some "draft-1"))
create_action_proposal-cases_example =
    create_action_proposal-cases sample_hash reviewed_db sample_proposal (value-eq _ runs.0)

abbrev decided : ActionApprovalResult × Database
decided = value (decide_action_approval sample_hash pending_db sample_decision sample_now) runs.1

consume_action_approval-once_example :
    (duplicate ≡ duplicate)
    × (sample_consumed.consumed_at ≡ some "2026-03-01T10:05:00Z")
    × (consumed_db ≡ approval_calls sample_hash consumed_db [])
unfolding approval_calls
consume_action_approval-once_example =
    consume_action_approval-once sample_hash approved_db sample_consumption sample_consumption
      sample_now sample_now [] runs.2 refl runs.3

begin_action_execution-IsAuthorized_example :
    (at : IsoTimestamp) × (clock_timestamp sample_now ≡ some at)
    × (p : ActionProposal) × IsAuthorized consumed_db sample_action (date_parse at) p
begin_action_execution-IsAuthorized_example =
    begin_action_execution-IsAuthorized sample_hash consumed_db sample_start sample_now
      (value-eq _ runs.4)

reserve_action_dispatch-IsAuthorized_example :
    (at : IsoTimestamp) × (clock_timestamp sample_now ≡ some at)
    × MayDispatch executing_db sample_reservation (date_parse at)
reserve_action_dispatch-IsAuthorized_example =
    reserve_action_dispatch-IsAuthorized sample_hash executing_db sample_reservation sample_now
      (value-eq _ runs.5)

abbrev first_reserved : ActionDispatchReservationResult × Database
first_reserved =
    value (reserve_action_dispatch sample_hash executing_db sample_reservation sample_now) runs.5

reserve_action_dispatch-cases_example :
    ((first_reserved.0.disposition ≡ blocked)
      × (first_reserved.1 ≡ executing_db)
      × (latest_dispatch sample_action.execution_attempt_id [] ≡ some first_reserved.0.dispatch)
      × (may_retry first_reserved.0.dispatch ≡ false))
    ⊎ ((first_reserved.0.disposition ≡ reserved)
        × (latest_dispatch sample_action.execution_attempt_id first_reserved.1.dispatches
            ≡ some first_reserved.0.dispatch)
        × (((latest_dispatch sample_action.execution_attempt_id [] ≡ none)
              × (first_reserved.0.dispatch.ordinal ≡ 1))
            ⊎ ((l : StoredDispatch) × (latest_dispatch sample_action.execution_attempt_id []
                  ≡ some l)
                × (may_retry l ≡ true)
                × (first_reserved.0.dispatch.ordinal ≡ l.ordinal + 1))))
reserve_action_dispatch-cases_example =
    reserve_action_dispatch-cases sample_hash executing_db sample_reservation sample_now
      (value-eq _ runs.5)
