-- ===== src/Storage/Execution/Authorized.antt =====
-- What a database must hold for an execution to begin, and for a dispatch to be reserved.
use mathlib.Core.Path.{subst}
use twindesk.Prelude.{ℕ, ◌≡◌, true, false, some, String, arith, is_some, ltb, string_eq}
use twindesk.Time.{IsoTimestamp, date_parse, clock_timestamp}
use twindesk.Result.{>>=-eq-ok, rethrow-eq-ok, ok}
use twindesk.Domain.Model.{
  ProposalState, ActionProposal, ApprovalDecision, ApprovalRecord, ApprovedAction,
  proposal_state_eq, approval_decision_eq,
}
use twindesk.Domain.Validation.{parse_action_proposal, parse_approval_record}
use twindesk.Storage.Database.{Database}
use twindesk.Storage.Digest.{Document, compute_action_approval_bindings}
use twindesk.Storage.DraftAction.Rows.{read_action_proposal, proposal_row, parse_stored_proposal}
use twindesk.Storage.Approval.Requests.{
  approval_row, read_approval_in_snapshot, read_action_approval, parse_stored_approval,
}
use twindesk.Storage.Execution.Requests.{
  catch_execution, observed_timestamp, require_durable_action, durable_approval,
}
use twindesk.Storage.Execution.Begin.{
  ActionExecutionStart, ActionExecutionStartResult, begin_action_execution, begin_transaction,
  parse_start, outside_execution,
}
use twindesk.Storage.Execution.Dispatch.{
  ActionDispatchReservation, ActionDispatchReservationResult, reserve_action_dispatch,
  reserve_transaction, unauthorized_dispatch, parse_dispatch_reservation,
}

observed_clock :
    (now : ℕ) (at : IsoTimestamp) → observed_timestamp now ≡ ok at → clock_timestamp now ≡ some at
unfolding observed_timestamp
observed_clock now at h = ground arith

-- The durable proposal and approval of an action: approved, consumed, and not ended at `observed`.
pub record IsAuthorized (db : Database) (action : ApprovedAction) (observed : ℕ)
    (p : ActionProposal) : Type 0 where
  pub a : ApprovalRecord
  pub proposed : proposal_row db action.proposal.id ≡ some p
  pub stored : approval_row db action.approval.id ≡ some a
  pub of_proposal : a.proposal_id ≡ p.id
  pub approved : a.decision ≡ ApprovalDecision.approved
  pub consumed : is_some a.consumed_at ≡ true
  pub same_content : a.content_digest ≡ p.content_digest
  pub in_time : ltb (date_parse a.expires_at) observed ≡ false

pub record MayDispatch (db : Database) (r : ActionDispatchReservation) (observed : ℕ) : Type 0 where
  pub p : ActionProposal
  pub authorized : IsAuthorized db r.action observed p
  pub executing : p.state ≡ ProposalState.executing
  pub since : ltb (date_parse r.reserved_at) (date_parse p.updated_at) ≡ false
  pub not_future : ltb observed (date_parse r.reserved_at) ≡ false

module _ (sha256_hex : Document → String) where
  read_approved :
      (db : Database) (action : ApprovedAction) {p : ActionProposal} {a : ApprovalRecord}
      → require_durable_action sha256_hex db action ≡ ok p
      → durable_approval db action ≡ ok a
      → (proposal_row db action.proposal.id ≡ some p)
        × (approval_row db action.approval.id ≡ some a)
        × (a.proposal_id ≡ p.id)
        × (a.decision ≡ ApprovalDecision.approved)
        × (is_some a.consumed_at ≡ true)
        × (a.content_digest ≡ p.content_digest)
  unfolding require_durable_action durable_approval read_action_approval read_approval_in_snapshot
      parse_stored_approval parse_approval_record read_action_proposal parse_stored_proposal
      parse_action_proposal compute_action_approval_bindings
  read_approved db action h g = ground arith

  reads-IsAuthorized :
      (db : Database) (action : ApprovedAction) (observed : ℕ) (p : ActionProposal)
      (a : ApprovalRecord)
      → require_durable_action sha256_hex db action ≡ ok p
      → durable_approval db action ≡ ok a
      → ltb (date_parse a.expires_at) observed ≡ false
      → IsAuthorized db action observed p
  reads-IsAuthorized db action observed p a h g e =
      let (proposed, stored, of_proposal, approved, consumed, same) = read_approved db action h g in
      record {
        a = a;
        proposed = proposed;
        stored = stored;
        of_proposal = of_proposal;
        approved = approved;
        consumed = consumed;
        same_content = same;
        in_time = e;
      }

  begin_transaction_reads :
      (db : Database) (s : ActionExecutionStart) (observed : ℕ)
      {x : ActionExecutionStartResult × Database}
      → begin_transaction sha256_hex db s observed ≡ ok x
      → (p : ActionProposal) × IsAuthorized db s.action observed p
  unfolding begin_transaction outside_execution
  begin_transaction_reads db s observed h =
      let (p, e, rest) = >>=-eq-ok (require_durable_action sha256_hex db s.action) _ h in
      let (a, f, last) = >>=-eq-ok (durable_approval db s.action) _ rest in
      (p, reads-IsAuthorized db s.action observed p a e f (ground arith))

  reserve_transaction_reads :
      (db : Database) (r : ActionDispatchReservation) (observed : ℕ)
      {x : ActionDispatchReservationResult × Database}
      → reserve_transaction sha256_hex db r observed ≡ ok x
      → MayDispatch db r observed
  unfolding reserve_transaction unauthorized_dispatch
  reserve_transaction_reads db r observed h =
      let (p, e, rest) = >>=-eq-ok (require_durable_action sha256_hex db r.action) _ h in
      let (a, f, last) = >>=-eq-ok (durable_approval db r.action) _ rest in
      record {
        p = p;
        authorized = reads-IsAuthorized db r.action observed p a e f (ground arith);
        executing = ground arith;
        since = ground arith;
        not_future = ground arith;
      }

  parse_start_same : (s s' : ActionExecutionStart) → parse_start sha256_hex s ≡ ok s' → s' ≡ s
  unfolding parse_start
  parse_start_same s s' h = ground arith

  parse_dispatch_reservation_same :
      (r r' : ActionDispatchReservation) → parse_dispatch_reservation sha256_hex r ≡ ok r' → r' ≡ r
  unfolding parse_dispatch_reservation
  parse_dispatch_reservation_same r r' h = ground arith

  -- An execution begins, or is found begun, only where the database holds the proposal of the
  -- action and an approval of it that was approved and consumed, binds the same content, and has
  -- not ended at the observed time.
  pub begin_action_execution-IsAuthorized :
      (db : Database) (s : ActionExecutionStart) (now : ℕ)
      {x : ActionExecutionStartResult × Database}
      → begin_action_execution sha256_hex db s now ≡ ok x
      → (at : IsoTimestamp) × (clock_timestamp now ≡ some at)
        × (p : ActionProposal) × IsAuthorized db s.action (date_parse at) p
  unfolding begin_action_execution
  begin_action_execution-IsAuthorized db s now {x} h =
      let (s', e, rest) = >>=-eq-ok (parse_start sha256_hex s) _ h in
      let (at, f, last) = >>=-eq-ok (observed_timestamp now) _ rest in
      let begun = rethrow-eq-ok catch_execution _ last in
      let (p, authorized) = begin_transaction_reads db s' (date_parse at) begun in
      (
        at,
        observed_clock now at f,
        p,
        subst (λ v. IsAuthorized db v.action (date_parse at) p) (parse_start_same s s' e)
            authorized,
      )

  -- A dispatch is reserved, or found blocked, only where the proposal of the action is executing and
  -- was last changed no later than the reservation's time, which is not in the future, and an
  -- approval of it was approved and consumed, binds the same content and has not ended.
  pub reserve_action_dispatch-IsAuthorized :
      (db : Database) (r : ActionDispatchReservation) (now : ℕ)
      {x : ActionDispatchReservationResult × Database}
      → reserve_action_dispatch sha256_hex db r now ≡ ok x
      → (at : IsoTimestamp) × (clock_timestamp now ≡ some at) × MayDispatch db r (date_parse at)
  unfolding reserve_action_dispatch
  reserve_action_dispatch-IsAuthorized db r now {x} h =
      let (r', e, rest) = >>=-eq-ok (parse_dispatch_reservation sha256_hex r) _ h in
      let (at, f, last) = >>=-eq-ok (observed_timestamp now) _ rest in
      let done = rethrow-eq-ok catch_execution _ last in
      (
        at,
        observed_clock now at f,
        subst (λ v. MayDispatch db v (date_parse at)) (parse_dispatch_reservation_same r r' e)
            (reserve_transaction_reads db r' (date_parse at) done),
      )
