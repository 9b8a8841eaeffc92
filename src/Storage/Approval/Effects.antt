-- ===== src/Storage/Approval/Effects.antt =====
-- What each operation on approvals does to the table of approvals.
use twindesk.Prelude.{
  ℕ, ◌≡◌, refl, ◌⊎◌, inl, inr, true, some, String, arith, is_some, string_eq, option_eq,
}
use twindesk.Result.{ok}
use twindesk.Domain.Model.{ApprovalRecord, approval_decision_eq, proposal_state_eq}
use twindesk.Domain.Validation.{parse_approval_record}
use twindesk.Storage.Table.{update, find-update, key-find, insert, update_one}
use twindesk.Storage.Database.{Database}
use twindesk.Storage.Digest.{Document}
use twindesk.Storage.Approval.Requests.{
  ActionApprovalRequest, ActionApprovalDecision, ActionApprovalConsumption, ActionApprovalResult,
  ActionApprovalConsumptionResult, parse_request, parse_decision, parse_consumption, approval_row,
  read_approval_in_snapshot, parse_stored_approval, require_approval, duplicate,
}
use twindesk.Storage.Approval.Request.{
  request_action_approval, request_transaction, new_request, repeated_request,
}
use twindesk.Storage.Approval.Decide.{
  decide_action_approval, decide_transaction, new_decision, write_decision,
}
use twindesk.Storage.Approval.Consume.{
  consume_action_approval, consume_transaction, new_consumption, write_consumption,
}

module _ (sha256_hex : Document → String) where
  pub request_effect :
      (db : Database) (r : ActionApprovalRequest) (now : ℕ) {x : ActionApprovalResult}
      {db' : Database}
      → request_action_approval sha256_hex db r now ≡ ok (x, db')
      → (db' ≡ db) ⊎ (insert (λ row. row.id) x.approval db.approvals ≡ ok db'.approvals)
  unfolding request_action_approval request_transaction new_request repeated_request parse_request
  request_effect db r now h = ground arith

  pub decide_effect :
      (db : Database) (d : ActionApprovalDecision) (now : ℕ) {x : ActionApprovalResult}
      {db' : Database}
      → decide_action_approval sha256_hex db d now ≡ ok (x, db')
      → (db' ≡ db) ⊎ (write_decision db x.approval ≡ ok db'.approvals)
  unfolding decide_action_approval decide_transaction new_decision parse_decision
  decide_effect db d now h = ground arith

  pub consume_effect :
      (db : Database) (c : ActionApprovalConsumption) (now : ℕ)
      {x : ActionApprovalConsumptionResult} {db' : Database}
      → consume_action_approval sha256_hex db c now ≡ ok (x, db')
      → (db' ≡ db) ⊎ (write_consumption db x.approval.id c.consumed_at ≡ ok db'.approvals)
  unfolding consume_action_approval consume_transaction new_consumption parse_consumption
      parse_approval_record
  consume_effect db c now h = ground arith

  consume_shape :
      (db : Database) (c : ActionApprovalConsumption) (now : ℕ)
      {x : ActionApprovalConsumptionResult} {db' : Database}
      → consume_action_approval sha256_hex db c now ≡ ok (x, db')
      → ((approval_row db c.approval_id ≡ some x.approval)
          × (db' ≡ db)
          × (is_some x.approval.consumed_at ≡ true))
        ⊎ ((a : ApprovalRecord) × (approval_row db c.approval_id ≡ some a)
            × (x.approval ≡ record a { consumed_at = some c.consumed_at })
            × (db'.approvals
                ≡ update
                    (λ row. row.id)
                    a.id
                    (λ row. record row { consumed_at = some c.consumed_at })
                    db.approvals))
  unfolding consume_action_approval consume_transaction new_consumption parse_consumption
      parse_approval_record write_consumption update_one require_approval read_approval_in_snapshot
      parse_stored_approval
  consume_shape db c now h = ground arith

  -- After a consumption the row is the approval that it returned.
  pub consume_row :
      (db : Database) (c : ActionApprovalConsumption) (now : ℕ)
      {x : ActionApprovalConsumptionResult} {db' : Database}
      → consume_action_approval sha256_hex db c now ≡ ok (x, db')
      → (approval_row db' c.approval_id ≡ some x.approval) × (is_some x.approval.consumed_at ≡ true)
  unfolding approval_row
  consume_row db c now h = elim (consume_shape db c now h) [
    | inl (found, same, used) ↦ (rw same found, used)
    | inr (a, found, is, after) ↦
        (let same = key-find (λ row. row.id) c.approval_id db.approvals a found in
          ground (
            arith,
            find-update (λ row. row.id) a.id c.approval_id
                (λ row. record row { consumed_at = some c.consumed_at }) (λ row. refl) db.approvals,
          ))
  ]

  pub consume_again :
      (db : Database) (c : ActionApprovalConsumption) (now : ℕ)
      {x : ActionApprovalConsumptionResult} {db' : Database} (a : ApprovalRecord)
      → approval_row db c.approval_id ≡ some a
      → is_some a.consumed_at ≡ true
      → consume_action_approval sha256_hex db c now ≡ ok (x, db')
      → (x.disposition ≡ duplicate) × (x.approval ≡ a) × (db' ≡ db)
  unfolding consume_action_approval consume_transaction new_consumption parse_consumption
      parse_approval_record require_approval read_approval_in_snapshot parse_stored_approval
  consume_again db c now a found h e = ground arith
