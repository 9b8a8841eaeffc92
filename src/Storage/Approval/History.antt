-- ===== src/Storage/Approval/History.antt =====
-- What any history of calls leaves of the approvals that are stored.
use twindesk.Prelude.{
  ℕ, ◌≡◌, refl, inl, inr, true, Option, none, some, List, [], ◌∷◌, String, arith, is_some,
}
use twindesk.Result.{ok, Thrown}
use twindesk.Domain.Model.{ApprovalRecord, approval_decision_eq}
use twindesk.Storage.Table.{find}
use twindesk.Storage.Database.{Database, committed, committed-keeps}
use twindesk.Storage.Digest.{Document}
use twindesk.Storage.DraftAction.Rows.{or_throw}
use twindesk.Storage.Approval.Requests.{
  ActionApprovalRequest, ActionApprovalDecision, ActionApprovalConsumption,
  ActionApprovalConsumptionResult, approval_row, duplicate,
}
use twindesk.Storage.Approval.Request.{request_action_approval}
use twindesk.Storage.Approval.Decide.{decide_action_approval, write_decision}
use twindesk.Storage.Approval.Consume.{consume_action_approval, write_consumption}
use twindesk.Storage.Approval.Grows.{Grows, Grows-refl, Grows-trans, insert-Grows, update_one-Grows}
use twindesk.Storage.Approval.Effects.{
  request_effect, decide_effect, consume_effect, consume_row, consume_again,
}

-- Each call with the clock that it reads.
pub data ApprovalCall : Type 0 where
  requests : ActionApprovalRequest → ℕ → ApprovalCall
  decides : ActionApprovalDecision → ℕ → ApprovalCall
  consumes : ActionApprovalConsumption → ℕ → ApprovalCall

or_throw-some : {A : Type 0} (m : Option A) (e : Thrown) {a : A} → or_throw m e ≡ ok a → m ≡ some a
or_throw-some none e h = cc
or_throw-some (some a) e h = cc

grown :
    (x y : Option ApprovalRecord) (a : ApprovalRecord)
    → x ≡ some a
    → is_some a.consumed_at ≡ true
    → Grows x y
    → (b : ApprovalRecord) × (y ≡ some b) × (b.consumed_at ≡ a.consumed_at)
grown none y a e h g = cc
grown (some r) none a e h g = absurd g
grown (some r) (some b) a e h g = (b, refl, ground (arith, g.consumed))

write_decision-Grows :
    (db : Database) (a : ApprovalRecord) (j : String) {rows : List ApprovalRecord}
    → write_decision db a ≡ ok rows
    → Grows (approval_row db j) (find (λ x. x.id) j rows)
unfolding approval_row write_decision
write_decision-Grows db a j h =
    update_one-Grows a.id _ _ db.approvals j (λ r. refl)
      (λ r pending. record {
        id = refl;
        proposal_id = refl;
        identity_digest = refl;
        target_digest = refl;
        content_digest = refl;
        requested_at = refl;
        expires_at = refl;
        decided = inl (ground arith);
        consumed = inr refl;
      })
      (or_throw-some _ _ h)

write_consumption-Grows :
    (db : Database) (id : String) (at : String) (j : String) {rows : List ApprovalRecord}
    → write_consumption db id at ≡ ok rows
    → Grows (approval_row db j) (find (λ x. x.id) j rows)
unfolding approval_row write_consumption
write_consumption-Grows db id at j h =
    update_one-Grows id _ _ db.approvals j (λ r. refl)
      (λ r unused. record {
        id = refl;
        proposal_id = refl;
        identity_digest = refl;
        target_digest = refl;
        content_digest = refl;
        requested_at = refl;
        expires_at = refl;
        decided = inr (refl, refl, refl);
        consumed = inl (ground arith);
      })
      (or_throw-some _ _ h)

module _ (sha256_hex : Document → String) where
  unfoldable pub call : Database → ApprovalCall → Database
  call db (requests r now) = committed db (request_action_approval sha256_hex db r now)
  call db (decides d now) = committed db (decide_action_approval sha256_hex db d now)
  call db (consumes c now) = committed db (consume_action_approval sha256_hex db c now)

  unfoldable pub calls : Database → List ApprovalCall → Database
  calls db [] = db
  calls db (c ∷ cs) = calls (call db c) cs

  call-Grows :
      (db : Database) (c : ApprovalCall) (j : String)
      → Grows (approval_row db j) (approval_row (call db c) j)
  unfolding call approval_row
  call-Grows db (requests r now) j =
      committed-keeps (λ x. Grows (approval_row db j) (approval_row x j)) db
        (request_action_approval sha256_hex db r now) (Grows-refl _)
        (λ x db' e. elim (request_effect sha256_hex db r now e) [
          | inl same ↦ rw same (Grows-refl _)
          | inr done ↦ insert-Grows x.approval db.approvals j done
        ])
  call-Grows db (decides d now) j =
      committed-keeps (λ x. Grows (approval_row db j) (approval_row x j)) db
        (decide_action_approval sha256_hex db d now) (Grows-refl _)
        (λ x db' e. elim (decide_effect sha256_hex db d now e) [
          | inl same ↦ rw same (Grows-refl _)
          | inr done ↦ write_decision-Grows db x.approval j done
        ])
  call-Grows db (consumes c now) j =
      committed-keeps (λ x. Grows (approval_row db j) (approval_row x j)) db
        (consume_action_approval sha256_hex db c now) (Grows-refl _)
        (λ x db' e. elim (consume_effect sha256_hex db c now e) [
          | inl same ↦ rw same (Grows-refl _)
          | inr done ↦ write_consumption-Grows db x.approval.id c.consumed_at j done
        ])

  -- Over any history of requests, decisions and consumptions, refused ones included, a stored
  -- approval stays stored; its request, its digests and its lifetime never change, its decision and
  -- its responder not once it is decided, and its consumption not once it is consumed.
  pub calls-Grows :
      (db : Database) (cs : List ApprovalCall) (id : String)
      → Grows (approval_row db id) (approval_row (calls db cs) id)
  unfolding calls
  calls-Grows db [] id = Grows-refl _
  calls-Grows db (c ∷ cs) id =
      Grows-trans _ _ _ (call-Grows db c id) (calls-Grows (call db c) cs id)

  still_consumed :
      (db : Database) (cs : List ApprovalCall) (id : String) (a : ApprovalRecord)
      → approval_row db id ≡ some a
      → is_some a.consumed_at ≡ true
      → (b : ApprovalRecord) × (approval_row (calls db cs) id ≡ some b)
        × (b.consumed_at ≡ a.consumed_at)
  still_consumed db cs id a found h = grown _ _ a found h (calls-Grows db cs id)

  -- An approval is consumed once: after a consumption and any later history of calls, a consumption
  -- of the same approval that succeeds only repeats the first one. It is marked a duplicate, returns
  -- the time of the first, and leaves the database as it is.
  pub consume_action_approval-once :
      (db : Database) (c c' : ActionApprovalConsumption) (now now' : ℕ) (cs : List ApprovalCall)
      {x y : ActionApprovalConsumptionResult} {db' db'' : Database}
      → consume_action_approval sha256_hex db c now ≡ ok (x, db')
      → c'.approval_id ≡ c.approval_id
      → consume_action_approval sha256_hex (calls db' cs) c' now' ≡ ok (y, db'')
      → (y.disposition ≡ duplicate)
        × (y.approval.consumed_at ≡ x.approval.consumed_at)
        × (db'' ≡ calls db' cs)
  consume_action_approval-once db c c' now now' cs {x} {y} {db'} {db''} h same again =
      let (row, used) = consume_row sha256_hex db c now h in
      let (b, found, e) = still_consumed db' cs c.approval_id x.approval row used in
      let (d, is, unchanged) =
        consume_again sha256_hex (calls db' cs) c' now' b (rw same found) (rw e used) again in
      (d, rw is e, unchanged)
