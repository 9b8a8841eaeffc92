-- ===== src/Storage/Approval/Requests.antt =====
-- packages/storage-sqlite/src/approval-state.ts: the three requests as they are parsed, the clock,
-- and what the operations read.
use twindesk.Prelude.{
  ℕ, ◌+◌, ◌-◌, ◌*◌, Bool, true, false, not, ◌&&◌, ◌||◌, Option, none, some, List, [], ◌∷◌, String,
  any, ltb, leb, ◌==◌, ◌!=◌, string_eq, option_eq, nat_eq, if◌then◌else◌,
}
use twindesk.Time.{IsoTimestamp, codes, timestamp_at, date_parse, clock_timestamp}
use twindesk.Result.{Result, ok, Thrown, approval, ◌>>=◌, ◌>>◌, throw_if, throw_unless, rethrow}
use twindesk.Result.{ApprovalCode as Code}
use twindesk.Domain.Model.{
  ProposalState, ActionProposal, ApprovalDecision, ApprovalRecord, ApprovedAction,
  proposal_state_eq, approval_decision_eq,
}
use twindesk.Domain.Validation.{is_space, digest_at, parse_action_proposal, parse_approval_record}
use twindesk.Storage.Table.{find}
use twindesk.Storage.Database.{Database}
use twindesk.Storage.Digest.{Document, ActionApprovalBindings, compute_action_approval_bindings}
use twindesk.Storage.DraftAction.Rows.{read_action_proposal, or_throw}

-- 24 hours.
abbrev pub max_approval_ttl_ms : ℕ
max_approval_ttl_ms = 24 * 60 * 60 * 1000

pub record ActionApprovalRequest : Type 0 where
  pub id : String
  pub proposal_id : String
  pub requested_at : IsoTimestamp
  pub expires_at : IsoTimestamp

-- The decisions that may be asked for: every one but `pending`.
pub record ActionApprovalDecision : Type 0 where
  pub approval_id : String
  pub proposal_id : String
  pub decision : ApprovalDecision
  pub bindings : ActionApprovalBindings
  pub decided_at : IsoTimestamp
  pub responder_user_id : Option String

pub record ActionApprovalConsumption : Type 0 where
  pub approval_id : String
  pub proposal_id : String
  pub bindings : ActionApprovalBindings
  pub consumed_at : IsoTimestamp

abbrev pub fail : Code → Thrown
fail = approval

-- The last `catch` of each operation.
abbrev pub catch_approval : Thrown → Thrown
catch_approval (approval code) = approval code
catch_approval _ = approval Code.storage_error

-- The UTF-16 units of a text.
unfoldable pub units : List ℕ → ℕ
units [] = 0
units (c ∷ cs) = (if ltb c 65536 then 1 else 2) + units cs

unfoldable pub first_is : (ℕ → Bool) → List ℕ → Bool
first_is p [] = false
first_is p (c ∷ cs) = p c

unfoldable pub last_is : (ℕ → Bool) → List ℕ → Bool
last_is p [] = false
last_is p (c ∷ []) = p c
last_is p (c ∷ d ∷ cs) = last_is p (d ∷ cs)

abbrev is_control : ℕ → Bool
is_control c = leb c 31 || c == 127

-- `identifier` and `boundedString`: 1 to `maximum` units, no white space at the ends, no control
-- character.
unfoldable pub bounded_string : ℕ → String → Bool
unfolding units first_is last_is
bounded_string maximum s =
    let text = codes s in
    leb 1 (units text)
    && leb (units text) maximum
    && not (first_is is_space text)
    && not (last_is is_space text)
    && not (any is_control text)

abbrev pub identifier : String → Bool
identifier = bounded_string 512

-- The clock is a safe integer; a time outside the format is refused.
unfoldable pub observed_timestamp : ℕ → Result IsoTimestamp
observed_timestamp now = or_throw (clock_timestamp now) (fail Code.invalid_request)

unfoldable pub parse_request : ActionApprovalRequest → Result ActionApprovalRequest
parse_request r = do
  throw_unless (timestamp_at r.requested_at && timestamp_at r.expires_at)
      (fail Code.invalid_request)
  throw_if
      (leb (date_parse r.expires_at) (date_parse r.requested_at)
        || ltb max_approval_ttl_ms (date_parse r.expires_at - date_parse r.requested_at))
      (fail Code.invalid_request)
  throw_unless (identifier r.id && identifier r.proposal_id) (fail Code.invalid_request)
  ok r

unfoldable pub bindings_at : ActionApprovalBindings → Bool
bindings_at b =
    digest_at b.identity_digest && digest_at b.target_digest && digest_at b.content_digest

-- An expiry has no responder, every other decision has one.
unfoldable pub responder_at : ApprovalDecision → Option String → Bool
responder_at ApprovalDecision.pending responder = false
responder_at ApprovalDecision.expired none = true
responder_at ApprovalDecision.expired (some user) = false
responder_at _ none = false
responder_at _ (some user) = identifier user

unfoldable pub parse_decision : ActionApprovalDecision → Result ActionApprovalDecision
unfolding responder_at bindings_at
parse_decision d = do
  throw_unless
      (responder_at d.decision d.responder_user_id
        && identifier d.approval_id
        && identifier d.proposal_id
        && bindings_at d.bindings
        && timestamp_at d.decided_at)
      (fail Code.invalid_request)
  ok d

unfoldable pub parse_consumption : ActionApprovalConsumption → Result ActionApprovalConsumption
unfolding bindings_at
parse_consumption c = do
  throw_unless
      (identifier c.approval_id
        && identifier c.proposal_id
        && bindings_at c.bindings
        && timestamp_at c.consumed_at)
      (fail Code.invalid_request)
  ok c

unfoldable pub parse_stored_approval : ApprovalRecord → Result ApprovalRecord
parse_stored_approval row =
    rethrow (λ _. fail Code.stored_record_invalid) (parse_approval_record row)

unfoldable pub approval_row : Database → String → Option ApprovalRecord
approval_row db id = find (λ a. a.id) id db.approvals

unfoldable pub read_approval_in_snapshot : Database → String → Result (Option ApprovalRecord)
unfolding parse_stored_approval
read_approval_in_snapshot db id = elim (approval_row db id) [
  | none ↦ ok none
  | some row ↦ (parse_stored_approval row >>= λ a. ok (some a))
]

unfoldable pub read_action_approval : Database → String → Result (Option ApprovalRecord)
unfolding read_approval_in_snapshot
read_action_approval db id = do
  throw_unless (identifier id) (fail Code.invalid_request)
  rethrow catch_approval (read_approval_in_snapshot db id)

abbrev pub same_bindings : ActionApprovalBindings → ActionApprovalBindings → Bool
same_bindings left right =
    left.identity_digest == right.identity_digest
    && left.target_digest == right.target_digest
    && left.content_digest == right.content_digest

abbrev pub approval_bindings : ApprovalRecord → ActionApprovalBindings
approval_bindings a = record {
  identity_digest = a.identity_digest;
  target_digest = a.target_digest;
  content_digest = a.content_digest;
}

unfoldable pub require_proposal : Database → String → Result ActionProposal
require_proposal db id = do
  found ← read_action_proposal db id
  or_throw found (fail Code.missing_proposal)

unfoldable pub require_approval : Database → String → String → Result ApprovalRecord
require_approval db approval_id proposal_id = do
  found ← read_approval_in_snapshot db approval_id
  a ← or_throw found (fail Code.missing_approval)
  throw_if (a.proposal_id != proposal_id) (fail Code.missing_approval)
  ok a

abbrev expected_matches : ActionApprovalBindings → Option ActionApprovalBindings → Bool
expected_matches durable none = true
expected_matches durable (some expected) = same_bindings durable expected

unfoldable pub proposal_for_state :
    ActionProposal → ProposalState → IsoTimestamp → Result ActionProposal
proposal_for_state p s t = parse_action_proposal (record p { state = s; updated_at = t })

pub data Disposition : Type 0 where
  inserted applied consumed duplicate : Disposition

pub record ActionApprovalResult : Type 0 where
  pub disposition : Disposition
  pub approval : ApprovalRecord
  pub proposal : ActionProposal

pub record ActionApprovalConsumptionResult : Type 0 where
  pub disposition : Disposition
  pub approval : ApprovalRecord
  pub action : ApprovedAction

abbrev pub set_proposal : ProposalState → IsoTimestamp → ActionProposal → ActionProposal
set_proposal s t p = record p { state = s; updated_at = t }

module _ (sha256_hex : Document → String) where
  unfoldable pub assert_bindings :
      ActionProposal → ApprovalRecord → Option ActionApprovalBindings → Result (Unit {0})
  assert_bindings p a expected = do
    durable ← compute_action_approval_bindings sha256_hex p
    throw_unless (same_bindings durable (approval_bindings a) && expected_matches durable expected)
        (fail Code.binding_mismatch)
