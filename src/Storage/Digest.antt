-- ===== src/Storage/Digest.antt =====
-- The digests that bind an approval to what was approved: `computeDraftContentDigest` of
-- draft-action-state.ts, `computeActionApprovalBindings` and `computeApprovalExecutionAttemptId` of
-- approval-state.ts. SHA-256 is Node's: the parameter `sha256_hex` gives the hexadecimal digest of a
-- document, and a document is named by what the source serializes into it.
use twindesk.Prelude.{ℕ, zero, suc, Option, String, ◌!=◌, string_eq}
use twindesk.Time.{IsoTimestamp, ◌▹◌}
use twindesk.Result.{
  Result, ok, draft_action, DraftActionCode, approval, ApprovalCode, throw_if, throw_unless, ◌>>=◌,
  ◌>>◌,
}
use twindesk.Domain.Model.{
  MediaType, DraftContent, IdentityType, ActionIdentity, ExternalReference, ActionProposal,
}
use twindesk.Domain.Json.{Json}
use twindesk.Domain.Validation.{string_at, digest_at, parse_action_proposal, parse_if}

-- What is hashed: the canonical JSON texts, which differ where their fields differ, and a plain text.
pub data Document : Type 0 where
  content_json : MediaType → String → Document
  identity_json : String → String → IdentityType → String → Document
  target_json : String → String → String → String → Option IsoTimestamp → Document
  plain : String → Document
  canonical_json : Json → Document

pub record ActionApprovalBindings : Type 0 where
  pub identity_digest : String
  pub target_digest : String
  pub content_digest : String

abbrev sha256_prefix : String → String
sha256_prefix s = "s" ▹ "h" ▹ "a" ▹ "2" ▹ "5" ▹ "6" ▹ ":" ▹ s

unfoldable pub take_chars : ℕ → String → String
take_chars zero s = ""
take_chars (suc n) String.[] = ""
take_chars (suc n) (String.◌∷◌ c s) = c ▹ take_chars n s

unfoldable pub join : String → String → String
join String.[] t = t
join (String.◌∷◌ c s) t = c ▹ join s t

module _ (sha256_hex : Document → String) where
  unfoldable pub canonical_digest : Document → Result String
  canonical_digest document = parse_if digest_at (sha256_prefix (sha256_hex document))

  unfoldable pub compute_draft_content_digest : DraftContent → Result String
  unfolding canonical_digest
  compute_draft_content_digest content = do
    throw_unless (string_at content.text) (draft_action DraftActionCode.invalid_request)
    canonical_digest (content_json content.media_type content.text)

  -- The digests of the identity and of the target of a proposal.
  unfoldable pub identity_document : ActionIdentity → Document
  identity_document i = identity_json i.connector_id i.account_id i.identity_type i.display_name

  unfoldable pub target_document : ExternalReference → Document
  target_document r =
      target_json r.connector_id r.account_id r.object_type r.external_id r.source_timestamp

  unfoldable pub compute_action_approval_bindings : ActionProposal → Result ActionApprovalBindings
  unfolding compute_draft_content_digest identity_document target_document
  compute_action_approval_bindings proposal_value = do
    proposal ← parse_action_proposal proposal_value
    digest ← compute_draft_content_digest proposal.content
    throw_if (digest != proposal.content_digest) (approval ApprovalCode.binding_mismatch)
    identity ← canonical_digest (identity_document proposal.identity)
    target ← canonical_digest (target_document proposal.target)
    ok (record {
      identity_digest = identity;
      target_digest = target;
      content_digest = proposal.content_digest;
    })

  unfoldable pub compute_approval_execution_attempt_id : String → String
  unfolding take_chars join
  compute_approval_execution_attempt_id approval_id =
      join "execution-approval-" (take_chars 32 (sha256_hex (plain approval_id)))

  unfoldable pub request_transition_id : String → String
  unfolding take_chars join
  request_transition_id approval_id =
      join "transition-approval-request-" (take_chars 32 (sha256_hex (plain approval_id)))
