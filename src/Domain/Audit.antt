-- ===== src/Domain/Audit.antt =====
-- packages/domain/src/model.ts, `AuditRecord`, and validation.ts, `parseAuditRecord`.
use twindesk.Prelude.{Bool, true, ◌&&◌, List, String, Eq, String_discrete, all, ◌==◌, string_eq}
use twindesk.Time.{IsoTimestamp, timestamp_at}
use twindesk.Result.{Result}
use twindesk.Domain.Json.{Members, object, json_at}
use twindesk.Domain.Parsers.{distinct_by, is_nonempty}
use twindesk.Domain.Validation.{string_at, parse_if}

pub data AuditCategory : Type 0 where
  ingestion routing run draft approval execution system : AuditCategory

pub data AuditOutcome : Type 0 where
  pending success failure cancelled uncertain : AuditOutcome

-- Every actor but the system has an id.
pub data AuditActor : Type 0 where
  system : AuditActor
  user persona connector : String → AuditActor

pub data AuditReferenceKind : Type 0 where
  connector external_event external_thread work_item session run tool_call draft action_proposal
        approval_record action_receipt connector_cursor :
      AuditReferenceKind

pub record AuditReference : Type 0 where
  pub kind : AuditReferenceKind
  pub id : String

pub record AuditRecord : Type 0 where
  pub id : String
  pub category : AuditCategory
  pub outcome : AuditOutcome
  pub actor : AuditActor
  pub summary : String
  pub references : List AuditReference
  pub details : Members
  pub occurred_at : IsoTimestamp

unfoldable pub AuditCategory_discrete : Discrete AuditCategory
AuditCategory_discrete = hlevel

instance abbrev pub audit_category_eq : Eq AuditCategory
audit_category_eq = record { dec = AuditCategory_discrete }

unfoldable pub AuditOutcome_discrete : Discrete AuditOutcome
AuditOutcome_discrete = hlevel

instance abbrev pub audit_outcome_eq : Eq AuditOutcome
audit_outcome_eq = record { dec = AuditOutcome_discrete }

unfoldable pub AuditActor_discrete : Discrete AuditActor
AuditActor_discrete = hlevel String_discrete

instance abbrev pub audit_actor_eq : Eq AuditActor
audit_actor_eq = record { dec = AuditActor_discrete }

unfoldable pub AuditReferenceKind_discrete : Discrete AuditReferenceKind
AuditReferenceKind_discrete = hlevel

instance abbrev pub audit_reference_kind_eq : Eq AuditReferenceKind
audit_reference_kind_eq = record { dec = AuditReferenceKind_discrete }

unfoldable pub audit_actor_at : AuditActor → Bool
audit_actor_at AuditActor.system = true
audit_actor_at (AuditActor.user id) = string_at id
audit_actor_at (AuditActor.persona id) = string_at id
audit_actor_at (AuditActor.connector id) = string_at id

abbrev pub same_audit_reference : AuditReference → AuditReference → Bool
same_audit_reference r s = r.kind == s.kind && r.id == s.id

unfoldable pub audit_record_at : AuditRecord → Bool
unfolding audit_actor_at distinct_by
audit_record_at a =
    string_at a.id
    && audit_actor_at a.actor
    && string_at a.summary
    && is_nonempty a.references
    && all (λ r. string_at r.id) a.references
    && distinct_by same_audit_reference a.references
    && json_at 0 (object a.details)
    && timestamp_at a.occurred_at

unfoldable pub parse_audit_record : AuditRecord → Result AuditRecord
parse_audit_record = parse_if audit_record_at
