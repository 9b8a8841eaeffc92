-- ===== src/Storage/Execution/Resumed.antt =====
-- What a recovered action is good for.
use twindesk.Prelude.{string_eq}
use twindesk.Domain.Model.{proposal_state_eq, approval_decision_eq}
use twindesk.Storage.Database.{Database}
