-- ===== src/Storage/Approval.antt =====
-- packages/storage-sqlite/src/approval-state.ts: an approval is requested, decided and consumed once.
pub mod Requests
pub mod Request
pub mod Decide
pub mod Consume
pub mod Grows
pub mod Effects
pub mod Decided
pub mod History
