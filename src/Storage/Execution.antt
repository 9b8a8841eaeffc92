-- ===== src/Storage/Execution.antt =====
-- packages/storage-sqlite/src/action-execution-state.ts: an approved and consumed action is begun,
-- its dispatches to the Connector are reserved and settled, and its receipt is recorded.
pub mod Requests
pub mod Begin
pub mod Dispatch
pub mod Receipt
pub mod Recover
pub mod Resumed
pub mod Journal
pub mod Effects
pub mod History
pub mod Authorized
