-- ===== src/Storage/Projection.antt =====
-- packages/storage-sqlite/src/work-item-projection.ts: threads and work items, and the work item that
-- a base and the user's actions on it make.
pub mod Rows
pub mod Advance
pub mod Materialize
pub mod Put
pub mod Actions
pub mod Inbox
pub mod Paging
pub mod View
pub mod Effects
pub mod Refinement
pub mod Sources
pub mod SourceHistory
pub mod ActionLog
pub mod ActionHistory
