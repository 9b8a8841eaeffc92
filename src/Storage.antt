-- ===== src/Storage.antt =====
-- packages/storage-sqlite: the local database as a record of its tables, and the operations on it,
-- each of which runs in one transaction.
pub mod Table
pub mod Pages
pub mod TextOrder
pub mod Database
pub mod Digest
pub mod Events
pub mod Projection
pub mod Sync
pub mod DraftAction
pub mod Approval
pub mod Execution
pub mod Audit
mod Tests
