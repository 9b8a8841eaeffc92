-- ===== src/Storage/DraftAction.antt =====
-- packages/storage-sqlite/src/draft-action-state.ts: drafts and their revisions, proposals, and the
-- local transitions of both.
pub mod Rows
pub mod Drafts
pub mod Proposals
