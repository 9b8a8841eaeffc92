-- ===== src/Lib.antt =====
-- TwinDesk collects messages as events, keeps work items about their threads in an inbox, drafts
-- replies and sends them in a person's name. A batch of events is stored with the work items it
-- gives and the position of its stream, all or nothing; what the user does with a work item is kept
-- apart from it and applied again whenever it is rebuilt. Nothing is sent without an approval: a draft is written and reviewed, an action proposal fixes what is to be sent, an approval
-- is asked for, decided and consumed once, and only then is the action executed, through a Connector
-- to which each dispatch is journalled before it is made and settled by a receipt. This library
-- models the local store that enforces both.
--
-- The parts and their files:
--   Prelude       tests on numbers, lists and equality (`===`) by decision.
--   Result        the error classes with their codes, `try`/`catch` as `rethrow`.
--   Time          `parseIsoTimestamp`, `Date.parse` and `toISOString` of the accepted format
--                 (packages/domain/src/validation.ts, `timestampAt`).
--   Domain.Model, Domain.Validation, Domain.StateTransitions
--                 packages/domain/src/model.ts, connector.ts, validation.ts, state-transitions.ts.
--   Domain.Records, Domain.Parsers, Domain.Audit
--                 the same files' events, threads, work items, user actions, cursors and
--                 audit records.
--   Domain.Json   JSON values and `canonicalJson`, the form in which they are stored and hashed;
--                 Reordered says which values have the same form.
--   Storage.Table, Storage.Database
--                 the SQL used and the tables of packages/storage-sqlite/src/schema.ts.
--   Storage.Digest
--                 the content, identity and target digests that bind an approval to an action.
--   Storage.Events
--                 packages/storage-sqlite/src/event-ingestion.ts: `ingestExternalEvents`; Stored,
--                 Repeat and Again are about ingesting a batch again.
--   Storage.Projection
--                 packages/storage-sqlite/src/work-item-projection.ts: `putWorkItemProjection` (Put,
--                 with the guards of Advance), `applyWorkItemUserAction` (Actions),
--                 `materializeWorkItem` and `rebuildWorkItemProjection` (Materialize), `queryInbox`
--                 (Inbox). View is the specification that Refinement is about, Paging of the pages.
--   Storage.Sync  packages/storage-sqlite/src/sync-cursor.ts: `commitConnectorSyncBatch`, which uses
--                 the two; Forward, Checkpoint and Commit carry the proofs of History.
--   Storage.Audit packages/storage-sqlite/src/audit-timeline.ts: `appendAuditRecords` and
--                 `readAuditRecord`, with `validateReferences` in References; Repeat carries the
--                 proofs of Append, Checked those of Documented. `queryAuditTimeline` is in
--                 Timeline, its pages in TimelinePage.
--   Storage.Pages the pages of both queries: limit and next cursor, the order by time (Order) and in
--                 full (Strict), and what a page holds (Contents).
--   Storage.TextOrder
--                 the order of texts in SQL, by code points.
--   Storage.DraftAction
--                 packages/storage-sqlite/src/draft-action-state.ts: `createDraft`,
--                 `transitionDraft`, `reviseDraft` (Drafts), `createActionProposal`,
--                 `transitionActionProposal` (Proposals).
--   Storage.Approval
--                 packages/storage-sqlite/src/approval-state.ts: `requestActionApproval` (Request),
--                 `decideActionApproval` (Decide), `consumeActionApproval` (Consume). Decided is
--                 about the tables after a decision.
--   Storage.Execution
--                 packages/storage-sqlite/src/action-execution-state.ts: `beginActionExecution`
--                 (Begin), `reserveActionDispatch` (Dispatch), `recordActionExecutionReceipt`
--                 (Receipt), `recoverActionExecution` (Recover).
--                 In these three, Ladder, Order, Grows, Journal and Effects carry the proofs of
--                 Laws, History, Authorized and Resumed.
--   Domain.Tests, Storage.Tests
--                 runs of the operations, and the theorems at concrete inputs.
--
-- Correspondence. A function of the source has the same name in snake case. A table is a list of
-- rows, found and changed by primary key; an operation is a function from the database to a result
-- with the new database. It runs in one BEGIN IMMEDIATE transaction, so operations do not interleave;
-- `committed` keeps the writes of one that succeeds and drops those of one that throws. `kind` and
-- `schemaVersion` have one value each and are left out, and fields that one shape of a record alone
-- has are arguments of its constructor. An argument that the source takes as unknown JSON is a value
-- of the record here: the checks of its values are modelled, those of its shape (own data
-- properties, no unknown key) are not. The clock that an operation reads, `nowMs`, is an argument.
--
-- Times are texts, compared through the milliseconds since the start of the year 0, which is the
-- order of `Date.parse`; the clock is given on the same scale, and the execution operations refuse
-- one before 1970. The search for the year of an instant has fuel 40, more than the years by which
-- dividing by 366 days falls short in the format's 10,000 years, and the one for the month 11.
--
-- Parameters. `sha256_hex` stands for Node's SHA-256 in hexadecimal, on the canonical JSON texts
-- named by the type `Document`. One theorem assumes a property of it, that the digests of events tell
-- their ids and idempotency keys apart.
--
-- Stored forms. A thread or a work item is stored with the rows of its link tables, in their order;
-- an event with its missing parts sorted and its object in canonical form, as its JSON columns hold
-- them, and a number in JSON is its text. JavaScript sorts texts by their UTF-16 units, SQLite by their
-- code points.
-- `canonicalValue` of two parsed records is compared as equality of the records.
--
-- Not modelled: failures of SQLite itself (a lock that is not granted, I/O), foreign keys and
-- cascades, CHECK constraints beyond those that repeat the parsers, migrations, and the other
-- tables with their operations: thread lifecycle (so that `deleted_threads` is only read) and
-- maintenance audit. Of the other packages nothing is modelled: the Feishu and Jira
-- plugins, the work hub, the workbench bundle, the harness adapter and the web shell call this store
-- or do I/O.
pub mod Prelude
pub mod Result
pub mod Time
pub mod Domain
pub mod Storage
