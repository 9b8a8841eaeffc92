-- ===== src/Storage/Tests/Synced.antt =====
-- The theorems on synchronized batches, work items and the inbox at concrete inputs.
mod Batch
use Batch.*
use twindesk.Storage.Tests.Samples.{
  is_ok, value, value-eq, sample_hash, sample_target, sample_thread, sample_item, sample_db,
}
use twindesk.Prelude.{
  ℕ, suc, ◌+◌, ◌≤◌, ◌≡◌, refl, Bool, true, none, some, Option, List, [], ◌∷◌, ◌++◌, String, length,
  String_discrete, Option_discrete, ℕ_discrete, all,
}
use twindesk.Result.{Result, ok}
use twindesk.Domain.Records.{ExternalEvent, InboxState}
use twindesk.Storage.Table.{find, upsert, update, select}
use twindesk.Storage.Database.{Database}
use twindesk.Storage.Events.{ingest_external_events}
use twindesk.Storage.Events.Again.{
  all_duplicates, ingest_external_events-again, ingest_external_events-adds,
}
use twindesk.Storage.Projection.Rows.{base_row, current_row}
use twindesk.Storage.Projection.View.{view}
use twindesk.Storage.Projection.Refinement.{ProjectionCall, puts, acts, rebuilds, calls, calls-view}
use twindesk.Storage.Projection.Rows.{actions_of}
use twindesk.Storage.Projection.ActionLog.{revisions, count_up}
use twindesk.Storage.Projection.Rows.{thread_row}
use twindesk.Storage.Projection.Sources.{keeps_sources}
use twindesk.Storage.Projection.SourceHistory.{calls-keeps_sources}
use twindesk.Storage.Projection.ActionHistory.{calls-revisions}
use twindesk.Storage.Projection.Inbox.{
  InboxQuery, parse_inbox_query, query_inbox, in_query, cursor_of,
}
use twindesk.Storage.Pages.Contents.{IsPage}
use twindesk.Storage.Projection.Inbox.{follows}
use twindesk.Time.{date_parse}
use twindesk.Storage.Projection.Paging.{query_inbox-IsPage}
use twindesk.Storage.Sync.{commit_connector_sync_batch}
use twindesk.Storage.Sync.Forward.{cursor_row, moves_forward}
use twindesk.Storage.Sync.History.{
  IsCommitted, commits, commit_connector_sync_batch-IsCommitted, commits-moves_forward,
  commits-view,
}

ingest_external_events-again_example :
    ingest_external_events pair_hash (value ingestion runs.0).1 (sample_event ∷ [])
    ≡ ok (all_duplicates 0 (sample_event ∷ []), (value ingestion runs.0).1)
ingest_external_events-again_example =
    ingest_external_events-again pair_hash pair_hash-Separates empty_db (sample_event ∷ [])
      (value ingestion runs.0).0 (value ingestion runs.0).1 (value-eq ingestion runs.0)

ingest_external_events-adds_example :
    (added : List ExternalEvent) × ((value ingestion runs.0).1
      ≡ record empty_db { events = added ++ [] })
    × (length added ≡ (value ingestion runs.0).0.inserted_count)
    × ((value ingestion runs.0).0.inserted_count + (value ingestion runs.0).0.duplicate_count ≡ 1)
    × (length (value ingestion runs.0).0.items ≡ 1)
ingest_external_events-adds_example =
    ingest_external_events-adds pair_hash empty_db (sample_event ∷ []) (value ingestion runs.0).0
      (value ingestion runs.0).1 (value-eq ingestion runs.0)

commit_connector_sync_batch-IsCommitted_example :
    IsCommitted sample_hash empty_db sample_batch (value commit runs.1).1
commit_connector_sync_batch-IsCommitted_example =
    commit_connector_sync_batch-IsCommitted sample_hash empty_db sample_batch
      (value commit runs.1).0 (value commit runs.1).1 (value-eq commit runs.1)

commits-moves_forward_example :
    moves_forward
      (cursor_row synced_db "cursor-1")
      (cursor_row (commits sample_hash synced_db (sample_batch ∷ later_batch ∷ [])) "cursor-1")
    ≡ true
commits-moves_forward_example =
    commits-moves_forward sample_hash synced_db (sample_batch ∷ later_batch ∷ []) "cursor-1"

empty_agrees : current_row empty_db "item-1" ≡ view empty_db "item-1"
unfolding current_row view base_row find
empty_agrees = refl

commits-view_example :
    current_row (commits sample_hash empty_db (sample_batch ∷ later_batch ∷ [])) "item-1"
    ≡ view (commits sample_hash empty_db (sample_batch ∷ later_batch ∷ [])) "item-1"
commits-view_example =
    commits-view sample_hash empty_db (sample_batch ∷ later_batch ∷ []) "item-1" empty_agrees

abbrev sample_calls : List ProjectionCall
sample_calls = puts sample_put ∷ acts sample_user_action ∷ rebuilds "item-1" ∷ []

calls-view_example :
    current_row (calls sample_hash empty_db sample_calls) "item-1"
    ≡ view (calls sample_hash empty_db sample_calls) "item-1"
calls-view_example = calls-view sample_hash empty_db sample_calls "item-1" empty_agrees

query_inbox-IsPage_example :
    (q : InboxQuery) × (parse_inbox_query none (some 1) none ≡ ok q)
    × (1 ≤ q.limit)
    × (q.limit ≤ 100)
    × IsPage
        (λ w. date_parse w.updated_at)
        cursor_of
        follows
        (in_query q)
        q.limit
        sample_db.work_items
        (value inbox runs.2).items
        (value inbox runs.2).next_cursor
query_inbox-IsPage_example =
    query_inbox-IsPage sample_db none (some 1) none (value inbox runs.2) runs.3
      (value-eq inbox runs.2)

calls-revisions_example :
    revisions (actions_of (calls sample_hash empty_db sample_calls) "item-1")
    ≡ count_up (length (actions_of (calls sample_hash empty_db sample_calls) "item-1"))
calls-revisions_example = calls-revisions sample_hash empty_db sample_calls "item-1" refl

calls-keeps_sources_example :
    keeps_sources
      (thread_row sample_db "thread-1")
      (thread_row (calls sample_hash sample_db sample_calls) "thread-1")
    ≡ true
calls-keeps_sources_example = calls-keeps_sources sample_hash sample_db sample_calls "thread-1"
