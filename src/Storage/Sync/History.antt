-- ===== src/Storage/Sync/History.antt =====
-- packages/storage-sqlite/src/sync-cursor.ts: what a committed batch leaves, and the cursors after any
-- history of batches.
use twindesk.Prelude.{
  ◌≡◌, sym, ap, ◌∙◌, true, Option, none, some, List, [], ◌∷◌, ◌++◌, String, arith, all, string_eq,
}
use twindesk.Result.{ok, >>=-eq-ok, rethrow-eq-ok}
use twindesk.Domain.Records.{ExternalEvent, ConnectorCursor}
use twindesk.Domain.Parsers.{parse_connector_cursor}
use twindesk.Storage.Table.{find}
use twindesk.Storage.Database.{Database, committed, committed-keeps}
use twindesk.Storage.Digest.{Document}
use twindesk.Storage.Events.{
  ingest_from, ingest_external_events_in_transaction, parse_external_event_batch,
}
use twindesk.Storage.Events.Again.{ingest_from-adds, parse_external_event_batch_same}
use twindesk.Storage.Projection.Rows.{
  current_row, actions_of, base_row, parse_work_item_projection_batch,
}
use twindesk.Storage.Projection.Put.{put_projections}
use twindesk.Storage.Projection.View.{view, view_of}
use twindesk.Storage.Sync.{
  ConnectorSyncCommitRequest, ConnectorSyncCommitResult, write_candidate, parse_commit_request,
  parse_cursor_key, parse_candidate, catch_sync, commit_transaction, commit_connector_sync_batch,
}
use twindesk.Storage.Sync.Forward.{
  cursor_row, moves_forward, moves_forward_refl, moves_forward_trans, write_candidate_effect,
}
use twindesk.Storage.Sync.Checkpoint.{holds_checkpoint, write_candidate_checkpoint}
use twindesk.Storage.Sync.Commit.{is_durable, ingest_from-durable, put_projections_effect}

parse_candidate_same :
    (input candidate : Option ConnectorCursor)
    → parse_candidate input ≡ ok candidate
    → candidate ≡ input
unfolding parse_connector_cursor
parse_candidate_same none candidate h = ground arith
parse_candidate_same (some c) candidate h = ground arith

parse_commit_request_same :
    (input request : ConnectorSyncCommitRequest)
    → parse_commit_request input ≡ ok request
    → (request.events ≡ input.events) × (request.candidate_cursor ≡ input.candidate_cursor)
unfolding parse_commit_request
parse_commit_request_same input request h =
    let (key, h₁, h₂) = >>=-eq-ok (parse_cursor_key input.key) _ h in
    let (events, h₃, h₄) = >>=-eq-ok (parse_external_event_batch input.events) _ h₂ in
    let (candidate, h₅, h₆) = >>=-eq-ok (parse_candidate input.candidate_cursor) _ h₄ in
    let (projections, h₇, h₈) =
      >>=-eq-ok (parse_work_item_projection_batch input.projections) _ h₆ in
    let same = (parse_external_event_batch_same input.events events h₃).0 in
    let same_candidate = parse_candidate_same input.candidate_cursor candidate h₅ in
    (ground arith, ground arith)

module _ (sha256_hex : Document → String) where
  -- A committed batch: its events are stored, its cursor too, and no cursor goes back.
  pub record IsCommitted (db : Database) (input : ConnectorSyncCommitRequest) (db' : Database)
      : Type 0 where
    pub durable : all (is_durable sha256_hex db') input.events ≡ true
    pub checkpoint : holds_checkpoint db' input.candidate_cursor ≡ true
    pub forward : (j : String) → moves_forward (cursor_row db j) (cursor_row db' j) ≡ true

  -- The three writes of a batch, from the database to the one they leave.
  record Steps (db : Database) (input : ConnectorSyncCommitRequest) (db' : Database) : Type 0 where
    whole : IsCommitted db input db'
    agrees : (j : String) → current_row db j ≡ view db j → current_row db' j ≡ view db' j

  durable_frame :
      (mid db' : Database) (es : List ExternalEvent)
      → db'.events ≡ mid.events
      → all (is_durable sha256_hex mid) es ≡ true
      → all (is_durable sha256_hex db') es ≡ true
  unfolding is_durable
  durable_frame mid db' es e h = rw e h

  commit-Steps :
      (db mid last db' : Database) (request : ConnectorSyncCommitRequest)
      (added : List ExternalEvent)
      → mid ≡ record db { events = added ++ db.events }
      → all (is_durable sha256_hex mid) request.events ≡ true
      → last.events ≡ mid.events
      → last.cursors ≡ mid.cursors
      → ((j : String) → current_row mid j ≡ view mid j → current_row last j ≡ view last j)
      → db' ≡ record last { cursors = db'.cursors }
      → ((j : String) → moves_forward (cursor_row last j) (cursor_row db' j) ≡ true)
      → holds_checkpoint db' request.candidate_cursor ≡ true
      → Steps db request db'
  unfolding cursor_row current_row view view_of actions_of base_row
  commit-Steps db mid last db' request added e durable events cursors agrees frame forward c =
      record {
        whole = record {
          durable =
              durable_frame mid db' request.events (ap (λ d. d.events) frame ∙ events) durable;
          checkpoint = c;
          forward = λ j.
              let same : cursor_row db j ≡ cursor_row last j =
                ap (find (λ k. k.id) j) (sym (cursors ∙ ap (λ d. d.cursors) e)) in
              rw same (forward j);
        };
        agrees = λ j a. let last_agrees = agrees j (rw e a) in rw frame last_agrees;
      }

  commit_transaction_effect :
      (db : Database) (request : ConnectorSyncCommitRequest) (r : ConnectorSyncCommitResult)
      (db' : Database)
      → commit_transaction sha256_hex db request ≡ ok (r, db')
      → Steps db request db'
  unfolding commit_transaction ingest_external_events_in_transaction
  commit_transaction_effect db request r db' h =
      let (first, h₁, h₂) = >>=-eq-ok (ingest_from sha256_hex db 0 request.events) _ h in
      let (second, h₃, h₄) =
        >>=-eq-ok (put_projections sha256_hex first.1 request.projections) _ h₂ in
      let (third, h₅, h₆) = >>=-eq-ok (write_candidate second.1 request.candidate_cursor) _ h₄ in
      let is_last : db' ≡ third.1 = ground arith in
      let (added, adds, _, _, _) =
        ingest_from-adds sha256_hex db 0 request.events first.0 first.1 h₁ in
      let (events, cursors, agrees) =
        put_projections_effect sha256_hex first.1 request.projections second.0 second.1 h₃ in
      let (frame, forward) =
        write_candidate_effect second.1 request.candidate_cursor third.0 third.1 h₅ in
      rw is_last (
        commit-Steps db first.1 second.1 third.1 request added adds
          (ingest_from-durable sha256_hex db 0 request.events first.0 first.1 h₁) events cursors
          agrees frame forward
          (write_candidate_checkpoint second.1 request.candidate_cursor third.0 third.1 h₅))

  commit_connector_sync_batch-Steps :
      (db : Database) (input : ConnectorSyncCommitRequest) (r : ConnectorSyncCommitResult)
      (db' : Database)
      → commit_connector_sync_batch sha256_hex db input ≡ ok (r, db')
      → Steps db input db'
  unfolding commit_connector_sync_batch
  commit_connector_sync_batch-Steps db input r db' h =
      let (request, h₁, h₂) = >>=-eq-ok (parse_commit_request input) _ h in
      let (events, candidate) = parse_commit_request_same input request h₁ in
      let done =
        commit_transaction_effect db request r db'
          (rethrow-eq-ok catch_sync (commit_transaction sha256_hex db request) h₂) in
      record {
        whole = record {
          durable = rw (sym events) done.whole.durable;
          checkpoint = rw (sym candidate) done.whole.checkpoint;
          forward = done.whole.forward;
        };
        agrees = done.agrees;
      }

  -- A batch that is committed leaves each of its events stored under its digest, and its cursor, if it
  -- has one, stored at the candidate's checkpoint; and no stored cursor goes back.
  pub commit_connector_sync_batch-IsCommitted :
      (db : Database) (input : ConnectorSyncCommitRequest) (r : ConnectorSyncCommitResult)
      (db' : Database)
      → commit_connector_sync_batch sha256_hex db input ≡ ok (r, db')
      → IsCommitted db input db'
  commit_connector_sync_batch-IsCommitted db input r db' h =
      (commit_connector_sync_batch-Steps db input r db' h).whole

  unfoldable pub commits : Database → List ConnectorSyncCommitRequest → Database
  commits db [] = db
  commits db (c ∷ cs) = commits (committed db (commit_connector_sync_batch sha256_hex db c)) cs

  -- Over any history of batches, refused ones included, a stored cursor stays stored with its stream,
  -- its time never goes back, and neither does its watermark, which is never given up.
  pub commits-moves_forward :
      (db : Database) (cs : List ConnectorSyncCommitRequest) (id : String)
      → moves_forward (cursor_row db id) (cursor_row (commits db cs) id) ≡ true
  unfolding commits
  commits-moves_forward db [] id = moves_forward_refl (cursor_row db id)
  commits-moves_forward db (c ∷ cs) id =
      let m = commit_connector_sync_batch sha256_hex db c in
      moves_forward_trans (cursor_row db id) (cursor_row (committed db m) id)
        (cursor_row (commits (committed db m) cs) id)
        (committed-keeps (λ x. moves_forward (cursor_row db id) (cursor_row x id) ≡ true) db m
          (moves_forward_refl (cursor_row db id))
          (λ r db' h. (commit_connector_sync_batch-IsCommitted db c r db' h).forward id))
        (commits-moves_forward (committed db m) cs id)

  -- Where a work item agrees with its base and the user's actions on it, it agrees after any history
  -- of batches, refused ones included.
  pub commits-view :
      (db : Database) (cs : List ConnectorSyncCommitRequest) (id : String)
      → current_row db id ≡ view db id
      → current_row (commits db cs) id ≡ view (commits db cs) id
  unfolding commits
  commits-view db [] id a = a
  commits-view db (c ∷ cs) id a =
      let m = commit_connector_sync_batch sha256_hex db c in
      commits-view (committed db m) cs id (
        committed-keeps (λ x. current_row x id ≡ view x id) db m a
          (λ r db' h. (commit_connector_sync_batch-Steps db c r db' h).agrees id a))
