-- ===== src/Storage/Sync/Checkpoint.antt =====
-- packages/storage-sqlite/src/sync-cursor.ts: the write of a candidate leaves its checkpoint stored.
use twindesk.Prelude.{
  ◌≡◌, refl, sym, Bool, true, false, ◌&&◌, Option, none, some, List, [], ◌∷◌, arith, string_eq,
}
use twindesk.Result.{ok, >>=-eq-ok}
use twindesk.Domain.Records.{ConnectorCursor}
use twindesk.Storage.Table.{select, find, find_here, find-update}
use twindesk.Storage.Database.{Database}
use twindesk.Storage.Sync.{
  CursorCommitResult, same_stream, same_checkpoint, cursor_matches, advance_cursor, advanced_cursor,
  move_cursor, write_cursor_at, write_cursor_in_transaction, write_candidate, parse_stored_cursor,
}
use twindesk.Storage.Sync.Forward.{matches_by_id, parse_stored_cursor_same, cursor_row}

-- The stored cursor of a candidate has its stream and its checkpoint.
unfoldable pub holds_checkpoint : Database → Option ConnectorCursor → Bool
unfolding cursor_row same_checkpoint
holds_checkpoint db none = true
holds_checkpoint db (some c) = elim (cursor_row db c.id) [
  | none ↦ false
  | some stored ↦ same_stream stored c && same_checkpoint stored c
]

-- The one row that matches a candidate and has its id is the one that its id finds.
find_only_row :
    (candidate row : ConnectorCursor) (rows : List ConnectorCursor)
    → select (cursor_matches candidate) rows ≡ row ∷ []
    → row.id ≡ candidate.id
    → find (λ c. c.id) candidate.id rows ≡ some row
unfolding select find
find_only_row candidate row [] h e = cc
find_only_row candidate row (x ∷ rows) h e =
    ground (arith, find_only_row candidate row rows, matches_by_id candidate x)

advance_cursor_checkpoint :
    (db : Database) (candidate row : ConnectorCursor) (r : CursorCommitResult) (db' : Database)
    → cursor_row db candidate.id ≡ some row
    → advance_cursor db candidate row ≡ ok (r, db')
    → holds_checkpoint db' (some candidate) ≡ true
unfolding advance_cursor holds_checkpoint cursor_row move_cursor advanced_cursor same_checkpoint
advance_cursor_checkpoint db candidate row r db' f h = ground (
  arith,
  find-update (λ c. c.id) candidate.id candidate.id (advanced_cursor candidate) (λ c. refl)
      db.cursors,
)

advance_cursor_id :
    (db : Database) (candidate row : ConnectorCursor) (r : CursorCommitResult) (db' : Database)
    → advance_cursor db candidate row ≡ ok (r, db')
    → row.id ≡ candidate.id
unfolding advance_cursor
advance_cursor_id db candidate row r db' h = ground arith

write_cursor_at_checkpoint :
    (db : Database) (c : ConnectorCursor) (rows : List ConnectorCursor) (r : CursorCommitResult)
    (db' : Database)
    → select (cursor_matches c) db.cursors ≡ rows
    → write_cursor_at db c rows ≡ ok (r, db')
    → holds_checkpoint db' (some c) ≡ true
unfolding write_cursor_at holds_checkpoint cursor_row same_checkpoint
write_cursor_at_checkpoint db c [] r db' e h =
    let is_new : db' ≡ record db { cursors = c ∷ db.cursors } = ground arith in
    rw is_new (ground (arith, find_here (λ d. d.id) c.id c db.cursors refl))
write_cursor_at_checkpoint db c (row ∷ []) r db' e h =
    let (existing, h₁, h₂) = >>=-eq-ok (parse_stored_cursor row) _ h in
    let h₃ : advance_cursor db c row ≡ ok (r, db') =
      rw (sym (parse_stored_cursor_same row existing h₁)) h₂ in
    let found = find_only_row c row db.cursors e (advance_cursor_id db c row r db' h₃) in
    advance_cursor_checkpoint db c row r db' found h₃
write_cursor_at_checkpoint db c (row ∷ other ∷ rows) r db' e h = cc

pub write_candidate_checkpoint :
    (db : Database) (candidate : Option ConnectorCursor) (r : CursorCommitResult) (db' : Database)
    → write_candidate db candidate ≡ ok (r, db')
    → holds_checkpoint db' candidate ≡ true
unfolding write_candidate write_cursor_in_transaction holds_checkpoint
write_candidate_checkpoint db none r db' h = refl
write_candidate_checkpoint db (some c) r db' h =
    write_cursor_at_checkpoint db c (select (cursor_matches c) db.cursors) r db' refl h
