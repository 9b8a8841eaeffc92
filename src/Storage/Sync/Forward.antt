-- ===== src/Storage/Sync/Forward.antt =====
-- packages/storage-sqlite/src/sync-cursor.ts: a stored cursor only moves forward.
use twindesk.Prelude.{
  ◌≡◌, ◌≢◌, refl, sym, ◌∙◌, Bool, true, false, ◌&&◌, Option, none, some, List, [], ◌∷◌, String,
  arith, leb, ◌==◌, string_eq, option_eq, Option-cases, ◌⊎◌, inl, inr, String_discrete,
}
use twindesk.Time.{IsoTimestamp, date_parse}
use twindesk.Result.{ok, >>=-eq-ok}
use twindesk.Domain.Records.{ConnectorCursor}
use twindesk.Domain.Parsers.{parse_connector_cursor}
use twindesk.Storage.Table.{select, find, key-find, find-update}
use twindesk.Storage.Database.{Database}
use twindesk.Storage.Sync.{
  CursorCommitResult, same_checkpoint, cursor_matches, parse_stored_cursor, assert_forward_cursor,
  advanced_cursor, move_cursor, advance_cursor, write_cursor_in_transaction, write_candidate,
  write_cursor_at,
}

unfoldable pub cursor_row : Database → String → Option ConnectorCursor
cursor_row db id = find (λ c. c.id) id db.cursors

-- A watermark is kept, or replaced by one that is not earlier.
abbrev keeps_watermark : Option IsoTimestamp → Option IsoTimestamp → Bool
keeps_watermark none later = true
keeps_watermark (some at) none = false
keeps_watermark (some at) (some later) = leb (date_parse at) (date_parse later)

-- From one state of a cursor to a later one: its stream stays, its time and its watermark do not go
-- back, and where there is a watermark there stays one.
unfoldable pub moves_forward : Option ConnectorCursor → Option ConnectorCursor → Bool
moves_forward none later = true
moves_forward (some c) none = false
moves_forward (some c) (some later) =
    c.connector_id == later.connector_id
    && c.account_id == later.account_id
    && c.stream == later.stream
    && leb (date_parse c.updated_at) (date_parse later.updated_at)
    && keeps_watermark c.committed_through later.committed_through

pub moves_forward_refl : (o : Option ConnectorCursor) → moves_forward o o ≡ true
unfolding moves_forward
moves_forward_refl none = refl
moves_forward_refl (some c) = ground arith

pub moves_forward_trans :
    (o p q : Option ConnectorCursor)
    → moves_forward o p ≡ true
    → moves_forward p q ≡ true
    → moves_forward o q ≡ true
unfolding moves_forward
moves_forward_trans none p q h k = refl
moves_forward_trans (some c) none q h k = cc
moves_forward_trans (some c) (some d) none h k = cc
moves_forward_trans (some c) (some d) (some e) h k = ground arith

-- A row that is found by its key, and passes a test, is among the rows that pass it.
find_selected :
    (p : ConnectorCursor → Bool) (j : String) (c : ConnectorCursor) (rows : List ConnectorCursor)
    → find (λ r. r.id) j rows ≡ some c
    → p c ≡ true
    → select p rows ≢ []
unfolding find select
find_selected p j c [] h t e = cc
find_selected p j c (x ∷ rows) h t e = ground (arith, find_selected p j c rows)

find_only :
    (p : ConnectorCursor → Bool) (j : String) (c row : ConnectorCursor)
    (rows : List ConnectorCursor)
    → find (λ r. r.id) j rows ≡ some c
    → p c ≡ true
    → select p rows ≡ row ∷ []
    → c ≡ row
unfolding find select
find_only p j c row [] h t e = cc
find_only p j c row (x ∷ rows) h t e =
    ground (arith, find_only p j c row rows, find_selected p j c rows)

-- What the write of a cursor leaves: every cursor where it was or further on, and its own at the
-- candidate's checkpoint.
abbrev pub CursorWritten : Database → ConnectorCursor → Database → Type 0
CursorWritten db candidate db' =
    (db' ≡ record db { cursors = db'.cursors })
    × ((j : String) → moves_forward (cursor_row db j) (cursor_row db' j) ≡ true)

pub matches_by_id :
    (candidate c : ConnectorCursor) → c.id ≡ candidate.id → cursor_matches candidate c ≡ true
unfolding cursor_matches
matches_by_id candidate c h = ground arith

inserted_effect :
    (db : Database) (candidate : ConnectorCursor) (j : String)
    → select (cursor_matches candidate) db.cursors ≡ []
    → moves_forward
        (cursor_row db j)
        (cursor_row (record db { cursors = candidate ∷ db.cursors }) j)
      ≡ true
unfolding cursor_row find moves_forward
inserted_effect db candidate j h = elim (String_discrete candidate.id j) [
  | no other ↦ ground (arith, moves_forward_refl (cursor_row db j))
  | yes same ↦ elim (Option-cases (cursor_row db j)) [
    | inl absent ↦ rw absent refl
    | inr (c, found) ↦
        let at = key-find (λ r. r.id) j db.cursors c found in
        absurd (
          find_selected (cursor_matches candidate) j c db.cursors found
            (matches_by_id candidate c (at ∙ sym same)) h)
  ]
]

advanced_effect :
    (db : Database) (candidate row : ConnectorCursor) (j : String)
    → select (cursor_matches candidate) db.cursors ≡ row ∷ []
    → moves_forward (some row) (some (advanced_cursor candidate row)) ≡ true
    → moves_forward (cursor_row db j) (cursor_row (move_cursor db candidate) j) ≡ true
unfolding cursor_row move_cursor moves_forward
advanced_effect db candidate row j h f =
    rw (find-update (λ r. r.id) candidate.id j (advanced_cursor candidate) (λ r. refl) db.cursors)
      (elim (String_discrete candidate.id j) [
        | no other ↦ ground (arith, moves_forward_refl (cursor_row db j))
        | yes same ↦ elim (Option-cases (cursor_row db j)) [
          | inl absent ↦ rw absent refl
          | inr (c, found) ↦
              let at = key-find (λ r. r.id) j db.cursors c found in
              let is_row =
                find_only (cursor_matches candidate) j c row db.cursors found
                  (matches_by_id candidate c (at ∙ sym same)) h in
              rw found (rw is_row (ground arith))
        ]
      ])

-- The two outcomes of `advanceCursor`'s checks.
advance_cursor_effect :
    (db : Database) (candidate row : ConnectorCursor) (r : CursorCommitResult) (db' : Database)
    → advance_cursor db candidate row ≡ ok (r, db')
    → (db' ≡ db)
      ⊎ ((db' ≡ move_cursor db candidate)
          × (moves_forward (some row) (some (advanced_cursor candidate row)) ≡ true))
unfolding advance_cursor assert_forward_cursor moves_forward advanced_cursor same_checkpoint
advance_cursor_effect db candidate row r db' h = ground arith

pub parse_stored_cursor_same : (row c : ConnectorCursor) → parse_stored_cursor row ≡ ok c → c ≡ row
unfolding parse_stored_cursor parse_connector_cursor
parse_stored_cursor_same row c h = ground arith

write_cursor_at_effect :
    (db : Database) (candidate : ConnectorCursor) (rows : List ConnectorCursor)
    (r : CursorCommitResult) (db' : Database)
    → select (cursor_matches candidate) db.cursors ≡ rows
    → write_cursor_at db candidate rows ≡ ok (r, db')
    → CursorWritten db candidate db'
unfolding write_cursor_at move_cursor
write_cursor_at_effect db candidate [] r db' e h =
    let is_new : db' ≡ record db { cursors = candidate ∷ db.cursors } = ground arith in
    rw is_new (refl, λ j. inserted_effect db candidate j e)
write_cursor_at_effect db candidate (row ∷ []) r db' e h =
    let (existing, h₁, h₂) = >>=-eq-ok (parse_stored_cursor row) _ h in
    let is_row = parse_stored_cursor_same row existing h₁ in
    elim (advance_cursor_effect db candidate row r db' (rw (sym is_row) h₂)) [
      | inl same ↦ rw same (refl, λ j. moves_forward_refl (cursor_row db j))
      | inr (moved, forward) ↦ rw moved (refl, λ j. advanced_effect db candidate row j e forward)
    ]
write_cursor_at_effect db candidate (row ∷ other ∷ rows) r db' e h = cc

-- The write of a candidate leaves every other table, and every cursor where it was or further on.
pub write_candidate_effect :
    (db : Database) (candidate : Option ConnectorCursor) (r : CursorCommitResult) (db' : Database)
    → write_candidate db candidate ≡ ok (r, db')
    → (db' ≡ record db { cursors = db'.cursors })
      × ((j : String) → moves_forward (cursor_row db j) (cursor_row db' j) ≡ true)
unfolding write_candidate write_cursor_in_transaction
write_candidate_effect db none r db' h =
    let same : db' ≡ db = ground arith in rw same (refl, λ j. moves_forward_refl (cursor_row db j))
write_candidate_effect db (some c) r db' h =
    write_cursor_at_effect db c (select (cursor_matches c) db.cursors) r db' refl h
