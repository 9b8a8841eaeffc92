-- ===== src/Storage/Projection/Sources.antt =====
-- packages/storage-sqlite/src/work-item-projection.ts: a stored thread keeps its sources.
use twindesk.Prelude.{
  ◌≡◌, refl, sym, ◌⊎◌, inl, inr, Bool, true, false, ◌&&◌, Option, none, some, List, [], ◌∷◌, String,
  arith, leb, ◌==◌, string_eq, String_discrete,
}
use twindesk.Time.{date_parse}
use twindesk.Result.{ok, >>=-eq-ok}
use twindesk.Domain.Records.{ExternalThread}
use twindesk.Domain.Parsers.{parse_external_thread}
use twindesk.Storage.Table.{find-update, find_there}
use twindesk.Storage.Database.{Database}
use twindesk.Storage.Projection.Rows.{
  WriteDisposition, contains, includes_all, thread_row, read_thread_in_snapshot,
}
use twindesk.Storage.Projection.Advance.{assert_thread_can_advance}
use twindesk.Storage.Projection.Put.{
  updated_thread, update_thread, advance_thread, put_thread, write_thread,
}

contains_in :
    (id : String) (xs ys : List String)
    → contains xs id ≡ true
    → includes_all xs ys ≡ true
    → contains ys id ≡ true
contains_in id [] ys h t = cc
contains_in id (x ∷ xs) ys h t = ground (arith, contains_in id xs ys)

includes_all_trans :
    (xs ys zs : List String)
    → includes_all xs ys ≡ true
    → includes_all ys zs ≡ true
    → includes_all xs zs ≡ true
includes_all_trans [] ys zs h t = refl
includes_all_trans (x ∷ xs) ys zs h t =
    ground (arith, contains_in x ys zs, includes_all_trans xs ys zs)

includes_all_more :
    (x : String) (xs ys : List String) → includes_all xs ys ≡ true → includes_all xs (x ∷ ys) ≡ true
includes_all_more x [] ys h = refl
includes_all_more x (y ∷ xs) ys h = ground (arith, includes_all_more x xs ys)

includes_all_refl : (xs : List String) → includes_all xs xs ≡ true
includes_all_refl [] = refl
includes_all_refl (x ∷ xs) = ground (arith, includes_all_more x xs xs (includes_all_refl xs))

-- From one state of a thread to a later one: it keeps its creation and its events, and its time does
-- not go back.
unfoldable pub keeps_sources : Option ExternalThread → Option ExternalThread → Bool
keeps_sources none later = true
keeps_sources (some t) none = false
keeps_sources (some t) (some later) =
    t.created_at == later.created_at
    && leb (date_parse t.updated_at) (date_parse later.updated_at)
    && includes_all t.source_event_ids later.source_event_ids

pub keeps_sources_refl : (o : Option ExternalThread) → keeps_sources o o ≡ true
unfolding keeps_sources
keeps_sources_refl none = refl
keeps_sources_refl (some t) = ground (arith, includes_all_refl t.source_event_ids)

pub keeps_sources_trans :
    (o p q : Option ExternalThread)
    → keeps_sources o p ≡ true
    → keeps_sources p q ≡ true
    → keeps_sources o q ≡ true
unfolding keeps_sources
keeps_sources_trans none p q h k = refl
keeps_sources_trans (some t) none q h k = cc
keeps_sources_trans (some t) (some u) none h k = cc
keeps_sources_trans (some t) (some u) (some v) h k =
    ground (arith, includes_all_trans t.source_event_ids u.source_event_ids v.source_event_ids)

-- What the guards of an update let through.
advance_thread_effect :
    (db : Database) (t existing : ExternalThread) (d : WriteDisposition) (db' : Database)
    → advance_thread db t existing ≡ ok (d, db')
    → (db' ≡ db)
      ⊎ ((db' ≡ update_thread db t)
          × (keeps_sources (some existing) (some (updated_thread t existing)) ≡ true))
unfolding advance_thread assert_thread_can_advance keeps_sources updated_thread
advance_thread_effect db t existing d db' h = ground arith

update_thread_kept :
    (db : Database) (t existing : ExternalThread) (j : String)
    → thread_row db t.id ≡ some existing
    → keeps_sources (some existing) (some (updated_thread t existing)) ≡ true
    → keeps_sources (thread_row db j) (thread_row (update_thread db t) j) ≡ true
unfolding thread_row updated_thread keeps_sources
update_thread_kept db t existing j f k = elim (String_discrete t.id j) [
  | no other ↦ ground (
    arith,
    keeps_sources_refl (thread_row db j),
    find-update (λ r. r.id) t.id j (updated_thread t) (λ r. refl) db.threads,
  )
  | yes same ↦ rw (sym same) (
      rw (find-update (λ r. r.id) t.id t.id (updated_thread t) (λ r. refl) db.threads)
        (rw f (ground (arith, k))))
]

inserted_kept :
    (db : Database) (t : ExternalThread) (j : String)
    → thread_row db t.id ≡ none
    → keeps_sources (thread_row db j) (thread_row (record db { threads = t ∷ db.threads }) j) ≡ true
unfolding thread_row keeps_sources
inserted_kept db t j f = elim (String_discrete t.id j) [
  | no other ↦
      ground
        (arith, keeps_sources_refl (thread_row db j), find_there (λ r. r.id) j t db.threads other)
  | yes same ↦ rw (sym same) (rw f refl)
]

put_thread_kept :
    (db : Database) (t : ExternalThread) (found : Option ExternalThread) (d : WriteDisposition)
    (db' : Database) (j : String)
    → thread_row db t.id ≡ found
    → put_thread db t found ≡ ok (d, db')
    → keeps_sources (thread_row db j) (thread_row db' j) ≡ true
unfolding put_thread
put_thread_kept db t none d db' j f h =
    let is_new : db' ≡ record db { threads = t ∷ db.threads } = ground arith in
    rw is_new (inserted_kept db t j f)
put_thread_kept db t (some existing) d db' j f h =
    elim (advance_thread_effect db t existing d db' h) [
      | inl same ↦ rw same (keeps_sources_refl (thread_row db j))
      | inr (moved, kept) ↦ rw moved (update_thread_kept db t existing j f kept)
    ]

read_thread_same :
    (db : Database) (id : String) (found : Option ExternalThread)
    → read_thread_in_snapshot db id ≡ ok found
    → thread_row db id ≡ found
unfolding read_thread_in_snapshot parse_external_thread
read_thread_same db id found h = ground arith

-- A write of a thread keeps the sources of every stored thread.
pub write_thread_kept :
    (db : Database) (t : ExternalThread) (d : WriteDisposition) (db' : Database) (j : String)
    → write_thread db t ≡ ok (d, db')
    → keeps_sources (thread_row db j) (thread_row db' j) ≡ true
unfolding write_thread
write_thread_kept db t d db' j h =
    let (found, h₁, h₂) = >>=-eq-ok (read_thread_in_snapshot db t.id) _ h in
    put_thread_kept db t found d db' j (read_thread_same db t.id found h₁) h₂
