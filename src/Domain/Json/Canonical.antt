-- ===== src/Domain/Json/Canonical.antt =====
-- The canonical form is canonical already, and is accepted where the value is.
use twindesk.Prelude.{
  ℕ, suc, ◌≡◌, refl, ap, ◌∙◌, true, false, ◌&&◌, List, [], ◌∷◌, String, arith, Bool-cases, inl, inr,
  string_eq,
}
use twindesk.Domain.Json.{
  Json, null, boolean, number, text, array, object, Items, no_item, item, Members, no_member,
  member, utf16, units_leb, text_leb, insert_text, sort_texts, insert_member, canonical,
  canonical_items, canonical_members, json_at, items_at, members_at, same_json, same_items,
  same_members,
}

pub units_leb_total : (as' bs : List ℕ) → units_leb as' bs ≡ false → units_leb bs as' ≡ true
unfolding units_leb
units_leb_total [] bs h = cc
units_leb_total (a ∷ as') [] h = refl
units_leb_total (a ∷ as') (b ∷ bs) h = ground (arith, units_leb_total as' bs)

abbrev IsFrom : String → List String → Type 0
IsFrom s [] = Unit {0}
IsFrom s (t ∷ ts) = text_leb s t ≡ true

abbrev IsSorted : List String → Type 0
IsSorted [] = Unit {0}
IsSorted (s ∷ ss) = IsFrom s ss × IsSorted ss

insert_text-IsFrom :
    (k s : String) (ss : List String)
    → text_leb k s ≡ true
    → IsFrom k ss
    → IsFrom k (insert_text s ss)
unfolding insert_text
insert_text-IsFrom k s [] h f = h
insert_text-IsFrom k s (t ∷ ts) h f = ground arith

insert_text-IsSorted : (s : String) (ss : List String) → IsSorted ss → IsSorted (insert_text s ss)
unfolding insert_text
insert_text-IsSorted s [] h = (tt, tt)
insert_text-IsSorted s (t ∷ ts) h = elim (Bool-cases (text_leb s t)) [
  | inl first ↦ rw first (first, h)
  | inr later ↦ rw later (
    insert_text-IsFrom t s ts (units_leb_total (utf16 s) (utf16 t) later) h.0,
    insert_text-IsSorted s ts h.1,
  )
]

insert_text-front : (s : String) (ss : List String) → IsFrom s ss → insert_text s ss ≡ s ∷ ss
unfolding insert_text
insert_text-front s [] h = refl
insert_text-front s (t ∷ ts) h = ground arith

sort_texts-IsSorted : (ss : List String) → IsSorted (sort_texts ss)
unfolding sort_texts
sort_texts-IsSorted [] = tt
sort_texts-IsSorted (s ∷ ss) = insert_text-IsSorted s (sort_texts ss) (sort_texts-IsSorted ss)

sort_of_IsSorted : (ss : List String) → IsSorted ss → sort_texts ss ≡ ss
unfolding sort_texts
sort_of_IsSorted [] h = refl
sort_of_IsSorted (s ∷ ss) h = rw (sort_of_IsSorted ss h.1) (insert_text-front s ss h.0)

pub sort_texts-sort_texts : (ss : List String) → sort_texts (sort_texts ss) ≡ sort_texts ss
sort_texts-sort_texts ss = sort_of_IsSorted (sort_texts ss) (sort_texts-IsSorted ss)

abbrev IsKeyFrom : String → Members → Type 0
IsKeyFrom k no_member = Unit {0}
IsKeyFrom k (member k' v ms) = text_leb k k' ≡ true

abbrev IsKeySorted : Members → Type 0
IsKeySorted no_member = Unit {0}
IsKeySorted (member k v ms) = IsKeyFrom k ms × IsKeySorted ms

insert_member-IsKeyFrom :
    (k k' : String) (v : Json) (ms : Members)
    → text_leb k k' ≡ true
    → IsKeyFrom k ms
    → IsKeyFrom k (insert_member k' v ms)
unfolding insert_member
insert_member-IsKeyFrom k k' v no_member h f = h
insert_member-IsKeyFrom k k' v (member t w ms) h f = ground arith

insert_member-IsKeySorted :
    (k : String) (v : Json) (ms : Members) → IsKeySorted ms → IsKeySorted (insert_member k v ms)
unfolding insert_member
insert_member-IsKeySorted k v no_member h = (tt, tt)
insert_member-IsKeySorted k v (member t w ms) h = elim (Bool-cases (text_leb k t)) [
  | inl first ↦ rw first (first, h)
  | inr later ↦ rw later (
    insert_member-IsKeyFrom t k v ms (units_leb_total (utf16 k) (utf16 t) later) h.0,
    insert_member-IsKeySorted k v ms h.1,
  )
]

insert_member-front :
    (k : String) (v : Json) (ms : Members) → IsKeyFrom k ms → insert_member k v ms ≡ member k v ms
unfolding insert_member
insert_member-front k v no_member h = refl
insert_member-front k v (member t w ms) h = ground arith

canonical_members-IsKeySorted : (ms : Members) → IsKeySorted (canonical_members ms)
unfolding canonical_members
canonical_members-IsKeySorted no_member = tt
canonical_members-IsKeySorted (member k v ms) =
    insert_member-IsKeySorted k (canonical v) (canonical_members ms)
      (canonical_members-IsKeySorted ms)

-- All values of the members are canonical already.
abbrev AreFixed : Members → Type 0
AreFixed no_member = Unit {0}
AreFixed (member k v ms) = (canonical v ≡ v) × AreFixed ms

insert_member-AreFixed :
    (k : String) (v : Json) (ms : Members)
    → canonical v ≡ v
    → AreFixed ms
    → AreFixed (insert_member k v ms)
unfolding insert_member
insert_member-AreFixed k v no_member e h = (e, tt)
insert_member-AreFixed k v (member t w ms) e h = elim (Bool-cases (text_leb k t)) [
  | inl first ↦ rw first (e, h)
  | inr later ↦ rw later (h.0, insert_member-AreFixed k v ms e h.1)
]

canonical_of_AreFixed : (ms : Members) → AreFixed ms → IsKeySorted ms → canonical_members ms ≡ ms
unfolding canonical_members
canonical_of_AreFixed no_member h s = refl
canonical_of_AreFixed (member k v ms) h s =
    rw (canonical_of_AreFixed ms h.1 s.1) (rw h.0 (insert_member-front k v ms s.0))

mutual
  unfolding canonical

  canonical_twice : (j : Json) → canonical (canonical j) ≡ canonical j
  canonical_twice null = refl
  canonical_twice (boolean b) = refl
  canonical_twice (number n) = refl
  canonical_twice (text s) = refl
  canonical_twice (array xs) = ap array (canonical_items_twice xs)
  canonical_twice (object ms) = ap object (
      canonical_of_AreFixed (canonical_members ms) (canonical_members_fixed ms)
        (canonical_members-IsKeySorted ms))

  canonical_items_twice : (xs : Items) → canonical_items (canonical_items xs) ≡ canonical_items xs
  canonical_items_twice no_item = refl
  canonical_items_twice (item x xs) = rw (canonical_twice x) (rw (canonical_items_twice xs) refl)

  canonical_members_fixed : (ms : Members) → AreFixed (canonical_members ms)
  canonical_members_fixed no_member = tt
  canonical_members_fixed (member k v ms) =
      insert_member-AreFixed k (canonical v) (canonical_members ms) (canonical_twice v)
        (canonical_members_fixed ms)

pub canonical-canonical : (j : Json) → canonical (canonical j) ≡ canonical j
canonical-canonical j = canonical_twice j

pub canonical_members-canonical_members :
    (ms : Members) → canonical_members (canonical_members ms) ≡ canonical_members ms
canonical_members-canonical_members ms =
    canonical_of_AreFixed (canonical_members ms) (canonical_members_fixed ms)
      (canonical_members-IsKeySorted ms)

members_at-insert :
    (depth : ℕ) (k : String) (v : Json) (ms : Members)
    → members_at depth (insert_member k v ms) ≡ (json_at depth v && members_at depth ms)
unfolding insert_member members_at
members_at-insert depth k v no_member = refl
members_at-insert depth k v (member t w ms) = ground (arith, members_at-insert depth k v ms)

mutual
  unfolding canonical json_at

  json_at_same : (depth : ℕ) (j : Json) → json_at depth (canonical j) ≡ json_at depth j
  json_at_same depth null = refl
  json_at_same depth (boolean b) = refl
  json_at_same depth (number n) = refl
  json_at_same depth (text s) = refl
  json_at_same depth (array xs) = rw (items_at_same (suc depth) xs) refl
  json_at_same depth (object ms) = rw (members_at_same (suc depth) ms) refl

  items_at_same : (depth : ℕ) (xs : Items) → items_at depth (canonical_items xs) ≡ items_at depth xs
  items_at_same depth no_item = refl
  items_at_same depth (item x xs) = rw (json_at_same depth x) (rw (items_at_same depth xs) refl)

  members_at_same :
      (depth : ℕ) (ms : Members) → members_at depth (canonical_members ms) ≡ members_at depth ms
  members_at_same depth no_member = refl
  members_at_same depth (member k v ms) =
      members_at-insert depth k (canonical v) (canonical_members ms)
      ∙ rw (json_at_same depth v) (rw (members_at_same depth ms) refl)

pub json_at-canonical : (depth : ℕ) (j : Json) → json_at depth (canonical j) ≡ json_at depth j
json_at-canonical depth j = json_at_same depth j

mutual
  unfolding same_json

  same_json_self : (j : Json) → same_json j j ≡ true
  same_json_self null = refl
  same_json_self (boolean true) = refl
  same_json_self (boolean false) = refl
  same_json_self (number n) = ground arith
  same_json_self (text s) = ground arith
  same_json_self (array xs) = same_items_self xs
  same_json_self (object ms) = same_members_self ms

  same_items_self : (xs : Items) → same_items xs xs ≡ true
  same_items_self no_item = refl
  same_items_self (item x xs) = rw (same_json_self x) (same_items_self xs)

  same_members_self : (ms : Members) → same_members ms ms ≡ true
  same_members_self no_member = refl
  same_members_self (member k v ms) = ground (arith, same_json_self v, same_members_self ms)

pub same_members_refl : (ms : Members) → same_members ms ms ≡ true
same_members_refl ms = same_members_self ms
