-- ===== src/Domain/Json/Reordered.antt =====
-- Two JSON values have one canonical form exactly when they differ in the order of members only.
use twindesk.Prelude.{
  ◌≡◌, ◌≢◌, ◌↔◌, refl, sym, ap, ◌∙◌, inl, inr, true, false, List, [], ◌∷◌, ℕ, String, arith,
  Bool-cases,
}
use twindesk.Domain.Json.{
  Json, null, boolean, number, text, array, object, Items, no_item, item, Members, no_member,
  member, utf16, units_leb, text_leb, insert_member, canonical, canonical_items, canonical_members,
}
use twindesk.Domain.Json.Canonical.{units_leb_total}

-- The members of objects change places, at any depth. Two members with one key, which is the same
-- UTF-16 units, do not pass each other.
mutual
  pub data Reordered : Json → Json → Type 0 where
    unchanged : (j : Json) → Reordered j j
    in_array : {xs ys : Items} → ReorderedItems xs ys → Reordered (array xs) (array ys)
    in_object : {ms ns : Members} → ReorderedMembers ms ns → Reordered (object ms) (object ns)
    then_value : {i j k : Json} → Reordered i j → Reordered j k → Reordered i k

  pub data ReorderedItems : Items → Items → Type 0 where
    no_items : ReorderedItems no_item no_item
    each :
        {x y : Json} {xs ys : Items}
        → Reordered x y
        → ReorderedItems xs ys
        → ReorderedItems (item x xs) (item y ys)

  pub data ReorderedMembers : Members → Members → Type 0 where
    no_members : ReorderedMembers no_member no_member
    keep :
        {k : String} {v w : Json} {ms ns : Members}
        → Reordered v w
        → ReorderedMembers ms ns
        → ReorderedMembers (member k v ms) (member k w ns)
    swap :
        {k l : String} {v w : Json} {ms : Members}
        → utf16 k ≢ utf16 l
        → ReorderedMembers (member k v (member l w ms)) (member l w (member k v ms))
    then_members :
        {ms ns ps : Members}
        → ReorderedMembers ms ns
        → ReorderedMembers ns ps
        → ReorderedMembers ms ps

units_leb_refl : (as' : List ℕ) → units_leb as' as' ≡ true
unfolding units_leb
units_leb_refl [] = refl
units_leb_refl (a ∷ as') = ground (arith, units_leb_refl as')

units_leb_antisym : (as' bs : List ℕ) → units_leb as' bs ≡ true → units_leb bs as' ≡ true → as' ≡ bs
unfolding units_leb
units_leb_antisym [] [] h k = refl
units_leb_antisym [] (b ∷ bs) h k = cc
units_leb_antisym (a ∷ as') [] h k = cc
units_leb_antisym (a ∷ as') (b ∷ bs) h k = ground (arith, units_leb_antisym as' bs)

units_leb_trans :
    (as' bs cs : List ℕ)
    → units_leb as' bs ≡ true
    → units_leb bs cs ≡ true
    → units_leb as' cs ≡ true
unfolding units_leb
units_leb_trans [] bs cs h k = refl
units_leb_trans (a ∷ as') [] cs h k = cc
units_leb_trans (a ∷ as') (b ∷ bs) [] h k = cc
units_leb_trans (a ∷ as') (b ∷ bs) (c ∷ cs) h k = ground (arith, units_leb_trans as' bs cs)

text_leb_strict : (k l : String) → utf16 k ≢ utf16 l → text_leb k l ≡ true → text_leb l k ≡ false
text_leb_strict k l other h = elim (Bool-cases (text_leb l k)) [
  | inl both ↦ absurd (other (units_leb_antisym (utf16 k) (utf16 l) h both))
  | inr one ↦ one
]

insert_member_before :
    (k l : String) (v w : Json) (ms : Members)
    → text_leb k l ≡ true
    → text_leb l k ≡ false
    → insert_member k v (insert_member l w ms) ≡ insert_member l w (insert_member k v ms)
unfolding insert_member
insert_member_before k l v w no_member h n = ground arith
insert_member_before k l v w (member t u ms) h n =
    let trans = units_leb_trans (utf16 k) (utf16 l) (utf16 t) h in
    ground (arith, trans, insert_member_before k l v w ms h n)

insert_member-insert_member :
    (k l : String) (v w : Json) (ms : Members)
    → utf16 k ≢ utf16 l
    → insert_member k v (insert_member l w ms) ≡ insert_member l w (insert_member k v ms)
insert_member-insert_member k l v w ms other = elim (Bool-cases (text_leb k l)) [
  | inl h ↦ insert_member_before k l v w ms h (text_leb_strict k l other h)
  | inr n ↦ sym (insert_member_before l k w v ms (units_leb_total (utf16 k) (utf16 l) n) n)
]

mutual
  unfolding canonical

  same_canonical : {i j : Json} → Reordered i j → canonical i ≡ canonical j
  same_canonical (unchanged j) = refl
  same_canonical (in_array r) = ap array (same_canonical_items r)
  same_canonical (in_object r) = ap object (same_canonical_members r)
  same_canonical (then_value r s) = same_canonical r ∙ same_canonical s

  same_canonical_items :
      {xs ys : Items} → ReorderedItems xs ys → canonical_items xs ≡ canonical_items ys
  same_canonical_items no_items = refl
  same_canonical_items (each r rs) = rw (same_canonical r) (rw (same_canonical_items rs) refl)

  same_canonical_members :
      {ms ns : Members} → ReorderedMembers ms ns → canonical_members ms ≡ canonical_members ns
  same_canonical_members no_members = refl
  same_canonical_members (keep r rs) = rw (same_canonical r) (rw (same_canonical_members rs) refl)
  same_canonical_members (swap {k} {l} {v} {w} {ms} other) =
      insert_member-insert_member k l (canonical v) (canonical w) (canonical_members ms) other
  same_canonical_members (then_members r s) = same_canonical_members r ∙ same_canonical_members s

mutual
  Reordered-sym : {i j : Json} → Reordered i j → Reordered j i
  Reordered-sym (unchanged j) = unchanged j
  Reordered-sym (in_array r) = in_array (ReorderedItems-sym r)
  Reordered-sym (in_object r) = in_object (ReorderedMembers-sym r)
  Reordered-sym (then_value r s) = then_value (Reordered-sym s) (Reordered-sym r)

  ReorderedItems-sym : {xs ys : Items} → ReorderedItems xs ys → ReorderedItems ys xs
  ReorderedItems-sym no_items = no_items
  ReorderedItems-sym (each r rs) = each (Reordered-sym r) (ReorderedItems-sym rs)

  ReorderedMembers-sym : {ms ns : Members} → ReorderedMembers ms ns → ReorderedMembers ns ms
  ReorderedMembers-sym no_members = no_members
  ReorderedMembers-sym (keep r rs) = keep (Reordered-sym r) (ReorderedMembers-sym rs)
  ReorderedMembers-sym (swap other) = swap (λ e. other (sym e))
  ReorderedMembers-sym (then_members r s) =
      then_members (ReorderedMembers-sym s) (ReorderedMembers-sym r)

ReorderedMembers-refl : (ms : Members) → ReorderedMembers ms ms
ReorderedMembers-refl no_member = no_members
ReorderedMembers-refl (member k v ms) = keep (unchanged v) (ReorderedMembers-refl ms)

insert_member-ReorderedMembers :
    (k : String) (v : Json) (ms : Members) → ReorderedMembers (member k v ms) (insert_member k v ms)
unfolding insert_member
insert_member-ReorderedMembers k v no_member = ReorderedMembers-refl (member k v no_member)
insert_member-ReorderedMembers k v (member t u ms) = elim (Bool-cases (text_leb k t)) [
  | inl first ↦ rw first (ReorderedMembers-refl (member k v (member t u ms)))
  | inr after ↦
      let other : utf16 k ≢ utf16 t =
        λ e. ground (arith, after, ap (λ n. units_leb (utf16 k) n) e, units_leb_refl (utf16 k)) in
      rw after
        (then_members (swap other) (keep (unchanged u) (insert_member-ReorderedMembers k v ms)))
]

mutual
  unfolding canonical

  canonical-Reordered : (j : Json) → Reordered j (canonical j)
  canonical-Reordered null = unchanged null
  canonical-Reordered (boolean b) = unchanged (boolean b)
  canonical-Reordered (number n) = unchanged (number n)
  canonical-Reordered (text s) = unchanged (text s)
  canonical-Reordered (array xs) = in_array (canonical_items-Reordered xs)
  canonical-Reordered (object ms) = in_object (canonical_members-Reordered ms)

  canonical_items-Reordered : (xs : Items) → ReorderedItems xs (canonical_items xs)
  canonical_items-Reordered no_item = no_items
  canonical_items-Reordered (item x xs) =
      each (canonical-Reordered x) (canonical_items-Reordered xs)

  canonical_members-Reordered : (ms : Members) → ReorderedMembers ms (canonical_members ms)
  canonical_members-Reordered no_member = no_members
  canonical_members-Reordered (member k v ms) =
      then_members (keep (canonical-Reordered v) (canonical_members-Reordered ms))
        (insert_member-ReorderedMembers k (canonical v) (canonical_members ms))

-- Two values have one canonical form exactly when they differ in the order of the members of their
-- objects only, at any depth. A key is its UTF-16 units, and members with one key keep their order.
pub canonical_iff-Reordered : (i j : Json) → (canonical i ≡ canonical j) ↔ Reordered i j
canonical_iff-Reordered i j = (
  λ same. then_value (canonical-Reordered i) (rw same (Reordered-sym (canonical-Reordered j))),
  same_canonical,
)
