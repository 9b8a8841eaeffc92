-- ===== src/Domain/Json.antt =====
-- packages/domain/src/model.ts, `JsonValue`, and the canonical form in which event-ingestion.ts and
-- audit-timeline.ts (`canonicalJson`) store and hash it: the members of each object sorted by key.
-- A number is named by its JSON text.
pub mod Canonical
pub mod Reordered
use Prim.Native.Char.{Char, code}
use twindesk.Prelude.{
  ℕ, suc, ◌+◌, ◌-◌, ◌/◌, ◌%◌, Bool, true, false, not, ◌&&◌, ◌||◌, List, [], ◌∷◌, String, ltb, leb,
  ◌==◌, string_eq, if◌then◌else◌,
}

mutual
  pub data Json : Type 0 where
    null : Json
    boolean : Bool → Json
    number : String → Json
    text : String → Json
    array : Items → Json
    object : Members → Json

  pub data Items : Type 0 where
    no_item : Items
    item : Json → Items → Items

  pub data Members : Type 0 where
    no_member : Members
    member : String → Json → Members → Members

-- The UTF-16 units of a text, by which JavaScript orders texts.
unfoldable pub utf16 : String → List ℕ
utf16 String.[] = []
utf16 (String.◌∷◌ c s) =
    let rest = utf16 s in
    let n = code c in
    if ltb n 65536
    then n ∷ rest
    else (55296 + (n - 65536) / 1024) ∷ (56320 + (n - 65536) % 1024) ∷ rest

-- Not after, in lexicographic order.
unfoldable pub units_leb : List ℕ → List ℕ → Bool
units_leb [] bs = true
units_leb (a ∷ as') [] = false
units_leb (a ∷ as') (b ∷ bs) = let rest = units_leb as' bs in ltb a b || leb a b && rest

abbrev pub text_leb : String → String → Bool
text_leb s t = units_leb (utf16 s) (utf16 t)

-- `[...texts].sort()`
unfoldable pub insert_text : String → List String → List String
insert_text s [] = s ∷ []
insert_text s (t ∷ ts) =
    let rest = insert_text s ts in if text_leb s t then s ∷ t ∷ ts else t ∷ rest

unfoldable pub sort_texts : List String → List String
sort_texts [] = []
sort_texts (s ∷ ss) = insert_text s (sort_texts ss)

unfoldable pub insert_member : String → Json → Members → Members
insert_member k v no_member = member k v no_member
insert_member k v (member k' v' ms) =
    let rest = insert_member k v ms in
    if text_leb k k' then member k v (member k' v' ms) else member k' v' rest

unfoldable mutual
  unfolding insert_member

  pub canonical : Json → Json
  canonical null = null
  canonical (boolean b) = boolean b
  canonical (number n) = number n
  canonical (text s) = text s
  canonical (array xs) = array (canonical_items xs)
  canonical (object ms) = object (canonical_members ms)

  pub canonical_items : Items → Items
  canonical_items no_item = no_item
  canonical_items (item x xs) = item (canonical x) (canonical_items xs)

  pub canonical_members : Members → Members
  canonical_members no_member = no_member
  canonical_members (member k v ms) = insert_member k (canonical v) (canonical_members ms)

-- `jsonAt`: no more than 16 levels of nesting below the value.
unfoldable mutual
  pub json_at : ℕ → Json → Bool
  json_at depth null = leb depth 16
  json_at depth (boolean b) = leb depth 16
  json_at depth (number n) = leb depth 16
  json_at depth (text s) = leb depth 16
  json_at depth (array xs) = leb depth 16 && items_at (suc depth) xs
  json_at depth (object ms) = leb depth 16 && members_at (suc depth) ms

  pub items_at : ℕ → Items → Bool
  items_at depth no_item = true
  items_at depth (item x xs) = json_at depth x && items_at depth xs

  pub members_at : ℕ → Members → Bool
  members_at depth no_member = true
  members_at depth (member k v ms) = json_at depth v && members_at depth ms

abbrev same_boolean : Bool → Bool → Bool
same_boolean true b = b
same_boolean false b = not b

-- Equality of the JSON texts.
unfoldable mutual
  pub same_json : Json → Json → Bool
  same_json null null = true
  same_json (boolean b) (boolean c) = same_boolean b c
  same_json (number m) (number n) = m == n
  same_json (text s) (text t) = s == t
  same_json (array xs) (array ys) = same_items xs ys
  same_json (object ms) (object ns) = same_members ms ns
  same_json _ _ = false

  pub same_items : Items → Items → Bool
  same_items no_item no_item = true
  same_items (item x xs) (item y ys) = same_json x y && same_items xs ys
  same_items _ _ = false

  pub same_members : Members → Members → Bool
  same_members no_member no_member = true
  same_members (member k v ms) (member l w ns) = k == l && same_json v w && same_members ms ns
  same_members _ _ = false
