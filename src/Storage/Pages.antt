-- ===== src/Storage/Pages.antt =====
-- Selecting, sorting and cutting the rows of a page: `ORDER BY`, `LIMIT` and the cursor of the next
-- page, as work-item-projection.ts and audit-timeline.ts (packages/storage-sqlite/src/) use them.
pub mod Order
pub mod Strict
pub mod Contents
use twindesk.Prelude.{
  ℕ, zero, suc, ◌≤◌, ◌≡◌, refl, ap, ◌∙◌, ◌⊎◌, inl, inr, Bool, true, false, ◌&&◌, Option, none, some,
  List, [], ◌∷◌, String, arith, all, any, length, count_if, ltb, All, ◌==◌, string_eq, Bool-cases,
  if◌then◌else◌,
}
use twindesk.Domain.Parsers.{distinct_by}
use twindesk.Storage.Table.{select, find}

-- `LIMIT`, and `slice(0, limit)`.
unfoldable pub take {ℓ} : {A : Type ℓ} → ℕ → List A → List A
take zero xs = []
take (suc n) [] = []
take (suc n) (x ∷ xs) = x ∷ take n xs

-- `items.at(-1)`
unfoldable pub last_of {ℓ} : {A : Type ℓ} → List A → Option A
last_of [] = none
last_of (x ∷ xs) = elim (last_of xs) [ none ↦ some x | some last ↦ some last ]

-- `ORDER BY`, where `earlier v w` says that `v` stands before `w`.
unfoldable pub insert_by {ℓ} : {R : Type ℓ} → (R → R → Bool) → R → List R → List R
insert_by earlier w [] = w ∷ []
insert_by earlier w (v ∷ rows) =
    let rest = insert_by earlier w rows in if earlier v w then v ∷ rest else w ∷ v ∷ rows

unfoldable pub sort_by {ℓ} : {R : Type ℓ} → (R → R → Bool) → List R → List R
unfolding insert_by
sort_by earlier [] = []
sort_by earlier (w ∷ rows) = insert_by earlier w (sort_by earlier rows)

abbrev pub next_cursor_of {ℓ κ} : {R : Type ℓ} {C : Type κ} → (R → C) → Bool → Option R → Option C
next_cursor_of cursor true (some last) = some (cursor last)
next_cursor_of cursor _ _ = none

module _ {R : Type 0} (key : R → String) where
  abbrev pub has_key : String → R → Bool
  has_key id r = key r == id

  -- The key is a primary key.
  abbrev pub distinct_keys : List R → Bool
  distinct_keys = distinct_by (λ r s. key r == key s)

  abbrev pub IsFound : List R → R → Type 0
  IsFound rows r = find key (key r) rows ≡ some r

  IsFound-later :
      (x : R) (rows rest : List R)
      → any (λ r. key x == key r) rest ≡ false
      → All (IsFound rows) rest
      → All (IsFound (x ∷ rows)) rest
  unfolding find
  IsFound-later x rows [] d h = tt
  IsFound-later x rows (w ∷ rest) d h =
      (ground (arith, h.0), IsFound-later x rows rest (ground arith) h.1)

  pub All-IsFound : (rows : List R) → distinct_keys rows ≡ true → All (IsFound rows) rows
  unfolding find distinct_by
  All-IsFound [] d = tt
  All-IsFound (x ∷ rows) d =
      (ground arith, IsFound-later x rows rows (ground arith) (All-IsFound rows (ground arith)))

module _ {R : Type 0} (P : R → Type 0) where
  pub All-select : (p : R → Bool) (rows : List R) → All P rows → All P (select p rows)
  unfolding select
  All-select p [] h = tt
  All-select p (x ∷ rows) h = elim (Bool-cases (p x)) [
    | inl t ↦ rw t (h.0, All-select p rows h.1)
    | inr f ↦ rw f (All-select p rows h.1)
  ]

  All-insert :
      (earlier : R → R → Bool) (w : R) (rows : List R)
      → P w
      → All P rows
      → All P (insert_by earlier w rows)
  unfolding insert_by
  All-insert earlier w [] p h = (p, tt)
  All-insert earlier w (v ∷ rows) p h = elim (Bool-cases (earlier v w)) [
    | inl t ↦ rw t (h.0, All-insert earlier w rows p h.1)
    | inr f ↦ rw f (p, h)
  ]

  pub All-sort :
      (earlier : R → R → Bool) (rows : List R) → All P rows → All P (sort_by earlier rows)
  unfolding sort_by
  All-sort earlier [] h = tt
  All-sort earlier (w ∷ rows) h =
      All-insert earlier w (sort_by earlier rows) h.0 (All-sort earlier rows h.1)

  pub All-take : (n : ℕ) (rows : List R) → All P rows → All P (take n rows)
  unfolding take
  All-take zero rows h = tt
  All-take (suc n) [] h = tt
  All-take (suc n) (w ∷ rows) h = (h.0, All-take n rows h.1)

module _ {R : Type 0} where
  count_if-insert :
      (earlier : R → R → Bool) (p : R → Bool) (w : R) (rows : List R)
      → count_if p (insert_by earlier w rows) ≡ count_if p (w ∷ rows)
  unfolding insert_by
  count_if-insert earlier p w [] = refl
  count_if-insert earlier p w (v ∷ rows) = ground (arith, count_if-insert earlier p w rows)

  pub count_if-sort :
      (earlier : R → R → Bool) (p : R → Bool) (rows : List R)
      → count_if p (sort_by earlier rows) ≡ count_if p rows
  unfolding sort_by
  count_if-sort earlier p [] = refl
  count_if-sort earlier p (w ∷ rows) =
      count_if-insert earlier p w (sort_by earlier rows)
      ∙ ground (arith, count_if-sort earlier p rows)

  pub count_if-select :
      (p q : R → Bool) (rows : List R)
      → count_if p (select q rows) ≡ count_if (λ w. p w && q w) rows
  unfolding select
  count_if-select p q [] = refl
  count_if-select p q (w ∷ rows) = ground (arith, count_if-select p q rows)

  pub length-take : (n : ℕ) (rows : List R) → length (take n rows) ≤ n
  unfolding take
  length-take zero rows = omega arith
  length-take (suc n) [] = omega arith
  length-take (suc n) (w ∷ rows) = omega (arith, length-take n rows)

  pub take-take : (n : ℕ) (rows : List R) → take n (take (suc n) rows) ≡ take n rows
  unfolding take
  take-take zero rows = refl
  take-take (suc n) [] = refl
  take-take (suc n) (w ∷ rows) = ap (λ t. w ∷ t) (take-take n rows)

  -- Where one more row than asked for is there, the page is full.
  pub page_full :
      (n : ℕ) (rows : List R) → ltb n (length (take (suc n) rows)) ≡ true → length (take n rows) ≡ n
  unfolding take
  page_full zero rows h = refl
  page_full (suc n) [] h = ground arith
  page_full (suc n) (w ∷ rows) h = ground (arith, page_full n rows)

-- The rows that a query selects, in its order.
abbrev pub matching {ℓ} : {R : Type ℓ} → (R → R → Bool) → (R → Bool) → List R → List R
matching earlier asked rows = sort_by earlier (select asked rows)
