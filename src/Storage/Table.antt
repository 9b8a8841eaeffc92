-- ===== src/Storage/Table.antt =====
-- The SQL that the operations use, over a table as a list of rows in no particular order. A row is
-- found, changed and kept distinct by its primary key.
use twindesk.Prelude.{
  ◌≡◌, ◌≢◌, Bool, true, Option, none, some, List, [], ◌∷◌, String, arith, is_some, if◌then◌else◌,
  ◌==◌, string_eq,
}
use twindesk.Result.{Result, ok, err, constraint}

abbrev pub map_some {ℓ} : {A : Type ℓ} → (A → A) → Option A → Option A
map_some f none = none
map_some f (some a) = some (f a)

-- `SELECT … WHERE p`
unfoldable pub select {ℓ} : {R : Type ℓ} → (R → Bool) → List R → List R
select p [] = []
select p (r ∷ rows) = let rest = select p rows in if p r then r ∷ rest else rest

-- A row that one test finds, another test finds that it passes.
pub select_found {ℓ} :
    {R : Type ℓ} (p q : R → Bool) (r : R) (rows rest : List R)
    → select p rows ≡ r ∷ rest
    → q r ≡ true
    → select q rows ≢ []
unfolding select
select_found p q r [] rest h t e = cc
select_found p q r (x ∷ rows) rest h t e = ground (arith, select_found p q r rows rest)

module _ {ℓ} {R : Type ℓ} (key : R → String) where
  -- `SELECT … WHERE key = ?`
  unfoldable pub find : String → List R → Option R
  find k [] = none
  find k (r ∷ rows) = if key r == k then some r else find k rows

  -- `UPDATE … SET … WHERE key = ?`
  unfoldable pub update : String → (R → R) → List R → List R
  update k f [] = []
  update k f (r ∷ rows) = if key r == k then f r ∷ rows else r ∷ update k f rows

  -- `INSERT`, refused where the primary key is taken.
  unfoldable pub insert : R → List R → Result (List R)
  insert r rows = if is_some (find (key r) rows) then err constraint else ok (r ∷ rows)

  -- `UPDATE … WHERE key = ? AND p`, followed by the test that one row changed.
  unfoldable pub update_one : String → (R → Bool) → (R → R) → List R → Option (List R)
  update_one k p f rows = elim (find k rows) [
    | none ↦ none
    | some r ↦ if p r then some (update k f rows) else none
  ]

  pub find-update :
      (k j : String) (f : R → R)
      → ((r : R) → key (f r) ≡ key r)
      → (rows : List R)
      → find j (update k f rows) ≡ (if k == j then map_some f (find j rows) else find j rows)
  unfolding find update
  find-update k j f keeps [] = ground arith
  find-update k j f keeps (r ∷ rows) = ground (arith, keeps r, find-update k j f keeps rows)

  -- `INSERT … ON CONFLICT (key) DO UPDATE SET` every column.
  unfoldable pub upsert : R → List R → List R
  unfolding find update
  upsert r rows = if is_some (find (key r) rows) then update (key r) (λ old. r) rows else r ∷ rows

  find_replaced :
      (j : String) (r : R) (rows : List R)
      → find j (update (key r) (λ old. r) rows)
        ≡ (if key r == j then map_some (λ old. r) (find j rows) else find j rows)
  unfolding find update
  find_replaced j r [] = ground arith
  find_replaced j r (x ∷ rows) = ground (arith, find_replaced j r rows)

  pub find-upsert :
      (j : String) (r : R) (rows : List R)
      → find j (upsert r rows) ≡ (if key r == j then some r else find j rows)
  unfolding upsert find
  find-upsert j r rows = ground (arith, find_replaced j r rows)

  pub key-find : (k : String) (rows : List R) (r : R) → find k rows ≡ some r → key r ≡ k
  unfolding find
  key-find k [] r h = cc
  key-find k (x ∷ rows) r h = ground (arith, key-find k rows r)

  -- The first row, by whether it has the key.
  pub update_here :
      (k : String) (f : R → R) (r : R) (rows : List R)
      → key r ≡ k
      → update k f (r ∷ rows) ≡ f r ∷ rows
  unfolding update
  update_here k f r rows h = ground arith

  pub update_there :
      (k : String) (f : R → R) (r : R) (rows : List R)
      → key r ≢ k
      → update k f (r ∷ rows) ≡ r ∷ update k f rows
  unfolding update
  update_there k f r rows h = ground arith

  pub find_here : (k : String) (r : R) (rows : List R) → key r ≡ k → find k (r ∷ rows) ≡ some r
  unfolding find
  find_here k r rows h = ground arith

  pub find_there :
      (k : String) (r : R) (rows : List R) → key r ≢ k → find k (r ∷ rows) ≡ find k rows
  unfolding find
  find_there k r rows h = ground arith
