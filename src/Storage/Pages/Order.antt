-- ===== src/Storage/Pages/Order.antt =====
-- The times of the rows of a page, which `ORDER BY julianday(…) DESC` sorts.
use twindesk.Prelude.{
  ℕ, zero, suc, ◌≤◌, ◌≡◌, refl, inl, inr, Bool, true, false, ◌&&◌, List, [], ◌∷◌, arith, all, leb,
  Bool-cases,
}
use twindesk.Storage.Table.{select}
use twindesk.Storage.Pages.{take, insert_by, sort_by, matching}

module _ {R : Type 0} (time : R → ℕ) where
  -- No row is of a later time than one before it.
  unfoldable pub newest_first : List R → Bool
  newest_first [] = true
  newest_first (r ∷ rows) = all (λ s. leb (time s) (time r)) rows && newest_first rows

  all_not_after :
      (m n : ℕ) (rows : List R)
      → m ≤ n
      → all (λ s. leb (time s) m) rows ≡ true
      → all (λ s. leb (time s) n) rows ≡ true
  all_not_after m n [] le h = refl
  all_not_after m n (r ∷ rows) le h = ground (arith, all_not_after m n rows le)

  all-take :
      (n k : ℕ) (rows : List R)
      → all (λ s. leb (time s) n) rows ≡ true
      → all (λ s. leb (time s) n) (take k rows) ≡ true
  unfolding take
  all-take n zero rows h = refl
  all-take n (suc k) [] h = refl
  all-take n (suc k) (r ∷ rows) h = ground (arith, all-take n k rows)

  pub newest_first-take :
      (k : ℕ) (rows : List R) → newest_first rows ≡ true → newest_first (take k rows) ≡ true
  unfolding take newest_first
  newest_first-take zero rows h = refl
  newest_first-take (suc k) [] h = refl
  newest_first-take (suc k) (r ∷ rows) h =
      ground (arith, all-take (time r) k rows, newest_first-take k rows)

  -- What the order of a query says of the times.
  abbrev pub IsByTime : (R → R → Bool) → Type 0
  IsByTime earlier =
      (v w : R) → (earlier v w ≡ true → time w ≤ time v) × (earlier v w ≡ false → time v ≤ time w)

  module _ (earlier : R → R → Bool) (by_time : IsByTime earlier) where
    all-insert_by :
        (n : ℕ) (w : R) (rows : List R)
        → time w ≤ n
        → all (λ s. leb (time s) n) rows ≡ true
        → all (λ s. leb (time s) n) (insert_by earlier w rows) ≡ true
    unfolding insert_by
    all-insert_by n w [] le h = ground arith
    all-insert_by n w (v ∷ rows) le h = ground (arith, all-insert_by n w rows le)

    newest_first-insert_by :
        (w : R) (rows : List R)
        → newest_first rows ≡ true
        → newest_first (insert_by earlier w rows) ≡ true
    unfolding insert_by newest_first
    newest_first-insert_by w [] h = refl
    newest_first-insert_by w (v ∷ rows) h = elim (Bool-cases (earlier v w)) [
      | inl before ↦
          let le = (by_time v w).0 before in
          rw before
            (ground (arith, all-insert_by (time v) w rows le, newest_first-insert_by w rows))
      | inr after ↦
          let le = (by_time v w).1 after in
          rw after (ground (arith, all_not_after (time v) (time w) rows le))
    ]

    pub newest_first-sort_by : (rows : List R) → newest_first (sort_by earlier rows) ≡ true
    unfolding sort_by newest_first
    newest_first-sort_by [] = refl
    newest_first-sort_by (w ∷ rows) =
        newest_first-insert_by w (sort_by earlier rows) (newest_first-sort_by rows)

    pub newest_first-page :
        (asked : R → Bool) (limit : ℕ) (rows : List R)
        → newest_first (take limit (matching earlier asked rows)) ≡ true
    newest_first-page asked limit rows =
        newest_first-take limit (matching earlier asked rows)
          (newest_first-sort_by (select asked rows))
