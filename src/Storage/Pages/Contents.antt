-- ===== src/Storage/Pages/Contents.antt =====
-- What a page holds, and what the page after it does.
use twindesk.Prelude.{
  ℕ, zero, suc, ◌≤◌, ◌≡◌, ◌≢◌, refl, sym, ap, ◌∙◌, ◌⊎◌, inl, inr, Bool, true, false, not, ◌&&◌,
  Option, none, some, List, [], ◌∷◌, ◌++◌, String, arith, all, length, Bool-cases, count_if, ltb,
}
use twindesk.Storage.Table.{select}
use twindesk.Storage.Pages.{
  take, last_of, next_cursor_of, distinct_keys, matching, count_if-sort, count_if-select,
  length-take, page_full,
}
use twindesk.Storage.Pages.Order.{newest_first, IsByTime, newest_first-sort_by}
use twindesk.Storage.Pages.Strict.{IsStrict, IsOrdered, matching-IsOrdered, after_last}

-- A page and the rest behind it are together the rows of the table that are asked for, each as often,
-- and none is of a later time than one before it. Where there is no rest the page names no next
-- cursor. Otherwise it is as long as the limit, the next cursor is that of its last row, and the rest
-- are the rows that are asked for and follow that cursor.
pub record IsPage {R : Type 0} {C : Type 0} (time : R → ℕ) (cursor : R → C) (follows : C → R → Bool)
    (asked : R → Bool) (limit : ℕ) (rows items : List R) (next : Option C) : Type 0 where
  pub bounded : length items ≤ limit
  pub rest : List R
  pub same_rows : (p : R → Bool) → count_if p (items ++ rest) ≡ count_if (λ r. p r && asked r) rows
  pub newest : newest_first time (items ++ rest) ≡ true
  pub cut :
      ((rest ≡ []) × (next ≡ none))
      ⊎ ((last : R) × (length items ≡ limit)
          × (rest ≢ [])
          × (last_of items ≡ some last)
          × (next ≡ some (cursor last))
          × ((p : R → Bool)
              → count_if p rest ≡ count_if (λ r. p r && (asked r && follows (cursor last) r)) rows))

abbrev drop {ℓ} : {A : Type ℓ} → ℕ → List A → List A
drop zero xs = xs
drop (suc n) [] = []
drop (suc n) (x ∷ xs) = drop n xs

module _ {R : Type 0} where
  take-drop : (n : ℕ) (rows : List R) → take n rows ++ drop n rows ≡ rows
  unfolding take
  take-drop zero rows = refl
  take-drop (suc n) [] = refl
  take-drop (suc n) (r ∷ rows) = ap (λ t. r ∷ t) (take-drop n rows)

  drop_some : (n : ℕ) (rows : List R) → ltb n (length (take (suc n) rows)) ≡ true → drop n rows ≢ []
  unfolding take
  drop_some zero [] h e = ground arith
  drop_some zero (r ∷ rows) h e = cc
  drop_some (suc n) [] h e = ground arith
  drop_some (suc n) (r ∷ rows) h e = drop_some n rows (ground arith) e

  drop_none :
      (n : ℕ) (rows : List R) → ltb n (length (take (suc n) rows)) ≡ false → drop n rows ≡ []
  unfolding take
  drop_none zero [] h = refl
  drop_none zero (r ∷ rows) h = ground arith
  drop_none (suc n) [] h = refl
  drop_none (suc n) (r ∷ rows) h = drop_none n rows (ground arith)

  nonempty_has_last : (rows : List R) → 1 ≤ length rows → (last : R) × (last_of rows ≡ some last)
  unfolding last_of
  nonempty_has_last [] h = absurd (omega (arith, h))
  nonempty_has_last (r ∷ rows) h =
      elim (last_of rows)
        as (λ o. (last : R) × (elim o [ none ↦ some r | some l ↦ some l ] ≡ some last)) [
          | none ↦ (r, refl)
          | some last ↦ (last, refl)
        ]

  count_of_none :
      (p q : R → Bool) (rows : List R)
      → all (λ r. not (q r)) rows ≡ true
      → count_if (λ r. p r && q r) rows ≡ 0
  count_of_none p q [] h = refl
  count_of_none p q (r ∷ rows) h = ground (arith, count_of_none p q rows)

  count_of_all :
      (p q : R → Bool) (rows : List R)
      → all q rows ≡ true
      → count_if (λ r. p r && q r) rows ≡ count_if p rows
  count_of_all p q [] h = refl
  count_of_all p q (r ∷ rows) h = ground (arith, count_of_all p q rows)

  -- Behind a page where a test changes, it holds of the rest alone.
  count_behind :
      (p q : R → Bool) (items rest : List R)
      → all (λ r. not (q r)) items ≡ true
      → all q rest ≡ true
      → count_if (λ r. p r && q r) (items ++ rest) ≡ count_if p rest
  count_behind p q [] rest h k = count_of_all p q rest k
  count_behind p q (r ∷ items) rest h k = ground (arith, count_behind p q items rest)

  count_if-same :
      (p q : R → Bool) (rows : List R) → ((r : R) → p r ≡ q r) → count_if p rows ≡ count_if q rows
  count_if-same p q [] h = refl
  count_if-same p q (r ∷ rows) h = ground (arith, h r, count_if-same p q rows h)

  count_if-matching :
      (earlier : R → R → Bool) (p asked : R → Bool) (rows : List R)
      → count_if p (matching earlier asked rows) ≡ count_if (λ r. p r && asked r) rows
  count_if-matching earlier p asked rows =
      count_if-sort earlier p (select asked rows) ∙ count_if-select p asked rows

module _ {R : Type 0} {C : Type 0} (key : R → String) (time : R → ℕ) (cursor : R → C)
    (follows : C → R → Bool) (by_time : IsByTime time (λ v w. follows (cursor v) w))
    (strict : IsStrict key (λ v w. follows (cursor v) w)) where
  abbrev earlier : R → R → Bool
  earlier v w = follows (cursor v) w

  rest_after :
      (asked : R → Bool) (rows items rest : List R) (last : R)
      → items ++ rest ≡ matching earlier asked rows
      → distinct_keys key rows ≡ true
      → last_of items ≡ some last
      → (p : R → Bool) → count_if p rest ≡ count_if (λ r. p r && (asked r && earlier last r)) rows
  rest_after asked rows items rest last whole d e p =
      let ordered : IsOrdered key earlier strict (items ++ rest) =
        rw whole (matching-IsOrdered key earlier strict asked rows d) in
      let (behind, before) = after_last key earlier strict items rest last ordered e in
      sym (count_behind p (earlier last) items rest before behind)
      ∙ ap (count_if (λ r. p r && earlier last r)) whole
      ∙ count_if-matching earlier (λ r. p r && earlier last r) asked rows
      ∙ count_if-same (λ r. (p r && earlier last r) && asked r)
          (λ r. p r && (asked r && earlier last r)) rows (λ r. ground arith)

  pub matching-IsPage :
      (asked : R → Bool) (limit : ℕ) (rows items : List R) (next : Option C)
      → distinct_keys key rows ≡ true
      → 1 ≤ limit
      → items ≡ take limit (matching earlier asked rows)
      → next
        ≡ next_cursor_of cursor
            (ltb limit (length (take (suc limit) (matching earlier asked rows))))
            (last_of items)
      → IsPage time cursor follows asked limit rows items next
  matching-IsPage asked limit rows items next d low is_items is_next =
      let m = matching earlier asked rows in
      let rest = drop limit m in
      let whole : items ++ rest ≡ m = ap (λ xs. xs ++ rest) is_items ∙ take-drop limit m in
      record {
        bounded = rw is_items (length-take limit m);
        rest = rest;
        same_rows = λ p. ap (count_if p) whole ∙ count_if-matching earlier p asked rows;
        newest = rw whole (newest_first-sort_by time earlier by_time (select asked rows));
        cut = elim (Bool-cases (ltb limit (length (take (suc limit) m)))) [
          | inl more ↦
              let full : length items ≡ limit = ap length is_items ∙ page_full limit m more in
              let (last, e) = nonempty_has_last items (omega (arith, full, low)) in
              inr (
                last,
                full,
                drop_some limit m more,
                e,
                is_next ∙ rw more (rw e refl),
                rest_after asked rows items rest last whole d e,
              )
          | inr enough ↦ inl (drop_none limit m enough, is_next ∙ rw enough refl)
        ];
      }
