-- ===== src/Storage/Pages/Strict.antt =====
-- Rows in a strict order: which of them stand after the last row of a page.
use twindesk.Prelude.{
  ◌≡◌, ◌≢◌, refl, sym, ap, ◌⊎◌, inl, inr, Bool, true, false, not, some, List, [], ◌∷◌, ◌++◌, String,
  arith, all, any, Bool-cases, ◌==◌, string_eq,
}
use twindesk.Domain.Parsers.{distinct_by}
use twindesk.Storage.Table.{select}
use twindesk.Storage.Pages.{last_of, insert_by, sort_by, distinct_keys, matching}

-- A strict order that tells apart rows with different keys.
pub record IsStrict {R : Type 0} (key : R → String) (earlier : R → R → Bool) : Type 0 where
  pub asym : (v w : R) → earlier v w ≡ true → earlier w v ≡ false
  pub trans : (u v w : R) → earlier u v ≡ true → earlier v w ≡ true → earlier u w ≡ true
  pub total : (v w : R) → key v ≢ key w → earlier v w ≡ false → earlier w v ≡ true

module _ {R : Type 0} (key : R → String) (earlier : R → R → Bool)
    (strict : IsStrict key earlier) where
  abbrev has_other_key : R → R → Bool
  has_other_key w v = not (key w == key v)

  -- Each row stands before all rows after it.
  abbrev pub IsOrdered : List R → Type 0
  IsOrdered [] = Unit {0}
  IsOrdered (r ∷ rows) = (all (earlier r) rows ≡ true) × IsOrdered rows

  all-insert_by :
      (p : R → Bool) (w : R) (rows : List R)
      → p w ≡ true
      → all p rows ≡ true
      → all p (insert_by earlier w rows) ≡ true
  unfolding insert_by
  all-insert_by p w [] h k = ground arith
  all-insert_by p w (v ∷ rows) h k = ground (arith, all-insert_by p w rows h)

  all-sort_by :
      (p : R → Bool) (rows : List R) → all p rows ≡ true → all p (sort_by earlier rows) ≡ true
  unfolding sort_by
  all-sort_by p [] h = refl
  all-sort_by p (w ∷ rows) h =
      all-insert_by p w (sort_by earlier rows) (ground arith) (all-sort_by p rows (ground arith))

  all_after :
      (w v : R) (rows : List R)
      → earlier w v ≡ true
      → all (earlier v) rows ≡ true
      → all (earlier w) rows ≡ true
  all_after w v [] h k = refl
  all_after w v (r ∷ rows) h k = ground (arith, strict.trans w v r h, all_after w v rows h)

  insert_by-IsOrdered :
      (w : R) (rows : List R)
      → all (has_other_key w) rows ≡ true
      → IsOrdered rows
      → IsOrdered (insert_by earlier w rows)
  unfolding insert_by
  insert_by-IsOrdered w [] d h = (refl, tt)
  insert_by-IsOrdered w (v ∷ rows) d h = elim (Bool-cases (earlier v w)) [
    | inl before ↦
        rw before (
          all-insert_by (earlier v) w rows before h.0,
          insert_by-IsOrdered w rows (ground arith) h.1,
        )
    | inr after ↦
        let other : key v ≢ key w = λ e. ground (arith, e) in
        let first = strict.total v w other after in
        let rest = all_after w v rows first h.0 in rw after (ground (arith, first, rest), h)
  ]

  select_others :
      (w : R) (asked : R → Bool) (rows : List R)
      → any (λ r. key w == key r) rows ≡ false
      → all (has_other_key w) (select asked rows) ≡ true
  unfolding select
  select_others w asked [] d = refl
  select_others w asked (r ∷ rows) d = ground (arith, select_others w asked rows)

  pub matching-IsOrdered :
      (asked : R → Bool) (rows : List R)
      → distinct_keys key rows ≡ true
      → IsOrdered (matching earlier asked rows)
  unfolding sort_by select distinct_by
  matching-IsOrdered asked [] d = tt
  matching-IsOrdered asked (w ∷ rows) d =
      let rest = matching-IsOrdered asked rows (ground arith) in
      elim (Bool-cases (asked w)) [
        | inl here ↦ rw here (
            insert_by-IsOrdered w (matching earlier asked rows)
              (all-sort_by (has_other_key w) (select asked rows)
                (select_others w asked rows (ground arith)))
              rest)
        | inr other ↦ rw other rest
      ]

  all_of_append :
      (p : R → Bool) (items rest : List R)
      → all p (items ++ rest) ≡ true
      → (all p items ≡ true) × (all p rest ≡ true)
  all_of_append p [] rest h = (refl, h)
  all_of_append p (x ∷ items) rest h = ground (arith, all_of_append p items rest)

  last_of-cases :
      (x : R) (items : List R) (last : R)
      → last_of (x ∷ items) ≡ some last
      → ((items ≡ []) × (x ≡ last)) ⊎ (last_of items ≡ some last)
  unfolding last_of
  last_of-cases x [] last e = inl (refl, ground arith)
  last_of-cases x (y ∷ items) last e = inr (ground arith)

  last_of-all :
      (p : R → Bool) (items : List R) (last : R)
      → all p items ≡ true
      → last_of items ≡ some last
      → p last ≡ true
  unfolding last_of
  last_of-all p [] last h e = cc
  last_of-all p (x ∷ items) last h e = elim (last_of-cases x items last e) [
    | inl (_, only) ↦ ground (arith, ap p only)
    | inr later ↦ last_of-all p items last (ground arith) later
  ]

  not_itself : (r : R) → earlier r r ≡ false
  not_itself r = elim (Bool-cases (earlier r r)) [ inl h ↦ strict.asym r r h | inr h ↦ h ]

  -- After the last row of a page stand the rows behind the page, and no row of the page.
  pub after_last :
      (items rest : List R) (last : R)
      → IsOrdered (items ++ rest)
      → last_of items ≡ some last
      → (all (earlier last) rest ≡ true) × (all (λ r. not (earlier last r)) items ≡ true)
  unfolding last_of
  after_last [] rest last h e = cc
  after_last (x ∷ items) rest last h e =
      let (over_items, over_rest) = all_of_append (earlier x) items rest h.0 in
      elim (last_of-cases x items last e) [
        | inl (none_left, only) ↦
            rw (sym only) (over_rest, rw none_left (ground (arith, not_itself x)))
        | inr later ↦
            let (after, before) = after_last items rest last h.1 later in
            let later_one =
              strict.asym x last (last_of-all (earlier x) items last over_items later) in
            (after, ground (arith, before, later_one))
      ]
