-- ===== src/Storage/DraftAction/Drafts/Ladder.antt =====
-- The order of the drafts of a work item, on the rows of the table alone: what an insertion and an
-- update keep of it. New rows stand in front.
use twindesk.Prelude.{
  ℕ, suc, ◌≡◌, refl, sym, ap, ◌∙◌, ◌≢◌, ◌⊎◌, inl, Bool, true, false, Option, none, some, List, [],
  ◌∷◌, String, arith, ◌==◌, string_eq, nat_eq, if◌then◌else◌, String_discrete,
}
use mathlib.Core.Path.{subst}
use twindesk.Domain.Model.{Draft}
use twindesk.Storage.Table.{find, update, update_here, update_there}
use twindesk.Storage.DraftAction.Rows.{is_active}
use twindesk.Storage.DraftAction.Drafts.{latest_of}

abbrev pub find_draft : String → List Draft → Option Draft
find_draft = find (λ d. d.id)

abbrev pub belongs : String → Draft → Bool
belongs item d = d.work_item_id == item

unfoldable pub count_of : String → List Draft → ℕ
count_of item [] = 0
count_of item (d ∷ rows) = if belongs item d then suc (count_of item rows) else count_of item rows

abbrev pub AllInactive : String → List Draft → Type 0
AllInactive item [] = Unit {0}
AllInactive item (d ∷ rows) =
    (d.work_item_id ≡ item → is_active d.state ≡ false) × AllInactive item rows

-- Every row is the next revision of its work item, stands above inactive revisions only, and has
-- an id of its own.
abbrev pub IsLadder : List Draft → Type 0
IsLadder [] = Unit {0}
IsLadder (d ∷ rows) =
    (d.revision ≡ suc (count_of d.work_item_id rows))
    × AllInactive d.work_item_id rows
    × (find_draft d.id rows ≡ none)
    × IsLadder rows

-- The latest draft is the one whose revision is the number of drafts.
pub latest_of-count :
    (item : String) (rows : List Draft)
    → IsLadder rows
    → ((latest_of item rows ≡ none) × (count_of item rows ≡ 0))
      ⊎ ((b : Draft) × (latest_of item rows ≡ some b)
          × (b.revision ≡ count_of item rows)
          × (b.work_item_id ≡ item))
unfolding latest_of count_of
latest_of-count item [] h = inl (refl, refl)
latest_of-count item (d ∷ rows) h = ground (arith, latest_of-count item rows h.3)

pub find-latest_of :
    (item : String) (rows : List Draft) (b : Draft)
    → IsLadder rows
    → latest_of item rows ≡ some b
    → find_draft b.id rows ≡ some b
unfolding latest_of find count_of
find-latest_of item [] b h e = cc
find-latest_of item (d ∷ rows) b h e =
    ground (arith, find-latest_of item rows b h.3, latest_of-count item rows h.3)

-- Where the latest is inactive, all are.
pub inactive_of_latest :
    (item : String) (rows : List Draft)
    → IsLadder rows
    → ((b : Draft) → latest_of item rows ≡ some b → is_active b.state ≡ false)
    → AllInactive item rows
unfolding latest_of count_of
inactive_of_latest item [] h e = tt
inactive_of_latest item (d ∷ rows) h e = elim (String_discrete d.work_item_id item) [
  | yes here ↦ (
    λ _. e d (ground (arith, latest_of-count item rows h.3)),
    subst (λ i. AllInactive i rows) here h.1,
  )
  | no there ↦
      (λ p. absurd (there p), inactive_of_latest item rows h.3 (λ b found. e b (ground arith)))
]

-- The count does not see an update that keeps work items, and no row's id changes.
module _ (k : String) (f : Draft → Draft) (keeps_id : (d : Draft) → (f d).id ≡ d.id)
    (keeps_item : (d : Draft) → (f d).work_item_id ≡ d.work_item_id)
    (keeps_revision : (d : Draft) → (f d).revision ≡ d.revision) where
  abbrev updated : List Draft → List Draft
  updated = update (λ d. d.id) k f

  pub count_of-update :
      (item : String) (rows : List Draft) → count_of item (updated rows) ≡ count_of item rows
  unfolding count_of update
  count_of-update item [] = refl
  count_of-update item (d ∷ rows) = ground (arith, keeps_item d, count_of-update item rows)

  find-update_none :
      (j : String) (rows : List Draft)
      → find_draft j rows ≡ none
      → find_draft j (updated rows) ≡ none
  unfolding find update
  find-update_none j [] h = refl
  find-update_none j (d ∷ rows) h = ground (arith, keeps_id d, find-update_none j rows)

  -- The changed row is inactive after, or was active before.
  AllInactive-update :
      (item : String) (rows : List Draft) (x : Draft)
      → find_draft k rows ≡ some x
      → (is_active (f x).state ≡ false) ⊎ (is_active x.state ≡ true)
      → AllInactive item rows
      → AllInactive item (updated rows)
  unfolding find update
  AllInactive-update item [] x e c h = tt
  AllInactive-update item (d ∷ rows) x e c h = elim (String_discrete d.id k) [
    | yes here ↦ rw (update_here (λ r. r.id) k f d rows here) (ground (arith, keeps_item d), h.1)
    | no there ↦
        rw (update_there (λ r. r.id) k f d rows there)
          (h.0, AllInactive-update item rows x (ground arith) c h.1)
  ]

  -- An update that makes no inactive draft active keeps the order.
  pub IsLadder-update :
      (rows : List Draft) (x : Draft)
      → find_draft k rows ≡ some x
      → (is_active (f x).state ≡ false) ⊎ (is_active x.state ≡ true)
      → IsLadder rows
      → IsLadder (updated rows)
  unfolding find update
  IsLadder-update [] x e c h = tt
  IsLadder-update (d ∷ rows) x e c h = elim (String_discrete d.id k) [
    | yes here ↦
        rw (update_here (λ r. r.id) k f d rows here)
          (rw (keeps_item d, keeps_revision d, keeps_id d) h)
    | no there ↦
        let found : find_draft k rows ≡ some x = ground arith in
        rw (update_there (λ r. r.id) k f d rows there) (
          h.0 ∙ ap suc (sym (count_of-update d.work_item_id rows)),
          AllInactive-update d.work_item_id rows x found c h.1,
          find-update_none d.id rows h.2,
          IsLadder-update rows x found c h.3,
        )
  ]

  -- An update that makes the latest draft inactive leaves none active.
  pub inactive_after_update :
      (item : String) (rows : List Draft) (x : Draft)
      → latest_of item rows ≡ some x
      → x.id ≡ k
      → is_active (f x).state ≡ false
      → IsLadder rows
      → AllInactive item (updated rows)
  unfolding latest_of count_of update find
  inactive_after_update item [] x e i c h = tt
  inactive_after_update item (d ∷ rows) x e i c h = elim (String_discrete d.work_item_id item) [
    | yes here ↦
        let same : d ≡ x = ground (arith, latest_of-count item rows h.3) in
        rw (update_here (λ r. r.id) k f d rows (ap (λ (r : Draft). r.id) same ∙ i)) (
          λ _. ap (λ (r : Draft). is_active (f r).state) same ∙ c,
          subst (λ j. AllInactive j rows) here h.1,
        )
    | no there ↦
        let later : latest_of item rows ≡ some x = ground arith in
        let other : d.id ≢ k = λ p. ground (arith, find-latest_of item rows x h.3 later, p, i) in
        rw (update_there (λ r. r.id) k f d rows other)
          (λ p. absurd (there p), inactive_after_update item rows x later i c h.3)
  ]
