-- ===== src/Storage/Projection/ActionLog.antt =====
-- packages/storage-sqlite/src/work-item-projection.ts: a log of actions in which each has the number
-- after the earlier ones on its work item.
use twindesk.Prelude.{
  ℕ, zero, suc, ◌<◌, ◌≡◌, refl, ap, ◌∙◌, inl, inr, Bool, true, List, [], ◌∷◌, ◌++◌, String, arith,
  all, length, ltb, ◌==◌, string_eq, if◌then◌else◌, Bool-cases, length-append_one,
}
use twindesk.Domain.Records.{WorkItemUserAction}
use twindesk.Storage.Table.{select}
use twindesk.Storage.Projection.Rows.{insert_by_revision, sort_by_revision}
use twindesk.Storage.Projection.Actions.{last_action, expected_revision}

unfoldable pub on_item : String → List WorkItemUserAction → ℕ
on_item item [] = 0
on_item item (a ∷ rows) =
    let rest = on_item item rows in if a.work_item_id == item then suc rest else rest

-- Each action has the number after the earlier ones on its work item.
abbrev pub IsLog : List WorkItemUserAction → Type 0
IsLog [] = Unit {0}
IsLog (a ∷ rows) = (a.revision ≡ suc (on_item a.work_item_id rows)) × IsLog rows

on_item-same :
    (i j : String) (rows : List WorkItemUserAction) → i ≡ j → on_item i rows ≡ on_item j rows
on_item-same i j rows e = ap (λ k. on_item k rows) e

pub expected_revision-IsLog :
    (item : String) (rows : List WorkItemUserAction)
    → IsLog rows
    → expected_revision (last_action item rows) ≡ suc (on_item item rows)
unfolding expected_revision last_action on_item
expected_revision-IsLog item [] h = refl
expected_revision-IsLog item (a ∷ rows) h =
    ground
      (arith, h.0, expected_revision-IsLog item rows h.1, on_item-same a.work_item_id item rows)

insert_last :
    (a : WorkItemUserAction) (rows : List WorkItemUserAction)
    → all (λ b. ltb b.revision a.revision) rows ≡ true
    → insert_by_revision a rows ≡ rows ++ a ∷ []
unfolding insert_by_revision
insert_last a [] h = refl
insert_last a (b ∷ rows) h = ground (arith, insert_last a rows)

abbrev pub numbered : String → List WorkItemUserAction → List WorkItemUserAction
numbered item rows = sort_by_revision (select (λ a. a.work_item_id == item) rows)

all-insert_by_revision :
    (p : WorkItemUserAction → Bool) (a : WorkItemUserAction) (rows : List WorkItemUserAction)
    → p a ≡ true
    → all p rows ≡ true
    → all p (insert_by_revision a rows) ≡ true
unfolding insert_by_revision
all-insert_by_revision p a [] h t = ground arith
all-insert_by_revision p a (b ∷ rows) h t = ground (arith, all-insert_by_revision p a rows h)

all_below :
    (item : String) (r : ℕ) (rows : List WorkItemUserAction)
    → IsLog rows
    → on_item item rows < r
    → all (λ b. ltb b.revision r) (numbered item rows) ≡ true
unfolding select sort_by_revision on_item
all_below item r [] h t = refl
all_below item r (a ∷ rows) h t = elim (Bool-cases (a.work_item_id == item)) [
  | inl here ↦
      let above : suc (on_item item rows) < r = ground arith in
      let first : ltb a.revision r ≡ true =
        ground (arith, h.0, on_item-same a.work_item_id item rows) in
      rw here (
        all-insert_by_revision (λ b. ltb b.revision r) a (numbered item rows) first
          (all_below item r rows h.1 (omega (arith, above))))
  | inr other ↦
      let above : on_item item rows < r = ground arith in rw other (all_below item r rows h.1 above)
]

unfoldable pub revisions : List WorkItemUserAction → List ℕ
revisions [] = []
revisions (a ∷ rows) = a.revision ∷ revisions rows

-- 1, 2, …, n
unfoldable pub count_up : ℕ → List ℕ
count_up zero = []
count_up (suc n) = count_up n ++ suc n ∷ []

revisions-append_one :
    (rows : List WorkItemUserAction) (a : WorkItemUserAction)
    → revisions (rows ++ a ∷ []) ≡ revisions rows ++ a.revision ∷ []
unfolding revisions
revisions-append_one [] a = refl
revisions-append_one (b ∷ rows) a = ap (λ t. b.revision ∷ t) (revisions-append_one rows a)

pub numbered-IsLog :
    (item : String) (rows : List WorkItemUserAction)
    → IsLog rows
    → (revisions (numbered item rows) ≡ count_up (on_item item rows))
      × (length (numbered item rows) ≡ on_item item rows)
unfolding select sort_by_revision on_item count_up revisions
numbered-IsLog item [] h = (refl, refl)
numbered-IsLog item (a ∷ rows) h = elim (Bool-cases (a.work_item_id == item)) [
  | inl here ↦
      let number : a.revision ≡ suc (on_item item rows) =
        ground (arith, h.0, on_item-same a.work_item_id item rows) in
      let last =
        insert_last a (numbered item rows)
          (all_below item a.revision rows h.1 (omega (arith, number))) in
      let (earlier, count) = numbered-IsLog item rows h.1 in
      rw (here, last)
        (
          revisions-append_one (numbered item rows) a ∙ rw earlier (rw number refl),
          length-append_one (numbered item rows) a ∙ ap suc count,
        )
  | inr other ↦ rw other (numbered-IsLog item rows h.1)
]
