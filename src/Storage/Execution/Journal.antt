-- ===== src/Storage/Execution/Journal.antt =====
-- The dispatches of each attempt as a journal: numbered 1, 2, …, and none follows another unless that
-- one is settled as failed, to be tried again under the same key. New rows stand in front.
use mathlib.Core.Path.{subst}
use twindesk.Prelude.{
  ℕ, suc, ◌<◌, ◌≡◌, ◌≢◌, refl, sym, ap, ◌∙◌, ◌⊎◌, inl, true, none, some, List, [], ◌∷◌, String,
  arith, ◌==◌, string_eq, nat_eq, if◌then◌else◌, String_discrete,
}
use twindesk.Storage.Database.{StoredDispatch, Settlement}
use twindesk.Storage.Execution.Requests.{latest_dispatch}
use twindesk.Storage.Execution.Dispatch.{may_retry}
use twindesk.Storage.Execution.Receipt.{settle}

unfoldable pub count_of : String → List StoredDispatch → ℕ
count_of attempt [] = 0
count_of attempt (d ∷ rows) =
    if d.execution_attempt_id == attempt then suc (count_of attempt rows) else count_of attempt rows

abbrev pub AllRetried : String → List StoredDispatch → Type 0
AllRetried attempt [] = Unit {0}
AllRetried attempt (d ∷ rows) =
    (d.execution_attempt_id ≡ attempt → may_retry d ≡ true) × AllRetried attempt rows

abbrev pub IsJournal : List StoredDispatch → Type 0
IsJournal [] = Unit {0}
IsJournal (d ∷ rows) =
    (d.ordinal ≡ suc (count_of d.execution_attempt_id rows))
    × AllRetried d.execution_attempt_id rows
    × IsJournal rows

pub count_of-same :
    (j attempt : String) (rows : List StoredDispatch)
    → j ≡ attempt
    → count_of j rows ≡ count_of attempt rows
count_of-same j attempt rows e = ap (λ i. count_of i rows) e

-- The latest dispatch is the one whose number is the number of dispatches.
pub latest_dispatch-count :
    (attempt : String) (rows : List StoredDispatch)
    → IsJournal rows
    → ((latest_dispatch attempt rows ≡ none) × (count_of attempt rows ≡ 0))
      ⊎ ((l : StoredDispatch) × (latest_dispatch attempt rows ≡ some l)
          × (l.ordinal ≡ count_of attempt rows)
          × (l.execution_attempt_id ≡ attempt))
unfolding latest_dispatch count_of
latest_dispatch-count attempt [] h = inl (refl, refl)
latest_dispatch-count attempt (d ∷ rows) h = ground (arith, latest_dispatch-count attempt rows h.2)

-- Where the latest may be tried again, all were.
pub retried_of_latest :
    (attempt : String) (rows : List StoredDispatch)
    → IsJournal rows
    → ((l : StoredDispatch) → latest_dispatch attempt rows ≡ some l → may_retry l ≡ true)
    → AllRetried attempt rows
unfolding latest_dispatch count_of
retried_of_latest attempt [] h e = tt
retried_of_latest attempt (d ∷ rows) h e = elim (String_discrete d.execution_attempt_id attempt) [
  | yes here ↦ (
    λ _. e d (ground (arith, latest_dispatch-count attempt rows h.2)),
    subst (λ i. AllRetried i rows) here h.1,
  )
  | no there ↦
      (λ p. absurd (there p), retried_of_latest attempt rows h.2 (λ l found. e l (ground arith)))
]

-- A dispatch goes on top of retried ones of its attempt, with the next number.
pub IsJournal-cons :
    (d : StoredDispatch) (attempt : String) (rows : List StoredDispatch)
    → d.execution_attempt_id ≡ attempt
    → d.ordinal ≡ suc (count_of attempt rows)
    → AllRetried attempt rows
    → IsJournal rows
    → IsJournal (d ∷ rows)
IsJournal-cons d attempt rows e n r h =
    (n ∙ ap (λ i. suc (count_of i rows)) (sym e), subst (λ i. AllRetried i rows) (sym e) r, h)

module _ (attempt : String) (ordinal : ℕ) (s : Settlement) where
  abbrev settled : List StoredDispatch → List StoredDispatch
  settled = settle attempt ordinal s

  count_of-settle :
      (j : String) (rows : List StoredDispatch) → count_of j (settled rows) ≡ count_of j rows
  unfolding count_of settle
  count_of-settle j [] = refl
  count_of-settle j (d ∷ rows) = ground (arith, count_of-settle j rows)

  settle-above :
      (rows : List StoredDispatch)
      → IsJournal rows
      → count_of attempt rows < ordinal
      → settled rows ≡ rows
  unfolding count_of settle
  settle-above [] h n = refl
  settle-above (d ∷ rows) h n = elim (String_discrete d.execution_attempt_id attempt) [
    | yes here ↦
        ground
          (arith, settle-above rows h.2, count_of-same d.execution_attempt_id attempt rows here)
    | no there ↦ ground (arith, settle-above rows h.2)
  ]

  AllRetried-settle :
      (j : String) (rows : List StoredDispatch)
      → j ≢ attempt
      → AllRetried j rows
      → AllRetried j (settled rows)
  unfolding settle may_retry
  AllRetried-settle j [] n h = tt
  AllRetried-settle j (d ∷ rows) n h = (ground (arith, h.0), AllRetried-settle j rows n h.1)

  settle_here :
      (d : StoredDispatch) (rows : List StoredDispatch)
      → d.execution_attempt_id ≡ attempt
      → d.ordinal ≡ ordinal
      → settled rows ≡ rows
      → settled (d ∷ rows) ≡ record d { settlement = some s } ∷ rows
  unfolding settle
  settle_here d rows a n e = ground arith

  settle_there :
      (d : StoredDispatch) (rows : List StoredDispatch)
      → d.execution_attempt_id ≢ attempt
      → settled (d ∷ rows) ≡ d ∷ settled rows
  unfolding settle
  settle_there d rows a = ground arith

  settle_none : settled [] ≡ []
  unfolding settle
  settle_none = refl

  -- Settling the latest dispatch of an attempt keeps the journal.
  pub IsJournal-settle :
      (rows : List StoredDispatch)
      → IsJournal rows
      → count_of attempt rows ≡ ordinal
      → IsJournal (settled rows)
  unfolding count_of
  IsJournal-settle [] h n = rw settle_none tt
  IsJournal-settle (d ∷ rows) h n = elim (String_discrete d.execution_attempt_id attempt) [
    | yes here ↦
        (let same = count_of-same d.execution_attempt_id attempt rows here in
          rw (settle_here d rows here (ground arith) (settle-above rows h.2 (ground arith))) h)
    | no there ↦ rw (settle_there d rows there) (
      h.0 ∙ ap suc (sym (count_of-settle d.execution_attempt_id rows)),
      AllRetried-settle d.execution_attempt_id rows there h.1,
      IsJournal-settle rows h.2 (ground arith),
    )
  ]
