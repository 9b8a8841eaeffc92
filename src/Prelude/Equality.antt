-- ===== src/Prelude/Equality.antt =====
-- `===` of the source, through a decision of equality for each type.
use Prim.Native.Nat.{ℕ}
use Prim.Native.String.{String}
use mathlib.Core.Path.{◌≡◌, refl, ap}
use mathlib.Core.Bool.{Bool, true, false, not, false≢true}
use mathlib.Core.Logic.{◌≢◌}
use mathlib.Core.Option.{Option, none, some, some-injective}
use native.Mathlib.Decide.{ℕ_discrete}
use text.Mathlib.Text.{◌==◌ as text_eq}
use text.Mathlib.TextEquality.{eq_iff}

decide_by_test {ℓ} : {P : Type ℓ} (test : Bool) → (test ≡ true → P) → (P → test ≡ true) → Dec P
decide_by_test true sound complete = yes (sound refl)
decide_by_test false sound complete = no (λ p. false≢true (complete p))

unfoldable pub String_discrete : Discrete String
unfolding decide_by_test
String_discrete s t = decide_by_test (text_eq s t) (eq_iff s t).0 (eq_iff s t).1

module _ {ℓ} {A : Type ℓ} where
  pub none-ne-some : {a : A} → none ≢ some a
  none-ne-some e = cc

  pub some-ne-none : {a : A} → some a ≢ none
  some-ne-none e = cc

  ap-some : (a b : A) → Dec (a ≡ b) → Dec (some a ≡ some b)
  ap-some a b (yes p) = yes (ap some p)
  ap-some a b (no n) = no (λ e. n (some-injective a b e))

  unfoldable pub Option_discrete : Discrete A → Discrete (Option A)
  unfolding ap-some
  Option_discrete d none none = yes refl
  Option_discrete d none (some b) = no none-ne-some
  Option_discrete d (some a) none = no some-ne-none
  Option_discrete d (some a) (some b) = ap-some a b (d a b)

pub record Eq {ℓ} (A : Type ℓ) : Type ℓ where
  pub dec : Discrete A

infix 50 ◌==◌ ◌!=◌
abbrev pub ◌==◌ {ℓ} : {A : Type ℓ} ⦃e : Eq A⦄ → A → A → Bool
◌==◌ ⦃e⦄ a b = elim (e.dec a b) [ yes p ↦ true | no p ↦ false ]

abbrev pub ◌!=◌ {ℓ} : {A : Type ℓ} ⦃e : Eq A⦄ → A → A → Bool
◌!=◌ ⦃e⦄ a b = not (a == b)

instance abbrev pub string_eq : Eq String
string_eq = record { dec = String_discrete }

instance abbrev pub nat_eq : Eq ℕ
nat_eq = record { dec = ℕ_discrete }

instance abbrev pub option_eq {ℓ} : {A : Type ℓ} ⦃e : Eq A⦄ → Eq (Option A)
option_eq ⦃e⦄ = record { dec = Option_discrete e.dec }
