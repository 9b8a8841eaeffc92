-- ===== src/Storage/TextOrder.antt =====
-- The order of texts in SQL. SQLite compares the bytes of their UTF-8 form, which is the order of
-- their code points.
use Prim.Native.Char.{code}
use text.Mathlib.TextEquality.{Char-path}
use twindesk.Prelude.{
  ◌≡◌, refl, ap, ◌∙◌, Bool, true, false, ◌&&◌, ◌||◌, String, arith, ltb, ◌==◌, nat_eq,
}

-- `s < t`
unfoldable pub text_before : String → String → Bool
text_before String.[] String.[] = false
text_before String.[] (String.◌∷◌ d t) = true
text_before (String.◌∷◌ c s) String.[] = false
text_before (String.◌∷◌ c s) (String.◌∷◌ d t) =
    let rest = text_before s t in ltb (code c) (code d) || code c == code d && rest

pub text_before_asym : (s t : String) → text_before s t ≡ true → text_before t s ≡ false
unfolding text_before
text_before_asym String.[] String.[] h = refl
text_before_asym String.[] (String.◌∷◌ d t) h = refl
text_before_asym (String.◌∷◌ c s) String.[] h = cc
text_before_asym (String.◌∷◌ c s) (String.◌∷◌ d t) h = ground (arith, text_before_asym s t)

pub text_before_trans :
    (s t u : String) → text_before s t ≡ true → text_before t u ≡ true → text_before s u ≡ true
unfolding text_before
text_before_trans String.[] String.[] u h k = cc
text_before_trans String.[] (String.◌∷◌ d t) String.[] h k = cc
text_before_trans String.[] (String.◌∷◌ d t) (String.◌∷◌ e u) h k = refl
text_before_trans (String.◌∷◌ c s) String.[] u h k = cc
text_before_trans (String.◌∷◌ c s) (String.◌∷◌ d t) String.[] h k = cc
text_before_trans (String.◌∷◌ c s) (String.◌∷◌ d t) (String.◌∷◌ e u) h k =
    ground (arith, text_before_trans s t u)

-- Of two texts neither of which is before the other, both are one.
pub text_before_eq : (s t : String) → text_before s t ≡ false → text_before t s ≡ false → s ≡ t
unfolding text_before
text_before_eq String.[] String.[] h k = refl
text_before_eq String.[] (String.◌∷◌ d t) h k = cc
text_before_eq (String.◌∷◌ c s) String.[] h k = cc
text_before_eq (String.◌∷◌ c s) (String.◌∷◌ d t) h k =
    ap (λ x. String.◌∷◌ x s) (Char-path c d (ground arith))
    ∙ ap (λ u. String.◌∷◌ d u) (text_before_eq s t (ground arith) (ground arith))
