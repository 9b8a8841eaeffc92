-- ===== src/Time.antt =====
-- packages/domain/src/validation.ts, `timestampAt`: UTC timestamps as texts. `Date.parse` and
-- `toISOString` are the language's: an instant is a number of milliseconds since 0000-01-01, so
-- that the years of the format are all natural numbers. Only comparisons and differences of
-- instants are used, and they do not depend on where the count begins.
use Prim.Native.Char.{Char, code}
use twindesk.Prelude.{
  ℕ, zero, suc, ◌+◌, ◌-◌, ◌*◌, ◌/◌, ◌%◌, ◌≡◌, refl, Bool, false, ◌&&◌, ◌||◌, Option, none, some,
  List, [], ◌∷◌, String, all, ltb, leb, ◌==◌, ◌!=◌, nat_eq, if◌then◌else◌, ℕ_discrete,
}

abbrev pub IsoTimestamp : Type 0
IsoTimestamp = String

abbrev pub codes : String → List ℕ
codes String.[] = []
codes (String.◌∷◌ c s) = code c ∷ codes s

pub record Fields : Type 0 where
  pub year : ℕ
  pub month : ℕ
  pub day : ℕ
  pub hour : ℕ
  pub minute : ℕ
  pub second : ℕ
  pub millisecond : ℕ

abbrev is_digit : ℕ → Bool
is_digit c = leb 48 c && leb c 57

abbrev decimal : ℕ → List ℕ → ℕ
decimal n [] = n
decimal n (c ∷ cs) = decimal (n * 10 + (c - 48)) cs

-- The optional fraction of one to three digits, and the final Z.
unfoldable pub fraction : List ℕ → Option ℕ
fraction (z ∷ []) = if z == b'Z' then some 0 else none
fraction (p ∷ a ∷ z ∷ []) =
    if p == b'.' && is_digit a && z == b'Z' then some (decimal 0 (a ∷ []) * 100) else none
fraction (p ∷ a ∷ b ∷ z ∷ []) =
    if p == b'.' && is_digit a && is_digit b && z == b'Z'
    then some (decimal 0 (a ∷ b ∷ []) * 10)
    else none
fraction (p ∷ a ∷ b ∷ c ∷ z ∷ []) =
    if p == b'.' && is_digit a && is_digit b && is_digit c && z == b'Z'
    then some (decimal 0 (a ∷ b ∷ c ∷ []))
    else none
fraction _ = none

unfoldable pub fields_with : Fields → Option ℕ → Option Fields
fields_with f none = none
fields_with f (some ms) = some (record f { millisecond = ms })

-- The regular expression of `timestampAt`.
unfoldable pub fields : List ℕ → Option Fields
unfolding fraction fields_with
fields
      (y ∷ y' ∷ y'' ∷ y''' ∷ s₁ ∷ m ∷ m' ∷ s₂ ∷ d ∷ d' ∷ s₃ ∷ h ∷ h' ∷ s₄ ∷ n ∷ n' ∷ s₅ ∷ s ∷ s'
        ∷ rest) =
    if all is_digit (y ∷ y' ∷ y'' ∷ y''' ∷ m ∷ m' ∷ d ∷ d' ∷ h ∷ h' ∷ n ∷ n' ∷ s ∷ s' ∷ [])
      && s₁ == b'-'
      && s₂ == b'-'
      && s₃ == b'T'
      && s₄ == b':'
      && s₅ == b':'
    then fields_with
        (record {
          year = decimal 0 (y ∷ y' ∷ y'' ∷ y''' ∷ []);
          month = decimal 0 (m ∷ m' ∷ []);
          day = decimal 0 (d ∷ d' ∷ []);
          hour = decimal 0 (h ∷ h' ∷ []);
          minute = decimal 0 (n ∷ n' ∷ []);
          second = decimal 0 (s ∷ s' ∷ []);
          millisecond = 0;
        })
        (fraction rest)
    else none
fields _ = none

unfoldable pub is_leap : ℕ → Bool
is_leap y = y % 4 == 0 && (y % 100 != 0 || y % 400 == 0)

unfoldable pub days_in_month : ℕ → ℕ → ℕ
unfolding is_leap
days_in_month y m =
    if m == 2
    then (if is_leap y then 29 else 28)
    else if m == 4 || m == 6 || m == 9 || m == 11
    then 30
    else 31

-- A text that names no day or time of the calendar does not survive the comparison of
-- `new Date(text).toISOString()` with the padded input.
unfoldable pub on_calendar : Fields → Bool
unfolding days_in_month
on_calendar f =
    leb 1 f.month
    && leb f.month 12
    && leb 1 f.day
    && leb f.day (days_in_month f.year f.month)
    && ltb f.hour 24
    && ltb f.minute 60
    && ltb f.second 60

unfoldable pub timestamp_at : IsoTimestamp → Bool
unfolding fields on_calendar
timestamp_at t = elim (fields (codes t)) [ none ↦ false | some f ↦ on_calendar f ]

-- The days of the years 0 to y - 1, and of the months before m in year y.
unfoldable pub days_before_year : ℕ → ℕ
days_before_year y = 365 * y + (y + 3) / 4 - (y + 99) / 100 + (y + 399) / 400

unfoldable pub days_before_month : ℕ → ℕ → ℕ
unfolding days_in_month
days_before_month y zero = 0
days_before_month y (suc zero) = 0
days_before_month y (suc (suc m)) = days_before_month y (suc m) + days_in_month y (suc m)

unfoldable pub milliseconds : Fields → ℕ
unfolding days_before_year days_before_month
milliseconds f =
    let days = days_before_year f.year + days_before_month f.year f.month + (f.day - 1) in
    (((days * 24 + f.hour) * 60 + f.minute) * 60 + f.second) * 1000 + f.millisecond

-- Applied to texts that `timestamp_at` has accepted; elsewhere the source gives NaN.
unfoldable pub date_parse : IsoTimestamp → ℕ
unfolding fields milliseconds
date_parse t = elim (fields (codes t)) [ none ↦ 0 | some f ↦ milliseconds f ]

-- The first instant of year 10000: later ones are not in the format.
abbrev pub format_end : ℕ
format_end = 315569520000000

-- The year, and then the month, of a day: the first one that ends after it.
unfoldable pub year_from : ℕ → ℕ → ℕ → ℕ
unfolding days_before_year
year_from zero y d = y
year_from (suc fuel) y d =
    let later = year_from fuel (suc y) d in if ltb d (days_before_year (suc y)) then y else later

unfoldable pub month_from : ℕ → ℕ → ℕ → ℕ → ℕ
unfolding days_before_month
month_from zero y m d = m
month_from (suc fuel) y m d =
    let later = month_from fuel y (suc m) d in
    if ltb d (days_before_month y (suc m)) then m else later

unfoldable pub fields_of : ℕ → Fields
unfolding year_from month_from
fields_of ms =
    let d = ms / 86400000 in
    let y = year_from 40 (d / 366) d in
    let r = d - days_before_year y in
    let m = month_from 11 y 1 r in
    record {
      year = y;
      month = m;
      day = r - days_before_month y m + 1;
      hour = ms / 3600000 % 24;
      minute = ms / 60000 % 60;
      second = ms / 1000 % 60;
      millisecond = ms % 1000;
    }

abbrev digit : ℕ → Char
digit zero = "0"
digit (suc zero) = "1"
digit (suc (suc zero)) = "2"
digit (suc (suc (suc zero))) = "3"
digit (suc (suc (suc (suc zero)))) = "4"
digit (suc (suc (suc (suc (suc zero))))) = "5"
digit (suc (suc (suc (suc (suc (suc zero)))))) = "6"
digit (suc (suc (suc (suc (suc (suc (suc zero))))))) = "7"
digit (suc (suc (suc (suc (suc (suc (suc (suc zero)))))))) = "8"
digit _ = "9"

infixr 67 ◌▹◌
abbrev pub ◌▹◌ : Char → String → String
c ▹ s = String.◌∷◌ c s

abbrev two_digits : ℕ → String → String
two_digits n s = digit (n / 10 % 10) ▹ digit (n % 10) ▹ s

-- `new Date(ms).toISOString()`, for an instant of the format.
unfoldable pub iso_text : Fields → IsoTimestamp
iso_text f =
    digit (f.year / 1000 % 10)
    ▹ digit (f.year / 100 % 10)
    ▹ two_digits (f.year % 100) (
        "-"
        ▹ two_digits f.month (
            "-"
            ▹ two_digits f.day (
                "T"
                ▹ two_digits f.hour (
                    ":"
                    ▹ two_digits f.minute (
                        ":"
                        ▹ two_digits f.second (
                            "."
                            ▹ digit (f.millisecond / 100 % 10)
                            ▹ two_digits (f.millisecond % 100) "Z"))))))

-- `parseIsoTimestamp(new Date(nowMs).toISOString())`: none where it throws.
unfoldable pub clock_timestamp : ℕ → Option IsoTimestamp
unfolding fields_of iso_text
clock_timestamp ms = if ltb ms format_end then some (iso_text (fields_of ms)) else none

sample_parse : date_parse "2026-03-01T00:00:00.5Z" ≡ 63939542400500
unfolding date_parse ℕ_discrete is_leap
sample_parse = refl

sample_text : clock_timestamp 63939542400500 ≡ some "2026-03-01T00:00:00.500Z"
unfolding clock_timestamp ℕ_discrete is_leap days_before_year days_before_month
sample_text = refl

sample_invalid : timestamp_at "2026-02-29T00:00:00Z" ≡ false
unfolding timestamp_at ℕ_discrete
sample_invalid = refl
