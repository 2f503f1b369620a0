-- ===== src/StringHelper/Case/Camel.antt =====
-- CamelCase2Underline and Underline2CamelCase of string_helper/StringHelper.hpp.
use c_plus_plus.Prelude.{
  ℕ, ◌≡◌, refl, ap₂, ◌∙◌, inl, inr, Bool, true, false, not, [], ◌∷◌, arith, ◌==◌, if◌then◌else◌,
  Bool-cases,
}
use c_plus_plus.Prelude.Chars.{Bytes, islower, isupper, toupper, tolower}
use c_plus_plus.Prelude.Find.{All}
use c_plus_plus.StringHelper.Case.{
  camel_case_to_underline, underline_to_camel_from, underline_to_camel_case,
}

abbrev pub no_underscore : ℕ → Bool
no_underscore c = not (c == b'_')

-- What the loop back to camel case makes of a character, by the one before it.
abbrev kept : ℕ → ℕ → ℕ
kept prev c = if prev == b'_' then toupper c else c

toupper-tolower_upper : (c : ℕ) → isupper c ≡ true → toupper (tolower c) ≡ c
unfolding toupper tolower isupper islower
toupper-tolower_upper c h = ground arith

pub tolower_not_upper : (c : ℕ) → isupper c ≡ false → tolower c ≡ c
unfolding tolower
tolower_not_upper c h = rw h

tolower-ne-underscore : (c : ℕ) → no_underscore c ≡ true → no_underscore (tolower c) ≡ true
unfolding tolower isupper
tolower-ne-underscore c h = ground arith

toupper_upper : (c : ℕ) → isupper c ≡ true → toupper c ≡ c
unfolding toupper isupper islower
toupper_upper c h = ground arith

-- A character of the loop comes back, whether `CamelCase2Underline` lowered it or not.
kept-tolower :
    (prev c : ℕ) → isupper c ≡ (prev == b'_') → (kept prev (tolower c) ≡ c) × (kept prev c ≡ c)
unfolding toupper tolower isupper islower
kept-tolower prev c h = (ground arith, ground arith)

from-cons :
    (prev c : ℕ) (s : Bytes)
    → no_underscore c ≡ true
    → underline_to_camel_from prev (c ∷ s) ≡ kept prev c ∷ underline_to_camel_from c s
unfolding underline_to_camel_from
from-cons prev c s h = ground arith

from-underscore :
    (prev : ℕ) (s : Bytes)
    → underline_to_camel_from prev (b'_' ∷ s) ≡ underline_to_camel_from b'_' s
unfolding underline_to_camel_from
from-underscore prev s = refl

not_underscore : (c : ℕ) → no_underscore c ≡ true → false ≡ (c == b'_')
not_underscore c h = ground arith

from-camel_case_to_underline :
    (prev c : ℕ) (s : Bytes)
    → isupper c ≡ (prev == b'_')
    → All no_underscore (c ∷ s)
    → underline_to_camel_from prev (camel_case_to_underline (c ∷ s)) ≡ c ∷ s
unfolding camel_case_to_underline
from-camel_case_to_underline prev c [] h a =
    from-cons prev c [] a.0
    ∙ ap₂ ◌∷◌ (kept-tolower prev c h).1 (unfold underline_to_camel_from in refl)
from-camel_case_to_underline prev c (d ∷ s) h a = elim (Bool-cases (isupper d)) [
  | inl u ↦ rw u (
      from-cons prev (tolower c) _ (tolower-ne-underscore c a.0)
      ∙ ap₂ ◌∷◌ (kept-tolower prev c h).0
          (from-underscore (tolower c) _ ∙ from-camel_case_to_underline b'_' d s u a.1))
  | inr u ↦ rw u (
      from-cons prev c _ a.0
      ∙ ap₂ ◌∷◌ (kept-tolower prev c h).1
          (from-camel_case_to_underline c d s (u ∙ not_underscore c a.0) a.1))
]

first_char :
    (c : ℕ) (lower_first : Bool)
    → isupper c ≡ not lower_first
    → islower c ≡ lower_first
    → ((if lower_first then tolower c else toupper c) ≡ c)
      × ((if lower_first then tolower (tolower c) else toupper (tolower c)) ≡ c)
unfolding toupper tolower isupper islower
first_char c lower_first h k = (ground arith, ground arith)

-- Underscores back to camel case undoes camel case to underscores: for every string with no
-- underscore whose first letter is in the case that the flag asks for.
pub underline_to_camel_case-camel_case_to_underline :
    (c : ℕ) (s : Bytes) (lower_first : Bool)
    → isupper c ≡ not lower_first
    → islower c ≡ lower_first
    → All no_underscore (c ∷ s)
    → underline_to_camel_case (camel_case_to_underline (c ∷ s)) lower_first ≡ c ∷ s
unfolding camel_case_to_underline underline_to_camel_case
underline_to_camel_case-camel_case_to_underline c [] f h k a =
    ap₂ ◌∷◌ (first_char c f h k).0 (unfold underline_to_camel_from in refl)
underline_to_camel_case-camel_case_to_underline c (d ∷ s) f h k a = elim (Bool-cases (isupper d)) [
  | inl u ↦ rw u (
      ap₂ ◌∷◌ (first_char c f h k).1
        (from-underscore (tolower c) _ ∙ from-camel_case_to_underline b'_' d s u a.1))
  | inr u ↦ rw u (
      ap₂ ◌∷◌ (first_char c f h k).0
        (from-camel_case_to_underline c d s (u ∙ not_underscore c a.0) a.1))
]
