-- ===== src/StringHelper/Classify.antt =====
-- Tests of a whole string in string_helper/StringHelper.hpp. Each is false of the empty string.
use c_plus_plus.Prelude.{ℕ, ◌≡◌, refl, Bool, true, false, ◌||◌, [], ◌∷◌, map, arith}
use c_plus_plus.Prelude.Chars.{
  Bytes, isdigit, islower, isupper, isalpha, isalnum, isxdigit, isspace, toupper, tolower,
}
use c_plus_plus.Prelude.Find.{all_of, one_of}
use c_plus_plus.StringHelper.Case.{lower, upper}

-- `std::all_of` behind the test of `empty()`.
unfoldable pub all_and_nonempty : (ℕ → Bool) → Bytes → Bool
all_and_nonempty p [] = false
all_and_nonempty p (c ∷ s) = all_of p (c ∷ s)

-- `Isalnum`, `Isalpha`, `Isdigit`, `Isxdigit`, `Islower`, `Isupper`, `Isspace`
unfoldable pub is_alnum : Bytes → Bool
is_alnum str = all_and_nonempty isalnum str

unfoldable pub is_alpha : Bytes → Bool
is_alpha str = all_and_nonempty isalpha str

unfoldable pub is_digit : Bytes → Bool
is_digit str = all_and_nonempty isdigit str

unfoldable pub is_xdigit : Bytes → Bool
is_xdigit str = all_and_nonempty isxdigit str

unfoldable pub is_lower : Bytes → Bool
is_lower str = all_and_nonempty islower str

unfoldable pub is_upper : Bytes → Bool
is_upper str = all_and_nonempty isupper str

unfoldable pub is_space : Bytes → Bool
is_space str = all_and_nonempty isspace str

-- `IsdigitWithDelim` and `IsxdigitWithDelim`
unfoldable pub is_digit_with_delim : Bytes → Bytes → Bool
is_digit_with_delim str delims = all_and_nonempty (λ e. isdigit e || one_of delims e) str

unfoldable pub is_xdigit_with_delim : Bytes → Bytes → Bool
is_xdigit_with_delim str delims = all_and_nonempty (λ e. isxdigit e || one_of delims e) str

isalpha-cases :
    (c : ℕ) → isalpha c ≡ true → (islower (tolower c) ≡ true) × (isupper (toupper c) ≡ true)
unfolding isalpha tolower toupper
isalpha-cases c h = (ground arith, ground arith)

all_of-map :
    (p q : ℕ → Bool) (f : ℕ → ℕ)
    → ((c : ℕ) → p c ≡ true → q (f c) ≡ true)
    → (s : Bytes) → all_of p s ≡ true
    → all_of q (map f s) ≡ true
unfolding all_of
all_of-map p q f h [] e = refl
all_of-map p q f h (c ∷ s) e = ground (arith, h c, all_of-map p q f h s)

-- `Lower` makes an alphabetic string pass `Islower`, and `Upper` makes it pass `Isupper`.
pub is_lower-lower :
    (s : Bytes) → is_alpha s ≡ true → (is_lower (lower s) ≡ true) × (is_upper (upper s) ≡ true)
unfolding is_alpha is_lower is_upper lower upper all_and_nonempty
is_lower-lower [] h = (h, h)
is_lower-lower (c ∷ s) h = (
  all_of-map isalpha islower tolower (λ d e. (isalpha-cases d e).0) (c ∷ s) h,
  all_of-map isalpha isupper toupper (λ d e. (isalpha-cases d e).1) (c ∷ s) h,
)
