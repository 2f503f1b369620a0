-- ===== src/ProcessString/NumStrings.antt =====
-- isNumString, isNumStringWithComma and isNumStringWithSeparator of parse_config/ProcessString.hpp.
use c_plus_plus.Prelude.{ℕ, ◌≡◌, refl, Bool, true, ◌&&◌, some, [], ◌∷◌, ◌++◌, arith}
use c_plus_plus.Prelude.Chars.{Bytes, isdigit}
use c_plus_plus.Prelude.Find.{all_of}
use c_plus_plus.ProcessString.{
  is_num_string, all_but_last, last_char, is_num_string_with_comma, is_num_string_with_separator,
  is_numeric,
}

last_char-concat : (s : Bytes) (d : ℕ) → last_char (s ++ d ∷ []) ≡ some d
unfolding last_char
last_char-concat [] d = refl
last_char-concat (c ∷ []) d = refl
last_char-concat (c ∷ e ∷ s) d = last_char-concat (e ∷ s) d

all_but_last-concat : (p : ℕ → Bool) (s : Bytes) (d : ℕ) → all_but_last p (s ++ d ∷ []) ≡ all_of p s
unfolding all_but_last all_of
all_but_last-concat p [] d = refl
all_but_last-concat p (c ∷ []) d = ground arith
all_but_last-concat p (c ∷ e ∷ s) d = ground (arith, all_but_last-concat p (e ∷ s) d)

is_num_string-all : (s : Bytes) → is_num_string s ≡ all_of isdigit s
unfolding is_num_string all_of isdigit
is_num_string-all [] = refl
is_num_string-all (c ∷ s) = ground (arith, is_num_string-all s)

is_num_string_with_separator-concat :
    (s : Bytes) (d separator : ℕ)
    → is_num_string_with_separator (s ++ d ∷ []) separator
      ≡ some (isdigit d && all_of (is_numeric separator) s)
unfolding is_num_string_with_separator isdigit
is_num_string_with_separator-concat s d separator =
    rw (last_char-concat s d, all_but_last-concat (is_numeric separator) s d) (ground arith)

digits_numeric :
    (s : Bytes) (d separator : ℕ)
    → all_of isdigit (s ++ d ∷ []) ≡ true
    → (isdigit d && all_of (is_numeric separator) s) ≡ true
unfolding all_of isdigit
digits_numeric [] d separator h = ground arith
digits_numeric (c ∷ s) d separator h = ground (arith, digits_numeric s d separator)

-- A string that is not empty passes `isNumStringWithSeparator` if and only if its last character is
-- a digit and each of the others is a digit, a point or the separator; `isNumStringWithComma` is the
-- case of the comma; `isNumString` holds of digits only.
pub num_strings_lem :
    (s : Bytes) (d separator : ℕ)
    → (is_num_string_with_separator (s ++ d ∷ []) separator
        ≡ some (isdigit d && all_of (is_numeric separator) s))
      × (is_num_string_with_comma (s ++ d ∷ []) ≡ is_num_string_with_separator (s ++ d ∷ []) b',')
      × (is_num_string (s ++ d ∷ []) ≡ all_of isdigit (s ++ d ∷ []))
unfolding is_num_string_with_separator is_num_string_with_comma
num_strings_lem s d separator = (
  is_num_string_with_separator-concat s d separator,
  rw (last_char-concat s d),
  is_num_string-all (s ++ d ∷ []),
)
