-- ===== src/StringHelper/Case/Titles.antt =====
-- The case conversions of string_helper/StringHelper.hpp against the tests of the same file.
use c_plus_plus.Prelude.{
  ℕ, ◌≡◌, refl, ap₂, inl, inr, Bool, true, false, [], ◌∷◌, arith, if◌then◌else◌, Bool-cases,
}
use c_plus_plus.Prelude.Chars.{Bytes, islower, isupper, toupper, tolower}
use c_plus_plus.StringHelper.Case.{
  starts_word, title_from, title, is_title_from, is_title, lower, upper, swap_char, swapcase,
}

title_char :
    (first : Bool) (c : ℕ) → (if first then islower (toupper c) else isupper (tolower c)) ≡ false
unfolding toupper tolower
title_char true c = ground arith
title_char false c = ground arith

title_from-is_title : (prev : ℕ) (s : Bytes) → is_title_from prev (title_from prev s) ≡ true
unfolding title_from is_title_from
title_from-is_title prev [] = refl
title_from-is_title prev (c ∷ s) = elim (Bool-cases (starts_word prev)) [
  | inl w ↦ rw (w, title_char true c) (title_from-is_title (toupper c) s)
  | inr w ↦ rw (w, title_char false c) (title_from-is_title (tolower c) s)
]

-- `Title` makes every string that is not empty pass `IsTitle`.
pub is_title-title : (c : ℕ) (s : Bytes) → is_title (title (c ∷ s)) ≡ true
unfolding title is_title
is_title-title c s = rw (title_char true c) (title_from-is_title (toupper c) s)

swap_char_twice : (c : ℕ) → swap_char (swap_char c) ≡ c
unfolding swap_char toupper tolower
swap_char_twice c = ground arith

-- `Swapcase` undoes itself.
pub swapcase-swapcase : (s : Bytes) → swapcase (swapcase s) ≡ s
unfolding swapcase
swapcase-swapcase [] = refl
swapcase-swapcase (c ∷ s) = ap₂ ◌∷◌ (swap_char_twice c) (swapcase-swapcase s)

swap_then :
    (c : ℕ)
    → (tolower (swap_char c) ≡ tolower c)
      × (toupper (swap_char c) ≡ toupper c)
      × (tolower (toupper c) ≡ tolower c)
      × (toupper (tolower c) ≡ toupper c)
unfolding swap_char toupper tolower
swap_then c = (ground arith, ground arith, ground arith, ground arith)

-- `Swapcase` undoes itself, and whatever case a string was put in before, `Lower` and `Upper` give the
-- same as on the string.
pub lower-upper-swapcase :
    (s : Bytes)
    → (swapcase (swapcase s) ≡ s)
      × (lower (swapcase s) ≡ lower s)
      × (upper (swapcase s) ≡ upper s)
      × (lower (upper s) ≡ lower s)
      × (upper (lower s) ≡ upper s)
unfolding lower upper swapcase
lower-upper-swapcase [] = (refl, refl, refl, refl, refl)
lower-upper-swapcase (c ∷ s) =
    let h = swap_then c in
    let ih = lower-upper-swapcase s in
    (
      ap₂ ◌∷◌ (swap_char_twice c) ih.0,
      ap₂ ◌∷◌ h.0 ih.1,
      ap₂ ◌∷◌ h.1 ih.2,
      ap₂ ◌∷◌ h.2 ih.3,
      ap₂ ◌∷◌ h.3 ih.4,
    )
