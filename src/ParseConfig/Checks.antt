-- ===== src/ParseConfig/Checks.antt =====
-- checkSectionNameFromat and checkConfItemFormat of parse_config/ParseConfig.hpp. Each is the error
-- that it throws, if any.
pub mod Formats
pub mod Sections
use c_plus_plus.Prelude.{
  ℕ, ◌+◌, ◌-◌, ◌*◌, ◌/◌, ◌%◌, ◌^◌, Bool, false, not, ◌&&◌, ◌||◌, Option, none, some, [], ◌∷◌,
  reverse, leb, ◌==◌, if◌then◌else◌, length, get_elem?,
}
use c_plus_plus.Prelude.Chars.{Bytes}
use c_plus_plus.Prelude.Find.{count_if, find_if, equal}
use c_plus_plus.ParseConfig.Errors.{Error, bad_section, bad_item}

abbrev pub u32_mod : ℕ
u32_mod = 2 ^ 32

-- `c == *strConf.begin()`, and of the last character; the callers pass no empty string.
abbrev pub starts_by : ℕ → Bytes → Bool
starts_by c [] = false
starts_by c (d ∷ s) = d == c

unfoldable pub ends_by : ℕ → Bytes → Bool
ends_by c s = starts_by c (reverse s)

-- `checkSectionNameFromat`; the counts are `uint32_t`.
pub check_section_name : Bytes → ℕ → Option Error
check_section_name conf line_num =
    if starts_by b'[' conf && ends_by b']' conf
    then (if not (count_if (λ c. c == b'[') conf % u32_mod == 1)
          || not (count_if (λ c. c == b']') conf % u32_mod == 1)
        then some (bad_section line_num conf)
        else none)
    else some (bad_section line_num conf)

-- `strConf.at(i) == c`
abbrev pub char_at : Bytes → ℕ → ℕ → Bool
char_at s i c = elim (get_elem? s i) [ none ↦ false | some d ↦ d == c ]

-- `strConf.find_first_of('=')`
abbrev pub equals_pos : Bytes → Option ℕ
equals_pos conf = find_if (λ c. c == b'=') conf

-- `checkConfItemFormat`; `length` is a `uint32_t`, and so is `length - 2`.
unfoldable pub check_conf_item : Bytes → ℕ → Option Error
check_conf_item conf line_num = elim (equals_pos conf) [
  | none ↦ some (bad_item line_num conf)
  | some pos ↦
      if leb 1 pos && leb pos ((length conf % u32_mod + u32_mod - 2) % u32_mod)
      then (if not (char_at conf (pos - 1) b' ') && not (char_at conf (pos + 1) b' ')
          then none
          else some (bad_item line_num conf))
      else some (bad_item line_num conf)
]
