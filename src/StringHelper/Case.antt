-- ===== src/StringHelper/Case.antt =====
-- Letter case in string_helper/StringHelper.hpp: Capitalize, Title, IsTitle, Lower, Upper, Swapcase,
-- CamelCase2Underline and Underline2CamelCase.
pub mod Titles
pub mod Camel
pub mod CamelWords
use c_plus_plus.Prelude.{
  ℕ, suc, ◌-◌, ◌/◌, ap, Bool, true, false, ◌||◌, [], ◌∷◌, map, ◌==◌, if◌then◌else◌,
}
use c_plus_plus.Prelude.Chars.{Bytes, isdigit, islower, isupper, isspace, toupper, tolower}

-- `Capitalize`
pub capitalize : Bytes → Bytes
capitalize [] = []
capitalize (c ∷ s) = toupper c ∷ map tolower s

-- After such a character a word of a title starts.
unfoldable pub starts_word : ℕ → Bool
starts_word prev = isspace prev || isdigit prev || (prev == b',' || prev == b'.' || prev == b'?')

-- The loop of `Title`; the first argument is `str[i - 1]`, which the loop has changed already.
pub title_from : ℕ → Bytes → Bytes
title_from prev [] = []
title_from prev (c ∷ s) =
    let d = if starts_word prev then toupper c else tolower c in d ∷ title_from d s

-- `Title`
pub title : Bytes → Bytes
title [] = []
title (c ∷ s) = toupper c ∷ title_from (toupper c) s

-- The loop of `IsTitle`.
pub is_title_from : ℕ → Bytes → Bool
is_title_from prev [] = true
is_title_from prev (c ∷ s) =
    let rest = is_title_from c s in
    if starts_word prev
    then (if islower c then false else rest)
    else (if isupper c then false else rest)

-- `IsTitle`
pub is_title : Bytes → Bool
is_title [] = false
is_title (c ∷ s) = if islower c then false else is_title_from c s

-- `Lower`
unfoldable pub lower : Bytes → Bytes
lower s = map tolower s

-- `Upper`
unfoldable pub upper : Bytes → Bytes
upper s = map toupper s

unfoldable pub swap_char : ℕ → ℕ
swap_char e = if islower e then toupper e else if isupper e then tolower e else e

-- `Swapcase`
pub swapcase : Bytes → Bytes
swapcase s = map swap_char s

-- `CamelCase2Underline`: a character before a capital is lowered and followed by an underscore.
pub camel_case_to_underline : Bytes → Bytes
camel_case_to_underline [] = []
camel_case_to_underline (c ∷ []) = c ∷ []
camel_case_to_underline (c ∷ d ∷ s) =
    let rest = camel_case_to_underline (d ∷ s) in
    if isupper d then tolower c ∷ b'_' ∷ rest else c ∷ rest

-- The loop of `Underline2CamelCase`; the first argument is `str[i - 1]`.
pub underline_to_camel_from : ℕ → Bytes → Bytes
underline_to_camel_from prev [] = []
underline_to_camel_from prev (c ∷ s) =
    let rest = underline_to_camel_from c s in
    if c == b'_' then rest else if prev == b'_' then toupper c ∷ rest else c ∷ rest

-- `Underline2CamelCase`
pub underline_to_camel_case : Bytes → Bool → Bytes
underline_to_camel_case [] to_lower_camel_case = []
underline_to_camel_case (c ∷ s) to_lower_camel_case =
    (if to_lower_camel_case then tolower c else toupper c) ∷ underline_to_camel_from c s
