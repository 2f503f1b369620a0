-- ===== src/StringHelper/Split.antt =====
-- Join, ToVector, Split, SplitUnderline, SplitCamelCase, ToNum and ExtractNum of
-- string_helper/StringHelper.hpp. A position that a search returns is the suffix of the string from
-- there on, and `npos` the empty suffix.
pub mod Tokens
pub mod Words
use c_plus_plus.Prelude.{
  ℕ, zero, suc, ◌+◌, ◌-◌, ◌/◌, ap, Bool, true, false, not, Option, none, some, List, [], ◌∷◌, ◌++◌,
  map, if◌then◌else◌, ◌>>=◌, length, take, drop,
}
use c_plus_plus.Prelude.Chars.{Bytes, isupper}
use c_plus_plus.Prelude.Find.{take_while, drop_while, one_of}
use c_plus_plus.StringHelper.Classify.{is_digit, is_digit_with_delim}

-- The loop of `Join`, and the last token behind it; for no token `token.end() - 1` is undefined.
pub join_from : Bytes → List Bytes → Bytes → Option Bytes
join_from linked [] link = none
join_from linked (t ∷ []) link = some (linked ++ t)
join_from linked (t ∷ u ∷ ts) link = join_from (linked ++ (t ++ link)) (u ∷ ts) link

-- `Join`
pub join : List Bytes → Bytes → Option Bytes
join token link = join_from [] token link

-- `ToVector`
pub to_vector : Bytes → List Bytes
to_vector str = map (λ e. e ∷ []) str

-- A character outside the delimiters.
abbrev pub is_plain : Bytes → ℕ → Bool
is_plain delims c = not (one_of delims c)

-- The loop of `Split` from `startPos`; `find_first_not_of` and `find_first_of` skip to a suffix.
unfoldable pub split_loop : ℕ → Bytes → Bytes → List Bytes
split_loop zero delims start = []
split_loop (suc fuel) delims [] = []
split_loop (suc fuel) delims (c ∷ s) =
    take_while (is_plain delims) (c ∷ s)
    ∷ split_loop fuel delims (drop_while (one_of delims) (drop_while (is_plain delims) (c ∷ s)))

-- `Split`; a round takes at least one character.
unfoldable pub split : Bytes → Bytes → List Bytes
split str delims = split_loop (length str) delims (drop_while (one_of delims) str)

-- `SplitUnderline`
pub split_underline : Bytes → List Bytes
split_underline str = split str (b'_' ∷ [])

-- The loop of `SplitCamelCase`, with the piece read so far.
pub split_camel_from : Bytes → Bytes → List Bytes
split_camel_from sub [] = []
split_camel_from sub (c ∷ []) = (sub ++ c ∷ []) ∷ []
split_camel_from sub (c ∷ d ∷ s) = elim (isupper d) [
  | true ↦ (sub ++ c ∷ []) ∷ split_camel_from [] (d ∷ s)
  | false ↦ split_camel_from (sub ++ c ∷ []) (d ∷ s)
]

-- `SplitCamelCase`
pub split_camel_case : Bytes → List Bytes
split_camel_case str = split_camel_from [] str

-- `operator>>` of the number type that a caller chooses is the parameter `parse`.
module _ {T : Type 0} (parse : Bytes → T) where
  -- `ToNum`; `std::runtime_error` is `none`.
  pub to_num : Bytes → Option T
  to_num str = if is_digit str then some (parse str) else none

  -- The loop of `ExtractNum`.
  pub extract_loop : ℕ → Bytes → Bytes → Option (List T)
  extract_loop zero delims start = some []
  extract_loop (suc fuel) delims [] = some []
  extract_loop (suc fuel) delims (c ∷ s) =
      let rest =
        extract_loop fuel delims
          (drop_while (one_of delims) (drop_while (is_plain delims) (c ∷ s))) in
      do n ← to_num (take_while (is_plain delims) (c ∷ s)); ns ← rest; some (n ∷ ns)

  -- `ExtractNum`
  pub extract_num : Bytes → Bytes → Option (List T)
  extract_num str delims =
      if is_digit_with_delim str delims
      then extract_loop (length str) delims (drop_while (one_of delims) str)
      else none
