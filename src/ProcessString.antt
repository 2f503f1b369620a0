-- ===== src/ProcessString.antt =====
-- parse_config/ProcessString.hpp: tests and conversions of strings, trimming, and reading from the
-- keyboard. Where an OUT argument is appended to, the function returns its new value.
pub mod Tests
pub mod NumStrings
pub mod Trimming
pub mod Extraction
pub mod Splicing
pub mod Reading
use c_plus_plus.Prelude.{
  ℕ, zero, suc, ◌+◌, ◌-◌, ◌*◌, ◌/◌, min, ap, Bool, true, false, not, ◌||◌, Option, none, some, List,
  [], ◌∷◌, ◌++◌, map, reverse, leb, ◌==◌, if◌then◌else◌, tests, ◌>>=◌, length, take, drop,
}
use c_plus_plus.Prelude.Chars.{Bytes, within}
use c_plus_plus.Prelude.Find.{all_of, take_while, drop_while, one_of}

-- `isNumString`
pub is_num_string : Bytes → Bool
is_num_string [] = true
is_num_string (c ∷ s) = let rest = is_num_string s in if within b'0' b'9' c then rest else false

-- The second loop of `isNumStringWithComma`, over all characters but the last.
pub all_but_last : (ℕ → Bool) → Bytes → Bool
all_but_last p [] = true
all_but_last p (c ∷ []) = true
all_but_last p (c ∷ d ∷ s) = let rest = all_but_last p (d ∷ s) in if p c then rest else false

-- The last character, `*strIn.rbegin()`; there is none in the empty string.
pub last_char : Bytes → Option ℕ
last_char [] = none
last_char (c ∷ []) = some c
last_char (c ∷ d ∷ s) = last_char (d ∷ s)

-- `isNumStringWithComma`
pub is_num_string_with_comma : Bytes → Option Bool
is_num_string_with_comma str = do
  c ← last_char str
  some (
      if within b'0' b'9' c
      then all_but_last (λ d. within b'0' b'9' d || d == b'.' || d == b',') str
      else false)

-- `isNumStringWithSeparator`
pub is_num_string_with_separator : Bytes → ℕ → Option Bool
is_num_string_with_separator str separator = do
  c ← last_char str
  some (
      if within b'0' b'9' c
      then all_but_last (λ d. within b'0' b'9' d || d == b'.' || d == separator) str
      else false)

-- The test of `extractNumFromString`.
abbrev pub is_numeric : ℕ → ℕ → Bool
is_numeric separator c = within b'0' b'9' c || c == b'.' || c == separator

-- A character other than the separator.
abbrev pub is_other : ℕ → ℕ → Bool
is_other separator c = not (c == separator)

-- The pieces that the loop of `extractNumFromString` assigns to `strNum`, from the suffix at
-- `startPos` on. A separator at the end of the string is followed by no piece.
pub pieces : ℕ → ℕ → Bytes → List Bytes
pieces zero separator s = []
pieces (suc fuel) separator s =
    take_while (is_other separator) s ∷ elim (drop_while (is_other separator) s) [
      | [] ↦ []
      | _ ∷ rest ↦ elim rest [ [] ↦ [] | c ∷ rest' ↦ pieces fuel separator (c ∷ rest') ]
    ]

-- `extractNumFromString`; the number type's `operator>>` is the parameter `parse`. A round takes at
-- least one character, but for the round on the empty string.
pub extract_num_from_string : {T : Type 0} → (Bytes → T) → Bytes → List T → ℕ → Bool × List T
extract_num_from_string parse str extracted separator =
    if all_of (is_numeric separator) str
    then (true, extracted ++ map parse (pieces (length str + 1) separator str))
    else (false, extracted)

-- The labels of the `switch` of `rmSpaceInBegAndEnd`.
abbrev pub white : Bytes
white = b' ' ∷ 12 ∷ b'\n' ∷ b'\r' ∷ b'\t' ∷ 11 ∷ []

-- How far `index` is counted.
unfoldable pub leading : Bytes → ℕ
leading [] = 0
leading (c ∷ s) = let rest = leading s in if one_of white c then rest + 1 else 0

-- The part behind the label: spaces at the end.
unfoldable pub rm_space_in_end : Bytes → Bytes
rm_space_in_end str =
    if leading (reverse str) == length str
    then str
    else take (length str - leading (reverse str)) str

-- `rmSpaceInBegAndEnd`
unfoldable pub rm_space_in_beg_and_end : Bytes → Bytes
rm_space_in_beg_and_end [] = []
rm_space_in_beg_and_end (c ∷ s) =
    if leading (c ∷ s) == length (c ∷ s)
    then []
    else rm_space_in_end (drop (leading (c ∷ s)) (c ∷ s))

-- `readStringEndByEnter`. At the end of the input `cin.get()` gives the byte 255 for ever, so the
-- loop does not stop: `none`.
pub read_string_end_by_enter : Bytes → Bytes → Option (Bytes × Bytes)
read_string_end_by_enter what_read [] = none
read_string_end_by_enter what_read (c ∷ input) =
    let rest = read_string_end_by_enter (what_read ++ c ∷ []) input in
    if c == b'\n' then some (what_read, input) else rest

-- The loop of `readStringEndByMultiEnter`; a zero byte stops it too. A negative `numOfEnter` acts
-- as 0.
pub read_multi : ℕ → ℕ → Bytes → Bytes → Option (Bytes × Bytes)
read_multi num_of_enter count what_read [] = none
read_multi num_of_enter count what_read (c ∷ input) =
    let longer = read_multi num_of_enter count (what_read ++ c ∷ []) input in
    let counted = read_multi num_of_enter (count + 1) what_read input in
    if c == 0
    then some (what_read, input)
    else if not (c == b'\n')
    then longer
    else if leb num_of_enter (count + 1)
    then some (what_read, input)
    else counted

-- `readStringEndByMultiEnter`
pub read_string_end_by_multi_enter : Bytes → ℕ → Bytes → Option (Bytes × Bytes)
read_string_end_by_multi_enter what_read num_of_enter input =
    read_multi num_of_enter 0 what_read input

-- `strtok(s, separators)`: the token and where the next call goes on, or `NULL`.
pub strtok : Bytes → Bytes → Option (Bytes × Bytes)
strtok separators s = elim (drop_while (one_of separators) s) [
  | [] ↦ none
  | c ∷ t ↦ some (
    take_while (λ d. not (one_of separators d)) (c ∷ t),
    drop 1 (drop_while (λ d. not (one_of separators d)) (c ∷ t)),
  )
]

-- The loop of `spliceString`, with the result of the last `strtok`.
pub splice_loop : ℕ → Bytes → Option (Bytes × Bytes) → List Bytes
splice_loop zero separators token = []
splice_loop (suc fuel) separators none = []
splice_loop (suc fuel) separators (some (token, rest)) =
    token ∷ splice_loop fuel separators (strtok separators rest)

-- `spliceString`, for a string with no zero byte in it; each round takes at least one character.
pub splice_string : Bytes → List Bytes → Bytes → List Bytes
splice_string str sub_strings separators =
    sub_strings ++ splice_loop (length str + 1) separators (strtok separators str)
