-- ===== src/StringHelper/Lines.antt =====
-- SplitLines, ReadLine, ReadLineEndByEnter and ReadLines of string_helper/StringHelper.hpp.
pub mod Endings
use c_plus_plus.Prelude.{
  ℕ, zero, suc, ◌+◌, ◌-◌, ◌/◌, Bool, true, false, not, ◌&&◌, Option, none, some, List, [], ◌∷◌,
  ◌++◌, leb, ◌==◌, if◌then◌else◌,
}
use c_plus_plus.Prelude.Chars.{Bytes}

-- `i != len - 1 && str[i + 1] == '\n'`, where `s` stands behind position `i`.
pub next_is_newline : Bytes → Bool
next_is_newline [] = false
next_is_newline (d ∷ s) = d == b'\n'

pub is_last : Bytes → Bool
is_last [] = true
is_last (d ∷ s) = false

-- The loop of `SplitLines` without line ends; `sub` is the line read so far.
pub lines_without : Bytes → Bytes → List Bytes
lines_without sub [] = []
lines_without sub (c ∷ s) =
    let next_line = lines_without [] s in
    let same_line = lines_without sub s in
    let longer_line = lines_without (sub ++ c ∷ []) s in
    if c == b'\n'
    then sub ∷ next_line
    else if c == b'\r'
    then (if next_is_newline s then same_line else sub ∷ next_line)
    else if is_last s
    then (sub ++ c ∷ []) ∷ next_line
    else longer_line

-- The loop that keeps them.
pub lines_with : Bytes → Bytes → List Bytes
lines_with sub [] = []
lines_with sub (c ∷ s) =
    let next_line = lines_with [] s in
    let longer_line = lines_with (sub ++ c ∷ []) s in
    if c == b'\n'
    then (sub ++ c ∷ []) ∷ next_line
    else if c == b'\r'
    then (if next_is_newline s then longer_line else (sub ++ c ∷ []) ∷ next_line)
    else if is_last s
    then (sub ++ c ∷ []) ∷ next_line
    else longer_line

-- `SplitLines`
pub split_lines : Bytes → Bool → List Bytes
split_lines [] keepends = []
split_lines (c ∷ s) keepends =
    if not keepends then lines_without [] (c ∷ s) else lines_with [] (c ∷ s)

-- `getline(cin, line)`: the line and the input behind it.
pub read_line : Bytes → Bytes × Bytes
read_line [] = ([], [])
read_line (c ∷ input) =
    let (line, rest) = read_line input in if c == b'\n' then ([], input) else (c ∷ line, rest)

-- `ReadLines`
pub read_lines : ℕ → Bytes → List Bytes × Bytes
read_lines zero input = ([], input)
read_lines (suc size) input =
    let (line, rest) = read_line input in
    let (lines, rest') = read_lines size rest in (line ∷ lines, rest')

-- The loop of `ReadLineEndByEnter`. At the end of the input `cin.get()` gives the byte 255 for ever,
-- so the loop does not stop: `none`. A zero byte stops it.
pub read_until : ℕ → ℕ → Bytes → Bytes → Option (Bytes × Bytes)
read_until size count line [] = none
read_until size count line (c ∷ input) =
    let longer = read_until size count (line ++ c ∷ []) input in
    let counted = read_until size (count + 1) line input in
    if c == 0
    then some (line, input)
    else if not (c == b'\n')
    then longer
    else if leb size (count + 1)
    then some (line, input)
    else counted

-- `ReadLineEndByEnter`
pub read_line_end_by_enter : ℕ → Bytes → Option (Bytes × Bytes)
read_line_end_by_enter size input = read_until size 0 [] input
