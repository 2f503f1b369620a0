-- ===== src/StringHelper/Strip.antt =====
-- Lstrip, Rstrip and Strip of string_helper/StringHelper.hpp. A loop that looks for a character from
-- the right with `size_t i; i >= 0` never stops by its test: where no such character is left it
-- reads outside the string, which is `none` here.
pub mod Trim
use c_plus_plus.Prelude.{
  ℕ, suc, ◌+◌, ◌-◌, ◌/◌, Bool, not, ◌&&◌, Option, none, some, reverse, ◌==◌, if◌then◌else◌, ◌>>=◌,
  length, take, drop,
}
use c_plus_plus.Prelude.Chars.{Bytes}
use c_plus_plus.Prelude.Find.{find_if, one_of}

-- The test `charsSet.find(c) == charsSet.end()`.
abbrev pub stays : Bytes → ℕ → Bool
stays chars c = not (one_of chars c)

-- The first loop of `Lstrip` and of `Strip`.
pub start_pos : Bytes → Bytes → ℕ
start_pos str chars = elim (find_if (stays chars) str) [ none ↦ 0 | some i ↦ i ]

-- The loop of `Rstrip`, and the second of `Strip`: the index found from the right.
pub end_pos : Bytes → Bytes → Option ℕ
end_pos str chars = elim (find_if (stays chars) (reverse str)) [
  | none ↦ none
  | some j ↦ some (length str - 1 - j)
]

-- `Lstrip`
pub lstrip : Bytes → Bytes → Bytes
lstrip str chars = let pos = start_pos str chars in if not (pos == 0) then drop pos str else str

-- `Rstrip`
pub rstrip : Bytes → Bytes → Option Bytes
rstrip str chars = do
  pos ← end_pos str chars
  some (if not (pos == length str - 1) then take (pos + 1) str else str)

-- `Strip`
pub strip : Bytes → Bytes → Option Bytes
strip str chars = do
  pos ← end_pos str chars
  let start = start_pos str chars
  some (
      if not (start == 0) && not (pos == length str - 1)
      then take (pos + 1 - start) (drop start str)
      else str)
