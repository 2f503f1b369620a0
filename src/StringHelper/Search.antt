-- ===== src/StringHelper/Search.antt =====
-- Count, StartsWith and EndsWith of string_helper/StringHelper.hpp. Positions are `size_t`, modulo
-- 2 ^ 64; a comparison outside the string is `none`.
pub mod Affixes
pub mod Counting
use c_plus_plus.Prelude.{
  ℕ, zero, suc, ◌+◌, ◌-◌, ◌*◌, ◌/◌, ◌%◌, ◌^◌, min, Bool, false, ◌||◌, Option, none, some, reverse,
  ltb, leb, ◌==◌, if◌then◌else◌, length, drop,
}
use c_plus_plus.Prelude.Chars.{Bytes}
use c_plus_plus.Prelude.Find.{equal, is_prefix, find_sub}

abbrev pub size_mod : ℕ
size_mod = 2 ^ 64

-- `str.size() - 1`
abbrev pub last_index : Bytes → ℕ
last_index str = (length str + size_mod - 1) % size_mod

-- What the functions make of their argument `end`.
unfoldable pub clamp_end : Bytes → ℕ → ℕ
clamp_end str end = if end == 0 || ltb (last_index str) end then last_index str else end

-- `str.find(sub, pos)`
pub find_from : Bytes → ℕ → Bytes → Option ℕ
find_from sub pos str =
    if leb pos (length str)
    then elim (find_sub sub (drop pos str)) [ none ↦ none | some i ↦ some (pos + i) ]
    else none

-- The loop of `Count`, from the result of the last `find`; `none` if the fuel runs out.
pub count_loop : ℕ → Bytes → Bytes → ℕ → Option ℕ → ℕ → Option ℕ
count_loop zero str sub end pos count = none
count_loop (suc fuel) str sub end none count = some count
count_loop (suc fuel) str sub end (some pos) count =
    let rest =
      count_loop fuel str sub end (find_from sub (min (pos + length sub) end) str) (count + 1) in
    if leb pos ((end + size_mod - length sub + 1) % size_mod) then rest else some count

-- `Count`
pub count : ℕ → Bytes → Bytes → ℕ → ℕ → Option ℕ
count fuel str sub start end =
    if ltb (last_index str) start
    then some 0
    else count_loop fuel str sub (clamp_end str end) (find_from sub start str) 0

-- `std::equal` of `sub` and as many characters of a range.
pub equal_range : Bytes → Bytes → Option Bool
equal_range sub s = if leb (length sub) (length s) then some (is_prefix sub s) else none

-- `end - start + 1`
abbrev pub range_size : ℕ → ℕ → ℕ
range_size start end = (end + size_mod - start + 1) % size_mod

-- `StartsWith`
pub starts_with : Bytes → Bytes → ℕ → ℕ → Option Bool
starts_with str sub start end =
    if ltb (last_index str) start
    then some false
    else if ltb (range_size start (clamp_end str end)) (length sub)
    then some false
    else equal_range sub (drop start str)

-- `EndsWith`
pub ends_with : Bytes → Bytes → ℕ → ℕ → Option Bool
ends_with str sub start end =
    if ltb (last_index str) start
    then some false
    else if ltb (range_size start (clamp_end str end)) (length sub)
    then some false
    else equal_range (reverse sub)
        (drop ((length str + 2 * size_mod - clamp_end str end - 1) % size_mod) (reverse str))
