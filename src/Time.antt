-- ===== src/Time.antt =====
-- Time::checkTM of time/Time.hpp: whether the fields of a `struct tm` are a date and a time.
pub mod Calendar
pub mod Tests
use c_plus_plus.Prelude.{
  ℕ, suc, ◌+◌, ◌-◌, ◌/◌, ◌%◌, ◌^◌, ◌<◌, min, ap, Bool, true, false, not, ◌&&◌, ◌||◌, Option, none,
  some, ltb, leb, ◌==◌, if◌then◌else◌,
}

-- An `int`; `negsuc n` is -(n + 1).
pub data ℤ : Type 0 where
  pos : ℕ → ℤ
  negsuc : ℕ → ℤ

-- The fields of `struct tm` that the function reads.
pub record Tm : Type 0 where
  pub tm_year : ℤ
  pub tm_mon : ℤ
  pub tm_mday : ℤ
  pub tm_hour : ℤ
  pub tm_min : ℤ
  pub tm_sec : ℤ

-- `z < k`, `z > k` and `z + 1 == k`, for a `k` that is not negative.
abbrev pub less_than : ℤ → ℕ → Bool
less_than (pos n) k = ltb n k
less_than (negsuc n) k = true

abbrev pub greater_than : ℤ → ℕ → Bool
greater_than (pos n) k = ltb k n
greater_than (negsuc n) k = false

abbrev pub next_is : ℤ → ℕ → Bool
next_is (pos n) k = n + 1 == k
next_is (negsuc n) k = n == 0 && k == 0

-- `tm_year + 1900` without its sign, which a test for a remainder of 0 does not depend on, or `none`
-- where the sum is above the greatest `int`, which is undefined behaviour.
unfoldable pub year_of : ℤ → Option ℕ
year_of (pos n) = if ltb (n + 1900) (2 ^ 31) then some (n + 1900) else none
year_of (negsuc n) = if leb (n + 1) 1900 then some (1900 - (n + 1)) else some (n + 1 - 1900)

abbrev pub is_leap : ℕ → Bool
is_leap year = year % 400 == 0 || (year % 4 == 0 && not (year % 100 == 0))

-- `checkTM`; the null pointer is `none`, and so is the result where the sum overflows.
unfoldable pub check_tm : Option Tm → Option Bool
check_tm none = some false
check_tm (some t) =
    if less_than t.tm_mon 0
      || greater_than t.tm_mon 11
      || less_than t.tm_mday 1
      || greater_than t.tm_mday 31
      || less_than t.tm_hour 0
      || greater_than t.tm_hour 23
      || less_than t.tm_min 0
      || greater_than t.tm_min 59
      || less_than t.tm_sec 0
      || greater_than t.tm_sec 59
    then some false
    else if (next_is t.tm_mon 4 || next_is t.tm_mon 6 || next_is t.tm_mon 9 || next_is t.tm_mon 11)
        && greater_than t.tm_mday 30
    then some false
    else if next_is t.tm_mon 2
    then elim (year_of t.tm_year) [
      | none ↦ none
      | some year ↦
          if is_leap year
          then (if greater_than t.tm_mday 29 then some false else some true)
          else if greater_than t.tm_mday 28
          then some false
          else some true
    ]
    else some true
