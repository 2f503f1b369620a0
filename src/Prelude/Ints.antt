-- ===== src/Prelude/Ints.antt =====
-- The conversion of a size to an `int` of 32 bits.
use c_plus_plus.Prelude.Tests.{leb, if◌then◌else◌}
use Prim.Native.Nat.{ℕ, ◌^◌, ◌%◌, ◌<◌}
use mathlib.Core.Path.{◌≡◌, ap, ◌∙◌}
use c_plus_plus.Prelude.Lists.{length, take, drop, take-all, drop-all}
use mathlib.Core.List.{List, []}
use mathlib.Core.Bool.{Bool, false}
use native.Mathlib.Omega.{arith}

-- Whether the low 32 bits are a negative number.
unfoldable pub is_negative : ℕ → Bool
is_negative size = leb (2 ^ 31) (size % 2 ^ 32)

-- The low 32 bits as a bound of a loop that counts up from 0 or 1: a negative one is as 0.
unfoldable pub int_len : ℕ → ℕ
int_len size = if leb (2 ^ 31) (size % 2 ^ 32) then 0 else size % 2 ^ 32

pub is_negative-small : (size : ℕ) → size < 2 ^ 31 → is_negative size ≡ false
unfolding is_negative
is_negative-small size h = ground (arith, h)

pub int_len-small : (size : ℕ) → size < 2 ^ 31 → int_len size ≡ size
unfolding int_len
int_len-small size h = ground (arith, h)

module _ {ℓ} {T : Type ℓ} where
  pub take-int_len :
      (array : List T) → length array < 2 ^ 31 → take (int_len (length array)) array ≡ array
  take-int_len array h =
      ap (λ n. take n array) (int_len-small (length array) h)
      ∙ take-all (length array) array (omega arith)

  pub drop-int_len :
      (array : List T) → length array < 2 ^ 31 → drop (int_len (length array)) array ≡ []
  drop-int_len array h =
      ap (λ n. drop n array) (int_len-small (length array) h)
      ∙ drop-all (length array) array (omega arith)
