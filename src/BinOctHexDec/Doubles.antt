-- ===== src/BinOctHexDec/Doubles.antt =====
-- The double arithmetic of bin_oct_hex_dec/BinOctHexDec.hpp is exact below 2 ^ 53.
use c_plus_plus.Prelude.{
  ℕ, suc, ◌+◌, ◌*◌, ◌^◌, ◌≤◌, ◌<◌, ◌≡◌, ap, ◌∙◌, true, false, some, List, [], ◌∷◌, arith, ltb, leb,
  length,
}
use native.Mathlib.Nat.{one-le-pow, pow-le-pow_right, le-mul_of_pos_right}
use c_plus_plus.BinOctHexDec.{ulp, to_double, is_infinite, from_digits}

to_double-exact : (n : ℕ) → n < 2 ^ 53 → to_double n ≡ n
unfolding to_double ulp
to_double-exact n h =
    let small : ltb n (2 ^ 53 * 1) ≡ true = ground arith in rw small (ground arith)

-- The number that a list of digits stands for.
abbrev pub value : ℕ → List ℕ → ℕ
value base [] = 0
value base (e ∷ es) = e * base ^ length es + value base es

-- No power that a digit is multiplied with is infinite.
abbrev pub HasFinitePowers : ℕ → List ℕ → Type 0
HasFinitePowers base [] = Unit
HasFinitePowers base (e ∷ es) = (is_infinite (base ^ length es) ≡ false) × HasFinitePowers base es

is_infinite-below :
    (power high : ℕ) → power ≤ high → is_infinite high ≡ false → is_infinite power ≡ false
unfolding is_infinite
is_infinite-below power high l h = below power high (2 ^ 1024) l h
  where
    below : (a b c : ℕ) → a ≤ b → leb c b ≡ false → leb c a ≡ false
    below a b c l h = ground arith

pub length-HasFinitePowers :
    (base bound : ℕ) (es : List ℕ)
    → 0 < base
    → is_infinite (base ^ bound) ≡ false
    → length es ≤ suc bound
    → HasFinitePowers base es
length-HasFinitePowers base bound [] p f l = tt
length-HasFinitePowers base bound (e ∷ es) p f l = (
  is_infinite-below (base ^ length es) (base ^ bound) (pow-le-pow_right p (omega arith)) f,
  length-HasFinitePowers base bound es p f (omega arith),
)

pub from_digits-value :
    (base : ℕ) (es : List ℕ) (dec : ℕ)
    → 0 < base
    → HasFinitePowers base es
    → dec + value base es < 2 ^ 53
    → from_digits base es dec ≡ some (dec + value base es)
unfolding from_digits
from_digits-value base [] dec p f h = ap some (omega arith)
from_digits-value base (e ∷ es) dec p f h =
    let weight = base ^ length es in
    let large : e ≤ e * weight = le-mul_of_pos_right e (one-le-pow (length es) base p) in
    let e_exact = to_double-exact e (omega (arith, large, h)) in
    let term_exact = to_double-exact (e * weight) (omega (arith, h)) in
    let dec_exact = to_double-exact dec (omega (arith, h)) in
    let sum_exact = to_double-exact (dec + e * weight) (omega (arith, h)) in
    let below : ltb (dec + e * weight) (2 ^ 64) ≡ true = ground (arith, h) in
    rw (e_exact, term_exact, dec_exact, sum_exact, f.0, below)
      (from_digits-value base es (dec + e * weight) p f.1 (omega (arith, h))
        ∙ ap some (omega arith))
