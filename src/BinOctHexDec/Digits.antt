-- ===== src/BinOctHexDec/Digits.antt =====
-- The digits that bin_oct_hex_dec/BinOctHexDec.hpp takes off a number.
use c_plus_plus.Prelude.{
  ℕ, zero, suc, ◌+◌, ◌*◌, ◌/◌, ◌%◌, ◌^◌, ◌<◌, ◌≡◌, refl, ap, ap₂, ◌∙◌, false, List, [], ◌∷◌, ◌++◌,
  reverse, reverse-append, arith, ◌==◌, length, replicate, length-append,
}
use native.Mathlib.Nat.{
  mul_assoc, add-mul, pow-suc, pow-zero, mul-one, zero-mul, div-lt_iff_lt-mul, div-add-mod',
}
use mathlib.Core.Path.{subst}
use c_plus_plus.BinOctHexDec.{digits}
use c_plus_plus.BinOctHexDec.Doubles.{value}

add-one : (n : ℕ) → n + 1 ≡ suc n
add-one n = omega arith

shift : (e p base v d : ℕ) → e * (p * base) + (v * base + d) ≡ (e * p + v) * base + d
shift e p base v d = rw (add-mul, mul_assoc) (omega arith)

value-snoc : (base : ℕ) (es : List ℕ) (d : ℕ) → value base (es ++ d ∷ []) ≡ value base es * base + d
value-snoc base [] d = omega (arith, pow-zero base, ap (◌*◌ d) (pow-zero base), mul-one d)
value-snoc base (e ∷ es) d =
    ap₂ (λ n v. e * n + v)
      (ap (λ n. base ^ n) (length-append es (d ∷ []) ∙ add-one (length es))
        ∙ pow-suc base (length es))
      (value-snoc base es d)
    ∙ shift e (base ^ length es) base (value base es) d

digits-step :
    (fuel base dec : ℕ)
    → 0 < dec
    → digits (suc fuel) base dec ≡ dec % base ∷ digits fuel base (dec / base)
unfolding digits
digits-step fuel base dec h = let nonzero : (dec == 0) ≡ false = ground arith in rw nonzero

digits-zero : (fuel base : ℕ) → digits fuel base 0 ≡ []
unfolding digits
digits-zero zero base = refl
digits-zero (suc fuel) base = refl

-- The digits in their order are those of the number, where there are rounds enough.
pub digits-value :
    (fuel base dec : ℕ)
    → 0 < base
    → dec < base ^ fuel
    → value base (reverse (digits fuel base dec)) ≡ dec
digits-value fuel base zero p h = ap (λ t. value base (reverse t)) (digits-zero fuel base)
digits-value zero base (suc dec) p h = absurd (omega (arith, pow-zero base, h))
digits-value (suc fuel) base (suc dec) p h =
    let n = suc dec in
    let fits : n / base < base ^ fuel =
      (div-lt_iff_lt-mul p).1 (subst (λ t. n < t) (pow-suc base fuel) h) in
    ap (λ t. value base (reverse t)) (digits-step fuel base n (omega arith))
    ∙ ap (value base) (reverse-append (n % base ∷ []) (digits fuel base (n / base)))
    ∙ value-snoc base (reverse (digits fuel base (n / base))) (n % base)
    ∙ ap (λ t. t * base + n % base) (digits-value fuel base (n / base) p fits)
    ∙ div-add-mod' n base

-- Zeros in front change nothing.
pub value-zeros : (base k : ℕ) (es : List ℕ) → value base (replicate k 0 ++ es) ≡ value base es
value-zeros base zero es = refl
value-zeros base (suc k) es =
    omega (arith, zero-mul (base ^ length (replicate k 0 ++ es)), value-zeros base k es)
