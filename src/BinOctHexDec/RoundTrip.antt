-- ===== src/BinOctHexDec/RoundTrip.antt =====
-- Conversion of a number to its digits and back in bin_oct_hex_dec/BinOctHexDec.hpp.
use c_plus_plus.Prelude.{
  ℕ, zero, suc, ◌+◌, ◌-◌, ◌/◌, ◌^◌, ◌≤◌, ◌<◌, ◌≡◌, refl, ap, ◌∙◌, ◌⊎◌, inl, inr, false, ◌||◌, some,
  List, ◌++◌, reverse, append-nil, arith, ltb, leb, ◌==◌, Bool-cases, ◌>>=◌, length, replicate,
  length-append, length-replicate,
}
use c_plus_plus.Prelude.Find.{length-reverse}
use c_plus_plus.StringHelper.Pad.{move_to, move_to-replicate}
use c_plus_plus.BinOctHexDec.{digits, unaligned, dec2bin, dec2oct, is_infinite, bin2dec, oct2dec}
use c_plus_plus.BinOctHexDec.Doubles.{length-HasFinitePowers, from_digits-value}
use c_plus_plus.BinOctHexDec.Digits.{digits-value, value-zeros}
use mathlib.Core.Option.{some-injective}
use mathlib.Core.Path.{subst}

length-digits : (fuel base dec : ℕ) → length (digits fuel base dec) ≤ fuel
unfolding digits
length-digits zero base dec = omega arith
length-digits (suc fuel) base dec = elim (Bool-cases (dec == 0)) [
  | inl h ↦ rw h (omega arith)
  | inr h ↦ rw h (omega (arith, length-digits fuel base (dec / base)))
]

-- A width with which every power is finite and the vector can be made.
abbrev pub IsWidth : ℕ → ℕ → Type 0
IsWidth max_size align_width =
    (align_width ≡ unaligned) ⊎ ((align_width ≤ 1024) × (align_width ≤ max_size))

-- The zeros that `Dec2Bin` puts in front.
dec2bin-zeros :
    (max_size dec align_width : ℕ)
    → IsWidth max_size align_width
    → (k : ℕ) × ((dec2bin max_size dec align_width
          ≡ some (replicate k 0 ++ reverse (digits 64 2 dec)))
        × (k + length (reverse (digits 64 2 dec)) ≤ 1024))
unfolding dec2bin
dec2bin-zeros max_size dec align_width w =
    let binary = reverse (digits 64 2 dec) in
    let short : length binary ≤ 64 =
      omega (arith, length-reverse (digits 64 2 dec), length-digits 64 2 dec) in
    elim (Bool-cases (align_width == unaligned || leb align_width (length binary))) [
      | inl h ↦ (0, (rw h refl, omega (arith, short)))
      | inr h ↦
          let k = align_width - length binary in
          let possible = possible_width max_size align_width (length binary) w h in
          (
            k,
            (
              rw (h, possible.0)
                  (ap some (
                    move_to-replicate binary align_width k 0 0 (ground (arith, h))
                    ∙ ap (◌++◌ (replicate k 0)) (append-nil binary))),
              omega (arith, possible.1),
            ),
          )
    ]
  where
    possible_width :
        (max_size align_width n : ℕ)
        → IsWidth max_size align_width
        → (align_width == unaligned || leb align_width n) ≡ false
        → (ltb max_size align_width ≡ false) × ((n ≤ align_width) × (align_width ≤ 1024))
    possible_width max_size align_width n (inl w) h = absurd (ground (arith, w, h))
    possible_width max_size align_width n (inr w) h =
        (ground (arith, w.1), (ground (arith, h), w.0))

dec2oct-unaligned :
    (max_size dec : ℕ) → dec2oct max_size dec unaligned ≡ some (reverse (digits 64 8 dec))
unfolding dec2oct
dec2oct-unaligned max_size dec = refl

power_finite : (is_infinite (2 ^ 1023) ≡ false) × (is_infinite (8 ^ 63) ≡ false)
unfolding is_infinite
power_finite = (refl, refl)

bin_round_trip :
    (max_size dec align_width : ℕ)
    → dec < 2 ^ 53
    → IsWidth max_size align_width
    → (dec2bin max_size dec align_width >>= bin2dec) ≡ some dec
unfolding bin2dec
bin_round_trip max_size dec align_width h w =
    let (k, (zeros, short)) = dec2bin-zeros max_size dec align_width w in
    let bits = replicate k 0 ++ reverse (digits 64 2 dec) in
    let same =
      value-zeros 2 k (reverse (digits 64 2 dec))
      ∙ digits-value 64 2 dec (omega arith) (omega arith) in
    let finite = length-HasFinitePowers 2 1023 bits (omega arith) power_finite.0 (
      omega (
        arith,
        short,
        length-append (replicate {A = ℕ} k 0) (reverse (digits 64 2 dec)),
        length-replicate {A = ℕ} k 0,
      )) in
    ap (λ o. o >>= bin2dec) zeros
    ∙ from_digits-value 2 bits 0 (omega arith) finite (omega (arith, same))
    ∙ ap some (omega (arith, same))

oct_round_trip :
    (max_size dec : ℕ) → dec < 2 ^ 53 → (dec2oct max_size dec unaligned >>= oct2dec) ≡ some dec
unfolding oct2dec
oct_round_trip max_size dec h =
    let oct = reverse (digits 64 8 dec) in
    let same = digits-value 64 8 dec (omega arith) (omega arith) in
    let finite =
      length-HasFinitePowers 8 63 oct (omega arith) power_finite.1
        (omega (arith, length-reverse (digits 64 8 dec), length-digits 64 8 dec)) in
    ap (λ o. o >>= oct2dec) (dec2oct-unaligned max_size dec)
    ∙ from_digits-value 8 oct 0 (omega arith) finite (omega (arith, same))
    ∙ ap some (omega (arith, same))

-- For every number below 2 ^ 53, `Bin2Dec` undoes `Dec2Bin` with no width, or with a width of at most 1024
-- and at most the greatest size of the vector, and `Oct2Dec` undoes `Dec2Oct` with no width.
pub bin2dec-dec2bin :
    (max_size dec align_width : ℕ)
    → dec < 2 ^ 53
    → IsWidth max_size align_width
    → ((dec2bin max_size dec align_width >>= bin2dec) ≡ some dec)
      × ((dec2oct max_size dec unaligned >>= oct2dec) ≡ some dec)
bin2dec-dec2bin max_size dec align_width h w =
    (bin_round_trip max_size dec align_width h w, oct_round_trip max_size dec h)

-- For a width above the number of digits, at most the greatest size of the vector and below the
-- value that stands for no width, `Dec2Oct` puts the zeros behind the digits: the vector is that with
-- no width, followed by zeros.
pub dec2oct-aligned :
    (max_size dec align_width : ℕ) (oct : List ℕ)
    → dec2oct max_size dec unaligned ≡ some oct
    → length oct < align_width
    → align_width ≤ max_size
    → align_width < unaligned
    → dec2oct max_size dec align_width ≡ some (oct ++ replicate (align_width - length oct) 0)
unfolding dec2oct
dec2oct-aligned max_size dec align_width oct e wide fits small =
    subst
      (λ oct.
        length oct < align_width
        → dec2oct max_size dec align_width ≡ some (oct ++ replicate (align_width - length oct) 0))
      (some-injective (reverse (digits 64 8 dec)) oct e) aligned wide
  where
    aligned :
        length (reverse (digits 64 8 dec)) < align_width
        → dec2oct max_size dec align_width
          ≡ some (
              reverse (digits 64 8 dec)
              ++ replicate (align_width - length (reverse (digits 64 8 dec))) 0)
    aligned wide =
        let oct = reverse (digits 64 8 dec) in
        let aligned : (align_width == unaligned || leb align_width (length oct)) ≡ false =
          ground (arith, wide, small) in
        let possible : ltb max_size align_width ≡ false = ground (arith, fits) in
        let front : align_width - length (replicate {A = ℕ} align_width 0) ≡ 0 =
          omega (arith, length-replicate {A = ℕ} align_width 0) in
        rw (aligned, possible)
          (ap some (
            ap (move_to oct (replicate align_width 0)) front
            ∙ move_to-replicate oct align_width 0 (align_width - length oct) 0
                (omega (arith, wide))))
