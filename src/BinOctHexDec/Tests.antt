-- ===== src/BinOctHexDec/Tests.antt =====
-- Runs of bin_oct_hex_dec/BinOctHexDec.hpp.
use c_plus_plus.Prelude.{◌≡◌, refl, inr, none, some, [], ◌∷◌, ◌++◌, arith, ◌>>=◌, replicate}
use c_plus_plus.BinOctHexDec.{
  digits, unaligned, dec2bin, dec2oct, bin2dec, oct2dec, from_digits, is_infinite,
}
use c_plus_plus.BinOctHexDec.RoundTrip.{bin2dec-dec2bin, dec2oct-aligned}

bin2dec-dec2bin_example :
    ((dec2bin 4096 123 10 >>= bin2dec) ≡ some 123)
    × ((dec2oct 4096 123 unaligned >>= oct2dec) ≡ some 123)
bin2dec-dec2bin_example = bin2dec-dec2bin 4096 123 10 (omega arith) (inr (omega arith, omega arith))

dec2oct-123 : dec2oct 4096 123 unaligned ≡ some (1 ∷ 7 ∷ 3 ∷ [])
unfolding dec2oct digits
dec2oct-123 = refl

dec2oct-aligned_example : dec2oct 4096 123 5 ≡ some (1 ∷ 7 ∷ 3 ∷ 0 ∷ 0 ∷ [])
dec2oct-aligned_example =
    dec2oct-aligned 4096 123 5 (1 ∷ 7 ∷ 3 ∷ []) dec2oct-123 (omega arith) (omega arith)
      (omega arith)

-- With 1025 digits the first power is infinite.
too_wide : from_digits 2 (replicate 1024 0 ++ 1 ∷ []) 0 ≡ none
unfolding from_digits is_infinite
too_wide = refl
