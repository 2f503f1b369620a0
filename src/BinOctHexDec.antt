-- ===== src/BinOctHexDec.antt =====
-- bin_oct_hex_dec/BinOctHexDec.hpp: conversions between a number and its digits. A number is a
-- `uint64_t`, below 2 ^ 64; a vector of digits is a list, with the digit of the highest weight first.
pub mod Doubles
pub mod Digits
pub mod RoundTrip
pub mod Tests
use c_plus_plus.Prelude.{
  ℕ, zero, suc, ◌+◌, ◌-◌, ◌*◌, ◌/◌, ◌%◌, ◌^◌, max, Bool, not, ◌&&◌, ◌||◌, Option, none, some, List,
  [], ◌∷◌, reverse, ltb, leb, ◌==◌, if◌then◌else◌, length, set, take, replicate,
}
use c_plus_plus.StringHelper.Pad.{move_to}

-- The loop of `Dec2Bin` and of `Dec2Oct`: 64 rounds are enough for a `uint64_t`.
pub digits : ℕ → ℕ → ℕ → List ℕ
digits zero base dec = []
digits (suc fuel) base dec =
    let rest = digits fuel base (dec / base) in if dec == 0 then [] else (dec % base) ∷ rest

-- `-1` as a `size_t`, the default width.
abbrev pub unaligned : ℕ
unaligned = 2 ^ 64 - 1

-- `Dec2Bin`; `max_size` is that of the vector, whose constructor throws for a greater length: `none`.
pub dec2bin : ℕ → ℕ → ℕ → Option (List ℕ)
dec2bin max_size dec align_width =
    let binary = reverse (digits 64 2 dec) in
    if align_width == unaligned || leb align_width (length binary)
    then some binary
    else if ltb max_size align_width
    then none
    else some (move_to binary (replicate align_width 0) (align_width - length binary))

-- `Dec2Oct`; the offset is taken from the size of the new vector, so that it is 0.
pub dec2oct : ℕ → ℕ → ℕ → Option (List ℕ)
dec2oct max_size dec align_width =
    let oct = reverse (digits 64 8 dec) in
    let new_oct : List ℕ = replicate align_width 0 in
    if align_width == unaligned || leb align_width (length oct)
    then some oct
    else if ltb max_size align_width
    then none
    else some (move_to oct new_oct (align_width - length new_oct))

-- The distance of two neighbouring `double`s at `n`: the power of 2 that leaves 53 bits.
pub ulp : ℕ → ℕ → ℕ → ℕ
ulp zero u n = u
ulp (suc fuel) u n = let wider = ulp fuel (2 * u) n in if ltb n (2 ^ 53 * u) then u else wider

-- The `double` next to a natural number, half-way cases to the even one. No number here has more
-- than 1024 bits.
pub to_double : ℕ → ℕ
to_double n =
    let u = ulp 1024 1 n in
    let q = n / u in
    let r = n % u in if ltb (2 * r) u || (2 * r == u && q % 2 == 0) then q * u else (q + 1) * u

-- Whether `pow` overflows to infinity.
unfoldable pub is_infinite : ℕ → Bool
is_infinite power = leb (2 ^ 1024) power

-- The loop of `Bin2Dec` and of `Oct2Dec`: `dec += e * pow(base, k - 1)` in `double`, where `k` digits
-- are left. The conversion back to `uint64_t` is undefined, `none`, from 2 ^ 64 on; with an infinite
-- power the sum is infinite or, for the digit 0, no number, which cannot be converted either.
pub from_digits : ℕ → List ℕ → ℕ → Option ℕ
from_digits base [] dec = some dec
from_digits base (e ∷ es) dec =
    let sum = to_double (to_double dec + to_double (to_double e * base ^ length es)) in
    let rest = from_digits base es sum in
    if is_infinite (base ^ length es) then none else if ltb sum (2 ^ 64) then rest else none

-- `Bin2Dec` and `Oct2Dec`
pub bin2dec : List ℕ → Option ℕ
bin2dec bin = from_digits 2 bin 0

pub oct2dec : List ℕ → Option ℕ
oct2dec oct = from_digits 8 oct 0
