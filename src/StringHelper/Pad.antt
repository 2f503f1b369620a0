-- ===== src/StringHelper/Pad.antt =====
-- Padding in string_helper/StringHelper.hpp: Center, Ljust, Rjust and Zfill.
use c_plus_plus.Prelude.{
  ℕ, zero, suc, ◌+◌, ◌-◌, ◌/◌, ◌≤◌, max, ◌≡◌, refl, ap, ◌∙◌, inl, inr, ◌∷◌, ◌++◌, arith, ltb,
  if◌then◌else◌, ltb→lt, Bool-cases, length, take, drop, replicate, length-append, length-replicate,
}
use c_plus_plus.Prelude.Chars.{Bytes}

-- `std::move(str.begin(), str.end(), new_str.begin() + i)`: the string over a part of another.
pub move_to : Bytes → Bytes → ℕ → Bytes
move_to str new_str i = take i new_str ++ (str ++ drop (i + length str) new_str)

-- `Center`; `ceil(padLen / 2.0)` is `(pad_len + 1) / 2`.
pub center : Bytes → ℕ → ℕ → Bytes
center str width fillchar =
    if ltb (length str) width
    then (let pad_len = width - length str in
        move_to str (replicate width fillchar) ((pad_len + 1) / 2))
    else str

-- `Ljust`: `resize`, then `fill` on what was added.
pub ljust : Bytes → ℕ → ℕ → Bytes
ljust str width fillchar =
    if ltb (length str) width then str ++ replicate (width - length str) fillchar else str

-- `Rjust`
pub rjust : Bytes → ℕ → ℕ → Bytes
rjust str width fillchar =
    if ltb (length str) width
    then move_to str (replicate width fillchar) (width - length str)
    else str

-- `Zfill`
pub zfill : Bytes → ℕ → Bytes
zfill str width = rjust str width b'0'

take-replicate : (k n a : ℕ) → k ≤ n → take k (replicate n a) ≡ replicate k a
take-replicate zero n a h = refl
take-replicate (suc k) zero a h = absurd (omega arith)
take-replicate (suc k) (suc n) a h = ap (◌∷◌ a) (take-replicate k n a (omega arith))

drop-replicate : (k n a : ℕ) → drop k (replicate n a) ≡ replicate (n - k) a
drop-replicate zero n a = let e : n - 0 ≡ n = omega arith in rw e
drop-replicate (suc k) zero a = let e : 0 - suc k ≡ 0 = omega arith in rw e
drop-replicate (suc k) (suc n) a =
    let e : suc n - suc k ≡ n - k = omega arith in rw e (drop-replicate k n a)

-- A string in the middle of fill characters.
abbrev pub padded : ℕ → ℕ → Bytes → ℕ → Bytes
padded before after str a = replicate before a ++ (str ++ replicate after a)

pub move_to-replicate :
    (str : Bytes) (n i k a : ℕ)
    → i + (length str + k) ≡ n
    → move_to str (replicate n a) i ≡ padded i k str a
unfolding move_to
move_to-replicate str n i k a e =
    let e' : n - (i + length str) ≡ k = omega arith in
    rw (take-replicate i n a (omega arith), drop-replicate, e')

-- The ways to pad to a width above the length: `Center` puts the odd fill character in front, `Ljust`
-- fills behind, `Rjust` and `Zfill` in front. Up to the length nothing changes.
pub pad_lem :
    (str : Bytes) (width a : ℕ)
    → (center str width a ≡ (
        if ltb (length str) width
        then padded ((width - length str + 1) / 2) ((width - length str) / 2) str a
        else str))
      × (ljust str width a
          ≡ (if ltb (length str) width then padded 0 (width - length str) str a else str))
      × (rjust str width a
          ≡ (if ltb (length str) width then padded (width - length str) 0 str a else str))
      × (zfill str width ≡ rjust str width b'0')
unfolding center ljust rjust zfill
pad_lem str width a = elim (Bool-cases (ltb (length str) width)) [
  | inl h ↦
      let lt = ltb→lt _ _ h in
      (
        rw h (
            move_to-replicate str width ((width - length str + 1) / 2) ((width - length str) / 2) a
              (omega arith)),
        rw h,
        rw h (move_to-replicate str width (width - length str) 0 a (omega arith)),
        refl,
      )
  | inr h ↦ (rw h, rw h, rw h, refl)
]

pub length-padded :
    (before after : ℕ) (str : Bytes) (a : ℕ)
    → length (padded before after str a) ≡ before + (length str + after)
length-padded before after str a = omega (
  arith,
  length-append (replicate before a) (str ++ replicate after a),
  length-append str (replicate after a),
  length-replicate before a,
  length-replicate after a,
)

length-chosen :
    (before after width : ℕ) (str : Bytes) (a : ℕ)
    → before + after ≡ width - length str
    → length (if ltb (length str) width then padded before after str a else str)
      ≡ max width (length str)
length-chosen before after width str a e = elim (Bool-cases (ltb (length str) width)) [
  | inl h ↦ rw h (omega (arith, ltb→lt _ _ h, length-padded before after str a))
  | inr h ↦ let le : width ≤ length str = ground arith in rw h (omega arith)
]

-- Every padded string has the larger of the width and its own length.
pub length-pad :
    (str : Bytes) (width a : ℕ)
    → (length (center str width a) ≡ max width (length str))
      × (length (ljust str width a) ≡ max width (length str))
      × (length (rjust str width a) ≡ max width (length str))
      × (length (zfill str width) ≡ max width (length str))
length-pad str width a =
    let n = width - length str in
    let (c, l, r, z) = pad_lem str width a in
    let (c', l', right, z') = pad_lem str width b'0' in
    let chosen = length-chosen n 0 width str b'0' (omega arith) in
    (
      ap length c ∙ length-chosen ((n + 1) / 2) (n / 2) width str a (omega arith),
      ap length l ∙ length-chosen 0 n width str a (omega arith),
      ap length r ∙ length-chosen n 0 width str a (omega arith),
      ap length (z ∙ right) ∙ chosen,
    )
