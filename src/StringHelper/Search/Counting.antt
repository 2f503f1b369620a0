-- ===== src/StringHelper/Search/Counting.antt =====
-- Count of string_helper/StringHelper.hpp for one character.
use c_plus_plus.Prelude.{
  ℕ, zero, suc, ◌+◌, ◌-◌, ◌%◌, ◌≤◌, ◌<◌, min, ◌≡◌, refl, ap, ◌∙◌, ◌≢◌, ◌⊎◌, inl, inr, true, false,
  none, some, [], ◌∷◌, ◌++◌, arith, ltb, leb, ◌==◌, Bool-cases, length, drop, length-append,
  length-drop,
}
use c_plus_plus.Prelude.Chars.{Bytes}
use c_plus_plus.Prelude.Find.{count_if, find_sub}
use c_plus_plus.StringHelper.Search.{size_mod, last_index, clamp_end, find_from, count_loop, count}

find_sub-last :
    (c : ℕ) (s : Bytes) → (p : ℕ) × (find_sub (c ∷ []) (s ++ c ∷ []) ≡ some p) × (p ≤ length s)
unfolding find_sub
find_sub-last c [] = (0, ground arith, omega arith)
find_sub-last c (x ∷ s) = elim (Bool-cases (c == x)) [
  | inl e ↦ (0, ground arith, omega arith)
  | inr e ↦ let (p, found, le) = find_sub-last c s in (p + 1, ground (arith, found), omega arith)
]

drop-append : (k : ℕ) (s t : Bytes) → k ≤ length s → drop k (s ++ t) ≡ drop k s ++ t
drop-append zero s t h = refl
drop-append (suc k) [] t h = absurd (omega arith)
drop-append (suc k) (x ∷ s) t h = drop-append k s t (omega arith)

find_from-last :
    (c : ℕ) (s : Bytes) (q : ℕ)
    → q ≤ length s
    → (p : ℕ) × (find_from (c ∷ []) q (s ++ c ∷ []) ≡ some p) × (p ≤ length s)
unfolding find_from
find_from-last c s q h =
    let (p, found, le) = find_sub-last c (drop q s) in
    let inside : leb q (length (s ++ c ∷ [])) ≡ true = ground (arith, length-append s (c ∷ [])) in
    (q + p, rw (inside, drop-append q s (c ∷ []) h, found), omega (arith, length-drop q s))

count_loop-last :
    (fuel : ℕ) (c : ℕ) (s : Bytes) (p k : ℕ)
    → p ≤ length s
    → length s + 1 < size_mod
    → count_loop fuel (s ++ c ∷ []) (c ∷ []) (length s) (some p) k ≡ none
unfolding count_loop
count_loop-last zero c s p k h small = refl
count_loop-last (suc fuel) c s p k h small =
    let goes_on : leb p ((length s + size_mod - 1 + 1) % size_mod) ≡ true = ground arith in
    let (q, found, le) = find_from-last c s (min (p + 1) (length s)) (omega arith) in
    rw (goes_on, found) (count_loop-last fuel c s q (k + 1) le small)

-- `Count` does not return for a character that ends the string: whatever the fuel and the start in
-- the string, with `end` left out and for a string shorter than 2 ^ 64, the loop finds the last
-- position again and again.
pub count_diverges :
    (fuel c : ℕ) (s : Bytes) (start : ℕ)
    → start ≤ length s
    → length s + 1 < size_mod
    → count fuel (s ++ c ∷ []) (c ∷ []) start 0 ≡ none
unfolding count clamp_end
count_diverges fuel c s start h small =
    let last : last_index (s ++ c ∷ []) ≡ length s = omega (arith, length-append s (c ∷ [])) in
    let inside : ltb (length s) start ≡ false = ground arith in
    let (p, found, le) = find_from-last c s start h in
    rw (last, inside, found) (count_loop-last fuel c s p 0 le small)

-- The occurrences of a character.
abbrev pub occurrences : ℕ → Bytes → ℕ
occurrences c s = count_if (λ x. c == x) s

find_sub-char :
    (c : ℕ) (s : Bytes)
    → ((find_sub (c ∷ []) s ≡ none) × (occurrences c s ≡ 0))
      ⊎ ((i : ℕ) × (find_sub (c ∷ []) s ≡ some i)
          × (i < length s)
          × (occurrences c (drop i s) ≡ occurrences c s)
          × (occurrences c s ≡ 1 + occurrences c (drop (suc i) s)))
unfolding find_sub count_if
find_sub-char c [] = inl (refl, refl)
find_sub-char c (x ∷ s) = elim (Bool-cases (c == x)) [
  | inl e ↦ inr (0, ground arith, omega arith, refl, ground arith)
  | inr e ↦ elim (find_sub-char c s) [
    | inl h ↦ inl (ground (arith, h.0), ground (arith, h.1))
    | inr (i, found, lt, same, rest) ↦
        let q : i + 1 ≡ suc i = omega arith in
        inr (
          i + 1,
          ground (arith, found),
          omega arith,
          rw (q, e) (omega (arith, same)),
          rw (q, e) (omega (arith, rest)),
        )
  ]
]

drop-drop : (i q : ℕ) (s : Bytes) → drop i (drop q s) ≡ drop (q + i) s
drop-drop i zero s = let e : 0 + i ≡ i = omega arith in rw e
drop-drop zero (suc q) [] = let e : suc q + 0 ≡ suc q = omega arith in rw e
drop-drop (suc i) (suc q) [] = let e : suc q + suc i ≡ suc (q + suc i) = omega arith in rw e
drop-drop i (suc q) (x ∷ s) =
    let e : suc q + i ≡ suc (q + i) = omega arith in rw e (drop-drop i q s)

module _ (sub str : Bytes) (q : ℕ) (inside : q ≤ length str) where
  find_from-none : find_sub sub (drop q str) ≡ none → find_from sub q str ≡ none
  unfolding find_from
  find_from-none e = ground arith

  find_from-some : (i : ℕ) → find_sub sub (drop q str) ≡ some i → find_from sub q str ≡ some (q + i)
  unfolding find_from
  find_from-some i e = ground arith

count_loop-step :
    (fuel : ℕ) (str sub : Bytes) (end pos k : ℕ)
    → leb pos ((end + size_mod - length sub + 1) % size_mod) ≡ true
    → count_loop (suc fuel) str sub end (some pos) k
      ≡ count_loop fuel str sub end (find_from sub (min (pos + length sub) end) str) (k + 1)
unfolding count_loop
count_loop-step fuel str sub end pos k h = rw h

module _ (c : ℕ) (str : Bytes) (nonempty : 0 < length str) (small : length str < size_mod)
    (last : occurrences c (drop (length str - 1) str) ≡ 0) where
  count_loop-char :
      (fuel q k : ℕ)
      → q ≤ length str
      → length str - q < fuel
      → count_loop fuel str (c ∷ []) (length str - 1) (find_from (c ∷ []) q str) k
        ≡ some (k + occurrences c (drop q str))
  count_loop-char zero q k h f = absurd (omega arith)
  count_loop-char (suc fuel) q k h f = elim (find_sub-char c (drop q str)) [
    | inl (lost, zero_left) ↦
        rw (find_from-none (c ∷ []) str q h lost, zero_left)
          (unfold count_loop in ap some (omega arith))
    | inr (i, found, lt, same, rest) ↦
        let len = length-drop q str in
        let at = drop-drop i q str in
        let not_last : q + i ≢ length str - 1 = λ e. absurd (
          omega (
            arith,
            last,
            same,
            rest,
            ap (occurrences c) at,
            ap (λ t. occurrences c (drop t str)) e,
          )) in
        let goes_on : leb (q + i) ((length str - 1 + size_mod - 1 + 1) % size_mod) ≡ true =
          ground (arith, len) in
        let next : min (q + i + 1) (length str - 1) ≡ q + suc i = omega (arith, len) in
        ap (λ o. count_loop (suc fuel) str (c ∷ []) (length str - 1) o k)
          (find_from-some (c ∷ []) str q h i found)
        ∙ count_loop-step fuel str (c ∷ []) (length str - 1) (q + i) k goes_on
        ∙ ap (λ t. count_loop fuel str (c ∷ []) (length str - 1) (find_from (c ∷ []) t str) (k + 1))
            next
        ∙ count_loop-char fuel (q + suc i) (k + 1) (omega (arith, len)) (omega (arith, len))
        ∙ ap some (omega (arith, rest, ap (occurrences c) (drop-drop (suc i) q str)))
  ]

  -- `Count` of a character that does not end the string, with `end` left out, for a string that is
  -- not empty and shorter than 2 ^ 64: it returns the number of its occurrences from a start in
  -- the string on, whatever the fuel above the length of the string.
  pub count_char :
      (fuel start : ℕ)
      → start < length str
      → length str < fuel
      → count fuel str (c ∷ []) start 0 ≡ some (occurrences c (drop start str))
  unfolding count clamp_end
  count_char fuel start h f =
      let end : last_index str ≡ length str - 1 = omega arith in
      let inside : ltb (length str - 1) start ≡ false = ground arith in
      rw (end, inside)
        (count_loop-char fuel start 0 (omega arith) (omega arith) ∙ ap some (omega arith))
