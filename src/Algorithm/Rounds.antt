-- ===== src/Algorithm/Rounds.antt =====
-- The rounds of mergeSort_Iteration_Ascend of algorithm/Algorithm.ipp, where no sum overflows.
use c_plus_plus.Prelude.{
  ℕ, zero, suc, ◌+◌, ◌-◌, ◌*◌, ◌^◌, ◌≤◌, ◌<◌, ◌≡◌, refl, sym, ap, ◌∙◌, Bool, false, some, List, [],
  ◌∷◌, ◌++◌, arith, leb, length, take, drop, length-drop,
}
use native.Mathlib.Nat.{mul_assoc, mul-one, pow-zero, pow-succ', one-le-pow, le-mul_of_pos_right}
use c_plus_plus.Algorithm.{merge_sorted, merge_segments}

-- A power of 2 below 2 ^ 30 has a double that is at most 2 ^ 30.
pub halved :
    (n k : ℕ)
    → n * 2 ^ k ≡ 2 ^ 30
    → n < 2 ^ 30
    → (j : ℕ) × ((n * 2 * 2 ^ j ≡ 2 ^ 30) × (n * 2 ≤ 2 ^ 30))
halved n zero e h = absurd (omega (arith, h, sym e ∙ ap (λ m. n * m) (pow-zero 2) ∙ mul-one n))
halved n (suc j) e h =
    let twice : n * 2 * 2 ^ j ≡ 2 ^ 30 =
      mul_assoc n 2 (2 ^ j) ∙ ap (λ m. n * m) (sym (pow-succ' 2 j)) ∙ e in
    let large : n * 2 ≤ n * 2 * 2 ^ j =
      le-mul_of_pos_right (n * 2) (one-le-pow j 2 (omega arith)) in
    (j, (twice, omega (arith, twice, large)))

module _ {T : Type 0} (lt : T → T → Bool) where
  -- What a round gives where no sum overflows.
  unfoldable pub merged_segments : ℕ → ℕ → List T → List T
  merged_segments zero segment array = array
  merged_segments (suc fuel) segment [] = []
  merged_segments (suc fuel) segment (x ∷ rest) =
      merge_sorted lt (length (take (segment * 2) (x ∷ rest))) (take segment (x ∷ rest))
        (take segment (drop segment (x ∷ rest)))
      ++ merged_segments fuel segment (drop (segment * 2) (x ∷ rest))

  merge_segments-goes :
      (fuel segment i : ℕ) (x : T) (rest later : List T)
      → leb (2 ^ 31) (i + segment * 2) ≡ false
      → merge_segments lt fuel segment (i + segment * 2) (drop (segment * 2) (x ∷ rest))
        ≡ some later
      → merge_segments lt (suc fuel) segment i (x ∷ rest)
        ≡ some (
            merge_sorted lt
              (length (take (segment * 2) (x ∷ rest)))
              (take segment (x ∷ rest))
              (take segment (drop segment (x ∷ rest)))
            ++ later)
  unfolding merge_segments
  merge_segments-goes fuel segment i x rest later h e = rw (h, e, merge_segments) refl

  pub merge_segments-merged :
      (fuel segment i len : ℕ) (array : List T)
      → length array ≤ len - i
      → len + segment * 2 ≤ 2 ^ 31
      → merge_segments lt fuel segment i array ≡ some (merged_segments fuel segment array)
  unfolding merge_segments merged_segments
  merge_segments-merged zero segment i len array l b = refl
  merge_segments-merged (suc fuel) segment i len [] l b = refl
  merge_segments-merged (suc fuel) segment i len (x ∷ rest) l b =
      merge_segments-goes fuel segment i x rest
        (merged_segments fuel segment (drop (segment * 2) (x ∷ rest)))
        (below i (segment * 2) len (omega arith) b)
        (merge_segments-merged fuel segment (i + segment * 2) len (drop (segment * 2) (x ∷ rest))
          (omega (arith, length-drop (segment * 2) (x ∷ rest))) b)
    where
      below : (i n len : ℕ) → i < len → len + n ≤ 2 ^ 31 → leb (2 ^ 31) (i + n) ≡ false
      below i n len h b = ground (arith, h, b)
