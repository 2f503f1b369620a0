-- ===== src/Algorithm/Recursion.antt =====
-- mergeSort_Recursion_Ascend of algorithm/Algorithm.ipp sorts.
use c_plus_plus.Prelude.{
  take-int_len, drop-int_len, is_negative-small, ℕ, zero, suc, ◌+◌, ◌-◌, ◌/◌, ◌^◌, ◌≤◌, ◌<◌, ◌≡◌,
  refl, sym, ap, ◌∙◌, inl, inr, Bool, true, false, some, List, append-nil, arith, ltb, leb, ltb→lt,
  Bool-cases, length, take, drop, length-take, length-drop, take-append-drop,
}
use c_plus_plus.Algorithm.{merge_sorted, merge_sort_part, merge_sort_recursion_ascend}
use c_plus_plus.Algorithm.Order.{IsAscending}
use mathlib.Core.List.Permᴰ
use mathlib.Core.List.{Permᴰ}
use mathlib.Core.Path.{subst, subst⁻¹}
use c_plus_plus.Algorithm.Merging.{Sorts, IsAscending-short, merged-Sorts}

module _ {T : Type 0} (lt : T → T → Bool) where
  -- What the recursion gives where no sum overflows.
  unfoldable merged_halves : ℕ → List T → List T
  merged_halves zero part = part
  merged_halves (suc fuel) part = elim (ltb 1 (length part)) [
    | false ↦ part
    | true ↦
        merge_sorted lt (length part) (merged_halves fuel (take ((length part - 1) / 2 + 1) part))
          (merged_halves fuel (drop ((length part - 1) / 2 + 1) part))
  ]

  merge_sort_part-goes :
      (fuel start : ℕ) (part left right : List T)
      → ltb 1 (length part) ≡ true
      → leb (2 ^ 31) (start + (start + length part - 1)) ≡ false
      → merge_sort_part lt fuel start (take ((length part - 1) / 2 + 1) part) ≡ some left
      → merge_sort_part lt fuel
          (start + ((length part - 1) / 2 + 1))
          (drop ((length part - 1) / 2 + 1) part)
        ≡ some right
      → merge_sort_part lt (suc fuel) start part ≡ some (merge_sorted lt (length part) left right)
  unfolding merge_sort_part
  merge_sort_part-goes fuel start part left right h k e g = rw (h, k, e, g, merge_sort_part) refl

  merge_sort_part-merged :
      (fuel start : ℕ) (part : List T)
      → start + length part ≤ 2 ^ 30
      → merge_sort_part lt fuel start part ≡ some (merged_halves fuel part)
  unfolding merge_sort_part merged_halves
  merge_sort_part-merged zero start part l = refl
  merge_sort_part-merged (suc fuel) start part l =
      let k = (length part - 1) / 2 + 1 in
      let left = merge_sort_part-merged fuel start (take k part) in
      let right = merge_sort_part-merged fuel (start + k) (drop k part) in
      elim (Bool-cases (ltb 1 (length part))) [
        | inl h ↦
            let small = bounds start (length part) (ltb→lt 1 (length part) h) l in
            merge_sort_part-goes fuel start part (merged_halves fuel (take k part))
              (merged_halves fuel (drop k part)) h small.0
              (left (omega (arith, length-take k part, small.1)))
              (right (omega (arith, length-drop k part, small.1)))
            ∙ ap some (sym (goes h))
        | inr h ↦ stops h
      ]
    where
      bounds :
          (start n : ℕ)
          → 1 < n
          → start + n ≤ 2 ^ 30
          → (leb (2 ^ 31) (start + (start + n - 1)) ≡ false) × ((n - 1) / 2 + 1 ≤ n)
      bounds start n h l = (ground (arith, h, l), omega arith)

      goes :
          ltb 1 (length part) ≡ true
          → merged_halves (suc fuel) part
            ≡ merge_sorted lt
                (length part)
                (merged_halves fuel (take ((length part - 1) / 2 + 1) part))
                (merged_halves fuel (drop ((length part - 1) / 2 + 1) part))
      goes h = rw (h, merged_halves) refl

      stops :
          ltb 1 (length part) ≡ false
          → merge_sort_part lt (suc fuel) start part ≡ some (merged_halves (suc fuel) part)
      stops h = rw (h, merge_sort_part, merged_halves) refl

module _ {T : Type 0} (lt : T → T → Bool) (asym : (x y : T) → lt x y ≡ true → lt y x ≡ false)
    (trans : (x y z : T) → lt x y ≡ false → lt y z ≡ false → lt x z ≡ false) where
  merged_halves-splits :
      (fuel : ℕ) (part : List T)
      → ltb 1 (length part) ≡ true
      → merged_halves lt (suc fuel) part
        ≡ merge_sorted lt
            (length part)
            (merged_halves lt fuel (take ((length part - 1) / 2 + 1) part))
            (merged_halves lt fuel (drop ((length part - 1) / 2 + 1) part))
  unfolding merged_halves
  merged_halves-splits fuel part h = rw (h, merged_halves)

  merged_halves-stops :
      (fuel : ℕ) (part : List T)
      → ltb 1 (length part) ≡ false
      → merged_halves lt (suc fuel) part ≡ part
  unfolding merged_halves
  merged_halves-stops fuel part h = rw (h, merged_halves)

  -- The place where a part is split leaves less on either side.
  half : ℕ → ℕ
  half n = (n - 1) / 2 + 1

  half-bounds : (n : ℕ) → 1 < n → (half n < n) × (1 ≤ half n)
  unfolding half
  half-bounds n h = (omega arith, omega arith)

  merged_halves-Sorts :
      (fuel : ℕ) (part : List T) → length part ≤ fuel → Sorts lt (merged_halves lt fuel part) part
  unfolding merged_halves half
  merged_halves-Sorts zero part l = (IsAscending-short lt part (omega arith), Permᴰ.refl part)
  merged_halves-Sorts (suc fuel) part l =
      let k = half (length part) in
      elim (Bool-cases (ltb 1 (length part))) [
        | inl h ↦
            let b = half-bounds (length part) (ltb→lt 1 (length part) h) in
            let left =
              merged_halves-Sorts fuel (take k part) (omega (arith, length-take k part, b.0)) in
            let right =
              merged_halves-Sorts fuel (drop k part) (omega (arith, length-drop k part, b.1)) in
            subst⁻¹ (λ r. Sorts lt r part) (merged_halves-splits fuel part h)
              (subst
                (Sorts lt (
                  merge_sorted lt (length part) (merged_halves lt fuel (take k part))
                    (merged_halves lt fuel (drop k part))))
                (take-append-drop k part)
                (merged-Sorts lt asym trans (length part) (take k part) (drop k part)
                  (merged_halves lt fuel (take k part)) (merged_halves lt fuel (drop k part))
                  (omega (arith, length-take k part, length-drop k part, b.0)) left right))
        | inr h ↦
            subst⁻¹ (λ r. Sorts lt r part) (merged_halves-stops fuel part h)
              (IsAscending-short lt part (not_more (length part) h), Permᴰ.refl part)
      ]
    where
      not_more : (n : ℕ) → ltb 1 n ≡ false → n ≤ 1
      not_more n h = ground arith

  -- `mergeSort_Recursion_Ascend` sorts a vector of at most 2 ^ 30 elements, for an `operator<` that is a
  -- strict weak order: no element of the result is less than one in front of it, and the result is a
  -- permutation of the vector.
  pub merge_sort_recursion_ascend_lem :
      (array : List T)
      → length array ≤ 2 ^ 30
      → (r : List T) × ((merge_sort_recursion_ascend lt array ≡ some r)
          × (IsAscending lt r × Permᴰ r array))
  unfolding merge_sort_recursion_ascend
  merge_sort_recursion_ascend_lem array l =
      let small : length array < 2 ^ 31 = omega arith in
      (
        merged_halves lt (length array) array,
        (
          rw
              (
                is_negative-small (length array) small,
                take-int_len array small,
                drop-int_len array small,
                merge_sort_part-merged lt (length array) 0 array (omega arith),
              )
              (ap some (append-nil (merged_halves lt (length array) array))),
          merged_halves-Sorts (length array) array (omega arith),
        ),
      )
