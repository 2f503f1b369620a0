-- ===== src/Algorithm/Iteration.antt =====
-- mergeSort_Iteration_Ascend of algorithm/Algorithm.ipp sorts.
use c_plus_plus.Prelude.{
  take-all, drop-all, take-int_len, drop-int_len, is_negative-small, ℕ, zero, suc, ◌+◌, ◌*◌, ◌^◌,
  ◌≤◌, ◌<◌, ◌≡◌, refl, sym, ap, ◌∙◌, ◌⊎◌, inl, inr, Bool, true, false, some, List, [], ◌∷◌, ◌++◌,
  append-nil, arith, ltb, ltb→lt, Bool-cases, length, take, drop, length-take, length-drop,
  take-append-drop,
}
use c_plus_plus.Prelude.Find.{take-length, drop-length}
use c_plus_plus.Algorithm.Rounds.{merged_segments, merge_segments-merged, halved}
use c_plus_plus.Algorithm.{
  merge_sorted, merge_segments, merge_doubling, merge_sort_iteration_ascend,
}
use c_plus_plus.Algorithm.Order.{IsAscending, same, length-Permᴰ}
use mathlib.Core.List.Permᴰ
use mathlib.Core.List.{Permᴰ}
use mathlib.Core.Path.{subst, subst⁻¹}
use c_plus_plus.Algorithm.Merging.{Sorts, IsAscending-short, merged-Sorts}
use c_plus_plus.Algorithm.Segments.{take-add, drop-add, cut, cut-nil}

module _ {T : Type 0} (lt : T → T → Bool) (asym : (x y : T) → lt x y ≡ true → lt y x ≡ false)
    (trans : (x y z : T) → lt x y ≡ false → lt y z ≡ false → lt x z ≡ false) where
  -- Every segment is sorted.
  abbrev Cuts : ℕ → List T → Type 0
  Cuts n xs = (k : ℕ) → IsAscending lt (cut k n xs)

  Cuts-one : (xs : List T) → Cuts 1 xs
  Cuts-one xs zero = IsAscending-short lt (take 1 xs) (omega (arith, length-take 1 xs))
  Cuts-one xs (suc k) = Cuts-one (drop 1 xs) k

  -- Two lists, the first of which fills a segment when there is a second.
  parts :
      (n : ℕ) (xs ys : List T)
      → (length xs ≡ n) ⊎ ((length xs ≤ n) × (ys ≡ []))
      → (take n (xs ++ ys) ≡ xs) × (drop n (xs ++ ys) ≡ ys)
  parts n xs ys (inl e) = (take-length xs ys n (sym e), drop-length xs ys n 0 (omega arith))
  parts n xs ys (inr (h, e)) = (
    ap (λ l. take n (xs ++ l)) e ∙ (ap (take n) (append-nil xs) ∙ take-all n xs h),
    ap (λ l. drop n (xs ++ l)) e ∙ (ap (drop n) (append-nil xs) ∙ (drop-all n xs h ∙ sym e)),
  )

  Cuts-append :
      (n : ℕ) (xs ys : List T)
      → (length xs ≡ n) ⊎ ((length xs ≤ n) × (ys ≡ []))
      → IsAscending lt xs
      → Cuts n ys
      → Cuts n (xs ++ ys)
  Cuts-append n xs ys h s c zero = subst⁻¹ (IsAscending lt) (parts n xs ys h).0 s
  Cuts-append n xs ys h s c (suc k) =
      subst⁻¹ (λ l. IsAscending lt (cut k n l)) (parts n xs ys h).1 (c k)

  merged_segments-nil : (fuel n : ℕ) → merged_segments lt fuel n [] ≡ []
  unfolding merged_segments
  merged_segments-nil zero n = refl
  merged_segments-nil (suc fuel) n = refl

  -- The merge of the first two segments.
  first_two : (n : ℕ) → List T → List T
  first_two n xs = merge_sorted lt (length (take (n * 2) xs)) (take n xs) (take n (drop n xs))

  first_two-Sorts : (n : ℕ) (xs : List T) → Cuts n xs → Sorts lt (first_two n xs) (take (n * 2) xs)
  unfolding first_two
  first_two-Sorts n xs c =
      subst⁻¹ (Sorts lt (first_two n xs)) (ap (λ k. take k xs) (twice n) ∙ take-add n n xs) (
        merged-Sorts lt asym trans (length (take (n * 2) xs)) (take n xs) (take n (drop n xs))
          (take n xs) (take n (drop n xs))
          (omega (
            arith,
            length-take (n * 2) xs,
            length-take n xs,
            length-take n (drop n xs),
            length-drop n xs,
          ))
          (c 0, Permᴰ.refl (take n xs)) (c 1, Permᴰ.refl (take n (drop n xs))))
    where
      twice : (n : ℕ) → n * 2 ≡ n + n
      twice n = omega arith

  Cuts-drop : (n : ℕ) (xs : List T) → Cuts n xs → Cuts n (drop (n * 2) xs)
  Cuts-drop n xs c k =
      subst⁻¹ (λ l. IsAscending lt (cut k n l)) (ap (λ m. drop m xs) (twice n) ∙ drop-add n n xs)
        (c (suc (suc k)))
    where
      twice : (n : ℕ) → n * 2 ≡ n + n
      twice n = omega arith

  -- A round makes sorted segments of twice the length.
  merged_segments-Cuts :
      (fuel n : ℕ) (xs : List T)
      → 1 ≤ n
      → length xs ≤ fuel
      → Cuts n xs
      → Cuts (n * 2) (merged_segments lt fuel n xs) × Permᴰ (merged_segments lt fuel n xs) xs
  unfolding merged_segments first_two
  merged_segments-Cuts fuel n [] p l c = (
    λ k.
        subst⁻¹ (IsAscending lt)
          (ap (cut k (n * 2)) (merged_segments-nil fuel n) ∙ cut-nil k (n * 2)) tt,
    same (merged_segments-nil fuel n),
  )
  merged_segments-Cuts zero n (x ∷ xs) p l c = absurd (omega arith)
  merged_segments-Cuts (suc fuel) n (x ∷ xs) p l c =
      let rest =
        merged_segments-Cuts fuel n (drop (n * 2) (x ∷ xs)) p
          (omega (arith, length-drop (n * 2) (x ∷ xs))) (Cuts-drop n (x ∷ xs) c) in
      let two = first_two-Sorts n (x ∷ xs) c in
      (
        Cuts-append (n * 2) (first_two n (x ∷ xs))
            (merged_segments lt fuel n (drop (n * 2) (x ∷ xs))) (full two.1) two.0 rest.0,
        Permᴰ.trans (Permᴰ.append_right (merged_segments lt fuel n (drop (n * 2) (x ∷ xs))) two.1) (
            Permᴰ.trans (Permᴰ.append_left (take (n * 2) (x ∷ xs)) rest.1)
              (same (take-append-drop (n * 2) (x ∷ xs)))),
      )
    where
      either : (a b : ℕ) → (a ≤ b) ⊎ (b ≤ a)
      either a b = ground arith

      full :
          {m : List T}
          → Permᴰ m (take (n * 2) (x ∷ xs))
          → (length m ≡ n * 2)
            ⊎ ((length m ≤ n * 2) × (merged_segments lt fuel n (drop (n * 2) (x ∷ xs)) ≡ []))
      full d = elim (either (n * 2) (length (x ∷ xs))) [
        | inl h ↦ inl (omega (arith, length-Permᴰ d, length-take (n * 2) (x ∷ xs)))
        | inr h ↦ inr (
          omega (arith, length-Permᴰ d, length-take (n * 2) (x ∷ xs)),
          ap (merged_segments lt fuel n) (drop-all (n * 2) (x ∷ xs) h) ∙ merged_segments-nil fuel n,
        )
      ]

  merge_doubling-goes :
      (fuel n : ℕ) (xs next : List T)
      → ltb n (length xs) ≡ true
      → merge_segments lt (length xs) n 0 xs ≡ some next
      → merge_doubling lt (suc fuel) n xs [] [] ≡ merge_doubling lt fuel (n * 2) next [] []
  unfolding merge_doubling
  merge_doubling-goes fuel n xs next h e = rw (h, e, merge_doubling) refl

  merge_doubling-stops :
      (fuel n : ℕ) (xs : List T)
      → ltb n (length xs) ≡ false
      → merge_doubling lt (suc fuel) n xs [] [] ≡ some (xs ++ [])
  unfolding merge_doubling
  merge_doubling-stops fuel n xs h = rw (h, merge_doubling) refl

  -- One segment holds all.
  Cuts-IsAscending : (n : ℕ) (xs : List T) → length xs ≤ n → Cuts n xs → IsAscending lt xs
  Cuts-IsAscending n xs l c = subst (IsAscending lt) (take-all n xs l) (c 0)

  -- The segment is a power of 2 that divides 2 ^ 30.
  merge_doubling-Sorts :
      (fuel n k : ℕ) (xs : List T)
      → 1 ≤ n
      → n * 2 ^ k ≡ 2 ^ 30
      → length xs ≤ 2 ^ 30
      → length xs ≤ n + fuel
      → Cuts n xs
      → (r : List T) × ((merge_doubling lt fuel n xs [] [] ≡ some r) × Sorts lt r xs)
  unfolding merge_doubling
  merge_doubling-Sorts zero n k xs p e b l c =
      (xs, (ap some (append-nil xs), (Cuts-IsAscending n xs (omega arith) c, Permᴰ.refl xs)))
  merge_doubling-Sorts (suc fuel) n k xs p e b l c =
      let round = merged_segments-Cuts (length xs) n xs p (omega arith) c in
      elim (Bool-cases (ltb n (length xs))) [
        | inl h ↦
            let half = halved n k e (omega (arith, ltb→lt n (length xs) h)) in
            let rest =
              merge_doubling-Sorts fuel (n * 2) half.0 (merged_segments lt (length xs) n xs)
                (omega arith) half.1.0 (omega (arith, length-Permᴰ round.1))
                (omega (arith, length-Permᴰ round.1)) round.0 in
            (
              rest.0,
              (
                merge_doubling-goes fuel n xs (merged_segments lt (length xs) n xs) h (
                      merge_segments-merged lt (length xs) n 0 (length xs) xs (omega arith)
                        (omega (arith, half.1.1)))
                    ∙ rest.1.0,
                (rest.1.1.0, Permᴰ.trans rest.1.1.1 round.1),
              ),
            )
        | inr h ↦ (
          xs,
          (
            merge_doubling-stops fuel n xs h ∙ ap some (append-nil xs),
            (Cuts-IsAscending n xs (not_less n (length xs) h) c, Permᴰ.refl xs),
          ),
        )
      ]
    where
      not_less : (a b : ℕ) → ltb a b ≡ false → b ≤ a
      not_less a b h = ground arith

  -- `mergeSort_Iteration_Ascend` sorts a vector of at most 2 ^ 30 elements, for an `operator<` that is a
  -- strict weak order: no element of the result is less than one in front of it, and the result is a
  -- permutation of the vector.
  pub merge_sort_iteration_ascend_lem :
      (array : List T)
      → length array ≤ 2 ^ 30
      → (r : List T) × ((merge_sort_iteration_ascend lt array ≡ some r)
          × (IsAscending lt r × Permᴰ r array))
  unfolding merge_sort_iteration_ascend
  merge_sort_iteration_ascend_lem array l =
      let small : length array < 2 ^ 31 = omega arith in
      let (r, (e, sorts)) =
        merge_doubling-Sorts (length array) 1 30 array (omega arith) refl l (omega arith)
          (Cuts-one array) in
      (
        r,
        (
          rw
              (
                is_negative-small (length array) small,
                take-int_len array small,
                drop-int_len array small,
              )
              e,
          sorts,
        ),
      )
