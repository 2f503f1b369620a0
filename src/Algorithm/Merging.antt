-- ===== src/Algorithm/Merging.antt =====
-- The merge of two sorted parts, of the merge sorts of algorithm/Algorithm.ipp.
use c_plus_plus.Prelude.{
  ℕ, zero, suc, ◌+◌, ◌≤◌, ◌≡◌, refl, ap, inl, inr, Bool, true, false, not, List, [], ◌∷◌, ◌++◌,
  append-nil, arith, Bool-cases, length,
}
use c_plus_plus.Prelude.Find.{All, All-append}
use c_plus_plus.Algorithm.{merge_sorted}
use c_plus_plus.Algorithm.Order.{IsAscending, All-Permᴰ, All-above, length-Permᴰ}
use mathlib.Core.List.Permᴰ
use mathlib.Core.List.{Permᴰ}
use mathlib.Core.Path.{subst⁻¹}

module _ {T : Type 0} (lt : T → T → Bool) where
  merge_sorted-left :
      (n : ℕ) (x y : T) (xs ys : List T)
      → lt x y ≡ true
      → merge_sorted lt (suc n) (x ∷ xs) (y ∷ ys) ≡ x ∷ merge_sorted lt n xs (y ∷ ys)
  unfolding merge_sorted
  merge_sorted-left n x y xs ys h = rw (h, merge_sorted)

  merge_sorted-right :
      (n : ℕ) (x y : T) (xs ys : List T)
      → lt x y ≡ false
      → merge_sorted lt (suc n) (x ∷ xs) (y ∷ ys) ≡ y ∷ merge_sorted lt n (x ∷ xs) ys
  unfolding merge_sorted
  merge_sorted-right n x y xs ys h = rw (h, merge_sorted)

  merge_sorted-Permᴰ :
      (n : ℕ) (xs ys : List T)
      → n ≡ length xs + length ys
      → Permᴰ (merge_sorted lt n xs ys) (xs ++ ys)
  unfolding merge_sorted
  merge_sorted-Permᴰ zero [] [] e = Permᴰ.refl []
  merge_sorted-Permᴰ zero [] (y ∷ ys) e = absurd (omega arith)
  merge_sorted-Permᴰ zero (x ∷ xs) ys e = absurd (omega arith)
  merge_sorted-Permᴰ (suc n) [] [] e = Permᴰ.refl []
  merge_sorted-Permᴰ (suc n) [] (y ∷ ys) e =
      Permᴰ.cons refl (merge_sorted-Permᴰ n [] ys (omega arith))
  merge_sorted-Permᴰ (suc n) (x ∷ xs) [] e =
      Permᴰ.cons refl (merge_sorted-Permᴰ n xs [] (omega arith))
  merge_sorted-Permᴰ (suc n) (x ∷ xs) (y ∷ ys) e =
      let left = merge_sorted-Permᴰ n xs (y ∷ ys) (omega arith) in
      let right = merge_sorted-Permᴰ n (x ∷ xs) ys (omega arith) in
      elim (Bool-cases (lt x y)) [
        | inl h ↦
            subst⁻¹ (λ l. Permᴰ l (x ∷ xs ++ y ∷ ys)) (merge_sorted-left n x y xs ys h)
              (Permᴰ.cons refl left)
        | inr h ↦
            subst⁻¹ (λ l. Permᴰ l (x ∷ xs ++ y ∷ ys)) (merge_sorted-right n x y xs ys h)
              (Permᴰ.trans (Permᴰ.cons refl right) (Permᴰ.symm (Permᴰ.middle y (x ∷ xs) ys)))
      ]

  -- The result of a sort.
  abbrev pub Sorts : List T → List T → Type 0
  Sorts ys xs = IsAscending lt ys × Permᴰ ys xs

  pub IsAscending-short : (xs : List T) → length xs ≤ 1 → IsAscending lt xs
  IsAscending-short [] h = tt
  IsAscending-short (x ∷ []) h = (tt, tt)
  IsAscending-short (x ∷ y ∷ xs) h = absurd (omega arith)

  module _ (asym : (x y : T) → lt x y ≡ true → lt y x ≡ false)
      (trans : (x y z : T) → lt x y ≡ false → lt y z ≡ false → lt x z ≡ false) where
    -- The two heads: the smaller is at most everything in both lists.
    merge_sorted-IsAscending :
        (n : ℕ) (xs ys : List T)
        → n ≡ length xs + length ys
        → IsAscending lt xs
        → IsAscending lt ys
        → IsAscending lt (merge_sorted lt n xs ys)
    unfolding merge_sorted
    merge_sorted-IsAscending zero [] [] e s t = tt
    merge_sorted-IsAscending zero [] (y ∷ ys) e s t = absurd (omega arith)
    merge_sorted-IsAscending zero (x ∷ xs) ys e s t = absurd (omega arith)
    merge_sorted-IsAscending (suc n) [] [] e s t = tt
    merge_sorted-IsAscending (suc n) [] (y ∷ ys) e s t = (
      All-Permᴰ (λ z. not (lt z y)) (Permᴰ.symm (merge_sorted-Permᴰ n [] ys (omega arith))) t.0,
      merge_sorted-IsAscending n [] ys (omega arith) tt t.1,
    )
    merge_sorted-IsAscending (suc n) (x ∷ xs) [] e s t = (
      All-Permᴰ (λ z. not (lt z x)) (Permᴰ.symm (merge_sorted-Permᴰ n xs [] (omega arith)))
          (subst⁻¹ (All (λ z. not (lt z x))) (append-nil xs) s.0),
      merge_sorted-IsAscending n xs [] (omega arith) s.1 tt,
    )
    merge_sorted-IsAscending (suc n) (x ∷ xs) (y ∷ ys) e s t =
        let left = merge_sorted-IsAscending n xs (y ∷ ys) (omega arith) s.1 t in
        let right = merge_sorted-IsAscending n (x ∷ xs) ys (omega arith) s t.1 in
        elim (Bool-cases (lt x y)) [
          | inl h ↦ subst⁻¹ (IsAscending lt) (merge_sorted-left n x y xs ys h) (
            All-Permᴰ (λ z. not (lt z x))
                (Permᴰ.symm (merge_sorted-Permᴰ n xs (y ∷ ys) (omega arith)))
                (All-append (λ z. not (lt z x)) xs (y ∷ ys) s.0
                  (ap not (asym x y h), All-above lt trans x y ys (asym x y h) t.0)),
            left,
          )
          | inr h ↦ subst⁻¹ (IsAscending lt) (merge_sorted-right n x y xs ys h) (
            All-Permᴰ (λ z. not (lt z y))
                (Permᴰ.symm (merge_sorted-Permᴰ n (x ∷ xs) ys (omega arith)))
                (All-append (λ z. not (lt z y)) (x ∷ xs) ys
                  (ap not h, All-above lt trans y x xs h s.0) t.0),
            right,
          )
        ]

    pub merged-Sorts :
        (n : ℕ) (xs ys ls rs : List T)
        → n ≡ length xs + length ys
        → Sorts ls xs
        → Sorts rs ys
        → Sorts (merge_sorted lt n ls rs) (xs ++ ys)
    merged-Sorts n xs ys ls rs e s t =
        let e' : n ≡ length ls + length rs = omega (arith, length-Permᴰ s.1, length-Permᴰ t.1) in
        (
          merge_sorted-IsAscending n ls rs e' s.0 t.0,
          Permᴰ.trans (merge_sorted-Permᴰ n ls rs e')
              (Permᴰ.trans (Permᴰ.append_right rs s.1) (Permᴰ.append_left xs t.1)),
        )
