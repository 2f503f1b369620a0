-- ===== src/Algorithm/Segments.antt =====
-- Lists cut in segments, for the rounds of mergeSort_Iteration_Ascend.
use c_plus_plus.Prelude.{
  take-nil, drop-nil, ℕ, zero, suc, ◌+◌, ◌≡◌, sym, ap, ◌∙◌, List, [], ◌∷◌, ◌++◌, arith, take, drop,
}

module _ {T : Type 0} where
  pub take-add : (m n : ℕ) (xs : List T) → take (m + n) xs ≡ take m xs ++ take n (drop m xs)
  take-add zero n xs = ap (λ k. take k xs) (omega arith)
  take-add (suc m) n [] = take-nil (suc m + n) ∙ sym (take-nil n)
  take-add (suc m) n (x ∷ xs) =
      ap (λ k. take k (x ∷ xs)) (suc_sum m n) ∙ ap (λ l. x ∷ l) (take-add m n xs)
    where
      suc_sum : (m n : ℕ) → suc m + n ≡ suc (m + n)
      suc_sum m n = omega arith

  pub drop-add : (m n : ℕ) (xs : List T) → drop (m + n) xs ≡ drop n (drop m xs)
  drop-add zero n xs = ap (λ k. drop k xs) (omega arith)
  drop-add (suc m) n [] = drop-nil (suc m + n) ∙ sym (drop-nil n)
  drop-add (suc m) n (x ∷ xs) = ap (λ k. drop k (x ∷ xs)) (suc_sum m n) ∙ drop-add m n xs
    where
      suc_sum : (m n : ℕ) → suc m + n ≡ suc (m + n)
      suc_sum m n = omega arith

  -- The segment number `k`.
  abbrev pub cut : ℕ → ℕ → List T → List T
  cut zero n xs = take n xs
  cut (suc k) n xs = cut k n (drop n xs)

  pub cut-nil : (k n : ℕ) → cut k n [] ≡ []
  cut-nil zero n = take-nil n
  cut-nil (suc k) n = ap (cut k n) (drop-nil n) ∙ cut-nil k n
