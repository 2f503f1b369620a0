-- ===== src/Algorithm/Agreement.antt =====
-- The sorts of algorithm/Algorithm.ipp give the same vector, where the order tells elements apart.
use c_plus_plus.Prelude.{
  ◌^◌, ◌≤◌, ◌<◌, ◌≡◌, refl, ap, ap₂, ◌∙◌, inl, inr, Bool, true, false, not, Option, some, List, [],
  ◌∷◌, arith, Bool-cases, length,
}
use c_plus_plus.Prelude.Find.{not-true}
use c_plus_plus.Algorithm.{
  insert_sort_ascend, bubble_sort_ascend, select_sort_ascend, shell_sort_ascend,
  merge_sort_recursion_ascend, merge_sort_iteration_ascend,
}
use c_plus_plus.Algorithm.Order.{IsAscending, All-Permᴰ, length-Permᴰ}
use c_plus_plus.Algorithm.Merging.{Sorts}
use c_plus_plus.Algorithm.Insertion.{insert_sort_ascend_lem}
use c_plus_plus.Algorithm.Bubble.{bubble_sort_ascend_lem}
use c_plus_plus.Algorithm.Selection.{select_sort_ascend_lem}
use c_plus_plus.Algorithm.Shell.{shell_sort_ascend_lem}
use c_plus_plus.Algorithm.Recursion.{merge_sort_recursion_ascend_lem}
use c_plus_plus.Algorithm.Iteration.{merge_sort_iteration_ascend_lem}
use mathlib.Core.Bool.{Bool-set}
use mathlib.Core.Logic.{∥∥₁_elim}
use mathlib.Core.List.Perm
use mathlib.Core.List.Permᴰ
use mathlib.Core.List.{Perm, Permᴰ}
use mathlib.Core.Path.{subst}
use native.Mathlib.Nat.{ℕ_set}

module _ {T : Type 0} (lt : T → T → Bool) (asym : (x y : T) → lt x y ≡ true → lt y x ≡ false)
    (trans : (x y z : T) → lt x y ≡ false → lt y z ≡ false → lt x z ≡ false)
    (total : (x y : T) → lt x y ≡ false → lt y x ≡ false → x ≡ y) where
  irrefl : (x : T) → lt x x ≡ false
  irrefl x = elim (Bool-cases (lt x x)) [ inl h ↦ asym x x h | inr h ↦ h ]

  -- No element of a list is less than the first of an ascending one with the same elements.
  first_is_least :
      (x y : T) (xs ys : List T) → IsAscending lt (y ∷ ys) → Perm (x ∷ xs) (y ∷ ys) → lt x y ≡ false
  first_is_least x y xs ys s p = ∥∥₁_elim p (Bool-set (lt x y) false) (λ d.
      not-true (lt x y) (All-Permᴰ (λ z. not (lt z y)) (Permᴰ.symm d) (ap not (irrefl y), s.0)).0)

  same_length : (xs ys : List T) → Perm xs ys → length xs ≡ length ys
  same_length xs ys p = ∥∥₁_elim p (ℕ_set (length xs) (length ys)) length-Permᴰ

  unique : (xs ys : List T) → IsAscending lt xs → IsAscending lt ys → Perm xs ys → xs ≡ ys
  unique [] [] s t p = refl
  unique [] (y ∷ ys) s t p = absurd (omega (arith, same_length [] (y ∷ ys) p))
  unique (x ∷ xs) [] s t p = absurd (omega (arith, same_length (x ∷ xs) [] p))
  unique (x ∷ xs) (y ∷ ys) s t p =
      let e = total x y (first_is_least x y xs ys t p) (first_is_least y x ys xs s (Perm.symm p)) in
      ap₂ (λ a l. a ∷ l) e
        (unique xs ys s.1 t.1 (Perm.cons_inv {a = y} (subst (λ a. Perm (a ∷ xs) (y ∷ ys)) e p)))

  Sorts-unique : (xs ys zs : List T) → Sorts lt xs zs → Sorts lt ys zs → xs ≡ ys
  Sorts-unique xs ys zs s t = unique xs ys s.0 t.0 ∣ Permᴰ.trans s.1 (Permᴰ.symm t.1) ∣₁

  agree :
      (array xs : List T)
      → length array < 2 ^ 31
      → Sorts lt xs array
      → xs ≡ insert_sort_ascend lt array
  agree array xs h s =
      Sorts-unique xs (insert_sort_ascend lt array) array s
        (insert_sort_ascend_lem lt asym trans array h)

  agree_some :
      (array : List T) (o : Option (List T))
      → length array < 2 ^ 31
      → (r : List T) × ((o ≡ some r) × Sorts lt r array)
      → o ≡ some (insert_sort_ascend lt array)
  agree_some array o h (r, (e, s)) = e ∙ ap some (agree array r h s)

  -- For an `operator<` that is a strict total order, and the `operator>` that is its converse, the
  -- six sorts give the same vector, for a vector of at most 2 ^ 30 elements.
  pub sorts_agree :
      (array : List T)
      → length array ≤ 2 ^ 30
      → (bubble_sort_ascend (λ x y. lt y x) array ≡ some (insert_sort_ascend lt array))
        × ((select_sort_ascend lt array ≡ some (insert_sort_ascend lt array))
            × ((shell_sort_ascend lt array ≡ insert_sort_ascend lt array)
                × ((merge_sort_recursion_ascend lt array ≡ some (insert_sort_ascend lt array))
                    × (merge_sort_iteration_ascend lt array ≡ some (insert_sort_ascend lt array)))))
  sorts_agree array l =
      let h : length array < 2 ^ 31 = omega arith in
      (
        agree_some array (bubble_sort_ascend (λ x y. lt y x) array) h (
            bubble_sort_ascend_lem (λ x y. lt y x) (λ x y h. asym y x h)
              (λ x y z h k. trans z y x k h) array h),
        (
          agree_some array (select_sort_ascend lt array) h
              (select_sort_ascend_lem lt asym trans array h),
          (
            agree array (shell_sort_ascend lt array) h
                (shell_sort_ascend_lem lt asym trans array h),
            (
              agree_some array (merge_sort_recursion_ascend lt array) h
                  (merge_sort_recursion_ascend_lem lt asym trans array l),
              agree_some array (merge_sort_iteration_ascend lt array) h
                  (merge_sort_iteration_ascend_lem lt asym trans array l),
            ),
          ),
        ),
      )
