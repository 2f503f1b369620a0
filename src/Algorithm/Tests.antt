-- ===== src/Algorithm/Tests.antt =====
-- Runs of algorithm/Algorithm.ipp on numbers, and the witnesses of the theorems.
use c_plus_plus.Prelude.{
  is_negative, int_len, ℕ, ◌≤◌, ◌≡◌, refl, Bool, true, false, some, List, [], ◌∷◌, arith, ltb,
  length,
}
use mathlib.Core.List.{Permᴰ}
use c_plus_plus.Algorithm.{
  on_front, is_least, insert_len, bubble_len, select_len, shell_len, insert_back, insert_from,
  insert_sort_ascend, bubble_pass, bubble_rounds, bubble_sort_ascend, find_min, select_rounds,
  select_sort_ascend, shift_back, shell_pass, shell_gaps, first_gap, shell_sort_ascend,
  merge_sorted, merge_sort_part, merge_sort_recursion_ascend, merge_segments, merge_doubling,
  merge_sort_iteration_ascend,
}
use c_plus_plus.Algorithm.Order.{IsAscending}
use c_plus_plus.Algorithm.Insertion.{insert_sort_ascend_lem}
use c_plus_plus.Algorithm.Shell.{shell_sort_ascend_lem}
use c_plus_plus.Algorithm.Iteration.{merge_sort_iteration_ascend_lem}
use c_plus_plus.Algorithm.Agreement.{sorts_agree}

abbrev numbers : List ℕ
numbers = 3 ∷ 1 ∷ 2 ∷ 1 ∷ 9 ∷ 0 ∷ 5 ∷ []

abbrev gtb : ℕ → ℕ → Bool
gtb x y = ltb y x

abbrev sorted : List ℕ
sorted = 0 ∷ 1 ∷ 1 ∷ 2 ∷ 3 ∷ 5 ∷ 9 ∷ []

sorted_by_insertion : insert_sort_ascend ltb numbers ≡ sorted
unfolding insert_sort_ascend int_len on_front insert_len insert_from insert_back
sorted_by_insertion = refl

sorted_by_bubbles : bubble_sort_ascend gtb numbers ≡ some sorted
unfolding bubble_sort_ascend int_len on_front is_least bubble_len bubble_rounds bubble_pass
sorted_by_bubbles = refl

sorted_by_selection : select_sort_ascend ltb numbers ≡ some sorted
unfolding select_sort_ascend int_len on_front is_least select_len select_rounds find_min
sorted_by_selection = refl

sorted_by_gaps : shell_sort_ascend ltb numbers ≡ sorted
unfolding shell_sort_ascend int_len on_front shell_len shell_gaps shell_pass shift_back first_gap
sorted_by_gaps = refl

sorted_by_recursion : merge_sort_recursion_ascend ltb numbers ≡ some sorted
unfolding merge_sort_recursion_ascend int_len is_negative merge_sort_part merge_sorted
sorted_by_recursion = refl

sorted_by_iteration : merge_sort_iteration_ascend ltb numbers ≡ some sorted
unfolding merge_sort_iteration_ascend int_len is_negative merge_doubling merge_segments merge_sorted
sorted_by_iteration = refl

ltb_asym : (x y : ℕ) → ltb x y ≡ true → ltb y x ≡ false
ltb_asym x y h = ground arith

ltb_trans : (x y z : ℕ) → ltb x y ≡ false → ltb y z ≡ false → ltb x z ≡ false
ltb_trans x y z h k = ground arith

ltb_total : (x y : ℕ) → ltb x y ≡ false → ltb y x ≡ false → x ≡ y
ltb_total x y h k = ground arith

few : length numbers ≤ 100
few = omega arith

insert_sort_ascend_lem_example :
    IsAscending ltb (insert_sort_ascend ltb numbers)
    × Permᴰ (insert_sort_ascend ltb numbers) numbers
insert_sort_ascend_lem_example =
    insert_sort_ascend_lem ltb ltb_asym ltb_trans numbers (omega (arith, few))

shell_sort_ascend_lem_example :
    IsAscending ltb (shell_sort_ascend ltb numbers) × Permᴰ (shell_sort_ascend ltb numbers) numbers
shell_sort_ascend_lem_example =
    shell_sort_ascend_lem ltb ltb_asym ltb_trans numbers (omega (arith, few))

merge_sort_iteration_ascend_lem_example :
    (r : List ℕ) × ((merge_sort_iteration_ascend ltb numbers ≡ some r)
      × (IsAscending ltb r × Permᴰ r numbers))
merge_sort_iteration_ascend_lem_example =
    merge_sort_iteration_ascend_lem ltb ltb_asym ltb_trans numbers (omega (arith, few))

sorts_agree_example :
    (bubble_sort_ascend gtb numbers ≡ some (insert_sort_ascend ltb numbers))
    × ((select_sort_ascend ltb numbers ≡ some (insert_sort_ascend ltb numbers))
        × ((shell_sort_ascend ltb numbers ≡ insert_sort_ascend ltb numbers)
            × ((merge_sort_recursion_ascend ltb numbers ≡ some (insert_sort_ascend ltb numbers))
                × (merge_sort_iteration_ascend ltb numbers
                    ≡ some (insert_sort_ascend ltb numbers)))))
sorts_agree_example = sorts_agree ltb ltb_asym ltb_trans ltb_total numbers (omega (arith, few))
