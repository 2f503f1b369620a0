-- ===== src/Algorithm.antt =====
-- The sorts of algorithm/Algorithm.ipp. The elements have an `operator<`, the parameter `lt`, and for
-- the bubble sort an `operator>`, the parameter `gt`. The length of the vector is converted to an
-- `int32_t`, of which the loops sort as many elements in front; `none` is a signed overflow, or what the
-- constructor of `tempArray` throws for a negative length. Elements are copied with no effect but the
-- copy, also by `memcpy`.
pub mod Order
pub mod Lengths
pub mod Insertion
pub mod Bubble
pub mod Selection
pub mod Merging
pub mod Recursion
pub mod Segments
pub mod Rounds
pub mod Iteration
pub mod Passes
pub mod Shell
pub mod Agreement
pub mod Tests
use c_plus_plus.Prelude.{
  is_negative, int_len, ℕ, zero, suc, ◌+◌, ◌-◌, ◌*◌, ◌/◌, ◌%◌, ◌^◌, ◌<◌, min, ap, Bool, true, false,
  Option, none, some, List, [], ◌∷◌, ◌++◌, reverse, ltb, leb, ◌==◌, if◌then◌else◌, ◌>>=◌, length,
  get_elem?, set, take, drop,
}

module _ {T : Type 0} where
  -- A sort of the elements below `len`, the length as an `int32_t`.
  unfoldable pub on_front : (List T → List T) → List T → List T
  on_front sort array =
      sort (take (int_len (length array)) array) ++ drop (int_len (length array)) array

-- Whether `len - 1` overflows: `len` is the least `int32_t`.
unfoldable pub is_least : ℕ → Bool
is_least size = size % 2 ^ 32 == 2 ^ 31

module _ {T : Type 0} (lt : T → T → Bool) where
  -- The inner loop: the elements in front of index `i`, from the last one back, and the element at `i`
  -- stored where the loop stops.
  unfoldable pub insert_back : T → List T → List T
  insert_back insert_elem [] = insert_elem ∷ []
  insert_back insert_elem (x ∷ front) = elim (lt insert_elem x) [
    | true ↦ x ∷ insert_back insert_elem front
    | false ↦ insert_elem ∷ x ∷ front
  ]

  -- The outer loop: the elements in front of index `i`, from the last one back, and those from `i` on.
  unfoldable pub insert_from : List T → List T → List T
  insert_from front [] = reverse front
  insert_from front (x ∷ rest) = insert_from (insert_back x front) rest

  -- The outer loop on as many elements as there are.
  unfoldable pub insert_len : List T → List T
  insert_len [] = []
  insert_len (x ∷ rest) = insert_from (x ∷ []) rest

  -- `insertSort_Ascend`
  unfoldable pub insert_sort_ascend : List T → List T
  insert_sort_ascend array = on_front insert_len array

module _ {T : Type 0} (gt : T → T → Bool) where
  -- The inner loop of `bubbleSort_Ascend`, `n` comparisons from the front.
  unfoldable pub bubble_pass : ℕ → List T → List T
  bubble_pass zero array = array
  bubble_pass (suc n) [] = []
  bubble_pass (suc n) (x ∷ []) = x ∷ []
  bubble_pass (suc n) (x ∷ y ∷ rest) = elim (gt x y) [
    | true ↦ y ∷ bubble_pass n (x ∷ rest)
    | false ↦ x ∷ bubble_pass n (y ∷ rest)
  ]

  -- The outer loop: `n` is `len - 1 - i`.
  unfoldable pub bubble_rounds : ℕ → List T → List T
  bubble_rounds zero array = array
  bubble_rounds (suc n) array = bubble_rounds n (bubble_pass (suc n) array)

  -- Both loops on as many elements as there are.
  unfoldable pub bubble_len : List T → List T
  bubble_len array = bubble_rounds (length array - 1) array

  -- `bubbleSort_Ascend`
  unfoldable pub bubble_sort_ascend : List T → Option (List T)
  bubble_sort_ascend array =
      if is_least (length array) then none else some (on_front bubble_len array)

module _ {T : Type 0} where
  -- `swap(array[i], array[minIndex])`, on the elements behind index `i`.
  abbrev pub put_back : T → Option ℕ → List T → List T
  put_back x none rest = rest
  put_back x (some k) rest = set rest k x

module _ {T : Type 0} (lt : T → T → Bool) where
  -- The inner loop of `selectSort_Ascend`: the least element so far, where it is (`none` for index `i`,
  -- else the place behind it), and the place of the next element.
  unfoldable pub find_min : T → Option ℕ → ℕ → List T → T × Option ℕ
  find_min least place j [] = (least, place)
  find_min least place j (x ∷ rest) = elim (lt x least) [
    | true ↦ find_min x (some j) (j + 1) rest
    | false ↦ find_min least place (j + 1) rest
  ]

  -- The outer loop: `n` is `len - 1 - i`, on the elements from index `i`.
  unfoldable pub select_rounds : ℕ → List T → List T
  select_rounds zero array = array
  select_rounds (suc n) [] = []
  select_rounds (suc n) (x ∷ rest) =
      (find_min x none 0 rest).0 ∷ select_rounds n (put_back x (find_min x none 0 rest).1 rest)

  -- Both loops on as many elements as there are.
  unfoldable pub select_len : List T → List T
  select_len array = select_rounds (length array - 1) array

  -- `selectSort_Ascend`
  unfoldable pub select_sort_ascend : List T → Option (List T)
  select_sort_ascend array =
      if is_least (length array) then none else some (on_front select_len array)

  -- The loops that fill `tempArray`, of as many elements as both parts have: `n` is what is left to fill.
  unfoldable pub merge_sorted : ℕ → List T → List T → List T
  merge_sorted zero xs ys = []
  merge_sorted (suc n) [] [] = []
  merge_sorted (suc n) [] (y ∷ ys) = y ∷ merge_sorted n [] ys
  merge_sorted (suc n) (x ∷ xs) [] = x ∷ merge_sorted n xs []
  merge_sorted (suc n) (x ∷ xs) (y ∷ ys) = elim (lt x y) [
    | true ↦ x ∷ merge_sorted n xs (y ∷ ys)
    | false ↦ y ∷ merge_sorted n (x ∷ xs) ys
  ]

  -- `internalMergeSort_Recursion_Ascend` on the part of the array from index `start` on, by recursion to a
  -- depth of `fuel`: the length is enough. `middle - start` is half of `end - start`, and `none` is an
  -- overflow of `start + end`.
  unfoldable pub merge_sort_part : ℕ → ℕ → List T → Option (List T)
  merge_sort_part zero start part = some part
  merge_sort_part (suc fuel) start part = elim (ltb 1 (length part)) [
    | false ↦ some part
    | true ↦ elim (leb (2 ^ 31) (start + (start + length part - 1))) [
      | true ↦ none
      | false ↦ do
        left ← merge_sort_part fuel start (take ((length part - 1) / 2 + 1) part)
        right ←
            merge_sort_part fuel (start + ((length part - 1) / 2 + 1))
              (drop ((length part - 1) / 2 + 1) part)
        some (merge_sorted (length part) left right)
    ]
  ]

  -- `mergeSort_Recursion_Ascend`
  unfoldable pub merge_sort_recursion_ascend : List T → Option (List T)
  merge_sort_recursion_ascend array = if is_negative (length array) then none else do
    front ← merge_sort_part (length array) 0 (take (int_len (length array)) array)
    some (front ++ drop (int_len (length array)) array)

  -- The inner loop of `mergeSort_Iteration_Ascend`, on the elements from index `i` on: the parts of
  -- `2 * segment` elements, each made of two sorted ones, as many of them as `fuel` allows: the length is
  -- enough. `none` is an overflow of `i + segment * 2`.
  unfoldable pub merge_segments : ℕ → ℕ → ℕ → List T → Option (List T)
  merge_segments zero segment i array = some array
  merge_segments (suc fuel) segment i [] = some []
  merge_segments (suc fuel) segment i (x ∷ rest) = elim (leb (2 ^ 31) (i + segment * 2)) [
    | true ↦ none
    | false ↦ do
      later ← merge_segments fuel segment (i + segment * 2) (drop (segment * 2) (x ∷ rest))
      some (
          merge_sorted (length (take (segment * 2) (x ∷ rest))) (take segment (x ∷ rest))
            (take segment (drop segment (x ∷ rest)))
          ++ later)
  ]

  -- The outer loop, for `fuel` rounds: the length is enough, since `segment` grows. The array is the
  -- elements below `len` and what is behind them, and `other` is what `tempArray` has behind them: the
  -- swap exchanges the two.
  unfoldable pub merge_doubling : ℕ → ℕ → List T → List T → List T → Option (List T)
  merge_doubling zero segment front behind other = some (front ++ behind)
  merge_doubling (suc fuel) segment front behind other = elim (ltb segment (length front)) [
    | false ↦ some (front ++ behind)
    | true ↦ do
      next ← merge_segments (length front) segment 0 front
      merge_doubling fuel (segment * 2) next other behind
  ]

  -- `mergeSort_Iteration_Ascend`; `tempArray` has `len` elements.
  unfoldable pub merge_sort_iteration_ascend : List T → Option (List T)
  merge_sort_iteration_ascend array =
      if is_negative (length array)
      then none
      else merge_doubling (length array) 1 (take (int_len (length array)) array)
          (drop (int_len (length array)) array) []

module _ {T : Type 0} (lt : T → T → Bool) where
  -- The innermost loop of `shellSort_Ascend`, where `place` is `j + gap`: it goes down, so that as many
  -- rounds as the first place are enough.
  unfoldable pub shift_back : ℕ → ℕ → T → ℕ → List T → List T
  shift_back zero gap insert_elem place array = set array place insert_elem
  shift_back (suc fuel) gap insert_elem place array = elim (leb gap place) [
    | false ↦ set array place insert_elem
    | true ↦ elim (get_elem? array (place - gap)) [
      | none ↦ array
      | some x ↦ elim (lt insert_elem x) [
        | true ↦ shift_back fuel gap insert_elem (place - gap) (set array place x)
        | false ↦ set array place insert_elem
      ]
    ]
  ]

  -- The loop over `i`, `count` elements from there on.
  unfoldable pub shell_pass : ℕ → ℕ → ℕ → List T → List T
  shell_pass zero gap i array = array
  shell_pass (suc count) gap i array = elim (get_elem? array i) [
    | none ↦ array
    | some insert_elem ↦ shell_pass count gap (i + 1) (shift_back i gap insert_elem i array)
  ]

  -- The loop over the gaps, for `fuel` rounds: the first gap is enough, since it gets less.
  unfoldable pub shell_gaps : ℕ → ℕ → List T → List T
  shell_gaps zero gap array = array
  shell_gaps (suc fuel) gap array = elim (leb 1 gap) [
    | false ↦ array
    | true ↦ shell_gaps fuel (gap / 3) (shell_pass (length array - gap) gap gap array)
  ]

-- `while (gap < len / 3)`, for `fuel` rounds: `len` is enough, since the gap grows.
unfoldable pub first_gap : ℕ → ℕ → ℕ → ℕ
first_gap zero gap len = gap
first_gap (suc fuel) gap len =
    let next = first_gap fuel (gap * 3 + 1) len in if ltb gap (len / 3) then next else gap

module _ {T : Type 0} (lt : T → T → Bool) where
  -- The loops on as many elements as there are.
  unfoldable pub shell_len : List T → List T
  shell_len array =
      shell_gaps lt (first_gap (length array) 1 (length array))
        (first_gap (length array) 1 (length array)) array

  -- `shellSort_Ascend`
  unfoldable pub shell_sort_ascend : List T → List T
  shell_sort_ascend array = on_front shell_len array
