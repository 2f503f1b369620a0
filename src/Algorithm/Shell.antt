-- ===== src/Algorithm/Shell.antt =====
-- shellSort_Ascend of algorithm/Algorithm.ipp sorts: the last pass is an insertion sort of what the
-- others permuted.
use c_plus_plus.Prelude.{
  ℕ, zero, suc, ◌+◌, ◌-◌, ◌*◌, ◌/◌, ◌^◌, ◌≤◌, ◌<◌, ◌≡◌, refl, sym, ap, ap₂, ◌∙◌, ◌⊎◌, inl, inr,
  Bool, true, false, some, List, [], ◌∷◌, ◌++◌, reverse, append-nil, append_assoc, reverse-append,
  arith, ltb, leb, if◌then◌else◌, Bool-cases, length, get_elem?, set, length-append,
}
use c_plus_plus.Prelude.Find.{length-reverse, get_elem?-append}
use c_plus_plus.Algorithm.Lengths.{on_front-all}
use c_plus_plus.Algorithm.{
  insert_back, insert_from, insert_len, shift_back, shell_pass, shell_gaps, first_gap,
  shell_sort_ascend, shell_len,
}
use c_plus_plus.Algorithm.Order.{IsAscending, length-Permᴰ}
use c_plus_plus.Algorithm.Insertion.{
  insert_back-Permᴰ, insert_back-moves, insert_back-stops, insert_len_lem,
}
use c_plus_plus.Algorithm.Merging.{Sorts}
use c_plus_plus.Algorithm.Passes.{
  shift_back-moves, shift_back-stops, shell_pass-goes, shell_pass-Permᴰ,
}
use mathlib.Core.List.{Permᴰ}
use mathlib.Core.Path.{subst⁻¹}

module _ {T : Type 0} where
  set-append :
      (xs ys : List T) (y z : T) (n : ℕ) → n ≡ length xs → set (xs ++ y ∷ ys) n z ≡ xs ++ z ∷ ys
  set-append [] ys y z zero e = refl
  set-append [] ys y z (suc n) e = absurd (omega arith)
  set-append (x ∷ xs) ys y z zero e = absurd (omega arith)
  set-append (x ∷ xs) ys y z (suc n) e = ap (λ l. x ∷ l) (set-append xs ys y z n (omega arith))

  -- The front from its last element back.
  reverse-cons :
      (x : T) (front rest : List T) → reverse (x ∷ front) ++ rest ≡ reverse front ++ x ∷ rest
  reverse-cons x front rest =
      ap (λ l. l ++ rest) (reverse-append (x ∷ []) front)
      ∙ append_assoc (reverse front) (x ∷ []) rest

module _ {T : Type 0} (lt : T → T → Bool) where
  -- With a gap of 1 the innermost loop inserts into the elements in front.
  shift_back-insert_back :
      (front rest : List T) (e y : T)
      → shift_back lt (length front) 1 e (length front) (reverse front ++ y ∷ rest)
        ≡ reverse (insert_back lt e front) ++ rest
  unfolding shift_back insert_back
  shift_back-insert_back [] rest e y = refl
  shift_back-insert_back (x ∷ front) rest e y =
      let array = reverse (x ∷ front) ++ y ∷ rest in
      let whole = reverse-cons x front (y ∷ rest) in
      let next = shift_back-insert_back front (x ∷ rest) e x in
      elim (Bool-cases (lt e x)) [
        | inl t ↦
            shift_back-moves lt (length front) 1 (suc (length front)) e x array
              (one_le (length front)) (held whole) t
            ∙ (ap₂ (λ k a. shift_back lt (length front) 1 e k a) (before (length front))
                  (stored x whole)
                ∙ (next
                    ∙ (sym (reverse-cons x (insert_back lt e front) rest)
                        ∙ ap (λ l. reverse l ++ rest) (sym (insert_back-moves lt e x front t)))))
        | inr f ↦
            shift_back-stops lt (length front) 1 (suc (length front)) e x array
              (one_le (length front)) (held whole) f
            ∙ (stored e whole
                ∙ (sym (reverse-cons x front (e ∷ rest))
                    ∙ (sym (reverse-cons e (x ∷ front) rest)
                        ∙ ap (λ l. reverse l ++ rest) (sym (insert_back-stops lt e x front f)))))
      ]
    where
      one_le : (n : ℕ) → leb 1 (suc n) ≡ true
      one_le n = ground arith

      before : (n : ℕ) → suc n - 1 ≡ n
      before n = omega arith

      held :
          reverse (x ∷ front) ++ y ∷ rest ≡ reverse front ++ x ∷ y ∷ rest
          → get_elem? (reverse (x ∷ front) ++ y ∷ rest) (suc (length front) - 1) ≡ some x
      held w =
          ap₂ get_elem? w (before (length front))
          ∙ get_elem?-append (reverse front) (y ∷ rest) x (length front)
              (sym (length-reverse front))

      stored :
          (z : T)
          → reverse (x ∷ front) ++ y ∷ rest ≡ reverse front ++ x ∷ y ∷ rest
          → set (reverse (x ∷ front) ++ y ∷ rest) (suc (length front)) z
            ≡ reverse front ++ x ∷ z ∷ rest
      stored z w =
          ap (λ l. set l (suc (length front)) z)
            (w ∙ sym (append_assoc (reverse front) (x ∷ []) (y ∷ rest)))
          ∙ (set-append (reverse front ++ x ∷ []) rest y z (suc (length front))
                (omega (arith, length-append (reverse front) (x ∷ []), length-reverse front))
              ∙ append_assoc (reverse front) (x ∷ []) (z ∷ rest))

  shell_pass-insert_from :
      (front rest : List T)
      → shell_pass lt (length rest) 1 (length front) (reverse front ++ rest)
        ≡ insert_from lt front rest
  unfolding shell_pass insert_from
  shell_pass-insert_from front [] = append-nil (reverse front)
  shell_pass-insert_from front (x ∷ rest) =
      shell_pass-goes lt (length rest) 1 (length front) x (reverse front ++ x ∷ rest)
        (get_elem?-append (reverse front) rest x (length front) (sym (length-reverse front)))
      ∙ (ap₂ (shell_pass lt (length rest) 1)
            (one_more (length-Permᴰ (insert_back-Permᴰ lt x front)))
            (shift_back-insert_back front rest x x)
          ∙ shell_pass-insert_from (insert_back lt x front) rest)
    where
      one_more : {n m : ℕ} → m ≡ suc n → n + 1 ≡ m
      one_more e = omega (arith, e)

  -- The last pass.
  shell_pass-insert_sort :
      (array : List T) → shell_pass lt (length array - 1) 1 1 array ≡ insert_len lt array
  unfolding shell_pass insert_len
  shell_pass-insert_sort [] = refl
  shell_pass-insert_sort (x ∷ rest) =
      ap (λ k. shell_pass lt k 1 1 (x ∷ rest)) (before (length rest))
      ∙ shell_pass-insert_from (x ∷ []) rest
    where
      before : (n : ℕ) → suc n - 1 ≡ n
      before n = omega arith

  shell_gaps-goes :
      (fuel gap : ℕ) (array : List T)
      → 1 ≤ gap
      → shell_gaps lt (suc fuel) gap array
        ≡ shell_gaps lt fuel (gap / 3) (shell_pass lt (length array - gap) gap gap array)
  unfolding shell_gaps
  shell_gaps-goes fuel gap array h = rw (le_leb 1 gap h, shell_gaps)
    where
      le_leb : (a b : ℕ) → a ≤ b → leb a b ≡ true
      le_leb a b h = ground arith

  shell_gaps-zero : (fuel : ℕ) (array : List T) → shell_gaps lt fuel 0 array ≡ array
  unfolding shell_gaps
  shell_gaps-zero zero array = refl
  shell_gaps-zero (suc fuel) array = refl

-- The gaps: 1, 4, 13, 40, ...
knuth : ℕ → ℕ
knuth zero = 1
knuth (suc m) = knuth m * 3 + 1

knuth-bounds : (m : ℕ) → m < knuth m
unfolding knuth
knuth-bounds zero = omega arith
knuth-bounds (suc m) = omega (arith, knuth-bounds m)

first_gap-knuth : (fuel m len : ℕ) → (k : ℕ) × (first_gap fuel (knuth m) len ≡ knuth k)
unfolding first_gap knuth
first_gap-knuth zero m len = (m, refl)
first_gap-knuth (suc fuel) m len =
    let next = first_gap-knuth fuel (suc m) len in either (ltb (knuth m) (len / 3)) next
  where
    either :
        (b : Bool)
        → (k : ℕ) × (first_gap fuel (knuth m * 3 + 1) len ≡ knuth k)
        → (k : ℕ) × ((if b then first_gap fuel (knuth m * 3 + 1) len else knuth m) ≡ knuth k)
    either true n = n
    either false n = (m, refl)

module _ {T : Type 0} (lt : T → T → Bool) (asym : (x y : T) → lt x y ≡ true → lt y x ≡ false)
    (trans : (x y z : T) → lt x y ≡ false → lt y z ≡ false → lt x z ≡ false) where
  shell_gaps-Sorts :
      (m fuel : ℕ) (array : List T) → m < fuel → Sorts lt (shell_gaps lt fuel (knuth m) array) array
  unfolding knuth
  shell_gaps-Sorts m zero array h = absurd (omega arith)
  shell_gaps-Sorts zero (suc fuel) array h =
      subst⁻¹ (λ r. Sorts lt r array)
        (shell_gaps-goes lt fuel 1 array (omega arith)
          ∙ (shell_gaps-zero lt fuel (shell_pass lt (length array - 1) 1 1 array)
              ∙ shell_pass-insert_sort lt array))
        (insert_len_lem lt asym trans array)
  shell_gaps-Sorts (suc m) (suc fuel) array h =
      let gap = knuth m * 3 + 1 in
      let passed = shell_pass lt (length array - gap) gap gap array in
      let rest = shell_gaps-Sorts m fuel passed (omega arith) in
      subst⁻¹ (λ r. Sorts lt r array)
        (shell_gaps-goes lt fuel gap array (omega arith)
          ∙ ap (λ g. shell_gaps lt fuel g passed) (third (knuth m)))
        (
          rest.0,
          Permᴰ.trans rest.1 (shell_pass-Permᴰ lt (length array - gap) gap gap array (omega arith)),
        )
    where
      third : (g : ℕ) → (g * 3 + 1) / 3 ≡ g
      third g = omega arith

  shell_len_lem :
      (array : List T) → IsAscending lt (shell_len lt array) × Permᴰ (shell_len lt array) array
  unfolding shell_len knuth
  shell_len_lem array =
      let g = first_gap-knuth (length array) 0 (length array) in
      subst⁻¹ (λ n. Sorts lt (shell_gaps lt n n array) array) g.1
        (shell_gaps-Sorts g.0 (knuth g.0) array (knuth-bounds g.0))

  -- `shellSort_Ascend` sorts a vector of fewer than 2 ^ 31 elements, for an `operator<` that is a strict weak order: no element of the
  -- result is less than one in front of it, and the result is a permutation of the vector.
  pub shell_sort_ascend_lem :
      (array : List T)
      → length array < 2 ^ 31
      → IsAscending lt (shell_sort_ascend lt array) × Permᴰ (shell_sort_ascend lt array) array
  unfolding shell_sort_ascend
  shell_sort_ascend_lem array h =
      subst⁻¹ (λ r. IsAscending lt r × Permᴰ r array) (on_front-all (shell_len lt) array h)
        (shell_len_lem array)

-- The fuel of the loop that finds the first gap is enough: the loop stops by its test.
pub first_gap-enough : (fuel gap len : ℕ) → len ≤ gap + fuel → len / 3 ≤ first_gap fuel gap len
unfolding first_gap
first_gap-enough zero gap len h = omega arith
first_gap-enough (suc fuel) gap len h =
    either (Bool-cases (ltb gap (len / 3))) (first_gap-enough fuel (gap * 3 + 1) len (omega arith))
  where
    stops : (a b : ℕ) → ltb a b ≡ false → b ≤ a
    stops a b h = ground arith

    either :
        (ltb gap (len / 3) ≡ true) ⊎ (ltb gap (len / 3) ≡ false)
        → len / 3 ≤ first_gap fuel (gap * 3 + 1) len
        → len / 3 ≤ (if ltb gap (len / 3) then first_gap fuel (gap * 3 + 1) len else gap)
    either (inl t) n =
        subst⁻¹ (λ b. len / 3 ≤ (if b then first_gap fuel (gap * 3 + 1) len else gap)) t n
    either (inr f) n =
        subst⁻¹ (λ b. len / 3 ≤ (if b then first_gap fuel (gap * 3 + 1) len else gap)) f
          (stops gap (len / 3) f)
