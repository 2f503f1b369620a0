-- ===== src/Algorithm/Selection.antt =====
-- selectSort_Ascend of algorithm/Algorithm.ipp sorts.
use c_plus_plus.Prelude.{
  ℕ, zero, suc, ◌+◌, ◌-◌, ◌^◌, ◌<◌, ◌≡◌, refl, sym, ap, ◌∙◌, inl, inr, Bool, true, false, not,
  Option, none, some, List, [], ◌∷◌, ◌++◌, append_assoc, arith, Bool-cases, length, get_elem?, set,
  length-append,
}
use c_plus_plus.Prelude.Find.{All, get_elem?-append}
use c_plus_plus.Algorithm.Lengths.{is_least-small, on_front-all}
use c_plus_plus.Algorithm.{find_min, put_back, select_rounds, select_sort_ascend, select_len}
use c_plus_plus.Algorithm.Order.{IsAscending, All-Permᴰ, length-Permᴰ}
use mathlib.Core.List.Permᴰ
use mathlib.Core.List.{Permᴰ}
use mathlib.Core.Option.{none-ne-some, some-injective}
use mathlib.Core.Path.{subst⁻¹}

module _ {T : Type 0} where
  -- Putting another element at a place where there is `m` exchanges the two.
  pub set-Permᴰ :
      (xs : List T) (k : ℕ) (m x : T) → get_elem? xs k ≡ some m → Permᴰ (m ∷ set xs k x) (x ∷ xs)
  set-Permᴰ [] k m x e = absurd (none-ne-some m e)
  set-Permᴰ (y ∷ xs) zero m x e = Permᴰ.swap (sym (some-injective y m e)) refl
  set-Permᴰ (y ∷ xs) (suc k) m x e =
      Permᴰ.trans (Permᴰ.swap refl refl)
        (Permᴰ.trans (Permᴰ.cons refl (set-Permᴰ xs k m x e)) (Permᴰ.swap refl refl))

module _ {T : Type 0} (lt : T → T → Bool) where
  find_min-less :
      (least : T) (place : Option ℕ) (j : ℕ) (x : T) (rest : List T)
      → lt x least ≡ true
      → find_min lt least place j (x ∷ rest) ≡ find_min lt x (some j) (j + 1) rest
  unfolding find_min
  find_min-less least place j x rest h = rw (h, find_min)

  find_min-not_less :
      (least : T) (place : Option ℕ) (j : ℕ) (x : T) (rest : List T)
      → lt x least ≡ false
      → find_min lt least place j (x ∷ rest) ≡ find_min lt least place (j + 1) rest
  unfolding find_min
  find_min-not_less least place j x rest h = rw (h, find_min)

  -- The place is that of the element, in a list where `xs` is behind `j` elements.
  abbrev IsAt : List T → T → Option ℕ → T → Type 0
  IsAt all x none m = m ≡ x
  IsAt all x (some k) m = get_elem? all k ≡ some m

  find_min-IsAt :
      (all : List T) (head : T) (least : T) (place : Option ℕ) (front rest : List T) (j : ℕ)
      → all ≡ front ++ rest
      → j ≡ length front
      → IsAt all head place least
      → IsAt all head (find_min lt least place j rest).1 (find_min lt least place j rest).0
  unfolding find_min
  find_min-IsAt all head least place front [] j e l h = h
  find_min-IsAt all head least place front (x ∷ rest) j e l h =
      let e' = e ∙ sym (append_assoc front (x ∷ []) rest) in
      let l' : j + 1 ≡ length (front ++ x ∷ []) = omega (arith, length-append front (x ∷ [])) in
      let here = subst⁻¹ (λ a. get_elem? a j ≡ some x) e (get_elem?-append front rest x j l) in
      let less = find_min-IsAt all head x (some j) (front ++ x ∷ []) rest (j + 1) e' l' here in
      let kept = find_min-IsAt all head least place (front ++ x ∷ []) rest (j + 1) e' l' h in
      elim (Bool-cases (lt x least)) [
        | inl t ↦ subst⁻¹ (λ r. IsAt all head r.1 r.0) (find_min-less least place j x rest t) less
        | inr f ↦
            subst⁻¹ (λ r. IsAt all head r.1 r.0) (find_min-not_less least place j x rest f) kept
      ]

  put_back-Permᴰ :
      (x m : T) (place : Option ℕ) (rest : List T)
      → IsAt rest x place m
      → Permᴰ (m ∷ put_back x place rest) (x ∷ rest)
  put_back-Permᴰ x m none rest h = Permᴰ.cons h (Permᴰ.refl rest)
  put_back-Permᴰ x m (some k) rest h = set-Permᴰ rest k m x h

  module _ (asym : (x y : T) → lt x y ≡ true → lt y x ≡ false)
      (trans : (x y z : T) → lt x y ≡ false → lt y z ≡ false → lt x z ≡ false) where
    -- What is found is at most the least before, and each element of the rest.
    find_min-All :
        (least : T) (place : Option ℕ) (j : ℕ) (rest : List T)
        → (lt least (find_min lt least place j rest).0 ≡ false)
          × All (λ y. not (lt y (find_min lt least place j rest).0)) rest
    unfolding find_min
    find_min-All least place j [] = (irrefl least, tt)
      where
        irrefl : (x : T) → lt x x ≡ false
        irrefl x = elim (Bool-cases (lt x x)) [ inl h ↦ asym x x h | inr h ↦ h ]
    find_min-All least place j (x ∷ rest) =
        let less = find_min-All x (some j) (j + 1) rest in
        let kept = find_min-All least place (j + 1) rest in
        elim (Bool-cases (lt x least)) [
          | inl t ↦
              subst⁻¹ (λ r. (lt least r.0 ≡ false) × All (λ y. not (lt y r.0)) (x ∷ rest))
                (find_min-less least place j x rest t)
                (trans least x _ (asym x least t) less.0, (ap not less.0, less.1))
          | inr f ↦
              subst⁻¹ (λ r. (lt least r.0 ≡ false) × All (λ y. not (lt y r.0)) (x ∷ rest))
                (find_min-not_less least place j x rest f)
                (kept.0, (ap not (trans x least _ f kept.0), kept.1))
        ]

    select_rounds-IsAscending :
        (n : ℕ) (array : List T)
        → length array ≡ suc n
        → IsAscending lt (select_rounds lt n array) × Permᴰ (select_rounds lt n array) array
    unfolding select_rounds
    select_rounds-IsAscending n [] l = absurd (omega arith)
    select_rounds-IsAscending zero (x ∷ []) l = ((tt, tt), Permᴰ.refl (x ∷ []))
    select_rounds-IsAscending zero (x ∷ y ∷ rest) l = absurd (omega arith)
    select_rounds-IsAscending (suc n) (x ∷ rest) l =
        let r = find_min lt x none 0 rest in
        let swapped =
          put_back-Permᴰ x r.0 r.1 rest (find_min-IsAt rest x x none [] rest 0 refl refl refl) in
        let least = find_min-All x none 0 rest in
        let next =
          select_rounds-IsAscending n (put_back x r.1 rest) (omega (arith, length-Permᴰ swapped)) in
        let above =
          All-Permᴰ (λ y. not (lt y r.0)) (Permᴰ.symm swapped) (ap not least.0, least.1) in
        (
          (All-Permᴰ (λ y. not (lt y r.0)) (Permᴰ.symm next.1) above.1, next.0),
          Permᴰ.trans (Permᴰ.cons refl next.1) swapped,
        )

    select_len_lem :
        (array : List T) → IsAscending lt (select_len lt array) × Permᴰ (select_len lt array) array
    unfolding select_len select_rounds
    select_len_lem [] = (tt, Permᴰ.refl [])
    select_len_lem (x ∷ rest) =
        select_rounds-IsAscending (length (x ∷ rest) - 1) (x ∷ rest) (omega arith)

    -- `selectSort_Ascend` sorts a vector of fewer than 2 ^ 31 elements, for an `operator<` that is a strict weak order: no element of the
    -- result is less than one in front of it, and the result is a permutation of the vector.
    pub select_sort_ascend_lem :
        (array : List T)
        → length array < 2 ^ 31
        → (r : List T) × ((select_sort_ascend lt array ≡ some r)
            × (IsAscending lt r × Permᴰ r array))
    unfolding select_sort_ascend
    select_sort_ascend_lem array h = (
      select_len lt array,
      (
        rw (is_least-small (length array) h) (ap some (on_front-all (select_len lt) array h)),
        select_len_lem array,
      ),
    )
