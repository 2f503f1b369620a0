-- ===== src/Algorithm/Bubble.antt =====
-- bubbleSort_Ascend of algorithm/Algorithm.ipp sorts.
use c_plus_plus.Prelude.{
  ℕ, zero, suc, ◌-◌, ◌^◌, ◌<◌, ◌≡◌, refl, sym, ap, ◌∙◌, inl, inr, Bool, true, false, not, some,
  List, [], ◌∷◌, ◌++◌, append-nil, append_assoc, arith, Bool-cases, length, length-append,
}
use c_plus_plus.Prelude.Find.{All}
use c_plus_plus.Algorithm.Lengths.{is_least-small, on_front-all}
use c_plus_plus.Algorithm.{bubble_pass, bubble_rounds, bubble_sort_ascend, bubble_len}
use c_plus_plus.Algorithm.Order.{
  IsAscending, same, length-Permᴰ, Below, Below-snoc, Below-nil, Below-cons, Below-Permᴰ,
}
use mathlib.Core.List.Permᴰ
use mathlib.Core.List.{Permᴰ}
use mathlib.Core.Path.{subst, subst⁻¹}

module _ {T : Type 0} (gt : T → T → Bool) where
  -- The order that `operator>` gives.
  abbrev pub less : T → T → Bool
  less x y = gt y x

  bubble_pass-swaps :
      (n : ℕ) (x y : T) (rest : List T)
      → gt x y ≡ true
      → bubble_pass gt (suc n) (x ∷ y ∷ rest) ≡ y ∷ bubble_pass gt n (x ∷ rest)
  unfolding bubble_pass
  bubble_pass-swaps n x y rest h = rw (h, bubble_pass)

  bubble_pass-keeps :
      (n : ℕ) (x y : T) (rest : List T)
      → gt x y ≡ false
      → bubble_pass gt (suc n) (x ∷ y ∷ rest) ≡ x ∷ bubble_pass gt n (y ∷ rest)
  unfolding bubble_pass
  bubble_pass-keeps n x y rest h = rw (h, bubble_pass)

  module _ (asym : (x y : T) → gt x y ≡ true → gt y x ≡ false)
      (trans : (x y z : T) → gt x y ≡ false → gt y z ≡ false → gt x z ≡ false) where
    -- A pass over `x ∷ xs` leaves the greatest of them behind the others, and does not touch `back`.
    abbrev IsPassed : T → List T → List T → Type 0
    IsPassed x xs back =
        (ys : List T) × ((m : T) × ((bubble_pass gt (length xs) (x ∷ xs ++ back) ≡ ys ++ m ∷ back)
            × (Permᴰ (ys ++ m ∷ []) (x ∷ xs) × (All (λ y. not (gt y m)) ys × (gt x m ≡ false)))))

    bubble_pass-IsPassed : (x : T) (xs back : List T) → IsPassed x xs back
    unfolding bubble_pass
    bubble_pass-IsPassed x [] back = ([], (x, (refl, (Permᴰ.refl (x ∷ []), (tt, irrefl x)))))
      where
        irrefl : (x : T) → gt x x ≡ false
        irrefl x = elim (Bool-cases (gt x x)) [ inl h ↦ asym x x h | inr h ↦ h ]
    bubble_pass-IsPassed x (y ∷ xs) back =
        let r = bubble_pass-IsPassed x xs back in
        let s = bubble_pass-IsPassed y xs back in
        elim (Bool-cases (gt x y)) [
          | inl h ↦ (
            y ∷ r.0,
            (
              r.1.0,
              (
                bubble_pass-swaps (length xs) x y (xs ++ back) h ∙ ap (λ l. y ∷ l) r.1.1.0,
                (
                  Permᴰ.trans (Permᴰ.cons refl r.1.1.1.0) (Permᴰ.swap refl refl),
                  ((ap not (trans y x r.1.0 (asym x y h) r.1.1.1.1.1), r.1.1.1.1.0), r.1.1.1.1.1),
                ),
              ),
            ),
          )
          | inr h ↦ (
            x ∷ s.0,
            (
              s.1.0,
              (
                bubble_pass-keeps (length xs) x y (xs ++ back) h ∙ ap (λ l. x ∷ l) s.1.1.0,
                (
                  Permᴰ.cons refl s.1.1.1.0,
                  (
                    (ap not (trans x y s.1.0 h s.1.1.1.1.1), s.1.1.1.1.0),
                    trans x y s.1.0 h s.1.1.1.1.1,
                  ),
                ),
              ),
            ),
          )
        ]

    length-snoc : (ys : List T) (m : T) → length (ys ++ m ∷ []) ≡ suc (length ys)
    length-snoc ys m = omega (arith, length-append ys (m ∷ []))

    -- The front is to be sorted, and the back is sorted and above it.
    bubble_rounds-IsAscending :
        (n : ℕ) (front back : List T)
        → length front ≡ suc n
        → IsAscending less back
        → Below less front back
        → IsAscending less (bubble_rounds gt n (front ++ back))
          × Permᴰ (bubble_rounds gt n (front ++ back)) (front ++ back)
    unfolding bubble_rounds
    bubble_rounds-IsAscending n [] back l s b = absurd (omega arith)
    bubble_rounds-IsAscending zero (x ∷ []) back l s b = ((b.0, s), Permᴰ.refl (x ∷ back))
    bubble_rounds-IsAscending zero (x ∷ y ∷ xs) back l s b = absurd (omega arith)
    bubble_rounds-IsAscending (suc n) (x ∷ xs) back l s b =
        let r = bubble_pass-IsPassed x xs back in
        let below =
          Below-snoc less r.0 back r.1.0 (Below-Permᴰ less back (Permᴰ.symm r.1.1.1.0) b) in
        let rest =
          bubble_rounds-IsAscending n r.0 (r.1.0 ∷ back)
            (omega (arith, length-snoc r.0 r.1.0, length-Permᴰ r.1.1.1.0)) (below.1, s)
            (Below-cons less r.0 back r.1.0 r.1.1.1.1.0 below.0) in
        subst⁻¹
          (λ a.
            IsAscending less (bubble_rounds gt n a) × Permᴰ (bubble_rounds gt n a) (x ∷ xs ++ back))
          (ap (λ k. bubble_pass gt k (x ∷ xs ++ back)) (omega (arith, l)) ∙ r.1.1.0)
          (
            rest.0,
            Permᴰ.trans rest.1 (
                Permᴰ.trans (same (sym (append_assoc r.0 (r.1.0 ∷ []) back)))
                  (Permᴰ.append_right back r.1.1.1.0)),
          )

    bubble_len_lem :
        (array : List T)
        → IsAscending less (bubble_len gt array) × Permᴰ (bubble_len gt array) array
    unfolding bubble_len bubble_rounds
    bubble_len_lem [] = (tt, Permᴰ.refl [])
    bubble_len_lem (x ∷ xs) =
        subst
          (λ a.
            IsAscending less (bubble_rounds gt (length (x ∷ xs) - 1) a)
            × Permᴰ (bubble_rounds gt (length (x ∷ xs) - 1) a) a)
          (append-nil (x ∷ xs))
          (bubble_rounds-IsAscending (length (x ∷ xs) - 1) (x ∷ xs) [] (omega arith) tt
            (Below-nil less (x ∷ xs)))

    -- `bubbleSort_Ascend` sorts a vector of fewer than 2 ^ 31 elements, for an `operator>` that is a strict weak order: no element of the
    -- result is greater than one behind it, and the result is a permutation of the vector.
    pub bubble_sort_ascend_lem :
        (array : List T)
        → length array < 2 ^ 31
        → (r : List T) × ((bubble_sort_ascend gt array ≡ some r)
            × (IsAscending less r × Permᴰ r array))
    unfolding bubble_sort_ascend
    bubble_sort_ascend_lem array h = (
      bubble_len gt array,
      (
        rw (is_least-small (length array) h) (ap some (on_front-all (bubble_len gt) array h)),
        bubble_len_lem array,
      ),
    )
