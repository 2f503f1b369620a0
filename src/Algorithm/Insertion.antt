-- ===== src/Algorithm/Insertion.antt =====
-- insertSort_Ascend of algorithm/Algorithm.ipp sorts.
use c_plus_plus.Prelude.{
  ◌^◌, ◌<◌, ◌≡◌, refl, sym, ap, inl, inr, Bool, true, false, not, List, [], ◌∷◌, ◌++◌, reverse,
  append-nil, reverse-append, Bool-cases, length,
}
use c_plus_plus.Prelude.Find.{All, All-append, All-reverse}
use mathlib.Core.List.Permᴰ
use mathlib.Core.List.{Permᴰ}
use mathlib.Core.Path.{subst, subst⁻¹}
use c_plus_plus.Algorithm.Order.{IsAscending, All-trans}
use c_plus_plus.Algorithm.Lengths.{on_front-all}
use c_plus_plus.Algorithm.{insert_back, insert_from, insert_sort_ascend, insert_len}

module _ {T : Type 0} (lt : T → T → Bool) where
  abbrev IsDescending : List T → Type 0
  IsDescending [] = Unit
  IsDescending (x ∷ xs) = All (λ y. not (lt x y)) xs × IsDescending xs

  pub insert_back-moves :
      (e x : T) (front : List T)
      → lt e x ≡ true
      → insert_back lt e (x ∷ front) ≡ x ∷ insert_back lt e front
  unfolding insert_back
  insert_back-moves e x front h = rw (h, insert_back)

  pub insert_back-stops :
      (e x : T) (front : List T) → lt e x ≡ false → insert_back lt e (x ∷ front) ≡ e ∷ x ∷ front
  unfolding insert_back
  insert_back-stops e x front h = rw (h, insert_back)

  pub insert_back-Permᴰ : (e : T) (front : List T) → Permᴰ (insert_back lt e front) (e ∷ front)
  unfolding insert_back
  insert_back-Permᴰ e [] = Permᴰ.refl (e ∷ [])
  insert_back-Permᴰ e (x ∷ front) =
      let rest = insert_back-Permᴰ e front in
      elim (Bool-cases (lt e x)) [
        | inl h ↦
            subst⁻¹ (λ t. Permᴰ t (e ∷ x ∷ front)) (insert_back-moves e x front h)
              (Permᴰ.trans (Permᴰ.cons refl rest) (Permᴰ.swap refl refl))
        | inr h ↦
            subst⁻¹ (λ t. Permᴰ t (e ∷ x ∷ front)) (insert_back-stops e x front h)
              (Permᴰ.refl (e ∷ x ∷ front))
      ]

  insert_from-Permᴰ : (front rest : List T) → Permᴰ (insert_from lt front rest) (front ++ rest)
  unfolding insert_from
  insert_from-Permᴰ front [] =
      Permᴰ.trans (Permᴰ.reverse front)
        (subst (λ t. Permᴰ front t) (sym (append-nil front)) (Permᴰ.refl front))
  insert_from-Permᴰ front (x ∷ rest) =
      Permᴰ.trans (insert_from-Permᴰ (insert_back lt x front) rest) (
        Permᴰ.trans (Permᴰ.append_right rest (insert_back-Permᴰ x front))
          (Permᴰ.symm (middle front x rest)))
    where
      middle : (xs : List T) (y : T) (zs : List T) → Permᴰ (xs ++ y ∷ zs) (y ∷ (xs ++ zs))
      middle [] y zs = Permᴰ.refl (y ∷ zs)
      middle (x ∷ xs) y zs = Permᴰ.trans (Permᴰ.cons refl (middle xs y zs)) (Permᴰ.swap refl refl)

  All-insert_back :
      (p : T → Bool) (e : T) (front : List T)
      → p e ≡ true
      → All p front
      → All p (insert_back lt e front)
  unfolding insert_back
  All-insert_back p e [] h a = (h, tt)
  All-insert_back p e (x ∷ front) h a =
      let rest = All-insert_back p e front h a.1 in
      elim (Bool-cases (lt e x)) [
        | inl l ↦ subst⁻¹ (All p) (insert_back-moves e x front l) (a.0, rest)
        | inr l ↦ subst⁻¹ (All p) (insert_back-stops e x front l) (h, a)
      ]

  IsAscending-snoc :
      (xs : List T) (x : T)
      → All (λ y. not (lt x y)) xs
      → IsAscending lt xs
      → IsAscending lt (xs ++ x ∷ [])
  IsAscending-snoc [] x a s = (tt, tt)
  IsAscending-snoc (y ∷ xs) x a s =
      (All-append (λ z. not (lt z y)) xs (x ∷ []) s.0 (a.0, tt), IsAscending-snoc xs x a.1 s.1)

  reverse-IsAscending : (xs : List T) → IsDescending xs → IsAscending lt (reverse xs)
  reverse-IsAscending [] s = tt
  reverse-IsAscending (x ∷ xs) s = subst⁻¹ (IsAscending lt) (reverse-append (x ∷ []) xs) (
      IsAscending-snoc (reverse xs) x (All-reverse (λ y. not (lt x y)) xs s.0)
        (reverse-IsAscending xs s.1))

  module _ (asym : (x y : T) → lt x y ≡ true → lt y x ≡ false)
      (trans : (x y z : T) → lt x y ≡ false → lt y z ≡ false → lt x z ≡ false) where
    insert_back-IsDescending :
        (e : T) (front : List T) → IsDescending front → IsDescending (insert_back lt e front)
    unfolding insert_back
    insert_back-IsDescending e [] s = (tt, tt)
    insert_back-IsDescending e (x ∷ front) s =
        let rest = insert_back-IsDescending e front s.1 in
        elim (Bool-cases (lt e x)) [
          | inl l ↦
              subst⁻¹ IsDescending (insert_back-moves e x front l)
                (All-insert_back (λ y. not (lt x y)) e front (ap not (asym e x l)) s.0, rest)
          | inr l ↦
              subst⁻¹ IsDescending (insert_back-stops e x front l)
                ((ap not l, All-trans lt trans e x front l s.0), s)
        ]

    insert_from-IsAscending :
        (front rest : List T) → IsDescending front → IsAscending lt (insert_from lt front rest)
    unfolding insert_from
    insert_from-IsAscending front [] s = reverse-IsAscending front s
    insert_from-IsAscending front (x ∷ rest) s =
        insert_from-IsAscending (insert_back lt x front) rest (insert_back-IsDescending x front s)

    pub insert_len_lem :
        (array : List T) → IsAscending lt (insert_len lt array) × Permᴰ (insert_len lt array) array
    unfolding insert_len
    insert_len_lem [] = (tt, Permᴰ.refl [])
    insert_len_lem (x ∷ rest) =
        (insert_from-IsAscending (x ∷ []) rest (tt, tt), insert_from-Permᴰ (x ∷ []) rest)

    -- `insertSort_Ascend` sorts a vector of fewer than 2 ^ 31 elements, for an `operator<` that is a strict weak order: no element of the
    -- result is less than one in front of it, and the result is a permutation of the vector.
    pub insert_sort_ascend_lem :
        (array : List T)
        → length array < 2 ^ 31
        → IsAscending lt (insert_sort_ascend lt array) × Permᴰ (insert_sort_ascend lt array) array
    unfolding insert_sort_ascend
    insert_sort_ascend_lem array h =
        subst⁻¹ (λ r. IsAscending lt r × Permᴰ r array) (on_front-all (insert_len lt) array h)
          (insert_len_lem array)
