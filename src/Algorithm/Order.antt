-- ===== src/Algorithm/Order.antt =====
-- The order that the sorts of algorithm/Algorithm.ipp establish.
use c_plus_plus.Prelude.{
  suc, ◌≡◌, refl, ap, ◌∙◌, Bool, true, false, not, List, [], ◌∷◌, ◌++◌, length,
}
use c_plus_plus.Prelude.Find.{All, All-append, not-true}
use mathlib.Core.List.Permᴰ
use mathlib.Core.List.{Permᴰ}
use mathlib.Core.Path.{subst}

module _ {T : Type 0} (lt : T → T → Bool) where
  -- No element is less than one in front of it.
  abbrev pub IsAscending : List T → Type 0
  IsAscending [] = Unit
  IsAscending (x ∷ xs) = All (λ y. not (lt y x)) xs × IsAscending xs

module _ {T : Type 0} where
  pub All-Permᴰ : (p : T → Bool) {xs ys : List T} → Permᴰ xs ys → All p xs → All p ys
  All-Permᴰ p Permᴰ.nil a = tt
  All-Permᴰ p (Permᴰ.cons e d) a = (subst (λ x. p x ≡ true) e a.0, All-Permᴰ p d a.1)
  All-Permᴰ p (Permᴰ.swap e e') a =
      (subst (λ x. p x ≡ true) e' a.1.0, (subst (λ x. p x ≡ true) e a.0, a.1.1))
  All-Permᴰ p (Permᴰ.trans d d') a = All-Permᴰ p d' (All-Permᴰ p d a)

  pub same : {xs ys : List T} → xs ≡ ys → Permᴰ xs ys
  same {xs = xs} e = subst (Permᴰ xs) e (Permᴰ.refl xs)

  pub length-Permᴰ : {xs ys : List T} → Permᴰ xs ys → length xs ≡ length ys
  length-Permᴰ Permᴰ.nil = refl
  length-Permᴰ (Permᴰ.cons e d) = ap suc (length-Permᴰ d)
  length-Permᴰ (Permᴰ.swap e e') = refl
  length-Permᴰ (Permᴰ.trans d d') = length-Permᴰ d ∙ length-Permᴰ d'

module _ {T : Type 0} (lt : T → T → Bool) where
  -- Each of the first list is at most each of the second.
  abbrev pub Below : List T → List T → Type 0
  Below [] ys = Unit
  Below (x ∷ xs) ys = All (λ y. not (lt y x)) ys × Below xs ys

  pub IsAscending-append :
      (xs ys : List T)
      → IsAscending lt xs
      → IsAscending lt ys
      → Below xs ys
      → IsAscending lt (xs ++ ys)
  IsAscending-append [] ys s t b = t
  IsAscending-append (x ∷ xs) ys s t b =
      (All-append (λ y. not (lt y x)) xs ys s.0 b.0, IsAscending-append xs ys s.1 t b.1)

  pub Below-nil : (xs : List T) → Below xs []
  Below-nil [] = tt
  Below-nil (x ∷ xs) = (tt, Below-nil xs)

  pub Below-cons :
      (xs ys : List T) (y : T) → All (λ x. not (lt y x)) xs → Below xs ys → Below xs (y ∷ ys)
  Below-cons [] ys y a b = tt
  Below-cons (x ∷ xs) ys y a b = ((a.0, b.0), Below-cons xs ys y a.1 b.1)

  pub Below-Permᴰ : {xs zs : List T} (ys : List T) → Permᴰ xs zs → Below xs ys → Below zs ys
  Below-Permᴰ ys Permᴰ.nil b = tt
  Below-Permᴰ ys (Permᴰ.cons e d) b =
      (subst (λ x. All (λ y. not (lt y x)) ys) e b.0, Below-Permᴰ ys d b.1)
  Below-Permᴰ ys (Permᴰ.swap e e') b = (
    subst (λ x. All (λ y. not (lt y x)) ys) e' b.1.0,
    (subst (λ x. All (λ y. not (lt y x)) ys) e b.0, b.1.1),
  )
  Below-Permᴰ ys (Permᴰ.trans d d') b = Below-Permᴰ ys d' (Below-Permᴰ ys d b)

module _ {T : Type 0} (lt : T → T → Bool)
    (trans : (x y z : T) → lt x y ≡ false → lt y z ≡ false → lt x z ≡ false) where
  pub All-trans :
      (x y : T) (zs : List T)
      → lt x y ≡ false
      → All (λ z. not (lt y z)) zs
      → All (λ z. not (lt x z)) zs
  All-trans x y [] h a = tt
  All-trans x y (z ∷ zs) h a =
      (ap not (trans x y z h (not-true (lt y z) a.0)), All-trans x y zs h a.1)

  -- What is at least `y` is at least what is at most `y`.
  pub All-above :
      (x y : T) (zs : List T)
      → lt y x ≡ false
      → All (λ z. not (lt z y)) zs
      → All (λ z. not (lt z x)) zs
  All-above x y [] h a = tt
  All-above x y (z ∷ zs) h a =
      (ap not (trans z y x (not-true (lt z y) a.0) h), All-above x y zs h a.1)

module _ {T : Type 0} (lt : T → T → Bool) where
  pub Below-snoc :
      (xs ys : List T) (x : T)
      → Below lt (xs ++ x ∷ []) ys
      → Below lt xs ys × All (λ y. not (lt y x)) ys
  Below-snoc [] ys x b = (tt, b.0)
  Below-snoc (z ∷ xs) ys x b = ((b.0, (Below-snoc xs ys x b.1).0), (Below-snoc xs ys x b.1).1)
