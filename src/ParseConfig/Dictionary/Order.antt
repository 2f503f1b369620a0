-- ===== src/ParseConfig/Dictionary/Order.antt =====
-- The order that the maps of parse_config/ParseConfig.hpp keep.
use c_plus_plus.Prelude.{
  ◌≡◌, refl, inl, inr, true, false, List, [], ◌∷◌, arith, Bool-cases, Bool-ne,
}
use c_plus_plus.Prelude.Chars.{Bytes}
use c_plus_plus.Prelude.Find.{equal, equal_iff}
use mathlib.Core.Path.{subst}
use c_plus_plus.ParseConfig.Dictionary.{less, put}

-- Keys in ascending order, each once.
abbrev pub Above : {V : Type 0} → Bytes → List (Bytes × V) → Type 0
Above k [] = Unit
Above k ((j, v) ∷ m) = less k j ≡ true

abbrev pub IsSorted : {V : Type 0} → List (Bytes × V) → Type 0
IsSorted [] = Unit
IsSorted ((j, v) ∷ m) = Above j m × IsSorted m

pub less_total : (k j : Bytes) → equal j k ≡ false → less k j ≡ false → less j k ≡ true
unfolding less equal
less_total [] [] e h = ground arith
less_total [] (y ∷ ys) e h = ground arith
less_total (x ∷ xs) [] e h = refl
less_total (x ∷ xs) (y ∷ ys) e h = ground (arith, less_total xs ys)

pub less_trans : (a b c : Bytes) → less a b ≡ true → less b c ≡ true → less a c ≡ true
unfolding less
less_trans a [] [] p q = Bool-ne q refl
less_trans a (y ∷ b) [] p q = Bool-ne q refl
less_trans [] b (z ∷ c) p q = refl
less_trans (x ∷ a) [] (z ∷ c) p q = Bool-ne p refl
less_trans (x ∷ a) (y ∷ b) (z ∷ c) p q = ground (arith, less_trans a b c)

pub less_irrefl : (a b : Bytes) → less a b ≡ true → equal a b ≡ false
unfolding less equal
less_irrefl [] [] p = ground arith
less_irrefl [] (y ∷ b) p = refl
less_irrefl (x ∷ a) [] p = refl
less_irrefl (x ∷ a) (y ∷ b) p = ground (arith, less_irrefl a b)

pub less_asym : (a b : Bytes) → less a b ≡ true → less b a ≡ false
unfolding less
less_asym [] [] p = refl
less_asym [] (y ∷ b) p = refl
less_asym (x ∷ a) [] p = ground arith
less_asym (x ∷ a) (y ∷ b) p = ground (arith, less_asym a b)

module _ {V : Type 0} where
  Above-put :
      (j k : Bytes) (v : V) (m : List (Bytes × V))
      → less j k ≡ true
      → Above j m
      → Above j (put k v m)
  unfolding put
  Above-put j k v [] h a = h
  Above-put j k v ((i, w) ∷ m) h a = elim (Bool-cases (equal i k)) [
    | inl e ↦ rw e h
    | inr e ↦ elim (Bool-cases (less k i)) [ inl l ↦ rw (e, l) h | inr l ↦ rw (e, l) a ]
  ]

  -- An assignment keeps the keys of a map in ascending order, each once.
  pub put-IsSorted : (k : Bytes) (v : V) (m : List (Bytes × V)) → IsSorted m → IsSorted (put k v m)
  unfolding put
  put-IsSorted k v [] s = (tt, tt)
  put-IsSorted k v ((j, w) ∷ m) s = elim (Bool-cases (equal j k)) [
    | inl e ↦ let same : j ≡ k = (equal_iff j k).0 e in rw e (subst (λ i. Above i m) same s.0, s.1)
    | inr e ↦ elim (Bool-cases (less k j)) [
      | inl l ↦ rw (e, l) (l, s)
      | inr l ↦ rw (e, l) (Above-put j k v m (less_total k j e l) s.0, put-IsSorted k v m s.1)
    ]
  ]
