-- ===== src/Prelude/Find.antt =====
-- `std::string` searches and the generic algorithms over a range, as functions of the list.
use c_plus_plus.Prelude.Tests.{◌==◌, if◌then◌else◌, Bool-cases, Option-cases}
use c_plus_plus.Prelude.Lists.{length, get_elem?, take, drop, length-append}
use Prim.Native.Nat.{ℕ, zero, suc, ◌+◌}
use mathlib.Core.Bool.{Bool, true, false, not, ◌&&◌, ◌||◌}
use mathlib.Core.Path.{◌≡◌, refl, ap}
use mathlib.Core.Logic.{◌↔◌, inl, inr}
use mathlib.Core.List.{List, [], ◌∷◌, ◌++◌, reverse, reverse-append}
use mathlib.Core.Option.{Option, none, some}
use native.Mathlib.Omega.{arith}

module _ {ℓ} {A : Type ℓ} where
  -- `std::all_of`
  unfoldable pub all_of : (A → Bool) → List A → Bool
  all_of p [] = true
  all_of p (x ∷ xs) = p x && all_of p xs

  -- `std::count_if`
  unfoldable pub count_if : (A → Bool) → List A → ℕ
  count_if p [] = 0
  count_if p (x ∷ xs) = (if p x then 1 else 0) + count_if p xs

  -- The index of the first element that passes, `none` for `npos`.
  unfoldable pub find_if : (A → Bool) → List A → Option ℕ
  find_if p [] = none
  find_if p (x ∷ xs) =
      let later = find_if p xs in
      if p x then some 0 else elim later [ none ↦ none | some i ↦ some (i + 1) ]

  -- The elements before the first that fails, and the rest.
  unfoldable pub take_while : (A → Bool) → List A → List A
  take_while p [] = []
  take_while p (x ∷ xs) = if p x then x ∷ take_while p xs else []

  unfoldable pub drop_while : (A → Bool) → List A → List A
  drop_while p [] = []
  drop_while p (x ∷ xs) = if p x then drop_while p xs else x ∷ xs

  abbrev pub All : (A → Bool) → List A → Type 0
  All p [] = Unit
  All p (x ∷ xs) = (p x ≡ true) × All p xs

  pub take_while-append-drop_while :
      (p : A → Bool) (xs : List A) → take_while p xs ++ drop_while p xs ≡ xs
  unfolding take_while drop_while
  take_while-append-drop_while p [] = refl
  take_while-append-drop_while p (x ∷ xs) = ground (arith, take_while-append-drop_while p xs)

  pub take_while-All : (p : A → Bool) (xs : List A) → All p (take_while p xs)
  unfolding take_while
  take_while-All p [] = tt
  take_while-All p (x ∷ xs) = ground (arith, take_while-All p xs)

pub not-true : (b : Bool) → not b ≡ true → b ≡ false
not-true b h = ground arith

module _ {ℓ} {A : Type ℓ} (p : A → Bool) where
  pub find_if-split :
      (front rest : List A) (c : A)
      → All (λ x. not (p x)) front
      → p c ≡ true
      → find_if p (front ++ c ∷ rest) ≡ some (length front)
  unfolding find_if
  find_if-split [] rest c a h = rw h
  find_if-split (x ∷ front) rest c a h =
      rw (not-true (p x) a.0, find_if-split front rest c a.1 h) (ap some (omega arith))

  pub find_if-none : (s : List A) → All (λ x. not (p x)) s → find_if p s ≡ none
  unfolding find_if
  find_if-none [] a = refl
  find_if-none (x ∷ s) a = rw (not-true (p x) a.0, find_if-none s a.1)

  pub All-append : (xs ys : List A) → All p xs → All p ys → All p (xs ++ ys)
  All-append [] ys a b = b
  All-append (x ∷ xs) ys a b = (a.0, All-append xs ys a.1 b)

-- A list that is empty or starts with an element that fails.
abbrev pub Stops {ℓ} : {A : Type ℓ} → (A → Bool) → List A → Type 0
Stops p [] = Unit
Stops p (x ∷ xs) = p x ≡ false

module _ {ℓ} {A : Type ℓ} (p : A → Bool) where
  -- Elements that pass, in front of such a list.
  pub take_while-split :
      (xs ys : List A)
      → All p xs
      → Stops p ys
      → (take_while p (xs ++ ys) ≡ xs) × (drop_while p (xs ++ ys) ≡ ys)
  unfolding take_while drop_while
  take_while-split [] [] a h = (refl, refl)
  take_while-split [] (y ∷ ys) a h = (rw h, rw h)
  take_while-split (x ∷ xs) ys a h =
      let (t, d) = take_while-split xs ys a.1 h in (rw a.0 (ap (◌∷◌ x) t), rw a.0 d)

  pub drop_while-Stops : (xs : List A) → Stops p xs → drop_while p xs ≡ xs
  drop_while-Stops xs h = (take_while-split [] xs tt h).1

module _ {ℓ} {A : Type ℓ} (p : A → Bool) where
  pub All-reverse : (xs : List A) → All p xs → All p (reverse xs)
  All-reverse [] a = tt
  All-reverse (x ∷ xs) a =
      rw (reverse-append (x ∷ []) xs)
        (All-append p (reverse xs) (x ∷ []) (All-reverse xs a.1) (a.0, tt))

  pub all_of_iff : (xs : List A) → (all_of p xs ≡ true) ↔ All p xs
  unfolding all_of
  all_of_iff [] = (λ _. tt, λ _. refl)
  all_of_iff (x ∷ xs) =
      (λ h. (ground arith, (all_of_iff xs).0 (ground arith)), λ a. rw a.0 ((all_of_iff xs).1 a.1))

pub length-reverse {ℓ} : {A : Type ℓ} (xs : List A) → length (reverse xs) ≡ length xs
length-reverse [] = refl
length-reverse (x ∷ xs) =
    rw (reverse-append (x ∷ []) xs)
      (omega (arith, length-append (reverse xs) (x ∷ []), length-reverse xs))

-- The two parts of a concatenation.
module _ {ℓ} {A : Type ℓ} where
  pub take-length : (xs ys : List A) (n : ℕ) → n ≡ length xs → take n (xs ++ ys) ≡ xs
  take-length [] ys n e = rw e
  take-length (x ∷ xs) ys zero e = absurd (omega arith)
  take-length (x ∷ xs) ys (suc n) e = ap (◌∷◌ x) (take-length xs ys n (omega arith))

  pub drop-length : (xs ys : List A) (n m : ℕ) → n ≡ length xs + m → drop n (xs ++ ys) ≡ drop m ys
  drop-length [] ys n m e = let e' : n ≡ m = omega arith in rw e'
  drop-length (x ∷ xs) ys zero m e = absurd (omega arith)
  drop-length (x ∷ xs) ys (suc n) m e = drop-length xs ys n m (omega arith)

-- Equality of two strings.
unfoldable pub equal : List ℕ → List ℕ → Bool
equal [] [] = true
equal (x ∷ xs) (y ∷ ys) = x == y && equal xs ys
equal [] (y ∷ ys) = false
equal (x ∷ xs) [] = false

-- Whether the first string begins the second.
unfoldable pub is_prefix : List ℕ → List ℕ → Bool
is_prefix [] s = true
is_prefix (p ∷ ps) [] = false
is_prefix (p ∷ ps) (c ∷ s) = p == c && is_prefix ps s

-- Whether a character is one of the set's: `set.find(c) != npos`.
unfoldable pub one_of : List ℕ → ℕ → Bool
one_of [] c = false
one_of (d ∷ ds) c = c == d || one_of ds c

-- `s.find(sub)`: the first index at which `sub` stands in `s`.
unfoldable pub find_sub : List ℕ → List ℕ → Option ℕ
unfolding is_prefix
find_sub sub [] = if is_prefix sub [] then some 0 else none
find_sub sub (c ∷ s) =
    let later = find_sub sub s in
    if is_prefix sub (c ∷ s) then some 0 else elim later [ none ↦ none | some i ↦ some (i + 1) ]

pub equal_iff : (a b : List ℕ) → (equal a b ≡ true) ↔ (a ≡ b)
unfolding equal
equal_iff [] [] = ground arith
equal_iff [] (y ∷ b) = ground arith
equal_iff (x ∷ a) [] = ground arith
equal_iff (x ∷ a) (y ∷ b) = ground (arith, equal_iff a b)

module _ {ℓ} {A : Type ℓ} where
  pub get_elem?-append :
      (xs ys : List A) (y : A) (n : ℕ) → n ≡ length xs → get_elem? (xs ++ y ∷ ys) n ≡ some y
  get_elem?-append [] ys y zero e = refl
  get_elem?-append [] ys y (suc n) e = absurd (omega arith)
  get_elem?-append (x ∷ xs) ys y zero e = absurd (omega arith)
  get_elem?-append (x ∷ xs) ys y (suc n) e = get_elem?-append xs ys y n (omega arith)

  -- A list that is not empty, seen from its end.
  pub snoc_view : (x : A) (xs : List A) → (front : List A) × (y : A) × (x ∷ xs ≡ front ++ y ∷ [])
  snoc_view x [] = ([], x, refl)
  snoc_view x (z ∷ xs) = let (front, y, e) = snoc_view z xs in (x ∷ front, y, ap (◌∷◌ x) e)

  -- Where `find_if` stops.
  pub find_if-some :
      (p : A → Bool) (s : List A) (i : ℕ)
      → find_if p s ≡ some i
      → (front : List A) × (c : A) × (rest : List A) × (s ≡ front ++ c ∷ rest)
        × (length front ≡ i)
        × All (λ x. not (p x)) front
        × (p c ≡ true)
  unfolding find_if
  find_if-some p [] i e = absurd (cc)
  find_if-some p (x ∷ s) i e = elim (Bool-cases (p x)) [
    | inl h ↦ ([], x, s, refl, ground arith, tt, h)
    | inr h ↦ elim (Option-cases (find_if p s)) [
      | inl n ↦ absurd (ground arith)
      | inr (j, f) ↦
          let (front, c, rest, whole, size, a, pc) = find_if-some p s j f in
          (x ∷ front, c, rest, ap (◌∷◌ x) whole, ground (arith, size), (rw h, a), pc)
    ]
  ]
