-- ===== src/Algorithm/Passes.antt =====
-- The passes of shellSort_Ascend of algorithm/Algorithm.ipp permute the array.
use c_plus_plus.Prelude.{
  get_elem?-set_self, ℕ, zero, suc, ◌+◌, ◌-◌, ◌≤◌, ◌<◌, ◌≡◌, refl, sym, ap, ◌≢◌, inl, inr, Bool,
  true, false, none, some, List, [], ◌∷◌, arith, leb, leb→le, Bool-cases, Option-cases, length,
  get_elem?, set, length-set,
}
use c_plus_plus.Algorithm.{shift_back, shell_pass}
use c_plus_plus.Algorithm.Order.{same}
use c_plus_plus.Algorithm.Selection.{set-Permᴰ}
use mathlib.Core.List.Permᴰ
use mathlib.Core.List.{Permᴰ}
use mathlib.Core.Option.{none-ne-some, some-injective}

module _ {T : Type 0} where
  set-set : (xs : List T) (i : ℕ) (x y : T) → set (set xs i x) i y ≡ set xs i y
  set-set [] i x y = refl
  set-set (z ∷ xs) zero x y = refl
  set-set (z ∷ xs) (suc i) x y = ap (λ l. z ∷ l) (set-set xs i x y)

  set_back : (xs : List T) (i : ℕ) (x : T) → get_elem? xs i ≡ some x → set xs i x ≡ xs
  set_back [] i x e = refl
  set_back (z ∷ xs) zero x e = ap (λ t. t ∷ xs) (sym (some-injective z x e))
  set_back (z ∷ xs) (suc i) x e = ap (λ l. z ∷ l) (set_back xs i x e)

  -- A write at one place and then at another, where the first element came from, exchanges the two.
  move-Permᴰ :
      (xs : List T) (i j : ℕ) (x e : T)
      → i ≢ j
      → i < length xs
      → get_elem? xs j ≡ some x
      → Permᴰ (set (set xs i x) j e) (set xs i e)
  move-Permᴰ [] i j x e n l h = Permᴰ.refl []
  move-Permᴰ (z ∷ xs) zero zero x e n l h = absurd (n refl)
  move-Permᴰ (z ∷ xs) zero (suc j) x e n l h = set-Permᴰ xs j x e h
  move-Permᴰ (z ∷ xs) (suc i) zero x e n l h =
      Permᴰ.trans (same (ap (λ l. e ∷ l) (sym (set-set xs i e x)))) (
        Permᴰ.trans (set-Permᴰ (set xs i e) i e x (get_elem?-set_self xs i e (omega arith)))
          (Permᴰ.cons (sym (some-injective z x h)) (Permᴰ.refl (set xs i e))))
  move-Permᴰ (z ∷ xs) (suc i) (suc j) x e n l h =
      Permᴰ.cons refl (move-Permᴰ xs i j x e (λ q. n (ap suc q)) (omega arith) h)

  get_elem?-in : (xs : List T) (i : ℕ) (x : T) → get_elem? xs i ≡ some x → i < length xs
  get_elem?-in [] i x h = absurd (none-ne-some x h)
  get_elem?-in (z ∷ xs) zero x h = omega arith
  get_elem?-in (z ∷ xs) (suc i) x h = omega (arith, get_elem?-in xs i x h)

module _ {T : Type 0} (lt : T → T → Bool) where
  -- One round of the innermost loop.
  pub shift_back-ends :
      (fuel gap place : ℕ) (e : T) (array : List T)
      → leb gap place ≡ false
      → shift_back lt (suc fuel) gap e place array ≡ set array place e
  unfolding shift_back
  shift_back-ends fuel gap place e array h = rw (h, shift_back)

  pub shift_back-moves :
      (fuel gap place : ℕ) (e x : T) (array : List T)
      → leb gap place ≡ true
      → get_elem? array (place - gap) ≡ some x
      → lt e x ≡ true
      → shift_back lt (suc fuel) gap e place array
        ≡ shift_back lt fuel gap e (place - gap) (set array place x)
  unfolding shift_back
  shift_back-moves fuel gap place e x array h g t = rw (h, g, t, shift_back)

  pub shift_back-stops :
      (fuel gap place : ℕ) (e x : T) (array : List T)
      → leb gap place ≡ true
      → get_elem? array (place - gap) ≡ some x
      → lt e x ≡ false
      → shift_back lt (suc fuel) gap e place array ≡ set array place e
  unfolding shift_back
  shift_back-stops fuel gap place e x array h g t = rw (h, g, t, shift_back)

  shift_back-none :
      (fuel gap place : ℕ) (e : T) (array : List T)
      → leb gap place ≡ true
      → get_elem? array (place - gap) ≡ none
      → shift_back lt (suc fuel) gap e place array ≡ array
  unfolding shift_back
  shift_back-none fuel gap place e array h g = rw (h, g, shift_back)

  pub get_elem?-none : (xs : List T) (i : ℕ) → get_elem? xs i ≡ none → length xs ≤ i
  get_elem?-none [] i h = omega arith
  get_elem?-none (x ∷ xs) zero h = absurd (none-ne-some x (sym h))
  get_elem?-none (x ∷ xs) (suc i) h = omega (arith, get_elem?-none xs i h)

  -- The loop stores the element where it stops, and permutes what is there with it.
  shift_back-Permᴰ :
      (fuel gap place : ℕ) (e : T) (array : List T)
      → 1 ≤ gap
      → place < length array
      → Permᴰ (shift_back lt fuel gap e place array) (set array place e)
  unfolding shift_back
  shift_back-Permᴰ zero gap place e array p l = Permᴰ.refl (set array place e)
  shift_back-Permᴰ (suc fuel) gap place e array p l = elim (Bool-cases (leb gap place)) [
    | inr h ↦ same (shift_back-ends fuel gap place e array h)
    | inl h ↦ elim (Option-cases (get_elem? array (place - gap))) [
      | inl g ↦ absurd (omega (arith, get_elem?-none array (place - gap) g))
      | inr (x, g) ↦
          let next =
            shift_back-Permᴰ fuel gap (place - gap) e (set array place x) p
              (omega (arith, length-set array place x)) in
          elim (Bool-cases (lt e x)) [
            | inl t ↦ Permᴰ.trans (same (shift_back-moves fuel gap place e x array h g t)) (
                Permᴰ.trans next (
                  move-Permᴰ array place (place - gap) x e (λ q. omega (arith, leb→le gap place h))
                    l g))
            | inr f ↦ same (shift_back-stops fuel gap place e x array h g f)
          ]
    ]
  ]

  pub shell_pass-goes :
      (count gap i : ℕ) (e : T) (array : List T)
      → get_elem? array i ≡ some e
      → shell_pass lt (suc count) gap i array
        ≡ shell_pass lt count gap (i + 1) (shift_back lt i gap e i array)
  unfolding shell_pass
  shell_pass-goes count gap i e array h = rw (h, shell_pass)

  shell_pass-none :
      (count gap i : ℕ) (array : List T)
      → get_elem? array i ≡ none
      → shell_pass lt (suc count) gap i array ≡ array
  unfolding shell_pass
  shell_pass-none count gap i array h = rw (h, shell_pass)

  -- A pass with any gap permutes the array.
  pub shell_pass-Permᴰ :
      (count gap i : ℕ) (array : List T) → 1 ≤ gap → Permᴰ (shell_pass lt count gap i array) array
  unfolding shell_pass
  shell_pass-Permᴰ zero gap i array p = Permᴰ.refl array
  shell_pass-Permᴰ (suc count) gap i array p = elim (Option-cases (get_elem? array i)) [
    | inl h ↦ same (shell_pass-none count gap i array h)
    | inr (e, h) ↦
        let shifted = shift_back-Permᴰ i gap i e array p (get_elem?-in array i e h) in
        Permᴰ.trans (same (shell_pass-goes count gap i e array h)) (
          Permᴰ.trans (shell_pass-Permᴰ count gap (i + 1) (shift_back lt i gap e i array) p)
            (Permᴰ.trans shifted (same (set_back array i e h))))
  ]
