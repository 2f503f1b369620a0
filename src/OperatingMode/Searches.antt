-- ===== src/OperatingMode/Searches.antt =====
-- Searches for a text with a first character that stands nowhere in front of it.
use c_plus_plus.Prelude.{
  ℕ, zero, suc, ◌+◌, ◌≡◌, refl, sym, ap, ap₂, ◌∙◌, ◌⊎◌, inl, inr, Bool, true, false, not, ◌&&◌,
  Option, none, some, [], ◌∷◌, ◌++◌, arith, ◌==◌, if◌then◌else◌, ==_iff, Option-cases, Bool-ne,
  length, take, drop,
}
use c_plus_plus.Prelude.Chars.{Bytes}
use c_plus_plus.Prelude.Find.{All, is_prefix, find_sub, take-length, drop-length, not-true}
use c_plus_plus.OperatingMode.{cut_at}
use mathlib.Core.Option.{some-injective, none-ne-some}
use mathlib.Core.Path.{subst, subst⁻¹}

abbrev pub Lacks : ℕ → Bytes → Type 0
Lacks x s = All (λ c. not (x == c)) s

pub is_prefix-append : (sub s : Bytes) → is_prefix sub (sub ++ s) ≡ true
unfolding is_prefix
is_prefix-append [] s = refl
is_prefix-append (c ∷ sub) s = ground (arith, is_prefix-append sub s)

is_prefix-other :
    (x c : ℕ) (xs s : Bytes) → not (x == c) ≡ true → is_prefix (x ∷ xs) (c ∷ s) ≡ false
unfolding is_prefix
is_prefix-other x c xs s h = rw (not-true (x == c) h) refl

find_sub-here : (sub s : Bytes) → is_prefix sub s ≡ true → find_sub sub s ≡ some 0
unfolding find_sub
find_sub-here sub [] h = rw h refl
find_sub-here sub (c ∷ s) h = rw h refl

find_sub-past :
    (sub s : Bytes) (c i : ℕ)
    → is_prefix sub (c ∷ s) ≡ false
    → find_sub sub s ≡ some i
    → find_sub sub (c ∷ s) ≡ some (i + 1)
unfolding find_sub
find_sub-past sub s c i h e = rw (h, e) refl

-- The first place is the one behind such a text.
pub find_sub-first :
    (x : ℕ) (xs p s : Bytes) → Lacks x p → find_sub (x ∷ xs) (p ++ (x ∷ xs ++ s)) ≡ some (length p)
find_sub-first x xs [] s a = find_sub-here (x ∷ xs) (x ∷ xs ++ s) (is_prefix-append (x ∷ xs) s)
find_sub-first x xs (c ∷ p) s a =
    find_sub-past (x ∷ xs) (p ++ (x ∷ xs ++ s)) c (length p)
      (is_prefix-other x c xs (p ++ (x ∷ xs ++ s)) a.0) (find_sub-first x xs p s a.1)
    ∙ ap some (omega arith)

pub find_sub-none : (x : ℕ) (xs s : Bytes) → Lacks x s → find_sub (x ∷ xs) s ≡ none
unfolding find_sub is_prefix
find_sub-none x xs [] a = refl
find_sub-none x xs (c ∷ s) a = rw (not-true (x == c) a.0, find_sub-none x xs s a.1) refl

cut_at-no : (sub s : Bytes) → find_sub sub s ≡ none → cut_at sub s ≡ none
unfolding cut_at
cut_at-no sub s h = rw (h, cut_at) refl

cut_at-some :
    (sub s : Bytes) (i : ℕ)
    → find_sub sub s ≡ some i
    → cut_at sub s ≡ some (take i s, drop (i + length sub) s)
unfolding cut_at
cut_at-some sub s i h = rw (h, cut_at) refl

pub cut_at-first :
    (x : ℕ) (xs p s : Bytes) → Lacks x p → cut_at (x ∷ xs) (p ++ (x ∷ xs ++ s)) ≡ some (p, s)
cut_at-first x xs p s a =
    cut_at-some (x ∷ xs) (p ++ (x ∷ xs ++ s)) (length p) (find_sub-first x xs p s a)
    ∙ ap₂ (λ l r. some (l, r)) (take-length p (x ∷ xs ++ s) (length p) refl)
        (drop-length p (x ∷ xs ++ s) (length p + length (x ∷ xs)) (length (x ∷ xs)) refl
          ∙ drop-length (x ∷ xs) s (length (x ∷ xs)) 0 (omega arith))

pub cut_at-none : (x : ℕ) (xs s : Bytes) → Lacks x s → cut_at (x ∷ xs) s ≡ none
unfolding cut_at
cut_at-none x xs s a = rw (find_sub-none x xs s a, cut_at) refl

is_prefix-split : (sub s : Bytes) → is_prefix sub s ≡ true → sub ++ drop (length sub) s ≡ s
unfolding is_prefix
is_prefix-split [] s h = refl
is_prefix-split (x ∷ sub) [] h = Bool-ne h refl
is_prefix-split (x ∷ sub) (c ∷ s) h =
    let both = parts (x == c) (is_prefix sub s) h in
    ap₂ (λ a l. a ∷ l) ((==_iff x c).0 both.0) (is_prefix-split sub s both.1)
  where
    parts : (a b : Bool) → a && b ≡ true → (a ≡ true) × (b ≡ true)
    parts a b h = (ground arith, ground arith)

find_sub-cases :
    (sub s : Bytes) (c i : ℕ)
    → find_sub sub (c ∷ s) ≡ some i
    → ((i ≡ 0) × (is_prefix sub (c ∷ s) ≡ true))
      ⊎ ((j : ℕ) × ((find_sub sub s ≡ some j) × (i ≡ j + 1)))
unfolding find_sub
find_sub-cases sub s c i e = go (is_prefix sub (c ∷ s)) (find_sub sub s) refl e
  where
    go :
        (b : Bool) (o : Option ℕ)
        → o ≡ find_sub sub s
        → (if b then some 0 else elim o [ none ↦ none | some k ↦ some (k + 1) ]) ≡ some i
        → ((i ≡ 0) × (b ≡ true)) ⊎ ((j : ℕ) × ((find_sub sub s ≡ some j) × (i ≡ j + 1)))
    go true o q e = inl (sym (some-injective 0 i e), refl)
    go false none q e = absurd (none-ne-some i e)
    go false (some k) q e = inr (k, (sym q, sym (some-injective (k + 1) i e)))

drop-nil : (n : ℕ) → drop {A = ℕ} n [] ≡ []
drop-nil zero = refl
drop-nil (suc n) = refl

nothing_in_nil :
    (sub : Bytes) (i : ℕ)
    → find_sub sub [] ≡ some i
    → take i [] ++ (sub ++ drop (i + length sub) []) ≡ []
unfolding find_sub is_prefix
nothing_in_nil [] zero e = drop-nil (0 + 0)
nothing_in_nil [] (suc i) e = drop-nil (suc i + 0)
nothing_in_nil (x ∷ sub) i e = absurd (none-ne-some i e)

find_sub-split :
    (sub s : Bytes) (i : ℕ)
    → find_sub sub s ≡ some i
    → take i s ++ (sub ++ drop (i + length sub) s) ≡ s
find_sub-split sub [] i e = nothing_in_nil sub i e
find_sub-split sub (c ∷ s) i e = elim (find_sub-cases sub s c i e) [
  | inl h ↦
      subst⁻¹ (λ k. take k (c ∷ s) ++ (sub ++ drop (k + length sub) (c ∷ s)) ≡ c ∷ s) h.0
        (ap (λ n. sub ++ drop n (c ∷ s)) (omega arith) ∙ is_prefix-split sub (c ∷ s) h.1)
  | inr (j, (f, q)) ↦
      subst⁻¹ (λ k. take k (c ∷ s) ++ (sub ++ drop (k + length sub) (c ∷ s)) ≡ c ∷ s)
        (q ∙ one_more j)
        (ap (λ n. c ∷ (take j s ++ (sub ++ drop n (c ∷ s)))) (shifted j (length sub))
          ∙ ap (λ l. c ∷ l) (find_sub-split sub s j f))
]
  where
    one_more : (n : ℕ) → n + 1 ≡ suc n
    one_more n = omega arith

    shifted : (a b : ℕ) → suc a + b ≡ suc (a + b)
    shifted a b = omega arith

-- The texts in front of the place and behind it make up the whole.
pub cut_at-joins : (sub s p q : Bytes) → cut_at sub s ≡ some (p, q) → p ++ (sub ++ q) ≡ s
cut_at-joins sub s p q e = elim (Option-cases (find_sub sub s)) [
  | inl h ↦ absurd (none-ne-some (p, q) (sym (cut_at-no sub s h) ∙ e))
  | inr (i, h) ↦
      subst (λ r. r.0 ++ (sub ++ r.1) ≡ s)
        (some-injective (take i s, drop (i + length sub) s) (p, q)
          (sym (cut_at-some sub s i h) ∙ e))
        (find_sub-split sub s i h)
]
