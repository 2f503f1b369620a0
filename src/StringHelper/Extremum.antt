-- ===== src/StringHelper/Extremum.antt =====
-- Max and Min of string_helper/StringHelper.hpp, in the order of the signed `char`.
-- `std::range_error` is `none`.
use c_plus_plus.Prelude.{
  ℕ, ◌≡◌, refl, ◌⊎◌, inl, inr, Bool, true, false, not, Option, none, some, [], ◌∷◌, arith,
  if◌then◌else◌, Bool-cases,
}
use c_plus_plus.Prelude.Chars.{Bytes, char_ltb}
use c_plus_plus.Prelude.Find.{All}
use mathlib.Core.Path.{subst⁻¹}

max_from : ℕ → Bytes → ℕ
max_from max_char [] = max_char
max_from max_char (e ∷ s) = max_from (if char_ltb max_char e then e else max_char) s

-- `Max`
pub max_char : Bytes → Option ℕ
max_char [] = none
max_char (c ∷ s) = some (max_from c (c ∷ s))

min_from : ℕ → Bytes → ℕ
min_from min_char [] = min_char
min_from min_char (e ∷ s) = min_from (if char_ltb e min_char then e else min_char) s

-- `Min`
pub min_char : Bytes → Option ℕ
min_char [] = none
min_char (c ∷ s) = some (min_from c (c ∷ s))

-- `a` is one of the elements.
abbrev pub IsIn : ℕ → Bytes → Type 0
IsIn a [] = ⊥
IsIn a (x ∷ s) = (a ≡ x) ⊎ IsIn a s

char_ltb_irrefl : (a : ℕ) → char_ltb a a ≡ false
unfolding char_ltb
char_ltb_irrefl a = ground arith

char_ltb_asym : (a b : ℕ) → char_ltb a b ≡ true → char_ltb b a ≡ false
unfolding char_ltb
char_ltb_asym a b h = ground arith

char_ltb_trans : (a b c : ℕ) → char_ltb a b ≡ false → char_ltb b c ≡ false → char_ltb a c ≡ false
unfolding char_ltb
char_ltb_trans a b c h k = ground arith

-- `r` is `m` or in `s`, and is below neither `m` nor any element of `s`.
abbrev Best : (ℕ → ℕ → Bool) → ℕ → ℕ → Bytes → Type 0
Best below r m s = ((r ≡ m) ⊎ IsIn r s) × (below r m ≡ false) × All (λ e. not (below r e)) s

module _ (below : ℕ → ℕ → Bool) where
  Best-new :
      ((a b : ℕ) → below a b ≡ true → below b a ≡ false)
      → ((a b c : ℕ) → below a b ≡ false → below b c ≡ false → below a c ≡ false)
      → (r m e : ℕ) (s : Bytes) → below m e ≡ true
      → Best below r e s
      → Best below r m (e ∷ s)
  Best-new asym trans r m e s h b = (inr b.0, trans r e m b.1 (asym m e h), (rw b.1, b.2))

  Best-keep :
      ((a b c : ℕ) → below a b ≡ false → below b c ≡ false → below a c ≡ false)
      → (r m e : ℕ) (s : Bytes) → below m e ≡ false
      → Best below r m s
      → Best below r m (e ∷ s)
  Best-keep trans r m e s h b =
      (elim b.0 [ inl q ↦ inl q | inr q ↦ inr (inr q) ], b.1, (rw (trans r m e b.1 h), b.2))

abbrev lt : ℕ → ℕ → Bool
lt = char_ltb

abbrev gt : ℕ → ℕ → Bool
gt a b = char_ltb b a

max_from-Best : (m : ℕ) (s : Bytes) → Best lt (max_from m s) m s
max_from-Best m [] = unfold max_from in (inl refl, char_ltb_irrefl m, tt)
max_from-Best m (e ∷ s) = elim (Bool-cases (char_ltb m e)) [
  | inl h ↦
      let q : max_from m (e ∷ s) ≡ max_from e s = unfold max_from in rw h in
      subst⁻¹ (λ r. Best lt r m (e ∷ s)) q
        (Best-new lt char_ltb_asym char_ltb_trans (max_from e s) m e s h (max_from-Best e s))
  | inr h ↦
      let q : max_from m (e ∷ s) ≡ max_from m s = unfold max_from in rw h in
      subst⁻¹ (λ r. Best lt r m (e ∷ s)) q
        (Best-keep lt char_ltb_trans (max_from m s) m e s h (max_from-Best m s))
]

min_from-Best : (m : ℕ) (s : Bytes) → Best gt (min_from m s) m s
min_from-Best m [] = unfold min_from in (inl refl, char_ltb_irrefl m, tt)
min_from-Best m (e ∷ s) = elim (Bool-cases (char_ltb e m)) [
  | inl h ↦
      let q : min_from m (e ∷ s) ≡ min_from e s = unfold min_from in rw h in
      subst⁻¹ (λ r. Best gt r m (e ∷ s)) q
        (Best-new gt (λ a b. char_ltb_asym b a) (λ a b c k l. char_ltb_trans c b a l k)
          (min_from e s) m e s h (min_from-Best e s))
  | inr h ↦
      let q : min_from m (e ∷ s) ≡ min_from m s = unfold min_from in rw h in
      subst⁻¹ (λ r. Best gt r m (e ∷ s)) q
        (Best-keep gt (λ a b c k l. char_ltb_trans c b a l k) (min_from m s) m e s h
          (min_from-Best m s))
]

-- `Max` and `Min` return a character of the string that no character of it exceeds, or falls below;
-- they throw for the empty string.
pub extremum_lem :
    (c : ℕ) (s : Bytes)
    → ((m : ℕ) × (max_char (c ∷ s) ≡ some m)
        × IsIn m (c ∷ s)
        × All (λ e. not (char_ltb m e)) (c ∷ s))
      × ((m : ℕ) × (min_char (c ∷ s) ≡ some m)
          × IsIn m (c ∷ s)
          × All (λ e. not (char_ltb e m)) (c ∷ s))
      × (max_char [] ≡ none)
      × (min_char [] ≡ none)
unfolding max_char min_char
extremum_lem c s =
    let u = max_from-Best c (c ∷ s) in
    let d = min_from-Best c (c ∷ s) in
    (
      (max_from c (c ∷ s), refl, elim u.0 [ inl e ↦ inl e | inr h ↦ h ], u.2),
      (min_from c (c ∷ s), refl, elim d.0 [ inl e ↦ inl e | inr h ↦ h ], d.2),
      refl,
      refl,
    )
