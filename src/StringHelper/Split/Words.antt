-- ===== src/StringHelper/Split/Words.antt =====
-- SplitCamelCase of string_helper/StringHelper.hpp.
use c_plus_plus.Prelude.{
  ℕ, ◌≡◌, refl, ap, ◌∙◌, inl, inr, true, false, not, List, [], ◌∷◌, ◌++◌, append-nil, append_assoc,
  Bool-cases, concat,
}
use c_plus_plus.Prelude.Chars.{Bytes, isupper}
use c_plus_plus.Prelude.Find.{All, All-append}
use c_plus_plus.StringHelper.Split.{split_camel_from, split_camel_case}

-- A word: at least one character, and no capital behind the first.
abbrev pub IsWord : Bytes → Type 0
IsWord [] = ⊥
IsWord (c ∷ s) = All (λ x. not (isupper x)) s

abbrev pub AreWords : List Bytes → Type 0
AreWords [] = Unit
AreWords (w ∷ ws) = IsWord w × AreWords ws

-- A piece can be extended by such a character.
abbrev Open : Bytes → ℕ → Type 0
Open [] c = Unit
Open (x ∷ s) c = All (λ y. not (isupper y)) s × (isupper c ≡ false)

IsWord-extend : (sub : Bytes) (c : ℕ) → Open sub c → IsWord (sub ++ c ∷ [])
IsWord-extend [] c h = tt
IsWord-extend (x ∷ s) c h = All-append (λ y. not (isupper y)) s (c ∷ []) h.0 (rw h.1, tt)

Open-extend : (sub : Bytes) (c d : ℕ) → Open sub c → isupper d ≡ false → Open (sub ++ c ∷ []) d
Open-extend [] c d h e = (tt, e)
Open-extend (x ∷ s) c d h e = (All-append (λ y. not (isupper y)) s (c ∷ []) h.0 (rw h.1, tt), e)

split_camel_from-upper :
    (sub : Bytes) (c d : ℕ) (s : Bytes)
    → isupper d ≡ true
    → split_camel_from sub (c ∷ d ∷ s) ≡ (sub ++ c ∷ []) ∷ split_camel_from [] (d ∷ s)
unfolding split_camel_from
split_camel_from-upper sub c d s u = rw (u, split_camel_from)

split_camel_from-other :
    (sub : Bytes) (c d : ℕ) (s : Bytes)
    → isupper d ≡ false
    → split_camel_from sub (c ∷ d ∷ s) ≡ split_camel_from (sub ++ c ∷ []) (d ∷ s)
unfolding split_camel_from
split_camel_from-other sub c d s u = rw (u, split_camel_from)

split_camel_from_lem :
    (sub : Bytes) (c : ℕ) (s : Bytes)
    → Open sub c
    → (concat (split_camel_from sub (c ∷ s)) ≡ sub ++ c ∷ s)
      × AreWords (split_camel_from sub (c ∷ s))
split_camel_from_lem sub c [] h =
    unfold split_camel_from in (append-nil (sub ++ c ∷ []), (IsWord-extend sub c h, tt))
split_camel_from_lem sub c (d ∷ s) h = elim (Bool-cases (isupper d)) [
  | inl u ↦
      let ih = split_camel_from_lem [] d s tt in
      rw (split_camel_from-upper sub c d s u) (
        ap (◌++◌ (sub ++ c ∷ [])) ih.0 ∙ append_assoc sub (c ∷ []) (d ∷ s),
        (IsWord-extend sub c h, ih.1),
      )
  | inr u ↦
      let ih = split_camel_from_lem (sub ++ c ∷ []) d s (Open-extend sub c d h u) in
      rw (split_camel_from-other sub c d s u) (ih.0 ∙ append_assoc sub (c ∷ []) (d ∷ s), ih.1)
]

-- `SplitCamelCase` cuts a string into words, and nothing is lost: joined they are the string.
pub split_camel_case_lem :
    (str : Bytes) → (concat (split_camel_case str) ≡ str) × AreWords (split_camel_case str)
unfolding split_camel_case
split_camel_case_lem [] = unfold split_camel_from in (refl, tt)
split_camel_case_lem (c ∷ s) = split_camel_from_lem [] c s tt
