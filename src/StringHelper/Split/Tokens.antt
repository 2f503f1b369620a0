-- ===== src/StringHelper/Split/Tokens.antt =====
-- Split, Join and ExtractNum of string_helper/StringHelper.hpp.
pub mod RoundTrip
pub mod Numbers
use c_plus_plus.Prelude.{
  ℕ, zero, suc, ◌+◌, ◌-◌, ◌/◌, ◌≤◌, ◌≡◌, refl, sym, ap, ◌∙◌, inl, inr, Bool, true, not, List, [],
  ◌∷◌, ◌++◌, arith, if◌then◌else◌, Bool-cases, length, take, drop, length-drop, concat,
}
use c_plus_plus.Prelude.Chars.{Bytes}
use c_plus_plus.Prelude.Find.{take_while, drop_while, All, take_while-All, one_of}
use c_plus_plus.StringHelper.Split.{
  join_from, join, is_plain, split_loop, split, to_num, extract_loop, extract_num,
}

-- A token: not empty, and free of delimiters.
abbrev pub IsToken : Bytes → Bytes → Type 0
IsToken delims [] = ⊥
IsToken delims (c ∷ s) = All (is_plain delims) (c ∷ s)

abbrev pub AreTokens : Bytes → List Bytes → Type 0
AreTokens delims [] = Unit
AreTokens delims (t ∷ ts) = IsToken delims t × AreTokens delims ts

-- The characters of a string that are no delimiters.
abbrev pub plain_part : Bytes → Bytes → Bytes
plain_part delims [] = []
plain_part delims (c ∷ s) = if one_of delims c then plain_part delims s else c ∷ plain_part delims s

module _ (delims : Bytes) where
  pub length-drop_while : (p : ℕ → Bool) (s : Bytes) → length (drop_while p s) ≤ length s
  unfolding drop_while
  length-drop_while p [] = omega arith
  length-drop_while p (c ∷ s) = ground (arith, length-drop_while p s)

  plain_part-skip :
      (s : Bytes) → plain_part delims (drop_while (one_of delims) s) ≡ plain_part delims s
  unfolding drop_while
  plain_part-skip [] = refl
  plain_part-skip (c ∷ s) = ground (arith, plain_part-skip s)

  plain_part-token :
      (s : Bytes)
      → plain_part delims s
        ≡ take_while (is_plain delims) s ++ plain_part delims (drop_while (is_plain delims) s)
  unfolding take_while drop_while
  plain_part-token [] = refl
  plain_part-token (c ∷ s) = ground (arith, plain_part-token s)

  -- A suffix at which a token starts, or the end.
  abbrev pub Starts : Bytes → Type 0
  Starts [] = Unit
  Starts (c ∷ s) = is_plain delims c ≡ true

  pub Starts-skip : (s : Bytes) → Starts (drop_while (one_of delims) s)
  unfolding drop_while
  Starts-skip [] = tt
  Starts-skip (c ∷ s) = elim (Bool-cases (one_of delims c)) [
    | inl h ↦ rw (h, drop_while) (Starts-skip s)
    | inr h ↦ rw (h, drop_while) (rw h)
  ]

  IsToken-take_while :
      (c : ℕ) (s : Bytes)
      → is_plain delims c ≡ true
      → IsToken delims (take_while (is_plain delims) (c ∷ s))
  unfolding take_while
  IsToken-take_while c s h = rw h (h, take_while-All (is_plain delims) s)

  pub skip_shorter :
      (c : ℕ) (s : Bytes)
      → is_plain delims c ≡ true
      → length (drop_while (one_of delims) (drop_while (is_plain delims) (c ∷ s))) ≤ length s
  unfolding drop_while
  skip_shorter c s h = rw h (
      omega (
        arith,
        length-drop_while (one_of delims) (drop_while (is_plain delims) s),
        length-drop_while (is_plain delims) s,
      ))

  split_loop_lem :
      (fuel : ℕ) (s : Bytes)
      → Starts s
      → length s ≤ fuel
      → AreTokens delims (split_loop fuel delims s)
        × (concat (split_loop fuel delims s) ≡ plain_part delims s)
  unfolding split_loop
  split_loop_lem zero [] h f = (tt, refl)
  split_loop_lem zero (c ∷ s) h f = absurd (omega arith)
  split_loop_lem (suc fuel) [] h f = (tt, refl)
  split_loop_lem (suc fuel) (c ∷ s) h f =
      let later = drop_while (is_plain delims) (c ∷ s) in
      let ih =
        split_loop_lem fuel (drop_while (one_of delims) later) (Starts-skip later)
          (omega (arith, skip_shorter c s h)) in
      (
        (IsToken-take_while c s h, ih.0),
        ap (◌++◌ (take_while (is_plain delims) (c ∷ s))) (ih.1 ∙ plain_part-skip later)
            ∙ sym (plain_part-token (c ∷ s)),
      )

  -- `Split` returns tokens only, and in order they hold every character that is no delimiter.
  pub split_lem :
      (str : Bytes)
      → AreTokens delims (split str delims) × (concat (split str delims) ≡ plain_part delims str)
  unfolding split
  split_lem str =
      let skipped = drop_while (one_of delims) str in
      let h =
        split_loop_lem (length str) skipped (Starts-skip str)
          (length-drop_while (one_of delims) str) in
      (h.0, h.1 ∙ plain_part-skip str)
