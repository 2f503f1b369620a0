-- ===== src/ProcessString/Splicing.antt =====
-- spliceString of parse_config/ProcessString.hpp against Split of string_helper/StringHelper.hpp.
use c_plus_plus.Prelude.{
  ℕ, zero, suc, ◌+◌, ◌-◌, ◌≤◌, ◌<◌, ◌≡◌, refl, sym, ap, ◌∙◌, inl, inr, true, none, some, List, [],
  ◌∷◌, ◌++◌, arith, Bool-cases, length, drop, length-drop,
}
use c_plus_plus.Prelude.Chars.{Bytes}
use c_plus_plus.Prelude.Find.{take_while, drop_while, one_of}
use c_plus_plus.StringHelper.Split.{is_plain, split_loop, split}
use c_plus_plus.StringHelper.Split.Tokens.{length-drop_while, Starts-skip}
use c_plus_plus.ProcessString.{strtok, splice_loop, splice_string}

module _ (separators : Bytes) where
  abbrev skip : Bytes → Bytes
  skip s = drop_while (one_of separators) s

  abbrev later : Bytes → Bytes
  later s = drop_while (is_plain separators) s

  strtok-none : (s : Bytes) → skip s ≡ [] → strtok separators s ≡ none
  unfolding strtok
  strtok-none s e = rw (e, strtok)

  strtok-some :
      (s : Bytes) (c : ℕ) (t : Bytes)
      → skip s ≡ c ∷ t
      → strtok separators s
        ≡ some (take_while (is_plain separators) (c ∷ t), drop 1 (later (c ∷ t)))
  unfolding strtok
  strtok-some s c t e = rw (e, strtok)

  -- The delimiter that `strtok` overwrites is one that the next call would skip.
  skip-drop : (s : Bytes) → skip (drop 1 (later s)) ≡ skip (later s)
  unfolding drop_while
  skip-drop [] = refl
  skip-drop (c ∷ s) = elim (Bool-cases (one_of separators c)) [
    | inl h ↦ rw (h, drop_while) (rw (h, drop_while))
    | inr h ↦ rw (h, drop_while) (skip-drop s)
  ]

  split_loop-nil : (k : ℕ) → split_loop k separators [] ≡ []
  unfolding split_loop
  split_loop-nil zero = refl
  split_loop-nil (suc k) = refl

  rest_shorter :
      (c : ℕ) (t : Bytes)
      → is_plain separators c ≡ true
      → length (drop 1 (later (c ∷ t))) ≤ length t
  unfolding drop_while
  rest_shorter c t h =
      rw h (
        omega
          (arith, length-drop 1 (later t), length-drop_while separators (is_plain separators) t))

  plain_start : (s : Bytes) (c : ℕ) (t : Bytes) → skip s ≡ c ∷ t → is_plain separators c ≡ true
  plain_start s c t e = rw e at (Starts-skip separators s)

  splice_loop-none : (fuel : ℕ) → splice_loop (suc fuel) separators none ≡ []
  unfolding splice_loop
  splice_loop-none fuel = refl

  splice_loop-some :
      (fuel : ℕ) (token rest : Bytes)
      → splice_loop (suc fuel) separators (some (token, rest))
        ≡ token ∷ splice_loop fuel separators (strtok separators rest)
  unfolding splice_loop
  splice_loop-some fuel token rest = refl

  split_loop-cons :
      (k c : ℕ) (t : Bytes)
      → take_while (is_plain separators) (c ∷ t) ∷ split_loop k separators (skip (later (c ∷ t)))
        ≡ split_loop (suc k) separators (c ∷ t)
  unfolding split_loop
  split_loop-cons k c t = refl

  splice_loop-split_loop :
      (fuel k : ℕ) (s : Bytes)
      → length s < fuel
      → length s ≤ k
      → splice_loop fuel separators (strtok separators s) ≡ split_loop k separators (skip s)
  splice_loop-split_loop zero k s f g = absurd (omega arith)
  splice_loop-split_loop (suc fuel) k s f g =
      go k (skip s) refl g
        (λ t lt. splice_loop-split_loop fuel (k - 1) t (omega arith) (omega arith))
    where
      go :
          (k : ℕ) (u : Bytes)
          → skip s ≡ u
          → length s ≤ k
          → ((t : Bytes)
              → length t < length s
              → splice_loop fuel separators (strtok separators t)
                ≡ split_loop (k - 1) separators (skip t))
          → splice_loop (suc fuel) separators (strtok separators s)
            ≡ split_loop k separators (skip s)
      go k [] e g ih =
          ap (splice_loop (suc fuel) separators) (strtok-none s e)
          ∙ splice_loop-none fuel
          ∙ sym (split_loop-nil k)
          ∙ ap (split_loop k separators) (sym e)
      go zero (c ∷ t) e g ih =
          absurd (omega (arith, length-drop_while separators (one_of separators) s, ap length e))
      go (suc k) (c ∷ t) e g ih =
          let size = ap length e in
          let shorter = rest_shorter c t (plain_start s c t e) in
          let le = length-drop_while separators (one_of separators) s in
          let e' : suc k - 1 ≡ k = omega arith in
          let step = rw e' at (ih (drop 1 (later (c ∷ t))) (omega (arith, size, shorter, le))) in
          ap (splice_loop (suc fuel) separators) (strtok-some s c t e)
          ∙ splice_loop-some fuel (take_while (is_plain separators) (c ∷ t))
              (drop 1 (later (c ∷ t)))
          ∙ ap (◌∷◌ (take_while (is_plain separators) (c ∷ t)))
              (step ∙ ap (split_loop k separators) (skip-drop (c ∷ t)))
          ∙ split_loop-cons k c t
          ∙ ap (split_loop (suc k) separators) (sym e)

  -- `spliceString` appends exactly the tokens that `Split` of the other component returns.
  pub splice_string-split :
      (str : Bytes) (sub_strings : List Bytes)
      → splice_string str sub_strings separators ≡ sub_strings ++ split str separators
  unfolding splice_string split
  splice_string-split str sub_strings =
      ap (◌++◌ sub_strings)
        (splice_loop-split_loop (length str + 1) (length str) str (omega arith) (omega arith))
