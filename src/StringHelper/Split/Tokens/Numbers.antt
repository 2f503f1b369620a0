-- ===== src/StringHelper/Split/Tokens/Numbers.antt =====
-- ExtractNum of string_helper/StringHelper.hpp is Split, and then ToNum of each token.
use c_plus_plus.Prelude.{
  ℕ, zero, suc, ◌≡◌, refl, inl, inr, Bool, true, ◌||◌, none, some, [], ◌∷◌, map, arith,
  if◌then◌else◌, Bool-cases, length,
}
use c_plus_plus.Prelude.Chars.{Bytes, isdigit}
use c_plus_plus.Prelude.Find.{all_of, take_while, drop_while, All, one_of, all_of_iff}
use c_plus_plus.StringHelper.Classify.{all_and_nonempty, is_digit, is_digit_with_delim}
use c_plus_plus.StringHelper.Split.Tokens.{Starts, Starts-skip}
use c_plus_plus.StringHelper.Split.{is_plain, split_loop, split, to_num, extract_loop, extract_num}

module _ (delims : Bytes) where
  abbrev is_allowed : ℕ → Bool
  is_allowed e = isdigit e || one_of delims e

  All-drop_while : (p : ℕ → Bool) (s : Bytes) → All is_allowed s → All is_allowed (drop_while p s)
  unfolding drop_while
  All-drop_while p [] a = tt
  All-drop_while p (c ∷ s) a = elim (Bool-cases (p c)) [
    | inl h ↦ rw h (All-drop_while p s a.1)
    | inr h ↦ rw h a
  ]

  token_digits :
      (s : Bytes) → All is_allowed s → all_of isdigit (take_while (is_plain delims) s) ≡ true
  unfolding take_while all_of
  token_digits [] a = refl
  token_digits (c ∷ s) a = ground (arith, a.0, token_digits s a.1)

  module _ {T : Type 0} (parse : Bytes → T) where
    to_num-token :
        (c : ℕ) (s : Bytes)
        → is_plain delims c ≡ true
        → All is_allowed (c ∷ s)
        → to_num parse (take_while (is_plain delims) (c ∷ s))
          ≡ some (parse (take_while (is_plain delims) (c ∷ s)))
    unfolding to_num is_digit all_and_nonempty
    to_num-token c s h a =
        let cut : take_while (is_plain delims) (c ∷ s) ≡ c ∷ take_while (is_plain delims) s =
          unfold take_while in rw h in
        let digits = token_digits (c ∷ s) a in rw cut (rw (rw cut at digits))

    extract_loop-split :
        (fuel : ℕ) (s : Bytes)
        → Starts delims s
        → All is_allowed s
        → extract_loop parse fuel delims s ≡ some (map parse (split_loop fuel delims s))
    unfolding extract_loop split_loop
    extract_loop-split zero s h a = refl
    extract_loop-split (suc fuel) [] h a = refl
    extract_loop-split (suc fuel) (c ∷ s) h a =
        let later = drop_while (is_plain delims) (c ∷ s) in
        let ih =
          extract_loop-split fuel (drop_while (one_of delims) later) (Starts-skip delims later)
            (All-drop_while (one_of delims) later (All-drop_while (is_plain delims) (c ∷ s) a)) in
        rw (to_num-token c s h a, ih)

    -- `ExtractNum` throws exactly when the string is empty or has a character that is neither a digit
    -- nor a delimiter; otherwise it is `Split` with the number of each token.
    pub extract_num-split :
        (str : Bytes)
        → extract_num parse str delims
          ≡ (if is_digit_with_delim str delims then some (map parse (split str delims)) else none)
    unfolding extract_num split is_digit_with_delim all_and_nonempty
    extract_num-split [] = refl
    extract_num-split (c ∷ s) = elim (Bool-cases (all_of is_allowed (c ∷ s))) [
      | inl h ↦ rw h (
          extract_loop-split (length (c ∷ s)) (drop_while (one_of delims) (c ∷ s))
            (Starts-skip delims (c ∷ s))
            (All-drop_while (one_of delims) (c ∷ s) ((all_of_iff is_allowed (c ∷ s)).0 h)))
      | inr h ↦ rw h
    ]
