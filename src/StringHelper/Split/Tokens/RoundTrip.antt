-- ===== src/StringHelper/Split/Tokens/RoundTrip.antt =====
-- Split of string_helper/StringHelper.hpp undoes Join.
use c_plus_plus.Prelude.{
  ℕ, zero, suc, ◌≤◌, ◌<◌, ◌≡◌, refl, sym, ap, ap₂, ◌∙◌, true, false, some, List, [], ◌∷◌, ◌++◌,
  append-nil, append_assoc, arith, length, length-append,
}
use c_plus_plus.Prelude.Chars.{Bytes}
use c_plus_plus.Prelude.Find.{
  drop_while, one_of, Stops, take_while-split, drop_while-Stops, not-true,
}
use c_plus_plus.StringHelper.Split.{join_from, join, is_plain, split_loop, split}
use c_plus_plus.StringHelper.Split.Tokens.{IsToken, AreTokens}

-- The tokens with the link character between them.
joined : ℕ → Bytes → List Bytes → Bytes
joined d t [] = t
joined d t (u ∷ us) = t ++ d ∷ joined d u us

join_from-joined :
    (d : ℕ) (linked t : Bytes) (ts : List Bytes)
    → join_from linked (t ∷ ts) (d ∷ []) ≡ some (linked ++ joined d t ts)
unfolding join_from joined
join_from-joined d linked t [] = refl
join_from-joined d linked t (u ∷ us) =
    join_from-joined d (linked ++ (t ++ d ∷ [])) u us ∙ ap some (simp append_assoc)

module _ (delims : Bytes) (d : ℕ) (is_delim : one_of delims d ≡ true) where
  -- What stands behind the first token.
  behind : List Bytes → Bytes
  behind [] = []
  behind (u ∷ us) = d ∷ joined d u us

  joined-behind : (t : Bytes) (ts : List Bytes) → joined d t ts ≡ t ++ behind ts
  unfolding joined behind
  joined-behind t [] = sym (append-nil t)
  joined-behind t (u ∷ us) = refl

  Stops-behind : (ts : List Bytes) → Stops (is_plain delims) (behind ts)
  unfolding behind
  Stops-behind [] = tt
  Stops-behind (u ∷ us) = rw is_delim

  not_plain : (c : ℕ) → is_plain delims c ≡ true → one_of delims c ≡ false
  not_plain c h = not-true (one_of delims c) h

  Stops-joined :
      (t : Bytes) (ts : List Bytes) → IsToken delims t → Stops (one_of delims) (joined d t ts)
  unfolding joined
  Stops-joined [] ts h = absurd h
  Stops-joined (c ∷ s) [] h = not_plain c h.0
  Stops-joined (c ∷ s) (u ∷ us) h = not_plain c h.0

  skip-behind :
      (u : Bytes) (us : List Bytes)
      → IsToken delims u
      → drop_while (one_of delims) (behind (u ∷ us)) ≡ joined d u us
  unfolding behind
  skip-behind u us h =
      let e : drop_while (one_of delims) (d ∷ joined d u us)
          ≡ drop_while (one_of delims) (joined d u us) =
        unfold drop_while in rw is_delim in
      e ∙ drop_while-Stops (one_of delims) (joined d u us) (Stops-joined u us h)

  length-behind :
      (t : Bytes) (ts : List Bytes) → IsToken delims t → length (behind ts) < length (joined d t ts)
  length-behind [] ts h = absurd h
  length-behind (c ∷ s) ts h =
      omega (arith, ap length (joined-behind (c ∷ s) ts), length-append (c ∷ s) (behind ts))

  split_loop-cons :
      (fuel : ℕ) (t : Bytes) (ts : List Bytes)
      → IsToken delims t
      → split_loop (suc fuel) delims (joined d t ts)
        ≡ t ∷ split_loop fuel delims (drop_while (one_of delims) (behind ts))
  split_loop-cons fuel [] ts h = absurd h
  split_loop-cons fuel (c ∷ s) ts h =
      let (token, later) =
        take_while-split (is_plain delims) (c ∷ s) (behind ts) h (Stops-behind ts) in
      ap (split_loop (suc fuel) delims) (joined-behind (c ∷ s) ts)
      ∙ (unfold split_loop in
          ap₂ ◌∷◌ token (ap (λ r. split_loop fuel delims (drop_while (one_of delims) r)) later))

  split_loop-nil : (fuel : ℕ) → split_loop fuel delims (drop_while (one_of delims) []) ≡ []
  unfolding split_loop drop_while
  split_loop-nil zero = refl
  split_loop-nil (suc fuel) = refl

  length-behind_cons :
      (u : Bytes) (us : List Bytes) → length (behind (u ∷ us)) ≡ suc (length (joined d u us))
  unfolding behind
  length-behind_cons u us = refl

  split_loop-joined :
      (fuel : ℕ) (t : Bytes) (ts : List Bytes)
      → AreTokens delims (t ∷ ts)
      → length (joined d t ts) ≤ fuel
      → split_loop fuel delims (joined d t ts) ≡ t ∷ ts
  split_loop-joined zero t ts h f = absurd (omega (arith, length-behind t ts h.0))
  split_loop-joined (suc fuel) t [] h f =
      split_loop-cons fuel t [] h.0 ∙ ap (◌∷◌ t) (unfold behind in split_loop-nil fuel)
  split_loop-joined (suc fuel) t (u ∷ us) h f =
      split_loop-cons fuel t (u ∷ us) h.0
      ∙ ap (◌∷◌ t) (
          ap (split_loop fuel delims) (skip-behind u us h.1.0)
          ∙ split_loop-joined fuel u us h.1
              (omega (arith, length-behind t (u ∷ us) h.0, length-behind_cons u us)))

  -- Tokens that `Join` links by a delimiter come back from `Split`, whatever other delimiters it is
  -- given.
  pub split-join :
      (t : Bytes) (ts : List Bytes)
      → AreTokens delims (t ∷ ts)
      → (str : Bytes) × (join (t ∷ ts) (d ∷ []) ≡ some str) × (split str delims ≡ t ∷ ts)
  unfolding join split
  split-join t ts h = (
    joined d t ts,
    join_from-joined d [] t ts,
    ap (split_loop (length (joined d t ts)) delims)
          (drop_while-Stops (one_of delims) (joined d t ts) (Stops-joined t ts h.0))
        ∙ split_loop-joined (length (joined d t ts)) t ts h (omega arith),
  )
