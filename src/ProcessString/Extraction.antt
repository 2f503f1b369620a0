-- ===== src/ProcessString/Extraction.antt =====
-- extractNumFromString of parse_config/ProcessString.hpp on a list of numbers.
use c_plus_plus.Prelude.{
  ℕ, zero, suc, ◌+◌, ◌<◌, ◌≡◌, sym, ap, ◌∙◌, inl, inr, true, false, ◌&&◌, ◌||◌, List, [], ◌∷◌, ◌++◌,
  map, append-nil, arith, ◌==◌, Bool-cases, length, length-append,
}
use c_plus_plus.Prelude.Chars.{Bytes, isdigit}
use c_plus_plus.Prelude.Find.{all_of, All, All-append, all_of_iff, take_while-split}
use c_plus_plus.ProcessString.{is_numeric, is_other, pieces, extract_num_from_string}

-- The texts with the separator between them.
abbrev pub separated : ℕ → Bytes → List Bytes → Bytes
separated separator p [] = p
separated separator p (q ∷ qs) = p ++ separator ∷ separated separator q qs

-- The texts, less an empty one at the end.
abbrev pub without_empty_end : Bytes → List Bytes → List Bytes
without_empty_end p [] = p ∷ []
without_empty_end p ([] ∷ []) = p ∷ []
without_empty_end p ((c ∷ q) ∷ []) = p ∷ (c ∷ q) ∷ []
without_empty_end p (q ∷ r ∷ rs) = p ∷ without_empty_end q (r ∷ rs)

-- A text of digits and points that does not hold the separator.
abbrev pub IsNumber : ℕ → Bytes → Type 0
IsNumber separator p = All (λ c. (isdigit c || c == b'.') && is_other separator c) p

abbrev pub AreNumbers : ℕ → List Bytes → Type 0
AreNumbers separator [] = Unit
AreNumbers separator (p ∷ ps) = IsNumber separator p × AreNumbers separator ps

module _ (separator : ℕ) where
  IsNumber-other : (p : Bytes) → IsNumber separator p → All (is_other separator) p
  IsNumber-other [] a = tt
  IsNumber-other (c ∷ p) a = (ground (arith, a.0), IsNumber-other p a.1)

  IsNumber-numeric : (p : Bytes) → IsNumber separator p → All (is_numeric separator) p
  IsNumber-numeric [] a = tt
  IsNumber-numeric (c ∷ p) a = (unfold isdigit in ground (arith, a.0), IsNumber-numeric p a.1)

  separated-numeric :
      (p : Bytes) (ps : List Bytes)
      → AreNumbers separator (p ∷ ps)
      → All (is_numeric separator) (separated separator p ps)
  separated-numeric p [] a = IsNumber-numeric p a.0
  separated-numeric p (q ∷ qs) a =
      All-append (is_numeric separator) p (separator ∷ separated separator q qs)
        (IsNumber-numeric p a.0) (ground arith, separated-numeric q qs a.1)

  pieces-last :
      (fuel : ℕ) (p : Bytes) → IsNumber separator p → pieces (suc fuel) separator p ≡ p ∷ []
  unfolding pieces
  pieces-last fuel p a =
      let (t, d) = take_while-split (is_other separator) p [] (IsNumber-other p a) tt in
      let whole = append-nil p in ap (pieces (suc fuel) separator) (sym whole) ∙ rw (t, d, pieces)

  pieces-end :
      (fuel : ℕ) (p : Bytes)
      → IsNumber separator p
      → pieces (suc fuel) separator (p ++ separator ∷ []) ≡ p ∷ []
  unfolding pieces
  pieces-end fuel p a =
      let (t, d) =
        take_while-split (is_other separator) p (separator ∷ []) (IsNumber-other p a)
          (ground arith) in
      rw (t, d, pieces)

  pieces-more :
      (fuel : ℕ) (p : Bytes) (c : ℕ) (rest : Bytes)
      → IsNumber separator p
      → pieces (suc fuel) separator (p ++ separator ∷ c ∷ rest)
        ≡ p ∷ pieces fuel separator (c ∷ rest)
  unfolding pieces
  pieces-more fuel p c rest a =
      let (t, d) =
        take_while-split (is_other separator) p (separator ∷ c ∷ rest) (IsNumber-other p a)
          (ground arith) in
      rw (t, d, pieces)

  length-separated :
      (p q : Bytes) (qs : List Bytes)
      → length (separated separator p (q ∷ qs)) ≡ length p + suc (length (separated separator q qs))
  length-separated p q qs = length-append p (separator ∷ separated separator q qs)

  pieces-separated :
      (fuel : ℕ) (p : Bytes) (ps : List Bytes)
      → AreNumbers separator (p ∷ ps)
      → length (separated separator p ps) < fuel
      → pieces fuel separator (separated separator p ps) ≡ without_empty_end p ps
  pieces-separated zero p ps a f = absurd (omega arith)
  pieces-separated (suc fuel) p [] a f = pieces-last fuel p a.0
  pieces-separated (suc fuel) p ([] ∷ []) a f = pieces-end fuel p a.0
  pieces-separated (suc fuel) p ((c ∷ q) ∷ []) a f =
      pieces-more fuel p c q a.0
      ∙ ap (◌∷◌ p)
          (pieces-separated fuel (c ∷ q) [] a.1 (omega (arith, length-separated p (c ∷ q) [])))
  pieces-separated (suc fuel) p ([] ∷ r ∷ rs) a f =
      pieces-more fuel p separator (separated separator r rs) a.0
      ∙ ap (◌∷◌ p)
          (pieces-separated fuel [] (r ∷ rs) a.1 (omega (arith, length-separated p [] (r ∷ rs))))
  pieces-separated (suc fuel) p ((c ∷ q) ∷ r ∷ rs) a f =
      pieces-more fuel p c (q ++ separator ∷ separated separator r rs) a.0
      ∙ ap (◌∷◌ p) (
          pieces-separated fuel (c ∷ q) (r ∷ rs) a.1
            (omega (arith, length-separated p (c ∷ q) (r ∷ rs))))

  -- `extractNumFromString` on numbers with the separator between them: it appends the value of each
  -- in order, of an empty one in the middle too, but of an empty one at the end only if it is alone.
  pub extract_num_from_string-separated :
      {T : Type 0} (parse : Bytes → T) (extracted : List T) (p : Bytes) (ps : List Bytes)
      → AreNumbers separator (p ∷ ps)
      → extract_num_from_string parse (separated separator p ps) extracted separator
        ≡ (true, extracted ++ map parse (without_empty_end p ps))
  unfolding extract_num_from_string
  extract_num_from_string-separated parse extracted p ps a =
      let ok =
        (all_of_iff (is_numeric separator) (separated separator p ps)).1
          (separated-numeric p ps a) in
      rw (ok, pieces-separated (length (separated separator p ps) + 1) p ps a (omega arith))

  -- `extractNumFromString` refuses a string with a character that is no digit, no point and not the
  -- separator, and appends nothing.
  pub extract_num_from_string-refused :
      {T : Type 0} (parse : Bytes → T) (extracted : List T) (str : Bytes)
      → ¬ All (is_numeric separator) str
      → extract_num_from_string parse str extracted separator ≡ (false, extracted)
  unfolding extract_num_from_string
  extract_num_from_string-refused parse extracted str bad =
      elim (Bool-cases (all_of (is_numeric separator) str)) [
        | inl h ↦ absurd (bad ((all_of_iff (is_numeric separator) str).0 h))
        | inr h ↦ rw h
      ]
