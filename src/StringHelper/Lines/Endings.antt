-- ===== src/StringHelper/Lines/Endings.antt =====
-- SplitLines of string_helper/StringHelper.hpp with and without the line ends.
use c_plus_plus.Prelude.{
  ℕ, ◌≡◌, refl, sym, ap, ap₂, ◌∙◌, ◌⊎◌, inl, inr, Bool, true, false, not, ◌||◌, [], ◌∷◌, ◌++◌, map,
  append-nil, append_assoc, arith, ◌==◌, Bool-cases, concat,
}
use c_plus_plus.Prelude.Chars.{Bytes}
use c_plus_plus.Prelude.Find.{take_while, All, All-append, Stops, take_while-split}
use c_plus_plus.StringHelper.Lines.{
  next_is_newline, is_last, lines_without, lines_with, split_lines,
}

abbrev pub no_line_end : ℕ → Bool
no_line_end c = not (c == b'\n' || c == b'\r')

-- The loop is not at the end of the string with a line half read.
abbrev Goes : Bytes → Bytes → Type 0
Goes sub s = (sub ≡ []) ⊎ (is_last s ≡ false)

concat-lines_with : (sub s : Bytes) → Goes sub s → concat (lines_with sub s) ≡ sub ++ s
unfolding lines_with is_last next_is_newline
concat-lines_with sub [] h = ground arith
concat-lines_with sub (c ∷ []) h = ground (arith, append-nil (sub ++ c ∷ []))
concat-lines_with sub (c ∷ d ∷ s) h = ground (
  arith,
  concat-lines_with [] (d ∷ s) (inl refl),
  concat-lines_with (sub ++ c ∷ []) (d ∷ s) (inr refl),
  append_assoc sub (c ∷ []) (d ∷ s),
)

-- A half read line, with the carriage return that the other loop has skipped.
abbrev Extends : Bytes → Bytes → Bytes → Type 0
Extends long sub s = (long ≡ sub) ⊎ ((long ≡ sub ++ b'\r' ∷ []) × (next_is_newline s ≡ true))

cut_lem :
    (sub tail : Bytes)
    → All no_line_end sub
    → Stops no_line_end tail
    → take_while no_line_end (sub ++ tail) ≡ sub
cut_lem sub tail a h = (take_while-split no_line_end sub tail a h).0

module _ (sub : Bytes) (a : All no_line_end sub) where
  cut_newline : (c : ℕ) → no_line_end c ≡ false → take_while no_line_end (sub ++ c ∷ []) ≡ sub
  cut_newline c h = cut_lem sub (c ∷ []) a h

  cut_return : take_while no_line_end ((sub ++ b'\r' ∷ []) ++ b'\n' ∷ []) ≡ sub
  cut_return = rw append_assoc (cut_lem sub (b'\r' ∷ b'\n' ∷ []) a refl)

  cut_none : (c : ℕ) → no_line_end c ≡ true → take_while no_line_end (sub ++ c ∷ []) ≡ sub ++ c ∷ []
  cut_none c h =
      ap (take_while no_line_end) (sym (append-nil (sub ++ c ∷ [])))
      ∙ cut_lem (sub ++ c ∷ []) [] (All-append no_line_end sub (c ∷ []) a (h, tt)) tt

lines_lem :
    (long sub s : Bytes)
    → Extends long sub s
    → All no_line_end sub
    → map (take_while no_line_end) (lines_with long s) ≡ lines_without sub s
unfolding lines_with lines_without
lines_lem long sub [] x a = refl
lines_lem long sub (c ∷ s) (inr (e, n)) a =
    let newline : c ≡ b'\n' = unfold next_is_newline in ground (arith, n) in
    rw (e, newline) (ap₂ ◌∷◌ (cut_return sub a) (lines_lem [] [] s (inl refl) tt))
lines_lem long sub (c ∷ s) (inl e) a = rw e (elim (Bool-cases (c == b'\n')) [
  | inl newline ↦
      rw newline (ap₂ ◌∷◌ (cut_newline sub a c (ground arith)) (lines_lem [] [] s (inl refl) tt))
  | inr c1 ↦ elim (Bool-cases (c == b'\r')) [
    | inl ret ↦ elim (Bool-cases (next_is_newline s)) [
      | inl next ↦
          let r : c ≡ b'\r' = ground arith in
          rw (c1, ret, next)
            (lines_lem (sub ++ c ∷ []) sub s (inr (ap (λ d. sub ++ d ∷ []) r, next)) a)
      | inr next ↦
          rw (c1, ret, next)
            (ap₂ ◌∷◌ (cut_newline sub a c (ground arith)) (lines_lem [] [] s (inl refl) tt))
    ]
    | inr c2 ↦
        let plain : no_line_end c ≡ true = ground arith in
        elim (Bool-cases (is_last s)) [
          | inl last ↦
              rw (c1, c2, last) (ap₂ ◌∷◌ (cut_none sub a c plain) (lines_lem [] [] s (inl refl) tt))
          | inr last ↦
              rw (c1, c2, last)
                (lines_lem (sub ++ c ∷ []) (sub ++ c ∷ []) s (inl refl)
                  (All-append no_line_end sub (c ∷ []) a (plain, tt)))
        ]
  ]
])

-- `SplitLines` with the line ends loses nothing: its lines, one after the other, are the string. The
-- lines that it returns without them are those lines, each cut at its first line end.
pub split_lines_lem :
    (str : Bytes)
    → (concat (split_lines str true) ≡ str)
      × (split_lines str false ≡ map (take_while no_line_end) (split_lines str true))
unfolding split_lines
split_lines_lem [] = (refl, refl)
split_lines_lem (c ∷ s) =
    (concat-lines_with [] (c ∷ s) (inl refl), sym (lines_lem [] [] (c ∷ s) (inl refl) tt))
