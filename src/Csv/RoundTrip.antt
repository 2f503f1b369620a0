-- ===== src/Csv/RoundTrip.antt =====
-- What csv/CSV.hpp saves is what it loads.
use c_plus_plus.Prelude.{
  take-int_len, int_len-small, ℕ, zero, suc, ◌+◌, ◌-◌, ◌^◌, ◌≤◌, ◌<◌, ◌≡◌, refl, sym, ap, ap₂, ◌∙◌,
  false, ◌||◌, Option, none, some, List, [], ◌∷◌, ◌++◌, append-nil, arith, ltb, leb, ◌==◌, length,
  length-append,
}
use c_plus_plus.Prelude.Chars.{Bytes}
use c_plus_plus.Prelude.Find.{All, Stops, drop_while-Stops}
use c_plus_plus.Csv.{
  write_row, spaced, get_line, skip_newlines, count_lines, write_rows, save_vector, save_vector_2d,
  read_values, csv_to_vector, fill_row, fill_rows, csv_to_vector_2d,
}
use c_plus_plus.Csv.Rows.{is_plain, cells, lines, Wide, write_row-cells, write_rows-lines}
use c_plus_plus.Csv.Reading.{
  spaced-plain, spaced-append, Begins, cells-Begins, length-cells, count_commas-cells,
  get_line-lines,
}
use mathlib.Core.Path.{subst⁻¹}

-- The end of the text, or a space.
abbrev pub Breaks : Bytes → Type 0
Breaks [] = Unit
Breaks (c ∷ s) = c ≡ b' '

skip_newlines-Begins : (s rest : Bytes) → Begins s → skip_newlines (s ++ rest) ≡ s ++ rest
unfolding skip_newlines
skip_newlines-Begins s rest (c, (t, (e, h))) =
    drop_while-Stops (λ d. d == b'\n') (s ++ rest)
      (subst⁻¹ (λ r. Stops (λ d. d == b'\n') (r ++ rest)) e h)

spaced-comma : (s : Bytes) → spaced (b',' ∷ s) ≡ b' ' ∷ spaced s
unfolding spaced
spaced-comma s = refl

-- `print` and `read` are the two operators of the type: a printed value has a character, and none of
-- a comma or white space; an extraction skips a space in front, fails at the end of the text, and reads a
-- printed value back up to a space or the end.
module _ {T : Type 0} (print : T → Bytes) (read : Bytes → Option (T × Bytes))
    (plain : (x : T) → All is_plain (print x)) (printed : (x : T) → 1 ≤ length (print x))
    (read_end : read [] ≡ none) (read_space : (s : Bytes) → read (b' ' ∷ s) ≡ read s)
    (read_print : (x : T) (s : Bytes) → Breaks s → read (print x ++ s) ≡ some (x, s)) where
  read_values-end : (fuel : ℕ) → read_values read fuel [] ≡ []
  unfolding read_values
  read_values-end zero = refl
  read_values-end (suc fuel) = rw (read_end, read_values) refl

  read_values-space :
      (fuel : ℕ) (s : Bytes) → read_values read fuel (b' ' ∷ s) ≡ read_values read fuel s
  unfolding read_values
  read_values-space zero s = refl
  read_values-space (suc fuel) s = rw (read_space s, read_values) refl

  read_values-print :
      (fuel : ℕ) (x : T) (s : Bytes)
      → Breaks s
      → read_values read (suc fuel) (print x ++ s) ≡ x ∷ read_values read fuel s
  unfolding read_values
  read_values-print fuel x s b = rw (read_print x s b, read_values) refl

  read_values-cells :
      (fuel : ℕ) (xs : List T)
      → length xs ≤ fuel
      → read_values read fuel (spaced (cells print xs)) ≡ xs
  unfolding spaced
  read_values-cells fuel [] l = read_values-end fuel
  read_values-cells zero (x ∷ xs) l = absurd (omega arith)
  read_values-cells (suc fuel) (x ∷ []) l =
      ap (read_values read (suc fuel))
        (spaced-plain (print x) (plain x) ∙ sym (append-nil (print x)))
      ∙ (read_values-print fuel x [] tt ∙ ap (λ l. x ∷ l) (read_values-end fuel))
  read_values-cells (suc fuel) (x ∷ y ∷ xs) l =
      ap (read_values read (suc fuel)) (
        spaced-append (print x) (b',' ∷ cells print (y ∷ xs))
        ∙ ap₂ (λ a b. a ++ b) (spaced-plain (print x) (plain x))
            (spaced-comma (cells print (y ∷ xs))))
      ∙ (read_values-print fuel x (b' ' ∷ spaced (cells print (y ∷ xs))) refl
          ∙ ap (λ l. x ∷ l)
              (read_values-space fuel (spaced (cells print (y ∷ xs)))
                ∙ read_values-cells fuel (y ∷ xs) (omega arith)))

  -- A vector that is saved is what is appended when the file is loaded, when the vector has an element,
  -- and fewer than 2 ^ 31.
  csv_to_vector-save_vector :
      (x : T) (xs v : List T)
      → length (x ∷ xs) < 2 ^ 31
      → csv_to_vector read (save_vector print (x ∷ xs)) v ≡ v ++ x ∷ xs
  unfolding csv_to_vector save_vector
  csv_to_vector-save_vector x xs v h =
      ap (λ f. csv_to_vector read f v)
        (ap (write_row print) (take-int_len (x ∷ xs) h) ∙ write_row-cells print x xs)
      ∙ (ap (λ f. loaded (get_line f))
            (skip_newlines-Begins (cells print (x ∷ xs)) (b'\n' ∷ [])
              (cells-Begins print plain printed x xs))
          ∙ (ap loaded (get_line-lines print plain printed x xs [])
              ∙ ap (λ l. v ++ l)
                  (read_values-cells (length (cells print (x ∷ xs))) (x ∷ xs)
                    (length-cells print plain printed (x ∷ xs)))))
    where
      loaded : Option (Bytes × Bytes) → List T
      loaded r = elim r [
        | none ↦ v
        | some (line, rest) ↦ v ++ read_values read (length line) (spaced line)
      ]

  count_lines-lines :
      (n fuel : ℕ) (rows : List (List T))
      → Wide (suc n) rows
      → length rows ≤ fuel
      → count_lines fuel (lines print rows) ≡ length rows
  unfolding count_lines get_line
  count_lines-lines n zero [] w l = refl
  count_lines-lines n (suc fuel) [] w l = refl
  count_lines-lines n fuel ([] ∷ rows) w l = absurd (omega (arith, w.0))
  count_lines-lines n zero ((x ∷ xs) ∷ rows) w l = absurd (omega arith)
  count_lines-lines n (suc fuel) ((x ∷ xs) ∷ rows) w l =
      counted (cells print (x ∷ xs)) (cells-Begins print plain printed x xs)
        (get_line-lines print plain printed x xs (lines print rows))
      ∙ ap suc (count_lines-lines n fuel rows w.1 (omega arith))
    where
      counted :
          (s : Bytes)
          → Begins s
          → get_line (s ++ b'\n' ∷ lines print rows) ≡ some (s, lines print rows)
          → count_lines (suc fuel) (s ++ b'\n' ∷ lines print rows)
            ≡ suc (count_lines fuel (lines print rows))
      counted s (c, (t, (e, h))) g = rw (g, count_lines) (rw e refl)

  length-lines : (rows : List (List T)) → length rows ≤ length (lines print rows)
  length-lines [] = omega arith
  length-lines (row ∷ rows) =
      omega (arith, length-append (cells print row) (b'\n' ∷ lines print rows), length-lines rows)

  module _ (default : T) where
    fill_row-cells :
        (n : ℕ) (row : List T)
        → length row ≡ n
        → fill_row read default n (cells print row) ≡ some row
    unfolding fill_row
    fill_row-cells n row e =
        rw
          (
            read_values-cells (length (cells print row)) row (length-cells print plain printed row),
            not_more (length row) n e,
            none_left (length row) n e,
          )
          (ap some (append-nil row))
      where
        not_more : (a b : ℕ) → a ≡ b → ltb b a ≡ false
        not_more a b e = ground arith

        none_left : (a b : ℕ) → a ≡ b → b - a ≡ 0
        none_left a b e = omega arith

    fill_rows-line :
        (k row_num : ℕ) (s line rest : Bytes) (row : List T) (rows : List (List T))
        → get_line s ≡ some (line, rest)
        → fill_row read default row_num line ≡ some row
        → fill_rows read default k row_num rest ≡ some rows
        → fill_rows read default (suc k) row_num s ≡ some (row ∷ rows)
    unfolding fill_rows
    fill_rows-line k row_num s line rest row rows g h r = rw (g, h, r, fill_rows) refl

    fill_rows-lines :
        (n : ℕ) (rows : List (List T))
        → Wide (suc n) rows
        → fill_rows read default (length rows) (suc n) (lines print rows) ≡ some rows
    unfolding fill_rows
    fill_rows-lines n [] w = refl
    fill_rows-lines n ([] ∷ rows) w = absurd (omega (arith, w.0))
    fill_rows-lines n ((x ∷ xs) ∷ rows) w =
        fill_rows-line (length rows) (suc n) (cells print (x ∷ xs) ++ b'\n' ∷ lines print rows)
          (cells print (x ∷ xs)) (lines print rows) (x ∷ xs) rows
          (get_line-lines print plain printed x xs (lines print rows))
          (fill_row-cells (suc n) (x ∷ xs) w.0) (fill_rows-lines n rows w.1)

    within_ints :
        (a b n k : ℕ)
        → a ≡ n
        → b ≡ k
        → n < 2 ^ 31
        → k < 2 ^ 31
        → (leb (2 ^ 31) a || leb (2 ^ 31) b) ≡ false
    within_ints a b n k e f h g =
        let one : leb (2 ^ 31) a ≡ false = ground (arith, e, h) in
        let other : leb (2 ^ 31) b ≡ false = ground (arith, f, g) in rw (one, other) refl

    -- A vector of vectors that is saved and loaded is the same, when it has a row, all its rows have the
    -- same length of at least 1, and both numbers are below 2 ^ 31. The operators of the element type: a
    -- printed value has a character, and none of a comma or white space; an extraction skips a space
    -- in front, fails at the end of the text, and reads a printed value back up to a space or the end.
    pub csv_to_vector_2d-save_vector_2d :
        (n : ℕ) (row : List T) (rows : List (List T))
        → Wide (suc n) (row ∷ rows)
        → suc n < 2 ^ 31
        → length (row ∷ rows) < 2 ^ 31
        → (file : Bytes) × ((save_vector_2d print (row ∷ rows) ≡ some file)
            × (csv_to_vector_2d read default file ≡ some (row ∷ rows)))
    unfolding save_vector_2d csv_to_vector_2d
    csv_to_vector_2d-save_vector_2d n [] rows w h l = absurd (omega (arith, w.0))
    csv_to_vector_2d-save_vector_2d n (x ∷ xs) rows w h l =
        let row_num : length (x ∷ xs) ≡ suc n = w.0 in
        let columns : length xs + 1 ≡ suc n = omega (arith, w.0) in
        (
          lines print ((x ∷ xs) ∷ rows),
          (
            ap₂ (λ k r. write_rows print k r)
                  (int_len-small (length (x ∷ xs)) (omega (arith, w.0)) ∙ w.0)
                  (take-int_len ((x ∷ xs) ∷ rows) l)
                ∙ write_rows-lines print n ((x ∷ xs) ∷ rows) w,
            rw
                (
                  skip_newlines-Begins (cells print (x ∷ xs)) (b'\n' ∷ lines print rows)
                      (cells-Begins print plain printed x xs),
                  count_commas-cells print plain printed x xs (lines print rows),
                  count_lines-lines n (length (lines print ((x ∷ xs) ∷ rows))) ((x ∷ xs) ∷ rows) w
                      (length-lines ((x ∷ xs) ∷ rows)),
                  within_ints (suc (length rows)) (length xs + 1) (suc (length rows)) (suc n) refl
                      columns l h,
                )
                (ap
                    (λ k.
                      fill_rows read default (suc (length rows)) k
                        (cells print (x ∷ xs) ++ b'\n' ∷ lines print rows))
                    columns
                  ∙ fill_rows-lines n ((x ∷ xs) ∷ rows) w),
          ),
        )
