-- ===== src/Csv/Rows.antt =====
-- The lines that csv/CSV.hpp writes.
use c_plus_plus.Prelude.{
  ℕ, suc, ◌≡◌, refl, sym, ap, ◌∙◌, Bool, false, not, ◌||◌, some, List, [], ◌∷◌, ◌++◌, append-nil,
  append_assoc, arith, ltb, ◌==◌, length, take,
}
use c_plus_plus.Prelude.Chars.{Bytes}
use c_plus_plus.Prelude.Find.{take-length}
use c_plus_plus.Csv.{write_row, write_cells, write_rows}

-- What a printed value is made of: no comma, no white space.
abbrev pub is_plain : ℕ → Bool
is_plain c = not (c == b',' || (c == b'\n' || (c == b'\r' || c == b' ')))

module _ {T : Type 0} where
  -- Each row has `n` elements.
  abbrev pub Wide : ℕ → List (List T) → Type 0
  Wide n [] = Unit
  Wide n (row ∷ rows) = (length row ≡ n) × Wide n rows

  take-whole : (xs : List T) (n : ℕ) → length xs ≡ n → take n xs ≡ xs
  take-whole xs n e = ap (take n) (sym (append-nil xs)) ∙ take-length xs [] n (sym e)

module _ {T : Type 0} (print : T → Bytes) where
  -- A line without its end.
  abbrev pub cells : List T → Bytes
  cells [] = []
  cells (x ∷ []) = print x
  cells (x ∷ y ∷ xs) = print x ++ b',' ∷ cells (y ∷ xs)

  abbrev pub lines : List (List T) → Bytes
  lines [] = []
  lines (row ∷ rows) = cells row ++ b'\n' ∷ lines rows

  pub write_row-cells :
      (x : T) (xs : List T) → write_row print (x ∷ xs) ≡ cells (x ∷ xs) ++ b'\n' ∷ []
  unfolding write_row
  write_row-cells x [] = refl
  write_row-cells x (y ∷ xs) =
      ap (λ l. print x ++ b',' ∷ l) (write_row-cells y xs)
      ∙ sym (append_assoc (print x) (b',' ∷ cells (y ∷ xs)) (b'\n' ∷ []))

  pub write_cells-whole :
      (row : List T) (n : ℕ) → length row ≡ n → write_cells print n row ≡ some (write_row print row)
  unfolding write_cells
  write_cells-whole row n e =
      rw (fits (length row) n e) (ap (λ l. some (write_row print l)) (take-whole row n e))
    where
      fits : (a b : ℕ) → a ≡ b → ltb a b ≡ false
      fits a b e = ground arith

  -- Rows of the same length, at least 1, are written one line each.
  pub write_rows-lines :
      (n : ℕ) (rows : List (List T))
      → Wide (suc n) rows
      → write_rows print (suc n) rows ≡ some (lines rows)
  unfolding write_rows
  write_rows-lines n [] w = refl
  write_rows-lines n ([] ∷ rows) w = absurd (omega (arith, w.0))
  write_rows-lines n ((x ∷ xs) ∷ rows) w =
      rw (write_cells-whole (x ∷ xs) (suc n) w.0, write_rows-lines n rows w.1)
        (ap some (
          ap (λ l. l ++ lines rows) (write_row-cells x xs)
          ∙ append_assoc (cells (x ∷ xs)) (b'\n' ∷ []) (lines rows)))
