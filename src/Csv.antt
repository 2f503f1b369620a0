-- ===== src/Csv.antt =====
-- csv/CSV.hpp. The element type has an `operator<<`, the parameter `print`, and an `operator>>`, the
-- parameter `read`: the value at the front of a text and what is behind it, or `none` where the
-- extraction fails. A file is its bytes, and an access outside an array is `none`.
pub mod Rows
pub mod Reading
pub mod RoundTrip
pub mod Unterminated
pub mod Tests
use c_plus_plus.Prelude.{
  int_len, ℕ, zero, suc, ◌+◌, ◌-◌, ◌*◌, ◌/◌, ◌^◌, ◌<◌, min, ap, Bool, true, false, not, ◌||◌,
  Option, none, some, List, [], ◌∷◌, ◌++◌, map, ltb, leb, ◌==◌, if◌then◌else◌, ◌>>=◌, length, take,
  drop, replicate,
}
use c_plus_plus.Prelude.Chars.{Bytes}
use c_plus_plus.Prelude.Find.{take_while, drop_while}

-- `regex_replace` of each comma by a space
unfoldable pub spaced : Bytes → Bytes
spaced = map (λ c. if c == b',' then b' ' else c)

-- `getline`: it fails where no character is left.
unfoldable pub get_line : Bytes → Option (Bytes × Bytes)
get_line [] = none
get_line (c ∷ s) = some (
  take_while (λ c. not (c == b'\n')) (c ∷ s),
  drop 1 (drop_while (λ c. not (c == b'\n')) (c ∷ s)),
)

-- The loop over the empty lines in front, with the step back to the first other character.
unfoldable pub skip_newlines : Bytes → Bytes
skip_newlines = drop_while (λ c. c == b'\n')

-- The lines up to an empty one; each takes a character, so that the length is enough fuel.
unfoldable pub count_lines : ℕ → Bytes → ℕ
count_lines zero s = 0
count_lines (suc fuel) s = elim (get_line s) [
  | none ↦ 0
  | some (line, rest) ↦ elim line [ [] ↦ 0 | c ∷ cs ↦ suc (count_lines fuel rest) ]
]

-- The commas of the first line, and whether the loop runs into the end of the file, which leaves the
-- stream in a failed state.
unfoldable pub count_commas : Bytes → ℕ × Bool
count_commas [] = (0, true)
count_commas (c ∷ s) =
    let rest = count_commas s in
    if c == b','
    then (rest.0 + 1, rest.1)
    else if c == b'\r' || c == b'\n'
    then (0, false)
    else rest

module _ {T : Type 0} (print : T → Bytes) where
  -- The loop over the elements of a line.
  unfoldable pub write_row : List T → Bytes
  write_row [] = []
  write_row (x ∷ []) = print x ++ b'\n' ∷ []
  write_row (x ∷ y ∷ xs) = print x ++ b',' ∷ write_row (y ∷ xs)

  -- The elements that the loop over `j < row_num` reads.
  unfoldable pub write_cells : ℕ → List T → Option Bytes
  write_cells row_num row =
      if ltb (length row) row_num then none else some (write_row (take row_num row))

  -- `saveArray` of an array with `row_num` elements; the list is the memory at `pArray`.
  unfoldable pub save_array : List T → ℕ → Option Bytes
  save_array p row_num = write_cells row_num p

  -- The loop over `i`, on the memory from `pArray + i * rowNum` on.
  unfoldable pub save_lines : List T → ℕ → ℕ → Option Bytes
  save_lines p zero row_num = some []
  save_lines p (suc line_num) row_num = do
    line ← write_cells row_num p
    rest ← save_lines (drop row_num p) line_num row_num
    some (line ++ rest)

  -- `saveArray` of an array with two dimensions, where the greatest `i * rowNum + j` may overflow.
  unfoldable pub save_array_2d : List T → ℕ → ℕ → Option Bytes
  save_array_2d p line_num row_num =
      if ltb (2 ^ 31) (line_num * row_num) then none else save_lines p line_num row_num

  -- `saveVector` of a vector; its length is converted to an `int`.
  unfoldable pub save_vector : List T → Bytes
  save_vector v = write_row (take (int_len (length v)) v)

  unfoldable pub write_rows : ℕ → List (List T) → Option Bytes
  write_rows row_num [] = some []
  write_rows row_num (row ∷ rows) = do
    line ← write_cells row_num row
    rest ← write_rows row_num rows
    some (line ++ rest)

  -- `saveVector` of a vector of vectors, which reads the length of the first; both lengths are
  -- converted to an `int`.
  unfoldable pub save_vector_2d : List (List T) → Option Bytes
  save_vector_2d [] = none
  save_vector_2d (row ∷ rows) =
      write_rows (int_len (length row)) (take (int_len (length (row ∷ rows))) (row ∷ rows))

module _ {T : Type 0} (read : Bytes → Option (T × Bytes)) where
  -- `while (ss >> data)`: each value takes a character, so that the length is enough fuel.
  unfoldable pub read_values : ℕ → Bytes → List T
  read_values zero s = []
  read_values (suc fuel) s = elim (read s) [
    | none ↦ []
    | some (x, rest) ↦ x ∷ read_values fuel rest
  ]

  -- `csvToVector` into a vector, to which the values are appended; a stream that reached the end of the
  -- file fails, so that no line is read.
  unfoldable pub csv_to_vector : Bytes → List T → List T
  csv_to_vector file v = elim (get_line (skip_newlines file)) [
    | none ↦ v
    | some (line, rest) ↦ v ++ read_values (length line) (spaced line)
  ]

  module _ (default : T) where
    -- One line put into a row of `row_num` elements.
    unfoldable pub fill_row : ℕ → Bytes → Option (List T)
    fill_row row_num line =
        let values = read_values (length line) (spaced line) in
        if ltb row_num (length values)
        then none
        else some (values ++ replicate (row_num - length values) default)

    -- The loop over the lines; where `getline` fails, the line is empty.
    unfoldable pub fill_rows : ℕ → ℕ → Bytes → Option (List (List T))
    fill_rows zero row_num s = some []
    fill_rows (suc line_num) row_num s = elim (get_line s) [
      | none ↦ do row ← fill_row row_num []; rows ← fill_rows line_num row_num s; some (row ∷ rows)
      | some (line, rest) ↦ do
        row ← fill_row row_num line
        rows ← fill_rows line_num row_num rest
        some (row ∷ rows)
    ]

    -- `csvToVector` into a vector of vectors. The counters are `int`s, and `none` when one overflows.
    unfoldable pub csv_to_vector_2d : Bytes → Option (List (List T))
    csv_to_vector_2d file =
        if leb (2 ^ 31) (count_lines (length body) body) || leb (2 ^ 31) ((count_commas body).0 + 1)
        then none
        else fill_rows (count_lines (length body) body) ((count_commas body).0 + 1)
            (if (count_commas body).1 then [] else body)
      where
        body : Bytes
        body = skip_newlines file
