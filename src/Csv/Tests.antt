-- ===== src/Csv/Tests.antt =====
-- Files of flags, which are printed as 1 and 0, and the witnesses of the theorems on csv/CSV.hpp.
use c_plus_plus.Prelude.{
  int_len, ◌≤◌, ◌≡◌, refl, Bool, true, false, Option, none, some, List, [], ◌∷◌, ◌++◌, arith, ◌==◌,
  if◌then◌else◌, length,
}
use c_plus_plus.Prelude.Chars.{Bytes, codes}
use c_plus_plus.Prelude.Find.{take_while, drop_while, All}
use c_plus_plus.Csv.{
  spaced, get_line, skip_newlines, count_lines, count_commas, write_row, write_cells, write_rows,
  save_vector_2d, read_values, fill_row, fill_rows, csv_to_vector_2d,
}
use c_plus_plus.Csv.Rows.{is_plain}
use c_plus_plus.Csv.RoundTrip.{Breaks, csv_to_vector_2d-save_vector_2d}

abbrev print_flag : Bool → Bytes
print_flag true = b'1' ∷ []
print_flag false = b'0' ∷ []

-- The digit in front, with a break behind it.
abbrev read_flag : Bytes → Option (Bool × Bytes)
read_flag [] = none
read_flag (c ∷ s) =
    let later = read_flag s in
    if c == b' '
    then later
    else if c == b'1'
    then some (true, s)
    else if c == b'0'
    then some (false, s)
    else none

print_flag-plain : (x : Bool) → All is_plain (print_flag x)
print_flag-plain true = (refl, tt)
print_flag-plain false = (refl, tt)

print_flag-printed : (x : Bool) → 1 ≤ length (print_flag x)
print_flag-printed true = omega arith
print_flag-printed false = omega arith

read_flag-print_flag :
    (x : Bool) (s : Bytes) → Breaks s → read_flag (print_flag x ++ s) ≡ some (x, s)
read_flag-print_flag true s b = refl
read_flag-print_flag false s b = refl

abbrev table : List (List Bool)
table = (true ∷ false ∷ []) ∷ (false ∷ false ∷ []) ∷ []

saved : save_vector_2d print_flag table ≡ some (codes "1,0\n0,0\n")
unfolding save_vector_2d int_len write_rows write_cells write_row
saved = refl

loaded : csv_to_vector_2d read_flag false (codes "\n1,0\n0,0\n") ≡ some table
unfolding csv_to_vector_2d skip_newlines drop_while count_lines get_line take_while count_commas
    fill_rows fill_row read_values spaced
loaded = refl

csv_to_vector_2d-save_vector_2d_example :
    (file : Bytes) × ((save_vector_2d print_flag table ≡ some file)
      × (csv_to_vector_2d read_flag false file ≡ some table))
csv_to_vector_2d-save_vector_2d_example =
    csv_to_vector_2d-save_vector_2d print_flag read_flag print_flag-plain print_flag-printed refl
      (λ s. refl) read_flag-print_flag false 1 (true ∷ false ∷ []) ((false ∷ false ∷ []) ∷ [])
      (refl, (refl, tt)) (omega arith) (omega arith)
