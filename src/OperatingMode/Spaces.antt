-- ===== src/OperatingMode/Spaces.antt =====
-- process_markdown/operatingMode.cpp: addTwoSpaceBeforeEachEnter, on one article.
pub mod Blocks
use c_plus_plus.Prelude.{
  ◌+◌, ◌-◌, ◌/◌, Bool, true, false, not, ◌&&◌, none, some, List, [], ◌∷◌, ◌++◌, length, take, drop,
}
use c_plus_plus.Prelude.Chars.{Bytes, codes}
use c_plus_plus.Prelude.Find.{find_sub}
use c_plus_plus.ParseConfig.File.{get_lines}

-- Whether three backquotes stand in a line.
unfoldable pub has_fence : Bytes → Bool
has_fence buf = elim (find_sub (codes "```") buf) [ none ↦ false | some i ↦ true ]

-- The two inserts into a line that ends in a newline.
unfoldable pub two_spaces : Bytes → Bytes
two_spaces buf = elim (find_sub (b'\r' ∷ b'\n' ∷ []) buf) [
  | none ↦ take (length buf - 1) buf ++ (b' ' ∷ b' ' ∷ b'\r' ∷ [] ++ drop (length buf - 1) buf)
  | some pos ↦ take pos buf ++ (b' ' ∷ b' ' ∷ [] ++ drop pos buf)
]

-- The loop over the lines, with the flags `bCodeFieldIn` and `bCodeFieldOut`.
unfoldable pub write_lines : Bool → Bool → List Bytes → Bytes
write_lines code_in code_out [] = []
write_lines code_in code_out (line ∷ lines) = elim (has_fence (line ++ b'\n' ∷ [])) [
  | true ↦ elim (not code_in && code_out) [
    | true ↦ (line ++ b'\n' ∷ []) ++ write_lines true false lines
    | false ↦ (line ++ b'\n' ∷ []) ++ write_lines false true lines
  ]
  | false ↦ elim (not code_in && code_out) [
    | true ↦ two_spaces (line ++ b'\n' ∷ []) ++ write_lines code_in code_out lines
    | false ↦ (line ++ b'\n' ∷ []) ++ write_lines code_in code_out lines
  ]
]

-- What becomes of an article; the lines are written behind what the temporary file holds already.
unfoldable pub add_two_space_before_each_enter : Bytes → Bytes → Bytes
add_two_space_before_each_enter temp_file article =
    temp_file ++ write_lines false true (get_lines article)
