-- ===== src/ProcessString/Reading.antt =====
-- readStringEndByEnter and readStringEndByMultiEnter of parse_config/ProcessString.hpp.
use c_plus_plus.Prelude.{
  ℕ, ◌+◌, ◌≡◌, ◌∙◌, Bool, true, false, not, ◌||◌, some, List, [], ◌∷◌, ◌++◌, append-nil,
  append_assoc, arith, leb, ◌==◌, if◌then◌else◌, length, concat,
}
use c_plus_plus.Prelude.Chars.{Bytes}
use c_plus_plus.Prelude.Find.{All}
use c_plus_plus.ProcessString.{read_string_end_by_enter, read_multi, read_string_end_by_multi_enter}

-- A character of a line: no line feed and no zero byte.
abbrev pub in_line : ℕ → Bool
in_line c = not (c == b'\n' || c == 0)

-- Lines as they are typed, each with the line feed that ends it, and the input behind them.
abbrev pub typed : List Bytes → Bytes → Bytes
typed [] rest = rest
typed (line ∷ lines) rest = line ++ b'\n' ∷ typed lines rest

abbrev pub AreLines : List Bytes → Type 0
AreLines [] = Unit
AreLines (line ∷ lines) = All in_line line × AreLines lines

enter_line :
    (what_read line rest : Bytes)
    → All in_line line
    → read_string_end_by_enter what_read (line ++ b'\n' ∷ rest) ≡ some (what_read ++ line, rest)
unfolding read_string_end_by_enter
enter_line what_read [] rest a = rw append-nil
enter_line what_read (c ∷ line) rest a =
    ground
      (arith, enter_line (what_read ++ c ∷ []) line rest a.1, append_assoc what_read (c ∷ []) line)

multi_line :
    (num count : ℕ) (what_read line rest : Bytes)
    → All in_line line
    → read_multi num count what_read (line ++ b'\n' ∷ rest) ≡ (
        if leb num (count + 1)
        then some (what_read ++ line, rest)
        else read_multi num (count + 1) (what_read ++ line) rest)
unfolding read_multi
multi_line num count what_read [] rest a = rw append-nil
multi_line num count what_read (c ∷ line) rest a = ground (
  arith,
  multi_line num count (what_read ++ c ∷ []) line rest a.1,
  append_assoc what_read (c ∷ []) line,
)

multi_lines :
    (num count : ℕ) (what_read line : Bytes) (lines : List Bytes) (rest : Bytes)
    → num ≡ count + length (line ∷ lines)
    → AreLines (line ∷ lines)
    → read_multi num count what_read (typed (line ∷ lines) rest)
      ≡ some (what_read ++ concat (line ∷ lines), rest)
multi_lines num count what_read line [] rest n a =
    let stop : leb num (count + 1) ≡ true = ground arith in
    multi_line num count what_read line rest a.0 ∙ rw (stop, append-nil)
multi_lines num count what_read line (next ∷ lines) rest n a =
    let go : leb num (count + 1) ≡ false = ground arith in
    multi_line num count what_read line (typed (next ∷ lines) rest) a.0
    ∙ rw go (
        multi_lines num (count + 1) (what_read ++ line) next lines rest (omega arith) a.1
        ∙ rw append_assoc)

-- `readStringEndByEnter` appends the line up to the first line feed, which it takes from the input;
-- `readStringEndByMultiEnter` appends as many lines as it is asked for, without their line feeds.
pub reading_lem :
    (what_read line : Bytes) (lines : List Bytes) (rest : Bytes)
    → AreLines (line ∷ lines)
    → (read_string_end_by_enter what_read (line ++ b'\n' ∷ rest) ≡ some (what_read ++ line, rest))
      × (read_string_end_by_multi_enter what_read
            (length (line ∷ lines))
            (typed (line ∷ lines) rest)
          ≡ some (what_read ++ concat (line ∷ lines), rest))
unfolding read_string_end_by_multi_enter
reading_lem what_read line lines rest a = (
  enter_line what_read line rest a.0,
  multi_lines (length (line ∷ lines)) 0 what_read line lines rest (omega arith) a,
)
