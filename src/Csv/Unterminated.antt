-- ===== src/Csv/Unterminated.antt =====
-- What csv/CSV.hpp loads from a file of one line that no newline ends.
use c_plus_plus.Prelude.{ℕ, Bool, not, ◌||◌, ◌==◌}

abbrev pub in_line : ℕ → Bool
in_line c = not (c == b'\r' || c == b'\n')
