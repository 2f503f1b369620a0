-- ===== src/Logger/Window.antt =====
-- What a logger promises: it keeps the last files, the newest of which grows until it is full.
use c_plus_plus.Prelude.{ℕ, ◌+◌, ◌%◌, ◌^◌, List, [], ◌∷◌, ◌++◌, leb, if◌then◌else◌, length, drop}
use c_plus_plus.Prelude.Chars.{Bytes, codes}
use c_plus_plus.Logger.{Level, level_number, buffer}

-- The functions that write, by the level of their lines.
pub data Severity : Type 0 where
  trace_line debug_line info_line error_line : Severity

abbrev pub severity_number : Severity → ℕ
severity_number trace_line = 0
severity_number debug_line = 1
severity_number info_line = 2
severity_number error_line = 3

abbrev pub tag_of : Severity → Bytes
tag_of trace_line = codes " [T] "
tag_of debug_line = codes " [D] "
tag_of info_line = codes " [I] "
tag_of error_line = codes " [E] "

pub record Call : Type 0 where
  pub severity : Severity
  pub prefix : Bytes
  pub text : Bytes

-- The contents of the rotated files, the oldest first, of the current one, and the size counted.
pub record Window : Type 0 where
  pub old : List Bytes
  pub current : Bytes
  pub counted : ℕ

abbrev pub line_of : Call → Bytes
line_of c = c.prefix ++ tag_of c.severity ++ buffer c.text ++ b'\n' ∷ []

abbrev pub cost_of : Call → ℕ
cost_of c = length c.prefix + 5 + length (buffer c.text) + 2

abbrev pub rolled : Window → Window
rolled w = record { old = drop 1 w.old ++ w.current ∷ []; current = []; counted = 0 }

abbrev pub roll_if_full : ℕ → Window → Window
roll_if_full limit w = if leb limit w.counted then rolled w else w

abbrev pub extended : Call → Window → Window
extended c w = record w {
  current = w.current ++ line_of c;
  counted = (w.counted + cost_of c) % 2 ^ 64;
}

-- A line below the logger's level is left out.
abbrev pub logged : ℕ → Level → Call → Window → Window
logged limit level c w =
    if leb (level_number level) (severity_number c.severity)
    then extended c (roll_if_full limit w)
    else w

abbrev pub logged_all : ℕ → Level → List Call → Window → Window
logged_all limit level [] w = w
logged_all limit level (c ∷ cs) w = logged_all limit level cs (logged limit level c w)
