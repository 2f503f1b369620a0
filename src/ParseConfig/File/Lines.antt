-- ===== src/ParseConfig/File/Lines.antt =====
-- The lines of the text that printConfInMap of parse_config/ParseConfig.hpp writes.
use c_plus_plus.Prelude.{
  ℕ, ◌≡◌, refl, sym, ap, ◌∙◌, Bool, false, not, List, [], ◌∷◌, ◌++◌, map, append-nil, append_assoc,
  arith, ◌==◌,
}
use c_plus_plus.Prelude.Chars.{Bytes}
use c_plus_plus.Prelude.Find.{All}
use c_plus_plus.ParseConfig.Dictionary.{Items, Confs}
use c_plus_plus.ParseConfig.File.{lines_from, get_lines, print_items, print_conf_in_map}

abbrev pub not_newline : ℕ → Bool
not_newline c = not (c == b'\n')

lines_from-newline :
    (line rest : Bytes) → lines_from line (b'\n' ∷ rest) ≡ line ∷ lines_from [] rest
unfolding lines_from
lines_from-newline line rest = refl

lines_from-other :
    (line : Bytes) (c : ℕ) (s : Bytes)
    → (c == b'\n') ≡ false
    → lines_from line (c ∷ s) ≡ lines_from (line ++ c ∷ []) s
unfolding lines_from
lines_from-other line c s h = rw h

-- A line that ends reads as it is written.
pub lines_from-line :
    (line s rest : Bytes)
    → All not_newline s
    → lines_from line (s ++ b'\n' ∷ rest) ≡ (line ++ s) ∷ lines_from [] rest
lines_from-line line [] rest a =
    lines_from-newline line rest ∙ ap (λ l. l ∷ lines_from [] rest) (sym (append-nil line))
lines_from-line line (c ∷ s) rest a =
    lines_from-other line c (s ++ b'\n' ∷ rest) (ground (arith, a.0))
    ∙ lines_from-line (line ++ c ∷ []) s rest a.1
    ∙ ap (λ l. l ∷ lines_from [] rest) (append_assoc line (c ∷ []) s)

-- The lines of the items of a section, and of a map.
abbrev pub item_line : Bytes × Bytes → Bytes
item_line (name, value) = name ++ b'=' ∷ value

abbrev pub item_lines : Items → List Bytes
item_lines items = map item_line items

abbrev pub conf_lines : Confs → List Bytes
conf_lines [] = []
conf_lines ((section, items) ∷ confs) = section ∷ (item_lines items ++ conf_lines confs)

abbrev pub NoNewlines : List Bytes → Type 0
NoNewlines [] = Unit
NoNewlines (l ∷ ls) = All not_newline l × NoNewlines ls

lines_from-print_items :
    (items : Items) (rest : Bytes)
    → NoNewlines (item_lines items)
    → lines_from [] (print_items items ++ rest) ≡ item_lines items ++ lines_from [] rest
unfolding print_items
lines_from-print_items [] rest a = refl
lines_from-print_items ((name, value) ∷ items) rest a =
    ap (lines_from []) (simp append_assoc)
    ∙ lines_from-line [] (name ++ b'=' ∷ value) (print_items items ++ rest) a.0
    ∙ ap (◌∷◌ (name ++ b'=' ∷ value)) (lines_from-print_items items rest a.1)

abbrev pub NoNewlinesIn : Confs → Type 0
NoNewlinesIn [] = Unit
NoNewlinesIn ((section, items) ∷ confs) =
    All not_newline section × NoNewlines (item_lines items) × NoNewlinesIn confs

pub get_lines-print_conf_in_map :
    (confs : Confs) → NoNewlinesIn confs → get_lines (print_conf_in_map confs) ≡ conf_lines confs
unfolding print_conf_in_map
get_lines-print_conf_in_map [] a = unfold lines_from in refl
get_lines-print_conf_in_map ((section, items) ∷ confs) (a, b, c) =
    lines_from-line [] section (print_items items ++ print_conf_in_map confs) a
    ∙ ap (◌∷◌ section) (
        lines_from-print_items items (print_conf_in_map confs) b
        ∙ ap (◌++◌ (item_lines items)) (get_lines-print_conf_in_map confs c))
