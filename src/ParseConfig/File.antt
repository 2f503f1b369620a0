-- ===== src/ParseConfig/File.antt =====
-- parseConfFileIntoMap and printConfInMap of parse_config/ParseConfig.hpp.
pub mod Lines
pub mod Steps
pub mod Errors
pub mod Printed
pub mod LastItem
use c_plus_plus.Prelude.{
  ℕ, ◌+◌, ◌-◌, ◌*◌, ◌/◌, ◌%◌, ap, Bool, true, false, not, Option, none, some, List, [], ◌∷◌, ◌++◌,
  map, ◌==◌, if◌then◌else◌, take, drop,
}
use c_plus_plus.Prelude.Chars.{Bytes}
use c_plus_plus.Prelude.Find.{find_if, equal}
use c_plus_plus.ProcessString.{rm_space_in_beg_and_end}
use c_plus_plus.ParseConfig.Dictionary.{put, Items, Confs, items_of}
use c_plus_plus.ParseConfig.Errors.{Error, open_failed}
use c_plus_plus.ParseConfig.Checks.{
  u32_mod, starts_by, check_section_name, equals_pos, check_conf_item,
}

-- What the last call of `getline` returns: it fails if it reads nothing.
abbrev pub last_line : Bytes → List Bytes
last_line [] = []
last_line (d ∷ line) = (d ∷ line) ∷ []

-- The lines that `getline` returns, from the text of the current one: without their `\n`, and with no
-- empty line behind the last `\n`.
unfoldable pub lines_from : Bytes → Bytes → List Bytes
lines_from line [] = last_line line
lines_from line (c ∷ s) =
    let next = lines_from [] s in
    let longer = lines_from (line ++ c ∷ []) s in if c == b'\n' then line ∷ next else longer

abbrev pub get_lines : Bytes → List Bytes
get_lines content = lines_from [] content

-- What the loop changes.
pub record Reader : Type 0 where
  pub section : Bytes
  pub confs : Confs

-- The configuration name and value of a line.
abbrev pub name_of : Bytes → Bytes
name_of conf = elim (equals_pos conf) [ none ↦ conf | some pos ↦ take pos conf ]

abbrev pub value_of : Bytes → Bytes
value_of conf = elim (equals_pos conf) [ none ↦ conf | some pos ↦ drop (pos + 1) conf ]

-- Whether `strConf.find("[")` finds one.
abbrev pub has_bracket : Bytes → Bool
has_bracket conf = elim (find_if (λ c. c == b'[') conf) [ none ↦ false | some pos ↦ true ]

-- `(*pmConfs)[section][name] = value`
abbrev pub assign : Bytes → Bytes → Bytes → Confs → Confs
assign section name value confs = put section (put name value (items_of section confs)) confs

-- The body of the loop, on a line without the white space around it.
pub read_conf : Bytes → ℕ → Reader → Reader × Option Error
read_conf [] line_num r = (r, none)
read_conf (c ∷ s) line_num r =
    let conf = c ∷ s in
    if c == b'#'
    then (r, none)
    else if has_bracket conf
    then elim (check_section_name conf line_num) [
      | some e ↦ (r, some e)
      | none ↦ (record r { section = conf }, none)
    ]
    else elim (check_conf_item conf line_num) [
      | some e ↦ (r, some e)
      | none ↦ (record r { confs = assign r.section (name_of conf) (value_of conf) r.confs }, none)
    ]

-- The loop. An exception ends it and leaves the map as it is; the counter is a `uint32_t`.
pub read_lines : List Bytes → ℕ → Reader → Reader × Option Error
read_lines [] line_num r = (r, none)
read_lines (line ∷ lines) line_num r =
    let (r', e) = read_conf (rm_space_in_beg_and_end line) line_num r in
    elim e [ some e' ↦ (r', some e') | none ↦ read_lines lines ((line_num + 1) % u32_mod) r' ]

-- `parseConfFileIntoMap`: the new map, and what was thrown. The map is cleared first.
pub parse_conf_file_into_map : Bytes → Option Bytes → Confs × Option Error
parse_conf_file_into_map path none = ([], some (open_failed path))
parse_conf_file_into_map path (some content) =
    let (r, e) = read_lines (get_lines content) 1 (record { section = []; confs = [] }) in
    (r.confs, e)

-- The inner loop of `printConfInMap`.
pub print_items : Items → Bytes
print_items [] = []
print_items ((name, value) ∷ items) = name ++ b'=' ∷ (value ++ b'\n' ∷ print_items items)

-- `printConfInMap`
pub print_conf_in_map : Confs → Bytes
print_conf_in_map [] = []
print_conf_in_map ((section, items) ∷ confs) =
    section ++ b'\n' ∷ (print_items items ++ print_conf_in_map confs)
