-- ===== src/ParseConfig/Query.antt =====
-- getSpecConfValFromMap and getSpecConfValFromFile of parse_config/ParseConfig.hpp.
pub mod Substrings
pub mod Printed
use c_plus_plus.Prelude.{
  ℕ, ◌+◌, ◌-◌, ◌/◌, ◌%◌, ap, not, ◌&&◌, Option, none, some, List, [], ◌∷◌, map, ◌==◌, if◌then◌else◌,
}
use c_plus_plus.Prelude.Chars.{Bytes}
use c_plus_plus.Prelude.Find.{equal, find_sub}
use c_plus_plus.ProcessString.{rm_space_in_beg_and_end}
use c_plus_plus.ParseConfig.Dictionary.{find, put, Confs, items_of}
use c_plus_plus.ParseConfig.Errors.{Error, open_failed, no_item_in, no_item, Result, ok, err}
use c_plus_plus.ParseConfig.Checks.{u32_mod, check_section_name, check_conf_item}
use c_plus_plus.ParseConfig.File.{get_lines, name_of, value_of, has_bracket}

-- `getSpecConfValFromMap(section, name)`: the value, empty where there is none, and the map, to which
-- `operator[]` adds a section that was not there.
pub value_in_section : Bytes → Bytes → Confs → Bytes × Confs
value_in_section section name confs =
    let value : Bytes = elim (find name (items_of section confs)) [ none ↦ [] | some v ↦ v ] in
    let confs' : Confs = elim (find section confs) [
      | none ↦ put section [] confs
      | some items ↦ confs
    ] in
    (value, confs')

-- `getSpecConfValFromMap(name)`: from the first section that has the name.
pub value_in_any : Bytes → Confs → Bytes
value_in_any name [] = []
value_in_any name ((section, items) ∷ confs) =
    let rest = value_in_any name confs in elim (find name items) [ some v ↦ v | none ↦ rest ]

-- The body of the inner loop of `getSpecConfValFromFile(section, name)`, in the section that was
-- asked for, on a line without the white space around it and with the result of the lines behind it:
-- the value, empty if it was not found.
pub items_body : Bytes → Bytes → ℕ → Result Bytes → Result Bytes
items_body name [] line_num rest = rest
items_body name (c ∷ s) line_num rest =
    if c == b'#'
    then rest
    else if has_bracket (c ∷ s)
    then ok []
    else elim (check_conf_item (c ∷ s) line_num) [
      | some e ↦ err e
      | none ↦ if equal name (name_of (c ∷ s)) then ok (value_of (c ∷ s)) else rest
    ]

pub search_items : Bytes → List Bytes → ℕ → Result Bytes
search_items name [] line_num = ok []
search_items name (line ∷ lines) line_num =
    items_body name (rm_space_in_beg_and_end line) line_num
      (search_items name lines ((line_num + 1) % u32_mod))

-- The body of the outer loop, which looks for the section: `items` is the result of the inner loop.
pub section_body : Bytes → Bytes → ℕ → Result Bytes → Result Bytes → Result Bytes
section_body section [] line_num items rest = rest
section_body section (c ∷ s) line_num items rest =
    if c == b'#'
    then rest
    else if has_bracket (c ∷ s)
    then elim (check_section_name (c ∷ s) line_num) [
      | some e ↦ err e
      | none ↦ if equal section (c ∷ s) then items else rest
    ]
    else rest

pub search_section : Bytes → Bytes → List Bytes → ℕ → Result Bytes
search_section section name [] line_num = ok []
search_section section name (line ∷ lines) line_num =
    section_body section (rm_space_in_beg_and_end line) line_num (search_items name lines line_num)
      (search_section section name lines ((line_num + 1) % u32_mod))

-- The test at `LABEL_END`.
abbrev pub require : Error → Result Bytes → Result Bytes
require e (err e') = err e'
require e (ok []) = err e
require e (ok (c ∷ v)) = ok (c ∷ v)

-- `getSpecConfValFromFile(section, name)`
pub value_from_file : Bytes → Bytes → Bytes → Option Bytes → Result Bytes
value_from_file section name path none = err (open_failed path)
value_from_file section name path (some content) =
    require (no_item_in section name) (search_section section name (get_lines content) 1)

-- The body of the loop of `getSpecConfValFromFile(name)`.
pub any_body : Bytes → Bytes → ℕ → Result Bytes → Result Bytes
any_body name [] line_num rest = rest
any_body name (c ∷ s) line_num rest =
    if not (c == b'#') && not (c == b'[')
    then elim (check_conf_item (c ∷ s) line_num) [
      | some e ↦ err e
      | none ↦ elim (find_sub name (c ∷ s)) [ none ↦ rest | some pos ↦ ok (value_of (c ∷ s)) ]
    ]
    else rest

pub search_any : Bytes → List Bytes → ℕ → Result Bytes
search_any name [] line_num = ok []
search_any name (line ∷ lines) line_num =
    any_body name (rm_space_in_beg_and_end line) line_num
      (search_any name lines ((line_num + 1) % u32_mod))

-- `getSpecConfValFromFile(name)`
pub value_from_file_any : Bytes → Bytes → Option Bytes → Result Bytes
value_from_file_any name path none = err (open_failed path)
value_from_file_any name path (some content) =
    require (no_item name) (search_any name (get_lines content) 1)
