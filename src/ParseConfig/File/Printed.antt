-- ===== src/ParseConfig/File/Printed.antt =====
-- Reading back what printConfInMap of parse_config/ParseConfig.hpp writes.
pub mod RoundTrip
use c_plus_plus.Prelude.{
  ℕ, ◌+◌, ◌-◌, ◌/◌, ◌%◌, ◌^◌, ◌<◌, ◌≡◌, refl, sym, ap, ap₂, ◌∙◌, false, not, none, some, List, [],
  ◌∷◌, ◌++◌, map, append-nil, append_assoc, arith, ◌==◌, length, take, drop,
}
use c_plus_plus.Prelude.Chars.{Bytes}
use c_plus_plus.Prelude.Find.{find_if, All, equal, take-length, drop-length}
use mathlib.Core.Path.{subst⁻¹}
use c_plus_plus.ProcessString.{rm_space_in_beg_and_end}
use c_plus_plus.ParseConfig.Dictionary.{find, put, Items, Confs, items_of}
use c_plus_plus.ParseConfig.Dictionary.Order.{IsSorted}
use c_plus_plus.ParseConfig.Dictionary.Last.{
  AreBelow, put-AreBelow, put-last, find-AreBelow, find-last, Ascends, IsSorted-Ascends,
}
use c_plus_plus.ParseConfig.Errors.{Error}
use c_plus_plus.ParseConfig.Checks.{
  u32_mod, starts_by, check_section_name, check_conf_item, equals_pos,
}
use c_plus_plus.ParseConfig.Checks.Formats.{
  not_equals, IsItem, equals_pos-split, check_conf_item_iff,
}
use c_plus_plus.ParseConfig.Checks.Sections.{IsSection, check_section_name_iff}
use c_plus_plus.ParseConfig.File.{
  get_lines, Reader, name_of, value_of, has_bracket, assign, read_conf, read_lines,
  parse_conf_file_into_map, print_conf_in_map,
}
use c_plus_plus.ParseConfig.File.Steps.{read_step, read_lines-cons}
use c_plus_plus.ParseConfig.File.Lines.{
  not_newline, item_line, item_lines, conf_lines, NoNewlines, NoNewlinesIn,
  get_lines-print_conf_in_map,
}

-- A line with no white space at its ends, and shorter than 2 ^ 32.
pub record IsText (s : Bytes) : Type 0 where
  pub one_line : All not_newline s
  pub bare : rm_space_in_beg_and_end s ≡ s
  pub small : length s < u32_mod

pub record IsItemLine (name value : Bytes) : Type 0 where
  pub text : IsText (name ++ b'=' ∷ value)
  pub item : IsItem (name ++ b'=' ∷ value)
  pub name_plain : All not_equals name
  pub no_bracket : has_bracket (name ++ b'=' ∷ value) ≡ false
  pub no_comment : starts_by b'#' (name ++ b'=' ∷ value) ≡ false

abbrev pub AreItemLines : Items → Type 0
AreItemLines [] = Unit
AreItemLines ((name, value) ∷ items) = IsItemLine name value × AreItemLines items

read_conf-assign :
    (c : ℕ) (s : Bytes) (n : ℕ) (r : Reader)
    → (c == b'#') ≡ false
    → has_bracket (c ∷ s) ≡ false
    → check_conf_item (c ∷ s) n ≡ none
    → read_conf (c ∷ s) n r
      ≡ (record r { confs = assign r.section (name_of (c ∷ s)) (value_of (c ∷ s)) r.confs }, none)
unfolding read_conf
read_conf-assign c s n r h b e = rw (h, b, e)

pub read_conf-section :
    (s : Bytes) (n : ℕ) (r : Reader)
    → check_section_name (b'[' ∷ s) n ≡ none
    → read_conf (b'[' ∷ s) n r ≡ (record r { section = b'[' ∷ s }, none)
unfolding read_conf find_if
read_conf-section s n r e = rw e

name_of-some :
    (conf : Bytes) (pos : ℕ)
    → equals_pos conf ≡ some pos
    → (name_of conf ≡ take pos conf) × (value_of conf ≡ drop (pos + 1) conf)
name_of-some conf pos e = (rw (e, name_of), rw (e, value_of))

pub name_of-split :
    (name value : Bytes)
    → All not_equals name
    → (name_of (name ++ b'=' ∷ value) ≡ name) × (value_of (name ++ b'=' ∷ value) ≡ value)
name_of-split name value a =
    let (n, v) =
      name_of-some (name ++ b'=' ∷ value) (length name) (equals_pos-split name value a) in
    (
      n ∙ take-length name (b'=' ∷ value) (length name) refl,
      v ∙ drop-length name (b'=' ∷ value) (length name + 1) 1 (omega arith),
    )

-- A written item is assigned to the section that is read.
read_conf-line :
    (c : ℕ) (s name value : Bytes) (n : ℕ) (r : Reader)
    → c ∷ s ≡ name ++ b'=' ∷ value
    → IsItemLine name value
    → read_conf (c ∷ s) n r ≡ (record r { confs = assign r.section name value r.confs }, none)
read_conf-line c s name value n r e i =
    let parts = name_of-split name value i.name_plain in
    read_conf-assign c s n r (ap (starts_by b'#') e ∙ i.no_comment)
      (ap has_bracket e ∙ i.no_bracket)
      (ap (λ t. check_conf_item t n) e
        ∙ (check_conf_item_iff (name ++ b'=' ∷ value) n i.text.small).1 i.item)
    ∙ ap₂ (λ x y. (record r { confs = assign r.section x y r.confs }, none))
        (ap name_of e ∙ parts.0) (ap value_of e ∙ parts.1)

pub read_conf-item :
    (name value : Bytes) (n : ℕ) (r : Reader)
    → IsItemLine name value
    → read_conf (name ++ b'=' ∷ value) n r
      ≡ (record r { confs = assign r.section name value r.confs }, none)
read_conf-item [] value n r i = read_conf-line b'=' value [] value n r refl i
read_conf-item (c ∷ name) value n r i =
    read_conf-line c (name ++ b'=' ∷ value) (c ∷ name) value n r refl i

pub read_lines-line :
    (line : Bytes) (lines : List Bytes) (n : ℕ) (r r' : Reader)
    → rm_space_in_beg_and_end line ≡ line
    → read_conf line n r ≡ (r', none)
    → read_lines (line ∷ lines) n r ≡ read_lines lines ((n + 1) % u32_mod) r'
read_lines-line line lines n r r' bare e =
    let same = ap (λ t. read_conf t n r) bare ∙ e in
    read_lines-cons line lines n r
    ∙ subst⁻¹ (λ p. read_step lines n p ≡ read_lines lines ((n + 1) % u32_mod) r') same refl

items_of-some :
    (section : Bytes) (confs : Confs) (items : Items)
    → find section confs ≡ some items
    → items_of section confs ≡ items
items_of-some section confs items e = rw (e, items_of)

items_of-none :
    (section : Bytes) (confs : Confs) → find section confs ≡ none → items_of section confs ≡ []
items_of-none section confs e = rw (e, items_of)

assign-last :
    (section name value : Bytes) (done : Confs) (acc : Items)
    → AreBelow section done
    → AreBelow name acc
    → assign section name value (done ++ (section, acc) ∷ [])
      ≡ done ++ (section, acc ++ (name, value) ∷ []) ∷ []
assign-last section name value done acc a b =
    let held : items_of section (done ++ (section, acc) ∷ []) ≡ acc =
      items_of-some section (done ++ (section, acc) ∷ []) acc (find-last section acc done a) in
    ap (λ t. put section (put name value t) (done ++ (section, acc) ∷ [])) held
    ∙ put-last section (put name value acc) acc done a
    ∙ ap (λ t. done ++ (section, t) ∷ []) (put-AreBelow name value acc b)

pub assign-first :
    (section name value : Bytes) (done : Confs)
    → AreBelow section done
    → assign section name value done ≡ done ++ (section, (name, value) ∷ []) ∷ []
unfolding put
assign-first section name value done a =
    let held : items_of section done ≡ [] =
      items_of-none section done (find-AreBelow section done a) in
    ap (λ t. put section (put name value t) done) held
    ∙ put-AreBelow section ((name, value) ∷ []) done a

-- The items that follow the first one of a section.
pub read_items :
    (section : Bytes) (done : Confs) (acc items : Items) (lines : List Bytes) (n : ℕ)
    → AreBelow section done
    → AreItemLines items
    → Ascends acc items
    → (n' : ℕ) × (read_lines
          (item_lines items ++ lines)
          n
          (record { section = section; confs = done ++ (section, acc) ∷ [] })
        ≡ read_lines lines n'
            (record { section = section; confs = done ++ (section, acc ++ items) ∷ [] }))
read_items section done acc [] lines n b i a = (
  n,
  ap (λ t. read_lines lines n (record { section = section; confs = done ++ (section, t) ∷ [] }))
      (sym (append-nil acc)),
)
read_items section done acc ((name, value) ∷ items) lines n b (i, is) a =
    let (n', e) =
      read_items section done (acc ++ (name, value) ∷ []) items lines ((n + 1) % u32_mod) b is
        a.1 in
    (
      n',
      read_lines-line (name ++ b'=' ∷ value) (item_lines items ++ lines) n
            (record { section = section; confs = done ++ (section, acc) ∷ [] })
            (record {
              section = section;
              confs = done ++ (section, acc ++ (name, value) ∷ []) ∷ [];
            })
            i.text.bare
            (read_conf-item name value n
                (record { section = section; confs = done ++ (section, acc) ∷ [] }) i
              ∙ ap (λ t. (record { section = section; confs = t }, none))
                  (assign-last section name value done acc b a.0))
          ∙ e
          ∙ ap
              (λ t.
                read_lines lines n'
                  (record { section = section; confs = done ++ (section, t) ∷ [] }))
              (append_assoc acc ((name, value) ∷ []) items),
    )
