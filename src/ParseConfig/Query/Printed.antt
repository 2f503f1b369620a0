-- ===== src/ParseConfig/Query/Printed.antt =====
-- getSpecConfValFromFile of parse_config/ParseConfig.hpp on what printConfInMap writes.
pub mod Lookup
use c_plus_plus.Prelude.{
  ℕ, ◌+◌, ◌-◌, ◌/◌, ◌%◌, ◌≡◌, refl, sym, ap, ap₂, ◌∙◌, inl, inr, Bool, true, false, Option, none,
  some, List, [], ◌∷◌, ◌++◌, map, arith, ◌==◌, if◌then◌else◌, Bool-cases,
}
use c_plus_plus.Prelude.Chars.{Bytes}
use c_plus_plus.Prelude.Find.{find_if, equal}
use mathlib.Core.Path.{subst⁻¹}
use c_plus_plus.ProcessString.{rm_space_in_beg_and_end}
use c_plus_plus.ParseConfig.Dictionary.{find, Items, Confs, items_of}
use c_plus_plus.ParseConfig.Errors.{no_item_in, Result, ok, err}
use c_plus_plus.ParseConfig.Checks.{u32_mod, starts_by, check_section_name, check_conf_item}
use c_plus_plus.ParseConfig.Checks.Formats.{check_conf_item_iff}
use c_plus_plus.ParseConfig.Checks.Sections.{IsSection, check_section_name_iff}
use c_plus_plus.ParseConfig.File.{get_lines, name_of, value_of, has_bracket, print_conf_in_map}
use c_plus_plus.ParseConfig.File.Lines.{item_lines, conf_lines, get_lines-print_conf_in_map}
use c_plus_plus.ParseConfig.File.Printed.{IsText, IsItemLine, AreItemLines, name_of-split}
use c_plus_plus.ParseConfig.File.Printed.RoundTrip.{IsBody, AreNamed, IsPrintable}
use c_plus_plus.ParseConfig.Query.{
  value_in_section, items_body, search_items, section_body, search_section, require,
  value_from_file,
}

module _ (name : Bytes) (c : ℕ) (s : Bytes) (n : ℕ) (rest : Result Bytes) where
  items_body-item :
      (c == b'#') ≡ false
      → has_bracket (c ∷ s) ≡ false
      → check_conf_item (c ∷ s) n ≡ none
      → items_body name (c ∷ s) n rest
        ≡ (if equal name (name_of (c ∷ s)) then ok (value_of (c ∷ s)) else rest)
  unfolding items_body
  items_body-item h b e = rw (h, b, e)

items_body-line :
    (wanted : Bytes) (c : ℕ) (s name value : Bytes) (n : ℕ) (rest : Result Bytes)
    → c ∷ s ≡ name ++ b'=' ∷ value
    → IsItemLine name value
    → items_body wanted (c ∷ s) n rest ≡ (if equal wanted name then ok value else rest)
items_body-line wanted c s name value n rest e i =
    let parts = name_of-split name value i.name_plain in
    items_body-item wanted c s n rest (ap (starts_by b'#') e ∙ i.no_comment)
      (ap has_bracket e ∙ i.no_bracket)
      (ap (λ t. check_conf_item t n) e
        ∙ (check_conf_item_iff (name ++ b'=' ∷ value) n i.text.small).1 i.item)
    ∙ ap₂ (λ x y. if equal wanted x then ok y else rest) (ap name_of e ∙ parts.0)
        (ap value_of e ∙ parts.1)

section_body-item :
    (section : Bytes) (c : ℕ) (s : Bytes) (n : ℕ) (items rest : Result Bytes)
    → (c == b'#') ≡ false
    → has_bracket (c ∷ s) ≡ false
    → section_body section (c ∷ s) n items rest ≡ rest
unfolding section_body
section_body-item section c s n items rest h b = rw (h, b)

pub section_body-named :
    (section s : Bytes) (n : ℕ) (items rest : Result Bytes)
    → check_section_name (b'[' ∷ s) n ≡ none
    → section_body section (b'[' ∷ s) n items rest
      ≡ (if equal section (b'[' ∷ s) then items else rest)
unfolding section_body find_if
section_body-named section s n items rest e = rw e

items_body-section :
    (wanted s : Bytes) (n : ℕ) (rest : Result Bytes) → items_body wanted (b'[' ∷ s) n rest ≡ ok []
unfolding items_body find_if
items_body-section wanted s n rest = refl

pub equal_sym : (a b : Bytes) → equal a b ≡ equal b a
unfolding equal
equal_sym [] [] = refl
equal_sym [] (y ∷ b) = refl
equal_sym (x ∷ a) [] = refl
equal_sym (x ∷ a) (y ∷ b) = ground (arith, equal_sym a b)

-- What is found, and the empty string otherwise.
abbrev pub found : Option Bytes → Result Bytes
found none = ok []
found (some v) = ok v

found-cons :
    (wanted name value : Bytes) (items : Items)
    → found (find wanted ((name, value) ∷ items))
      ≡ (if equal wanted name then ok value else found (find wanted items))
unfolding find
found-cons wanted name value items = elim (Bool-cases (equal name wanted)) [
  | inl h ↦ let h' : equal wanted name ≡ true = equal_sym wanted name ∙ h in rw (h, h')
  | inr h ↦ let h' : equal wanted name ≡ false = equal_sym wanted name ∙ h in rw (h, h')
]

search_items-cons :
    (wanted line : Bytes) (lines : List Bytes) (n : ℕ)
    → search_items wanted (line ∷ lines) n
      ≡ items_body wanted
          (rm_space_in_beg_and_end line)
          n
          (search_items wanted lines ((n + 1) % u32_mod))
unfolding search_items
search_items-cons wanted line lines n = refl

items_body-item_line :
    (wanted name value : Bytes) (n : ℕ) (rest : Result Bytes)
    → IsItemLine name value
    → items_body wanted (name ++ b'=' ∷ value) n rest
      ≡ (if equal wanted name then ok value else rest)
items_body-item_line wanted [] value n rest i =
    items_body-line wanted b'=' value [] value n rest refl i
items_body-item_line wanted (c ∷ name) value n rest i =
    items_body-line wanted c (name ++ b'=' ∷ value) (c ∷ name) value n rest refl i

pub search_items-lines :
    (wanted : Bytes) (items : Items) (confs : Confs) (n : ℕ)
    → AreItemLines items
    → AreNamed confs
    → search_items wanted (item_lines items ++ conf_lines confs) n ≡ found (find wanted items)
search_items-lines wanted [] [] n i w = unfold search_items in unfold find in refl
search_items-lines wanted [] ((section, items) ∷ confs) n i (t, s, b, w) =
    let rest = search_items wanted (item_lines items ++ conf_lines confs) ((n + 1) % u32_mod) in
    search_items-cons wanted section (item_lines items ++ conf_lines confs) n
    ∙ ap (λ l. items_body wanted l n rest) (t.bare ∙ s.whole)
    ∙ items_body-section wanted (s.name ++ b']' ∷ []) n rest
    ∙ unfold find in refl
search_items-lines wanted ((name, value) ∷ items) confs n (i, is) w =
    let rest = search_items wanted (item_lines items ++ conf_lines confs) ((n + 1) % u32_mod) in
    search_items-cons wanted (name ++ b'=' ∷ value) (item_lines items ++ conf_lines confs) n
    ∙ ap (λ l. items_body wanted l n rest) i.text.bare
    ∙ items_body-item_line wanted name value n rest i
    ∙ ap (λ r. if equal wanted name then ok value else r)
        (search_items-lines wanted items confs ((n + 1) % u32_mod) is w)
    ∙ sym (found-cons wanted name value items)

module _ (section wanted : Bytes) where
  pub search_section-cons :
      (line : Bytes) (lines : List Bytes) (n : ℕ)
      → search_section section wanted (line ∷ lines) n
        ≡ section_body section
            (rm_space_in_beg_and_end line)
            n
            (search_items wanted lines n)
            (search_section section wanted lines ((n + 1) % u32_mod))
  unfolding search_section
  search_section-cons line lines n = refl

  section_body-item_line :
      (name value : Bytes) (n : ℕ) (items rest : Result Bytes)
      → IsItemLine name value
      → section_body section (name ++ b'=' ∷ value) n items rest ≡ rest
  section_body-item_line [] value n items rest i =
      section_body-item section b'=' value n items rest i.no_comment i.no_bracket
  section_body-item_line (c ∷ name) value n items rest i =
      section_body-item section c (name ++ b'=' ∷ value) n items rest i.no_comment i.no_bracket

  pub search_section-items :
      (items : Items) (lines : List Bytes) (n : ℕ)
      → AreItemLines items
      → (n' : ℕ) × (search_section section wanted (item_lines items ++ lines) n
          ≡ search_section section wanted lines n')
  search_section-items [] lines n i = (n, refl)
  search_section-items ((name, value) ∷ items) lines n (i, is) =
      let (n', e) = search_section-items items lines ((n + 1) % u32_mod) is in
      (
        n',
        search_section-cons (name ++ b'=' ∷ value) (item_lines items ++ lines) n
            ∙ ap
                (λ l.
                  section_body section l n (search_items wanted (item_lines items ++ lines) n)
                    (search_section section wanted (item_lines items ++ lines) ((n + 1) % u32_mod)))
                i.text.bare
            ∙ section_body-item_line name value n
                (search_items wanted (item_lines items ++ lines) n)
                (search_section section wanted (item_lines items ++ lines) ((n + 1) % u32_mod)) i
            ∙ e,
      )
