-- ===== src/ParseConfig/Query/Printed/Lookup.antt =====
-- The two getSpecConfValFrom functions of a section of parse_config/ParseConfig.hpp, one against the
-- other.
use c_plus_plus.Prelude.{
  ℕ, ◌+◌, ◌%◌, ◌≡◌, refl, sym, ap, ap₂, ◌∙◌, inl, inr, Bool, true, false, Option, none, some, [],
  ◌∷◌, ◌++◌, if◌then◌else◌, Bool-cases,
}
use c_plus_plus.Prelude.Chars.{Bytes}
use c_plus_plus.Prelude.Find.{equal}
use c_plus_plus.ProcessString.{rm_space_in_beg_and_end}
use c_plus_plus.ParseConfig.Dictionary.{find, Items, Confs, items_of}
use c_plus_plus.ParseConfig.Errors.{no_item_in, Result, ok}
use c_plus_plus.ParseConfig.Checks.{u32_mod, check_section_name}
use c_plus_plus.ParseConfig.Checks.Sections.{IsSection, check_section_name_iff}
use c_plus_plus.ParseConfig.File.{print_conf_in_map}
use c_plus_plus.ParseConfig.File.Lines.{item_lines, conf_lines, get_lines-print_conf_in_map}
use c_plus_plus.ParseConfig.File.Printed.{IsText, AreItemLines}
use c_plus_plus.ParseConfig.File.Printed.RoundTrip.{
  IsBody, AreNamed, IsPrintable, IsPrintable-NoNewlinesIn,
}
use c_plus_plus.ParseConfig.Query.{
  value_in_section, search_items, section_body, search_section, require, value_from_file,
}
use c_plus_plus.ParseConfig.Query.Printed.{
  equal_sym, found, section_body-named, search_items-lines, search_section-cons,
  search_section-items,
}

items_of-cons :
    (section other : Bytes) (held : Items) (confs : Confs)
    → items_of section ((other, held) ∷ confs)
      ≡ (if equal other section then held else items_of section confs)
unfolding find
items_of-cons section other held confs = elim (Bool-cases (equal other section)) [
  | inl e ↦ rw (e, items_of)
  | inr e ↦ rw (e, items_of)
]

body_lines : (items : Items) → IsBody items → AreItemLines items
body_lines [] b = absurd b
body_lines ((name, value) ∷ items) b = b.0

equal-nil : (c : ℕ) (s : Bytes) → equal [] (c ∷ s) ≡ false
unfolding equal
equal-nil c s = refl

section_body-blank :
    (section : Bytes) (n : ℕ) (items rest : Result Bytes)
    → section_body section (rm_space_in_beg_and_end []) n items rest ≡ rest
unfolding section_body rm_space_in_beg_and_end
section_body-blank section n items rest = refl

module _ (section wanted : Bytes) where
  section_body-section :
      (other : Bytes) (n : ℕ) (items rest : Result Bytes)
      → IsText other
      → IsSection other
      → section_body section (rm_space_in_beg_and_end other) n items rest
        ≡ (if equal section other then items else rest)
  section_body-section other n items rest t s =
      let e = (check_section_name_iff other n t.small).1 s in
      ap (λ l. section_body section l n items rest) (t.bare ∙ s.whole)
      ∙ section_body-named section (s.name ++ b']' ∷ []) n items rest
          (ap (λ l. check_section_name l n) (sym s.whole) ∙ e)
      ∙ ap (λ l. if equal section l then items else rest) (sym s.whole)

  search_section-conf_lines :
      (confs : Confs) (n : ℕ)
      → AreNamed confs
      → search_section section wanted (conf_lines confs) n
        ≡ found (find wanted (items_of section confs))
  search_section-conf_lines [] n w = unfold search_section in unfold find in refl
  search_section-conf_lines ((other, items) ∷ confs) n (t, s, b, w) =
      let i = body_lines items b in
      let lines = item_lines items ++ conf_lines confs in
      let (n', e) =
        search_section-items section wanted items (conf_lines confs) ((n + 1) % u32_mod) i in
      search_section-cons section wanted other lines n
      ∙ section_body-section other n (search_items wanted lines n)
          (search_section section wanted lines ((n + 1) % u32_mod)) t s
      ∙ ap₂ (λ x y. if equal section other then x else y)
          (search_items-lines wanted items confs n i w) (e ∙ search_section-conf_lines confs n' w)
      ∙ ap
          (λ x.
            if x then found (find wanted items) else found (find wanted (items_of section confs)))
          (equal_sym section other)
      ∙ if_found (equal other section) items (items_of section confs)
      ∙ ap (λ x. found (find wanted x)) (sym (items_of-cons section other items confs))
    where
      if_found :
          (x : Bool) (one two : Items)
          → (if x then found (find wanted one) else found (find wanted two))
            ≡ found (find wanted (if x then one else two))
      if_found true one two = refl
      if_found false one two = refl

  -- Behind the line and the items of the section without a name.
  search_section-printed :
      (confs : Confs) (n : ℕ)
      → IsPrintable confs
      → IsSection section
      → search_section section wanted (conf_lines confs) n
        ≡ found (find wanted (items_of section confs))
  search_section-printed [] n w i = search_section-conf_lines [] n tt
  search_section-printed ((c ∷ s, items) ∷ confs) n w i =
      search_section-conf_lines ((c ∷ s, items) ∷ confs) n w
  search_section-printed (([], items) ∷ confs) n (b, w) i =
      let lines = item_lines items ++ conf_lines confs in
      let (n', e) =
        search_section-items section wanted items (conf_lines confs) ((n + 1) % u32_mod)
          (body_lines items b) in
      let other : equal [] section ≡ false = ap (equal []) i.whole ∙ unfold equal in refl in
      search_section-cons section wanted [] lines n
      ∙ section_body-blank section n (search_items wanted lines n)
          (search_section section wanted lines ((n + 1) % u32_mod))
      ∙ e
      ∙ search_section-conf_lines confs n' w
      ∙ ap (λ x. found (find wanted x))
          (ap (λ t. if t then items else items_of section confs) (sym other)
            ∙ sym (items_of-cons section [] items confs))

found-value :
    (section name : Bytes) (confs : Confs)
    → found (find name (items_of section confs)) ≡ ok (value_in_section section name confs).0
unfolding value_in_section
found-value section name confs = value (find name (items_of section confs))
  where
    value : (o : Option Bytes) → found o ≡ ok (elim o [ none ↦ [] | some v ↦ v ])
    value none = refl
    value (some v) = refl

-- In a file that `printConfInMap` has written, `getSpecConfValFromFile` of a named section finds the
-- value that `getSpecConfValFromMap` finds in the map, and throws where that is empty, for a map with
-- these properties. The items of each section are in the order of `std::map`; each section holds at
-- least one item, and the section without a name, if there is one, is the first; the line of a section is
-- one that the check of section names accepts; the line of an item is one that the check of items accepts,
-- has no `[` in it and no `#` in front, and its name has no `=`; and each line has no newline, no
-- white space at its ends, and fewer than 2 ^ 32 bytes.
pub value_from_file-print_conf_in_map :
    (path section name : Bytes) (confs : Confs)
    → IsPrintable confs
    → IsSection section
    → value_from_file section name path (some (print_conf_in_map confs))
      ≡ require (no_item_in section name) (ok (value_in_section section name confs).0)
unfolding value_from_file
value_from_file-print_conf_in_map path section name confs w i =
    ap (require (no_item_in section name)) (
      ap (λ l. search_section section name l 1)
        (get_lines-print_conf_in_map confs (IsPrintable-NoNewlinesIn confs w))
      ∙ search_section-printed section name confs 1 w i
      ∙ found-value section name confs)
