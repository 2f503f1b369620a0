-- ===== src/ParseConfig/File/LastItem.antt =====
-- What parseConfFileIntoMap of parse_config/ParseConfig.hpp leaves in the map: the last item of a name.
use c_plus_plus.Prelude.{
  ℕ, ◌+◌, ◌%◌, ◌<◌, ◌≡◌, refl, sym, ap, ◌∙◌, Bool, true, false, ◌&&◌, Option, none, some, List, [],
  ◌∷◌, ◌++◌, if◌then◌else◌, length,
}
use c_plus_plus.Prelude.Chars.{Bytes}
use c_plus_plus.Prelude.Find.{equal}
use mathlib.Core.Path.{subst⁻¹}
use c_plus_plus.ProcessString.{rm_space_in_beg_and_end}
use c_plus_plus.ParseConfig.Dictionary.{find}
use c_plus_plus.ParseConfig.Dictionary.Held.{held, held-put}
use c_plus_plus.ParseConfig.Checks.{u32_mod, check_section_name}
use c_plus_plus.ParseConfig.Checks.Sections.{IsSection, check_section_name_iff}
use c_plus_plus.ParseConfig.Errors.{Error}
use c_plus_plus.ParseConfig.File.{
  get_lines, Reader, assign, read_conf, read_lines, parse_conf_file_into_map,
}
use c_plus_plus.ParseConfig.File.Steps.{read_step, read_lines-cons, read_conf-comment}
use c_plus_plus.ParseConfig.File.Printed.{IsItemLine, read_conf-item, read_conf-section}

-- A line, as it is without the white space at its ends: empty or a comment, a section, or an item.
pub data Entry : Type 0 where
  empty : Entry
  comment : Bytes → Entry
  heading : Bytes → Entry
  item : Bytes → Bytes → Entry

abbrev pub text_of : Entry → Bytes
text_of empty = []
text_of (comment s) = b'#' ∷ s
text_of (heading section) = section
text_of (item name value) = name ++ b'=' ∷ value

abbrev pub IsEntry : Entry → Type 0
IsEntry empty = Unit
IsEntry (comment s) = Unit
IsEntry (heading section) = IsSection section × (length section < u32_mod)
IsEntry (item name value) = IsItemLine name value

abbrev pub Reads : List Bytes → List Entry → Type 0
Reads [] [] = Unit
Reads [] (e ∷ es) = ⊥
Reads (l ∷ ls) [] = ⊥
Reads (l ∷ ls) (e ∷ es) = ((rm_space_in_beg_and_end l ≡ text_of e) × IsEntry e) × Reads ls es

-- The value of the last item with the name under a heading of the section; the third argument is the
-- section in front of the entries.
abbrev pub last_value : Bytes → Bytes → Bytes → List Entry → Option Bytes
last_value section name current [] = none
last_value section name current (empty ∷ es) = last_value section name current es
last_value section name current (comment s ∷ es) = last_value section name current es
last_value section name current (heading other ∷ es) = last_value section name other es
last_value section name current (item label value ∷ es) =
    elim (last_value section name current es) [
      | none ↦ if equal current section && equal label name then some value else none
      | some later ↦ some later
    ]

-- What is found, or else what was held before.
abbrev or_else : Option Bytes → Option Bytes → Option Bytes
or_else none before = before
or_else (some v) before = some v

or_else-item :
    (later before : Option Bytes) (b : Bool) (value : Bytes)
    → or_else later (if b then some value else before)
      ≡ or_else (elim later [ none ↦ if b then some value else none | some v ↦ some v ]) before
or_else-item none before true value = refl
or_else-item none before false value = refl
or_else-item (some v) before b value = refl

abbrev after : Entry → Reader → Reader
after empty r = r
after (comment s) r = r
after (heading section) r = record r { section = section }
after (item name value) r = record r { confs = assign r.section name value r.confs }

read_conf-after :
    (e : Entry) (n : ℕ) (r : Reader) → IsEntry e → read_conf (text_of e) n r ≡ (after e r, none)
read_conf-after empty n r w = unfold read_conf in refl
read_conf-after (comment s) n r w = read_conf-comment b'#' s n r refl
read_conf-after (heading section) n r w =
    subst⁻¹ (λ s. read_conf s n r ≡ (record r { section = s }, none)) w.0.whole
      (read_conf-section (w.0.name ++ b']' ∷ []) n r (
        ap (λ s. check_section_name s n) (sym w.0.whole)
        ∙ (check_section_name_iff section n w.1).1 w.0))
read_conf-after (item name value) n r w = read_conf-item name value n r w

read_lines-after :
    (line : Bytes) (lines : List Bytes) (e : Entry) (n : ℕ) (r : Reader)
    → rm_space_in_beg_and_end line ≡ text_of e
    → IsEntry e
    → read_lines (line ∷ lines) n r ≡ read_lines lines ((n + 1) % u32_mod) (after e r)
read_lines-after line lines e n r t w =
    read_lines-cons line lines n r
    ∙ ap (read_step lines n) (ap (λ s. read_conf s n r) t ∙ read_conf-after e n r w)

-- What the loop leaves.
abbrev Leaves : Bytes → Bytes → List Entry → Reader → Reader × Option Error → Type 0
Leaves section name es r p =
    (p.1 ≡ none)
    × (held section name p.0.confs
        ≡ or_else (last_value section name r.section es) (held section name r.confs))

read_lines-Leaves :
    (section name : Bytes) (lines : List Bytes) (es : List Entry) (n : ℕ) (r : Reader)
    → Reads lines es
    → Leaves section name es r (read_lines lines n r)
read_lines-Leaves section name [] [] n r w = unfold read_lines in (refl, refl)
read_lines-Leaves section name [] (e ∷ es) n r w = absurd w
read_lines-Leaves section name (l ∷ lines) [] n r w = absurd w
read_lines-Leaves section name (l ∷ lines) (e ∷ es) n r w =
    let rest = read_lines-Leaves section name lines es ((n + 1) % u32_mod) (after e r) w.1 in
    let step = read_lines-after l lines e n r w.0.0 w.0.1 in
    subst⁻¹ (λ p. Leaves section name (e ∷ es) r p) step (rest.0, rest.1 ∙ by_entry e)
  where
    by_entry :
        (e : Entry)
        → or_else
            (last_value section name (after e r).section es)
            (held section name (after e r).confs)
          ≡ or_else (last_value section name r.section (e ∷ es)) (held section name r.confs)
    by_entry empty = refl
    by_entry (comment s) = refl
    by_entry (heading other) = refl
    by_entry (item label value) =
        ap (or_else (last_value section name r.section es))
          (held-put section name r.section label value r.confs)
        ∙ or_else-item (last_value section name r.section es) (held section name r.confs)
            (equal r.section section && equal label name) value

-- A file whose lines, without the white space at their ends, are empty, comments, sections and items of a
-- configuration is parsed without an error, and the map has for each section and name the value of the
-- last item of that name under any heading of that section, and nothing where there is no such item.
-- A section is a line that the check of section names accepts; an item is one that the check of items
-- accepts, with no `[` in it, no `#` in front and no `=` in its name; both have fewer than 2 ^ 32 bytes.
pub parse_conf_file_into_map-last :
    (path content section name : Bytes) (es : List Entry)
    → Reads (get_lines content) es
    → ((parse_conf_file_into_map path (some content)).1 ≡ none)
      × (held section name (parse_conf_file_into_map path (some content)).0
          ≡ last_value section name [] es)
unfolding parse_conf_file_into_map find
parse_conf_file_into_map-last path content section name es w =
    let left =
      read_lines-Leaves section name (get_lines content) es 1 (record { section = []; confs = [] })
        w in
    (left.0, left.1 ∙ nothing_before (last_value section name [] es))
  where
    nothing_before : (o : Option Bytes) → or_else o (held section name []) ≡ o
    nothing_before none = refl
    nothing_before (some v) = refl
