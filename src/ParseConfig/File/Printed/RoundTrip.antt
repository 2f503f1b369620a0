-- ===== src/ParseConfig/File/Printed/RoundTrip.antt =====
-- parseConfFileIntoMap of parse_config/ParseConfig.hpp on what printConfInMap writes.
use c_plus_plus.Prelude.{
  ℕ, ◌+◌, ◌%◌, ◌≡◌, refl, sym, ap, ◌∙◌, none, some, List, [], ◌∷◌, ◌++◌, append-nil, append_assoc,
}
use c_plus_plus.Prelude.Chars.{Bytes}
use c_plus_plus.ProcessString.{rm_space_in_beg_and_end}
use c_plus_plus.ParseConfig.Dictionary.{Items, Confs}
use c_plus_plus.ParseConfig.Dictionary.Order.{IsSorted}
use c_plus_plus.ParseConfig.Dictionary.Last.{AreBelow, Ascends, IsSorted-Ascends}
use c_plus_plus.ParseConfig.Checks.{u32_mod, check_section_name}
use c_plus_plus.ParseConfig.Checks.Sections.{IsSection, check_section_name_iff}
use c_plus_plus.ParseConfig.File.{
  Reader, read_conf, read_lines, parse_conf_file_into_map, print_conf_in_map,
}
use c_plus_plus.ParseConfig.File.Lines.{
  item_lines, conf_lines, NoNewlines, NoNewlinesIn, get_lines-print_conf_in_map,
}
use c_plus_plus.ParseConfig.File.Printed.{
  IsText, AreItemLines, read_lines-line, read_conf-item, assign-first, read_items,
  read_conf-section,
}

-- The items of a section that `assign` can have made: at least one, in order.
abbrev pub IsBody : Items → Type 0
IsBody [] = ⊥
IsBody ((name, value) ∷ items) =
    AreItemLines ((name, value) ∷ items) × IsSorted ((name, value) ∷ items)

abbrev pub AreNamed : Confs → Type 0
AreNamed [] = Unit
AreNamed ((section, items) ∷ confs) =
    IsText section × IsSection section × IsBody items × AreNamed confs

-- The section without a name can only be the first one.
abbrev pub IsPrintable : Confs → Type 0
IsPrintable [] = Unit
IsPrintable (([], items) ∷ confs) = IsBody items × AreNamed confs
IsPrintable ((c ∷ s, items) ∷ confs) = AreNamed ((c ∷ s, items) ∷ confs)

abbrev at : Bytes → Confs → Reader
at section confs = record { section = section; confs = confs }

read_body :
    (section : Bytes) (done : Confs) (items : Items) (lines : List Bytes) (n : ℕ)
    → AreBelow section done
    → IsBody items
    → (n' : ℕ) × (read_lines (item_lines items ++ lines) n (at section done)
        ≡ read_lines lines n' (at section (done ++ (section, items) ∷ [])))
read_body section done [] lines n b w = absurd w
read_body section done ((name, value) ∷ items) lines n b ((i, is), s) =
    let (n', e) =
      read_items section done ((name, value) ∷ []) items lines ((n + 1) % u32_mod) b is
        (IsSorted-Ascends ((name, value) ∷ items) s).1 in
    (
      n',
      read_lines-line (name ++ b'=' ∷ value) (item_lines items ++ lines) n (at section done)
            (at section (done ++ (section, (name, value) ∷ []) ∷ [])) i.text.bare
            (read_conf-item name value n (at section done) i
              ∙ ap (λ t. (at section t, none)) (assign-first section name value done b))
          ∙ e,
    )

read_section :
    (section before : Bytes) (done : Confs) (n : ℕ)
    → IsText section
    → IsSection section
    → read_conf section n (at before done) ≡ (at section done, none)
read_section section before done n t i =
    let e = (check_section_name_iff section n t.small).1 i in
    ap (λ s. read_conf s n (at before done)) i.whole
    ∙ read_conf-section (i.name ++ b']' ∷ []) n (at before done)
        (ap (λ s. check_section_name s n) (sym i.whole) ∙ e)
    ∙ ap (λ s. (at s done, none)) (sym i.whole)

read_named :
    (before : Bytes) (done confs : Confs) (n : ℕ)
    → AreNamed confs
    → Ascends done confs
    → (section : Bytes) × (read_lines (conf_lines confs) n (at before done)
        ≡ (at section (done ++ confs), none))
read_named before done [] n w a =
    (before, unfold read_lines in ap (λ t. (at before t, none)) (sym (append-nil done)))
read_named before done ((section, items) ∷ confs) n (t, i, b, w) a =
    let (n', e) = read_body section done items (conf_lines confs) ((n + 1) % u32_mod) a.0 b in
    let (last, e') = read_named section (done ++ (section, items) ∷ []) confs n' w a.1 in
    (
      last,
      read_lines-line section (item_lines items ++ conf_lines confs) n (at before done)
            (at section done) t.bare (read_section section before done n t i)
          ∙ e
          ∙ e'
          ∙ ap (λ t. (at last t, none)) (append_assoc done ((section, items) ∷ []) confs),
    )

item_lines-NoNewlines : (items : Items) → AreItemLines items → NoNewlines (item_lines items)
item_lines-NoNewlines [] i = tt
item_lines-NoNewlines ((name, value) ∷ items) (i, is) =
    (i.text.one_line, item_lines-NoNewlines items is)

IsBody-NoNewlines : (items : Items) → IsBody items → NoNewlines (item_lines items)
IsBody-NoNewlines [] b = absurd b
IsBody-NoNewlines ((name, value) ∷ items) b = item_lines-NoNewlines ((name, value) ∷ items) b.0

AreNamed-NoNewlinesIn : (confs : Confs) → AreNamed confs → NoNewlinesIn confs
AreNamed-NoNewlinesIn [] w = tt
AreNamed-NoNewlinesIn ((section, items) ∷ confs) (t, i, b, w) =
    (t.one_line, IsBody-NoNewlines items b, AreNamed-NoNewlinesIn confs w)

pub IsPrintable-NoNewlinesIn : (confs : Confs) → IsPrintable confs → NoNewlinesIn confs
IsPrintable-NoNewlinesIn [] w = tt
IsPrintable-NoNewlinesIn (([], items) ∷ confs) (b, w) =
    (tt, IsBody-NoNewlines items b, AreNamed-NoNewlinesIn confs w)
IsPrintable-NoNewlinesIn ((c ∷ s, items) ∷ confs) w =
    AreNamed-NoNewlinesIn ((c ∷ s, items) ∷ confs) w

parse_lines :
    (path : Bytes) (confs : Confs) (section : Bytes)
    → NoNewlinesIn confs
    → read_lines (conf_lines confs) 1 (at [] []) ≡ (at section confs, none)
    → parse_conf_file_into_map path (some (print_conf_in_map confs)) ≡ (confs, none)
unfolding parse_conf_file_into_map
parse_lines path confs section a e =
    ap (λ p. (p.0.confs, p.1))
      (ap (λ l. read_lines l 1 (at [] [])) (get_lines-print_conf_in_map confs a) ∙ e)

-- The empty line of the section without a name.
read_global :
    (lines : List Bytes) → read_lines ([] ∷ lines) 1 (at [] []) ≡ read_lines lines 2 (at [] [])
read_global lines =
    read_lines-line [] lines 1 (at [] []) (at [] []) (unfold rm_space_in_beg_and_end in refl)
      (unfold read_conf in refl)

-- A map with these properties is read back by `parseConfFileIntoMap` from what `printConfInMap`
-- writes. Its sections, and the items of each, are in the order of `std::map`; each section holds at
-- least one item, and the section without a name, if there is one, is the first; the line of a section is
-- one that the check of section names accepts; the line of an item is one that the check of items accepts,
-- has no `[` in it and no `#` in front, and its name has no `=`; and each line has no newline, no
-- white space at its ends, and fewer than 2 ^ 32 bytes.
pub parse_conf_file_into_map-print_conf_in_map :
    (path : Bytes) (confs : Confs)
    → IsPrintable confs
    → IsSorted confs
    → parse_conf_file_into_map path (some (print_conf_in_map confs)) ≡ (confs, none)
parse_conf_file_into_map-print_conf_in_map path [] w s =
    parse_lines path [] [] tt (unfold read_lines in refl)
parse_conf_file_into_map-print_conf_in_map path (([], items) ∷ confs) (b, w) s =
    let (n', e) = read_body [] [] items (conf_lines confs) 2 tt b in
    let (last, e') =
      read_named [] (([], items) ∷ []) confs n' w (IsSorted-Ascends (([], items) ∷ confs) s).1 in
    parse_lines path (([], items) ∷ confs) last
      (IsPrintable-NoNewlinesIn (([], items) ∷ confs) (b, w))
      (read_global (item_lines items ++ conf_lines confs) ∙ e ∙ e')
parse_conf_file_into_map-print_conf_in_map path ((c ∷ k, items) ∷ confs) w s =
    let all : Confs = (c ∷ k, items) ∷ confs in
    let (last, e) = read_named [] [] all 1 w (IsSorted-Ascends all s) in
    parse_lines path all last (AreNamed-NoNewlinesIn all w) e
