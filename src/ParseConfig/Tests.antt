-- ===== src/ParseConfig/Tests.antt =====
-- Runs of parse_config/ParseConfig.hpp on small files.
use c_plus_plus.Prelude.{
  ◌≡◌, refl, ap, inl, inr, none, some, List, [], ◌∷◌, ◌++◌, arith, if◌then◌else◌, Bool-ne, length,
}
use c_plus_plus.Prelude.Chars.{Bytes}
use c_plus_plus.Prelude.Find.{find_if, equal, one_of}
use mathlib.Core.Path.{subst⁻¹}
use c_plus_plus.ProcessString.{leading, rm_space_in_end, rm_space_in_beg_and_end}
use c_plus_plus.ParseConfig.Dictionary.{less, Confs}
use c_plus_plus.ParseConfig.Errors.{bad_section, bad_item, no_item_in, ok}
use c_plus_plus.ParseConfig.Checks.{check_conf_item}
use c_plus_plus.ParseConfig.Checks.Formats.{IsItem, check_conf_item_iff}
use c_plus_plus.ParseConfig.Checks.Sections.{IsSection}
use c_plus_plus.ParseConfig.File.{
  lines_from, get_lines, has_bracket, parse_conf_file_into_map, print_conf_in_map,
}
use c_plus_plus.ParseConfig.Dictionary.Held.{held}
use c_plus_plus.ParseConfig.File.LastItem.{
  Entry, heading, item, Reads, parse_conf_file_into_map-last,
}
use c_plus_plus.ParseConfig.File.Errors.{IsLine, AreLines, parse_conf_file_into_map-bad}
use c_plus_plus.ParseConfig.File.Printed.{IsText, IsItemLine}
use c_plus_plus.ParseConfig.File.Printed.RoundTrip.{
  IsPrintable, parse_conf_file_into_map-print_conf_in_map,
}
use c_plus_plus.ParseConfig.Query.{value_in_section, require, value_from_file, value_from_file_any}
use c_plus_plus.ParseConfig.Query.Printed.Lookup.{value_from_file-print_conf_in_map}
use c_plus_plus.ParseConfig.Query.Substrings.{value_from_file_any-substring}

-- "a=1"
abbrev a1 : Bytes
a1 = 97 ∷ 61 ∷ 49 ∷ []

-- "[s]"
abbrev s : Bytes
s = 91 ∷ 115 ∷ 93 ∷ []

-- "a =2"
abbrev bad : Bytes
bad = 97 ∷ 32 ∷ 61 ∷ 50 ∷ []

a1-IsItem : IsItem a1
a1-IsItem = record {
  name_front = [];
  name_last = 97;
  value_first = 49;
  value_rest = [];
  whole = refl;
  name_plain = (refl, tt);
  no_space_before = omega arith;
  no_space_after = omega arith;
}

s-IsSection : IsSection s
s-IsSection = record { name = 115 ∷ []; whole = refl; name_plain = (refl, tt) }

trim_small :
    (rm_space_in_beg_and_end a1 ≡ a1)
    × (rm_space_in_beg_and_end s ≡ s)
    × (rm_space_in_beg_and_end (98 ∷ a1) ≡ 98 ∷ a1)
    × (rm_space_in_beg_and_end bad ≡ bad)
unfolding rm_space_in_beg_and_end rm_space_in_end leading one_of
trim_small = (refl, refl, refl, refl)

abbrev confs : Confs
confs = ([], (97 ∷ [], 49 ∷ []) ∷ []) ∷ (s, (97 ∷ [], 49 ∷ []) ∷ []) ∷ []

a1-IsItemLine : IsItemLine (97 ∷ []) (49 ∷ [])
unfolding find_if
a1-IsItemLine = record {
  text = record { one_line = (refl, (refl, (refl, tt))); bare = trim_small.0; small = omega arith };
  item = a1-IsItem;
  name_plain = (refl, tt);
  no_bracket = refl;
  no_comment = refl;
}

s-IsText : IsText s
s-IsText = record {
  one_line = (refl, (refl, (refl, tt)));
  bare = trim_small.1;
  small = omega arith;
}

confs-IsPrintable : IsPrintable confs
confs-IsPrintable =
    (((a1-IsItemLine, tt), (tt, tt)), (s-IsText, s-IsSection, ((a1-IsItemLine, tt), (tt, tt)), tt))

parse_conf_file_into_map-print_conf_in_map_example :
    parse_conf_file_into_map [] (some (print_conf_in_map confs)) ≡ (confs, none)
unfolding less
parse_conf_file_into_map-print_conf_in_map_example =
    parse_conf_file_into_map-print_conf_in_map [] confs confs-IsPrintable (refl, (tt, tt))

value_from_file-print_conf_in_map_example :
    value_from_file s (97 ∷ []) [] (some (print_conf_in_map confs))
    ≡ require (no_item_in s (97 ∷ [])) (ok (value_in_section s (97 ∷ []) confs).0)
value_from_file-print_conf_in_map_example =
    value_from_file-print_conf_in_map [] s (97 ∷ []) confs confs-IsPrintable s-IsSection

-- "[s]\na=1\na =2\n", with a space in front of the equals sign of the third line
abbrev content : Bytes
content = s ++ 10 ∷ (a1 ++ 10 ∷ (bad ++ 10 ∷ []))

lines_small :
    (get_lines content ≡ s ∷ a1 ∷ bad ∷ [])
    × (get_lines (s ++ 10 ∷ a1) ≡ s ∷ a1 ∷ [])
    × (get_lines (98 ∷ a1) ≡ (98 ∷ a1) ∷ [])
unfolding lines_from
lines_small = (refl, refl, refl)

-- "a=2"
abbrev a2 : Bytes
a2 = 97 ∷ 61 ∷ 50 ∷ []

a2-trim : rm_space_in_beg_and_end a2 ≡ a2
unfolding rm_space_in_beg_and_end rm_space_in_end leading one_of
a2-trim = refl

a2-IsItemLine : IsItemLine (97 ∷ []) (50 ∷ [])
unfolding find_if
a2-IsItemLine = record {
  text = record { one_line = (refl, (refl, (refl, tt))); bare = a2-trim; small = omega arith };
  item = record {
    name_front = [];
    name_last = 97;
    value_first = 50;
    value_rest = [];
    whole = refl;
    name_plain = (refl, tt);
    no_space_before = omega arith;
    no_space_after = omega arith;
  };
  name_plain = (refl, tt);
  no_bracket = refl;
  no_comment = refl;
}

-- "[s]\na=1\n[s]\na=2"
abbrev twice : Bytes
twice = s ++ 10 ∷ (a1 ++ 10 ∷ (s ++ 10 ∷ a2))

abbrev entries : List Entry
entries = heading s ∷ item (97 ∷ []) (49 ∷ []) ∷ heading s ∷ item (97 ∷ []) (50 ∷ []) ∷ []

twice-Reads : Reads (get_lines twice) entries
unfolding lines_from
twice-Reads = (
  (trim_small.1, (s-IsSection, omega arith)),
  (
    (trim_small.0, a1-IsItemLine),
    ((trim_small.1, (s-IsSection, omega arith)), ((a2-trim, a2-IsItemLine), tt)),
  ),
)

parse_conf_file_into_map-last_example :
    ((parse_conf_file_into_map [] (some twice)).1 ≡ none)
    × (held s (97 ∷ []) (parse_conf_file_into_map [] (some twice)).0 ≡ some (50 ∷ []))
unfolding equal
parse_conf_file_into_map-last_example =
    parse_conf_file_into_map-last [] twice s (97 ∷ []) entries twice-Reads

s-IsLine : IsLine s
unfolding find_if
s-IsLine = inr (inl (refl, s-IsSection))

a1-IsLine : IsLine a1
unfolding find_if
a1-IsLine = inr (inr (refl, a1-IsItem))

small_lines : AreLines (s ∷ a1 ∷ [])
small_lines = (
  (subst⁻¹ IsLine trim_small.1 s-IsLine, omega (arith, ap length trim_small.1)),
  ((subst⁻¹ IsLine trim_small.0 a1-IsLine, omega (arith, ap length trim_small.0)), tt),
)

bad-error : check_conf_item bad 0 ≡ some (bad_item 0 bad)
unfolding check_conf_item find_if
bad-error = refl

bad-not-IsLine : ¬ IsLine bad
bad-not-IsLine (inl h) = Bool-ne h refl
bad-not-IsLine (inr (inl (h, i))) = Bool-ne h (unfold find_if in refl)
bad-not-IsLine (inr (inr (h, i))) =
    absurd (cc (bad-error, (check_conf_item_iff bad 0 (omega arith)).1 i))

parse_conf_file_into_map-bad_example :
    (parse_conf_file_into_map [] (some content)).1
    ≡ some (
        if has_bracket (rm_space_in_beg_and_end bad)
        then bad_section 3 (rm_space_in_beg_and_end bad)
        else bad_item 3 (rm_space_in_beg_and_end bad))
parse_conf_file_into_map-bad_example =
    parse_conf_file_into_map-bad [] content (s ∷ a1 ∷ []) bad [] lines_small.0 small_lines
      (subst⁻¹ (λ l. ¬ IsLine l) trim_small.3 bad-not-IsLine)
      (omega (arith, ap length trim_small.3)) (omega arith)

-- "ba=1", asked for "a"
value_from_file_any-substring_example :
    value_from_file_any (97 ∷ []) [] (some (98 ∷ a1)) ≡ ok (49 ∷ [])
value_from_file_any-substring_example =
    value_from_file_any-substring [] (97 ∷ []) (98 ∷ []) [] 49 [] (98 ∷ a1) [] lines_small.2
      (record {
        one_line = (refl, (refl, (refl, (refl, tt))));
        bare = trim_small.2;
        small = omega arith;
      })
      (record {
        name_front = 98 ∷ [];
        name_last = 97;
        value_first = 49;
        value_rest = [];
        whole = refl;
        name_plain = (refl, (refl, tt));
        no_space_before = omega arith;
        no_space_after = omega arith;
      })
      (refl, (refl, tt)) refl refl
