-- ===== src/ParseConfig/Query/Substrings.antt =====
-- getSpecConfValFromFile(name) of parse_config/ParseConfig.hpp looks for a name inside a line.
use c_plus_plus.Prelude.{
  ℕ, ◌+◌, ◌%◌, ◌<◌, ◌≡◌, refl, sym, ap, ◌∙◌, inl, inr, true, false, not, ◌&&◌, none, some, List, [],
  ◌∷◌, ◌++◌, append_assoc, arith, ◌==◌, Bool-cases, length,
}
use c_plus_plus.Prelude.Chars.{Bytes}
use c_plus_plus.Prelude.Find.{All, is_prefix, find_sub}
use c_plus_plus.ProcessString.{rm_space_in_beg_and_end}
use c_plus_plus.ParseConfig.Errors.{no_item, Result, ok}
use c_plus_plus.ParseConfig.Checks.{u32_mod, starts_by, check_conf_item}
use c_plus_plus.ParseConfig.Checks.Formats.{not_equals, IsItem, check_conf_item_iff}
use c_plus_plus.ParseConfig.File.{get_lines, value_of}
use c_plus_plus.ParseConfig.File.Printed.{IsText, name_of-split}
use c_plus_plus.ParseConfig.Query.{any_body, search_any, require, value_from_file_any}

any_body-found :
    (wanted : Bytes) (c : ℕ) (s : Bytes) (n pos : ℕ) (rest : Result Bytes)
    → (not (c == b'#') && not (c == b'[')) ≡ true
    → check_conf_item (c ∷ s) n ≡ none
    → find_sub wanted (c ∷ s) ≡ some pos
    → any_body wanted (c ∷ s) n rest ≡ ok (value_of (c ∷ s))
unfolding any_body
any_body-found wanted c s n pos rest h e f = rw (h, e, f)

find_sub-prefix : (sub s : Bytes) → is_prefix sub s ≡ true → find_sub sub s ≡ some 0
unfolding find_sub
find_sub-prefix sub [] h = rw h
find_sub-prefix sub (c ∷ s) h = rw h

find_sub-later :
    (sub : Bytes) (c : ℕ) (s : Bytes) (pos : ℕ)
    → find_sub sub s ≡ some pos
    → (pos' : ℕ) × (find_sub sub (c ∷ s) ≡ some pos')
unfolding find_sub
find_sub-later sub c s pos e = elim (Bool-cases (is_prefix sub (c ∷ s))) [
  | inl h ↦ (0, rw h)
  | inr h ↦ (pos + 1, rw (h, e))
]

is_prefix-append : (sub rest : Bytes) → is_prefix sub (sub ++ rest) ≡ true
unfolding is_prefix
is_prefix-append [] rest = refl
is_prefix-append (c ∷ sub) rest = ground (arith, is_prefix-append sub rest)

find_sub-inside : (p sub rest : Bytes) → (pos : ℕ) × (find_sub sub (p ++ (sub ++ rest)) ≡ some pos)
find_sub-inside [] sub rest = (0, find_sub-prefix sub (sub ++ rest) (is_prefix-append sub rest))
find_sub-inside (c ∷ p) sub rest =
    let (pos, e) = find_sub-inside p sub rest in find_sub-later sub c (p ++ (sub ++ rest)) pos e

cons_view : (key value : Bytes) → (c : ℕ) × (s : Bytes) × (c ∷ s ≡ key ++ b'=' ∷ value)
cons_view [] value = (b'=', value, refl)
cons_view (c ∷ key) value = (c, key ++ b'=' ∷ value, refl)

search_any-cons :
    (wanted line : Bytes) (lines : List Bytes) (n : ℕ)
    → search_any wanted (line ∷ lines) n
      ≡ any_body wanted
          (rm_space_in_beg_and_end line)
          n
          (search_any wanted lines ((n + 1) % u32_mod))
unfolding search_any
search_any-cons wanted line lines n = refl

any_body-substring :
    (wanted front back value : Bytes) (n : ℕ) (rest : Result Bytes)
    → IsItem ((front ++ (wanted ++ back)) ++ b'=' ∷ value)
    → All not_equals (front ++ (wanted ++ back))
    → length ((front ++ (wanted ++ back)) ++ b'=' ∷ value) < u32_mod
    → starts_by b'#' ((front ++ (wanted ++ back)) ++ b'=' ∷ value) ≡ false
    → starts_by b'[' ((front ++ (wanted ++ back)) ++ b'=' ∷ value) ≡ false
    → any_body wanted ((front ++ (wanted ++ back)) ++ b'=' ∷ value) n rest ≡ ok value
any_body-substring wanted front back value n rest i a small h b =
    let conf = (front ++ (wanted ++ back)) ++ b'=' ∷ value in
    let (c, s, e) = cons_view (front ++ (wanted ++ back)) value in
    let (pos, f) = find_sub-inside front wanted (back ++ b'=' ∷ value) in
    let h' = ap (starts_by b'#') e ∙ h in
    let b' = ap (starts_by b'[') e ∙ b in
    ap (λ l. any_body wanted l n rest) (sym e)
    ∙ any_body-found wanted c s n pos rest (ground (arith, h', b'))
        (ap (λ l. check_conf_item l n) e ∙ (check_conf_item_iff conf n small).1 i)
        (ap (find_sub wanted) (e ∙ simp append_assoc) ∙ f)
    ∙ ap (λ l. ok (value_of l)) e
    ∙ ap ok (name_of-split (front ++ (wanted ++ back)) value a).1

-- `getSpecConfValFromFile(name)` returns the value of another name that has `name` somewhere
-- inside it, if that item is the first line of the file, whatever the rest of the file holds. The
-- line is one that the format check accepts, with no white space around it, shorter than 2 ^ 32,
-- and begins with no `#` and no `[`.
pub value_from_file_any-substring :
    (path wanted front back : Bytes) (c : ℕ) (value content : Bytes) (rest : List Bytes)
    → get_lines content ≡ ((front ++ (wanted ++ back)) ++ b'=' ∷ c ∷ value) ∷ rest
    → IsText ((front ++ (wanted ++ back)) ++ b'=' ∷ c ∷ value)
    → IsItem ((front ++ (wanted ++ back)) ++ b'=' ∷ c ∷ value)
    → All not_equals (front ++ (wanted ++ back))
    → starts_by b'#' ((front ++ (wanted ++ back)) ++ b'=' ∷ c ∷ value) ≡ false
    → starts_by b'[' ((front ++ (wanted ++ back)) ++ b'=' ∷ c ∷ value) ≡ false
    → value_from_file_any wanted path (some content) ≡ ok (c ∷ value)
unfolding value_from_file_any
value_from_file_any-substring path wanted front back c value content rest e t i a h b =
    let conf = (front ++ (wanted ++ back)) ++ b'=' ∷ c ∷ value in
    let later = search_any wanted rest 2 in
    ap (require (no_item wanted)) (
      ap (λ l. search_any wanted l 1) e
      ∙ search_any-cons wanted conf rest 1
      ∙ ap (λ l. any_body wanted l 1 later) t.bare
      ∙ any_body-substring wanted front back (c ∷ value) 1 later i a t.small h b)
