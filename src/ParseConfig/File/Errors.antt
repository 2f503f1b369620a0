-- ===== src/ParseConfig/File/Errors.antt =====
-- What parseConfFileIntoMap of parse_config/ParseConfig.hpp throws.
use c_plus_plus.Prelude.{
  ℕ, ◌+◌, ◌%◌, ◌<◌, ◌≡◌, refl, sym, ap, ◌∙◌, ◌⊎◌, inl, inr, true, false, none, some, List, [], ◌∷◌,
  ◌++◌, arith, ◌==◌, if◌then◌else◌, Bool-cases, Bool-ne, length,
}
use c_plus_plus.Prelude.Chars.{Bytes}
use c_plus_plus.ProcessString.{rm_space_in_beg_and_end}
use c_plus_plus.ParseConfig.Errors.{Error, bad_section, bad_item}
use c_plus_plus.ParseConfig.Checks.{u32_mod}
use c_plus_plus.ParseConfig.Checks.Formats.{IsItem, check_conf_item_iff, check_conf_item-error}
use c_plus_plus.ParseConfig.Checks.Sections.{
  IsSection, check_section_name_iff, check_section_name-error,
}
use c_plus_plus.ParseConfig.File.{
  get_lines, Reader, name_of, value_of, assign, has_bracket, read_conf, read_lines,
  parse_conf_file_into_map,
}
use c_plus_plus.ParseConfig.File.Steps.{
  read_step, read_lines-cons, checked, read_conf-comment, read_conf-section, read_conf-item,
}

-- A line that is empty, a comment, a section name or an item, without the white space around it.
abbrev pub IsLine : Bytes → Type 0
IsLine [] = Unit
IsLine (c ∷ s) =
    ((c == b'#') ≡ true)
    ⊎ ((has_bracket (c ∷ s) ≡ true) × IsSection (c ∷ s))
    ⊎ ((has_bracket (c ∷ s) ≡ false) × IsItem (c ∷ s))

abbrev pub AreLines : List Bytes → Type 0
AreLines [] = Unit
AreLines (line ∷ lines) =
    (IsLine (rm_space_in_beg_and_end line) × (length (rm_space_in_beg_and_end line) < u32_mod))
    × AreLines lines

abbrev pub error_at : Bytes → ℕ → Error
error_at conf n = if has_bracket conf then bad_section n conf else bad_item n conf

read_conf-IsLine :
    (conf : Bytes) (n : ℕ) (r : Reader)
    → IsLine conf
    → length conf < u32_mod
    → (r' : Reader) × (read_conf conf n r ≡ (r', none))
read_conf-IsLine [] n r l small = (r, unfold read_conf in refl)
read_conf-IsLine (c ∷ s) n r l small = elim (Bool-cases (c == b'#')) [
  | inl h ↦ (r, read_conf-comment c s n r h)
  | inr h ↦ elim l [
    | inl h' ↦ Bool-ne h' h
    | inr (inl (b, i)) ↦ (
      record r { section = c ∷ s },
      read_conf-section c s n r h b
          ∙ ap (checked r (record r { section = c ∷ s }))
              ((check_section_name_iff (c ∷ s) n small).1 i),
    )
    | inr (inr (b, i)) ↦
        let r' : Reader = record r {
          confs = assign r.section (name_of (c ∷ s)) (value_of (c ∷ s)) r.confs;
        } in
        (
          r',
          read_conf-item c s n r h b
              ∙ ap (checked r r') ((check_conf_item_iff (c ∷ s) n small).1 i),
        )
  ]
]

read_conf-error :
    (conf : Bytes) (n : ℕ) (r : Reader)
    → ¬ IsLine conf
    → length conf < u32_mod
    → read_conf conf n r ≡ (r, some (error_at conf n))
read_conf-error [] n r l small = absurd (l tt)
read_conf-error (c ∷ s) n r l small = elim (Bool-cases (c == b'#')) [
  | inl h ↦ absurd (l (inl h))
  | inr h ↦ elim (Bool-cases (has_bracket (c ∷ s))) [
    | inl b ↦ elim (check_section_name-error (c ∷ s) n) [
      | inl e ↦ absurd (l (inr (inl (b, (check_section_name_iff (c ∷ s) n small).0 e))))
      | inr e ↦
          read_conf-section c s n r h b
          ∙ ap (checked r (record r { section = c ∷ s })) e
          ∙ ap (λ t. (r, some (if t then bad_section n (c ∷ s) else bad_item n (c ∷ s)))) (sym b)
    ]
    | inr b ↦ elim (check_conf_item-error (c ∷ s) n) [
      | inl e ↦ absurd (l (inr (inr (b, (check_conf_item_iff (c ∷ s) n small).0 e))))
      | inr e ↦
          read_conf-item c s n r h b
          ∙ ap
              (checked r (record r {
                confs = assign r.section (name_of (c ∷ s)) (value_of (c ∷ s)) r.confs;
              }))
              e
          ∙ ap (λ t. (r, some (if t then bad_section n (c ∷ s) else bad_item n (c ∷ s)))) (sym b)
    ]
  ]
]

read_lines-bad :
    (good : List Bytes) (bad : Bytes) (rest : List Bytes) (n : ℕ) (r : Reader)
    → AreLines good
    → ¬ IsLine (rm_space_in_beg_and_end bad)
    → length (rm_space_in_beg_and_end bad) < u32_mod
    → n + length good < u32_mod
    → (read_lines (good ++ bad ∷ rest) n r).1
      ≡ some (error_at (rm_space_in_beg_and_end bad) (n + length good))
read_lines-bad [] bad rest n r g b small few =
    ap (λ p. p.1)
      (read_lines-cons bad rest n r
        ∙ ap (read_step rest n) (read_conf-error (rm_space_in_beg_and_end bad) n r b small))
    ∙ ap (λ k. some (error_at (rm_space_in_beg_and_end bad) k)) (omega arith)
read_lines-bad (line ∷ good) bad rest n r ((l, s), g) b small few =
    let (r', e) = read_conf-IsLine (rm_space_in_beg_and_end line) n r l s in
    let next : (n + 1) % u32_mod ≡ n + 1 = omega arith in
    ap (λ p. p.1)
      (read_lines-cons line (good ++ bad ∷ rest) n r ∙ ap (read_step (good ++ bad ∷ rest) n) e)
    ∙ ap (λ k. (read_lines (good ++ bad ∷ rest) k r').1) next
    ∙ read_lines-bad good bad rest (n + 1) r' g b small (omega arith)
    ∙ ap (λ k. some (error_at (rm_space_in_beg_and_end bad) k)) (omega arith)

-- For a file with a line that is not empty and no comment, section name or item, behind lines that
-- are one of these, `parseConfFileIntoMap` throws an error with this line and its number, counted from
-- 1. The number, and the length of each of these lines without the white space around it, are below
-- 2 ^ 32.
pub parse_conf_file_into_map-bad :
    (path content : Bytes) (good : List Bytes) (bad : Bytes) (rest : List Bytes)
    → get_lines content ≡ good ++ bad ∷ rest
    → AreLines good
    → ¬ IsLine (rm_space_in_beg_and_end bad)
    → length (rm_space_in_beg_and_end bad) < u32_mod
    → 1 + length good < u32_mod
    → (parse_conf_file_into_map path (some content)).1
      ≡ some (error_at (rm_space_in_beg_and_end bad) (1 + length good))
unfolding parse_conf_file_into_map
parse_conf_file_into_map-bad path content good bad rest e g b small few =
    ap (λ lines. (read_lines lines 1 (record { section = []; confs = [] })).1) e
    ∙ read_lines-bad good bad rest 1 (record { section = []; confs = [] }) g b small few
