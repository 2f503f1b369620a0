-- ===== src/ParseConfig/File/Steps.antt =====
-- The loop of parseConfFileIntoMap of parse_config/ParseConfig.hpp, one branch at a time.
use c_plus_plus.Prelude.{ℕ, ◌+◌, ◌%◌, ◌≡◌, true, false, Option, none, some, List, ◌∷◌, arith, ◌==◌}
use c_plus_plus.Prelude.Chars.{Bytes}
use c_plus_plus.ProcessString.{rm_space_in_beg_and_end}
use c_plus_plus.ParseConfig.Errors.{Error}
use c_plus_plus.ParseConfig.Checks.{u32_mod, check_section_name, check_conf_item}
use c_plus_plus.ParseConfig.File.{
  Reader, name_of, value_of, assign, has_bracket, read_conf, read_lines,
}

-- What the loop does behind its body.
abbrev pub read_step : List Bytes → ℕ → Reader × Option Error → Reader × Option Error
read_step lines n (r, none) = read_lines lines ((n + 1) % u32_mod) r
read_step lines n (r, some e) = (r, some e)

pub read_lines-cons :
    (line : Bytes) (lines : List Bytes) (n : ℕ) (r : Reader)
    → read_lines (line ∷ lines) n r
      ≡ read_step lines n (read_conf (rm_space_in_beg_and_end line) n r)
unfolding read_lines
read_lines-cons line lines n r = ground arith

-- What the body does behind a check.
abbrev pub checked : Reader → Reader → Option Error → Reader × Option Error
checked r r' none = (r', none)
checked r r' (some e) = (r, some e)

module _ (c : ℕ) (s : Bytes) (n : ℕ) (r : Reader) where
  pub read_conf-comment : (c == b'#') ≡ true → read_conf (c ∷ s) n r ≡ (r, none)
  unfolding read_conf
  read_conf-comment h = rw h

  pub read_conf-section :
      (c == b'#') ≡ false
      → has_bracket (c ∷ s) ≡ true
      → read_conf (c ∷ s) n r
        ≡ checked r (record r { section = c ∷ s }) (check_section_name (c ∷ s) n)
  unfolding read_conf
  read_conf-section h b = rw (h, b)

  pub read_conf-item :
      (c == b'#') ≡ false
      → has_bracket (c ∷ s) ≡ false
      → read_conf (c ∷ s) n r
        ≡ checked r
            (record r { confs = assign r.section (name_of (c ∷ s)) (value_of (c ∷ s)) r.confs })
            (check_conf_item (c ∷ s) n)
  unfolding read_conf
  read_conf-item h b = rw (h, b)
