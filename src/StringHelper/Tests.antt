-- ===== src/StringHelper/Tests.antt =====
-- Runs of string_helper/StringHelper.hpp on small strings.
use c_plus_plus.Prelude.{◌≡◌, refl, true, false, none, some, [], ◌∷◌, map, arith, concat}
use c_plus_plus.Prelude.Chars.{
  Bytes, codes, isdigit, islower, isupper, isalpha, isalnum, isxdigit, isspace,
}
use c_plus_plus.Prelude.Find.{all_of, take_while, one_of}
use c_plus_plus.StringHelper.Case.{camel_case_to_underline, underline_to_camel_case}
use c_plus_plus.StringHelper.Case.Camel.{underline_to_camel_case-camel_case_to_underline}
use c_plus_plus.StringHelper.Case.CamelWords.{Word, camel_case_to_underline-words}
use c_plus_plus.StringHelper.Classify.{
  all_and_nonempty, is_alnum, is_digit, is_xdigit, is_space, is_digit_with_delim,
  is_xdigit_with_delim,
}
use c_plus_plus.StringHelper.Strip.{lstrip, rstrip, strip}
use c_plus_plus.StringHelper.Strip.Trim.{Trimmed, strip_lem, strip-All}
use c_plus_plus.StringHelper.Search.{count}
use c_plus_plus.StringHelper.Search.Counting.{count_diverges}
use c_plus_plus.StringHelper.Split.{join, split}
use c_plus_plus.StringHelper.Split.Tokens.{AreTokens, split_lem}
use c_plus_plus.StringHelper.Split.Tokens.RoundTrip.{split-join}
use c_plus_plus.StringHelper.Lines.{split_lines}
use c_plus_plus.StringHelper.Lines.Endings.{no_line_end, split_lines_lem}

-- "aBc d"
abbrev text : Bytes
text = 97 ∷ 66 ∷ 99 ∷ 32 ∷ 100 ∷ []

-- "aBc"
underline_to_camel_case-camel_case_to_underline_example :
    underline_to_camel_case (camel_case_to_underline (97 ∷ 66 ∷ 99 ∷ [])) true ≡ 97 ∷ 66 ∷ 99 ∷ []
unfolding isupper islower
underline_to_camel_case-camel_case_to_underline_example =
    underline_to_camel_case-camel_case_to_underline 97 (66 ∷ 99 ∷ []) true refl refl
      (refl, (refl, (refl, tt)))

-- "Zh"
-- "ZhangSan"
abbrev zhang : Word
zhang = record { capital = b'Z'; second = b'h'; others = codes "ang" }

abbrev san : Word
san = record { capital = b'S'; second = b'a'; others = codes "n" }

camel_case_to_underline-words_example :
    camel_case_to_underline (codes "ZhangSan") ≡ codes "Zhang_San"
unfolding isupper
camel_case_to_underline-words_example =
    camel_case_to_underline-words zhang (san ∷ [])
      ((refl, (refl, (refl, (refl, (refl, tt))))), ((refl, (refl, (refl, tt))), tt))

classified :
    (is_alnum text ≡ false)
    × (is_digit (49 ∷ []) ≡ true)
    × (is_xdigit (102 ∷ []) ≡ true)
    × (is_space (32 ∷ 9 ∷ []) ≡ true)
    × (is_digit_with_delim (49 ∷ 44 ∷ []) (44 ∷ []) ≡ true)
    × (is_xdigit_with_delim (103 ∷ []) (44 ∷ []) ≡ false)
unfolding is_alnum is_digit is_xdigit is_space is_digit_with_delim is_xdigit_with_delim
    all_and_nonempty all_of isalnum isalpha isupper islower isdigit isxdigit isspace one_of
classified = (refl, refl, refl, refl, refl, refl)

-- "  a " with spaces stripped
abbrev spaced : Bytes
spaced = 32 ∷ 32 ∷ 97 ∷ 32 ∷ []

abbrev spaced_parts : Trimmed (32 ∷ []) spaced
unfolding one_of
spaced_parts = record {
  front = 32 ∷ 32 ∷ [];
  middle = 97 ∷ [];
  back = 32 ∷ [];
  whole = refl;
  front_stripped = (refl, (refl, tt));
  back_stripped = (refl, tt);
  first = 97;
  after_first = [];
  starts = refl;
  first_stays = refl;
  before_last = [];
  last = 97;
  ends = refl;
  last_stays = refl;
}

strip_lem_example :
    (lstrip spaced (32 ∷ []) ≡ 97 ∷ 32 ∷ [])
    × (rstrip spaced (32 ∷ []) ≡ some (32 ∷ 32 ∷ 97 ∷ []))
    × (strip spaced (32 ∷ []) ≡ some (97 ∷ []))
unfolding one_of
strip_lem_example = strip_lem (32 ∷ []) spaced spaced_parts

strip-All_example :
    (lstrip (32 ∷ 32 ∷ []) (32 ∷ []) ≡ 32 ∷ 32 ∷ [])
    × (rstrip (32 ∷ 32 ∷ []) (32 ∷ []) ≡ none)
    × (strip (32 ∷ 32 ∷ []) (32 ∷ []) ≡ none)
unfolding one_of
strip-All_example = strip-All (32 ∷ []) (32 ∷ 32 ∷ []) (refl, (refl, tt))

count_diverges_example : count 100 (97 ∷ 98 ∷ []) (98 ∷ []) 0 0 ≡ none
count_diverges_example = count_diverges 100 98 (97 ∷ []) 0 (omega arith) (omega arith)

split_lem_example :
    AreTokens (32 ∷ []) (split text (32 ∷ []))
    × (concat (split text (32 ∷ [])) ≡ 97 ∷ 66 ∷ 99 ∷ 100 ∷ [])
unfolding one_of
split_lem_example = split_lem (32 ∷ []) text

split-join_example :
    (str : Bytes) × (join ((97 ∷ []) ∷ (98 ∷ 99 ∷ []) ∷ []) (44 ∷ []) ≡ some str)
    × (split str (32 ∷ 44 ∷ []) ≡ (97 ∷ []) ∷ (98 ∷ 99 ∷ []) ∷ [])
unfolding one_of
split-join_example =
    split-join (32 ∷ 44 ∷ []) 44 refl (97 ∷ []) ((98 ∷ 99 ∷ []) ∷ [])
      ((refl, tt), ((refl, (refl, tt)), tt))

-- "a\r\n\nb"
abbrev three_lines : Bytes
three_lines = 97 ∷ 13 ∷ 10 ∷ 10 ∷ 98 ∷ []

split_lines_lem_example :
    (concat (split_lines three_lines true) ≡ three_lines)
    × (split_lines three_lines false ≡ map (take_while no_line_end) (split_lines three_lines true))
split_lines_lem_example = split_lines_lem three_lines
