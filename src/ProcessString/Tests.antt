-- ===== src/ProcessString/Tests.antt =====
-- Runs of parse_config/ProcessString.hpp on small strings.
use c_plus_plus.Prelude.{◌≡◌, refl, inr, [], ◌∷◌}
use c_plus_plus.Prelude.Chars.{Bytes}
use c_plus_plus.Prelude.Find.{one_of}
use c_plus_plus.StringHelper.Strip.Trim.{Trimmed}
use c_plus_plus.ProcessString.{white, rm_space_in_beg_and_end}
use c_plus_plus.ProcessString.Trimming.{trim_lem}

-- " a b\t"
abbrev padded_text : Bytes
padded_text = 32 ∷ 97 ∷ 32 ∷ 98 ∷ 9 ∷ []

abbrev padded_kind : Trimmed white padded_text
unfolding one_of
padded_kind = record {
  front = 32 ∷ [];
  middle = 97 ∷ 32 ∷ 98 ∷ [];
  back = 9 ∷ [];
  whole = refl;
  front_stripped = (refl, tt);
  back_stripped = (refl, tt);
  first = 97;
  after_first = 32 ∷ 98 ∷ [];
  starts = refl;
  first_stays = refl;
  before_last = 97 ∷ 32 ∷ [];
  last = 98;
  ends = refl;
  last_stays = refl;
}

trim_lem_example :
    (rm_space_in_beg_and_end padded_text ≡ 97 ∷ 32 ∷ 98 ∷ [])
    × (rm_space_in_beg_and_end (rm_space_in_beg_and_end padded_text) ≡ 97 ∷ 32 ∷ 98 ∷ [])
unfolding one_of
trim_lem_example = trim_lem padded_text (inr padded_kind)
