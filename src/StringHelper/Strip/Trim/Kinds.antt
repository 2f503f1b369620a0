-- ===== src/StringHelper/Strip/Trim/Kinds.antt =====
-- The strings that Lstrip, Rstrip and Strip of string_helper/StringHelper.hpp tell apart.
use c_plus_plus.Prelude.{refl, sym, ap, ◌∙◌, ◌⊎◌, inl, inr, [], ◌∷◌, ◌++◌, append_assoc, Bool-cases}
use c_plus_plus.Prelude.Chars.{Bytes}
use c_plus_plus.Prelude.Find.{All, one_of}
use c_plus_plus.StringHelper.Strip.Trim.{Trimmed}

-- Every string has only characters that are stripped, or can be cut at the others.
pub decompose : (chars str : Bytes) → All (one_of chars) str ⊎ Trimmed chars str
decompose chars [] = inl tt
decompose chars (x ∷ s) = elim (Bool-cases (one_of chars x)) [
  | inl stripped ↦ elim (decompose chars s) [
    | inl a ↦ inl (stripped, a)
    | inr t ↦ inr (record {
      front = x ∷ t.front;
      middle = t.middle;
      back = t.back;
      whole = ap (◌∷◌ x) t.whole;
      front_stripped = (stripped, t.front_stripped);
      back_stripped = t.back_stripped;
      first = t.first;
      after_first = t.after_first;
      starts = t.starts;
      first_stays = t.first_stays;
      last = t.last;
      before_last = t.before_last;
      ends = t.ends;
      last_stays = t.last_stays;
    })
  ]
  | inr kept ↦ elim (decompose chars s) [
    | inl a ↦ inr (record {
      front = [];
      middle = x ∷ [];
      back = s;
      whole = refl;
      front_stripped = tt;
      back_stripped = a;
      first = x;
      after_first = [];
      starts = refl;
      first_stays = rw kept;
      last = x;
      before_last = [];
      ends = refl;
      last_stays = rw kept;
    })
    | inr t ↦ inr (record {
      front = [];
      middle = x ∷ (t.front ++ t.middle);
      back = t.back;
      whole = ap (◌∷◌ x) (t.whole ∙ sym (append_assoc t.front t.middle t.back));
      front_stripped = tt;
      back_stripped = t.back_stripped;
      first = x;
      after_first = t.front ++ t.middle;
      starts = refl;
      first_stays = rw kept;
      last = t.last;
      before_last = x ∷ (t.front ++ t.before_last);
      ends =
          ap (◌∷◌ x)
            (ap (◌++◌ t.front) t.ends ∙ sym (append_assoc t.front t.before_last (t.last ∷ [])));
      last_stays = t.last_stays;
    })
  ]
]
