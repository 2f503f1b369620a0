-- ===== src/Csv/Reading.antt =====
-- How csv/CSV.hpp reads the lines that it writes.
use c_plus_plus.Prelude.{
  ℕ, suc, ◌+◌, ◌≤◌, ◌≡◌, refl, ap, ap₂, ◌∙◌, Bool, true, false, not, ◌||◌, some, List, [], ◌∷◌,
  ◌++◌, append-nil, append_assoc, map-append, arith, ◌==◌, if◌then◌else◌, length, drop,
  length-append,
}
use c_plus_plus.Prelude.Chars.{Bytes}
use c_plus_plus.Prelude.Find.{All, All-append, take_while-split}
use c_plus_plus.Csv.{spaced, get_line, count_commas}
use c_plus_plus.Csv.Rows.{is_plain, cells}
use mathlib.Core.Path.{subst, subst⁻¹}

-- A character that is plain is none of those that the loops look for.
is_plain-no :
    (c : ℕ)
    → is_plain c ≡ true
    → ((c == b',') ≡ false) × (((c == b'\r' || c == b'\n') ≡ false) × ((c == b'\n') ≡ false))
is_plain-no c h = (ground arith, (ground arith, ground arith))

abbrev pub not_newline : ℕ → Bool
not_newline c = not (c == b'\n')

pub spaced-plain : (s : Bytes) → All is_plain s → spaced s ≡ s
unfolding spaced
spaced-plain [] a = refl
spaced-plain (c ∷ s) a = rw ((is_plain-no c a.0).0, spaced-plain s a.1) refl

pub spaced-append : (s t : Bytes) → spaced (s ++ t) ≡ spaced s ++ spaced t
unfolding spaced
spaced-append s t = map-append (λ c. if c == b',' then b' ' else c) s t

count_commas-plain : (s t : Bytes) → All is_plain s → count_commas (s ++ t) ≡ count_commas t
unfolding count_commas
count_commas-plain [] t a = refl
count_commas-plain (c ∷ s) t a =
    rw ((is_plain-no c a.0).0, (is_plain-no c a.0).1.0) (count_commas-plain s t a.1)

plain-All-not_newline : (s : Bytes) → All is_plain s → All not_newline s
plain-All-not_newline [] a = tt
plain-All-not_newline (c ∷ s) a = (ap not (is_plain-no c a.0).1.1, plain-All-not_newline s a.1)

-- A text with a first character that does not end the line.
abbrev pub Begins : Bytes → Type 0
Begins s = (c : ℕ) × ((t : Bytes) × ((s ≡ c ∷ t) × ((c == b'\n') ≡ false)))

get_line-line :
    (s rest : Bytes) → Begins s → All not_newline s → get_line (s ++ b'\n' ∷ rest) ≡ some (s, rest)
unfolding get_line
get_line-line s rest (c, (t, (e, h))) a =
    subst⁻¹ (λ r. get_line (r ++ b'\n' ∷ rest) ≡ some (r, rest)) e
      (ap₂ (λ x y. some (x, drop 1 y))
        (take_while-split not_newline (c ∷ t) (b'\n' ∷ rest) (subst (All not_newline) e a) refl).0
        (take_while-split not_newline (c ∷ t) (b'\n' ∷ rest) (subst (All not_newline) e a) refl).1)

module _ {T : Type 0} (print : T → Bytes) (plain : (x : T) → All is_plain (print x))
    (printed : (x : T) → 1 ≤ length (print x)) where
  pub print-Begins : (x : T) (rest : Bytes) → Begins (print x ++ rest)
  print-Begins x rest = go (print x) (plain x) (printed x)
    where
      go : (s : Bytes) → All is_plain s → 1 ≤ length s → Begins (s ++ rest)
      go [] a h = absurd (omega arith)
      go (c ∷ s) a h = (c, (s ++ rest, (refl, (is_plain-no c a.0).1.1)))

  pub cells-Begins : (x : T) (xs : List T) → Begins (cells print (x ∷ xs))
  cells-Begins x [] = subst Begins (append-nil (print x)) (print-Begins x [])
  cells-Begins x (y ∷ xs) = print-Begins x (b',' ∷ cells print (y ∷ xs))

  pub cells-All-not_newline : (xs : List T) → All not_newline (cells print xs)
  cells-All-not_newline [] = tt
  cells-All-not_newline (x ∷ []) = plain-All-not_newline (print x) (plain x)
  cells-All-not_newline (x ∷ y ∷ xs) =
      All-append not_newline (print x) (b',' ∷ cells print (y ∷ xs))
        (plain-All-not_newline (print x) (plain x)) (refl, cells-All-not_newline (y ∷ xs))

  pub length-cells : (xs : List T) → length xs ≤ length (cells print xs)
  length-cells [] = omega arith
  length-cells (x ∷ []) = printed x
  length-cells (x ∷ y ∷ xs) =
      omega (arith, length-append (print x) (b',' ∷ cells print (y ∷ xs)), length-cells (y ∷ xs))

  -- The number of commas is one less than that of the elements.
  pub count_commas-cells :
      (x : T) (xs : List T) (rest : Bytes)
      → count_commas (cells print (x ∷ xs) ++ b'\n' ∷ rest) ≡ (length xs, false)
  unfolding count_commas
  count_commas-cells x [] rest = count_commas-plain (print x) (b'\n' ∷ rest) (plain x)
  count_commas-cells x (y ∷ xs) rest =
      ap count_commas (append_assoc (print x) (b',' ∷ cells print (y ∷ xs)) (b'\n' ∷ rest))
      ∙ (count_commas-plain (print x) (b',' ∷ cells print (y ∷ xs) ++ b'\n' ∷ rest) (plain x)
          ∙ (ap (λ r. (r.0 + 1, r.1)) (count_commas-cells y xs rest)
              ∙ ap (λ n. (n, false)) (one_more (length xs))))
    where
      one_more : (n : ℕ) → n + 1 ≡ suc n
      one_more n = omega arith

  pub get_line-lines :
      (x : T) (xs : List T) (rest : Bytes)
      → get_line (cells print (x ∷ xs) ++ b'\n' ∷ rest) ≡ some (cells print (x ∷ xs), rest)
  get_line-lines x xs rest =
      get_line-line (cells print (x ∷ xs)) rest (cells-Begins x xs) (cells-All-not_newline (x ∷ xs))
