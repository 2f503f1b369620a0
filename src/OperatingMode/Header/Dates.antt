-- ===== src/OperatingMode/Header/Dates.antt =====
-- What addPostHeader and addMaXiangHeader do with each name of an article.
use c_plus_plus.Prelude.{
  ℕ, suc, ◌+◌, ◌≡◌, refl, ap, ◌∙◌, Bool, true, false, not, ◌&&◌, none, some, ◌∷◌, ◌++◌, arith, ltb,
  ◌==◌, if◌then◌else◌, get_elem?, take, drop,
}
use c_plus_plus.Prelude.Chars.{Bytes, codes}
use c_plus_plus.OperatingMode.Header.{
  undefined, written, is_dash_place, is_wrong_at, check_date, post_header, ma_xiang_header,
  put_header, add_post_header, add_ma_xiang_header,
}

-- No character is a wrong digit.
is_wrong_at-digit : (i c : ℕ) → is_dash_place i ≡ false → is_wrong_at i c ≡ false
unfolding is_wrong_at
is_wrong_at-digit i c h = rw h (no_char c)
  where
    no_char : (c : ℕ) → (ltb c b'0' && ltb b'9' c) ≡ false
    no_char c = ground arith

is_wrong_at-dash : (i c : ℕ) → is_dash_place i ≡ true → is_wrong_at i c ≡ not (c == b'-')
unfolding is_wrong_at
is_wrong_at-dash i c h = rw h refl

check_date-at :
    (rounds i c : ℕ) (name : Bytes) (b : Bool)
    → get_elem? name i ≡ some c
    → is_wrong_at i c ≡ b
    → check_date (suc rounds) i name
      ≡ elim b [ true ↦ some (some false) | false ↦ check_date rounds (i + 1) name ]
unfolding check_date
check_date-at rounds i c name b h k = rw (h, k, check_date) refl

if_not {ℓ} :
    {A : Type ℓ} (b : Bool) (x y : A) → elim (not b) [ true ↦ y | false ↦ x ] ≡ (if b then x else y)
if_not true x y = refl
if_not false x y = refl

if_and {ℓ} :
    {A : Type ℓ} (b c d : Bool) (x y : A)
    → (if b then (if c then (if d then x else y) else y) else y) ≡ (if b && c && d then x else y)
if_and b c d x y = ground arith

put_header-unset :
    (with_date without name article : Bytes)
    → check_date 11 0 name ≡ some none
    → put_header with_date without name article ≡ undefined
unfolding put_header
put_header-unset with_date without name article h = rw (h, put_header) refl

put_header-not :
    (with_date without name article : Bytes)
    → check_date 11 0 name ≡ some (some false)
    → put_header with_date without name article ≡ written (without ++ article)
unfolding put_header
put_header-not with_date without name article h = rw (h, put_header) refl

module _ (y0 y1 y2 y3 d0 m0 m1 d1 n0 n1 d2 : ℕ) (rest : Bytes) where
  abbrev title : Bytes
  title = y0 ∷ y1 ∷ y2 ∷ y3 ∷ d0 ∷ m0 ∷ m1 ∷ d1 ∷ n0 ∷ n1 ∷ d2 ∷ rest

  digit :
      (rounds i c : ℕ)
      → get_elem? title i ≡ some c
      → is_dash_place i ≡ false
      → check_date (suc rounds) i title ≡ check_date rounds (i + 1) title
  digit rounds i c h p = check_date-at rounds i c title false h (is_wrong_at-digit i c p)

  dash :
      (rounds i c : ℕ)
      → get_elem? title i ≡ some c
      → is_dash_place i ≡ true
      → check_date (suc rounds) i title
        ≡ (if c == b'-' then check_date rounds (i + 1) title else some (some false))
  dash rounds i c h p =
      check_date-at rounds i c title (not (c == b'-')) h (is_wrong_at-dash i c p)
      ∙ if_not (c == b'-') (check_date rounds (i + 1) title) (some (some false))

  all_rounds : check_date 0 11 title ≡ some none
  unfolding check_date
  all_rounds = refl

  check_date-title :
      check_date 11 0 title
      ≡ (if (d0 == b'-') && (d1 == b'-') && (d2 == b'-') then some none else some (some false))
  check_date-title =
      digit 10 0 y0 refl refl
      ∙ digit 9 1 y1 refl refl
      ∙ digit 8 2 y2 refl refl
      ∙ digit 7 3 y3 refl refl
      ∙ dash 6 4 d0 refl refl
      ∙ ap (λ t. if d0 == b'-' then t else some (some false))
          (digit 5 5 m0 refl refl
            ∙ digit 4 6 m1 refl refl
            ∙ dash 3 7 d1 refl refl
            ∙ ap (λ t. if d1 == b'-' then t else some (some false))
                (digit 2 8 n0 refl refl
                  ∙ digit 1 9 n1 refl refl
                  ∙ dash 0 10 d2 refl refl
                  ∙ ap (λ t. if d2 == b'-' then t else some (some false)) all_rounds))
      ∙ if_and (d0 == b'-') (d1 == b'-') (d2 == b'-') (some none) (some (some false))

  abbrev pub dashes : Bool
  dashes = (d0 == b'-') && (d1 == b'-') && (d2 == b'-')

  put_header-title :
      (with_date without article : Bytes)
      → put_header with_date without title article
        ≡ (if dashes then undefined else written (without ++ article))
  put_header-title with_date without article = by_dashes dashes refl
    where
      flag :
          (b : Bool)
          → dashes ≡ b
          → check_date 11 0 title ≡ (if b then some none else some (some false))
      flag b h = check_date-title ∙ ap (λ b. if b then some none else some (some false)) h

      by_dashes :
          (b : Bool)
          → dashes ≡ b
          → put_header with_date without title article
            ≡ (if b then undefined else written (without ++ article))
      by_dashes true h = put_header-unset with_date without title article (flag true h)
      by_dashes false h = put_header-not with_date without title article (flag false h)

  -- With a name of eleven characters or more, `addPostHeader` and `addMaXiangHeader` read a flag that was
  -- never set when the name has dashes where a date has them, whatever the other characters are; for
  -- any other name of that length they put the header without the date, or with the whole name, in
  -- front of the article.
  pub headers_of_title :
      (note_book article : Bytes)
      → (add_post_header title article ≡ (
          if dashes
          then undefined
          else written (post_header title (codes "2019-XX-XX") ++ article)))
        × (add_ma_xiang_header note_book title article
            ≡ (if dashes then undefined else written (ma_xiang_header title note_book ++ article)))
  unfolding add_post_header add_ma_xiang_header
  headers_of_title note_book article = (
    put_header-title (post_header (drop 11 title) (take 10 title))
        (post_header title (codes "2019-XX-XX")) article,
    put_header-title (ma_xiang_header (drop 11 title) note_book) (ma_xiang_header title note_book)
        article,
  )
