-- ===== src/OperatingMode/Header.antt =====
-- process_markdown/operatingMode.cpp: addPostHeader and addMaXiangHeader, on one article and its name.
pub mod Dates
use c_plus_plus.Prelude.{
  ℕ, zero, suc, ◌+◌, ◌-◌, ◌/◌, Bool, true, false, not, ◌&&◌, ◌||◌, Option, none, some, [], ◌∷◌,
  ◌++◌, ltb, ◌==◌, if◌then◌else◌, tests, get_elem?, take, drop,
}
use c_plus_plus.Prelude.Chars.{Bytes, codes}

-- A call of `at` out of range throws; a test of a flag with no value is undefined behaviour.
pub data Headed : Type 0 where
  thrown : Headed
  undefined : Headed
  written : Bytes → Headed

abbrev pub is_dash_place : ℕ → Bool
is_dash_place i = i == 4 || i == 7 || i == 10

-- The tests of the loop that end it.
unfoldable pub is_wrong_at : ℕ → ℕ → Bool
is_wrong_at i c = if is_dash_place i then not (c == b'-') else ltb c b'0' && ltb b'9' c

-- The loop, with the number of rounds that are left: the flag `bFlag`, which has no value where it is
-- declared, or `none` where `at` throws.
unfoldable pub check_date : ℕ → ℕ → Bytes → Option (Option Bool)
check_date zero i name = some none
check_date (suc rounds) i name = elim (get_elem? name i) [
  | none ↦ none
  | some c ↦ elim (is_wrong_at i c) [
    | true ↦ some (some false)
    | false ↦ check_date rounds (i + 1) name
  ]
]

-- The bytes of the author's name in UTF-8.
abbrev pub author : Bytes
author = 230 ∷ 181 ∷ 133 ∷ 230 ∷ 178 ∷ 171 ∷ []

abbrev pub post_header : Bytes → Bytes → Bytes
post_header title date =
    codes "---\r\nlayout:     post\r\ntitle:      "
    ++ (title
        ++ (codes "\r\nsubtitle:   \r\ndate:       "
            ++ (date
                ++ (codes "\r\nauthor:     "
                    ++ (author
                        ++ codes
                            "\r\nheader-img: \r\ncatalog: true\r\ntags:\r\n    - XX\r\n    - XX\r\n---\r\n\r\n")))))

abbrev pub ma_xiang_header : Bytes → Bytes → Bytes
ma_xiang_header title note_book =
    codes "### " ++ (title ++ (codes ".md\r\n\r\n------\r\n" ++ (note_book ++ codes "\r\n\r\n")))

-- The test of the flag, and the header for a name with a date or for another name in front of the article.
unfoldable pub put_header : Bytes → Bytes → Bytes → Bytes → Headed
put_header with_date without name article = elim (check_date 11 0 name) [
  | none ↦ thrown
  | some flag ↦ elim flag [
    | none ↦ undefined
    | some dated ↦ elim dated [
      | true ↦ written (with_date ++ article)
      | false ↦ written (without ++ article)
    ]
  ]
]

unfoldable pub add_post_header : Bytes → Bytes → Headed
add_post_header name article =
    put_header (post_header (drop 11 name) (take 10 name)) (post_header name (codes "2019-XX-XX"))
      name article

unfoldable pub add_ma_xiang_header : Bytes → Bytes → Bytes → Headed
add_ma_xiang_header note_book name article =
    put_header (ma_xiang_header (drop 11 name) note_book) (ma_xiang_header name note_book) name
      article
