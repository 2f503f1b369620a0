-- ===== src/OperatingMode.antt =====
-- process_markdown/operatingMode.cpp: the functions that change the text of each article by searches
-- in it. An article is the content of its file.
pub mod Searches
pub mod Bold
pub mod Articles
pub mod Spaces
pub mod Header
pub mod Tests
use c_plus_plus.Prelude.{
  ℕ, zero, suc, ◌+◌, ◌-◌, ◌*◌, ◌/◌, ◌<◌, Bool, true, false, not, Option, none, some, List, [], ◌∷◌,
  ◌++◌, ◌==◌, if◌then◌else◌, length, take, drop,
}
use c_plus_plus.Prelude.Chars.{Bytes, codes}
use c_plus_plus.Prelude.Find.{find_sub}

-- The loop of `getline` that reads an article: each line, and a newline behind it.
unfoldable pub read_article : Bytes → Bytes
read_article [] = []
read_article (c ∷ []) = if c == b'\n' then c ∷ [] else c ∷ b'\n' ∷ []
read_article (c ∷ d ∷ s) = c ∷ read_article (d ∷ s)

-- The text in front of the first `sub`, and the text behind it.
unfoldable pub cut_at : Bytes → Bytes → Option (Bytes × Bytes)
cut_at sub s = elim (find_sub sub s) [
  | none ↦ none
  | some i ↦ some (take i s, drop (i + length sub) s)
]

-- The loop that puts other marks in the place of an opening and a closing one; the text behind the marks is
-- what is left to search. An opening mark with no closing one behind it makes `erase` throw, which
-- is `none`. Each round takes a character, so that the length is enough fuel.
unfoldable pub replace_marks : Bytes × Bytes → Bytes × Bytes → ℕ → Bytes → Option Bytes
replace_marks old new zero s = some s
replace_marks old new (suc fuel) s = elim (cut_at old.0 s) [
  | none ↦ some s
  | some (before, rest) ↦ elim (cut_at old.1 rest) [
    | none ↦ none
    | some (inside, after) ↦ elim (replace_marks old new fuel after) [
      | none ↦ none
      | some t ↦ some (before ++ (new.0 ++ (inside ++ (new.1 ++ t))))
    ]
  ]
]

abbrev pub html_marks : Bytes × Bytes
html_marks = (codes "<b>", codes "</b>")

abbrev pub asterisks : Bytes × Bytes
asterisks = (codes "**", codes "**")

-- The change that `changeBoldGrammarToAsterisk` makes to an article.
unfoldable pub bold_to_asterisk : Bytes → Option Bytes
bold_to_asterisk article = replace_marks html_marks asterisks (length article) article

-- The change that `changeBoldGrammarToHtmlFormat` makes to an article.
unfoldable pub bold_to_html : Bytes → Option Bytes
bold_to_html article = replace_marks asterisks html_marks (length article) article

-- The loop over the files: the first error leaves its article and those behind it as they are.
unfoldable pub change_articles : (Bytes → Option Bytes) → List Bytes → List Bytes × Bool
change_articles change [] = ([], true)
change_articles change (a ∷ rest) =
    let later = change_articles change rest in
    elim (change (read_article a)) [ none ↦ (a ∷ rest, false) | some t ↦ (t ∷ later.0, later.1) ]

unfoldable pub change_bold_grammar_to_asterisk : List Bytes → List Bytes × Bool
change_bold_grammar_to_asterisk = change_articles bold_to_asterisk

unfoldable pub change_bold_grammar_to_html_format : List Bytes → List Bytes × Bool
change_bold_grammar_to_html_format = change_articles bold_to_html
