-- ===== src/OperatingMode/Tests.antt =====
-- Runs on small articles, and the witnesses of the theorems on process_markdown/operatingMode.cpp.
use c_plus_plus.Prelude.{◌≡◌, refl, true, false, not, List, [], ◌∷◌, ◌++◌, ◌==◌}
use c_plus_plus.Prelude.Chars.{Bytes, codes}
use c_plus_plus.Prelude.Find.{all_of, is_prefix, find_sub, all_of_iff}
use c_plus_plus.OperatingMode.{
  read_article, cut_at, replace_marks, bold_to_asterisk, change_articles,
  change_bold_grammar_to_asterisk, change_bold_grammar_to_html_format,
}
use c_plus_plus.OperatingMode.Searches.{Lacks}
use c_plus_plus.OperatingMode.Articles.{NoAsterisks, read_all, html_format-asterisk}
use c_plus_plus.ParseConfig.File.{lines_from}
use c_plus_plus.ParseConfig.File.Lines.{NoNewlines}
use c_plus_plus.OperatingMode.Spaces.{
  has_fence, two_spaces, write_lines, add_two_space_before_each_enter,
}
use c_plus_plus.OperatingMode.Spaces.Blocks.{
  Line, Block, lines_of, unlines, spaced_blocks, two_and_end, IsFenced,
  add_two_space_before_each_enter-blocks,
}
use c_plus_plus.OperatingMode.Header.{
  undefined, written, is_wrong_at, check_date, post_header, put_header, add_post_header,
  add_ma_xiang_header,
}
use c_plus_plus.OperatingMode.Header.Dates.{headers_of_title}

abbrev articles : List Bytes
articles = codes "a <b>x</b>\n<b>y</b>" ∷ codes "none" ∷ []

abbrev changed : List Bytes
changed = codes "a **x**\n**y**\n" ∷ codes "none\n" ∷ []

to_asterisk : change_bold_grammar_to_asterisk articles ≡ (changed, true)
unfolding change_bold_grammar_to_asterisk change_articles read_article bold_to_asterisk
    replace_marks cut_at find_sub is_prefix
to_asterisk = refl

-- A mark that is not closed: its article and those behind it stay.
not_closed :
    change_bold_grammar_to_asterisk (codes "<b>x</b>" ∷ codes "<b>y" ∷ codes "<b>z</b>" ∷ [])
    ≡ (codes "**x**\n" ∷ codes "<b>y" ∷ codes "<b>z</b>" ∷ [], false)
unfolding change_bold_grammar_to_asterisk change_articles read_article bold_to_asterisk
    replace_marks cut_at find_sub is_prefix
not_closed = refl

-- A text with a block of code.
abbrev blocks : List Block
blocks =
    record {
      texts =
          record { words = codes "ab"; returned = true }
          ∷ record { words = codes "c"; returned = false }
          ∷ [];
      opening = codes "```cpp";
      code = codes "int x;" ∷ [];
      closing = codes "```";
    }
    ∷ []

abbrev tail : List Line
tail = record { words = codes "end"; returned = false } ∷ []

spaced_article :
    add_two_space_before_each_enter [] (unlines (lines_of blocks tail))
    ≡ codes "ab"
      ++ (two_and_end
          ++ (codes "c" ++ (two_and_end ++ (codes "```cpp\nint x;\n```\nend" ++ two_and_end))))
unfolding add_two_space_before_each_enter write_lines two_spaces has_fence find_sub is_prefix
    lines_from
spaced_article = refl

blocks-IsFenced : IsFenced blocks tail
unfolding has_fence find_sub is_prefix all_of
blocks-IsFenced = (
  ((((refl, (refl, (refl, tt))), ((refl, (refl, tt)), tt)), refl), ((refl, tt), refl)),
  ((refl, (refl, (refl, (refl, tt)))), tt),
)

blocks-NoNewlines : NoNewlines (lines_of blocks tail)
blocks-NoNewlines = (
  (refl, (refl, (refl, tt))),
  (
    (refl, tt),
    (
      (refl, (refl, (refl, (refl, (refl, (refl, tt)))))),
      (
        (refl, (refl, (refl, (refl, (refl, (refl, tt)))))),
        ((refl, (refl, (refl, tt))), ((refl, (refl, (refl, tt))), tt)),
      ),
    ),
  ),
)

add_two_space_before_each_enter-blocks_example :
    add_two_space_before_each_enter (codes "old") (unlines (lines_of blocks tail))
    ≡ codes "old" ++ spaced_blocks blocks tail
add_two_space_before_each_enter-blocks_example =
    add_two_space_before_each_enter-blocks blocks tail (codes "old") blocks-IsFenced
      blocks-NoNewlines

lacks : (s : Bytes) → all_of (λ c. not (b'*' == c)) s ≡ true → Lacks b'*' s
lacks s h = (all_of_iff (λ c. not (b'*' == c)) s).0 h

plain : NoAsterisks articles
unfolding all_of
plain = (lacks (codes "a <b>x</b>\n<b>y</b>") refl, (lacks (codes "none") refl, tt))

html_format-asterisk_example :
    change_bold_grammar_to_html_format changed ≡ (read_all articles, true)
html_format-asterisk_example = html_format-asterisk articles changed plain to_asterisk

-- A name with the place of the dashes wrong.
undated_header :
    add_post_header (codes "a post with no date") (codes "text")
    ≡ written (post_header (codes "a post with no date") (codes "2019-XX-XX") ++ codes "text")
unfolding add_post_header put_header check_date is_wrong_at
undated_header = refl

headers_of_title_example :
    (add_post_header (codes "2019-10-10-x") (codes "text") ≡ undefined)
    × (add_ma_xiang_header (codes "@(book)") (codes "2019-10-10-x") (codes "text") ≡ undefined)
headers_of_title_example =
    headers_of_title b'2' b'0' b'1' b'9' b'-' b'1' b'0' b'-' b'1' b'0' b'-' (codes "x")
      (codes "@(book)") (codes "text")
