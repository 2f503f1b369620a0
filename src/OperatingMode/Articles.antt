-- ===== src/OperatingMode/Articles.antt =====
-- The two functions on bold text, on all the articles of the directory.
use c_plus_plus.Prelude.{
  ℕ, zero, suc, ◌≡◌, refl, sym, ap, ◌∙◌, inl, inr, Bool, true, false, not, Option, none, some, List,
  [], ◌∷◌, ◌++◌, arith, ◌==◌, Bool-ne, length,
}
use c_plus_plus.Prelude.Chars.{Bytes, codes}
use c_plus_plus.OperatingMode.{
  read_article, replace_marks, html_marks, asterisks, bold_to_asterisk, bold_to_html,
  change_articles, change_bold_grammar_to_asterisk, change_bold_grammar_to_html_format,
}
use c_plus_plus.OperatingMode.Searches.{Lacks}
use c_plus_plus.OperatingMode.Bold.{replace_marks-cases, bold_to_html-bold_to_asterisk}
use mathlib.Core.Option.{some-injective}
use mathlib.Core.Path.{subst, subst⁻¹}

-- Whether a newline stands at the end.
unfoldable ends : Bytes → Bool
ends [] = false
ends (c ∷ []) = c == b'\n'
ends (c ∷ d ∷ s) = ends (d ∷ s)

read_article-ends : (s : Bytes) → ends s ≡ true → read_article s ≡ s
unfolding read_article ends
read_article-ends [] h = refl
read_article-ends (c ∷ []) h = rw h refl
read_article-ends (c ∷ d ∷ s) h = ap (λ r. c ∷ r) (read_article-ends (d ∷ s) h)

ends-past : (c : ℕ) (s : Bytes) → ends s ≡ true → ends (c ∷ s) ≡ true
unfolding ends
ends-past c [] h = Bool-ne h refl
ends-past c (d ∷ s) h = h

ends-read_article : (c : ℕ) (s : Bytes) → ends (read_article (c ∷ s)) ≡ true
unfolding read_article ends
ends-read_article c [] = ground arith
ends-read_article c (d ∷ s) = ends-past c (read_article (d ∷ s)) (ends-read_article d s)

ends-append : (p s : Bytes) → ends s ≡ true → ends (p ++ s) ≡ true
ends-append [] s h = h
ends-append (c ∷ p) s h = ends-past c (p ++ s) (ends-append p s h)

ends-rest : (p : Bytes) (c : ℕ) (s : Bytes) → ends (p ++ (c ∷ s)) ≡ true → ends (c ∷ s) ≡ true
unfolding ends
ends-rest [] c s h = h
ends-rest (d ∷ []) c s h = h
ends-rest (d ∷ e ∷ p) c s h = ends-rest (e ∷ p) c s h

read_article-Lacks :
    (x : ℕ) (s : Bytes) → not (x == b'\n') ≡ true → Lacks x s → Lacks x (read_article s)
unfolding read_article
read_article-Lacks x [] h a = tt
read_article-Lacks x (c ∷ []) h a = ground arith
read_article-Lacks x (c ∷ d ∷ s) h a = (a.0, read_article-Lacks x (d ∷ s) h a.1)

-- A newline stays at the end.
ends-behind : (s : Bytes) → ends (b'>' ∷ s) ≡ true → ends s ≡ true
unfolding ends
ends-behind [] h = h
ends-behind (c ∷ s) h = h

replace_marks-ends :
    (n : ℕ) (s t : Bytes)
    → ends s ≡ true
    → replace_marks html_marks asterisks n s ≡ some t
    → ends t ≡ true
unfolding replace_marks ends
replace_marks-ends zero s t h e = subst (λ r. ends r ≡ true) (some-injective s t e) h
replace_marks-ends (suc n) s t h e = elim (replace_marks-cases html_marks asterisks n s t e) [
  | inl q ↦ subst (λ r. ends r ≡ true) q h
  | inr (p, q, a, (u, (es, (g, et)))) ↦
      let here =
        ends-rest p b'<' (codes "b>" ++ (q ++ (codes "</b>" ++ a)))
          (subst (λ r. ends r ≡ true) es h) in
      let inner =
        ends-rest q b'<' (codes "/b>" ++ a) (ends-behind (q ++ (codes "</b>" ++ a)) here) in
      subst⁻¹ (λ r. ends r ≡ true) et
        (ends-append p (codes "**" ++ (q ++ (codes "**" ++ u))) (
          ends-append (codes "**") (q ++ (codes "**" ++ u)) (
            ends-append q (codes "**" ++ u)
              (ends-append (codes "**") u (replace_marks-ends n a u (ends-behind a inner) g)))))
]

module _ (change : Bytes → Option Bytes) where
  -- What a change of all articles without an error is.
  unfoldable Changed : Bytes → List Bytes → List Bytes → Type 0
  Changed a rest changed =
      (t : Bytes) × ((later : List Bytes) × ((change (read_article a) ≡ some t)
          × ((change_articles change rest ≡ (later, true)) × (changed ≡ t ∷ later))))

  change_articles-cases :
      (a : Bytes) (rest changed : List Bytes)
      → change_articles change (a ∷ rest) ≡ (changed, true)
      → Changed a rest changed
  unfolding change_articles Changed
  change_articles-cases a rest changed e =
      by_change (change (read_article a)) refl (change_articles change rest) refl e
    where
      by_change :
          (o : Option Bytes)
          → change (read_article a) ≡ o
          → (l : List Bytes × Bool) → change_articles change rest ≡ l
          → ◌≡◌ {A = List Bytes × Bool}
              (elim o [ none ↦ (a ∷ rest, false) | some t ↦ (t ∷ l.0, l.1) ])
              (changed, true)
          → Changed a rest changed
      by_change none h l k e = Bool-ne (ap (λ x. x.1) e) refl
      by_change (some t) h (later, ok) k e =
          (t, (later, (h, (k ∙ ap (λ b. (later, b)) (ap (λ x. x.1) e), sym (ap (λ x. x.0) e)))))

  change_articles-goes :
      (a t : Bytes) (rest later : List Bytes)
      → change (read_article a) ≡ some t
      → change_articles change rest ≡ (later, true)
      → change_articles change (a ∷ rest) ≡ (t ∷ later, true)
  unfolding change_articles
  change_articles-goes a t rest later h k = rw (h, k, change_articles) refl

-- No article has an asterisk.
abbrev pub NoAsterisks : List Bytes → Type 0
NoAsterisks [] = Unit
NoAsterisks (a ∷ rest) = Lacks b'*' a × NoAsterisks rest

abbrev pub read_all : List Bytes → List Bytes
read_all [] = []
read_all (a ∷ rest) = read_article a ∷ read_all rest

read_article-changed :
    (a t : Bytes) → bold_to_asterisk (read_article a) ≡ some t → read_article t ≡ t
unfolding bold_to_asterisk replace_marks read_article
read_article-changed [] t e = subst (λ r. read_article r ≡ r) (some-injective [] t e) refl
read_article-changed (c ∷ s) t e = read_article-ends t (
    replace_marks-ends (length (read_article (c ∷ s))) (read_article (c ∷ s)) t
      (ends-read_article c s) e)

-- When `changeBoldGrammarToAsterisk` changes all articles without an error, and none has an asterisk,
-- `changeBoldGrammarToHtmlFormat` then gives each article back without an error, where the last line
-- of each has got a newline.
pub html_format-asterisk :
    (articles changed : List Bytes)
    → NoAsterisks articles
    → change_bold_grammar_to_asterisk articles ≡ (changed, true)
    → change_bold_grammar_to_html_format changed ≡ (read_all articles, true)
unfolding change_bold_grammar_to_asterisk change_bold_grammar_to_html_format change_articles Changed
html_format-asterisk [] changed h e = ap (change_articles bold_to_html) (sym (ap (λ x. x.0) e))
html_format-asterisk (a ∷ rest) changed h e =
    let (t, (later, (f, (g, k)))) = change_articles-cases bold_to_asterisk a rest changed e in
    ap (change_articles bold_to_html) k
    ∙ change_articles-goes bold_to_html t (read_article a) later (read_all rest)
        (ap bold_to_html (read_article-changed a t f)
          ∙ bold_to_html-bold_to_asterisk (read_article a) t (read_article-Lacks b'*' a refl h.0) f)
        (html_format-asterisk rest later h.1 g)
