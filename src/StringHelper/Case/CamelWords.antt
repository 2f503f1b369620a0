-- ===== src/StringHelper/Case/CamelWords.antt =====
-- CamelCase2Underline of string_helper/StringHelper.hpp on a string made of words.
use c_plus_plus.Prelude.{ℕ, ◌≡◌, refl, sym, ap, ◌∙◌, true, false, not, List, [], ◌∷◌, ◌++◌}
use c_plus_plus.Prelude.Chars.{Bytes, isupper}
use c_plus_plus.Prelude.Find.{All, not-true}
use c_plus_plus.StringHelper.Case.{camel_case_to_underline}
use c_plus_plus.StringHelper.Case.Camel.{tolower_not_upper}

-- A capital, and one or more characters that are no capitals.
pub record Word : Type 0 where
  pub capital : ℕ
  pub second : ℕ
  pub others : Bytes

abbrev pub text_of : Word → Bytes
text_of w = w.capital ∷ w.second ∷ w.others

abbrev pub IsWord : Word → Type 0
IsWord w = (isupper w.capital ≡ true) × All (λ c. not (isupper c)) (w.second ∷ w.others)

abbrev pub AreWords : List Word → Type 0
AreWords [] = Unit
AreWords (w ∷ ws) = IsWord w × AreWords ws

abbrev pub together : Word → List Word → Bytes
together w [] = text_of w
together w (v ∷ ws) = text_of w ++ together v ws

abbrev pub underlined : Word → List Word → Bytes
underlined w [] = text_of w
underlined w (v ∷ ws) = text_of w ++ (b'_' ∷ underlined v ws)

next_plain :
    (c d : ℕ) (s : Bytes)
    → isupper d ≡ false
    → camel_case_to_underline (c ∷ d ∷ s) ≡ c ∷ camel_case_to_underline (d ∷ s)
unfolding camel_case_to_underline
next_plain c d s h = rw h refl

next_capital :
    (c d : ℕ) (s : Bytes)
    → isupper c ≡ false
    → isupper d ≡ true
    → camel_case_to_underline (c ∷ d ∷ s) ≡ c ∷ b'_' ∷ camel_case_to_underline (d ∷ s)
unfolding camel_case_to_underline
next_capital c d s h k = rw (k, tolower_not_upper c h) refl

-- Characters that are no capitals stay, up to the end of the string and up to the next capital.
plain_to_end :
    (c : ℕ) (s : Bytes) → All (λ d. not (isupper d)) s → camel_case_to_underline (c ∷ s) ≡ c ∷ s
unfolding camel_case_to_underline
plain_to_end c [] a = refl
plain_to_end c (d ∷ s) a =
    next_plain c d s (not-true (isupper d) a.0) ∙ ap (λ r. c ∷ r) (plain_to_end d s a.1)

plain_to_capital :
    (c d : ℕ) (s next : Bytes)
    → All (λ d. not (isupper d)) (c ∷ s)
    → isupper d ≡ true
    → camel_case_to_underline (c ∷ (s ++ (d ∷ next)))
      ≡ c ∷ (s ++ (b'_' ∷ camel_case_to_underline (d ∷ next)))
plain_to_capital c d [] next a h = next_capital c d next (not-true (isupper c) a.0) h
plain_to_capital c d (e ∷ s) next a h =
    next_plain c e (s ++ (d ∷ next)) (not-true (isupper e) a.1.0)
    ∙ ap (λ r. c ∷ r) (plain_to_capital e d s next a.1 h)

together-begins : (w : Word) (ws : List Word) → (s : Bytes) × (together w ws ≡ w.capital ∷ s)
together-begins w [] = (w.second ∷ w.others, refl)
together-begins w (v ∷ ws) = (w.second ∷ (w.others ++ together v ws), refl)

-- Words that begin with a capital, with at least one character behind it and no other capital, get an
-- underscore between them and stay as they are: each keeps its capital, so that "ZhangSan" becomes
-- "Zhang_San".
pub camel_case_to_underline-words :
    (w : Word) (ws : List Word)
    → AreWords (w ∷ ws)
    → camel_case_to_underline (together w ws) ≡ underlined w ws
camel_case_to_underline-words w [] a = plain_to_end w.capital (w.second ∷ w.others) a.0.1
camel_case_to_underline-words w (v ∷ ws) a =
    let (s, e) = together-begins v ws in
    next_plain w.capital w.second (w.others ++ together v ws) (not-true (isupper w.second) a.0.1.0)
    ∙ ap (λ r. w.capital ∷ r)
        (ap (λ r. camel_case_to_underline (w.second ∷ (w.others ++ r))) e
          ∙ plain_to_capital w.second v.capital w.others s a.0.1 a.1.0.0
          ∙ ap (λ r. w.second ∷ (w.others ++ (b'_' ∷ camel_case_to_underline r))) (sym e)
          ∙ ap (λ r. w.second ∷ (w.others ++ (b'_' ∷ r))) (camel_case_to_underline-words v ws a.1))
