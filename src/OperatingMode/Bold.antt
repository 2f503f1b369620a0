-- ===== src/OperatingMode/Bold.antt =====
-- The two functions on bold text undo each other.
use c_plus_plus.Prelude.{
  ℕ, zero, suc, ◌+◌, ◌-◌, ◌≤◌, ◌≡◌, refl, sym, ap, ap₂, ◌∙◌, ◌⊎◌, inl, inr, Option, none, some, [],
  ◌∷◌, ◌++◌, arith, length, length-append,
}
use c_plus_plus.Prelude.Chars.{Bytes, codes}
use c_plus_plus.OperatingMode.{
  cut_at, replace_marks, html_marks, asterisks, bold_to_asterisk, bold_to_html,
}
use c_plus_plus.OperatingMode.Searches.{Lacks, cut_at-first, cut_at-none, cut_at-joins}
use mathlib.Core.Option.{some-injective, none-ne-some}
use mathlib.Core.Path.{subst}

module _ (old new : Bytes × Bytes) where
  replace_marks-done :
      (fuel : ℕ) (s : Bytes) → cut_at old.0 s ≡ none → replace_marks old new fuel s ≡ some s
  unfolding replace_marks
  replace_marks-done zero s h = refl
  replace_marks-done (suc fuel) s h = rw (h, replace_marks) refl

  replace_marks-goes :
      (fuel : ℕ) (s p r q a t : Bytes)
      → cut_at old.0 s ≡ some (p, r)
      → cut_at old.1 r ≡ some (q, a)
      → replace_marks old new fuel a ≡ some t
      → replace_marks old new (suc fuel) s ≡ some (p ++ (new.0 ++ (q ++ (new.1 ++ t))))
  unfolding replace_marks
  replace_marks-goes fuel s p r q a t h k e = rw (h, k, e, replace_marks) refl

  -- What a text is when the change succeeds: nothing to change, or two marks and a text behind them.
  pub replace_marks-cases :
      (fuel : ℕ) (s t : Bytes)
      → replace_marks old new (suc fuel) s ≡ some t
      → (s ≡ t)
        ⊎ ((p q a : Bytes) × ((u : Bytes) × ((s ≡ p ++ (old.0 ++ (q ++ (old.1 ++ a))))
                × ((replace_marks old new fuel a ≡ some u)
                    × (t ≡ p ++ (new.0 ++ (q ++ (new.1 ++ u))))))))
  unfolding replace_marks
  replace_marks-cases fuel s t e = first (cut_at old.0 s) refl e
    where
      Marked : Type 0
      Marked =
          (p q a : Bytes) × ((u : Bytes) × ((s ≡ p ++ (old.0 ++ (q ++ (old.1 ++ a))))
              × ((replace_marks old new fuel a ≡ some u)
                  × (t ≡ p ++ (new.0 ++ (q ++ (new.1 ++ u)))))))

      built : Bytes → Bytes → Option Bytes → Option Bytes
      built p q o = elim o [ none ↦ none | some u ↦ some (p ++ (new.0 ++ (q ++ (new.1 ++ u)))) ]

      third :
          (p r q a : Bytes) (o : Option Bytes)
          → cut_at old.0 s ≡ some (p, r)
          → cut_at old.1 r ≡ some (q, a)
          → replace_marks old new fuel a ≡ o
          → built p q o ≡ some t
          → Marked
      third p r q a none h k g e = absurd (none-ne-some t e)
      third p r q a (some u) h k g e = (
        p,
        q,
        a,
        (
          u,
          (
            sym (cut_at-joins old.0 s p r h)
                ∙ ap (λ l. p ++ (old.0 ++ l)) (sym (cut_at-joins old.1 r q a k)),
            (g, sym (some-injective (p ++ (new.0 ++ (q ++ (new.1 ++ u)))) t e)),
          ),
        ),
      )

      second :
          (p r : Bytes) (o : Option (Bytes × Bytes))
          → cut_at old.0 s ≡ some (p, r)
          → cut_at old.1 r ≡ o
          → elim o [ none ↦ none | some (q, a) ↦ built p q (replace_marks old new fuel a) ] ≡ some t
          → Marked
      second p r none h k e = absurd (none-ne-some t e)
      second p r (some (q, a)) h k e = third p r q a (replace_marks old new fuel a) h k refl e

      first :
          (o : Option (Bytes × Bytes))
          → cut_at old.0 s ≡ o
          → elim o [
            | none ↦ some s
            | some (p, r) ↦ elim (cut_at old.1 r) [
              | none ↦ none
              | some (q, a) ↦ built p q (replace_marks old new fuel a)
            ]
          ]
            ≡ some t
          → (s ≡ t) ⊎ Marked
      first none h e = inl (some-injective s t e)
      first (some (p, r)) h e = inr (second p r (cut_at old.1 r) h refl e)

pub Lacks-parts : (x : ℕ) (s t : Bytes) → Lacks x (s ++ t) → Lacks x s × Lacks x t
Lacks-parts x [] t a = (tt, a)
Lacks-parts x (c ∷ s) t a = let rest = Lacks-parts x s t a.1 in ((a.0, rest.0), rest.1)

length-marked :
    (p q u t : Bytes) → t ≡ p ++ (codes "**" ++ (q ++ (codes "**" ++ u))) → length u + 4 ≤ length t
length-marked p q u t e = omega (
  arith,
  ap length e,
  length-append p (codes "**" ++ (q ++ (codes "**" ++ u))),
  length-append q (codes "**" ++ u),
)

replace_marks-marked :
    (m : ℕ) (p q u r t : Bytes)
    → Lacks b'*' p
    → Lacks b'*' q
    → t ≡ p ++ (codes "**" ++ (q ++ (codes "**" ++ u)))
    → 1 ≤ m
    → replace_marks asterisks html_marks (m - 1) u ≡ some r
    → replace_marks asterisks html_marks m t
      ≡ some (p ++ (codes "<b>" ++ (q ++ (codes "</b>" ++ r))))
replace_marks-marked m p q u r t a b e h g =
    ap₂ (λ k x. replace_marks asterisks html_marks k x) (one_more m h) e
    ∙ replace_marks-goes asterisks html_marks (m - 1)
        (p ++ (codes "**" ++ (q ++ (codes "**" ++ u)))) p (q ++ (codes "**" ++ u)) q u r
        (cut_at-first b'*' (b'*' ∷ []) p (q ++ (codes "**" ++ u)) a)
        (cut_at-first b'*' (b'*' ∷ []) q u b) g
  where
    one_more : (m : ℕ) → 1 ≤ m → m ≡ suc (m - 1)
    one_more m h = omega arith

replace_marks-back :
    (n m : ℕ) (s t : Bytes)
    → Lacks b'*' s
    → replace_marks html_marks asterisks n s ≡ some t
    → length t ≤ m
    → replace_marks asterisks html_marks m t ≡ some s
unfolding replace_marks
replace_marks-back zero m s t a e l = same (some-injective s t e)
  where
    same : s ≡ t → replace_marks asterisks html_marks m t ≡ some s
    same q =
        subst (λ r. replace_marks asterisks html_marks m r ≡ some s) q
          (replace_marks-done asterisks html_marks m s (cut_at-none b'*' (b'*' ∷ []) s a))
replace_marks-back (suc n) m s t a e l = elim (replace_marks-cases html_marks asterisks n s t e) [
  | inl q ↦
      subst (λ r. replace_marks asterisks html_marks m r ≡ some s) q
        (replace_marks-done asterisks html_marks m s (cut_at-none b'*' (b'*' ∷ []) s a))
  | inr (p, q, r, (u, (es, (g, et)))) ↦
      let here =
        Lacks-parts b'*' p (codes "<b>" ++ (q ++ (codes "</b>" ++ r))) (subst (Lacks b'*') es a) in
      let inner = Lacks-parts b'*' q (codes "</b>" ++ r) here.1.1.1.1 in
      let long = length-marked p q u t et in
      replace_marks-marked m p q u r t here.0 inner.0 et (omega (arith, long))
        (replace_marks-back n (m - 1) r u inner.1.1.1.1.1 g (omega (arith, long)))
      ∙ ap some (sym es)
]

-- `changeBoldGrammarToHtmlFormat` gives back an article that `changeBoldGrammarToAsterisk` changed, when
-- the article had no asterisk.
pub bold_to_html-bold_to_asterisk :
    (article changed : Bytes)
    → Lacks b'*' article
    → bold_to_asterisk article ≡ some changed
    → bold_to_html changed ≡ some article
unfolding bold_to_asterisk bold_to_html
bold_to_html-bold_to_asterisk article changed a e =
    replace_marks-back (length article) (length changed) article changed a e (omega arith)
