-- ===== src/ParseConfig/Checks/Sections.antt =====
-- What checkSectionNameFromat of parse_config/ParseConfig.hpp accepts.
use c_plus_plus.Prelude.{
  ℕ, ◌+◌, ◌%◌, ◌≤◌, ◌<◌, ◌≡◌, refl, sym, ap, ap₂, ◌∙◌, ◌↔◌, ◌⊎◌, inl, inr, Bool, true, false, not,
  ◌&&◌, ◌||◌, none, some, [], ◌∷◌, ◌++◌, reverse-append, arith, ◌==◌, if◌then◌else◌, Bool-cases,
  Bool-ne, length, length-append,
}
use c_plus_plus.Prelude.Chars.{Bytes}
use c_plus_plus.Prelude.Find.{count_if, All, snoc_view}
use c_plus_plus.ParseConfig.Errors.{bad_section}
use c_plus_plus.ParseConfig.Checks.{u32_mod, starts_by, ends_by, check_section_name}

abbrev pub not_bracket : ℕ → Bool
not_bracket c = not (c == b'[') && not (c == b']')

-- A section name: one pair of square brackets, at the two ends.
pub record IsSection (conf : Bytes) : Type 0 where
  pub name : Bytes
  pub whole : conf ≡ b'[' ∷ (name ++ b']' ∷ [])
  pub name_plain : All not_bracket name

ends_by-snoc : (c : ℕ) (s : Bytes) (d : ℕ) → ends_by c (s ++ d ∷ []) ≡ (d == c)
unfolding ends_by
ends_by-snoc c s d = rw (reverse-append s (d ∷ []))

count_if-append : (p : ℕ → Bool) (s t : Bytes) → count_if p (s ++ t) ≡ count_if p s + count_if p t
unfolding count_if
count_if-append p [] t = omega arith
count_if-append p (c ∷ s) t = ground (arith, count_if-append p s t)

count_if-length : (p : ℕ → Bool) (s : Bytes) → count_if p s ≤ length s
unfolding count_if
count_if-length p [] = omega arith
count_if-length p (c ∷ s) = ground (arith, count_if-length p s)

-- No bracket inside, from the two counts and back.
counts_zero :
    (s : Bytes)
    → All not_bracket s ↔ ((count_if (λ c. c == b'[') s ≡ 0) × (count_if (λ c. c == b']') s ≡ 0))
unfolding count_if
counts_zero [] = (λ a. (refl, refl), λ h. tt)
counts_zero (c ∷ s) = (
  λ a. let h = (counts_zero s).0 a.1 in (ground (arith, a.0, h), ground (arith, a.0, h)),
  λ h. (ground (arith, h), (counts_zero s).1 (ground (arith, h), ground (arith, h))),
)

check_section_name-brackets :
    (s : Bytes) (n : ℕ)
    → length (b'[' ∷ (s ++ b']' ∷ [])) < u32_mod
    → check_section_name (b'[' ∷ (s ++ b']' ∷ [])) n ≡ (
        if (count_if (λ c. c == b'[') s == 0) && (count_if (λ c. c == b']') s == 0)
        then none
        else some (bad_section n (b'[' ∷ (s ++ b']' ∷ []))))
unfolding check_section_name count_if
check_section_name-brackets s n small =
    let open_count = count_if-append (λ c. c == b'[') s (b']' ∷ []) in
    let close_count = count_if-append (λ c. c == b']') s (b']' ∷ []) in
    let open_max = count_if-length (λ c. c == b'[') s in
    let close_max = count_if-length (λ c. c == b']') s in
    let len = length-append s (b']' ∷ []) in
    let ends : ends_by b']' (b'[' ∷ (s ++ b']' ∷ [])) ≡ true = ends_by-snoc b']' (b'[' ∷ s) b']' in
    rw ends (ground (arith, open_count, close_count, open_max, close_max, len))

check_section_name-start :
    (conf : Bytes) (n : ℕ)
    → (starts_by b'[' conf && ends_by b']' conf) ≡ false
    → check_section_name conf n ≡ some (bad_section n conf)
unfolding check_section_name
check_section_name-start conf n h = rw h

brackets :
    (conf : Bytes)
    → (starts_by b'[' conf && ends_by b']' conf) ≡ true
    → (s : Bytes) × (conf ≡ b'[' ∷ (s ++ b']' ∷ []))
brackets [] h = Bool-ne h refl
brackets (c ∷ []) h = absurd (unfold ends_by in ground (arith, h))
brackets (c ∷ d ∷ s) h =
    let (front, x, e) = snoc_view d s in
    let ends : ends_by b']' (c ∷ d ∷ s) ≡ (x == b']') =
      ap (λ t. ends_by b']' (c ∷ t)) e ∙ ends_by-snoc b']' (c ∷ front) x in
    let first : c ≡ b'[' = ground (arith, h) in
    let last : x ≡ b']' = ground (arith, h, ends) in
    (front, ap₂ ◌∷◌ first (e ∙ ap (λ y. front ++ y ∷ []) last))

-- `checkSectionNameFromat` accepts exactly the section names, for lines of less than 2 ^ 32
-- characters.
pub check_section_name_iff :
    (conf : Bytes) (n : ℕ)
    → length conf < u32_mod
    → (check_section_name conf n ≡ none) ↔ IsSection conf
check_section_name_iff conf n small = (section, accepted)
  where
    accepted : IsSection conf → check_section_name conf n ≡ none
    accepted i =
        let zero_counts = (counts_zero i.name).0 i.name_plain in
        ap (λ s. check_section_name s n) i.whole
        ∙ check_section_name-brackets i.name n (omega (arith, ap length i.whole))
        ∙ rw (zero_counts.0, zero_counts.1)

    section : check_section_name conf n ≡ none → IsSection conf
    section h = elim (Bool-cases (starts_by b'[' conf && ends_by b']' conf)) [
      | inl both ↦
          let (s, e) = brackets conf both in
          let verdict = check_section_name-brackets s n (omega (arith, ap length e)) in
          let accepted = ap (λ t. check_section_name t n) (sym e) ∙ h in
          record {
            name = s;
            whole = e;
            name_plain = (counts_zero s).1 (ground (arith, verdict, accepted));
          }
      | inr bad ↦ absurd (cc (check_section_name-start conf n bad))
    ]

pub check_section_name-error :
    (conf : Bytes) (n : ℕ)
    → (check_section_name conf n ≡ none) ⊎ (check_section_name conf n ≡ some (bad_section n conf))
check_section_name-error conf n = elim (Bool-cases (starts_by b'[' conf && ends_by b']' conf)) [
  | inl both ↦
      elim (Bool-cases (
        not (count_if (λ c. c == b'[') conf % u32_mod == 1)
        || not (count_if (λ c. c == b']') conf % u32_mod == 1))) [
          | inl bad ↦ inr (unfold check_section_name in rw (both, bad))
          | inr good ↦ inl (unfold check_section_name in rw (both, good))
        ]
  | inr bad ↦ inr (check_section_name-start conf n bad)
]
