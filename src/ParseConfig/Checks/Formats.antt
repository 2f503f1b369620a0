-- ===== src/ParseConfig/Checks/Formats.antt =====
-- What the two checks of parse_config/ParseConfig.hpp accept.
use c_plus_plus.Prelude.{
  ℕ, ◌+◌, ◌-◌, ◌%◌, ◌<◌, ◌≡◌, refl, sym, ap, ◌∙◌, ◌≢◌, ◌↔◌, ◌⊎◌, inl, inr, Bool, true, false, not,
  ◌&&◌, none, some, [], ◌∷◌, ◌++◌, append_assoc, arith, leb, ◌==◌, if◌then◌else◌, Bool-cases,
  Option-cases, length, get_elem?, length-append,
}
use c_plus_plus.Prelude.Chars.{Bytes}
use c_plus_plus.Prelude.Find.{All, find_if-split, get_elem?-append, snoc_view, find_if-some}
use mathlib.Core.Path.{subst, subst⁻¹}
use c_plus_plus.ParseConfig.Errors.{bad_item}
use c_plus_plus.ParseConfig.Checks.{u32_mod, char_at, equals_pos, check_conf_item}

abbrev pub not_equals : ℕ → Bool
not_equals c = not (c == b'=')

-- A configuration item: a name and a value that are not empty, with the first `=` between them and
-- no space next to it.
pub record IsItem (conf : Bytes) : Type 0 where
  pub name_front : Bytes
  pub name_last : ℕ
  pub value_first : ℕ
  pub value_rest : Bytes
  pub whole : conf ≡ (name_front ++ name_last ∷ []) ++ b'=' ∷ value_first ∷ value_rest
  pub name_plain : All not_equals (name_front ++ name_last ∷ [])
  pub no_space_before : name_last ≢ b' '
  pub no_space_after : value_first ≢ b' '

pub equals_pos-split :
    (name value : Bytes)
    → All not_equals name
    → equals_pos (name ++ b'=' ∷ value) ≡ some (length name)
equals_pos-split name value a = find_if-split (λ c. c == b'=') name value b'=' a refl

char_at-some : (s : Bytes) (i c d : ℕ) → get_elem? s i ≡ some d → char_at s i c ≡ (d == c)
char_at-some s i c d e = rw (e, char_at)

check_conf_item-some :
    (conf : Bytes) (n pos : ℕ)
    → equals_pos conf ≡ some pos
    → check_conf_item conf n ≡ (
        if leb 1 pos && leb pos ((length conf % u32_mod + u32_mod - 2) % u32_mod)
        then (if not (char_at conf (pos - 1) b' ') && not (char_at conf (pos + 1) b' ')
            then none
            else some (bad_item n conf))
        else some (bad_item n conf))
unfolding check_conf_item
check_conf_item-some conf n pos e = rw (e, check_conf_item)

check_conf_item-none :
    (conf : Bytes) (n : ℕ)
    → equals_pos conf ≡ none
    → check_conf_item conf n ≡ some (bad_item n conf)
unfolding check_conf_item
check_conf_item-none conf n e = rw (e, check_conf_item)

-- The two positions that the second test reads.
char_before :
    (front rest : Bytes) (x c : ℕ)
    → char_at ((front ++ x ∷ []) ++ rest) (length (front ++ x ∷ []) - 1) c ≡ (x == c)
char_before front rest x c =
    char_at-some ((front ++ x ∷ []) ++ rest) (length (front ++ x ∷ []) - 1) c x (
      ap (λ s. get_elem? s (length (front ++ x ∷ []) - 1)) (append_assoc front (x ∷ []) rest)
      ∙ get_elem?-append front rest x _ (omega (arith, length-append front (x ∷ []))))

char_after :
    (name rest : Bytes) (y d c : ℕ) → char_at (name ++ d ∷ y ∷ rest) (length name + 1) c ≡ (y == c)
char_after name rest y d c = char_at-some (name ++ d ∷ y ∷ rest) (length name + 1) c y (
    ap (λ s. get_elem? s (length name + 1)) (sym (append_assoc name (d ∷ []) (y ∷ rest)))
    ∙ get_elem?-append (name ++ d ∷ []) rest y _ (omega (arith, length-append name (d ∷ []))))

module _ (n : ℕ) where
  -- The verdict on a name and a value.
  check_parts :
      (front value : Bytes) (x y : ℕ)
      → All not_equals (front ++ x ∷ [])
      → length ((front ++ x ∷ []) ++ b'=' ∷ y ∷ value) < u32_mod
      → check_conf_item ((front ++ x ∷ []) ++ b'=' ∷ y ∷ value) n ≡ (
          if not (x == b' ') && not (y == b' ')
          then none
          else some (bad_item n ((front ++ x ∷ []) ++ b'=' ∷ y ∷ value)))
  check_parts front value x y a small =
      let conf = (front ++ x ∷ []) ++ b'=' ∷ y ∷ value in
      let pos = length (front ++ x ∷ []) in
      let size = length-append (front ++ x ∷ []) (b'=' ∷ y ∷ value) in
      let size' = length-append front (x ∷ []) in
      let inside : (leb 1 pos && leb pos ((length conf % u32_mod + u32_mod - 2) % u32_mod)) ≡ true =
        ground (arith, size, size') in
      check_conf_item-some conf n pos (equals_pos-split (front ++ x ∷ []) (y ∷ value) a)
      ∙ rw (
        inside,
        char_before front (b'=' ∷ y ∷ value) x b' ',
        char_after (front ++ x ∷ []) value y b'=' b' ',
      )

  check_no_name :
      (value : Bytes) → check_conf_item (b'=' ∷ value) n ≡ some (bad_item n (b'=' ∷ value))
  check_no_name value =
      check_conf_item-some (b'=' ∷ value) n 0 (equals_pos-split [] value tt) ∙ ground arith

  check_no_value :
      (name : Bytes)
      → All not_equals name
      → 0 < length name
      → length (name ++ b'=' ∷ []) < u32_mod
      → check_conf_item (name ++ b'=' ∷ []) n ≡ some (bad_item n (name ++ b'=' ∷ []))
  check_no_value name a pos small =
      let size = length-append name (b'=' ∷ []) in
      let outside : (leb 1 (length name)
            && leb (length name) ((length (name ++ b'=' ∷ []) % u32_mod + u32_mod - 2) % u32_mod))
          ≡ false =
        ground (arith, size) in
      check_conf_item-some (name ++ b'=' ∷ []) n (length name) (equals_pos-split name [] a)
      ∙ rw outside

  check_split :
      (name value : Bytes)
      → All not_equals name
      → length (name ++ b'=' ∷ value) < u32_mod
      → check_conf_item (name ++ b'=' ∷ value) n ≡ none
      → IsItem (name ++ b'=' ∷ value)
  check_split [] value a small h = absurd (cc (check_no_name value))
  check_split (c ∷ name) [] a small h =
      absurd (cc (check_no_value (c ∷ name) a (omega arith) small))
  check_split (c ∷ name) (y ∷ value) a small h =
      let (front, x, e) = snoc_view c name in
      let same : (c ∷ name) ++ b'=' ∷ y ∷ value ≡ (front ++ x ∷ []) ++ b'=' ∷ y ∷ value =
        ap (λ s. s ++ b'=' ∷ y ∷ value) e in
      let a' : All not_equals (front ++ x ∷ []) = subst (All not_equals) e a in
      let verdict = check_parts front value x y a' (omega (arith, ap length same)) in
      let accepted = ap (λ s. check_conf_item s n) (sym same) ∙ h in
      record {
        name_front = front;
        name_last = x;
        value_first = y;
        value_rest = value;
        whole = same;
        name_plain = a';
        no_space_before = λ q. ground (arith, verdict, accepted, q);
        no_space_after = λ q. ground (arith, verdict, accepted, q);
      }

-- `checkConfItemFormat` accepts exactly the configuration items, for lines of less than 2 ^ 32
-- characters.
pub check_conf_item_iff :
    (conf : Bytes) (n : ℕ) → length conf < u32_mod → (check_conf_item conf n ≡ none) ↔ IsItem conf
check_conf_item_iff conf n small = (accepted, item)
  where
    item : IsItem conf → check_conf_item conf n ≡ none
    item i =
        ap (λ s. check_conf_item s n) i.whole
        ∙ check_parts n i.name_front i.value_rest i.name_last i.value_first i.name_plain
            (omega (arith, ap length i.whole))
        ∙ ground (arith, i.no_space_before, i.no_space_after)

    accepted : check_conf_item conf n ≡ none → IsItem conf
    accepted h = elim (Option-cases (equals_pos conf)) [
      | inl e ↦ absurd (cc (check_conf_item-none conf n e))
      | inr (pos, e) ↦
          let (name, c, value, whole, size, a, p) = find_if-some (λ d. d == b'=') conf pos e in
          let eq : c ≡ b'=' = ground arith in
          let whole' : conf ≡ name ++ b'=' ∷ value = whole ∙ ap (λ d. name ++ d ∷ value) eq in
          subst⁻¹ IsItem whole' (
            check_split n name value a (omega (arith, ap length whole'))
              (ap (λ s. check_conf_item s n) (sym whole') ∙ h))
    ]

pub check_conf_item-error :
    (conf : Bytes) (n : ℕ)
    → (check_conf_item conf n ≡ none) ⊎ (check_conf_item conf n ≡ some (bad_item n conf))
check_conf_item-error conf n = elim (Option-cases (equals_pos conf)) [
  | inl e ↦ inr (check_conf_item-none conf n e)
  | inr (pos, e) ↦
      let inside : Bool = leb 1 pos && leb pos ((length conf % u32_mod + u32_mod - 2) % u32_mod) in
      let spaced : Bool = not (char_at conf (pos - 1) b' ') && not (char_at conf (pos + 1) b' ') in
      elim (Bool-cases inside) [
        | inl p ↦ elim (Bool-cases spaced) [
          | inl q ↦ inl (check_conf_item-some conf n pos e ∙ rw (p, q))
          | inr q ↦ inr (check_conf_item-some conf n pos e ∙ rw (p, q))
        ]
        | inr p ↦ inr (check_conf_item-some conf n pos e ∙ rw p)
      ]
]
