-- ===== src/StringHelper/Search/Affixes.antt =====
-- StartsWith and EndsWith of string_helper/StringHelper.hpp on a range of the string.
use c_plus_plus.Prelude.{
  ℕ, ◌+◌, ◌-◌, ◌*◌, ◌%◌, ◌≤◌, ◌<◌, ◌≡◌, refl, sym, ap, ◌∙◌, ◌↔◌, inl, inr, Bool, true, false, ◌&&◌,
  some, [], ◌∷◌, ◌++◌, reverse, append_assoc, reverse-append, reverse-reverse, arith, ltb, leb,
  ◌==◌, ltb→lt, Bool-cases, length, drop, length-append,
}
use c_plus_plus.Prelude.Chars.{Bytes}
use c_plus_plus.Prelude.Find.{is_prefix, length-reverse, drop-length}
use c_plus_plus.StringHelper.Search.{
  size_mod, last_index, clamp_end, equal_range, range_size, starts_with, ends_with,
}

is_prefix-long : (sub s : Bytes) → length s < length sub → is_prefix sub s ≡ false
unfolding is_prefix
is_prefix-long [] s h = absurd (omega arith)
is_prefix-long (p ∷ ps) [] h = refl
is_prefix-long (p ∷ ps) (c ∷ s) h = ground (arith, is_prefix-long ps s)

is_prefix-append :
    (sub s t : Bytes) → length sub ≤ length s → is_prefix sub (s ++ t) ≡ is_prefix sub s
unfolding is_prefix
is_prefix-append [] s t h = refl
is_prefix-append (p ∷ ps) [] t h = absurd (omega arith)
is_prefix-append (p ∷ ps) (c ∷ s) t h =
    ap (λ b. p == c && b) (is_prefix-append ps s t (omega arith))

equal_range-append :
    (sub s t : Bytes) → length sub ≤ length s → equal_range sub (s ++ t) ≡ some (is_prefix sub s)
unfolding equal_range
equal_range-append sub s t h =
    let fits : leb (length sub) (length (s ++ t)) ≡ true = ground (arith, length-append s t) in
    rw (fits, is_prefix-append sub s t h)

-- What the two results mean.
is_prefix_iff : (sub s : Bytes) → (is_prefix sub s ≡ true) ↔ ((rest : Bytes) × (s ≡ sub ++ rest))
unfolding is_prefix
is_prefix_iff [] s = (λ _. (s, refl), λ _. refl)
is_prefix_iff (p ∷ ps) [] = (λ h. cc, λ h. absurd (cc h.1))
is_prefix_iff (p ∷ ps) (c ∷ s) = (
  λ h. let t = (is_prefix_iff ps s).0 (ground arith) in (t.0, ground (arith, t.1)),
  λ h. ground (arith, (is_prefix_iff ps s).1 (h.0, ground (arith, h.1)), h.1),
)

is_suffix_iff :
    (sub s : Bytes)
    → (is_prefix (reverse sub) (reverse s) ≡ true) ↔ ((front : Bytes) × (s ≡ front ++ sub))
is_suffix_iff sub s = (
  λ h.
      let t = (is_prefix_iff (reverse sub) (reverse s)).0 h in
      (
        reverse t.0,
        sym (reverse-reverse s)
            ∙ ap reverse t.1
            ∙ reverse-append (reverse sub) t.0
            ∙ rw (reverse-reverse sub),
      ),
  λ h.
      (is_prefix_iff (reverse sub) (reverse s)).1
        (reverse h.0, ap reverse h.1 ∙ reverse-append h.0 sub),
)

module _ (front middle back sub : Bytes) (end : ℕ) (nonempty : 0 < length middle)
    (small : length front + (length middle + length back) < size_mod)
    (ends : clamp_end (front ++ (middle ++ back)) end ≡ length front + length middle - 1) where
  length_whole : length (front ++ (middle ++ back)) ≡ length front + (length middle + length back)
  length_whole = omega (arith, length-append front (middle ++ back), length-append middle back)

  start_in : ltb (last_index (front ++ (middle ++ back))) (length front) ≡ false
  start_in = ground (arith, length_whole)

  size_lem : range_size (length front) (clamp_end (front ++ (middle ++ back)) end) ≡ length middle
  size_lem = omega (arith, ends)

  drop_front : drop (length front) (front ++ (middle ++ back)) ≡ middle ++ back
  drop_front = drop-length front (middle ++ back) (length front) 0 (omega arith)

  drop_back :
      drop
        ((length (front ++ (middle ++ back))
            + 2 * size_mod
            - clamp_end (front ++ (middle ++ back)) end
            - 1)
          % size_mod)
        (reverse (front ++ (middle ++ back)))
      ≡ reverse middle ++ reverse front
  drop_back =
      rw (reverse-append front (middle ++ back), reverse-append middle back, append_assoc)
        (drop-length (reverse back) (reverse middle ++ reverse front) _ 0
          (omega (arith, ends, length_whole, length-reverse back)))

  affixes_eq :
      (starts_with (front ++ (middle ++ back)) sub (length front) end ≡ some (is_prefix sub middle))
      × (ends_with (front ++ (middle ++ back)) sub (length front) end
          ≡ some (is_prefix (reverse sub) (reverse middle)))
  unfolding starts_with ends_with
  affixes_eq = elim (Bool-cases (ltb (length middle) (length sub))) [
    | inl long ↦ (
      rw (start_in, size_lem, long, is_prefix-long sub middle (ltb→lt _ _ long)),
      rw (
        start_in,
        size_lem,
        long,
        is_prefix-long (reverse sub) (reverse middle)
            (omega (arith, ltb→lt _ _ long, length-reverse sub, length-reverse middle)),
      ),
    )
    | inr fits ↦
        let le : length sub ≤ length middle = ground arith in
        (
          rw (start_in, size_lem, fits, drop_front) (equal_range-append sub middle back le),
          rw (start_in, size_lem, fits, drop_back)
              (equal_range-append (reverse sub) (reverse middle) (reverse front)
                (omega (arith, length-reverse sub, length-reverse middle))),
        )
  ]

  -- For a range of a string shorter than 2 ^ 64 that is not empty and stops at the position that
  -- `end` stands for: `StartsWith` returns whether the range begins with `sub`, and `EndsWith`
  -- whether it ends with it.
  pub affixes_lem :
      ((b : Bool) × (starts_with (front ++ (middle ++ back)) sub (length front) end ≡ some b)
        × ((b ≡ true) ↔ ((rest : Bytes) × (middle ≡ sub ++ rest))))
      × ((b : Bool) × (ends_with (front ++ (middle ++ back)) sub (length front) end ≡ some b)
          × ((b ≡ true) ↔ ((rest : Bytes) × (middle ≡ rest ++ sub))))
  affixes_lem = (
    (is_prefix sub middle, affixes_eq.0, is_prefix_iff sub middle),
    (is_prefix (reverse sub) (reverse middle), affixes_eq.1, is_suffix_iff sub middle),
  )
