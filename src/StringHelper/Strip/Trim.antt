-- ===== src/StringHelper/Strip/Trim.antt =====
-- What Lstrip, Rstrip and Strip of string_helper/StringHelper.hpp make of a string.
pub mod Kinds
use c_plus_plus.Prelude.{
  ℕ, ◌+◌, ◌-◌, ◌/◌, ◌<◌, ◌≡◌, refl, sym, ap, ◌∙◌, inl, inr, Bool, true, false, not, ◌&&◌, none,
  some, [], ◌∷◌, ◌++◌, reverse, append-nil, append_assoc, reverse-append, arith, ◌==◌,
  if◌then◌else◌, Bool-cases, ◌>>=◌, length, set, take, drop, length-append,
}
use c_plus_plus.Prelude.Chars.{Bytes}
use c_plus_plus.Prelude.Find.{
  find_if, All, one_of, find_if-split, find_if-none, All-reverse, length-reverse, take-length,
  drop-length,
}
use c_plus_plus.StringHelper.Strip.{stays, start_pos, end_pos, lstrip, rstrip, strip}

-- A string with a character that is not stripped, cut at the first and at the last of these.
pub record Trimmed (chars str : Bytes) : Type 0 where
  pub front : Bytes
  pub middle : Bytes
  pub back : Bytes
  pub whole : str ≡ front ++ (middle ++ back)
  pub front_stripped : All (one_of chars) front
  pub back_stripped : All (one_of chars) back
  pub first : ℕ
  pub after_first : Bytes
  pub starts : middle ≡ first ∷ after_first
  pub first_stays : stays chars first ≡ true
  pub last : ℕ
  pub before_last : Bytes
  pub ends : middle ≡ before_last ++ last ∷ []
  pub last_stays : stays chars last ≡ true

All-not-stays : (chars s : Bytes) → All (one_of chars) s → All (λ x. not (stays chars x)) s
All-not-stays chars [] a = tt
All-not-stays chars (x ∷ s) a = (ground arith, All-not-stays chars s a.1)

start_pos-some :
    (chars str : Bytes) (k : ℕ) → find_if (stays chars) str ≡ some k → start_pos str chars ≡ k
unfolding start_pos
start_pos-some chars str k e = rw (e, start_pos)

end_pos-some :
    (chars str : Bytes) (k : ℕ)
    → find_if (stays chars) (reverse str) ≡ some k
    → end_pos str chars ≡ some (length str - 1 - k)
unfolding end_pos
end_pos-some chars str k e = rw (e, end_pos)

start_pos-Trimmed :
    (chars str : Bytes) (t : Trimmed chars str) → start_pos str chars ≡ length t.front
start_pos-Trimmed chars str t = start_pos-some chars str (length t.front) (
    rw (t.whole, t.starts)
      (find_if-split (stays chars) t.front (t.after_first ++ t.back) t.first
        (All-not-stays chars t.front t.front_stripped) t.first_stays))

reverse_lem :
    (front before back : Bytes) (last : ℕ)
    → reverse (front ++ ((before ++ last ∷ []) ++ back))
      ≡ reverse back ++ last ∷ (reverse before ++ reverse front)
reverse_lem front before back last = simp (reverse-append, append_assoc)

end_pos-Trimmed :
    (chars str : Bytes) (t : Trimmed chars str)
    → end_pos str chars ≡ some (length t.front + length t.middle - 1)
end_pos-Trimmed chars str t =
    end_pos-some chars str (length t.back) (
      rw (t.whole, t.ends, reverse_lem t.front t.before_last t.back t.last, ← length-reverse t.back)
        (find_if-split (stays chars) (reverse t.back) (reverse t.before_last ++ reverse t.front)
          t.last
          (All-not-stays chars (reverse t.back) (All-reverse (one_of chars) t.back t.back_stripped))
          t.last_stays))
    ∙ ap some (
        omega (
          arith,
          ap length t.whole,
          length-append t.front (t.middle ++ t.back),
          length-append t.middle t.back,
          ap length t.ends,
          length-append t.before_last (t.last ∷ []),
        ))

middle_nonempty : (chars str : Bytes) (t : Trimmed chars str) → 0 < length t.middle
middle_nonempty chars str t = omega (arith, ap length t.starts)

length-Trimmed :
    (chars str : Bytes) (t : Trimmed chars str)
    → length str ≡ length t.front + (length t.middle + length t.back)
length-Trimmed chars str t = omega (
  arith,
  ap length t.whole,
  length-append t.front (t.middle ++ t.back),
  length-append t.middle t.back,
)

drop_front :
    (chars str : Bytes) (t : Trimmed chars str) → drop (length t.front) str ≡ t.middle ++ t.back
drop_front chars str t =
    rw t.whole (drop-length t.front (t.middle ++ t.back) (length t.front) 0 (omega arith))

take_back :
    (chars str : Bytes) (t : Trimmed chars str)
    → take (length t.front + length t.middle) str ≡ t.front ++ t.middle
take_back chars str t =
    ap (take (length t.front + length t.middle))
      (t.whole ∙ sym (append_assoc t.front t.middle t.back))
    ∙ take-length (t.front ++ t.middle) t.back _ (sym (length-append t.front t.middle))

empty_of_length : (s : Bytes) → length s ≡ 0 → s ≡ []
empty_of_length [] h = refl
empty_of_length (x ∷ s) h = absurd (omega arith)

-- On a string that has a character outside the set: `Lstrip` removes the front and `Rstrip` the back,
-- but `Strip` removes the two only if both are there, and otherwise changes nothing.
pub strip_lem :
    (chars str : Bytes) (t : Trimmed chars str)
    → (lstrip str chars ≡ t.middle ++ t.back)
      × (rstrip str chars ≡ some (t.front ++ t.middle))
      × (strip str chars
          ≡ some (if not (length t.front == 0) && not (length t.back == 0) then t.middle else str))
unfolding lstrip rstrip strip
strip_lem chars str t =
    let s = start_pos-Trimmed chars str t in
    let e = end_pos-Trimmed chars str t in
    let len = length-Trimmed chars str t in
    let pos = middle_nonempty chars str t in
    let d = drop_front chars str t in
    let k = take_back chars str t in
    let w = t.whole in
    let no_front : length t.front ≡ 0 → t.front ≡ [] = empty_of_length t.front in
    let no_back : length t.back ≡ 0 → t.back ≡ [] = empty_of_length t.back in
    let whole_back : t.back ≡ [] → str ≡ t.front ++ t.middle = λ h. w ∙ rw (h, append-nil) in
    let whole_front : t.front ≡ [] → str ≡ t.middle ++ t.back = λ h. w ∙ rw h in
    let last : length t.front + length t.middle - 1 + 1 ≡ length t.front + length t.middle =
      omega arith in
    let mid : length t.front + length t.middle - length t.front ≡ length t.middle = omega arith in
    (
      rw s (elim (Bool-cases (length t.front == 0)) [
        | inl z ↦ rw z (whole_front (no_front (ground arith)))
        | inr z ↦ rw z d
      ]),
      rw e (
          rw last (elim (Bool-cases (length t.back == 0)) [
            | inl z ↦
                let c : (length t.front + length t.middle - 1 == length str - 1) ≡ true =
                  ground arith in
                rw c (ap some (whole_back (no_back (ground arith))))
            | inr z ↦
                let c : (length t.front + length t.middle - 1 == length str - 1) ≡ false =
                  ground arith in
                rw c (ap some k)
          ])),
      rw (e, s)
          (rw (last, mid, d, take-length t.middle t.back (length t.middle) refl)
            (let c : (length t.front + length t.middle - 1 == length str - 1)
                  ≡ (length t.back == 0) =
                ground arith in
              rw c)),
    )

start_pos-none : (chars str : Bytes) → find_if (stays chars) str ≡ none → start_pos str chars ≡ 0
unfolding start_pos
start_pos-none chars str e = rw (e, start_pos)

end_pos-none :
    (chars str : Bytes) → find_if (stays chars) (reverse str) ≡ none → end_pos str chars ≡ none
unfolding end_pos
end_pos-none chars str e = rw (e, end_pos)

-- On a string of characters to strip only, the empty one included: `Lstrip` leaves it as it is, and
-- `Rstrip` and `Strip` read outside the string.
pub strip-All :
    (chars str : Bytes)
    → All (one_of chars) str
    → (lstrip str chars ≡ str) × (rstrip str chars ≡ none) × (strip str chars ≡ none)
unfolding lstrip rstrip strip
strip-All chars str a =
    let start =
      start_pos-none chars str (find_if-none (stays chars) str (All-not-stays chars str a)) in
    let end = end_pos-none chars str (
      find_if-none (stays chars) (reverse str)
        (All-not-stays chars (reverse str) (All-reverse (one_of chars) str a))) in
    (rw start, rw end, rw end)
