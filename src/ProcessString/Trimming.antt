-- ===== src/ProcessString/Trimming.antt =====
-- rmSpaceInBegAndEnd of parse_config/ProcessString.hpp.
use c_plus_plus.Prelude.{
  ℕ, ◌<◌, ◌≡◌, refl, sym, ap, ◌∙◌, ◌⊎◌, inl, inr, true, false, not, [], ◌∷◌, ◌++◌, reverse,
  append-nil, reverse-append, arith, ◌==◌, if◌then◌else◌, length, drop, length-append,
}
use c_plus_plus.Prelude.Chars.{Bytes}
use c_plus_plus.Prelude.Find.{
  All, one_of, All-reverse, length-reverse, take-length, drop-length, not-true,
}
use c_plus_plus.StringHelper.Strip.Trim.{Trimmed}
use c_plus_plus.ProcessString.{white, leading, rm_space_in_end, rm_space_in_beg_and_end}

leading-split :
    (front rest : Bytes) (c : ℕ)
    → All (one_of white) front
    → one_of white c ≡ false
    → leading (front ++ c ∷ rest) ≡ length front
unfolding leading
leading-split [] rest c a h = rw h
leading-split (x ∷ front) rest c a h = rw (a.0, leading-split front rest c a.1 h) (omega arith)

leading-All : (s : Bytes) → All (one_of white) s → leading s ≡ length s
unfolding leading
leading-All [] a = refl
leading-All (x ∷ s) a = rw (a.0, leading-All s a.1) (omega arith)

rm_nonempty :
    (str : Bytes)
    → 0 < length str
    → rm_space_in_beg_and_end str
      ≡ (if leading str == length str then [] else rm_space_in_end (drop (leading str) str))
unfolding rm_space_in_beg_and_end
rm_nonempty [] h = absurd (omega arith)
rm_nonempty (c ∷ s) h = refl

one_of-stays : (c : ℕ) → not (one_of white c) ≡ true → one_of white c ≡ false
one_of-stays c h = not-true (one_of white c) h

rm_end_lem :
    (before back : Bytes) (last : ℕ)
    → one_of white last ≡ false
    → All (one_of white) back
    → rm_space_in_end ((before ++ last ∷ []) ++ back) ≡ before ++ last ∷ []
unfolding rm_space_in_end
rm_end_lem before back last h a =
    let middle = before ++ last ∷ [] in
    let turned : reverse (middle ++ back) ≡ reverse back ++ last ∷ reverse before =
      simp reverse-append in
    let count : leading (reverse (middle ++ back)) ≡ length back =
      ap leading turned
      ∙ leading-split (reverse back) (reverse before) last (All-reverse (one_of white) back a) h
      ∙ length-reverse back in
    let sum = length-append middle back in
    let sum' = length-append before (last ∷ []) in
    let differ : (length back == length (middle ++ back)) ≡ false = ground (arith, sum, sum') in
    rw (count, differ) (take-length middle back _ (omega (arith, sum)))

rm_middle :
    (front middle back after before : Bytes) (first last : ℕ)
    → All (one_of white) front
    → All (one_of white) back
    → middle ≡ first ∷ after
    → middle ≡ before ++ last ∷ []
    → one_of white first ≡ false
    → one_of white last ≡ false
    → rm_space_in_beg_and_end (front ++ (middle ++ back)) ≡ middle
rm_middle front middle back after before first last af ab starts ends hf hl =
    let str = front ++ (middle ++ back) in
    let size = length-append front (middle ++ back) in
    let size' = length-append middle back in
    let long = ap length starts in
    let count : leading str ≡ length front =
      ap (λ m. leading (front ++ (m ++ back))) starts
      ∙ leading-split front (after ++ back) first af hf in
    let differ : (length front == length str) ≡ false = ground (arith, size, size', long) in
    rm_nonempty str (omega (arith, size, size', long))
    ∙ rw (count, differ)
        (ap rm_space_in_end (drop-length front (middle ++ back) (length front) 0 (omega arith))
          ∙ ap (λ m. rm_space_in_end (m ++ back)) ends
          ∙ rm_end_lem before back last hl ab
          ∙ sym ends)

blank : (s : Bytes) → All (one_of white) s → rm_space_in_beg_and_end s ≡ []
blank [] a = unfold rm_space_in_beg_and_end in refl
blank (c ∷ s) a =
    let same : (leading (c ∷ s) == length (c ∷ s)) ≡ true = ground (arith, leading-All (c ∷ s) a) in
    rm_nonempty (c ∷ s) (omega arith) ∙ rw same

trimmed : (str : Bytes) (t : Trimmed white str) → rm_space_in_beg_and_end str ≡ t.middle
trimmed str t =
    ap rm_space_in_beg_and_end t.whole
    ∙ rm_middle t.front t.middle t.back t.after_first t.before_last t.first t.last t.front_stripped
        t.back_stripped t.starts t.ends (one_of-stays t.first t.first_stays)
        (one_of-stays t.last t.last_stays)

-- What stands between the first and the last character that is no white space.
abbrev pub core : {str : Bytes} → All (one_of white) str ⊎ Trimmed white str → Bytes
core (inl a) = []
core (inr t) = t.middle

-- `rmSpaceInBegAndEnd` leaves what stands between the first and the last character that is no white
-- space, and nothing of a string of white space; a second call changes nothing. Each string is of one
-- of these two kinds.
pub trim_lem :
    (str : Bytes) (kind : All (one_of white) str ⊎ Trimmed white str)
    → (rm_space_in_beg_and_end str ≡ core kind)
      × (rm_space_in_beg_and_end (rm_space_in_beg_and_end str) ≡ core kind)
trim_lem str (inl a) = (blank str a, ap rm_space_in_beg_and_end (blank str a) ∙ blank [] tt)
trim_lem str (inr t) = (
  trimmed str t,
  ap rm_space_in_beg_and_end (trimmed str t)
      ∙ ap rm_space_in_beg_and_end (sym (append-nil t.middle))
      ∙ rm_middle [] t.middle [] t.after_first t.before_last t.first t.last tt tt t.starts t.ends
          (one_of-stays t.first t.first_stays) (one_of-stays t.last t.last_stays),
)
