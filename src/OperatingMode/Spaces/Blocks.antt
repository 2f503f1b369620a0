-- ===== src/OperatingMode/Spaces/Blocks.antt =====
-- Texts with blocks of code in them, and what addTwoSpaceBeforeEachEnter writes for them.
use c_plus_plus.Prelude.{
  ℕ, ◌-◌, ◌≡◌, refl, sym, ap, ap₂, ◌∙◌, Bool, true, false, not, none, some, List, [], ◌∷◌, ◌++◌,
  map, append-nil, append_assoc, arith, ◌==◌, if◌then◌else◌, length, take, drop, length-append,
}
use c_plus_plus.Prelude.Chars.{Bytes}
use c_plus_plus.Prelude.Find.{find_sub, All-append, take-length, drop-length}
use c_plus_plus.ParseConfig.File.{get_lines, lines_from}
use c_plus_plus.ParseConfig.File.Lines.{NoNewlines, lines_from-line}
use c_plus_plus.OperatingMode.Searches.{Lacks, find_sub-first, find_sub-none}
use c_plus_plus.OperatingMode.Spaces.{
  has_fence, two_spaces, write_lines, add_two_space_before_each_enter,
}

-- A line of text, and whether a carriage return stands at its end.
pub record Line : Type 0 where
  pub words : Bytes
  pub returned : Bool

-- Lines of text with a block of code behind them.
pub record Block : Type 0 where
  pub texts : List Line
  pub opening : Bytes
  pub code : List Bytes
  pub closing : Bytes

abbrev pub line_of : Line → Bytes
line_of x = if x.returned then x.words ++ b'\r' ∷ [] else x.words

abbrev pub lines_of : List Block → List Line → List Bytes
lines_of [] tail = map line_of tail
lines_of (x ∷ xs) tail =
    map line_of x.texts ++ (x.opening ∷ (x.code ++ (x.closing ∷ lines_of xs tail)))

abbrev pub unlines : List Bytes → Bytes
unlines [] = []
unlines (l ∷ ls) = l ++ (b'\n' ∷ unlines ls)

-- Each line of text, with two spaces and the end of a line of Windows.
abbrev pub spaced : List Line → Bytes
spaced [] = []
spaced (x ∷ xs) = x.words ++ (b' ' ∷ b' ' ∷ b'\r' ∷ b'\n' ∷ spaced xs)

abbrev pub spaced_blocks : List Block → List Line → Bytes
spaced_blocks [] tail = spaced tail
spaced_blocks (x ∷ xs) tail =
    spaced x.texts
    ++ (x.opening ++ (b'\n' ∷ (unlines x.code ++ (x.closing ++ (b'\n' ∷ spaced_blocks xs tail)))))

abbrev pub fenced : Bytes → Bool
fenced line = has_fence (line ++ b'\n' ∷ [])

abbrev pub PlainLines : List Line → Type 0
PlainLines [] = Unit
PlainLines (x ∷ xs) = ((fenced (line_of x) ≡ false) × Lacks b'\r' x.words) × PlainLines xs

abbrev pub Unfenced : List Bytes → Type 0
Unfenced [] = Unit
Unfenced (l ∷ ls) = (fenced l ≡ false) × Unfenced ls

-- Fences stand where the blocks open and close, and a carriage return only at the end of a line of text.
abbrev pub IsFenced : List Block → List Line → Type 0
IsFenced [] tail = PlainLines tail
IsFenced (x ∷ xs) tail =
    ((PlainLines x.texts × (fenced x.opening ≡ true))
      × (Unfenced x.code × (fenced x.closing ≡ true)))
    × IsFenced xs tail

-- The end of each line of text that is written.
abbrev pub two_and_end : Bytes
two_and_end = b' ' ∷ b' ' ∷ b'\r' ∷ b'\n' ∷ []

two_spaces-some :
    (buf : Bytes) (pos : ℕ)
    → find_sub (b'\r' ∷ b'\n' ∷ []) buf ≡ some pos
    → two_spaces buf ≡ take pos buf ++ (b' ' ∷ b' ' ∷ [] ++ drop pos buf)
unfolding two_spaces
two_spaces-some buf pos h = rw (h, two_spaces) refl

two_spaces-none :
    (buf : Bytes) (n : ℕ)
    → find_sub (b'\r' ∷ b'\n' ∷ []) buf ≡ none
    → length buf - 1 ≡ n
    → two_spaces buf ≡ take n buf ++ (b' ' ∷ b' ' ∷ b'\r' ∷ [] ++ drop n buf)
unfolding two_spaces
two_spaces-none buf n h e = rw (h, two_spaces) (rw e refl)

two_spaces-returned :
    (s : Bytes) → Lacks b'\r' s → two_spaces (s ++ (b'\r' ∷ b'\n' ∷ [])) ≡ s ++ two_and_end
two_spaces-returned s a =
    two_spaces-some (s ++ (b'\r' ∷ b'\n' ∷ [])) (length s)
      (find_sub-first b'\r' (b'\n' ∷ []) s [] a)
    ∙ ap₂ (λ front back. front ++ (b' ' ∷ b' ' ∷ [] ++ back))
        (take-length s (b'\r' ∷ b'\n' ∷ []) (length s) refl)
        (drop-length s (b'\r' ∷ b'\n' ∷ []) (length s) 0 (omega arith))

two_spaces-bare : (s : Bytes) → Lacks b'\r' s → two_spaces (s ++ b'\n' ∷ []) ≡ s ++ two_and_end
two_spaces-bare s a =
    two_spaces-none (s ++ b'\n' ∷ []) (length s)
      (find_sub-none b'\r' (b'\n' ∷ []) (s ++ b'\n' ∷ [])
        (All-append (λ c. not (b'\r' == c)) s (b'\n' ∷ []) a (refl, tt)))
      (omega (arith, length-append s (b'\n' ∷ [])))
    ∙ ap₂ (λ front back. front ++ (b' ' ∷ b' ' ∷ b'\r' ∷ [] ++ back))
        (take-length s (b'\n' ∷ []) (length s) refl)
        (drop-length s (b'\n' ∷ []) (length s) 0 (omega arith))

two_spaces-line :
    (x : Line) → Lacks b'\r' x.words → two_spaces (line_of x ++ b'\n' ∷ []) ≡ x.words ++ two_and_end
two_spaces-line x a = by_return x.returned
  where
    by_return :
        (r : Bool)
        → two_spaces ((if r then x.words ++ b'\r' ∷ [] else x.words) ++ b'\n' ∷ [])
          ≡ x.words ++ two_and_end
    by_return true =
        ap two_spaces (append_assoc x.words (b'\r' ∷ []) (b'\n' ∷ []))
        ∙ two_spaces-returned x.words a
    by_return false = two_spaces-bare x.words a

write_lines-text :
    (l : Bytes) (ls : List Bytes)
    → fenced l ≡ false
    → write_lines false true (l ∷ ls) ≡ two_spaces (l ++ b'\n' ∷ []) ++ write_lines false true ls
unfolding write_lines
write_lines-text l ls h = rw (h, write_lines) refl

write_lines-code :
    (l : Bytes) (ls : List Bytes)
    → fenced l ≡ false
    → write_lines true false (l ∷ ls) ≡ (l ++ b'\n' ∷ []) ++ write_lines true false ls
unfolding write_lines
write_lines-code l ls h = rw (h, write_lines) refl

write_lines-opening :
    (l : Bytes) (ls : List Bytes)
    → fenced l ≡ true
    → write_lines false true (l ∷ ls) ≡ (l ++ b'\n' ∷ []) ++ write_lines true false ls
unfolding write_lines
write_lines-opening l ls h = rw (h, write_lines) refl

write_lines-closing :
    (l : Bytes) (ls : List Bytes)
    → fenced l ≡ true
    → write_lines true false (l ∷ ls) ≡ (l ++ b'\n' ∷ []) ++ write_lines false true ls
unfolding write_lines
write_lines-closing l ls h = rw (h, write_lines) refl

write_lines-texts :
    (xs : List Line) (ls : List Bytes)
    → PlainLines xs
    → write_lines false true (map line_of xs ++ ls) ≡ spaced xs ++ write_lines false true ls
write_lines-texts [] ls h = refl
write_lines-texts (x ∷ xs) ls h =
    write_lines-text (line_of x) (map line_of xs ++ ls) h.0.0
    ∙ ap₂ (λ s t. s ++ t) (two_spaces-line x h.0.1) (write_lines-texts xs ls h.1)
    ∙ append_assoc x.words two_and_end (spaced xs ++ write_lines false true ls)
    ∙ sym (append_assoc x.words (two_and_end ++ spaced xs) (write_lines false true ls))

write_lines-codes :
    (code ls : List Bytes)
    → Unfenced code
    → write_lines true false (code ++ ls) ≡ unlines code ++ write_lines true false ls
write_lines-codes [] ls h = refl
write_lines-codes (c ∷ code) ls h =
    write_lines-code c (code ++ ls) h.0
    ∙ ap (λ t. (c ++ b'\n' ∷ []) ++ t) (write_lines-codes code ls h.1)
    ∙ simp append_assoc

write_lines-blocks :
    (blocks : List Block) (tail : List Line)
    → IsFenced blocks tail
    → write_lines false true (lines_of blocks tail) ≡ spaced_blocks blocks tail
unfolding write_lines
write_lines-blocks [] tail h =
    ap (write_lines false true) (sym (append-nil (map line_of tail)))
    ∙ write_lines-texts tail [] h
    ∙ append-nil (spaced tail)
write_lines-blocks (x ∷ xs) tail h =
    write_lines-texts x.texts (x.opening ∷ (x.code ++ (x.closing ∷ lines_of xs tail))) h.0.0.0
    ∙ ap (λ t. spaced x.texts ++ t)
        (write_lines-opening x.opening (x.code ++ (x.closing ∷ lines_of xs tail)) h.0.0.1
          ∙ ap (λ t. (x.opening ++ b'\n' ∷ []) ++ t)
              (write_lines-codes x.code (x.closing ∷ lines_of xs tail) h.0.1.0
                ∙ ap (λ t. unlines x.code ++ t)
                    (write_lines-closing x.closing (lines_of xs tail) h.0.1.1
                      ∙ ap (λ t. (x.closing ++ b'\n' ∷ []) ++ t) (write_lines-blocks xs tail h.1))))
    ∙ simp append_assoc

get_lines-unlines : (ls : List Bytes) → NoNewlines ls → get_lines (unlines ls) ≡ ls
unfolding lines_from
get_lines-unlines [] h = refl
get_lines-unlines (l ∷ ls) h =
    lines_from-line [] l (unlines ls) h.0 ∙ ap (λ r. l ∷ r) (get_lines-unlines ls h.1)

-- For an article made of lines of text and blocks of code between fences, `addTwoSpaceBeforeEachEnter`
-- writes the blocks as they are, and each line of text with two spaces, a carriage return and a newline
-- behind its words, whether it had a carriage return or not. Nothing but these lines is added to the
-- temporary file.
pub add_two_space_before_each_enter-blocks :
    (blocks : List Block) (tail : List Line) (temp_file : Bytes)
    → IsFenced blocks tail
    → NoNewlines (lines_of blocks tail)
    → add_two_space_before_each_enter temp_file (unlines (lines_of blocks tail))
      ≡ temp_file ++ spaced_blocks blocks tail
unfolding add_two_space_before_each_enter
add_two_space_before_each_enter-blocks blocks tail temp_file h n =
    ap (λ ls. temp_file ++ write_lines false true ls) (get_lines-unlines (lines_of blocks tail) n)
    ∙ ap (λ t. temp_file ++ t) (write_lines-blocks blocks tail h)
