-- ===== src/Logger/Creation.antt =====
-- The files that the init function creates, and what it keeps in those that are there.
use c_plus_plus.Prelude.{
  ℕ, zero, suc, ◌+◌, ◌≡◌, refl, sym, ap, ap₂, ◌∙◌, ◌≢◌, ◌⊎◌, inl, inr, true, false, Option, none,
  some, [], ◌∷◌, arith, ◌==◌, ==_iff, Bool-cases, Bool-ne,
}
use c_plus_plus.Prelude.Chars.{Bytes}
use c_plus_plus.Logger.{create_files}
use c_plus_plus.Logger.Files.{
  Disk, is_file, content, create, put-same, put-other, create-there, create-new,
}
use c_plus_plus.Logger.Rotation.{HasFiles}
use c_plus_plus.Logger.Ready.{files}
use mathlib.Core.Path.{subst⁻¹}

-- Creating a file keeps what is in the files.
pub create-there_after : (d : Disk) (name : Bytes) (i : ℕ) → is_file (create d name i name i) ≡ true
create-there_after d name i = elim (Bool-cases (is_file (d name i))) [
  | inl h ↦ ap (λ e. is_file (e name i)) (create-there d name i h) ∙ h
  | inr h ↦
      ap (λ e. is_file (e name i)) (create-new d name i h)
      ∙ ap is_file (put-same d name i (some []))
]

eq_or : (j i : ℕ) → (j ≡ i) ⊎ (j ≢ i)
eq_or j i = elim (Bool-cases (j == i)) [
  | inl h ↦ inl (ground arith)
  | inr h ↦ inr (λ e. Bool-ne ((==_iff j i).1 e) h)
]

-- A file that is there stays as it is.
create-other : (d : Disk) (name : Bytes) (i j : ℕ) → j ≢ i → create d name i name j ≡ d name j
create-other d name i j n = elim (Bool-cases (is_file (d name i))) [
  | inl h ↦ ap (λ e. e name j) (create-there d name i h)
  | inr h ↦ ap (λ e. e name j) (create-new d name i h) ∙ put-other d name i j (some []) n
]

create-content_self :
    (d : Disk) (name : Bytes) (i : ℕ) → content (create d name i name i) ≡ content (d name i)
create-content_self d name i = elim (Bool-cases (is_file (d name i))) [
  | inl h ↦ ap (λ e. content (e name i)) (create-there d name i h)
  | inr h ↦
      ap (λ e. content (e name i)) (create-new d name i h)
      ∙ (ap content (put-same d name i (some [])) ∙ sym (nothing (d name i) h))
]
  where
    nothing : (c : Option Bytes) → is_file c ≡ false → content c ≡ []
    nothing none h = refl
    nothing (some c) h = Bool-ne refl h

pub create-content :
    (d : Disk) (name : Bytes) (i j : ℕ) → content (create d name i name j) ≡ content (d name j)
create-content d name i j = elim (eq_or j i) [
  | inl e ↦
      subst⁻¹ (λ k. content (create d name i name k) ≡ content (d name k)) e
        (create-content_self d name i)
  | inr n ↦ ap content (create-other d name i j n)
]

pub create-is_file :
    (d : Disk) (name : Bytes) (i j : ℕ)
    → is_file (d name j) ≡ true
    → is_file (create d name i name j) ≡ true
create-is_file d name i j h = elim (eq_or j i) [
  | inl e ↦ subst⁻¹ (λ k. is_file (create d name i name k) ≡ true) e (create-there_after d name i)
  | inr n ↦ ap is_file (create-other d name i j n) ∙ h
]

pub create_files-content :
    (count i : ℕ) (d : Disk) (name : Bytes) (j : ℕ)
    → content (create_files name count i d name j) ≡ content (d name j)
unfolding create_files
create_files-content zero i d name j = refl
create_files-content (suc count) i d name j =
    create_files-content count (i + 1) (create d name i) name j ∙ create-content d name i j

create_files-keeps :
    (count i : ℕ) (d : Disk) (name : Bytes) (j : ℕ)
    → is_file (d name j) ≡ true
    → is_file (create_files name count i d name j) ≡ true
unfolding create_files
create_files-keeps zero i d name j h = h
create_files-keeps (suc count) i d name j h =
    create_files-keeps count (i + 1) (create d name i) name j (create-is_file d name i j h)

pub create_files-HasFiles :
    (count i : ℕ) (d : Disk) (name : Bytes)
    → HasFiles (create_files name count i d) name i (i + count)
unfolding create_files
create_files-HasFiles zero i d name j a b = absurd (omega arith)
create_files-HasFiles (suc count) i d name j a b =
    let rest = create_files-HasFiles count (i + 1) (create d name i) name in
    elim (eq_or j i) [
      | inl e ↦
          subst⁻¹ (λ k. is_file (create_files name count (i + 1) (create d name i) name k) ≡ true) e
            (create_files-keeps count (i + 1) (create d name i) name i
              (create-there_after d name i))
      | inr n ↦ rest j (omega (arith, n)) (omega arith)
    ]

pub files-content :
    (f d : Disk) (name : Bytes) (count i : ℕ)
    → ((j : ℕ) → content (f name j) ≡ content (d name j))
    → files f name count i ≡ files d name count i
files-content f d name zero i h = refl
files-content f d name (suc count) i h =
    ap₂ (λ a b. a ∷ b) (h i) (files-content f d name count (suc i) h)
