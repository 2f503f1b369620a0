-- ===== src/Logger/Rotation.antt =====
-- What a rotation does to the files, by their numbers.
use c_plus_plus.Prelude.{
  ℕ, zero, suc, ◌+◌, ◌-◌, ◌≤◌, ◌<◌, ◌≡◌, refl, ap, ap₂, ◌∙◌, ◌≢◌, ◌⊎◌, inl, inr, true, none, arith,
}
use c_plus_plus.Prelude.Chars.{Bytes}
use c_plus_plus.Logger.{done, then_do, remove_file, rename_file, shift_files, rotate_files}
use c_plus_plus.Logger.Files.{Disk, is_file, put, put-same, put-other}
use mathlib.Core.Path.{subst}

-- The files `lo` up to `hi` are there.
abbrev pub HasFiles : Disk → Bytes → ℕ → ℕ → Type 0
HasFiles d name lo hi = (j : ℕ) → lo ≤ j → j < hi → is_file (d name j) ≡ true

rename_file-done :
    (d : Disk) (name : Bytes) (old new : ℕ)
    → is_file (d name old) ≡ true
    → rename_file name old new d ≡ done (put (put d name new (d name old)) name old none)
unfolding rename_file
rename_file-done d name old new h = rw h

pub remove_file-done :
    (d : Disk) (name : Bytes) (i : ℕ)
    → is_file (d name i) ≡ true
    → remove_file name i d ≡ done (put d name i none)
unfolding remove_file
remove_file-done d name i h = rw h

renamed : (d : Disk) (name : Bytes) (old new : ℕ) → Disk
renamed d name old new = put (put d name new (d name old)) name old none

renamed-new :
    (d : Disk) (name : Bytes) (old new : ℕ)
    → new ≢ old
    → renamed d name old new name new ≡ d name old
unfolding renamed
renamed-new d name old new h =
    put-other (put d name new (d name old)) name old new none h ∙ put-same d name new (d name old)

renamed-other :
    (d : Disk) (name : Bytes) (old new k : ℕ)
    → k ≢ old
    → k ≢ new
    → renamed d name old new name k ≡ d name k
unfolding renamed
renamed-other d name old new k h h' =
    put-other (put d name new (d name old)) name old k none h
    ∙ put-other d name new k (d name old) h'

-- The result of the loop: the files from `m + 1` moved down by one, the others as before.
abbrev Shifts : Disk → Bytes → ℕ → ℕ → Disk → Type 0
Shifts d name m count e =
    ((j : ℕ) → m ≤ j → j < m + count → e name j ≡ d name (suc j))
    × (((j : ℕ) → j < m → e name j ≡ d name j) × ((j : ℕ) → m + count < j → e name j ≡ d name j))

le_cases : (m j : ℕ) → m ≤ j → (m ≡ j) ⊎ (suc m ≤ j)
le_cases m j h = ground arith

-- The loop on the files from `m + 1` succeeds.
abbrev IsShifted : ℕ → ℕ → Bytes → Disk → Type 0
IsShifted count m name d =
    (e : Disk) × ((shift_files name count (suc m) d ≡ done e) × Shifts d name m count e)

shift_files-suc :
    (count m : ℕ) (d : Disk) (name : Bytes)
    → is_file (d name (suc m)) ≡ true
    → shift_files name (suc count) (suc m) d
      ≡ shift_files name count (suc (suc m)) (renamed d name (suc m) m)
unfolding shift_files renamed
shift_files-suc count m d name h =
    ap (λ k. then_do (rename_file name (suc m) k d) (shift_files name count (suc m + 1))) (before m)
    ∙ (ap (λ o. then_do o (shift_files name count (suc m + 1)))
          (rename_file-done d name (suc m) m h)
        ∙ ap (λ k. shift_files name count k (put (put d name m (d name (suc m))) name (suc m) none))
            (after m))
  where
    before : (n : ℕ) → suc n - 1 ≡ n
    before n = omega arith

    after : (n : ℕ) → suc n + 1 ≡ suc (suc n)
    after n = omega arith

Shifts-suc :
    (count m : ℕ) (d e : Disk) (name : Bytes)
    → Shifts (renamed d name (suc m) m) name (suc m) count e
    → Shifts d name m (suc count) e
Shifts-suc count m d e name s = (moved, (below, above))
  where
    same_above : (j : ℕ) → suc m < j → renamed d name (suc m) m name j ≡ d name j
    same_above j a = renamed-other d name (suc m) m j (λ e. omega arith) (λ e. omega arith)

    moved : (j : ℕ) → m ≤ j → j < m + suc count → e name j ≡ d name (suc j)
    moved j a b = elim (le_cases m j a) [
      | inl q ↦
          subst (λ k. e name k ≡ d name (suc k)) q
            (s.1.0 m (omega arith) ∙ renamed-new d name (suc m) m (λ e. omega arith))
      | inr l ↦ s.0 j l (omega arith) ∙ same_above (suc j) (omega arith)
    ]

    below : (j : ℕ) → j < m → e name j ≡ d name j
    below j a =
        s.1.0 j (omega arith)
        ∙ renamed-other d name (suc m) m j (λ e. omega arith) (λ e. omega arith)

    above : (j : ℕ) → m + suc count < j → e name j ≡ d name j
    above j a = s.1.1 j (omega arith) ∙ same_above j (omega arith)

pub shift_files-Shifts :
    (count m : ℕ) (d : Disk) (name : Bytes)
    → HasFiles d name (suc m) (suc m + count)
    → IsShifted count m name d
unfolding shift_files
shift_files-Shifts zero m d name h =
    (d, (refl, (λ j a b. absurd (omega arith), ((λ j a. refl), λ j a. refl))))
shift_files-Shifts (suc count) m d name h =
    let rest = shift_files-Shifts count (suc m) (renamed d name (suc m) m) name (later h) in
    (
      rest.0,
      (
        shift_files-suc count m d name (h (suc m) (omega arith) (omega arith)) ∙ rest.1.0,
        Shifts-suc count m d rest.0 name rest.1.1,
      ),
    )
  where
    later :
        HasFiles d name (suc m) (suc m + suc count)
        → HasFiles (renamed d name (suc m) m) name (suc (suc m)) (suc (suc m) + count)
    later h j a b =
        ap is_file (renamed-other d name (suc m) m j (λ e. omega arith) (λ e. omega arith))
        ∙ h j (omega arith) (omega arith)

-- A rotation of `k + 2` files: `xx.1.log` is gone, the others moved down, `xx.log` is the newest.
abbrev pub Rotates : Disk → Bytes → ℕ → Disk → Type 0
Rotates d name k e =
    ((j : ℕ) → 1 ≤ j → j < suc k → e name j ≡ d name (suc j))
    × ((e name (suc k) ≡ d name 0) × (e name 0 ≡ none))

pub rotate_files-Rotates :
    (k : ℕ) (d : Disk) (name : Bytes)
    → HasFiles d name 0 (suc (suc k))
    → (e : Disk) × ((rotate_files name (suc (suc k)) d ≡ done e) × Rotates d name k e)
unfolding rotate_files renamed
rotate_files-Rotates k d name h =
    let r = shift_files-Shifts k 1 (put d name 1 none) name (later h) in
    (renamed r.0 name 0 (suc k), (all r.0 r.1.0 r.1.1, ends r.0 r.1.1))
  where
    d₁ : Disk
    d₁ = put d name 1 none

    later : HasFiles d name 0 (suc (suc k)) → HasFiles (put d name 1 none) name 2 (2 + k)
    later h j a b =
        ap is_file (put-other d name 1 j none (λ e. omega arith)) ∙ h j (omega arith) (omega arith)

    bottom : (e : Disk) → Shifts d₁ name 1 k e → e name 0 ≡ d name 0
    bottom e s = s.1.0 0 (omega arith) ∙ put-other d name 1 0 none (λ q. omega arith)

    numbers : (n : ℕ) → (suc (suc n) - 2 ≡ n) × (suc (suc n) - 1 ≡ suc n)
    numbers n = (omega arith, omega arith)

    all :
        (e : Disk)
        → shift_files name k 2 d₁ ≡ done e
        → Shifts d₁ name 1 k e
        → rotate_files name (suc (suc k)) d ≡ done (renamed e name 0 (suc k))
    all e q s =
        ap₂
          (λ a b.
            then_do (then_do (remove_file name 1 d) (shift_files name a 2)) (rename_file name 0 b))
          (numbers k).0 (numbers k).1
        ∙ (ap (λ o. then_do (then_do o (shift_files name k 2)) (rename_file name 0 (suc k)))
              (remove_file-done d name 1 (h 1 (omega arith) (omega arith)))
            ∙ (ap (λ o. then_do o (rename_file name 0 (suc k))) q
                ∙ rename_file-done e name 0 (suc k)
                    (ap is_file (bottom e s) ∙ h 0 (omega arith) (omega arith))))

    ends : (e : Disk) → Shifts d₁ name 1 k e → Rotates d name k (renamed e name 0 (suc k))
    ends e s = (
      λ j a b.
          renamed-other e name 0 (suc k) j (λ q. omega arith) (λ q. omega arith)
          ∙ (s.0 j a (omega arith) ∙ put-other d name 1 (suc j) none (λ q. omega arith)),
      (
        renamed-new e name 0 (suc k) (λ q. omega arith) ∙ bottom e s,
        put-same (put e name (suc k) (e name 0)) name 0 none,
      ),
    )
