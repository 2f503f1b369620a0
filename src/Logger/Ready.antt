-- ===== src/Logger/Ready.antt =====
-- A logger that is ready to write: what its files show, and what a rotation and a line do to them.
use c_plus_plus.Prelude.{
  ℕ, zero, suc, ◌+◌, ◌-◌, ◌≤◌, ◌<◌, ◌≡◌, refl, ap, ap₂, ◌∙◌, ◌⊎◌, inl, inr, true, some, List, [],
  ◌∷◌, ◌++◌, arith, drop,
}
use c_plus_plus.Prelude.Chars.{Bytes}
use c_plus_plus.Logger.{Site}
use c_plus_plus.Logger.Files.{Disk, is_file, content, create, put-same, put-other, create-new}
use c_plus_plus.Logger.Rotation.{HasFiles, Rotates}
use c_plus_plus.Logger.Window.{Window}

-- The contents of `count` files from number `i`.
abbrev pub files : Disk → Bytes → ℕ → ℕ → List Bytes
files d name zero i = []
files d name (suc count) i = content (d name i) ∷ files d name count (suc i)

abbrev pub window_of : Site → Window
window_of s = record {
  old = files s.disk s.log.m_str_file_name (s.log.m_i_rotating_file_num - 1) 1;
  current = content (s.disk s.log.m_str_file_name 0);
  counted = s.log.m_udl_curr_write_file_size;
}

-- It is initialised, all its files are there, and it has the current one open.
abbrev pub IsReady : Site → Type 0
IsReady s =
    (s.log.m_b_init ≡ true)
    × ((2 ≤ s.log.m_i_rotating_file_num)
        × ((s.log.m_of_logger ≡ some (s.log.m_str_file_name, 0))
            × HasFiles s.disk s.log.m_str_file_name 0 s.log.m_i_rotating_file_num))

-- The settings are the same.
abbrev pub Keeps : Site → Site → Type 0
Keeps s t =
    (t.log.m_i_each_file_size ≡ s.log.m_i_each_file_size)
    × ((t.log.m_en_log_level ≡ s.log.m_en_log_level)
        × ((t.log.m_str_file_name ≡ s.log.m_str_file_name)
            × (t.log.m_i_rotating_file_num ≡ s.log.m_i_rotating_file_num)))

files-shift :
    (f d : Disk) (name : Bytes) (count i : ℕ)
    → ((j : ℕ) → i ≤ j → j < i + count → f name j ≡ d name (suc j))
    → files f name count i ≡ files d name count (suc i)
files-shift f d name zero i h = refl
files-shift f d name (suc count) i h =
    ap₂ (λ a b. content a ∷ b) (h i (omega arith) (omega arith))
      (files-shift f d name count (suc i) (λ j a b. h j (omega arith) (omega arith)))

pub files-same :
    (f d : Disk) (name : Bytes) (count i : ℕ)
    → ((j : ℕ) → i ≤ j → j < i + count → f name j ≡ d name j)
    → files f name count i ≡ files d name count i
files-same f d name zero i h = refl
files-same f d name (suc count) i h =
    ap₂ (λ a b. content a ∷ b) (h i (omega arith) (omega arith))
      (files-same f d name count (suc i) (λ j a b. h j (omega arith) (omega arith)))

files-snoc :
    (f : Disk) (name : Bytes) (count i n : ℕ)
    → n ≡ i + count
    → files f name (suc count) i ≡ files f name count i ++ content (f name n) ∷ []
files-snoc f name zero i n e = ap (λ j. content (f name j) ∷ []) (omega arith)
files-snoc f name (suc count) i n e =
    ap (λ l. content (f name i) ∷ l) (files-snoc f name count (suc i) n (omega arith))

-- The files after a rotation, with the new one created.
module _ (d e : Disk) (name : Bytes) (k : ℕ) (h : HasFiles d name 0 (suc (suc k)))
    (r : Rotates d name k e) where
  pub created-same : create e name 0 name 0 ≡ some []
  created-same =
      ap (λ c. c name 0) (create-new e name 0 (ap is_file r.1.1)) ∙ put-same e name 0 (some [])

  created-other : (j : ℕ) → 0 < j → create e name 0 name j ≡ e name j
  created-other j a =
      ap (λ c. c name j) (create-new e name 0 (ap is_file r.1.1))
      ∙ put-other e name 0 j (some []) (λ q. omega arith)

  pub created-HasFiles : HasFiles (create e name 0) name 0 (suc (suc k))
  created-HasFiles zero a b = ap is_file created-same
  created-HasFiles (suc j) a b =
      ap is_file (created-other (suc j) (omega arith)) ∙ elim (last j (omega arith)) [
        | inl q ↦
            ap (λ i. is_file (e name (suc i))) q
            ∙ (ap is_file r.1.0 ∙ h 0 (omega arith) (omega arith))
        | inr l ↦
            ap is_file (r.0 (suc j) (omega arith) (omega arith))
            ∙ h (suc (suc j)) (omega arith) (omega arith)
      ]
    where
      last : (j : ℕ) → j < suc k → (j ≡ k) ⊎ (j < k)
      last j l = ground arith

  pub created-files :
      files (create e name 0) name (suc k) 1
      ≡ drop 1 (files d name (suc k) 1) ++ content (d name 0) ∷ []
  created-files =
      files-snoc (create e name 0) name k 1 (suc k) (omega arith)
      ∙ ap₂ (λ a b. a ++ content b ∷ [])
          (files-shift (create e name 0) d name k 1
            (λ j a b. created-other j (omega arith) ∙ r.0 j a (omega arith)))
          (created-other (suc k) (omega arith) ∙ r.1.0)
