-- ===== src/Logger/Bounds.antt =====
-- How large the files of a logger grow.
use c_plus_plus.Prelude.{ℕ, ◌≤◌, ◌<◌, List, [], ◌∷◌, ltb, length}
use c_plus_plus.Prelude.Find.{All}
use c_plus_plus.Logger.Window.{Call, Window}

-- Every file is below `b` bytes, and the counted size is at least that of the current one.
abbrev pub Fits : ℕ → Window → Type 0
Fits b w =
    All (λ x. ltb (length x) b) w.old × ((length w.current < b) × (length w.current ≤ w.counted))

-- No prefix is longer than `p`.
abbrev pub Short : ℕ → List Call → Type 0
Short p [] = Unit
Short p (c ∷ cs) = (length c.prefix ≤ p) × Short p cs

-- After the rotation that is due, the counted size is below the limit.
abbrev IsOpen : ℕ → ℕ → Window → Type 0
IsOpen limit b w = Fits b w × (w.counted < limit)
