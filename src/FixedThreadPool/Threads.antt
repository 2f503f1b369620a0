-- ===== src/FixedThreadPool/Threads.antt =====
-- Properties of the threads of a pool, and what remains of them when one thread moves on.
use c_plus_plus.Prelude.{
  ℕ, zero, suc, ◌≡◌, refl, ap, ◌⊎◌, inl, inr, Bool, true, false, ◌||◌, List, [], ◌∷◌, ◌++◌, map,
  Bool-cases, Bool-ne, length,
}
use c_plus_plus.Prelude.Find.{All}
use c_plus_plus.FixedThreadPool.{Worker, awake, asleep, running, returned, wake, is_up}

-- Neither `returned`, nor blocked.
abbrev pub is_live : Worker → Bool
is_live returned = false
is_live awake = true
is_live asleep = true
is_live (running task) = true

abbrev pub is_ready : Worker → Bool
is_ready awake = true
is_ready (running task) = true
is_ready asleep = false
is_ready returned = false

abbrev pub some_ready : List Worker → Bool
some_ready [] = false
some_ready (w ∷ ws) = is_ready w || some_ready ws

-- The first `k` threads have returned.
abbrev pub Joined : ℕ → List Worker → Type 0
Joined zero ws = Unit
Joined (suc k) [] = ⊥
Joined (suc k) (w ∷ ws) = (w ≡ returned) × Joined k ws

module _ (q : Worker → Bool) where
  pub All-replace :
      (us vs : List Worker) (w w' : Worker)
      → q w' ≡ true
      → All q (us ++ w ∷ vs)
      → All q (us ++ w' ∷ vs)
  All-replace [] vs w w' h a = (h, a.1)
  All-replace (u ∷ us) vs w w' h a = (a.0, All-replace us vs w w' h a.1)

  pub All-at : (us vs : List Worker) (w : Worker) → All q (us ++ w ∷ vs) → q w ≡ true
  All-at [] vs w a = a.0
  All-at (u ∷ us) vs w a = All-at us vs w a.1

pub some_ready-at :
    (us vs : List Worker) (w : Worker) → is_ready w ≡ true → some_ready (us ++ w ∷ vs) ≡ true
some_ready-at [] vs w h = rw h
some_ready-at (u ∷ us) vs w h = elim (Bool-cases (is_ready u)) [
  | inl l ↦ rw l
  | inr r ↦ rw (r, some_ready-at us vs w h)
]

pub is_up-wake : (w : Worker) → is_up (wake w) ≡ true
is_up-wake awake = refl
is_up-wake asleep = refl
is_up-wake returned = refl
is_up-wake (running task) = refl

pub All-wake : (ws : List Worker) → All is_up (map wake ws)
All-wake [] = tt
All-wake (w ∷ ws) = (is_up-wake w, All-wake ws)

is_live-wake : (w : Worker) → is_live w ≡ true → is_live (wake w) ≡ true
is_live-wake awake h = refl
is_live-wake asleep h = refl
is_live-wake returned h = h
is_live-wake (running task) h = refl

pub All-map-wake : (ws : List Worker) → All is_live ws → All is_live (map wake ws)
All-map-wake [] a = tt
All-map-wake (w ∷ ws) a = (is_live-wake w a.0, All-map-wake ws a.1)

is_ready_of : (w : Worker) → is_up w ≡ true → is_live w ≡ true → is_ready w ≡ true
is_ready_of awake u l = refl
is_ready_of asleep u l = u
is_ready_of returned u l = l
is_ready_of (running task) u l = refl

-- A thread that neither blocks nor has returned is ready.
pub some_ready_of :
    (ws : List Worker) → All is_up ws → All is_live ws → (some_ready ws ≡ true) ⊎ (ws ≡ [])
some_ready_of [] u l = inr refl
some_ready_of (w ∷ ws) u l = inl (some_ready-at [] ws w (is_ready_of w u.0 l.0))

pub Joined-replace :
    (k : ℕ) (us vs : List Worker) (w w' : Worker)
    → is_live w ≡ true
    → Joined k (us ++ w ∷ vs)
    → Joined k (us ++ w' ∷ vs)
Joined-replace zero us vs w w' l j = tt
Joined-replace (suc k) [] vs w w' l j = Bool-ne l (ap is_live j.0)
Joined-replace (suc k) (u ∷ us) vs w w' l j = (j.0, Joined-replace k us vs w w' l j.1)

pub Joined-suc :
    (us vs : List Worker)
    → Joined (length us) (us ++ returned ∷ vs)
    → Joined (suc (length us)) (us ++ returned ∷ vs)
Joined-suc [] vs j = (refl, tt)
Joined-suc (u ∷ us) vs j = (j.0, Joined-suc us vs j.1)
