-- ===== src/FixedThreadPool/Shutdown.antt =====
-- The pool never blocks for good: a task that waits is taken, and a destructor returns.
use c_plus_plus.Prelude.{
  ℕ, zero, suc, ◌<◌, ◌≡◌, refl, ap, ◌∙◌, ◌≢◌, ◌⊎◌, inl, inr, Bool, true, false, ◌||◌, List, [], ◌∷◌,
  ◌++◌, arith, Bool-cases, Bool-ne, length, length-replicate,
}
use c_plus_plus.Prelude.Find.{All}
use c_plus_plus.FixedThreadPool.{
  Task, Worker, awake, asleep, returned, running, Owner, using, stopping, joining, FixedThreadPool,
  started, take_task, is_up, Event, enqueued, begun, ended, waits, returns, notified, spurious,
  stops, joins, event_of, Step, notify_one_step, notify_none_step, loop_step, end_step,
  notify_all_step, join_step, Run,
}
use c_plus_plus.FixedThreadPool.Threads.{All-at, is_ready, some_ready, Joined}
use c_plus_plus.FixedThreadPool.Invariant.{IsSound, Owns, Run-IsSound, started-IsSound}
use c_plus_plus.FixedThreadPool.Drain.{Run-length}
use mathlib.Core.Path.{subst, subst⁻¹}

-- The steps that the pool takes of itself: not a client's, and not a spurious wake-up.
abbrev pub is_own : Event → Bool
is_own (enqueued task) = false
is_own (begun task) = true
is_own (ended task) = true
is_own waits = true
is_own returns = true
is_own notified = true
is_own spurious = false
is_own stops = false
is_own joins = true

-- Some thread, the destructor or an `enqueue` that is to notify can go on.
abbrev pub Moves : FixedThreadPool → Type 0
Moves p = (e : Event) × ((is_own e ≡ true) × ((u : FixedThreadPool) × Step p u e))

event_of-own : (stop : Bool) (tasks : List Task) → is_own (event_of (take_task stop tasks).0) ≡ true
unfolding take_task
event_of-own true [] = refl
event_of-own false [] = refl
event_of-own stop (task ∷ rest) = refl

Moves-loop :
    (p : FixedThreadPool) (us vs : List Worker) → p.m_v_threads ≡ us ++ awake ∷ vs → Moves p
Moves-loop p us vs e = (
  event_of (take_task p.b_stop p.m_q_tasks).0,
  (event_of-own p.b_stop p.m_q_tasks, (_, loop_step us vs e refl)),
)

Moves-end :
    (p : FixedThreadPool) (us vs : List Worker) (task : Task)
    → p.m_v_threads ≡ us ++ running task ∷ vs
    → Moves p
Moves-end p us vs task e = (ended task, (refl, (_, end_step us vs task e refl)))

-- A thread that `ws` holds at its `us`.
abbrev Holds : (Worker → Type 0) → List Worker → Type 0
Holds q ws = (us vs : List Worker) × ((w : Worker) × ((ws ≡ us ++ w ∷ vs) × q w))

Holds-cons : (q : Worker → Type 0) (w : Worker) (ws : List Worker) → Holds q ws → Holds q (w ∷ ws)
Holds-cons q w ws (us, vs, (x, (e, h))) = (w ∷ us, vs, (x, (ap (λ t. w ∷ t) e, h)))

find_ready : (ws : List Worker) → some_ready ws ≡ true → Holds (λ w. is_ready w ≡ true) ws
find_ready [] h = Bool-ne h refl
find_ready (w ∷ ws) h = elim (Bool-cases (is_ready w)) [
  | inl r ↦ ([], ws, (w, (refl, r)))
  | inr r ↦ Holds-cons (λ x. is_ready x ≡ true) w ws (find_ready ws (later w ws r h))
]
  where
    later :
        (w : Worker) (ws : List Worker)
        → is_ready w ≡ false
        → is_ready w || some_ready ws ≡ true
        → some_ready ws ≡ true
    later w ws r h = subst (λ b. b || some_ready ws ≡ true) r h

find_asleep : (ws : List Worker) → All is_up ws ⊎ Holds (λ w. w ≡ asleep) ws
find_asleep [] = inl tt
find_asleep (w ∷ ws) = elim (find_asleep ws) [
  | inl a ↦ head w a
  | inr s ↦ inr (Holds-cons (λ x. x ≡ asleep) w ws s)
]
  where
    head : (w : Worker) → All is_up ws → All is_up (w ∷ ws) ⊎ Holds (λ x. x ≡ asleep) (w ∷ ws)
    head awake a = inl (refl, a)
    head asleep a = inr ([], ws, (asleep, (refl, refl)))
    head returned a = inl (refl, a)
    head (running task) a = inl (refl, a)

Moves-ready : (p : FixedThreadPool) → Holds (λ w. is_ready w ≡ true) p.m_v_threads → Moves p
Moves-ready p (us, vs, (w, (e, h))) = go w e h
  where
    go : (w : Worker) → p.m_v_threads ≡ us ++ w ∷ vs → is_ready w ≡ true → Moves p
    go awake e h = Moves-loop p us vs e
    go (running task) e h = Moves-end p us vs task e
    go asleep e h = Bool-ne h refl
    go returned e h = Bool-ne h refl

Moves-asleep :
    (p : FixedThreadPool) → 0 < p.notices → Holds (λ w. w ≡ asleep) p.m_v_threads → Moves p
Moves-asleep p h (us, vs, (w, (e, a))) = (
  notified,
  (refl, (_, notify_one_step us vs (subst (λ x. p.m_v_threads ≡ us ++ x ∷ vs) a e) h refl)),
)

Moves-notice : (p : FixedThreadPool) → 0 < p.notices → Moves p
Moves-notice p h = elim (find_asleep p.m_v_threads) [
  | inl a ↦ (notified, (refl, (_, notify_none_step a h refl)))
  | inr s ↦ Moves-asleep p h s
]

Serves-Moves :
    (p : FixedThreadPool) → p.m_q_tasks ≢ [] → 0 < length p.m_v_threads → IsSound p → Moves p
Serves-Moves p ne h (o, (c, inl e)) = absurd (ne e)
Serves-Moves p ne h (o, (c, inr (inl k))) = Moves-notice p k
Serves-Moves p ne h (o, (c, inr (inr (inl r)))) = Moves-ready p (find_ready p.m_v_threads r)
Serves-Moves p ne h (o, (c, inr (inr (inr e)))) =
    absurd (omega (arith, subst (λ ws. 0 < length ws) e h))

-- No wake-up is lost: in any interleaving, while a task waits in the queue of a pool with at least
-- one thread, a thread, or a call that is to notify one, can go on with no further call by a client
-- and no spurious wake-up.
pub no_lost_task :
    (n : ℕ) {es : List Event} {u : FixedThreadPool}
    → 0 < n
    → Run (started n) es u
    → u.m_q_tasks ≢ []
    → Moves u
no_lost_task n {u = u} h r ne =
    Serves-Moves u ne (subst⁻¹ (λ k. 0 < k) (Run-length (started n) r ∙ length-replicate n awake) h)
      (Run-IsSound (started n) r (started-IsSound n))

-- The thread that the destructor is to join after `k` others.
abbrev Next : ℕ → List Worker → Type 0
Next k ws = (us vs : List Worker) × ((w : Worker) × ((ws ≡ us ++ w ∷ vs) × (k ≡ length us)))

Next-suc : (k : ℕ) (v : Worker) (ws : List Worker) → Next k ws → Next (suc k) (v ∷ ws)
Next-suc k v ws (us, vs, (w, (e, l))) = (v ∷ us, vs, (w, (ap (λ t. v ∷ t) e, ap suc l)))

to_join : (k : ℕ) (ws : List Worker) → Joined k ws → (k ≡ length ws) ⊎ Next k ws
to_join zero [] j = inl refl
to_join zero (w ∷ ws) j = inr ([], ws, (w, (refl, refl)))
to_join (suc k) [] j = absurd j
to_join (suc k) (w ∷ ws) j = elim (to_join k ws j.1) [
  | inl e ↦ inl (ap suc e)
  | inr s ↦ inr (Next-suc k w ws s)
]

abbrev pub IsDestroyed : FixedThreadPool → Type 0
IsDestroyed p = p.owner ≡ joining (length p.m_v_threads)

Moves-join :
    (p : FixedThreadPool) (us vs : List Worker) (w : Worker)
    → p.m_v_threads ≡ us ++ w ∷ vs
    → p.owner ≡ joining (length us)
    → All is_up p.m_v_threads
    → Moves p
Moves-join p us vs awake e o a = Moves-loop p us vs e
Moves-join p us vs (running task) e o a = Moves-end p us vs task e
Moves-join p us vs returned e o a = (joins, (refl, (_, join_step us vs e o refl)))
Moves-join p us vs asleep e o a = Bool-ne (All-at is_up us vs asleep (subst (All is_up) e a)) refl

Moves-Next :
    (p : FixedThreadPool) (k : ℕ)
    → p.owner ≡ joining k
    → All is_up p.m_v_threads
    → Next k p.m_v_threads
    → Moves p
Moves-Next p k o a (us, vs, (w, (e, l))) = Moves-join p us vs w e (o ∙ ap joining l) a

-- A pool whose destructor was called can go on until all threads are joined.
pub stopped-Moves : (p : FixedThreadPool) → p.b_stop ≡ true → IsSound p → IsDestroyed p ⊎ Moves p
stopped-Moves p t s = go p.owner refl s.0
  where
    go : (o : Owner) → p.owner ≡ o → Owns o p.b_stop p.m_v_threads → IsDestroyed p ⊎ Moves p
    go using e h = Bool-ne t h
    go stopping e h = inr (notified, (refl, (_, notify_all_step e refl)))
    go (joining k) e h = elim (to_join k p.m_v_threads h.1.1) [
      | inl q ↦ inl (e ∙ ap joining q)
      | inr q ↦ inr (Moves-Next p k e h.1.0 q)
    ]
