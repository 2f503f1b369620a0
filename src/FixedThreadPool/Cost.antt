-- ===== src/FixedThreadPool/Cost.antt =====
-- How many steps a stopped pool can still take.
use c_plus_plus.Prelude.{
  ℕ, suc, ◌+◌, ◌-◌, ◌*◌, ◌≤◌, ◌<◌, ◌≡◌, refl, sym, ap, ◌∙◌, ◌⊎◌, Bool, true, false, List, [], ◌∷◌,
  ◌++◌, map, arith, Bool-ne, length, length-append, length-map,
}
use c_plus_plus.FixedThreadPool.{
  Task, Worker, awake, asleep, returned, running, Owner, using, stopping, joining, FixedThreadPool,
  started, take_task, wake, Event, event_of, Step, enqueue_step, notify_one_step, notify_none_step,
  spurious_step, loop_step, end_step, stop_step, notify_all_step, join_step, Run, here, next,
  enqueue, err, runtime_error,
}
use c_plus_plus.FixedThreadPool.Invariant.{IsSound, Owns, enqueue-ok, Run-IsSound, started-IsSound}
use c_plus_plus.FixedThreadPool.Order.{accepts, collect, collect-snoc}
use c_plus_plus.FixedThreadPool.Shutdown.{Moves, IsDestroyed, stopped-Moves}
use mathlib.Core.Path.{subst, subst⁻¹}

abbrev pub weight : Worker → ℕ
weight returned = 0
weight awake = 1
weight asleep = 2
weight (running task) = 2

abbrev pub load : List Worker → ℕ
load [] = 0
load (w ∷ ws) = weight w + load ws

-- `n` is the number of threads.
abbrev pub owner_cost : Owner → ℕ → ℕ
owner_cost using n = n + 2
owner_cost stopping n = n + 1
owner_cost (joining k) n = n - k

abbrev pub cost : FixedThreadPool → ℕ
cost p =
    load p.m_v_threads
    + 2 * length p.m_q_tasks
    + p.notices
    + owner_cost p.owner (length p.m_v_threads)

load-at : (us vs : List Worker) (w : Worker) → load (us ++ w ∷ vs) ≡ weight w + (load us + load vs)
load-at [] vs w = omega arith
load-at (u ∷ us) vs w = omega (arith, load-at us vs w)

length-at : (us vs : List Worker) (w : Worker) → length (us ++ w ∷ vs) ≡ suc (length us + length vs)
length-at [] vs w = omega arith
length-at (u ∷ us) vs w = omega (arith, length-at us vs w)

weight-wake : (w : Worker) → weight (wake w) ≤ weight w
weight-wake awake = omega arith
weight-wake asleep = omega arith
weight-wake returned = omega arith
weight-wake (running task) = omega arith

load-wake : (ws : List Worker) → load (map wake ws) ≤ load ws
load-wake [] = omega arith
load-wake (w ∷ ws) = omega (arith, weight-wake w, load-wake ws)

-- A thread that moves to a lighter place makes the pool's cost less.
cost-moved :
    (p : FixedThreadPool) (us vs : List Worker) (w w' : Worker) (tasks : List Task) (n : ℕ)
    → p.m_v_threads ≡ us ++ w ∷ vs
    → weight w' + 2 * length tasks + n < weight w + 2 * length p.m_q_tasks + p.notices
    → cost (record p { m_v_threads = us ++ w' ∷ vs; m_q_tasks = tasks; notices = n }) < cost p
cost-moved p us vs w w' tasks n e h = omega (
  arith,
  ap load e,
  ap length e,
  load-at us vs w,
  load-at us vs w',
  length-at us vs w,
  length-at us vs w',
  same_owner,
)
  where
    same_owner :
        owner_cost p.owner (length (us ++ w' ∷ vs)) ≡ owner_cost p.owner (length p.m_v_threads)
    same_owner =
        ap (owner_cost p.owner) (length-at us vs w' ∙ (sym (length-at us vs w) ∙ ap length (sym e)))

take_task-lighter :
    (tasks : List Task)
    → weight (take_task true tasks).0 + 2 * length (take_task true tasks).1 < 1 + 2 * length tasks
unfolding take_task
take_task-lighter [] = omega arith
take_task-lighter (task ∷ rest) = omega arith

-- With the destructor called, a step of any kind brings its end nearer.
Step-cost :
    (p : FixedThreadPool) {u : FixedThreadPool} {e : Event}
    → p.b_stop ≡ true
    → IsSound p
    → Step p u e
    → cost u < cost p
Step-cost p t s (enqueue_step task e) = Bool-ne t (enqueue-ok task p e).0
Step-cost p t s (notify_one_step us vs e h q) =
    subst⁻¹ (λ r. cost r < cost p) q
      (cost-moved p us vs asleep awake p.m_q_tasks (p.notices - 1) e (omega arith))
Step-cost p t s (notify_none_step a h q) = subst⁻¹ (λ r. cost r < cost p) q (omega arith)
Step-cost p t s (spurious_step us vs e q) =
    subst⁻¹ (λ r. cost r < cost p) q
      (cost-moved p us vs asleep awake p.m_q_tasks p.notices e (omega arith))
Step-cost p t s (loop_step us vs e q) =
    subst⁻¹ (λ r. cost r < cost p) q
      (cost-moved p us vs awake (take_task p.b_stop p.m_q_tasks).0
        (take_task p.b_stop p.m_q_tasks).1 p.notices e lighter)
  where
    lighter :
        weight (take_task p.b_stop p.m_q_tasks).0
          + 2 * length (take_task p.b_stop p.m_q_tasks).1
          + p.notices
        < 1 + 2 * length p.m_q_tasks + p.notices
    lighter =
        subst⁻¹
          (λ b.
            weight (take_task b p.m_q_tasks).0 + 2 * length (take_task b p.m_q_tasks).1 + p.notices
            < 1 + 2 * length p.m_q_tasks + p.notices)
          t (omega (arith, take_task-lighter p.m_q_tasks))
Step-cost p t s (end_step us vs task e q) =
    subst⁻¹ (λ r. cost r < cost p) q
      (cost-moved p us vs (running task) awake p.m_q_tasks p.notices e (omega arith))
Step-cost p t s (stop_step e q) = Bool-ne t (subst (λ o. Owns o p.b_stop p.m_v_threads) e s.0)
Step-cost p t s (notify_all_step e q) =
    subst⁻¹ (λ r. cost r < cost p) q
      (omega (
        arith,
        load-wake p.m_v_threads,
        length-map p.m_v_threads wake,
        ap (λ o. owner_cost o (length p.m_v_threads)) e,
      ))
Step-cost p t s (join_step us vs e w q) =
    subst⁻¹ (λ r. cost r < cost p) q
      (omega (
        arith,
        ap length e,
        length-at us vs returned,
        ap (λ o. owner_cost o (length p.m_v_threads)) w,
      ))

event_of-accepts :
    (stop : Bool) (tasks : List Task) → accepts (event_of (take_task stop tasks).0) ≡ []
unfolding take_task
event_of-accepts true [] = refl
event_of-accepts false [] = refl
event_of-accepts stop (task ∷ rest) = refl

-- The pool stays stopped, and accepts nothing.
Step-stopped :
    (p : FixedThreadPool) {u : FixedThreadPool} {e : Event}
    → p.b_stop ≡ true
    → Step p u e
    → (u.b_stop ≡ true) × (accepts e ≡ [])
Step-stopped p t (enqueue_step task e) = Bool-ne t (enqueue-ok task p e).0
Step-stopped p t (notify_one_step us vs e h q) = (ap FixedThreadPool.b_stop q ∙ t, refl)
Step-stopped p t (notify_none_step a h q) = (ap FixedThreadPool.b_stop q ∙ t, refl)
Step-stopped p t (spurious_step us vs e q) = (ap FixedThreadPool.b_stop q ∙ t, refl)
Step-stopped p t (loop_step us vs e q) =
    (ap FixedThreadPool.b_stop q ∙ t, event_of-accepts p.b_stop p.m_q_tasks)
Step-stopped p t (end_step us vs task e q) = (ap FixedThreadPool.b_stop q ∙ t, refl)
Step-stopped p t (stop_step e q) = (ap FixedThreadPool.b_stop q, refl)
Step-stopped p t (notify_all_step e q) = (ap FixedThreadPool.b_stop q ∙ t, refl)
Step-stopped p t (join_step us vs e w q) = (ap FixedThreadPool.b_stop q ∙ t, refl)

Run-stopped :
    (p : FixedThreadPool) {es : List Event} {u : FixedThreadPool}
    → p.b_stop ≡ true
    → Run p es u
    → (u.b_stop ≡ true) × (collect accepts es ≡ [])
Run-stopped p t here = (t, refl)
Run-stopped p t (next {es = es} {t = m} {e = e} r st) =
    let before = Run-stopped p t r in
    let last = Step-stopped m before.0 st in
    (last.0, collect-snoc accepts es e ∙ (ap (λ l. l ++ accepts e) before.1 ∙ last.1))

Run-cost :
    (p : FixedThreadPool) {es : List Event} {u : FixedThreadPool}
    → p.b_stop ≡ true
    → IsSound p
    → Run p es u
    → length es + cost u ≤ cost p
Run-cost p t s here = omega arith
Run-cost p t s (next {es = es} {t = m} {e = e} r st) =
    let before = Run-cost p t s r in
    let last = Step-cost m (Run-stopped p t r).0 (Run-IsSound p r s) st in
    omega (arith, length-append es (e ∷ []))

-- Once the destructor is called, the pool takes at most `cost` steps more, whatever their order and
-- with spurious wake-ups counted, and until the destructor has joined every thread one of the pool's
-- own steps can be taken: the destructor returns, when the tasks do.
pub destructor_returns :
    (n : ℕ) {es fs : List Event} {p u : FixedThreadPool}
    → Run (started n) es p
    → p.b_stop ≡ true
    → Run p fs u
    → (length fs + cost u ≤ cost p) × (IsDestroyed u ⊎ Moves u)
destructor_returns n {p = p} {u = u} r t f =
    let sound = Run-IsSound (started n) r (started-IsSound n) in
    (Run-cost p t sound f, stopped-Moves u (Run-stopped p t f).0 (Run-IsSound p f sound))

-- Once the destructor is called, `enqueue` throws, then and after any steps that follow, and no task
-- is accepted in them.
pub stopped_refuses :
    (task : Task) (p : FixedThreadPool) {es : List Event} {u : FixedThreadPool}
    → p.b_stop ≡ true
    → Run p es u
    → (enqueue task u ≡ err runtime_error) × (collect accepts es ≡ [])
unfolding enqueue
stopped_refuses task p t r = let after = Run-stopped p t r in (rw after.0, after.1)
