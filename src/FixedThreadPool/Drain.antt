-- ===== src/FixedThreadPool/Drain.antt =====
-- What a client of the pool sees: the order of its tasks, and that the destructor leaves none.
use c_plus_plus.Prelude.{
  ℕ, zero, suc, ◌<◌, ◌≡◌, refl, sym, ap, ◌∙◌, inl, inr, Bool, List, [], ◌∷◌, ◌++◌, append-nil,
  arith, Bool-ne, length, replicate, length-replicate, length-map,
}
use c_plus_plus.FixedThreadPool.{
  Task, Worker, awake, asleep, running, joining, FixedThreadPool, started, take_task, wake, Event,
  Step, enqueue_step, notify_one_step, notify_none_step, spurious_step, loop_step, end_step,
  stop_step, notify_all_step, join_step, Run, here, next,
}
use c_plus_plus.FixedThreadPool.Threads.{is_live, Joined}
use c_plus_plus.FixedThreadPool.Invariant.{
  IsSound, Owns, Closes, enqueue-ok, Run-IsSound, started-IsSound,
}
use c_plus_plus.FixedThreadPool.Order.{accepts, begins, ends, collect, busy, Run-queue}
use c_plus_plus.FixedThreadPool.Busy.{same, Run-busy}
use mathlib.Core.List.{Permᴰ}
use mathlib.Core.Path.{subst, subst⁻¹}

length-replace :
    (us vs : List Worker) (w w' : Worker) → length (us ++ w ∷ vs) ≡ length (us ++ w' ∷ vs)
length-replace [] vs w w' = refl
length-replace (u ∷ us) vs w w' = ap suc (length-replace us vs w w')

moved :
    {ws xs : List Worker} (us vs : List Worker) (w w' : Worker)
    → ws ≡ us ++ w ∷ vs
    → xs ≡ us ++ w' ∷ vs
    → length xs ≡ length ws
moved us vs w w' e q = ap length q ∙ (length-replace us vs w' w ∙ ap length (sym e))

-- No step starts a thread or forgets one.
pub Step-length :
    (p : FixedThreadPool) {u : FixedThreadPool} {e : Event}
    → Step p u e
    → length u.m_v_threads ≡ length p.m_v_threads
Step-length p (enqueue_step task e) = ap (λ s. length s.m_v_threads) (enqueue-ok task p e).1
Step-length p (notify_one_step us vs e h q) =
    moved us vs asleep awake e (ap FixedThreadPool.m_v_threads q)
Step-length p (notify_none_step a h q) = ap (λ s. length s.m_v_threads) q
Step-length p (spurious_step us vs e q) =
    moved us vs asleep awake e (ap FixedThreadPool.m_v_threads q)
Step-length p (loop_step us vs e q) =
    moved us vs awake (take_task p.b_stop p.m_q_tasks).0 e (ap FixedThreadPool.m_v_threads q)
Step-length p (end_step us vs task e q) =
    moved us vs (running task) awake e (ap FixedThreadPool.m_v_threads q)
Step-length p (stop_step e q) = ap (λ s. length s.m_v_threads) q
Step-length p (notify_all_step e q) =
    ap (λ s. length s.m_v_threads) q ∙ length-map p.m_v_threads wake
Step-length p (join_step us vs e w q) = ap (λ s. length s.m_v_threads) q

pub Run-length :
    (p : FixedThreadPool) {es : List Event} {u : FixedThreadPool}
    → Run p es u
    → length u.m_v_threads ≡ length p.m_v_threads
Run-length p here = refl
Run-length p (next {t = t} r st) = Step-length t st ∙ Run-length p r

Joined-busy : (ws : List Worker) → Joined (length ws) ws → busy ws ≡ []
Joined-busy [] j = refl
Joined-busy (w ∷ ws) j = rw (j.0, Joined-busy ws j.1)

-- A task waits only while a thread is left.
Joined-tasks :
    (stop : Bool) (tasks : List Task) (ws : List Worker)
    → 0 < length ws
    → Joined (length ws) ws
    → Closes stop tasks ws
    → tasks ≡ []
Joined-tasks stop tasks ws h j (inl c) = c.1
Joined-tasks stop tasks [] h j (inr a) = absurd (omega arith)
Joined-tasks stop tasks (w ∷ ws) h j (inr a) = Bool-ne a.0 (ap is_live j.0)

-- In any interleaving of a pool's threads and clients, tasks begin in the order in which `enqueue`
-- accepted them, those that did not begin wait in the queue, and each that began has ended once or
-- still runs.
pub tasks_in_order :
    (n : ℕ) {es : List Event} {u : FixedThreadPool}
    → Run (started n) es u
    → (collect accepts es ≡ collect begins es ++ u.m_q_tasks)
      × Permᴰ (collect begins es) (collect ends es ++ busy u.m_v_threads)
tasks_in_order n {es = es} {u = u} r = (
  Run-queue (started n) r,
  subst (λ l. Permᴰ (l ++ collect begins es) (collect ends es ++ busy u.m_v_threads)) (idle n)
      (Run-busy (started n) r),
)
  where
    idle : (k : ℕ) → busy (replicate k awake) ≡ []
    idle zero = refl
    idle (suc k) = idle k

-- When the destructor of a pool with at least one thread has joined all of them, each task that
-- `enqueue` accepted has ended, once: none is lost in the queue.
pub destroyed_done :
    (n : ℕ) {es : List Event} {u : FixedThreadPool}
    → 0 < n
    → Run (started n) es u
    → u.owner ≡ joining (length u.m_v_threads)
    → (u.m_q_tasks ≡ []) × Permᴰ (collect accepts es) (collect ends es)
destroyed_done n {es = es} {u = u} h r e = (
  none_left,
  Permᴰ.trans
      (same (
        (tasks_in_order n r).0
        ∙ (ap (λ l. collect begins es ++ l) none_left ∙ append-nil (collect begins es))))
      (Permᴰ.trans (tasks_in_order n r).1 (
        same (
          ap (λ l. collect ends es ++ l) (Joined-busy u.m_v_threads joined)
          ∙ append-nil (collect ends es)))),
)
  where
    sound : IsSound u
    sound = Run-IsSound (started n) r (started-IsSound n)

    joined : Joined (length u.m_v_threads) u.m_v_threads
    joined = (subst (λ w. Owns w u.b_stop u.m_v_threads) e sound.0).1.1

    threads : length u.m_v_threads ≡ n
    threads = Run-length (started n) r ∙ length-replicate n awake

    none_left : u.m_q_tasks ≡ []
    none_left =
        Joined-tasks u.b_stop u.m_q_tasks u.m_v_threads (subst⁻¹ (λ k. 0 < k) threads h) joined
          sound.1.0
