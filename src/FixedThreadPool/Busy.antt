-- ===== src/FixedThreadPool/Busy.antt =====
-- Each task that a thread of the pool begins ends once or still runs.
use c_plus_plus.Prelude.{
  ◌≡◌, refl, sym, ap, ◌∙◌, Bool, true, false, List, [], ◌∷◌, ◌++◌, map, append-nil, append_assoc,
}
use c_plus_plus.FixedThreadPool.{
  Task, Worker, awake, asleep, returned, running, FixedThreadPool, take_task, wake, Event, event_of,
  Step, enqueue_step, notify_one_step, notify_none_step, spurious_step, loop_step, end_step,
  stop_step, notify_all_step, join_step, Run, here, next,
}
use c_plus_plus.FixedThreadPool.Invariant.{enqueue-ok}
use mathlib.Core.List.Permᴰ
use mathlib.Core.List.{Permᴰ}
use mathlib.Core.Path.{subst, subst₂}
use c_plus_plus.FixedThreadPool.Order.{begins, ends, collect, collect-snoc, held, busy}

busy-quiet :
    (us vs : List Worker) (w : Worker) → held w ≡ [] → busy (us ++ w ∷ vs) ≡ busy (us ++ vs)
busy-quiet [] vs w h = ap (λ t. t ++ busy vs) h
busy-quiet (u ∷ us) vs w h = ap (λ t. held u ++ t) (busy-quiet us vs w h)

busy-swap :
    (us vs : List Worker) (w w' : Worker)
    → held w ≡ []
    → held w' ≡ []
    → busy (us ++ w ∷ vs) ≡ busy (us ++ w' ∷ vs)
busy-swap us vs w w' h h' = busy-quiet us vs w h ∙ sym (busy-quiet us vs w' h')

held-past :
    (u : Worker) (task : Task) (l : List Task) → Permᴰ (held u ++ task ∷ l) (task ∷ (held u ++ l))
held-past awake task l = Permᴰ.refl (task ∷ l)
held-past asleep task l = Permᴰ.refl (task ∷ l)
held-past returned task l = Permᴰ.refl (task ∷ l)
held-past (running other) task l = Permᴰ.swap refl refl

busy-running :
    (us vs : List Worker) (task : Task)
    → Permᴰ (busy (us ++ running task ∷ vs)) (task ∷ busy (us ++ vs))
busy-running [] vs task = Permᴰ.refl (task ∷ busy vs)
busy-running (u ∷ us) vs task =
    Permᴰ.trans (Permᴰ.append_left (held u) (busy-running us vs task))
      (held-past u task (busy (us ++ vs)))

busy-wake : (ws : List Worker) → busy (map wake ws) ≡ busy ws
busy-wake [] = refl
busy-wake (awake ∷ ws) = busy-wake ws
busy-wake (asleep ∷ ws) = busy-wake ws
busy-wake (returned ∷ ws) = busy-wake ws
busy-wake (running task ∷ ws) = ap (λ t. task ∷ t) (busy-wake ws)

pub same {ℓ} : {A : Type ℓ} {xs ys : List A} → xs ≡ ys → Permᴰ xs ys
same {xs = xs} e = subst (Permᴰ xs) e (Permᴰ.refl xs)

-- A step that neither begins nor ends a task.
calm :
    {vs : List Worker} (ws ws' : List Worker)
    → busy ws ≡ busy ws'
    → vs ≡ ws'
    → Permᴰ (busy ws ++ []) (busy vs)
calm ws ws' e q = same (append-nil (busy ws) ∙ (e ∙ ap busy (sym q)))

snoc-past : (xs : List Task) (task : Task) → Permᴰ (xs ++ task ∷ []) (task ∷ xs)
snoc-past [] task = Permᴰ.refl (task ∷ [])
snoc-past (x ∷ xs) task = Permᴰ.trans (Permᴰ.cons refl (snoc-past xs task)) (Permᴰ.swap refl refl)

take_task-busy :
    (stop : Bool) (tasks : List Task) (us vs : List Worker)
    → Permᴰ
        (busy (us ++ awake ∷ vs) ++ begins (event_of (take_task stop tasks).0))
        (ends (event_of (take_task stop tasks).0) ++ busy (us ++ (take_task stop tasks).0 ∷ vs))
unfolding take_task
take_task-busy true [] us vs =
    same (append-nil (busy (us ++ awake ∷ vs)) ∙ busy-swap us vs awake returned refl refl)
take_task-busy false [] us vs =
    same (append-nil (busy (us ++ awake ∷ vs)) ∙ busy-swap us vs awake asleep refl refl)
take_task-busy stop (task ∷ rest) us vs =
    Permᴰ.trans (same (ap (λ t. t ++ task ∷ []) (busy-quiet us vs awake refl)))
      (Permᴰ.trans (snoc-past (busy (us ++ vs)) task) (Permᴰ.symm (busy-running us vs task)))

Step-busy :
    (p : FixedThreadPool) {u : FixedThreadPool} {e : Event}
    → Step p u e
    → Permᴰ (busy p.m_v_threads ++ begins e) (ends e ++ busy u.m_v_threads)
Step-busy p (enqueue_step task e) =
    calm p.m_v_threads p.m_v_threads refl (ap FixedThreadPool.m_v_threads (enqueue-ok task p e).1)
Step-busy p (notify_one_step us vs e h q) =
    calm p.m_v_threads (us ++ awake ∷ vs) (ap busy e ∙ busy-swap us vs asleep awake refl refl)
      (ap FixedThreadPool.m_v_threads q)
Step-busy p (notify_none_step a h q) =
    calm p.m_v_threads p.m_v_threads refl (ap FixedThreadPool.m_v_threads q)
Step-busy p (spurious_step us vs e q) =
    calm p.m_v_threads (us ++ awake ∷ vs) (ap busy e ∙ busy-swap us vs asleep awake refl refl)
      (ap FixedThreadPool.m_v_threads q)
Step-busy p (loop_step us vs e q) =
    subst₂
      (λ ws ws'.
        Permᴰ (busy ws ++ begins (event_of (take_task p.b_stop p.m_q_tasks).0))
          (ends (event_of (take_task p.b_stop p.m_q_tasks).0) ++ busy ws'))
      (sym e) (ap FixedThreadPool.m_v_threads (sym q)) (take_task-busy p.b_stop p.m_q_tasks us vs)
Step-busy p (end_step us vs task e q) =
    Permᴰ.trans (same (append-nil (busy p.m_v_threads) ∙ ap busy e)) (
      Permᴰ.trans (busy-running us vs task) (
        same (
          ap (λ t. task ∷ t)
            (sym (busy-quiet us vs awake refl) ∙ ap (λ s. busy s.m_v_threads) (sym q)))))
Step-busy p (stop_step e q) =
    calm p.m_v_threads p.m_v_threads refl (ap FixedThreadPool.m_v_threads q)
Step-busy p (notify_all_step e q) =
    calm p.m_v_threads (map wake p.m_v_threads) (sym (busy-wake p.m_v_threads))
      (ap FixedThreadPool.m_v_threads q)
Step-busy p (join_step us vs e w q) =
    calm p.m_v_threads p.m_v_threads refl (ap FixedThreadPool.m_v_threads q)

-- Every task that began ended or still runs.
pub Run-busy :
    (p : FixedThreadPool) {es : List Event} {u : FixedThreadPool}
    → Run p es u
    → Permᴰ (busy p.m_v_threads ++ collect begins es) (collect ends es ++ busy u.m_v_threads)
Run-busy p here = same (append-nil (busy p.m_v_threads))
Run-busy p {u = u} (next {es = es} {t = t} {e = e} r st) =
    Permᴰ.trans
      (same (
        ap (λ l. busy p.m_v_threads ++ l) (collect-snoc begins es e)
        ∙ sym (append_assoc (busy p.m_v_threads) (collect begins es) (begins e))))
      (Permᴰ.trans (Permᴰ.append_right (begins e) (Run-busy p r)) (
        Permᴰ.trans (same (append_assoc (collect ends es) (busy t.m_v_threads) (begins e))) (
          Permᴰ.trans (Permᴰ.append_left (collect ends es) (Step-busy t st)) (
            same (
              sym (append_assoc (collect ends es) (ends e) (busy u.m_v_threads))
              ∙ ap (λ l. l ++ busy u.m_v_threads) (sym (collect-snoc ends es e)))))))
