-- ===== src/FixedThreadPool/Order.antt =====
-- What becomes of the tasks of the pool: the order in which they begin, and that each ends once.
use c_plus_plus.Prelude.{
  ◌≡◌, refl, sym, ap, ◌∙◌, ◌≡⟨◌⟩◌, ◌∎, Bool, true, false, List, [], ◌∷◌, ◌++◌, append-nil,
  append_assoc,
}
use c_plus_plus.FixedThreadPool.{
  Task, Worker, awake, asleep, returned, running, FixedThreadPool, take_task, Event, enqueued,
  begun, ended, waits, returns, notified, spurious, stops, joins, event_of, Step, enqueue_step,
  notify_one_step, notify_none_step, spurious_step, loop_step, end_step, stop_step, notify_all_step,
  join_step, Run, here, next,
}
use c_plus_plus.FixedThreadPool.Invariant.{enqueue-ok}

-- The tasks that an event accepts, begins and ends.
abbrev pub accepts : Event → List Task
accepts (enqueued task) = task ∷ []
accepts (begun task) = []
accepts (ended task) = []
accepts waits = []
accepts returns = []
accepts notified = []
accepts spurious = []
accepts stops = []
accepts joins = []

abbrev pub begins : Event → List Task
begins (begun task) = task ∷ []
begins (enqueued task) = []
begins (ended task) = []
begins waits = []
begins returns = []
begins notified = []
begins spurious = []
begins stops = []
begins joins = []

abbrev pub ends : Event → List Task
ends (ended task) = task ∷ []
ends (enqueued task) = []
ends (begun task) = []
ends waits = []
ends returns = []
ends notified = []
ends spurious = []
ends stops = []
ends joins = []

abbrev pub collect : (Event → List Task) → List Event → List Task
collect f [] = []
collect f (e ∷ es) = f e ++ collect f es

pub collect-snoc :
    (f : Event → List Task) (es : List Event) (e : Event)
    → collect f (es ++ e ∷ []) ≡ collect f es ++ f e
collect-snoc f [] e = append-nil (f e)
collect-snoc f (x ∷ es) e =
    ap (λ t. f x ++ t) (collect-snoc f es e) ∙ sym (append_assoc (f x) (collect f es) (f e))

abbrev pub held : Worker → List Task
held (running task) = task ∷ []
held awake = []
held asleep = []
held returned = []

-- The tasks that run.
abbrev pub busy : List Worker → List Task
busy [] = []
busy (w ∷ ws) = held w ++ busy ws

take_task-queue :
    (stop : Bool) (tasks : List Task)
    → tasks ++ accepts (event_of (take_task stop tasks).0)
      ≡ begins (event_of (take_task stop tasks).0) ++ (take_task stop tasks).1
unfolding take_task
take_task-queue true [] = refl
take_task-queue false [] = refl
take_task-queue stop (task ∷ rest) = append-nil (task ∷ rest)

Step-queue :
    (p : FixedThreadPool) {u : FixedThreadPool} {e : Event}
    → Step p u e
    → p.m_q_tasks ++ accepts e ≡ begins e ++ u.m_q_tasks
Step-queue p (enqueue_step task e) = ap FixedThreadPool.m_q_tasks (sym (enqueue-ok task p e).1)
Step-queue p (notify_one_step us vs e h q) =
    append-nil p.m_q_tasks ∙ ap FixedThreadPool.m_q_tasks (sym q)
Step-queue p (notify_none_step a h q) =
    append-nil p.m_q_tasks ∙ ap FixedThreadPool.m_q_tasks (sym q)
Step-queue p (spurious_step us vs e q) =
    append-nil p.m_q_tasks ∙ ap FixedThreadPool.m_q_tasks (sym q)
Step-queue p (loop_step us vs e q) =
    take_task-queue p.b_stop p.m_q_tasks
    ∙ ap (λ t. begins (event_of (take_task p.b_stop p.m_q_tasks).0) ++ t)
        (ap FixedThreadPool.m_q_tasks (sym q))
Step-queue p (end_step us vs task e q) =
    append-nil p.m_q_tasks ∙ ap FixedThreadPool.m_q_tasks (sym q)
Step-queue p (stop_step e q) = append-nil p.m_q_tasks ∙ ap FixedThreadPool.m_q_tasks (sym q)
Step-queue p (notify_all_step e q) = append-nil p.m_q_tasks ∙ ap FixedThreadPool.m_q_tasks (sym q)
Step-queue p (join_step us vs e w q) = append-nil p.m_q_tasks ∙ ap FixedThreadPool.m_q_tasks (sym q)

-- Tasks begin in the order in which they were accepted, and what did not begin waits in the queue.
pub Run-queue :
    (p : FixedThreadPool) {es : List Event} {u : FixedThreadPool}
    → Run p es u
    → p.m_q_tasks ++ collect accepts es ≡ collect begins es ++ u.m_q_tasks
Run-queue p here = append-nil p.m_q_tasks
Run-queue p {u = u} (next {es = es} {t = t} {e = e} r st) =
    p.m_q_tasks ++ collect accepts (es ++ e ∷ [])
    ≡⟨ ap (λ l. p.m_q_tasks ++ l) (collect-snoc accepts es e) ⟩
      p.m_q_tasks ++ (collect accepts es ++ accepts e)
    ≡⟨ sym (append_assoc p.m_q_tasks (collect accepts es) (accepts e)) ⟩
      (p.m_q_tasks ++ collect accepts es) ++ accepts e
    ≡⟨ ap (λ l. l ++ accepts e) (Run-queue p r) ⟩ (collect begins es ++ t.m_q_tasks) ++ accepts e
    ≡⟨ append_assoc (collect begins es) t.m_q_tasks (accepts e) ⟩
      collect begins es ++ (t.m_q_tasks ++ accepts e)
    ≡⟨ ap (λ l. collect begins es ++ l) (Step-queue t st) ⟩
      collect begins es ++ (begins e ++ u.m_q_tasks)
    ≡⟨ sym (append_assoc (collect begins es) (begins e) u.m_q_tasks) ⟩
      (collect begins es ++ begins e) ++ u.m_q_tasks
    ≡⟨ ap (λ l. l ++ u.m_q_tasks) (sym (collect-snoc begins es e)) ⟩
      collect begins (es ++ e ∷ []) ++ u.m_q_tasks ∎
