-- ===== src/FixedThreadPool/Invariant.antt =====
-- The invariant of the pool, and that each step keeps it.
use c_plus_plus.Prelude.{
  ℕ, zero, suc, ◌-◌, ◌<◌, ◌≡◌, refl, sym, ap, ◌∙◌, ◌⊎◌, inl, inr, Bool, true, false, List, [], ◌∷◌,
  ◌++◌, map, arith, Bool-cases, Bool-ne, length, replicate,
}
use c_plus_plus.Prelude.Find.{All}
use c_plus_plus.FixedThreadPool.{
  Task, Worker, awake, asleep, returned, running, Owner, using, stopping, joining, FixedThreadPool,
  Outcome, ok, err, runtime_error, started, enqueue, take_task, wake, is_up, Event, Step,
  enqueue_step, notify_one_step, notify_none_step, spurious_step, loop_step, end_step, stop_step,
  notify_all_step, join_step, Run, here, next,
}
use c_plus_plus.FixedThreadPool.Threads.{
  is_live, some_ready, Joined, All-replace, some_ready-at, All-wake, All-map-wake, some_ready_of,
  Joined-replace, Joined-suc,
}
use mathlib.Core.Path.{subst, subst⁻¹}

-- Where the owner is tells `bStop`; when it joins, no thread is blocked, and those joined returned.
abbrev pub Owns : Owner → Bool → List Worker → Type 0
Owns using stop ws = stop ≡ false
Owns stopping stop ws = stop ≡ true
Owns (joining k) stop ws = (stop ≡ true) × (All is_up ws × Joined k ws)

-- A thread returns only when the pool is stopped and no task waits.
abbrev pub Closes : Bool → List Task → List Worker → Type 0
Closes stop tasks ws = ((stop ≡ true) × (tasks ≡ [])) ⊎ All is_live ws

-- A task that waits is announced to a thread, or one is ready to take it.
abbrev pub Serves : List Task → ℕ → List Worker → Type 0
Serves tasks notices ws = (tasks ≡ []) ⊎ ((0 < notices) ⊎ ((some_ready ws ≡ true) ⊎ (ws ≡ [])))

abbrev pub IsSound : FixedThreadPool → Type 0
IsSound p =
    Owns p.owner p.b_stop p.m_v_threads
    × (Closes p.b_stop p.m_q_tasks p.m_v_threads × Serves p.m_q_tasks p.notices p.m_v_threads)

Owns-replace :
    (o : Owner) (stop : Bool) (us vs : List Worker) (w w' : Worker)
    → is_live w ≡ true
    → (stop ≡ true → is_up w' ≡ true)
    → Owns o stop (us ++ w ∷ vs)
    → Owns o stop (us ++ w' ∷ vs)
Owns-replace using stop us vs w w' l h a = a
Owns-replace stopping stop us vs w w' l h a = a
Owns-replace (joining k) stop us vs w w' l h a =
    (a.0, (All-replace is_up us vs w w' (h a.0) a.1.0, Joined-replace k us vs w w' l a.1.1))

Closes-replace :
    (stop : Bool) (tasks : List Task) (us vs : List Worker) (w w' : Worker)
    → is_live w' ≡ true
    → Closes stop tasks (us ++ w ∷ vs)
    → Closes stop tasks (us ++ w' ∷ vs)
Closes-replace stop tasks us vs w w' l (inl c) = inl c
Closes-replace stop tasks us vs w w' l (inr a) = inr (All-replace is_live us vs w w' l a)

-- A thread that becomes awake, after a wait or a task, keeps the invariant.
IsSound-awake :
    (p : FixedThreadPool) (us vs : List Worker) (w : Worker) (n : ℕ)
    → is_live w ≡ true
    → p.m_v_threads ≡ us ++ w ∷ vs
    → IsSound p
    → IsSound (record p { m_v_threads = us ++ awake ∷ vs; notices = n })
IsSound-awake p us vs w n l e (o, (c, s)) = (
  Owns-replace p.owner p.b_stop us vs w awake l (λ t. refl) (subst (Owns p.owner p.b_stop) e o),
  (
    Closes-replace p.b_stop p.m_q_tasks us vs w awake refl
        (subst (Closes p.b_stop p.m_q_tasks) e c),
    inr (inr (inl (some_ready-at us vs awake refl))),
  ),
)

-- With no thread blocked, a task that waits has a thread for it.
Serves-up :
    (stop : Bool) (tasks : List Task) (n : ℕ) (ws : List Worker)
    → All is_up ws
    → Closes stop tasks ws
    → Serves tasks n ws
Serves-up stop tasks n ws u (inl c) = inl c.1
Serves-up stop tasks n ws u (inr l) = inr (inr (some_ready_of ws u l))

pub ∷-ne : (task : Task) (rest : List Task) → ¬ (task ∷ rest ≡ [])
∷-ne task rest e = subst is_cons e tt
  where
    is_cons : List Task → Type 0
    is_cons [] = ⊥
    is_cons (t ∷ ts) = Unit

IsSound-take :
    (stop : Bool) (tasks : List Task) (o : Owner) (n : ℕ) (us vs : List Worker)
    → Owns o stop (us ++ awake ∷ vs)
    → Closes stop tasks (us ++ awake ∷ vs)
    → Owns o stop (us ++ (take_task stop tasks).0 ∷ vs)
      × (Closes stop (take_task stop tasks).1 (us ++ (take_task stop tasks).0 ∷ vs)
          × Serves (take_task stop tasks).1 n (us ++ (take_task stop tasks).0 ∷ vs))
unfolding take_task
IsSound-take true [] o n us vs h c =
    (Owns-replace o true us vs awake returned refl (λ t. refl) h, (inl (refl, refl), inl refl))
IsSound-take false [] o n us vs h c = (
  Owns-replace o false us vs awake asleep refl (λ t. Bool-ne t refl) h,
  (Closes-replace false [] us vs awake asleep refl c, inl refl),
)
IsSound-take stop (task ∷ rest) o n us vs h c = (
  Owns-replace o stop us vs awake (running task) refl (λ t. refl) h,
  (taken c, inr (inr (inl (some_ready-at us vs (running task) refl)))),
)
  where
    taken :
        Closes stop (task ∷ rest) (us ++ awake ∷ vs) → Closes stop rest (us ++ running task ∷ vs)
    taken (inl d) = absurd (∷-ne task rest d.1)
    taken (inr a) = inr (All-replace is_live us vs awake (running task) refl a)

abbrev pushed : Task → FixedThreadPool → FixedThreadPool
pushed task p = record p { m_q_tasks = p.m_q_tasks ++ task ∷ []; notices = suc p.notices }

-- `enqueue` succeeds only before the stop.
pub enqueue-ok :
    (task : Task) (p : FixedThreadPool) {u : FixedThreadPool}
    → enqueue task p ≡ ok u
    → (p.b_stop ≡ false) × (u ≡ pushed task p)
unfolding enqueue
enqueue-ok task p {u = u} e = elim (Bool-cases p.b_stop) [
  | inl t ↦ absurd (subst IsOk (sym (sym (stopped t) ∙ e)) tt)
  | inr f ↦ (f, ap (result p) (sym e ∙ going f))
]
  where
    stopped : p.b_stop ≡ true → enqueue task p ≡ err runtime_error
    stopped t = rw t

    going : p.b_stop ≡ false → enqueue task p ≡ ok (pushed task p)
    going f = rw f

    IsOk : Outcome FixedThreadPool → Type 0
    IsOk (ok q) = Unit
    IsOk (err f) = ⊥

    result : FixedThreadPool → Outcome FixedThreadPool → FixedThreadPool
    result q (ok r) = r
    result q (err f) = q

Closes-stop :
    (stop : Bool) (tasks : List Task) (ws : List Worker)
    → Closes stop tasks ws
    → Closes true tasks ws
Closes-stop stop tasks ws (inl c) = inl (refl, c.1)
Closes-stop stop tasks ws (inr a) = inr a

Closes-wake :
    (stop : Bool) (tasks : List Task) (ws : List Worker)
    → Closes stop tasks ws
    → Closes stop tasks (map wake ws)
Closes-wake stop tasks ws (inl c) = inl c
Closes-wake stop tasks ws (inr a) = inr (All-map-wake ws a)

Closes-push :
    (stop : Bool) (tasks more : List Task) (ws : List Worker)
    → stop ≡ false
    → Closes stop tasks ws
    → Closes stop more ws
Closes-push stop tasks more ws f (inl c) = Bool-ne c.0 f
Closes-push stop tasks more ws f (inr a) = inr a

-- Every step keeps the invariant.
pub Step-IsSound :
    (p : FixedThreadPool) {u : FixedThreadPool} {e : Event} → Step p u e → IsSound p → IsSound u
Step-IsSound p (enqueue_step task e) (o, (c, s)) =
    let f = enqueue-ok task p e in
    subst⁻¹ IsSound f.1 (
      o,
      (
        Closes-push p.b_stop p.m_q_tasks (p.m_q_tasks ++ task ∷ []) p.m_v_threads f.0 c,
        inr (inl (omega arith)),
      ),
    )
Step-IsSound p (notify_one_step us vs e h q) s =
    subst⁻¹ IsSound q (IsSound-awake p us vs asleep (p.notices - 1) refl e s)
Step-IsSound p (notify_none_step a h q) (o, (c, s)) =
    subst⁻¹ IsSound q (o, (c, Serves-up p.b_stop p.m_q_tasks (p.notices - 1) p.m_v_threads a c))
Step-IsSound p (spurious_step us vs e q) s =
    subst⁻¹ IsSound q (IsSound-awake p us vs asleep p.notices refl e s)
Step-IsSound p (loop_step us vs e q) (o, (c, s)) = subst⁻¹ IsSound q (
    IsSound-take p.b_stop p.m_q_tasks p.owner p.notices us vs (subst (Owns p.owner p.b_stop) e o)
      (subst (Closes p.b_stop p.m_q_tasks) e c))
Step-IsSound p (end_step us vs task e q) s =
    subst⁻¹ IsSound q (IsSound-awake p us vs (running task) p.notices refl e s)
Step-IsSound p (stop_step e q) (o, (c, s)) =
    subst⁻¹ IsSound q (refl, (Closes-stop p.b_stop p.m_q_tasks p.m_v_threads c, s))
Step-IsSound p (notify_all_step e q) (o, (c, s)) =
    let d = Closes-wake p.b_stop p.m_q_tasks p.m_v_threads c in
    let up = All-wake p.m_v_threads in
    subst⁻¹ IsSound q (
      (subst (λ w. Owns w p.b_stop p.m_v_threads) e o, (up, tt)),
      (d, Serves-up p.b_stop p.m_q_tasks p.notices (map wake p.m_v_threads) up d),
    )
Step-IsSound p (join_step us vs e w q) (o, (c, s)) =
    subst⁻¹ IsSound q ((j.0, (j.1.0, joined)), (c, s))
  where
    j : Owns (joining (length us)) p.b_stop p.m_v_threads
    j = subst (λ w. Owns w p.b_stop p.m_v_threads) w o

    joined : Joined (suc (length us)) p.m_v_threads
    joined =
        subst⁻¹ (Joined (suc (length us))) e (Joined-suc us vs (subst (Joined (length us)) e j.1.1))

All-start : (n : ℕ) → All is_live (replicate n awake)
All-start zero = tt
All-start (suc n) = (refl, All-start n)

pub started-IsSound : (n : ℕ) → IsSound (started n)
started-IsSound n = (refl, (inr (All-start n), inl refl))

-- The invariant holds after any steps of a pool that keeps it.
pub Run-IsSound :
    (p : FixedThreadPool) {es : List Event} {u : FixedThreadPool}
    → Run p es u
    → IsSound p
    → IsSound u
Run-IsSound p here s = s
Run-IsSound p (next {t = t} r st) s = Step-IsSound t st (Run-IsSound p r s)
