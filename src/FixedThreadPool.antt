-- ===== src/FixedThreadPool.antt =====
-- fixed_thread_pool/FixedThreadPool.hpp: the pool, its threads, and the steps that they, the clients
-- and the destructor take in any order.
pub mod Threads
pub mod Invariant
pub mod Order
pub mod Busy
pub mod Drain
pub mod Shutdown
pub mod Cost
pub mod Tests
use c_plus_plus.Prelude.{
  ℕ, suc, ◌+◌, ◌-◌, ◌/◌, ◌<◌, ◌≡◌, ap, Bool, true, false, not, none, List, [], ◌∷◌, ◌++◌, map,
  if◌then◌else◌, length, take, replicate,
}
use c_plus_plus.Prelude.Find.{All}
use c_plus_plus.Time.{ℤ, pos, negsuc}

-- A `function<void()>`, known by its number.
abbrev pub Task : Type 0
Task = ℕ

-- Where a thread of the pool is: before the lock, blocked in `cv.wait`, in `task()`, or returned.
pub data Worker : Type 0 where
  awake asleep returned : Worker
  running : Task → Worker

-- The owner of the pool: before the destructor, in it before `cv.notify_all()`, and in its loop with
-- the number of threads that are joined.
pub data Owner : Type 0 where
  using stopping : Owner
  joining : ℕ → Owner

-- `notices` counts the calls of `enqueue` that are before their `cv.notify_one()`.
pub record FixedThreadPool : Type 0 where
  pub m_v_threads : List Worker
  pub m_q_tasks : List Task
  pub b_stop : Bool
  pub notices : ℕ
  pub owner : Owner

pub data Fault : Type 0 where
  length_error runtime_error : Fault

pub data Outcome (A : Type 0) : Type 0 where
  ok : A → Outcome A
  err : Fault → Outcome A

abbrev pub started : ℕ → FixedThreadPool
started n = record {
  m_v_threads = replicate n awake;
  m_q_tasks = [];
  b_stop = false;
  notices = 0;
  owner = using;
}

-- The constructor; `reserve` throws for a negative number, which `size_t` makes larger than any
-- vector. No task is there before it ends, so the threads started first only wait.
unfoldable pub construct_pool : ℤ → Outcome FixedThreadPool
construct_pool (pos n) = ok (started n)
construct_pool (negsuc n) = err length_error

-- The locked part of `enqueue`.
unfoldable pub enqueue : Task → FixedThreadPool → Outcome FixedThreadPool
enqueue task p =
    if p.b_stop
    then err runtime_error
    else ok (record p { m_q_tasks = p.m_q_tasks ++ task ∷ []; notices = suc p.notices })

-- The locked part of a thread's loop: the test of `cv.wait`, then the return or the task taken.
unfoldable pub take_task : Bool → List Task → Worker × List Task
take_task stop [] = if stop then (returned, []) else (asleep, [])
take_task stop (task ∷ rest) = (running task, rest)

-- What a step does to a task, or whose step it is.
pub data Event : Type 0 where
  enqueued begun ended : Task → Event
  waits returns notified spurious stops joins : Event

abbrev pub event_of : Worker → Event
event_of (running task) = begun task
event_of returned = returns
event_of w = waits

-- `cv.notify_all()` leaves no thread blocked.
abbrev pub wake : Worker → Worker
wake asleep = awake
wake w = w

abbrev pub is_up : Worker → Bool
is_up asleep = false
is_up awake = true
is_up returned = true
is_up (running task) = true

-- One step: the call it makes, where its thread stands among the others, and the state after it.
pub data Step (p u : FixedThreadPool) : Event → Type 0 where
  enqueue_step : (task : Task) → enqueue task p ≡ ok u → Step p u (enqueued task)
  notify_one_step :
      (us vs : List Worker)
      → p.m_v_threads ≡ us ++ asleep ∷ vs
      → 0 < p.notices
      → u ≡ record p { m_v_threads = us ++ awake ∷ vs; notices = p.notices - 1 }
      → Step p u notified
  notify_none_step :
      All is_up p.m_v_threads
      → 0 < p.notices
      → u ≡ record p { notices = p.notices - 1 }
      → Step p u notified
  spurious_step :
      (us vs : List Worker)
      → p.m_v_threads ≡ us ++ asleep ∷ vs
      → u ≡ record p { m_v_threads = us ++ awake ∷ vs }
      → Step p u spurious
  loop_step :
      (us vs : List Worker)
      → p.m_v_threads ≡ us ++ awake ∷ vs
      → u ≡ record p {
        m_v_threads = us ++ (take_task p.b_stop p.m_q_tasks).0 ∷ vs;
        m_q_tasks = (take_task p.b_stop p.m_q_tasks).1;
      }
      → Step p u (event_of (take_task p.b_stop p.m_q_tasks).0)
  end_step :
      (us vs : List Worker) (task : Task)
      → p.m_v_threads ≡ us ++ running task ∷ vs
      → u ≡ record p { m_v_threads = us ++ awake ∷ vs }
      → Step p u (ended task)
  stop_step : p.owner ≡ using → u ≡ record p { b_stop = true; owner = stopping } → Step p u stops
  notify_all_step :
      p.owner ≡ stopping
      → u ≡ record p { m_v_threads = map wake p.m_v_threads; owner = joining 0 }
      → Step p u notified
  join_step :
      (us vs : List Worker)
      → p.m_v_threads ≡ us ++ returned ∷ vs
      → p.owner ≡ joining (length us)
      → u ≡ record p { owner = joining (suc (length us)) }
      → Step p u joins

-- The steps from one state to another, with what they did.
pub data Run (p : FixedThreadPool) : List Event → FixedThreadPool → Type 0 where
  here : Run p [] p
  next :
      {es : List Event} {t u : FixedThreadPool} {e : Event}
      → Run p es t
      → Step t u e
      → Run p (es ++ e ∷ []) u
