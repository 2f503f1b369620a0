-- ===== src/FixedThreadPool/Tests.antt =====
-- Runs of the thread pool, and the witnesses of its theorems.
use c_plus_plus.Prelude.{◌+◌, ◌≤◌, ◌≡◌, refl, ◌⊎◌, true, List, [], ◌∷◌, ◌++◌, arith, length}
use c_plus_plus.FixedThreadPool.{
  Task, awake, asleep, returned, running, stopping, joining, FixedThreadPool, started, Event,
  enqueued, begun, ended, waits, returns, notified, stops, joins, enqueue, take_task,
  construct_pool, err, runtime_error, length_error, enqueue_step, notify_one_step, loop_step,
  end_step, stop_step, notify_all_step, join_step, Run, here, next,
}
use c_plus_plus.FixedThreadPool.Order.{accepts, begins, ends, collect, busy}
use c_plus_plus.FixedThreadPool.Drain.{tasks_in_order, destroyed_done}
use c_plus_plus.FixedThreadPool.Shutdown.{Moves, IsDestroyed, no_lost_task}
use c_plus_plus.FixedThreadPool.Cost.{cost, destructor_returns, stopped_refuses}
use c_plus_plus.Time.{negsuc}
use mathlib.Core.List.{Permᴰ}
use mathlib.Core.Path.{subst}

construct_negative : construct_pool (negsuc 0) ≡ err length_error
unfolding construct_pool
construct_negative = refl

abbrev blocked : FixedThreadPool
blocked = record (started 1) { m_v_threads = asleep ∷ [] }

abbrev pushed : FixedThreadPool
pushed = record blocked { m_q_tasks = 7 ∷ []; notices = 1 }

abbrev woken : FixedThreadPool
woken = record pushed { m_v_threads = awake ∷ []; notices = 0 }

abbrev busy_one : FixedThreadPool
busy_one = record woken { m_v_threads = running 7 ∷ []; m_q_tasks = [] }

abbrev stopped : FixedThreadPool
stopped = record busy_one { b_stop = true; owner = stopping }

abbrev joining_one : FixedThreadPool
joining_one = record stopped { owner = joining 0 }

abbrev free : FixedThreadPool
free = record joining_one { m_v_threads = awake ∷ [] }

abbrev over : FixedThreadPool
over = record joining_one { m_v_threads = returned ∷ [] }

abbrev destroyed : FixedThreadPool
destroyed = record over { owner = joining 1 }

-- One thread, which waits, is notified of a task, and runs it while the destructor is called.
to_pushed : Run (started 1) (waits ∷ enqueued 7 ∷ []) pushed
unfolding enqueue take_task
to_pushed = next (next here (loop_step [] [] refl refl)) (enqueue_step 7 refl)

to_stopped : Run (started 1) (waits ∷ enqueued 7 ∷ notified ∷ begun 7 ∷ stops ∷ []) stopped
unfolding enqueue take_task
to_stopped =
    next
      (next (next to_pushed (notify_one_step [] [] refl (omega arith) refl))
        (loop_step [] [] refl refl))
      (stop_step refl refl)

from_stopped : Run stopped (notified ∷ ended 7 ∷ returns ∷ joins ∷ []) destroyed
unfolding take_task
from_stopped =
    next
      (next (next (next here (notify_all_step refl refl)) (end_step [] [] 7 refl refl))
        (loop_step [] [] refl refl))
      (join_step [] [] refl refl refl)

abbrev story : List Event
story = waits ∷ enqueued 7 ∷ notified ∷ begun 7 ∷ stops ∷ notified ∷ ended 7 ∷ returns ∷ joins ∷ []

to_destroyed : Run (started 1) story destroyed
unfolding take_task
to_destroyed =
    next
      (next (next (next to_stopped (notify_all_step refl refl)) (end_step [] [] 7 refl refl))
        (loop_step [] [] refl refl))
      (join_step [] [] refl refl refl)

tasks_in_order_example :
    (collect accepts (waits ∷ enqueued 7 ∷ []) ≡ collect begins (waits ∷ enqueued 7 ∷ []) ++ 7 ∷ [])
    × Permᴰ
        (collect begins (waits ∷ enqueued 7 ∷ []))
        (collect ends (waits ∷ enqueued 7 ∷ []) ++ busy pushed.m_v_threads)
tasks_in_order_example = tasks_in_order 1 to_pushed

destroyed_done_example :
    (destroyed.m_q_tasks ≡ []) × Permᴰ (collect accepts story) (collect ends story)
destroyed_done_example = destroyed_done 1 (omega arith) to_destroyed refl

no_lost_task_example : Moves pushed
no_lost_task_example = no_lost_task 1 (omega arith) to_pushed (λ e. subst is_some e tt)
  where
    is_some : List Task → Type 0
    is_some [] = ⊥
    is_some (t ∷ ts) = Unit

destructor_returns_example :
    (length (notified ∷ ended 7 ∷ returns ∷ joins ∷ []) + cost destroyed ≤ cost stopped)
    × (IsDestroyed destroyed ⊎ Moves destroyed)
destructor_returns_example = destructor_returns 1 to_stopped refl from_stopped

enqueue_stopped :
    (enqueue 8 destroyed ≡ err runtime_error)
    × (collect accepts (notified ∷ ended 7 ∷ returns ∷ joins ∷ []) ≡ [])
enqueue_stopped = stopped_refuses 8 stopped refl from_stopped
