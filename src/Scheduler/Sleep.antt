-- ===== src/Scheduler/Sleep.antt =====
-- What wakes a task that parks itself in src/scheduler.rs.
use pinx_kernel.Prelude.{
  ℕ, ◌<◌, ◌≡◌, arith, not, ◌&&◌, ◌==◌, leb, if◌then◌else◌, ap, ◌∙◌, true, false,
}
use pinx_kernel.Scheduler.{Sched, Task, TaskPtr, slot, ready, blocked, modify, max_tasks}
use pinx_kernel.Scheduler.Ops.{
  block_current_until, block_current_input, wake_sleeper, wake_waiter, wake_sleepers,
  wake_input_waiters,
}
use pinx_kernel.Scheduler.Wake.{for_tasks_lem}

woken_sleeper :
    (s : Sched) (now i : ℕ) → i < 64 → (wake_sleepers s now).tasks i ≡ wake_sleeper now (s.tasks i)
unfolding wake_sleepers
woken_sleeper s now i h = ground (arith, for_tasks_lem (wake_sleeper now) 64 0 s.tasks i)

pub woken_waiter :
    (s : Sched) (i : ℕ) → i < 64 → (wake_input_waiters s).tasks i ≡ wake_waiter (s.tasks i)
unfolding wake_input_waiters
woken_waiter s i h = ground (arith, for_tasks_lem wake_waiter 64 0 s.tasks i)

modified :
    (s : Sched) (p : TaskPtr) (i : ℕ) (f : Task → Task)
    → p ≡ slot i
    → (modify s p f).tasks i ≡ f (s.tasks i)
modified s p i f e = rw e (ground arith)

-- A task that parks until `tick` is made Ready by the timer exactly when `tick` is not zero and has
-- passed, and not by a key; a task that parks for input is made Ready by a key, and not by the
-- timer.
pub wake_sleepers-block_current_until :
    (s : Sched) (cpu i tick now : ℕ)
    → i < max_tasks
    → (s.percpu cpu).current ≡ slot i
    → (((wake_sleepers (block_current_until s cpu tick) now).tasks i).state
        ≡ (if not (tick == 0) && leb tick now then ready else blocked))
      × (((wake_input_waiters (block_current_until s cpu tick)).tasks i).state ≡ blocked)
      × (((wake_input_waiters (block_current_input s cpu)).tasks i).state ≡ ready)
      × (((wake_sleepers (block_current_input s cpu) now).tasks i).state ≡ blocked)
unfolding wake_sleeper wake_waiter
wake_sleepers-block_current_until s cpu i tick now h e = (
  ap (λ (t : Task). t.state)
        (woken_sleeper (block_current_until s cpu tick) now i h ∙ ap (wake_sleeper now) timed)
      ∙ ground arith,
  ap (λ (t : Task). t.state)
      (woken_waiter (block_current_until s cpu tick) i h ∙ ap wake_waiter timed),
  ap (λ (t : Task). t.state)
      (woken_waiter (block_current_input s cpu) i h ∙ ap wake_waiter waiting),
  ap (λ (t : Task). t.state)
      (woken_sleeper (block_current_input s cpu) now i h ∙ ap (wake_sleeper now) waiting),
)
  where
    timed :
        (block_current_until s cpu tick).tasks i
        ≡ record (s.tasks i) { state = blocked; wake_tick = tick; wait_input = false }
    timed = unfold block_current_until in modified s (s.percpu cpu).current i _ e

    waiting :
        (block_current_input s cpu).tasks i
        ≡ record (s.tasks i) { state = blocked; wake_tick = 0; wait_input = true }
    waiting = unfold block_current_input in modified s (s.percpu cpu).current i _ e
