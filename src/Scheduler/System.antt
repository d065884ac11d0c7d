-- ===== src/Scheduler/System.antt =====
-- Histories of src/scheduler.rs in which a task that gives up its CPU and the `schedule` that
-- follows are one step, and what holds in each.
use pinx_kernel.Prelude.{
  ℕ, ◌≡◌, ◌≢◌, ◌⊎◌, refl, sym, arith, true, false, ◌==◌, Bool-cases, inl, inr,
}
use mathlib.Core.Path.{subst}
use pinx_kernel.Scheduler.{Sched, running, null, slot, empty_task}
use pinx_kernel.Scheduler.Ops.{
  init_global, init_cpu, fill_slot, mark_current_dead, block_current_until, block_current_input,
  wake_sleepers, wake_input_waiters, schedule,
}
use pinx_kernel.Scheduler.Invariant.{Between, IsValid, IsValid-Between}
use pinx_kernel.Scheduler.Resume.{schedule-Between, schedule-IsValid}
use pinx_kernel.Scheduler.Wake.{
  mark_current_dead-Between, block_current_until-Between, block_current_input-Between,
  wake_sleepers-IsValid, wake_input_waiters-IsValid, fill_slot-IsValid,
}

-- The statics before `init_global`.
abbrev pub boot : Sched
boot = record {
  initialized = false;
  tasks = λ _. empty_task;
  idles = λ _. empty_task;
  percpu = λ _. record { current = null; deferred = null };
  kernel_stack = λ _. 0;
}

-- One event. System calls come from tasks, so the scheduler is initialised by then.
pub data Step (s t : Sched) : Type 0 where
  starts : (cpu : ℕ) → t ≡ init_cpu s cpu → Step s t
  spawns : (top frame : ℕ) → t ≡ (fill_slot s top frame).1 → Step s t
  timer : (cpu frame now : ℕ) → t ≡ (schedule (wake_sleepers s now) cpu frame).1 → Step s t
  key : t ≡ wake_input_waiters s → Step s t
  yields : (cpu frame : ℕ) → t ≡ (schedule s cpu frame).1 → Step s t
  exits :
      (cpu frame : ℕ)
      → (mark_current_dead s cpu).initialized ≡ true
      → t ≡ (schedule (mark_current_dead s cpu) cpu frame).1
      → Step s t
  sleeps :
      (cpu frame tick : ℕ)
      → (block_current_until s cpu tick).initialized ≡ true
      → t ≡ (schedule (block_current_until s cpu tick) cpu frame).1
      → Step s t
  waits :
      (cpu frame : ℕ)
      → (block_current_input s cpu).initialized ≡ true
      → t ≡ (schedule (block_current_input s cpu) cpu frame).1
      → Step s t

-- The states reached from `init_global` over `cpu_count` CPUs.
pub data Reach (top frame : ℕ → ℕ) (cpu_count : ℕ) : Sched → Type 0 where
  start : Reach top frame cpu_count (init_global top frame cpu_count boot)
  later : {s t : Sched} → Reach top frame cpu_count s → Step s t → Reach top frame cpu_count t

pub init-IsValid :
    (top frame : ℕ → ℕ) (cpu_count : ℕ) → IsValid (init_global top frame cpu_count boot)
unfolding init_global
init-IsValid top frame cpu_count =
    IsValid-Between 0 (init_global top frame cpu_count boot)
      (record {
        current_running = λ c i n h. cc;
        current_known = λ i h. cc;
        deferred_running = λ c i h. cc;
        current_alone = λ c d i p q. cc;
        deferred_alone = λ c d i p q. cc;
        apart = λ c d i p q. cc;
        user_tasks = λ i h. absurd (h refl);
      })
      (λ i h. cc)

init_cpu-IsValid : (s : Sched) (cpu : ℕ) → IsValid s → IsValid (init_cpu s cpu)
unfolding init_cpu
init_cpu-IsValid s cpu v =
    IsValid-Between cpu (init_cpu s cpu)
      (record {
        current_running = λ c i n h. ground (arith, b.current_running c i);
        current_known = λ i h. ground arith;
        deferred_running = λ c i h. ground (arith, b.deferred_running c i);
        current_alone = λ x y i u w. ground (arith, b.current_alone x y i);
        deferred_alone = λ x y i u w. ground (arith, b.deferred_alone x y i);
        apart = λ x y i u w. ground (arith, b.apart x y i);
        user_tasks = b.user_tasks;
      })
      (λ i h. ground arith)
  where
    b : Between cpu s
    b = v.at cpu

Step-IsValid : {s t : Sched} → Step s t → IsValid s → IsValid t
Step-IsValid {s} (starts cpu e) v = subst IsValid (sym e) (init_cpu-IsValid s cpu v)
Step-IsValid {s} (spawns top frame e) v = subst IsValid (sym e) (fill_slot-IsValid s top frame v)
Step-IsValid {s} (timer cpu frame now e) v =
    subst IsValid (sym e)
      (schedule-IsValid (wake_sleepers s now) cpu frame (wake_sleepers-IsValid s now v))
Step-IsValid {s} (key e) v = subst IsValid (sym e) (wake_input_waiters-IsValid s v)
Step-IsValid {s} (yields cpu frame e) v = subst IsValid (sym e) (schedule-IsValid s cpu frame v)
Step-IsValid {s} (exits cpu frame on e) v =
    subst IsValid (sym e)
      (schedule-Between (mark_current_dead s cpu) cpu frame on (mark_current_dead-Between s cpu v))
Step-IsValid {s} (sleeps cpu frame tick on e) v = subst IsValid (sym e) (
    schedule-Between (block_current_until s cpu tick) cpu frame on
      (block_current_until-Between s cpu tick v))
Step-IsValid {s} (waits cpu frame on e) v = subst IsValid (sym e) (
    schedule-Between (block_current_input s cpu) cpu frame on (block_current_input-Between s cpu v))

Reach-IsValid :
    {top frame : ℕ → ℕ} {cpu_count : ℕ} {s : Sched} → Reach top frame cpu_count s → IsValid s
Reach-IsValid {top} {frame} {cpu_count} start = init-IsValid top frame cpu_count
Reach-IsValid (later r st) = Step-IsValid st (Reach-IsValid r)

-- In every state reached by such steps, a task of the table that is current on a CPU is Running,
-- is current on no other CPU, and is deferred by none.
pub Reach-exclusive :
    {top frame : ℕ → ℕ} {cpu_count : ℕ} {s : Sched} (c d i : ℕ)
    → Reach top frame cpu_count s
    → (s.percpu c).current ≡ slot i
    → ((s.tasks i).state ≡ running)
      × ((c ≡ d) ⊎ ((s.percpu d).current ≢ slot i))
      × ((s.percpu d).deferred ≢ slot i)
Reach-exclusive {s = s} c d i r h = (v.runs c i h, alone, b.apart c d i h)
  where
    v : IsValid s
    v = Reach-IsValid r

    b : Between c s
    b = v.at c

    alone : (c ≡ d) ⊎ ((s.percpu d).current ≢ slot i)
    alone = elim (Bool-cases (c == d)) [
      | inl e ↦ inl (ground arith)
      | inr ne ↦ inr (λ k. ground (arith, b.current_alone c d i h k))
    ]
