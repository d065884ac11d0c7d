-- ===== src/Scheduler/Ops.antt =====
-- The operations of src/scheduler.rs.
use pinx_kernel.Prelude.{
  ℕ, zero, suc, ◌+◌, true, false, not, ◌&&◌, ◌==◌, leb, Option, none, some, if◌then◌else◌, update,
}
use pinx_kernel.Scheduler.{
  Sched, Task, TaskPtr, unused, ready, running, blocked, dead, user, idle, null, idle_slot,
  state_eq, is_user, ptr_eq, is_null, deref, modify, pick, empty_task, max_tasks,
}

-- `init_global` for one CPU: its idle task, given the stack top and the frame built on it.
abbrev pub idle_task : Task → ℕ → ℕ → ℕ → Task
idle_task task cpu top frame = record task {
  state = unused;
  kind = idle;
  cpu = cpu;
  kstack = top;
  frame = frame;
}

-- The loop of `init_global` over the CPUs below a bound.
unfoldable pub init_idles : (top frame : ℕ → ℕ) → ℕ → (ℕ → Task) → ℕ → Task
init_idles top frame zero idles = idles
init_idles top frame (suc cpu) idles =
    let before = init_idles top frame cpu idles in
    update before cpu (idle_task (before cpu) cpu (top cpu) (frame cpu))

-- `init_global`, with the stack top and idle frame of each CPU.
unfoldable pub init_global : (top frame : ℕ → ℕ) → ℕ → Sched → Sched
unfolding init_idles
init_global top frame cpu_count s = record s {
  tasks = λ _. empty_task;
  idles = init_idles top frame cpu_count s.idles;
  initialized = true;
}

unfoldable pub init_cpu : Sched → ℕ → Sched
init_cpu s cpu = record s {
  idles = update s.idles cpu (record (s.idles cpu) { state = running });
  percpu = update s.percpu cpu (record { current = idle_slot cpu; deferred = null });
  kernel_stack = update s.kernel_stack cpu (s.idles cpu).kstack;
}

-- The loop of `spawn_user` from slot `i` on: the first unused slot.
unfoldable pub unused_from : Sched → ℕ → ℕ → Option ℕ
unused_from s zero i = none
unused_from s (suc left) i =
    let rest = unused_from s left (i + 1) in
    if not (state_eq (s.tasks i).state unused) then rest else some i

-- The part of `spawn_user` under RUNQ, after the kernel stack is allocated: `top` is its top, and
-- `frame` what `build_user_frame` built there.
unfoldable pub fill_slot : Sched → ℕ → ℕ → Option ℕ × Sched
unfolding unused_from
fill_slot s top frame = elim (unused_from s max_tasks 0) [
  | none ↦ (none, s)
  | some i ↦ (
    some i,
    record s {
      tasks = update s.tasks i (record {
        state = ready;
        kind = user;
        cpu = 0;
        kstack = top;
        frame = frame;
        wake_tick = 0;
        wait_input = false;
      });
    },
  )
]

unfoldable pub mark_current_dead : Sched → ℕ → Sched
mark_current_dead s cpu = modify s (s.percpu cpu).current (λ t. record t { state = dead })

unfoldable pub block_current_until : Sched → ℕ → ℕ → Sched
block_current_until s cpu wake_tick =
    modify s (s.percpu cpu).current
      (λ t. record t { state = blocked; wake_tick = wake_tick; wait_input = false })

unfoldable pub block_current_input : Sched → ℕ → Sched
block_current_input s cpu =
    modify s (s.percpu cpu).current
      (λ t. record t { state = blocked; wake_tick = 0; wait_input = true })

-- The bodies of the two wake loops, on one task.
unfoldable pub wake_sleeper : ℕ → Task → Task
wake_sleeper now t =
    if state_eq t.state blocked && not t.wait_input && not (t.wake_tick == 0) && leb t.wake_tick now
    then record t { state = ready; wake_tick = 0 }
    else t

unfoldable pub wake_waiter : Task → Task
wake_waiter t =
    if state_eq t.state blocked && t.wait_input
    then record t { state = ready; wait_input = false }
    else t

-- A loop over TASKS, from slot `i` on.
unfoldable pub for_tasks : (Task → Task) → ℕ → ℕ → (ℕ → Task) → ℕ → Task
for_tasks f zero i tasks = tasks
for_tasks f (suc left) i tasks = for_tasks f left (i + 1) (update tasks i (f (tasks i)))

unfoldable pub wake_sleepers : Sched → ℕ → Sched
unfolding for_tasks wake_sleeper
wake_sleepers s now = record s { tasks = for_tasks (wake_sleeper now) max_tasks 0 s.tasks }

unfoldable pub wake_input_waiters : Sched → Sched
unfolding for_tasks wake_waiter
wake_input_waiters s = record s { tasks = for_tasks wake_waiter max_tasks 0 s.tasks }

-- The first part of `schedule`: publish the deferred task.
unfoldable pub publish : Sched → ℕ → Sched
publish s cpu =
    let per = s.percpu cpu in
    if not (is_null per.deferred)
    then record (modify s per.deferred (λ t. record t { state = ready })) {
      percpu = update s.percpu cpu (record per { deferred = null });
    }
    else s

-- `(*cur).frame = frame`.
unfoldable pub save_frame : Sched → ℕ → ℕ → Sched
save_frame s cpu frame = modify s (s.percpu cpu).current (λ t. record t { frame = frame })

-- The task to resume; `none` is the early return of the interrupted frame.
unfoldable pub choose : Sched → ℕ → Option TaskPtr
choose s cpu =
    let cur = (s.percpu cpu).current in
    let next = pick s cur in
    if is_null next
    then if not (is_null cur) && is_user (deref s cur).kind && state_eq (deref s cur).state running
      then some cur
      else if not (is_null cur) && not (is_user (deref s cur).kind)
      then none
      else some (idle_slot cpu)
    else some next

-- The last part of `schedule`: make `next` this CPU's current task.
unfoldable pub switch : Sched → ℕ → TaskPtr → Sched
switch s cpu next =
    let cur = (s.percpu cpu).current in
    let moved = if ptr_eq next cur then s else record s {
      percpu = update s.percpu cpu (record {
        current = next;
        deferred =
            if not (is_null cur)
              && is_user (deref s cur).kind
              && state_eq (deref s cur).state running
            then cur
            else (s.percpu cpu).deferred;
      });
      kernel_stack = update s.kernel_stack cpu (deref s next).kstack;
    } in
    modify moved next (λ t. record t { state = running; cpu = cpu })

-- The end of `schedule`: the frame to resume, and the state.
unfoldable pub resume : Sched → ℕ → ℕ → ℕ × Sched
resume s cpu frame = elim (choose s cpu) [
  | none ↦ (frame, s)
  | some next ↦ ((deref s next).frame, switch s cpu next)
]

unfoldable pub schedule : Sched → ℕ → ℕ → ℕ × Sched
schedule s cpu frame =
    if not s.initialized
    then (frame, s)
    else resume (save_frame (publish s cpu) cpu frame) cpu frame
