-- ===== src/Scheduler.antt =====
-- src/scheduler.rs: the task table, the per-CPU pointers and the operations on them. Each
-- operation runs under RUNQ with interrupts off, so it is one step; the CPU that runs it is an
-- argument.
pub mod Ops
pub mod Invariant
pub mod Switch
pub mod Resume
pub mod Wake
pub mod System
pub mod Chosen
pub mod Race
pub mod Sleep
pub mod Spawn
mod Tests
use pinx_kernel.Prelude.{
  ℕ, zero, suc, ◌+◌, Bool, true, false, not, ◌&&◌, ◌||◌, ◌==◌, Option, none, some, if◌then◌else◌,
  update,
}

abbrev pub max_tasks : ℕ
max_tasks = 64

pub data TaskState : Type 0 where
  unused ready running blocked dead : TaskState

pub data TaskKind : Type 0 where
  user idle : TaskKind

-- `Task`. `frame` and `kstack` are addresses.
pub record Task : Type 0 where
  pub state : TaskState
  pub kind : TaskKind
  pub cpu : ℕ
  pub frame : ℕ
  pub kstack : ℕ
  pub wake_tick : ℕ
  pub wait_input : Bool

abbrev pub empty_task : Task
empty_task = record {
  state = unused;
  kind = idle;
  cpu = 0;
  frame = 0;
  kstack = 0;
  wake_tick = 0;
  wait_input = false;
}

-- A `*mut Task`: null, a slot of TASKS, or the idle task of a CPU.
pub data TaskPtr : Type 0 where
  null : TaskPtr
  slot : ℕ → TaskPtr
  idle_slot : ℕ → TaskPtr

-- `PerCpu`.
pub record PerCpu : Type 0 where
  pub current : TaskPtr
  pub deferred : TaskPtr

-- INITIALIZED, TASKS, IDLE and PERCPU, and the `rsp0` that `gdt::set_kernel_stack` gave each CPU.
pub record Sched : Type 0 where
  pub initialized : Bool
  pub tasks : ℕ → Task
  pub idles : ℕ → Task
  pub percpu : ℕ → PerCpu
  pub kernel_stack : ℕ → ℕ

abbrev pub state_eq : TaskState → TaskState → Bool
state_eq unused unused = true
state_eq ready ready = true
state_eq running running = true
state_eq blocked blocked = true
state_eq dead dead = true
state_eq _ _ = false

abbrev pub is_user : TaskKind → Bool
is_user user = true
is_user idle = false

abbrev pub ptr_eq : TaskPtr → TaskPtr → Bool
ptr_eq null null = true
ptr_eq (slot i) (slot j) = i == j
ptr_eq (idle_slot c) (idle_slot d) = c == d
ptr_eq _ _ = false

abbrev pub is_null : TaskPtr → Bool
is_null null = true
is_null _ = false

-- `(*p).field` and `(*p).field = v`; the code dereferences no null pointer.
abbrev pub deref : Sched → TaskPtr → Task
deref s null = empty_task
deref s (slot i) = s.tasks i
deref s (idle_slot c) = s.idles c

abbrev pub modify : Sched → TaskPtr → (Task → Task) → Sched
modify s null f = s
modify s (slot i) f = record s { tasks = update s.tasks i (f (s.tasks i)) }
modify s (idle_slot c) f = record s { idles = update s.idles c (f (s.idles c)) }

-- The loop of `pick` from `i` on.
unfoldable pub pick_from : Sched → TaskPtr → ℕ → ℕ → TaskPtr
pick_from s cur zero i = null
pick_from s cur (suc left) i =
    let rest = pick_from s cur left (i + 1) in
    if state_eq (s.tasks i).state ready && not (ptr_eq (slot i) cur) then slot i else rest

unfoldable pub pick : Sched → TaskPtr → TaskPtr
unfolding pick_from
pick s cur = pick_from s cur max_tasks 0
