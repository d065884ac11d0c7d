-- ===== src/User/Spawn.antt =====
-- Starting a program: `load_and_spawn` of src/user.rs, with `spawn_user` of src/scheduler.rs. The
-- file that the file system returns is an argument.
use pinx_kernel.Prelude.{
  ℕ, Bool, true, false, not, Option, none, some, if◌then◌else◌, List, [], ◌∷◌,
}
use pinx_kernel.Prelude.Run.{Run, panic, ret, ◌>>=◌}
use pinx_kernel.Scheduler.{Sched}
use pinx_kernel.Scheduler.Spawn.{spawn_user}
use pinx_kernel.Heap.{Heap}
use pinx_kernel.User.{Memory, find_header, load_elf, map_user_stack}

-- What starting a program changes: memory, NEXT_STACK, the heap and the tasks.
pub record Programs : Type 0 where
  pub memory : Memory
  pub next_stack : ℕ
  pub heap : Heap
  pub sched : Sched

-- The machine around it: the file system's answer for each path, `none` when there is no such file
-- or none is mounted; where `build_user_frame` puts the frame; and the rounds that `map_segment` and
-- `kmalloc` may take.
pub record Machine : Type 0 where
  pub read_file : List ℕ → Option (List ℕ)
  pub build_user_frame : (top entry user_stack : ℕ) → ℕ
  pub fuel : ℕ
  pub heap_fuel : ℕ

-- The end of `load_and_spawn`: a stack and a task for a program that is loaded. `panic` stands
-- for `spawn_user` running out of rounds too.
unfoldable pub start : Machine → Programs → ℕ → Run (Option ℕ × Programs)
unfolding map_user_stack spawn_user
start machine p entry = do
  (top, next_stack, m) ← map_user_stack p.memory p.next_stack
  elim (spawn_user machine.heap_fuel machine.build_user_frame p.heap p.sched entry top) [
    | none ↦ panic
    | some (pid, heap, s) ↦
        ret (pid, record { memory = m; next_stack = next_stack; heap = heap; sched = s })
  ]

unfoldable pub load_image :
    Machine → Programs → (image magic : List ℕ) → ℕ → Run (Option ℕ × Programs)
unfolding find_header load_elf start
load_image machine p image magic version = do
  found ← find_header image magic version
  if not found then ret (none, p) else (do
    (entry, m) ← load_elf machine.fuel p.memory image
    elim entry [
      | none ↦ ret (none, record p { memory = m })
      | some entry ↦ start machine (record p { memory = m }) entry
    ])

unfoldable pub load_and_spawn :
    Machine → Programs → (path magic : List ℕ) → ℕ → Run (Option ℕ × Programs)
unfolding load_image
load_and_spawn machine p path magic version = elim (machine.read_file path) [
  | none ↦ ret (none, p)
  | some image ↦ load_image machine p image magic version
]

abbrev pub program_magic : List ℕ
program_magic =
    b'P' ∷ b'I' ∷ b'N' ∷ b'X' ∷ b'-' ∷ b'6' ∷ b'4' ∷ b'-' ∷ b'P' ∷ b'R' ∷ b'O' ∷ b'G' ∷ []

abbrev pub program_version : ℕ
program_version = 1

abbrev pub init_magic : List ℕ
init_magic = b'P' ∷ b'I' ∷ b'N' ∷ b'X' ∷ b'-' ∷ b'6' ∷ b'4' ∷ b'-' ∷ b'I' ∷ b'N' ∷ b'I' ∷ b'T' ∷ []

abbrev pub init_version : ℕ
init_version = 1

unfoldable pub spawn_program : Machine → Programs → List ℕ → Run (Option ℕ × Programs)
unfolding load_and_spawn
spawn_program machine p path = load_and_spawn machine p path program_magic program_version

-- `try_start`: whether a task was made for /init.
unfoldable pub try_start : Machine → Programs → Run (Bool × Programs)
unfolding load_and_spawn
try_start machine p = do
  (pid, p') ← load_and_spawn machine p (b'i' ∷ b'n' ∷ b'i' ∷ b't' ∷ []) init_magic init_version
  elim pid [ none ↦ ret (false, p') | some i ↦ ret (true, p') ]
