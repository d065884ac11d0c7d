-- ===== src/Syscall/Spawn.antt =====
-- `sys_spawn` of src/syscall.rs.
use pinx_kernel.Prelude.{
  ℕ, zero, suc, ◌+◌, not, ◌||◌, ◌==◌, ltb, none, some, if◌then◌else◌, List, [], ◌∷◌, length,
}
use pinx_kernel.Prelude.Run.{Run, ret, ◌>>=◌}
use pinx_kernel.User.{Memory}
use pinx_kernel.User.Spawn.{Machine, Programs, spawn_program}
use pinx_kernel.Syscall.{Kernel, einval, user_range_valid, load}

-- The path of `sys_spawn`, read from the caller's memory.
unfoldable pub load_bytes : ℕ → Memory → ℕ → Run (List ℕ)
unfolding load
load_bytes zero m address = ret []
load_bytes (suc left) m address = do
  b ← load m address
  bs ← load_bytes left m (address + 1)
  ret (b ∷ bs)

abbrev pub programs : Kernel → Programs
programs k = record { memory = k.memory; next_stack = k.next_stack; heap = k.heap; sched = k.sched }

unfoldable pub sys_spawn : Machine → Kernel → (path length : ℕ) → Run (ℕ × Kernel)
unfolding load_bytes user_range_valid spawn_program
sys_spawn machine k path length =
    if length == 0 || ltb 256 length || not (user_range_valid k.memory.vmm path length)
    then ret (einval, k)
    else do
      name ← load_bytes length k.memory path
      (pid, p) ← spawn_program machine (programs k) name
      ret (
        elim pid [ none ↦ einval | some i ↦ i ],
        record k { memory = p.memory; next_stack = p.next_stack; heap = p.heap; sched = p.sched },
      )
