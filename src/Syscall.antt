-- ===== src/Syscall.antt =====
-- src/syscall.rs: the system calls and their dispatch. A call runs as one step; addresses that the
-- kernel takes from a program are read and written through the page tables.
pub mod Ranges
pub mod Write
pub mod Mmap
pub mod Screen
pub mod Events
pub mod Spawn
pub mod Dispatch
mod Tests
use pinx_kernel.Prelude.{
  ℕ, zero, suc, ◌+◌, ◌-◌, ◌*◌, ◌/◌, ◌^◌, Bool, true, false, not, ◌&&◌, ◌||◌, ◌==◌, ltb, leb, Option,
  none, some, if◌then◌else◌, List, [], ◌∷◌, ◌++◌, length, bit_and, add64, sub64, mul64, not64,
  u64_max,
}
use pinx_kernel.Prelude.Run.{Run, panic, ret, ◌>>=◌}
use pinx_kernel.Prelude.Bytes.{to_le}
use pinx_kernel.Pmm.{page_size}
use pinx_kernel.Vmm.{Vmm, no_phys, vmm_virt_to_phys, vmm_map_user_mmio}
use pinx_kernel.Keyboard.{Keyboard, input, has_input, key_none}
use pinx_kernel.Heap.{Heap}
use pinx_kernel.Scheduler.{Sched}
use pinx_kernel.Scheduler.Ops.{
  mark_current_dead, block_current_until, block_current_input, schedule,
}
use pinx_kernel.User.{Memory, add_page}
use pinx_kernel.User.Spawn.{Machine, Programs, spawn_program}

abbrev pub user_address_max : ℕ
user_address_max = 0x0000_8000_0000_0000

abbrev pub einval : ℕ
einval = u64_max

-- The statics that system calls reach: memory, NEXT_STACK, MMAP_NEXT, FB_MAPPED, the keyboard, the
-- heap, the scheduler, and the bytes given to `terminal::putc` so far.
pub record Kernel : Type 0 where
  pub memory : Memory
  pub next_stack : ℕ
  pub mmap_next : ℕ
  pub fb_mapped : Bool
  pub keyboard : Keyboard
  pub heap : Heap
  pub sched : Sched
  pub console : List ℕ

-- A byte at a virtual address; an address that does not resolve faults.
unfoldable pub load : Memory → ℕ → Run ℕ
load m address =
    let physical = vmm_virt_to_phys m.vmm address in
    if physical == no_phys then panic else ret (m.bytes physical)

-- Bytes written from a virtual address on.
unfoldable pub store : Memory → ℕ → List ℕ → Run Memory
store m address [] = ret m
store m address (b ∷ bs) =
    let physical = vmm_virt_to_phys m.vmm address in
    let m' = record m { bytes = λ a. if physical == a then b else m.bytes a } in
    let rest = store m' (address + 1) bs in if physical == no_phys then panic else rest

-- The loop of `user_range_valid` over the pages left, from `page` on.
unfoldable pub check_pages : Vmm → ℕ → ℕ → Bool
check_pages s zero page = true
check_pages s (suc left) page =
    let rest = check_pages s left (page + page_size) in
    if vmm_virt_to_phys s page == no_phys then false else rest

-- `user_range_valid`; the loop has one round for each page below the end.
unfoldable pub user_range_valid : Vmm → (address length : ℕ) → Bool
unfolding check_pages
user_range_valid s address length =
    let end = address + length in
    let page = bit_and address (not64 (page_size - 1)) in
    if leb (2 ^ 64) end
    then false
    else if address == 0 || ltb user_address_max end
    then false
    else check_pages s ((end - page + (page_size - 1)) / page_size) page

-- The loop of `sys_write` over the bytes left, from `written` on.
unfoldable pub put_bytes : ℕ → Kernel → (buffer written : ℕ) → Run Kernel
unfolding load
put_bytes zero k buffer written = ret k
put_bytes (suc left) k buffer written = do
  byte ← load k.memory (buffer + written)
  put_bytes left (record k { console = k.console ++ (byte ∷ []) }) buffer (written + 1)

unfoldable pub sys_write : Kernel → (fd buffer length : ℕ) → Run (ℕ × Kernel)
unfolding put_bytes user_range_valid
sys_write k fd buffer length =
    if not (fd == 1) && not (fd == 2)
    then ret (einval, k)
    else if length == 0
    then ret (0, k)
    else if not (user_range_valid k.memory.vmm buffer length)
    then ret (einval, k)
    else do k' ← put_bytes length k buffer 0; ret (length, k')

abbrev pub mmap_base : ℕ
mmap_base = 0x0000_6000_0000_0000

-- The loop of `sys_mmap` over the pages left, from `page` on; `false` when no frame is left.
unfoldable pub mmap_pages : ℕ → Memory → (base page : ℕ) → Run (Bool × Memory)
unfolding add_page
mmap_pages zero m base page = ret (true, m)
mmap_pages (suc left) m base page = do
  (done, m') ← add_page m (base + page * page_size)
  if done then mmap_pages left m' base (page + 1) else ret (false, m')

unfoldable pub sys_mmap : Kernel → ℕ → Run (ℕ × Kernel)
unfolding mmap_pages
sys_mmap k size =
    let pages = (size + page_size - 1) / page_size in
    let base = k.mmap_next in
    let end = base + pages * page_size in
    if size == 0 || ltb (2 ^ 40) size
    then ret (einval, k)
    else if leb (2 ^ 64) end || ltb user_address_max end
    then ret (einval, k)
    else do
      (done, m) ← mmap_pages pages k.memory base 0
      ret (if done then base else einval, record k { mmap_next = end; memory = m })
