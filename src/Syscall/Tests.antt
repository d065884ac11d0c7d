-- ===== src/Syscall/Tests.antt =====
-- Runs of the system calls of src/syscall.rs, and the theorems about them at concrete states.
use pinx_kernel.Prelude.{
  ℕ, ◌+◌, ◌≡◌, ◌↔◌, refl, arith, true, false, ◌==◌, ◌&&◌, if◌then◌else◌, some, [], ◌∷◌, All,
}
use pinx_kernel.Prelude.Run.{Run, panic, out_of_fuel, ret}
use pinx_kernel.Pmm.{alloc_page, scan, find_bit, claim}
use pinx_kernel.Vmm.{Vmm, vmm_virt_to_phys, vmm_map_user_page, vmm_map_page_flags, descend}
use pinx_kernel.Heap.{new_heap}
use pinx_kernel.Scheduler.System.{boot}
use pinx_kernel.User.{add_page}
use pinx_kernel.Syscall.{
  Kernel, user_range_valid, sys_write, sys_mmap, mmap_base, user_address_max, mmap_pages,
  check_pages,
}
use pinx_kernel.Syscall.Ranges.{IsMapped, user_range_valid_iff}
use pinx_kernel.Syscall.Write.{written, sys_write-written}
use pinx_kernel.Syscall.Mmap.{History, start, hands, IsRegion, Apart, History-Apart}

-- Four tables, in frames 1 to 4, that map the user page 0x400000 to frame 32; frames 5 to 63 but
-- that one are free.
abbrev tables : Vmm
tables = record {
  pml4 = some 0x1000;
  tables = λ t i.
      if t == 0x1000 && i == 0
      then 0x2007
      else if t == 0x2000 && i == 0
      then 0x3007
      else if t == 0x3000 && i == 2
      then 0x4007
      else if t == 0x4000 && i == 0
      then 0x20007
      else 0;
  pmm = record { bitmap = λ i. if i == 0 then 0x1_0000_001F else 0; entries = 1; hint = 0 };
}

abbrev kernel : Kernel
kernel = record {
  memory = record { vmm = tables; bytes = λ a. a };
  next_stack = 0x7FFF_0000_0000;
  mmap_next = mmap_base;
  fb_mapped = false;
  keyboard = record {
    buffer = λ _. 0;
    head = 0;
    tail = 0;
    shift_held = 0;
    ctrl_held = 0;
    alt_held = 0;
    caps_lock = 0;
    extended_prefix = 0;
  };
  heap = new_heap 2 (λ _. record { size = 0; next = 0; free = 0; reserved = 0 });
  sched = boot;
  console = [];
}

valid : user_range_valid tables 0x400FFE 2 ≡ true
unfolding user_range_valid check_pages vmm_virt_to_phys
valid = refl

-- The next page is not mapped.
beyond : user_range_valid tables 0x400FFE 3 ≡ false
unfolding user_range_valid check_pages vmm_virt_to_phys
beyond = refl

user_range_valid_iff_example :
    (user_range_valid tables 0x400FFE 2 ≡ true) ↔ IsMapped tables 0x400FFE 2
user_range_valid_iff_example = user_range_valid_iff tables 0x400FFE 2 (omega arith)

sys_write-written_example : sys_write kernel 1 0x400010 3 ≡ ret (written kernel 1 0x400010 3)
sys_write-written_example = sys_write-written kernel 1 0x400010 3

abbrev left_by : Run (ℕ × Kernel) → Kernel
left_by panic = kernel
left_by out_of_fuel = kernel
left_by (ret (v, k)) = k

abbrev once : Kernel
unfolding sys_mmap mmap_pages add_page vmm_map_user_page vmm_map_page_flags descend alloc_page scan
    find_bit claim
once = left_by (sys_mmap kernel 1)

first : sys_mmap kernel 1 ≡ ret (mmap_base, once)
unfolding sys_mmap mmap_pages add_page vmm_map_user_page vmm_map_page_flags descend alloc_page scan
    find_bit claim once
first = refl

abbrev twice : Kernel
unfolding sys_mmap mmap_pages add_page vmm_map_user_page vmm_map_page_flags descend alloc_page scan
    find_bit claim
twice = left_by (sys_mmap once 5000)

second : sys_mmap once 5000 ≡ ret (mmap_base + 4096, twice)
unfolding sys_mmap mmap_pages add_page vmm_map_user_page vmm_map_page_flags descend alloc_page scan
    find_bit claim twice
second = refl

two_calls : History kernel twice ((mmap_base + 4096, 5000) ∷ (mmap_base, 1) ∷ [])
two_calls =
    hands (mmap_base + 4096) 5000 (hands mmap_base 1 start first (λ e. omega (arith, e))) second
      (λ e. omega (arith, e))

History-Apart_example :
    All (IsRegion user_address_max) ((mmap_base + 4096, 5000) ∷ (mmap_base, 1) ∷ [])
    × Apart ((mmap_base + 4096, 5000) ∷ (mmap_base, 1) ∷ [])
History-Apart_example = History-Apart refl two_calls
