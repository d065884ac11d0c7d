-- ===== src/Vmm/Tests.antt =====
-- Runs of the page tables of src/mm.rs, and the theorem about them at a concrete state.
use pinx_kernel.Prelude.{ℕ, ◌+◌, ◌/◌, ◌≡◌, refl, ap, arith, none, some, ◌==◌, if◌then◌else◌, update}
use pinx_kernel.Pmm.{alloc_page, scan, find_bit, claim}
use pinx_kernel.Pmm.Words.{used}
use pinx_kernel.Prelude.Bits.{bit}
use pinx_kernel.Vmm.{Vmm, vmm_map_page_flags, descend, vmm_virt_to_phys, vmm_unmap_page, no_phys}
use pinx_kernel.Vmm.Descend.{IsTables}
use pinx_kernel.Vmm.Map.{Maps, vmm_map_page_flags-Maps}

-- An empty PML4 in frame 1; frames 2 to 63 are free.
abbrev empty_tables : Vmm
empty_tables = record {
  pml4 = some 0x1000;
  tables = λ _ _. 0;
  pmm = record { bitmap = λ i. if i == 0 then 3 else 0; entries = 1; hint = 0 };
}

abbrev root_level : ℕ → ℕ
root_level = update (λ _. 0) 0x1000 4

empty-IsTables : IsTables empty_tables root_level
unfolding used bit
empty-IsTables = record {
  frames_valid = record { words = λ i. ground arith; hint_in = omega arith };
  small = omega arith;
  taken = λ t l.
      let here : t ≡ 0x1000 = ground arith in
      ap (λ x. used (λ i. if i == 0 then 3 else 0) (x / 4096)) here;
  child = λ t i l p h. cc;
}

-- The first page of the kernel heap.
abbrev heap_page : ℕ
heap_page = 0xFFFF_9000_0000_0000

abbrev after_map : Vmm
unfolding vmm_map_page_flags descend alloc_page scan find_bit claim
after_map = elim (vmm_map_page_flags empty_tables heap_page 0x20000 3) [
  | none ↦ empty_tables
  | some t ↦ t
]

map_returns : vmm_map_page_flags empty_tables heap_page 0x20000 3 ≡ some after_map
unfolding vmm_map_page_flags descend alloc_page scan find_bit claim after_map
map_returns = refl

resolved : vmm_virt_to_phys after_map (heap_page + 5) ≡ 0x20005
unfolding vmm_map_page_flags descend alloc_page scan find_bit claim after_map vmm_virt_to_phys
resolved = refl

-- A page that was mapped and unmapped again does not resolve.
unmapped :
    elim (vmm_unmap_page after_map heap_page) [ none ↦ 0 | some t ↦ vmm_virt_to_phys t heap_page ]
    ≡ no_phys
unfolding vmm_map_page_flags descend alloc_page scan find_bit claim after_map vmm_virt_to_phys
    vmm_unmap_page
unmapped = refl

vmm_map_page_flags-Maps_example : Maps after_map 0x1000 heap_page 0x20000
vmm_map_page_flags-Maps_example =
    vmm_map_page_flags-Maps empty_tables after_map root_level 0x1000 heap_page 0x20000 3
      empty-IsTables refl refl (omega arith) refl map_returns
