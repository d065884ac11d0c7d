-- ===== src/Pmm/Tests.antt =====
-- Runs of the physical memory manager of src/mm.rs, and the theorems about it at concrete states.
use pinx_kernel.Prelude.{
  ◌≡◌, ◌≢◌, refl, arith, Option, none, some, List, [], ◌∷◌, if◌then◌else◌, ◌==◌,
}
use pinx_kernel.Pmm.{Pmm, no_page, find_bit, scan, claim, alloc_page, free_page, set_bit, clear_bit}
use pinx_kernel.Pmm.Init.{Region, built, free_usable, free_range, reserve_range}
use pinx_kernel.Pmm.Alloc.{
  IsValid, Allocated, allocs, Distinct, alloc_page-Allocated, allocs-Distinct,
}
use pinx_kernel.Pmm.Free.{Freed, free_page-Freed, alloc-free_page}
use pinx_kernel.Pmm.Placed.{Placed}

-- Two words; frames 3 and 64 to 127 are free.
abbrev small : Pmm
small = record { bitmap = λ i. if i == 0 then 0xFFFF_FFFF_FFFF_FFF7 else 0; entries = 2; hint = 0 }

small-IsValid : IsValid small
small-IsValid = record { words = λ i. ground arith; hint_in = omega arith }

first_four : allocs 4 small ≡ 0x3000 ∷ 0x40000 ∷ 0x41000 ∷ 0x42000 ∷ []
unfolding alloc_page scan find_bit claim
first_four = refl

alloc_page-Allocated_example : Allocated small (alloc_page small)
alloc_page-Allocated_example = alloc_page-Allocated small small-IsValid

allocs-Distinct_example : Distinct (allocs 3 small)
allocs-Distinct_example = allocs-Distinct 3 small small-IsValid

free_page-Freed_example : Freed small 0x4000 (free_page small 0x4000)
free_page-Freed_example = free_page-Freed small 0x4000 small-IsValid

freed : Pmm
unfolding clear_bit
freed = record small { bitmap = clear_bit small.bitmap 4; hint = 0 }

alloc-free_page_example : (alloc_page freed).0 ≢ no_page
unfolding freed free_page
alloc-free_page_example = alloc-free_page small freed 0x4000 small-IsValid refl

-- A reserved megabyte, a null entry, and 128 frames of usable memory.
abbrev map_of_machine : List (Option Region)
map_of_machine =
    some (record { base = 0; length = 0x100000; type_ = 1 })
    ∷ none
    ∷ some (record { base = 0x100000; length = 0x80000; type_ = 0 })
    ∷ []

abbrev machine : Pmm
machine =
    built map_of_machine
      (record { highest_address = 0x180000; largest_base = 0x100000; largest_len = 0x80000 })

machine_first : (alloc_page machine).0 ≡ 0x100000
unfolding built alloc_page scan find_bit free_usable free_range reserve_range set_bit clear_bit
machine_first = refl
