-- ===== src/Heap/Tests.antt =====
-- Runs of the kernel heap of src/mm.rs, and the theorems about it at concrete states.
use pinx_kernel.Prelude.{ℕ, ◌+◌, ◌≡◌, refl, arith, true, false, none, some, List, [], ◌∷◌, update}
use mathlib.Core.Option
use pinx_kernel.Heap.{Heap, kmalloc, kfree, new_heap, kheap_start}
use pinx_kernel.Heap.Tiling.{Block, span, allocations, IsHeap}
use pinx_kernel.Heap.Alloc.{Allocated, kmalloc-Allocated}
use pinx_kernel.Heap.Free.{Freed, kfree-Freed}
use pinx_kernel.Heap.Live.{Given, kmalloc-Given, kfree-kmalloc}

-- A heap of two pages.
abbrev fresh : Heap
unfolding new_heap
fresh = new_heap 2 (λ _. record { size = 0; next = 0; free = 0; reserved = 0 })

abbrev one_block : List Block
one_block = record { size = 8160; free = true } ∷ []

fresh-IsHeap : IsHeap fresh one_block
unfolding fresh
fresh-IsHeap = record {
  tiles = (refl, refl, refl, refl);
  not_null = omega arith;
  start_aligned = refl;
  aligned = (refl, tt);
  merged = (refl, tt);
  fits = omega arith;
}

-- The heap after one allocation of 100 bytes, rounded up to 112.
abbrev used : Heap
used = record {
  head = kheap_start;
  blocks = λ a.
      update
        (update fresh.blocks (kheap_start + 144)
          (record { size = 8016; next = 0; free = 1; reserved = 0 }))
        kheap_start (record { size = 112; next = kheap_start + 144; free = 0; reserved = 0 }) a;
}

abbrev two_blocks : List Block
two_blocks = record { size = 112; free = false } ∷ record { size = 8016; free = true } ∷ []

used-IsHeap : IsHeap used two_blocks
unfolding fresh
used-IsHeap = record {
  tiles = (refl, refl, refl, (refl, refl, refl, refl));
  not_null = omega arith;
  start_aligned = refl;
  aligned = (refl, (refl, tt));
  merged = (refl, (refl, tt));
  fits = omega arith;
}

first_payload : Option.map (λ (r : ℕ × Heap). r.0) (kmalloc 9 fresh 100) ≡ some (kheap_start + 32)
unfolding kmalloc fresh
first_payload = refl

second_payload : Option.map (λ (r : ℕ × Heap). r.0) (kmalloc 9 used 1) ≡ some (kheap_start + 176)
unfolding kmalloc fresh
second_payload = refl

too_large : kmalloc 9 used 9000 ≡ some (0, used)
unfolding kmalloc fresh
too_large = refl

kmalloc-Allocated_example : Allocated used two_blocks 100 (kmalloc 9 used 100)
kmalloc-Allocated_example = kmalloc-Allocated 9 used two_blocks 100 used-IsHeap (omega arith)

kfree-Freed_example : Freed used two_blocks [] [] (kfree 9 used (kheap_start + 32))
kfree-Freed_example =
    kfree-Freed 9 used two_blocks [] [] (kheap_start + 32) 112 used-IsHeap refl (omega arith)

-- The heap after the second allocation.
abbrev fuller : Heap
unfolding kmalloc fresh
fuller = elim (kmalloc 300 used 1) [ none ↦ used | some (p, h) ↦ h ]

second : kmalloc 300 used 1 ≡ some (kheap_start + 176, fuller)
unfolding kmalloc fresh fuller
second = refl

kmalloc-Given_example : Given used fuller two_blocks 1 (kheap_start + 176)
kmalloc-Given_example =
    kmalloc-Given 300 used fuller two_blocks 1 (kheap_start + 176) used-IsHeap (omega arith) second
      (λ e. omega (arith, e))

kfree-kmalloc_example :
    (heap'' : Heap) × (bs'' : List Block) × (kfree 300 fuller (kheap_start + 176) ≡ some heap'')
    × IsHeap heap'' bs''
    × (allocations kheap_start bs'' ≡ (kheap_start + 32, 112) ∷ [])
    × (span bs'' ≡ 8192)
kfree-kmalloc_example =
    kfree-kmalloc 300 used fuller two_blocks 1 (kheap_start + 176) used-IsHeap (omega arith) second
      (λ e. omega (arith, e))
