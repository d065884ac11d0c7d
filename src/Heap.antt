-- ===== src/Heap.antt =====
-- src/mm.rs: the kernel heap. Blocks lie one after another from KHEAP_START, each a header of 32
-- bytes and its payload; the model keeps the headers, by address.
pub mod Tiling
pub mod Carve
pub mod Alloc
pub mod Merge
pub mod Free
pub mod Live
mod Tests
use pinx_kernel.Prelude.{
  ℕ, zero, suc, ◌+◌, ◌-◌, ◌*◌, Bool, not, ◌&&◌, ◌||◌, ◌==◌, ltb, leb, Option, none, some,
  if◌then◌else◌, update, bit_and, add64, sub64, not64, u64_max,
}

-- `HeapBlock`. `next` is an address, 0 for null.
pub record HeapBlock : Type 0 where
  pub size : ℕ
  pub next : ℕ
  pub free : ℕ
  pub reserved : ℕ

abbrev pub heap_block_size : ℕ
heap_block_size = 32

abbrev pub heap_align : ℕ
heap_align = 16

-- HEAP_HEAD and the headers.
pub record Heap : Type 0 where
  pub head : ℕ
  pub blocks : ℕ → HeapBlock

-- The split of a block that is larger than needed.
unfoldable pub split_block : (ℕ → HeapBlock) → ℕ → ℕ → ℕ → HeapBlock
split_block blocks current size =
    let split = current + heap_block_size + size in
    let tail : HeapBlock = record {
      size = sub64 (sub64 (blocks current).size size) heap_block_size;
      next = (blocks current).next;
      free = 1;
      reserved = 0;
    } in
    update (update blocks split tail) current
      (record (blocks current) { size = size; next = split })

-- What the loop of `kmalloc` does to the block that it takes.
unfoldable pub take_block : (ℕ → HeapBlock) → ℕ → ℕ → ℕ → HeapBlock
unfolding split_block
take_block blocks current size =
    let cut =
      if ltb (add64 size heap_block_size) (blocks current).size
      then split_block blocks current size
      else blocks in
    update cut current (record (cut current) { free = 0 })

-- The loop of `kmalloc` from `current`, at most `fuel` rounds; `none` when they do not suffice.
unfoldable pub find_block : ℕ → (ℕ → HeapBlock) → ℕ → ℕ → Option (ℕ × (ℕ → HeapBlock))
find_block zero blocks size current = none
find_block (suc fuel) blocks size current =
    let rest = find_block fuel blocks size (blocks current).next in
    if current == 0
    then some (0, blocks)
    else if not ((blocks current).free == 0) && leb size (blocks current).size
    then some (current + heap_block_size, take_block blocks current size)
    else rest

-- The size rounded up, so that every split point stays on a 16-byte boundary.
unfoldable pub round_up : ℕ → ℕ
round_up size = bit_and (add64 size (heap_align - 1)) (not64 (heap_align - 1))

-- `kmalloc`: the payload's address, 0 for null. `none` also stands for its panic.
unfoldable pub kmalloc : ℕ → Heap → ℕ → Option (ℕ × Heap)
unfolding round_up find_block take_block
kmalloc fuel heap size =
    if size == 0 || ltb (u64_max - (heap_align - 1)) size
    then some (0, heap)
    else if heap.head == 0
    then none
    else elim (find_block fuel heap.blocks (round_up size) heap.head) [
      | none ↦ none
      | some (result, blocks) ↦ some (result, record heap { blocks = blocks })
    ]

-- The merge of a block with the next one.
unfoldable pub absorb : (ℕ → HeapBlock) → ℕ → ℕ → HeapBlock
absorb blocks current =
    let next = blocks (blocks current).next in
    update blocks current (record (blocks current) {
      size = add64 (blocks current).size (add64 heap_block_size next.size);
      next = next.next;
    })

-- The loop of `coalesce` from `current`.
unfoldable pub coalesce_from : ℕ → (ℕ → HeapBlock) → ℕ → Option (ℕ → HeapBlock)
coalesce_from zero blocks current = none
coalesce_from (suc fuel) blocks current =
    let next = (blocks current).next in
    let again = coalesce_from fuel (absorb blocks current) current in
    let rest = coalesce_from fuel blocks next in
    if current == 0
    then some blocks
    else if next == 0
    then some blocks
    else if not ((blocks current).free == 0)
        && not ((blocks next).free == 0)
        && (current + heap_block_size + (blocks current).size == next)
    then again
    else rest

unfoldable pub coalesce : ℕ → Heap → Option Heap
unfolding coalesce_from absorb
coalesce fuel heap = elim (coalesce_from fuel heap.blocks heap.head) [
  | none ↦ none
  | some blocks ↦ some (record heap { blocks = blocks })
]

unfoldable pub kfree : ℕ → Heap → ℕ → Option Heap
kfree fuel heap ptr =
    if ptr == 0
    then some heap
    else let block = sub64 ptr heap_block_size in
      if not ((heap.blocks block).free == 0)
      then some heap
      else coalesce fuel (record heap {
        blocks = update heap.blocks block (record (heap.blocks block) { free = 1 });
      })

abbrev pub kheap_start : ℕ
kheap_start = 0xFFFF_9000_0000_0000

-- What `kheap_init` leaves at KHEAP_START once it has mapped `mapped` pages there.
unfoldable pub new_heap : ℕ → (ℕ → HeapBlock) → Heap
new_heap mapped blocks = record {
  head = kheap_start;
  blocks =
      update blocks kheap_start
        (record { size = mapped * 4096 - heap_block_size; next = 0; free = 1; reserved = 0 });
}
