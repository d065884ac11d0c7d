-- ===== src/Heap/Live.antt =====
-- The live allocations of the heap of src/mm.rs across `kmalloc` and `kfree`.
use pinx_kernel.Prelude.{
  ℕ, ◌+◌, ◌-◌, ◌*◌, ◌≤◌, ◌<◌, ◌≡◌, ◌≢◌, ◌⊎◌, refl, sym, ap, ◌∙◌, arith, Option, some, List, [], ◌∷◌,
  ◌++◌, length, All, inl, inr, Bool-cases,
}
use mathlib.Core.Path.{subst}
use pinx_kernel.Heap.{Heap, kmalloc, kfree}
use pinx_kernel.Heap.Tiling.{Block, span, Tiles, allocations, IsHeap, allocations-Held}
use pinx_kernel.Heap.Alloc.{Allocated, refused, full, allocated, kmalloc-Allocated}
use pinx_kernel.Heap.Free.{Freed, freed, kfree-Freed}

-- Fuel of one round for every 32 bytes of the heap is fuel for each of its blocks.
length-span : (bs : List Block) → 32 * length bs ≤ span bs
length-span [] = omega arith
length-span (b ∷ bs) = omega (arith, length-span bs)

-- Allocations in the order of addresses, each with room for its header before it.
Apart : ℕ → List (ℕ × ℕ) → Type 0
Apart low [] = Unit
Apart low ((ptr, bytes) ∷ rest) = (low + 32 ≤ ptr) × Apart (ptr + bytes) rest

Apart-relax : (low low' : ℕ) (xs : List (ℕ × ℕ)) → low' ≤ low → Apart low xs → Apart low' xs
unfolding Apart
Apart-relax low low' [] l h = tt
Apart-relax low low' ((ptr, bytes) ∷ rest) l h = (omega arith, h.1)

allocations-Apart : (start : ℕ) (bs : List Block) → Apart start (allocations start bs)
unfolding Apart
allocations-Apart start [] = tt
allocations-Apart start (b ∷ bs) = elim (Bool-cases b.free) [
  | inl free ↦ rw free (
      Apart-relax (start + 32 + b.size) start _ (omega arith)
        (allocations-Apart (start + 32 + b.size) bs))
  | inr live ↦ rw live (omega arith, allocations-Apart (start + 32 + b.size) bs)
]

-- No byte of `ptr .. ptr + bytes` belongs to the allocation.
abbrev pub Clear : ℕ → ℕ → ℕ × ℕ → Type 0
Clear ptr bytes (p, n) = (p + n ≤ ptr) ⊎ (ptr + bytes ≤ p)

Apart-Clear :
    (ptr bytes low : ℕ) (xs : List (ℕ × ℕ))
    → ptr + bytes ≤ low
    → Apart low xs
    → All (Clear ptr bytes) xs
unfolding Apart
Apart-Clear ptr bytes low [] l h = tt
Apart-Clear ptr bytes low ((p, n) ∷ rest) l h =
    (inr (omega arith), Apart-Clear ptr bytes (p + n) rest (omega arith) h.1)

-- In an ordered list, what comes last is beyond what comes before.
beyond :
    (low ptr bytes : ℕ) (xs after : List (ℕ × ℕ))
    → Apart low (xs ++ ((ptr, bytes) ∷ after))
    → low ≤ ptr
unfolding Apart
beyond low ptr bytes [] after h = omega arith
beyond low ptr bytes ((p, n) ∷ xs) after h = omega (arith, beyond (p + n) ptr bytes xs after h.1)

around :
    (low ptr bytes : ℕ) (before after : List (ℕ × ℕ))
    → Apart low (before ++ ((ptr, bytes) ∷ after))
    → All (Clear ptr bytes) (before ++ after)
unfolding Apart
around low ptr bytes [] after h = Apart-Clear ptr bytes (ptr + bytes) after (omega arith) h.1
around low ptr bytes ((p, n) ∷ before) after h =
    (inl (beyond (p + n) ptr bytes before after h.1), around (p + n) ptr bytes before after h.1)

-- The block that `kmalloc` gave: the size in its header is at least the one asked for, it is marked
-- as in use and lies inside the bytes of the heap, and it shares no byte with an allocation that
-- was live before.
pub record Given (heap heap' : Heap) (bs : List Block) (size ptr : ℕ) : Type 0 where
  pub large : size ≤ (heap'.blocks (ptr - 32)).size
  pub in_use : (heap'.blocks (ptr - 32)).free ≡ 0
  pub above : heap.head + 32 ≤ ptr
  pub below : ptr + (heap'.blocks (ptr - 32)).size ≤ heap.head + span bs
  pub clear : All (Clear ptr (heap'.blocks (ptr - 32)).size) (allocations heap.head bs)

-- What `kmalloc` returns on a heap in order, when it is not null, is a block whose header says that
-- it is in use and at least as long as asked for; it lies inside the bytes of the heap and shares
-- none with any live allocation.
pub kmalloc-Given :
    (fuel : ℕ) (heap heap' : Heap) (bs : List Block) (size ptr : ℕ)
    → IsHeap heap bs
    → span bs < 32 * fuel
    → kmalloc fuel heap size ≡ some (ptr, heap')
    → ptr ≢ 0
    → Given heap heap' bs size ptr
kmalloc-Given fuel heap heap' bs size ptr v enough e ne =
    go (kmalloc-Allocated fuel heap bs size v (omega (arith, length-span bs))) e
  where
    go :
        {out : Option (ℕ × Heap)}
        → Allocated heap bs size out
        → out ≡ some (ptr, heap')
        → Given heap heap' bs size ptr
    go (refused r) e = absurd (ne (ground arith))
    go (full _ _ f) e = absurd (ne (ground arith))
    go (allocated bs' before after p bytes {heap' = h} _ _ v' same sp old new pos al le) e =
        let at : p ≡ ptr = ground arith in
        let left : h ≡ heap' = ground arith in
        let tiles = subst (λ a. Tiles h.blocks a a bs') same v'.tiles in
        let held =
          allocations-Held h.blocks heap.head heap.head bs' before after p bytes tiles new in
        let clear =
          around heap.head p bytes before after
            (subst (Apart heap.head) new (allocations-Apart heap.head bs')) in
        rw (← at, ← left)
          (record {
            large = omega (arith, held.sized);
            in_use = held.in_use;
            above = held.above;
            below = omega (arith, held.sized, held.below);
            clear = rw (old, held.sized) clear;
          })

-- A block that `kmalloc` returned goes back with `kfree`: the live allocations and the bytes of the
-- heap are then those before the two calls, and the heap is in order.
pub kfree-kmalloc :
    (fuel : ℕ) (heap heap' : Heap) (bs : List Block) (size ptr : ℕ)
    → IsHeap heap bs
    → span bs < 32 * fuel
    → kmalloc fuel heap size ≡ some (ptr, heap')
    → ptr ≢ 0
    → (heap'' : Heap) × (bs'' : List Block) × (kfree fuel heap' ptr ≡ some heap'')
      × IsHeap heap'' bs''
      × (allocations heap.head bs'' ≡ allocations heap.head bs)
      × (span bs'' ≡ span bs)
kfree-kmalloc fuel heap heap' bs size ptr v enough e ne =
    go (kmalloc-Allocated fuel heap bs size v (omega (arith, length-span bs))) e
  where
    back :
        {h : Heap} {ls : List Block} {before after : List (ℕ × ℕ)} {out : Option Heap}
        → h.head ≡ heap.head
        → span ls ≡ span bs
        → allocations heap.head bs ≡ before ++ after
        → Freed h ls before after out
        → (heap'' : Heap) × (bs'' : List Block) × (out ≡ some heap'')
          × IsHeap heap'' bs''
          × (allocations heap.head bs'' ≡ allocations heap.head bs)
          × (span bs'' ≡ span bs)
    back {h} same sp old (freed ls' {heap' = h'} v' hd sp' new) =
        (h', ls', refl, v', ap (λ a. allocations a ls') (sym same) ∙ new ∙ sym old, sp' ∙ sp)

    go :
        {out : Option (ℕ × Heap)}
        → Allocated heap bs size out
        → out ≡ some (ptr, heap')
        → (heap'' : Heap) × (bs'' : List Block) × (kfree fuel heap' ptr ≡ some heap'')
          × IsHeap heap'' bs''
          × (allocations heap.head bs'' ≡ allocations heap.head bs)
          × (span bs'' ≡ span bs)
    go (refused r) e = absurd (ne (ground arith))
    go (full _ _ f) e = absurd (ne (ground arith))
    go (allocated bs' before after p bytes {heap' = h} _ _ v' same sp old new pos al le) e =
        let at : p ≡ ptr = ground arith in
        let left : h ≡ heap' = ground arith in
        rw (← at, ← left)
          (back same sp old (
            kfree-Freed fuel h bs' before after p bytes v' (ap (λ a. allocations a bs') same ∙ new)
              (omega (arith, length-span bs'))))
