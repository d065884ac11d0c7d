-- ===== src/Heap/Alloc.antt =====
-- `kmalloc` of src/mm.rs: first fit over the blocks of the heap.
use pinx_kernel.Prelude.{
  ℕ, zero, suc, ◌+◌, ◌-◌, ◌%◌, ◌^◌, ◌≤◌, ◌<◌, ◌≡◌, ◌⊎◌, refl, ap, ◌∙◌, arith, true, false, not,
  ◌&&◌, ◌||◌, ◌==◌, ltb, leb, if_elim, Option, none, some, List, [], ◌∷◌, ◌++◌, length, All, inl,
  inr, Bool-cases, add64, u64_max,
}
use mathlib.Core.Path.{subst}
use pinx_kernel.Prelude.Masks.{and_high}
use pinx_kernel.Heap.{Heap, HeapBlock, split_block, take_block, find_block, round_up, kmalloc}
use pinx_kernel.Heap.Carve.{
  carve, granted, span-carve, Aligned-carve, allocations-carve, Merged-carve, Merged-middle,
  Aligned-middle, Aligned-span,
}
use pinx_kernel.Heap.Tiling.{
  Block, span, Tiles, Aligned, Merged, allocations, span-append, allocations-append, Tiles-frame,
  IsHeap,
}

-- The block is in use or too small.
abbrev pub Small : ℕ → Block → Type 0
Small size b = (b.free && leb size b.size) ≡ false

module _ (blocks : ℕ → HeapBlock) (size start : ℕ) (b : Block) (post : List Block) where
  take_block_outside :
      (x : ℕ)
      → (x < start) ⊎ (start + 32 + b.size ≤ x)
      → size ≤ b.size
      → size + 32 < 2 ^ 64
      → (blocks start).size ≡ b.size
      → take_block blocks start size x ≡ blocks x
  unfolding take_block split_block
  take_block_outside x out le small e = ground arith

  module _ (le : size ≤ b.size) (small : size + 32 < 2 ^ 64)
      (e : (blocks start).size ≡ b.size) where
    taken_whole :
        ltb (size + 32) b.size ≡ false
        → take_block blocks start size start ≡ record (blocks start) { free = 0 }
    unfolding take_block
    taken_whole whole = ground arith

    taken_cut :
        ltb (size + 32) b.size ≡ true
        → take_block blocks start size start
          ≡ record (blocks start) { size = size; next = start + 32 + size; free = 0 }
    unfolding take_block split_block
    taken_cut cut = ground arith

    taken_tail :
        b.size < 2 ^ 64
        → ltb (size + 32) b.size ≡ true
        → take_block blocks start size (start + 32 + size)
          ≡ record { size = b.size - size - 32; next = (blocks start).next; free = 1; reserved = 0 }
    unfolding take_block split_block
    taken_tail fits cut = ground arith

  take_block-Tiles :
      start + 32 + b.size < 2 ^ 64
      → size ≤ b.size
      → size + 32 < 2 ^ 64
      → Tiles blocks start start (b ∷ post)
      → Tiles (take_block blocks start size) start start (carve size b ++ post)
  take_block-Tiles fits le small t = elim (Bool-cases (ltb (size + 32) b.size)) [
    | inl cut ↦
        let out : start + 32 + size + 32 + (b.size - size - 32) ≡ start + 32 + b.size =
          ground arith in
        rw (cut, taken_cut le small t.1 cut, taken_tail le small t.1 (omega arith) cut, out)
          (refl, refl, refl, (refl, refl, refl, beyond))
    | inr whole ↦ rw (whole, taken_whole le small t.1 whole) (refl, t.1, refl, beyond)
  ]
    where
      beyond : Tiles (take_block blocks start size) (blocks start).next (start + 32 + b.size) post
      beyond =
          Tiles-frame (blocks start).next (start + 32 + b.size) post
            (λ x l. take_block_outside x (inr l) le small t.1) t.3

-- Where the search of the blocks from `p` ends: past the last one; or at the first that is free and
-- large enough, which is then carved.
data Found (m : ℕ → HeapBlock) (size p start : ℕ) (bs : List Block)
    : Option (ℕ × (ℕ → HeapBlock)) → Type 0 where
  full : All (Small size) bs → Found m size p start bs (some (0, m))
  taken :
      (pre : List Block) (b : Block) (post : List Block) {m' : ℕ → HeapBlock}
      → bs ≡ pre ++ (b ∷ post)
      → b.free ≡ true
      → size ≤ b.size
      → All (Small size) pre
      → ((x : ℕ) → x < start → m' x ≡ m x)
      → Tiles m' p start (pre ++ (carve size b ++ post))
      → Found m size p start bs (some (start + span pre + 32, m'))

module _ (m : ℕ → HeapBlock) (size : ℕ) where
  past :
      (p start : ℕ) (b : Block) (bs : List Block) {out : Option (ℕ × (ℕ → HeapBlock))}
      → Small size b
      → Tiles m p start (b ∷ bs)
      → Found m size (m start).next (start + 32 + b.size) bs out
      → Found m size p start (b ∷ bs) out
  past p start b bs unfit t (full none_fits) = full (unfit, none_fits)
  past p start b bs unfit t (taken pre c post {m'} e free le before below after) =
      subst (λ a. Found m size p start (b ∷ bs) (some (a, m'))) (omega arith)
        (taken (b ∷ pre) c post (ap (◌∷◌ b) e) free le (unfit, before)
          (λ x l. below x (omega arith)) (rw (below start (omega arith)) (t.0, t.1, t.2, after)))

  here :
      (p start : ℕ) (b : Block) (bs : List Block)
      → 0 < start
      → start + span (b ∷ bs) < 2 ^ 64
      → b.free ≡ true
      → size ≤ b.size
      → Tiles m p start (b ∷ bs)
      → Found m size p start (b ∷ bs) (some (p + 32, take_block m p size))
  here p start b bs pos fits free le t =
      let small : size + 32 < 2 ^ 64 = omega arith in
      rw t.0 (
        subst (λ a. Found m size start start (b ∷ bs) (some (a, take_block m start size)))
          (omega arith)
          (taken [] b bs refl free le tt
            (λ x l. take_block_outside m size start b bs x (inl l) le small t.1)
            (take_block-Tiles m size start b bs (omega arith) le small (refl, t.1, t.2, t.3))))

  find_block-Found :
      (fuel p start : ℕ) (bs : List Block)
      → length bs < fuel
      → 0 < start
      → start + span bs < 2 ^ 64
      → Tiles m p start bs
      → Found m size p start bs (find_block fuel m size p)
  unfolding find_block
  find_block-Found zero p start bs l pos fits t = absurd (omega arith)
  find_block-Found (suc fuel) p start [] l pos fits t = rw t (full tt)
  find_block-Found (suc fuel) p start (b ∷ bs) l pos fits t =
      if_elim (Found m size p start (b ∷ bs)) (p == 0) (λ z. absurd (ground arith))
        (λ _.
          if_elim (Found m size p start (b ∷ bs)) (not ((m p).free == 0) && leb size (m p).size)
            (λ y. here p start b bs pos fits (ground arith) (ground arith) t)
            (λ n. past p start b bs (ground arith) t (
              rw (ap m t.0) (
                find_block-Found fuel (m start).next (start + 32 + b.size) bs (omega arith)
                  (omega arith) (omega arith) t.3))))

-- What `kmalloc` may return: null with the heap as it was, when the size is 0 or too large to round
-- up, or when it is neither and no free block has the rounded size; or, for such a
-- size, the payload of a block that joins the live
-- allocations, 16-byte aligned and large enough, the others staying as they are.
pub data Allocated (heap : Heap) (bs : List Block) (size : ℕ) : Option (ℕ × Heap) → Type 0 where
  refused : (size ≡ 0) ⊎ (2 ^ 64 ≤ size + 15) → Allocated heap bs size (some (0, heap))
  full :
      0 < size
      → size + 15 < 2 ^ 64
      → All (Small (round_up size)) bs
      → Allocated heap bs size (some (0, heap))
  allocated :
      (bs' : List Block) (before after : List (ℕ × ℕ)) (ptr bytes : ℕ) {heap' : Heap}
      → 0 < size
      → size + 15 < 2 ^ 64
      → IsHeap heap' bs'
      → heap'.head ≡ heap.head
      → span bs' ≡ span bs
      → allocations heap.head bs ≡ before ++ after
      → allocations heap.head bs' ≡ before ++ ((ptr, bytes) ∷ after)
      → 0 < ptr
      → ptr % 16 ≡ 0
      → size ≤ bytes
      → Allocated heap bs size (some (ptr, heap'))

rounded :
    (size : ℕ)
    → size + 15 < 2 ^ 64
    → (size ≤ round_up size) × (round_up size % 16 ≡ 0) × (round_up size ≤ size + 15)
unfolding round_up
rounded size h =
    let low : size + 15 < 2 ^ 64 = h in
    let e : add64 size 15 ≡ size + 15 = omega arith in
    omega (arith, and_high 64 4 (add64 size 15) (omega arith) (omega arith), e)

module _ (heap : Heap) (bs : List Block) (size : ℕ) (v : IsHeap heap bs) (pos : 0 < size)
    (low : size + 15 < 2 ^ 64) where
  same_span :
      (pre : List Block) (b : Block) (post : List Block)
      → bs ≡ pre ++ (b ∷ post)
      → round_up size ≤ b.size
      → span (pre ++ (carve (round_up size) b ++ post)) ≡ span bs
  same_span pre b post e le = omega (
    arith,
    ap span e,
    span-append pre (b ∷ post),
    span-append pre (carve (round_up size) b ++ post),
    span-carve (round_up size) b post le,
  )

  keep :
      (pre : List Block) (b : Block) (post : List Block) (m' : ℕ → HeapBlock)
      → bs ≡ pre ++ (b ∷ post)
      → b.free ≡ true
      → round_up size ≤ b.size
      → Tiles m' heap.head heap.head (pre ++ (carve (round_up size) b ++ post))
      → IsHeap (record heap { blocks = m' }) (pre ++ (carve (round_up size) b ++ post))
  keep pre b post m' e free le t = record {
    tiles = t;
    not_null = v.not_null;
    start_aligned = v.start_aligned;
    aligned =
        Aligned-middle b post _ pre (Aligned-carve (round_up size) b post (rounded size low).1)
          (subst Aligned e v.aligned);
    merged =
        Merged-middle b post _ false pre (λ f. Merged-carve (round_up size) b post f free)
          (subst (Merged false) e v.merged);
    fits = omega (arith, v.fits, same_span pre b post e le);
  }

  result :
      {out : Option (ℕ × (ℕ → HeapBlock))}
      → Found heap.blocks (round_up size) heap.head heap.head bs out
      → Allocated heap bs size (elim out [
        | none ↦ none
        | some (ptr, blocks) ↦ some (ptr, record heap { blocks = blocks })
      ])
  result (full none_fits) = full pos low none_fits
  result (taken pre b post {m'} e free le small below t) =
      allocated (pre ++ (carve (round_up size) b ++ post)) (allocations heap.head pre)
        (allocations (heap.head + span pre + 32 + b.size) post) (heap.head + span pre + 32)
        (granted (round_up size) b) pos low (keep pre b post m' e free le t) refl
        (same_span pre b post e le)
        (ap (allocations heap.head) e ∙ allocations-append heap.head pre (b ∷ post) ∙ rw free refl)
        (allocations-append heap.head pre (carve (round_up size) b ++ post)
          ∙ ap (λ l. allocations heap.head pre ++ l)
              (allocations-carve (round_up size) b post (heap.head + span pre) le))
        (omega (arith, v.not_null))
        (omega (arith, v.start_aligned, Aligned-span pre (b ∷ post) (subst Aligned e v.aligned)))
        (ground (arith, rounded size low))

-- On a heap in order, and with fuel for each of its blocks, `kmalloc` returns: null, changing
-- nothing, when the size is 0 or within 15 of 2 ^ 64, and when no free block has the rounded size;
-- and in no other case: otherwise a 16-byte aligned payload of at least that size, which joins the live allocations, all others
-- staying as they are; the heap stays in order and takes the same bytes.
pub kmalloc-Allocated :
    (fuel : ℕ) (heap : Heap) (bs : List Block) (size : ℕ)
    → IsHeap heap bs
    → length bs < fuel
    → Allocated heap bs size (kmalloc fuel heap size)
unfolding kmalloc
kmalloc-Allocated fuel heap bs size v enough =
    if_elim (Allocated heap bs size) (size == 0 || ltb (u64_max - 15) size)
      (λ r. refused (ground arith))
      (λ go.
        if_elim (Allocated heap bs size) (heap.head == 0) (λ z. absurd (ground (arith, v.not_null)))
          (λ _.
            let low : size + 15 < 2 ^ 64 = ground arith in
            result heap bs size v (ground arith) low (
              find_block-Found heap.blocks (round_up size) fuel heap.head heap.head bs enough
                v.not_null v.fits v.tiles)))
