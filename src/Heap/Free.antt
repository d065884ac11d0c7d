-- ===== src/Heap/Free.antt =====
-- `coalesce` and `kfree` of src/mm.rs on the list of blocks.
use pinx_kernel.Prelude.{
  ℕ, zero, suc, ◌+◌, ◌%◌, ◌^◌, ◌<◌, ◌≡◌, ◌≢◌, refl, ◌∙◌, arith, true, false, not, ◌&&◌, ◌==◌,
  update, Option, none, some, List, [], ◌∷◌, ◌++◌, length, length-append, inl, inr, Bool-cases,
  sub64,
}
use mathlib.Core.Path.{subst}
use pinx_kernel.Heap.{Heap, HeapBlock, absorb, coalesce_from, coalesce, kfree}
use pinx_kernel.Heap.Tiling.{
  Block, span, Tiles, Aligned, allocations, span-append, allocations-append, Tiles-frame, IsHeap,
}
use pinx_kernel.Heap.Carve.{Aligned-middle}
use pinx_kernel.Heap.Merge.{
  merge, span-merge, Aligned-merge, Merged-merge, allocations-merge, At, at, locate,
}

module _ (m : ℕ → HeapBlock) (start : ℕ) (b c : Block) (rest : List Block) where
  absorbed :
      start + span (b ∷ c ∷ rest) < 2 ^ 64
      → Tiles m start start (b ∷ c ∷ rest)
      → absorb m start start
        ≡ record (m start) { size = b.size + 32 + c.size; next = (m (start + 32 + b.size)).next }
  unfolding absorb
  absorbed fits t = let (p, s, f, (q, r, g, u)) = t in rw (q, s, r) (ground arith)

  absorb_outside : (x : ℕ) → start ≢ x → absorb m start x ≡ m x
  unfolding absorb
  absorb_outside x ne = ground arith

  absorb-Tiles :
      start + span (b ∷ c ∷ rest) < 2 ^ 64
      → b.free ≡ true
      → Tiles m start start (b ∷ c ∷ rest)
      → Tiles
          (absorb m start)
          start
          start
          (record { size = b.size + 32 + c.size; free = true } ∷ rest)
  absorb-Tiles fits free t =
      let (p, s, f, (q, r, g, u)) = t in
      let shift : start + 32 + b.size + 32 + c.size ≡ start + 32 + (b.size + 32 + c.size) =
        omega arith in
      rw (absorbed fits t) (
        refl,
        refl,
        ground arith,
        Tiles-frame {m = m} (m (start + 32 + b.size)).next (start + 32 + (b.size + 32 + c.size))
            rest (λ x l. absorb_outside x (omega arith))
            (subst (λ a. Tiles m (m (start + 32 + b.size)).next a rest) shift u),
      )

-- The headers that `coalesce` leaves from the block `b` on.
data Coalesced (m : ℕ → HeapBlock) (start : ℕ) (b : Block) (rest : List Block)
    : Option (ℕ → HeapBlock) → Type 0 where
  coalesced :
      {m' : ℕ → HeapBlock}
      → ((x : ℕ) → x < start → m' x ≡ m x)
      → Tiles m' start start (merge b rest)
      → Coalesced m start b rest (some m')

module _ (start : ℕ) (b c : Block) (rest : List Block) where
  joined_step :
      (m : ℕ → HeapBlock) {out : Option (ℕ → HeapBlock)}
      → (b.free && c.free) ≡ true
      → Coalesced
          (absorb m start)
          start
          (record { size = b.size + 32 + c.size; free = true })
          rest
          out
      → Coalesced m start b (c ∷ rest) out
  unfolding merge
  joined_step m both (coalesced {m'} below t) =
      coalesced (λ x l. below x l ∙ absorb_outside m start b c rest x (omega arith)) (rw both t)

  apart_step :
      (m : ℕ → HeapBlock) {out : Option (ℕ → HeapBlock)}
      → (b.free && c.free) ≡ false
      → Tiles m start start (b ∷ c ∷ rest)
      → Coalesced m (start + 32 + b.size) c rest out
      → Coalesced m start b (c ∷ rest) out
  unfolding merge
  apart_step m both t (coalesced {m'} below u) =
      coalesced (λ x l. below x (omega arith))
        (rw (both, below start (omega arith)) (refl, t.1, t.2, rw (t.3).0 u))

-- One round of the loop on a tiled heap.
stops :
    (fuel : ℕ) (m : ℕ → HeapBlock) (start : ℕ) (b : Block)
    → 0 < start
    → Tiles m start start (b ∷ [])
    → coalesce_from (suc fuel) m start ≡ some m
unfolding coalesce_from
stops fuel m start b pos t = ground arith

module _ (fuel : ℕ) (m : ℕ → HeapBlock) (start : ℕ) (b c : Block) (rest : List Block)
    (pos : 0 < start) (t : Tiles m start start (b ∷ c ∷ rest)) where
  joins :
      (b.free && c.free) ≡ true
      → coalesce_from (suc fuel) m start ≡ coalesce_from fuel (absorb m start) start
  unfolding coalesce_from
  joins both = let (p, s, f, (q, r, g, u)) = t in rw q (ground arith)

  moves_on :
      (b.free && c.free) ≡ false
      → coalesce_from (suc fuel) m start ≡ coalesce_from fuel m (start + 32 + b.size)
  unfolding coalesce_from
  moves_on apart = let (p, s, f, (q, r, g, u)) = t in rw q (ground arith)

coalesce_from-Coalesced :
    (fuel : ℕ) (m : ℕ → HeapBlock) (start : ℕ) (b : Block) (rest : List Block)
    → length rest < fuel
    → 0 < start
    → start + span (b ∷ rest) < 2 ^ 64
    → Tiles m start start (b ∷ rest)
    → Coalesced m start b rest (coalesce_from fuel m start)
coalesce_from-Coalesced zero m start b rest l pos fits t = absurd (omega arith)
coalesce_from-Coalesced (suc fuel) m start b [] l pos fits t =
    rw (stops fuel m start b pos t) (coalesced (λ x l. refl) (unfold merge in t))
coalesce_from-Coalesced (suc fuel) m start b (c ∷ rest) l pos fits t =
    elim (Bool-cases (b.free && c.free)) [
      | inl both ↦ rw (joins fuel m start b c rest pos t both) (
          joined_step start b c rest m both (
            coalesce_from-Coalesced fuel (absorb m start) start
              (record { size = b.size + 32 + c.size; free = true }) rest (omega arith) pos
              (omega arith) (absorb-Tiles m start b c rest fits (ground arith) t)))
      | inr apart ↦ rw (moves_on fuel m start b c rest pos t apart) (
          apart_step start b c rest m apart t (
            coalesce_from-Coalesced fuel m (start + 32 + b.size) c rest (omega arith) (omega arith)
              (omega arith) (rw (t.3).0 at t.3)))
    ]

-- The write `(*block).free = 1`.
mark : (ℕ → HeapBlock) → ℕ → ℕ → HeapBlock
mark m x = update m x (record (m x) { free = 1 })

mark_eq : (m : ℕ → HeapBlock) (x y : ℕ) → x ≡ y → mark m x y ≡ record (m y) { free = 1 }
unfolding mark
mark_eq m x y e = rw e (ground arith)

mark_ne : (m : ℕ → HeapBlock) (x y : ℕ) → x ≢ y → mark m x y ≡ m y
unfolding mark
mark_ne m x y ne = ground arith

-- It frees the block after `pre`, whose header says whether it was free.
module _ (m : ℕ → HeapBlock) (b : Block) (post : List Block) where
  mark-Tiles :
      (x p start : ℕ) (pre : List Block)
      → x ≡ start + span pre
      → Tiles m p start (pre ++ (b ∷ post))
      → Tiles (mark m x) p start (pre ++ (record { size = b.size; free = true } ∷ post))
  mark-Tiles x p start [] e t = rw (mark_eq m x start (omega arith)) (
    t.0,
    t.1,
    refl,
    Tiles-frame {m = m} (m start).next (start + 32 + b.size) post
        (λ y l. mark_ne m x y (omega arith)) t.3,
  )
  mark-Tiles x p start (c ∷ pre) e t =
      rw (mark_ne m x start (omega arith))
        (t.0, t.1, t.2, mark-Tiles x (m start).next (start + 32 + c.size) pre (omega arith) t.3)

  header_free :
      (x p start : ℕ) (pre : List Block)
      → x ≡ start + span pre
      → Tiles m p start (pre ++ (b ∷ post))
      → ((m x).free == 0) ≡ not b.free
  header_free x p start [] e t = let same : x ≡ start = omega arith in rw same t.2
  header_free x p start (c ∷ pre) e t =
      header_free x (m start).next (start + 32 + c.size) pre (omega arith) t.3

-- `merge` over the whole heap.
abbrev pub merge_all : List Block → List Block
merge_all [] = []
merge_all (b ∷ bs) = merge b bs

-- What `kfree` may do with a live allocation: free it and no other, on a heap that stays in order.
pub data Freed (heap : Heap) (bs : List Block) (before after : List (ℕ × ℕ))
    : Option Heap → Type 0 where
  freed :
      (bs' : List Block) {heap' : Heap}
      → IsHeap heap' bs'
      → heap'.head ≡ heap.head
      → span bs' ≡ span bs
      → allocations heap.head bs' ≡ before ++ after
      → Freed heap bs before after (some heap')

module _ (heap : Heap) (before after : List (ℕ × ℕ)) where
  in_order :
      (m : ℕ → HeapBlock) (bs : List Block) (b : Block) (rest : List Block)
      {out : Option (ℕ → HeapBlock)}
      → 0 < heap.head
      → heap.head % 16 ≡ 0
      → heap.head + span (b ∷ rest) < 2 ^ 64
      → Aligned (b ∷ rest)
      → span (b ∷ rest) ≡ span bs
      → allocations heap.head (b ∷ rest) ≡ before ++ after
      → Coalesced m heap.head b rest out
      → Freed heap bs before after
          (elim out [ none ↦ none | some blocks ↦ some (record heap { blocks = blocks }) ])
  in_order m bs b rest pos al fits aligned sp allocs (coalesced {m'} below t) =
      freed (merge b rest)
        (record {
          tiles = t;
          not_null = pos;
          start_aligned = al;
          aligned = Aligned-merge b rest aligned;
          merged = Merged-merge false b rest refl;
          fits = omega (arith, span-merge b rest);
        })
        refl (span-merge b rest ∙ sp) (allocations-merge heap.head b rest ∙ allocs)

  -- `coalesce` on blocks of the same span as those of the heap in order `bs`.
  coalesce-Freed :
      (fuel : ℕ) (m : ℕ → HeapBlock) (bs ls : List Block)
      → IsHeap heap bs
      → length ls < fuel
      → 0 < span ls
      → span ls ≡ span bs
      → Aligned ls
      → Tiles m heap.head heap.head ls
      → allocations heap.head ls ≡ before ++ after
      → Freed heap bs before after (coalesce fuel (record heap { blocks = m }))
  unfolding coalesce
  coalesce-Freed fuel m bs [] v l pos sp al t e = absurd (omega arith)
  coalesce-Freed fuel m bs (b ∷ rest) v l pos sp al t e =
      in_order m bs b rest v.not_null v.start_aligned (omega (arith, v.fits)) al sp e (
        coalesce_from-Coalesced fuel m heap.head b rest (omega arith) v.not_null
          (omega (arith, v.fits)) t)

  freeing :
      (pre : List Block) (b : Block) (post : List Block)
      → IsHeap heap (pre ++ (b ∷ post))
      → b.free ≡ false
      → allocations heap.head pre ≡ before
      → allocations (heap.head + span pre + 32 + b.size) post ≡ after
      → (fuel : ℕ) → length (pre ++ (b ∷ post)) < fuel
      → Freed heap
          (pre ++ (b ∷ post))
          before
          after
          (coalesce fuel (record heap { blocks = mark heap.blocks (heap.head + span pre) }))
  freeing pre b post v live p q fuel enough =
      let open_block : Block = record { size = b.size; free = true } in
      coalesce-Freed fuel _ (pre ++ (b ∷ post)) (pre ++ (open_block ∷ post)) v
        (omega (arith, length-append {0} pre (b ∷ post), length-append {0} pre (open_block ∷ post)))
        (omega (arith, span-append pre (open_block ∷ post)))
        (omega (arith, span-append pre (b ∷ post), span-append pre (open_block ∷ post)))
        (Aligned-middle b post (open_block ∷ post) pre (λ h. h) v.aligned)
        (mark-Tiles heap.blocks b post (heap.head + span pre) heap.head heap.head pre refl v.tiles)
        (allocations-append heap.head pre (open_block ∷ post) ∙ rw (p, q) refl)

  free_at :
      (fuel ptr : ℕ) (pre : List Block) (b : Block) (post : List Block)
      → IsHeap heap (pre ++ (b ∷ post))
      → b.free ≡ false
      → ptr ≡ heap.head + span pre + 32
      → kfree fuel heap ptr
        ≡ coalesce fuel (record heap { blocks = mark heap.blocks (heap.head + span pre) })
  unfolding kfree mark
  free_at fuel ptr pre b post v live e =
      let fits : heap.head + span pre + 32 < 2 ^ 64 =
        omega (arith, v.fits, span-append pre (b ∷ post)) in
      let block : sub64 ptr 32 ≡ heap.head + span pre = omega arith in
      let used =
        header_free heap.blocks b post (heap.head + span pre) heap.head heap.head pre refl
          v.tiles in
      let there : (ptr == 0) ≡ false = ground arith in rw (there, block, used, live) refl

-- On a heap in order, and with fuel for each of its blocks, `kfree` of a live allocation returns,
-- takes it and no other out of the live ones, and leaves a heap in order that takes the same bytes,
-- with no two free blocks side by side.
pub kfree-Freed :
    (fuel : ℕ) (heap : Heap) (bs : List Block) (before after : List (ℕ × ℕ)) (ptr bytes : ℕ)
    → IsHeap heap bs
    → allocations heap.head bs ≡ before ++ ((ptr, bytes) ∷ after)
    → length bs < fuel
    → Freed heap bs before after (kfree fuel heap ptr)
kfree-Freed fuel heap bs before after ptr bytes v e enough =
    go (locate heap.head bs before ptr bytes after e) v enough
  where
    go :
        {bs : List Block}
        → At heap.head before ptr bytes after bs
        → IsHeap heap bs
        → length bs < fuel
        → Freed heap bs before after (kfree fuel heap ptr)
    go (at pre b post live p q r) v enough =
        rw (free_at heap before after fuel ptr pre b post v live p)
          (freeing heap before after pre b post v live q r fuel enough)
