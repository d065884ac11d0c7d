-- ===== src/Heap/Tiling.antt =====
-- The heap of src/mm.rs as a list of blocks that tile a range of addresses, and its live
-- allocations.
use pinx_kernel.Prelude.{
  ℕ, ◌+◌, ◌-◌, ◌%◌, ◌^◌, ◌≤◌, ◌<◌, ◌≡◌, ◌∙◌, ap, arith, Bool, Bool-cases, inl, inr, false, not,
  ◌&&◌, ◌==◌, if◌then◌else◌, List, [], ◌∷◌, ◌++◌,
}
use pinx_kernel.Heap.{Heap, HeapBlock}

pub record Block : Type 0 where
  pub size : ℕ
  pub free : Bool

-- The bytes that blocks take, headers included.
abbrev pub span : List Block → ℕ
span [] = 0
span (b ∷ bs) = 32 + b.size + span bs

-- From the pointer `p`, the headers lead through `bs`, each block beginning where the one before
-- it ends, the first at `start`; the last `next` is null.
abbrev pub Tiles : (ℕ → HeapBlock) → ℕ → ℕ → List Block → Type 0
Tiles blocks p start [] = p ≡ 0
Tiles blocks p start (b ∷ bs) =
    (p ≡ start)
    × ((blocks start).size ≡ b.size)
    × (((blocks start).free == 0) ≡ not b.free)
    × Tiles blocks (blocks start).next (start + 32 + b.size) bs

-- Every size is a multiple of 16.
abbrev pub Aligned : List Block → Type 0
Aligned [] = Unit
Aligned (b ∷ bs) = (b.size % 16 ≡ 0) × Aligned bs

-- No free block follows a free one.
abbrev pub Merged : Bool → List Block → Type 0
Merged free [] = Unit
Merged free (b ∷ bs) = ((free && b.free) ≡ false) × Merged b.free bs

-- The live allocations: payload address and size, in the order of addresses.
abbrev pub allocations : ℕ → List Block → List (ℕ × ℕ)
allocations start [] = []
allocations start (b ∷ bs) =
    let rest = allocations (start + 32 + b.size) bs in
    if b.free then rest else (start + 32, b.size) ∷ rest

pub span-append : (xs ys : List Block) → span (xs ++ ys) ≡ span xs + span ys
span-append [] ys = omega arith
span-append (x ∷ xs) ys = omega (arith, span-append xs ys)

pub allocations-append :
    (start : ℕ) (xs ys : List Block)
    → allocations start (xs ++ ys) ≡ allocations start xs ++ allocations (start + span xs) ys
allocations-append start [] ys = ap (λ t. allocations t ys) (omega arith)
allocations-append start (x ∷ xs) ys =
    let e : start + 32 + x.size + span xs ≡ start + (32 + x.size + span xs) = omega arith in
    ground (arith, allocations-append (start + 32 + x.size) xs ys, ap (λ t. allocations t ys) e)

-- Headers that agree from `start` on stand for the same blocks there.
pub Tiles-frame :
    {m m' : ℕ → HeapBlock} (p start : ℕ) (bs : List Block)
    → ((x : ℕ) → start ≤ x → m' x ≡ m x)
    → Tiles m p start bs
    → Tiles m' p start bs
Tiles-frame p start [] same t = t
Tiles-frame {m} p start (b ∷ bs) same t = rw (same start (omega arith)) (
  t.0,
  t.1,
  t.2,
  Tiles-frame (m start).next (start + 32 + b.size) bs (λ x l. same x (omega arith)) t.3,
)

-- The heap and the blocks that it stands for.
pub record IsHeap (heap : Heap) (bs : List Block) : Type 0 where
  pub tiles : Tiles heap.blocks heap.head heap.head bs
  pub not_null : 0 < heap.head
  pub start_aligned : heap.head % 16 ≡ 0
  pub aligned : Aligned bs
  pub merged : Merged false bs
  pub fits : heap.head + span bs < 2 ^ 64

-- The header before a live allocation is in use and has its size, and the allocation lies between
-- `start` and `limit`.
pub record Held (m : ℕ → HeapBlock) (start limit ptr bytes : ℕ) : Type 0 where
  pub sized : (m (ptr - 32)).size ≡ bytes
  pub in_use : (m (ptr - 32)).free ≡ 0
  pub above : start + 32 ≤ ptr
  pub below : ptr + bytes ≤ limit

Held-widen :
    {m : ℕ → HeapBlock} {start start' limit limit' ptr bytes : ℕ}
    → start' ≤ start
    → limit ≤ limit'
    → Held m start limit ptr bytes
    → Held m start' limit' ptr bytes
Held-widen l u h = record {
  sized = h.sized;
  in_use = h.in_use;
  above = omega (arith, h.above);
  below = omega (arith, h.below);
}

-- The first block's allocation, or one of the rest.
Held-first :
    (m : ℕ → HeapBlock) (start limit size : ℕ) (rest before after : List (ℕ × ℕ)) (ptr bytes : ℕ)
    → (m start).size ≡ size
    → (m start).free ≡ 0
    → start + 32 + size ≤ limit
    → ((before : List (ℕ × ℕ))
        → rest ≡ before ++ ((ptr, bytes) ∷ after)
        → Held m (start + 32 + size) limit ptr bytes)
    → (start + 32, size) ∷ rest ≡ before ++ ((ptr, bytes) ∷ after)
    → Held m start limit ptr bytes
Held-first m start limit size rest [] after ptr bytes sized used room later e =
    let at : start + 32 ≡ ptr = ground arith in
    let len : size ≡ bytes = ground arith in
    let here : start + 32 - 32 ≡ start = omega arith in
    rw (← at) (record {
      sized = ap (λ x. (m x).size) here ∙ sized ∙ len;
      in_use = ap (λ x. (m x).free) here ∙ used;
      above = omega arith;
      below = omega arith;
    })
Held-first m start limit size rest (x ∷ before) after ptr bytes sized used room later e =
    Held-widen (omega arith) (omega arith) (later before (ground arith))

-- Every live allocation of tiled blocks has its header.
pub allocations-Held :
    (m : ℕ → HeapBlock) (p start : ℕ) (bs : List Block) (before after : List (ℕ × ℕ))
    (ptr bytes : ℕ)
    → Tiles m p start bs
    → allocations start bs ≡ before ++ ((ptr, bytes) ∷ after)
    → Held m start (start + span bs) ptr bytes
allocations-Held m p start [] [] after ptr bytes t e = cc
allocations-Held m p start [] (x ∷ before) after ptr bytes t e = cc
allocations-Held m p start (b ∷ bs) before after ptr bytes t e =
    let rest = allocations (start + 32 + b.size) bs in
    let later : (before : List (ℕ × ℕ))
        → rest ≡ before ++ ((ptr, bytes) ∷ after)
        → Held m (start + 32 + b.size) (start + span (b ∷ bs)) ptr bytes =
      λ before e.
        Held-widen (omega arith) (omega arith) (
          allocations-Held m (m start).next (start + 32 + b.size) bs before after ptr bytes t.3
            e) in
    let here : (b.free ≡ false)
        → (start + 32, b.size) ∷ rest ≡ before ++ ((ptr, bytes) ∷ after)
        → Held m start (start + span (b ∷ bs)) ptr bytes =
      λ live.
        Held-first m start (start + span (b ∷ bs)) b.size rest before after ptr bytes t.1
          (ground arith) (omega arith) later in
    elim (Bool-cases b.free) [
      | inl free ↦ Held-widen (omega arith) (omega arith) (later before (ground arith))
      | inr live ↦ here live (ground arith)
    ]
