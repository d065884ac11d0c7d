-- ===== src/Heap/Carve.antt =====
-- What carving a block out of the heap of src/mm.rs changes in the list of blocks.
use pinx_kernel.Prelude.{
  ℕ, ◌+◌, ◌-◌, ◌%◌, ◌≤◌, ◌≡◌, refl, arith, Bool, true, false, ltb, if◌then◌else◌, List, [], ◌∷◌,
  ◌++◌,
}
use pinx_kernel.Heap.Tiling.{Block, span, Aligned, Merged, allocations}

-- A block taken for `size` bytes, and what a split leaves behind it.
abbrev pub carve : ℕ → Block → List Block
carve size b =
    if ltb (size + 32) b.size
    then record { size = size; free = false }
      ∷ record { size = b.size - size - 32; free = true }
      ∷ []
    else record { size = b.size; free = false } ∷ []

-- The bytes that the taken block has.
abbrev pub granted : ℕ → Block → ℕ
granted size b = if ltb (size + 32) b.size then size else b.size

pub Merged-relax : (bs : List Block) → Merged true bs → Merged false bs
Merged-relax [] h = tt
Merged-relax (b ∷ bs) h = (refl, h.1)

module _ (size : ℕ) (b : Block) (post : List Block) where
  pub span-carve : size ≤ b.size → span (carve size b ++ post) ≡ span (b ∷ post)
  span-carve le = ground arith

  pub Aligned-carve : size % 16 ≡ 0 → Aligned (b ∷ post) → Aligned (carve size b ++ post)
  Aligned-carve e h = ground arith

  pub allocations-carve :
      (start : ℕ)
      → size ≤ b.size
      → allocations start (carve size b ++ post)
        ≡ (start + 32, granted size b) ∷ allocations (start + 32 + b.size) post
  allocations-carve start le = ground arith

  pub Merged-carve :
      (f : Bool) → b.free ≡ true → Merged f (b ∷ post) → Merged f (carve size b ++ post)
  Merged-carve f free h = ground (arith, Merged-relax post)

-- A list of blocks with one of them replaced.
module _ (b : Block) (post new : List Block) where
  pub Merged-middle :
      (f : Bool) (pre : List Block)
      → ((g : Bool) → Merged g (b ∷ post) → Merged g new)
      → Merged f (pre ++ (b ∷ post))
      → Merged f (pre ++ new)
  Merged-middle f [] swap h = swap f h
  Merged-middle f (c ∷ pre) swap h = (h.0, Merged-middle c.free pre swap h.1)

  pub Aligned-middle :
      (pre : List Block)
      → (Aligned (b ∷ post) → Aligned new)
      → Aligned (pre ++ (b ∷ post))
      → Aligned (pre ++ new)
  Aligned-middle [] swap h = swap h
  Aligned-middle (c ∷ pre) swap h = (h.0, Aligned-middle pre swap h.1)

pub Aligned-span :
    (pre : List Block) (rest : List Block) → Aligned (pre ++ rest) → span pre % 16 ≡ 0
Aligned-span [] rest h = refl
Aligned-span (b ∷ pre) rest h = omega (arith, Aligned-span pre rest h.1)
