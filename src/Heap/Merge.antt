-- ===== src/Heap/Merge.antt =====
-- What `coalesce` of src/mm.rs does to the list of blocks, and where a live allocation stands in it.
use pinx_kernel.Prelude.{
  ℕ, ◌+◌, ◌≡◌, refl, ap, ◌∙◌, arith, Bool, true, false, ◌&&◌, if◌then◌else◌, List, [], ◌∷◌, ◌++◌,
  Bool-cases, inl, inr,
}
use pinx_kernel.Heap.Tiling.{Block, span, Aligned, Merged, allocations}

-- Neighbours that are both free become one block.
unfoldable pub merge : Block → List Block → List Block
merge b [] = b ∷ []
merge b (c ∷ rest) =
    let joined = merge (record { size = b.size + 32 + c.size; free = true }) rest in
    let apart = b ∷ merge c rest in if b.free && c.free then joined else apart

pub span-merge : (b : Block) (rest : List Block) → span (merge b rest) ≡ span (b ∷ rest)
unfolding merge
span-merge b [] = refl
span-merge b (c ∷ rest) = ground (
  arith,
  span-merge (record { size = b.size + 32 + c.size; free = true }) rest,
  span-merge c rest,
)

pub Aligned-merge : (b : Block) (rest : List Block) → Aligned (b ∷ rest) → Aligned (merge b rest)
unfolding merge
Aligned-merge b [] h = h
Aligned-merge b (c ∷ rest) h = ground (
  arith,
  Aligned-merge (record { size = b.size + 32 + c.size; free = true }) rest,
  Aligned-merge c rest,
)

pub Merged-merge :
    (f : Bool) (b : Block) (rest : List Block) → (f && b.free) ≡ false → Merged f (merge b rest)
unfolding merge
Merged-merge f b [] h = (h, tt)
Merged-merge f b (c ∷ rest) h = ground (
  arith,
  Merged-merge f (record { size = b.size + 32 + c.size; free = true }) rest,
  Merged-merge b.free c rest,
)

pub allocations-merge :
    (start : ℕ) (b : Block) (rest : List Block)
    → allocations start (merge b rest) ≡ allocations start (b ∷ rest)
unfolding merge
allocations-merge start b [] = refl
allocations-merge start b (c ∷ rest) =
    let e : start + 32 + (b.size + 32 + c.size) ≡ start + 32 + b.size + 32 + c.size = omega arith in
    ground (
      arith,
      allocations-merge start (record { size = b.size + 32 + c.size; free = true }) rest,
      allocations-merge (start + 32 + b.size) c rest,
      ap (λ t. allocations t rest) e,
    )

-- A live allocation belongs to one block, between those of the allocations before and after it.
pub data At (start : ℕ) (before : List (ℕ × ℕ)) (ptr bytes : ℕ) (after : List (ℕ × ℕ))
    : List Block → Type 0 where
  at :
      (pre : List Block) (b : Block) (post : List Block)
      → b.free ≡ false
      → ptr ≡ start + span pre + 32
      → allocations start pre ≡ before
      → allocations (start + span pre + 32 + b.size) post ≡ after
      → At start before ptr bytes after (pre ++ (b ∷ post))

pub locate :
    (start : ℕ) (bs : List Block) (before : List (ℕ × ℕ)) (ptr bytes : ℕ) (after : List (ℕ × ℕ))
    → allocations start bs ≡ before ++ ((ptr, bytes) ∷ after)
    → At start before ptr bytes after bs
locate start [] [] ptr bytes after h = cc
locate start [] (x ∷ xs) ptr bytes after h = cc
locate start (b ∷ bs) before ptr bytes after h = elim (Bool-cases b.free) [
  | inl free ↦
      past (rw free refl) (locate (start + 32 + b.size) bs before ptr bytes after (ground arith))
  | inr live ↦
      first before (λ xs. locate (start + 32 + b.size) bs xs ptr bytes after) live (ground arith)
]
  where
    zero_off : start + 0 ≡ start
    zero_off = omega arith

    past :
        {xs ys : List (ℕ × ℕ)} {rest : List Block}
        → (if b.free then xs else (start + 32, b.size) ∷ xs) ≡ ys
        → At (start + 32 + b.size) xs ptr bytes after rest
        → At start ys ptr bytes after (b ∷ rest)
    past e (at pre c post live p q r) =
        let shift : start + (32 + b.size + span pre) + 32 + c.size
            ≡ start + 32 + b.size + span pre + 32 + c.size =
          omega arith in
        at (b ∷ pre) c post live (omega arith)
          (ap (λ xs. if b.free then xs else (start + 32, b.size) ∷ xs) q ∙ e)
          (ap (λ t. allocations t post) shift ∙ r)

    first :
        (before : List (ℕ × ℕ))
        → ((xs : List (ℕ × ℕ))
            → allocations (start + 32 + b.size) bs ≡ xs ++ ((ptr, bytes) ∷ after)
            → At (start + 32 + b.size) xs ptr bytes after bs)
        → b.free ≡ false
        → (start + 32, b.size) ∷ allocations (start + 32 + b.size) bs
          ≡ before ++ ((ptr, bytes) ∷ after)
        → At start before ptr bytes after (b ∷ bs)
    first [] later live e =
        at [] b bs live (ground arith) refl
          (ap (λ t. allocations (t + 32 + b.size) bs) zero_off ∙ ground arith)
    first (x ∷ xs) later live e = past (rw live (ground arith)) (later xs (ground arith))
