-- ===== src/Ext4/Extents.antt =====
-- One node of the extent trees of src/ext4.rs: the search of `map_block` in a leaf and in an index
-- node, and the sum of the lengths in a leaf.
use pinx_kernel.Prelude.{
  ℕ, zero, suc, ◌+◌, ◌-◌, ◌&&◌, ltb, leb, Option, none, some, if◌then◌else◌, List, add64, u32,
}
use pinx_kernel.Prelude.Run.{Run, ret, ◌>>=◌}
use pinx_kernel.Ext4.{rd_extent, rd_index}

-- Whether the extent covers `lb`, and the block it gives.
unfoldable pub covers : ℕ → Option (ℕ × ℕ × ℕ) → Option ℕ
covers lb none = none
covers lb (some (eb, elen, pb)) =
    if leb eb lb && ltb lb (u32 (eb + elen)) then some (add64 pb (lb - eb)) else none

-- What was found, or what the rest of the loop finds.
abbrev pub or_else : {A : Type 0} → Option A → Run (Option A) → Run (Option A)
or_else none rest = rest
or_else (some a) rest = ret (some a)

-- The loop of a leaf of `map_block` over the entries left, from `i` on.
unfoldable pub scan_leaf : ℕ → List ℕ → (base lb i : ℕ) → Run (Option ℕ)
unfolding rd_extent covers
scan_leaf zero src base lb i = ret none
scan_leaf (suc left) src base lb i = do
  e ← rd_extent src base i
  or_else (covers lb e) (scan_leaf left src base lb (i + 1))

-- The first block of the next index, or the largest block number.
abbrev pub bound : Option (ℕ × ℕ) → ℕ
bound none = 0xFFFF_FFFF
bound (some (eb, child)) = eb

unfoldable pub next_bound : List ℕ → (base entries i : ℕ) → Run ℕ
unfolding rd_index
next_bound src base entries i =
    if ltb (i + 1) entries
    then (do e ← rd_index src base (i + 1); ret (bound e))
    else ret 0xFFFF_FFFF

-- The child whose range covers `lb`.
unfoldable pub leads : ℕ → ℕ → Option (ℕ × ℕ) → Option ℕ
leads lb next none = none
leads lb next (some (eb, child)) = if leb eb lb && ltb lb next then some child else none

-- The loop of an index node of `map_block`.
unfoldable pub scan_index : ℕ → List ℕ → (base entries lb i : ℕ) → Run (Option ℕ)
unfolding rd_index next_bound leads
scan_index zero src base entries lb i = ret none
scan_index (suc left) src base entries lb i = do
  e ← rd_index src base i
  next ← next_bound src base entries i
  or_else (leads lb next e) (scan_index left src base entries lb (i + 1))

abbrev pub extent_len : Option (ℕ × ℕ × ℕ) → ℕ
extent_len none = 0
extent_len (some (eb, elen, pb)) = elen

-- The loop of `node_sum` over a leaf.
unfoldable pub leaf_sum : ℕ → List ℕ → (base i total : ℕ) → Run ℕ
unfolding rd_extent
leaf_sum zero node base i total = ret total
leaf_sum (suc left) node base i total = do
  e ← rd_extent node base i
  leaf_sum left node base (i + 1) (total + extent_len e)
