-- ===== src/Ext4/Tree.antt =====
-- The walks of src/ext4.rs over a whole extent tree, from the inode down.
use pinx_kernel.Prelude.{
  ℕ, zero, suc, ◌+◌, ◌/◌, ◌==◌, Option, none, some, if◌then◌else◌, List, add64, mul64,
}
use pinx_kernel.Prelude.Run.{out_of_fuel}
use pinx_kernel.Ext4.{FsError, Inode, rd_hdr, rd_index}
use pinx_kernel.Ext4.Volume.{Device, Op, ◌>>=◌, return, run, fail, read_fsb, self}
use pinx_kernel.Ext4.Extents.{scan_leaf, scan_index, leaf_sum}

-- Where the extent header of an inode stands in its slot.
abbrev pub ino_iblock : ℕ
ino_iblock = 0x28

-- The loop of `map_block` from a node on, which has `entries` entries at `base` of `src`. A child
-- in block 0 is taken for the root, whose bytes `raw` are then read on. Nothing but the fuel bounds
-- the number of nodes that are visited.
unfoldable pub map_node :
    {D : Device} → ℕ → (raw src : List ℕ) → (base entries depth lb : ℕ) → Op D (Option ℕ)
unfolding rd_hdr scan_leaf scan_index read_fsb
map_node zero raw src base entries depth lb = run out_of_fuel
map_node (suc fuel) raw src base entries depth lb =
    if depth == 0 then run (scan_leaf entries src base lb 0) else do
      child ← run (scan_index entries src base entries lb 0)
      elim child [
        | none ↦ return none
        | some child ↦ do
          blk ← read_fsb child
          header ← run (rd_hdr blk 0)
          elim header [
            | none ↦ return none
            | some (e, m, d) ↦ map_node fuel raw (if child == 0 then raw else blk) 0 e d lb
          ]
      ]

unfoldable pub map_block : {D : Device} → ℕ → Inode → ℕ → Op D (Option ℕ)
unfolding map_node rd_hdr
map_block fuel inode lb = do
  header ← run (rd_hdr inode.raw ino_iblock)
  elim header [
    | none ↦ return none
    | some (entries, max, depth) ↦ map_node fuel inode.raw inode.raw ino_iblock entries depth lb
  ]

-- `ok_or(FsError::Corrupt)`.
abbrev pub or_corrupt : {D : Device} {A : Type 0} → Option A → Op D A
or_corrupt none = fail FsError.corrupt
or_corrupt (some a) = return a

-- The loop of `node_sum` over an index node, the sum of a child being given.
unfoldable pub index_sum :
    {D : Device} → ℕ → (child_sum : List ℕ → Op D ℕ) → List ℕ → (base i total : ℕ) → Op D ℕ
unfolding rd_index read_fsb
index_sum zero child_sum node base i total = return total
index_sum (suc left) child_sum node base i total = do
  e ← run (rd_index node base i)
  (eb, child) ← or_corrupt e
  blk ← read_fsb child
  n ← child_sum blk
  index_sum left child_sum node base (i + 1) (add64 total n)

unfoldable pub node_sum : {D : Device} → (depth : ℕ) → List ℕ → ℕ → Op D ℕ
unfolding rd_hdr leaf_sum index_sum
node_sum zero node base = do
  header ← run (rd_hdr node base)
  elim header [ none ↦ return 0 | some (entries, max, d) ↦ run (leaf_sum entries node base 0 0) ]
node_sum (suc depth) node base = do
  header ← run (rd_hdr node base)
  elim header [
    | none ↦ return 0
    | some (entries, max, d) ↦ index_sum entries (λ blk. node_sum depth blk 0) node base 0 0
  ]

unfoldable pub recount_blocks : {D : Device} → Inode → Op D ℕ
unfolding rd_hdr node_sum
recount_blocks inode = do
  s ← self
  header ← run (rd_hdr inode.raw ino_iblock)
  elim header [
    | none ↦ return 0
    | some (entries, max, depth) ↦ do
      total ← node_sum depth inode.raw ino_iblock
      return (mul64 total (s.bs / 512))
  ]
