-- ===== src/Ext4/Growing.antt =====
-- How src/ext4.rs adds a block to an extent tree.
use pinx_kernel.Prelude.{
  ℕ, zero, suc, ◌+◌, ◌-◌, ◌*◌, ◌/◌, Bool, true, false, ◌&&◌, ◌==◌, ltb, leb, Option, none, some,
  if◌then◌else◌, List, replicate, take, u16, u32,
}
use pinx_kernel.Prelude.Bytes.{to_le}
use pinx_kernel.Crc.{crc32c}
use pinx_kernel.Ext4.{
  FsError, Inode, le32, rd_hdr, wr_hdr, rd_extent, wr_extent, rd_index, wr_index, put_le32,
  max_block_size,
}
use pinx_kernel.Ext4.Volume.{Device, Ext4, Op, ◌>>=◌, return, run, fail, read_fsb, write_fsb, self}
use pinx_kernel.Ext4.Tree.{ino_iblock, or_corrupt}
use pinx_kernel.Ext4.Groups.{alloc_block}

unfoldable pub leaf_max : {D : Device} → Ext4 D → ℕ
leaf_max s = u16 ((s.bs - 12) / 12)

abbrev pub empty_block : List ℕ
empty_block = replicate max_block_size 0

unfoldable pub extent_block_csum :
    {D : Device} → Ext4 D → (ino gen : ℕ) → List ℕ → (max : ℕ) → Op D (List ℕ)
unfolding put_le32 crc32c to_le
extent_block_csum s ino gen blk max =
    let tail = 12 + 12 * max in
    let seed = crc32c (crc32c s.csum_seed (to_le 4 ino)) (to_le 4 gen) in
    if s.meta_csum then run (put_le32 blk tail (crc32c seed (take tail blk))) else return blk

-- The block with its last extent one longer, when `lb -> pblock` continues it.
unfoldable pub lengthened :
    {D : Device} → List ℕ → (base entries lb pblock : ℕ) → Op D (Option (List ℕ))
unfolding rd_extent wr_extent
lengthened b base entries lb pblock = if entries == 0 then return none else do
  last ← run (rd_extent b base (entries - 1))
  elim last [
    | none ↦ return none
    | some (eb, elen, pb) ↦
        if u32 (eb + elen) == lb && pb + elen == pblock
        then (do b ← run (wr_extent b base (entries - 1) eb (elen + 1) pb); return (some b))
        else return none
  ]

-- A new extent of one block behind the others, and the header with one entry more.
unfoldable pub appended : {D : Device} → List ℕ → (base entries max lb pblock : ℕ) → Op D (List ℕ)
unfolding wr_extent wr_hdr
appended b base entries max lb pblock = do
  b ← run (wr_extent b base entries lb 1 pblock)
  run (wr_hdr b base (entries + 1) max 0)

-- The loops that copy extents to another block: the entry `i` goes to the place `j`.
unfoldable pub copy_extents :
    {D : Device} → ℕ → (src : List ℕ) → (base i j : ℕ) → List ℕ → Op D (List ℕ)
unfolding rd_extent wr_extent
copy_extents zero src base i j blk = return blk
copy_extents (suc left) src base i j blk = do
  e ← run (rd_extent src base i)
  elim e [
    | none ↦ copy_extents left src base (i + 1) (j + 1) blk
    | some (eb, elen, pb) ↦ do
      blk ← run (wr_extent blk 0 j eb elen pb)
      copy_extents left src base (i + 1) (j + 1) blk
  ]

-- The extents in the inode moved to a leaf of their own.
unfoldable pub deepen : {D : Device} → Inode → (entries max gen : ℕ) → Op D (List ℕ)
unfolding leaf_max copy_extents wr_hdr extent_block_csum write_fsb wr_index
deepen inode entries max gen = do
  s ← self
  leaf ← alloc_block
  blk ← copy_extents entries inode.raw ino_iblock 0 0 empty_block
  blk ← run (wr_hdr blk 0 entries (leaf_max s) 0)
  blk ← extent_block_csum s inode.ino gen blk (leaf_max s)
  _ ← write_fsb leaf blk
  raw ← run (wr_hdr inode.raw ino_iblock 1 max 1)
  run (wr_index raw ino_iblock 0 0 leaf)

-- The first block of the upper half of a leaf, 0 if its first extent is not written.
abbrev pub first_lb : Option (ℕ × ℕ × ℕ) → ℕ
first_lb none = 0
first_lb (some (eb, elen, pb)) = eb

-- The upper half of a full leaf moved to a new one; the slot of the inode with the index of it.
unfoldable pub split_leaf :
    {D : Device} → Inode → (gen entries rmax leaf le lmax : ℕ) → List ℕ → Op D (List ℕ)
unfolding copy_extents rd_extent wr_hdr extent_block_csum write_fsb wr_index
split_leaf inode gen entries rmax leaf le lmax blk = do
  s ← self
  let half = le / 2
  if half == 0 then fail FsError.no_space else (do
    new_leaf ← alloc_block
    nb ← copy_extents (le - half) blk 0 half 0 empty_block
    upper ← run (rd_extent blk 0 half)
    blk ← run (wr_hdr blk 0 half lmax 0)
    nb ← run (wr_hdr nb 0 (le - half) lmax 0)
    blk ← extent_block_csum s inode.ino gen blk lmax
    nb ← extent_block_csum s inode.ino gen nb lmax
    _ ← write_fsb leaf blk
    _ ← write_fsb new_leaf nb
    if leb rmax entries then fail FsError.no_space else (do
      raw ← run (wr_index inode.raw ino_iblock entries (first_lb upper) new_leaf)
      run (wr_hdr raw ino_iblock (entries + 1) rmax 1)))

-- A leaf that took the mapping, stamped and written.
unfoldable pub write_leaf : {D : Device} → Inode → (gen leaf lmax : ℕ) → List ℕ → Op D Unit
unfolding extent_block_csum write_fsb
write_leaf inode gen leaf lmax blk = do
  s ← self
  blk ← extent_block_csum s inode.ino gen blk lmax
  write_fsb leaf blk

-- `place_in_rightmost_leaf`: whether the mapping is in, and the slot of the inode.
unfoldable pub place_in_rightmost_leaf :
    {D : Device} → Inode → (lb pblock : ℕ) → Op D (Bool × List ℕ)
unfolding rd_hdr rd_index le32 read_fsb lengthened appended write_leaf split_leaf
place_in_rightmost_leaf inode lb pblock = do
  header ← run (rd_hdr inode.raw ino_iblock)
  (entries, rmax, depth) ← or_corrupt header
  index ← run (rd_index inode.raw ino_iblock (u16 (entries + 0xFFFF)))
  (first, leaf) ← or_corrupt index
  gen ← run (le32 inode.raw 0x64)
  blk ← read_fsb leaf
  leaf_header ← run (rd_hdr blk 0)
  (le, lmax, leaf_depth) ← or_corrupt leaf_header
  longer ← lengthened blk 0 le lb pblock
  elim longer [
    | some blk ↦ do _ ← write_leaf inode gen leaf lmax blk; return (true, inode.raw)
    | none ↦
        if ltb le lmax
        then (do
          blk ← appended blk 0 le lmax lb pblock
          _ ← write_leaf inode gen leaf lmax blk
          return (true, inode.raw))
        else (do raw ← split_leaf inode gen entries rmax leaf le lmax blk; return (false, raw))
  ]

-- The loop of `insert_extent` over the two tries.
unfoldable pub place_tries : {D : Device} → ℕ → Inode → (lb pblock : ℕ) → Op D (List ℕ)
unfolding place_in_rightmost_leaf
place_tries zero inode lb pblock = fail FsError.no_space
place_tries (suc left) inode lb pblock = do
  (done, raw) ← place_in_rightmost_leaf inode lb pblock
  if done then return raw else place_tries left (record inode { raw = raw }) lb pblock

-- The root of `insert_extent` at depth 0: the slot of the inode, and whether the mapping is in.
unfoldable pub insert_root :
    {D : Device} → Inode → (entries max gen lb pblock : ℕ) → Op D (Bool × List ℕ)
unfolding lengthened appended deepen
insert_root inode entries max gen lb pblock = do
  longer ← lengthened inode.raw ino_iblock entries lb pblock
  elim longer [
    | some raw ↦ return (true, raw)
    | none ↦
        if ltb entries max
        then (do raw ← appended inode.raw ino_iblock entries max lb pblock; return (true, raw))
        else (do raw ← deepen inode entries max gen; return (false, raw))
  ]

-- `insert_extent` where the inode has a header.
unfoldable pub insert_at : {D : Device} → Inode → (entries max depth lb pblock : ℕ) → Op D (List ℕ)
unfolding le32 insert_root place_tries
insert_at inode entries max depth lb pblock = do
  gen ← run (le32 inode.raw 0x64)
  (done, raw) ←
      if depth == 0 then insert_root inode entries max gen lb pblock else return (false, inode.raw)
  if done then return raw else place_tries 2 (record inode { raw = raw }) lb pblock

-- `insert_extent`: the slot of the inode with the mapping.
unfoldable pub insert_extent : {D : Device} → Inode → (lb pblock : ℕ) → Op D (List ℕ)
unfolding rd_hdr wr_hdr insert_at
insert_extent inode lb pblock = do
  header ← run (rd_hdr inode.raw ino_iblock)
  elim header [
    | some (entries, max, depth) ↦ insert_at inode entries max depth lb pblock
    | none ↦ do
      raw ← run (wr_hdr inode.raw ino_iblock 0 4 0)
      insert_at (record inode { raw = raw }) 0 4 0 lb pblock
  ]
