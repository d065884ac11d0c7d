-- ===== src/Ext4/Writing.antt =====
-- Writing to a volume of src/ext4.rs: entries of directories, the contents of files, new files.
use pinx_kernel.Prelude.{
  ℕ, zero, suc, ◌+◌, ◌-◌, ◌/◌, ◌%◌, Bool, true, false, not, ◌||◌, ◌==◌, ltb, Option, none, some,
  if◌then◌else◌, List, [], ◌∷◌, length, slice, replicate, min, max, bit_and, bit_or, add64, u32,
}
use pinx_kernel.Prelude.Run.{out_of_fuel}
use pinx_kernel.Ext4.{
  FsError, Inode, le16, le32, put_le16, wr_hdr, wr_extent, fill_entry, copy_at, is_dir, is_file,
  ext4_name_len, max_inode_size, s_ifdir, s_ifreg,
}
use pinx_kernel.Ext4.Volume.{Device, Op, ◌>>=◌, return, run, fail, read_fsb, write_fsb, self}
use pinx_kernel.Ext4.Inodes.{read_inode, write_inode}
use pinx_kernel.Ext4.Tree.{map_block, recount_blocks, ino_iblock, or_corrupt}
use pinx_kernel.Ext4.Entries.{NewEntry, place_from}
use pinx_kernel.Ext4.Dirs.{dir_limit, dir_blocks, dir_tail_csum, lookup}
use pinx_kernel.Ext4.Groups.{alloc_block, alloc_inode}
use pinx_kernel.Ext4.Growing.{insert_extent, empty_block}

-- The loop of `add_dirent` over the blocks left, from `lb` on: whether the entry is in.
unfoldable pub place_blocks : {D : Device} → ℕ → ℕ → Inode → (gen : ℕ) → NewEntry → ℕ → Op D Bool
unfolding map_block read_fsb place_from dir_limit dir_tail_csum write_fsb
place_blocks zero fuel inode gen e lb = return false
place_blocks (suc left) fuel inode gen e lb = do
  s ← self
  fsb ← map_block fuel inode (u32 lb)
  elim fsb [
    | none ↦ place_blocks left fuel inode gen e (lb + 1)
    | some fsb ↦ do
      blk ← read_fsb fsb
      placed ← run (
          place_from (s.bs + 1) blk (dir_limit s) e 0
            (record { last_pos = 0; last_rec = 0; last_actual = 0 }))
      elim placed [
        | none ↦ place_blocks left fuel inode gen e (lb + 1)
        | some blk ↦ do blk ← dir_tail_csum s inode.ino gen blk; _ ← write_fsb fsb blk; return true
      ]
  ]

-- The block counter of an inode, and the inode on the volume.
unfoldable pub settle : {D : Device} → Inode → Op D Unit
unfolding recount_blocks write_inode
settle inode = do
  blocks ← recount_blocks inode
  _ ← write_inode (record inode { blocks = blocks })
  return tt

-- A fresh block of `add_dirent`, with the entry alone.
unfoldable pub append_block : {D : Device} → Inode → (gen : ℕ) → NewEntry → Op D Unit
unfolding alloc_block fill_entry dir_limit dir_tail_csum write_fsb insert_extent settle
append_block inode gen e = do
  s ← self
  fsb ← alloc_block
  nb ← run (fill_entry empty_block 0 (dir_limit s) e.target e.ft e.name)
  nb ← dir_tail_csum s inode.ino gen nb
  _ ← write_fsb fsb nb
  raw ← insert_extent inode (u32 (dir_blocks s inode.size)) fsb
  settle (record inode { raw = raw; size = add64 inode.size s.bs })

unfoldable pub add_dirent : {D : Device} → (fuel dir : ℕ) → NewEntry → Op D Unit
unfolding read_inode is_dir le32 place_blocks append_block
add_dirent fuel dir e =
    if length e.name == 0 || ltb ext4_name_len (length e.name) then fail FsError.invalid else do
      s ← self
      inode ← read_inode dir
      if not (is_dir inode)
          then fail FsError.invalid
          else (if not (bit_and inode.flags 0x1000 == 0) then fail FsError.read_only else (do
            gen ← run (le32 inode.raw 0x64)
            placed ← place_blocks (dir_blocks s inode.size) fuel inode gen e 0
            if placed then return tt else append_block inode gen e))

-- The block of `write_file` that `lb` is mapped to, its bytes, and the slot of the inode; a block
-- that is not mapped is allocated, and reads as zeros.
unfoldable pub block_for : {D : Device} → ℕ → Inode → ℕ → Op D (List ℕ × List ℕ)
unfolding map_block read_fsb alloc_block insert_extent
block_for fuel inode lb = do
  fsb ← map_block fuel inode lb
  elim fsb [
    | some fsb ↦ do blk ← read_fsb fsb; return (blk, inode.raw)
    | none ↦ do fsb ← alloc_block; raw ← insert_extent inode lb fsb; return (empty_block, raw)
  ]

-- The loop of `write_file`, with the rounds left, from `done` on: the slot of the inode.
unfoldable pub write_parts :
    {D : Device} → ℕ → ℕ → Inode → (offset : ℕ) → List ℕ → (done : ℕ) → Op D (List ℕ)
unfolding block_for map_block copy_at write_fsb
write_parts zero fuel inode offset buf done =
    if ltb done (length buf) then run out_of_fuel else return inode.raw
write_parts (suc left) fuel inode offset buf done =
    if ltb done (length buf)
    then (do
      s ← self
      let cur = add64 offset done
      let count = min (s.bs - cur % s.bs) (length buf - done)
      (blk, raw) ← block_for fuel inode (u32 (cur / s.bs))
      mapped ← map_block fuel (record inode { raw = raw }) (u32 (cur / s.bs))
      fsb ← or_corrupt mapped
      blk ← run (copy_at blk (cur % s.bs) (slice done count buf))
      _ ← write_fsb fsb blk
      write_parts left fuel (record inode { raw = raw }) offset buf (done + count))
    else return inode.raw

unfoldable pub write_file : {D : Device} → (fuel ino offset : ℕ) → List ℕ → Op D Unit
unfolding read_inode is_file write_parts settle
write_file fuel ino offset buf = if length buf == 0 then return tt else do
  inode ← read_inode ino
  if not (is_file inode) then fail FsError.invalid else (do
    raw ← write_parts (length buf) fuel inode offset buf 0
    settle (record inode { raw = raw; size = max inode.size (add64 offset (length buf)) }))

-- The slot of a new inode: an empty extent tree, its links, and the size of its extra fields.
unfoldable pub new_slot : {D : Device} → Bool → Op D (List ℕ)
unfolding wr_hdr put_le16
new_slot is_dir = do
  raw ← run (wr_hdr (replicate max_inode_size 0) ino_iblock 0 4 0)
  raw ← run (put_le16 raw 0x1A (if is_dir then 2 else 1))
  run (put_le16 raw 0x80 28)

-- The first block of a new directory, with `.` and `..`, and its inode.
unfoldable pub first_block : {D : Device} → (ino dir : ℕ) → Inode → Op D Inode
unfolding alloc_block fill_entry dir_limit dir_tail_csum write_fsb wr_hdr wr_extent
first_block ino dir inode = do
  s ← self
  fsb ← alloc_block
  nb ← run (fill_entry empty_block 0 12 ino 2 (b'.' ∷ []))
  nb ← run (fill_entry nb 12 (dir_limit s - 12) dir 2 (b'.' ∷ b'.' ∷ []))
  nb ← dir_tail_csum s ino 0 nb
  _ ← write_fsb fsb nb
  raw ← run (wr_hdr inode.raw ino_iblock 1 4 0)
  raw ← run (wr_extent raw ino_iblock 0 0 1 fsb)
  return (record inode { raw = raw; size = s.bs; blocks = s.bs / 512 })

-- One more link to the parent.
unfoldable pub add_link : {D : Device} → ℕ → Op D Unit
unfolding read_inode le16 put_le16 write_inode
add_link dir = do
  parent ← read_inode dir
  links ← run (le16 parent.raw 0x1A)
  raw ← run (put_le16 parent.raw 0x1A (links + 1))
  _ ← write_inode (record parent { raw = raw })
  return tt

abbrev pub is_some : {A : Type 0} → Option A → Bool
is_some none = false
is_some (some a) = true

unfoldable pub new_inode : ℕ → Bool → List ℕ → Inode
new_inode ino is_dir raw = record {
  ino = ino;
  mode = if is_dir then bit_or s_ifdir 493 else bit_or s_ifreg 420;
  size = 0;
  blocks = 0;
  flags = 0x80000;
  raw = raw;
}

unfoldable pub create : {D : Device} → (fuel dir : ℕ) → List ℕ → Bool → Op D ℕ
unfolding lookup alloc_inode new_slot new_inode first_block write_inode add_dirent add_link
create fuel dir name is_dir = do
  there ← lookup fuel dir name
  if is_some there then fail FsError.already_exists else (do
    ino ← alloc_inode is_dir
    raw ← new_slot is_dir
    inode ←
        if is_dir
        then first_block ino dir (new_inode ino is_dir raw)
        else return (new_inode ino is_dir raw)
    _ ← write_inode inode
    _ ← add_dirent fuel dir (record { target = ino; ft = if is_dir then 2 else 1; name = name })
    _ ← if is_dir then add_link dir else return tt
    return ino)

unfoldable pub create_file : {D : Device} → (fuel dir : ℕ) → List ℕ → Op D ℕ
unfolding create
create_file fuel dir name = create fuel dir name false

unfoldable pub create_dir : {D : Device} → (fuel dir : ℕ) → List ℕ → Op D ℕ
unfolding create
create_dir fuel dir name = create fuel dir name true
