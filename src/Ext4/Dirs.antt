-- ===== src/Ext4/Dirs.antt =====
-- The directories of src/ext4.rs, block by block.
use pinx_kernel.Prelude.{
  ℕ, zero, suc, ◌+◌, ◌-◌, ◌/◌, not, Option, none, some, if◌then◌else◌, List, [], ◌∷◌, u32, add64,
  take,
}
use pinx_kernel.Prelude.Bytes.{to_le}
use pinx_kernel.Crc.{crc32c}
use pinx_kernel.Ext4.{FsError, Inode, DirEnt, is_dir, put_le16, put_le32, copy_at}
use pinx_kernel.Ext4.Volume.{Device, Ext4, Op, ◌>>=◌, return, run, fail, read_fsb, self}
use pinx_kernel.Ext4.Inodes.{read_inode}
use pinx_kernel.Ext4.Tree.{map_block}
use pinx_kernel.Ext4.Entries.{list_from, find_entry}

-- The bytes of a directory block that hold entries.
unfoldable pub dir_limit : {D : Device} → Ext4 D → ℕ
dir_limit s = if s.meta_csum then s.bs - 12 else s.bs

-- The blocks of a directory of `size` bytes.
abbrev pub dir_blocks : {D : Device} → Ext4 D → ℕ → ℕ
dir_blocks s size = add64 size (s.bs - 1) / s.bs

-- The block `lb` of a directory, if it is mapped.
unfoldable pub dir_block : {D : Device} → ℕ → Inode → ℕ → Op D (Option (List ℕ))
unfolding map_block read_fsb
dir_block fuel inode lb = do
  fsb ← map_block fuel inode (u32 lb)
  elim fsb [ none ↦ return none | some fsb ↦ do blk ← read_fsb fsb; return (some blk) ]

-- The loop of `read_dir` over the blocks left, from `lb` on.
unfoldable pub list_blocks :
    {D : Device} → ℕ → ℕ → Inode → (room n lb : ℕ) → List DirEnt → Op D (ℕ × List DirEnt)
unfolding dir_block list_from dir_limit
list_blocks zero fuel inode room n lb out = return (n, out)
list_blocks (suc left) fuel inode room n lb out = do
  s ← self
  blk ← dir_block fuel inode lb
  elim blk [
    | none ↦ list_blocks left fuel inode room n (lb + 1) out
    | some blk ↦ do
      (n, out) ← run (list_from (s.bs + 1) blk (dir_limit s) room n 0 out)
      list_blocks left fuel inode room n (lb + 1) out
  ]

-- `read_dir` into a buffer of `room` entries: how many there are, and those stored.
unfoldable pub read_dir : {D : Device} → ℕ → (ino room : ℕ) → Op D (ℕ × List DirEnt)
unfolding read_inode is_dir list_blocks
read_dir fuel ino room = do
  s ← self
  inode ← read_inode ino
  if not (is_dir inode)
      then fail FsError.invalid
      else list_blocks (dir_blocks s inode.size) fuel inode room 0 0 []

-- The loop of `lookup` over the blocks left, from `lb` on.
unfoldable pub find_blocks : {D : Device} → ℕ → ℕ → Inode → List ℕ → ℕ → Op D (Option ℕ)
unfolding dir_block find_entry dir_limit
find_blocks zero fuel inode name lb = return none
find_blocks (suc left) fuel inode name lb = do
  s ← self
  blk ← dir_block fuel inode lb
  elim blk [
    | none ↦ find_blocks left fuel inode name (lb + 1)
    | some blk ↦ do
      found ← run (find_entry (s.bs + 1) blk (dir_limit s) name 0)
      elim found [ none ↦ find_blocks left fuel inode name (lb + 1) | some ino ↦ return (some ino) ]
  ]

unfoldable pub lookup : {D : Device} → ℕ → ℕ → List ℕ → Op D (Option ℕ)
unfolding read_inode is_dir find_blocks
lookup fuel dir name = do
  s ← self
  inode ← read_inode dir
  if not (is_dir inode)
      then fail FsError.invalid
      else find_blocks (dir_blocks s inode.size) fuel inode name 0

-- The checksum tail of a directory block.
unfoldable pub dir_tail_csum : {D : Device} → Ext4 D → (ino gen : ℕ) → List ℕ → Op D (List ℕ)
unfolding put_le16 put_le32 copy_at crc32c to_le
dir_tail_csum s ino gen blk =
    if s.meta_csum
    then (do
      blk ← run (put_le32 blk (s.bs - 12) 0)
      blk ← run (put_le16 blk (s.bs - 8) 12)
      blk ← run (copy_at blk (s.bs - 6) (0 ∷ 0xDE ∷ []))
      let seed = crc32c (crc32c s.csum_seed (to_le 4 ino)) (to_le 4 gen)
      run (put_le32 blk (s.bs - 4) (crc32c seed (take (s.bs - 12) blk))))
    else return blk
