-- ===== src/Ext4/Reading.antt =====
-- `read_file` of src/ext4.rs.
use pinx_kernel.Prelude.{
  ℕ, zero, suc, ◌+◌, ◌-◌, ◌/◌, ◌%◌, not, ◌==◌, ltb, leb, none, some, if◌then◌else◌, List, [], ◌++◌,
  replicate, slice, min, u32,
}
use pinx_kernel.Prelude.Run.{out_of_fuel}
use pinx_kernel.Ext4.{FsError, Inode, is_file}
use pinx_kernel.Ext4.Volume.{Device, Op, ◌>>=◌, return, run, fail, read_fsb, self}
use pinx_kernel.Ext4.Inodes.{read_inode}
use pinx_kernel.Ext4.Tree.{map_block}

-- The part `in_off..in_off + count` of block `lb` of the file, zeros where nothing is mapped.
unfoldable pub read_part : {D : Device} → ℕ → Inode → (lb in_off count : ℕ) → Op D (List ℕ)
unfolding map_block read_fsb
read_part fuel inode lb in_off count = do
  fsb ← map_block fuel inode (u32 lb)
  elim fsb [
    | none ↦ return (replicate count 0)
    | some fsb ↦ do blk ← read_fsb fsb; return (slice in_off count blk)
  ]

-- The loop of `read_file`, with the rounds left, from `done` on; the bytes that it reads.
unfoldable pub read_parts : {D : Device} → ℕ → ℕ → Inode → (offset take done : ℕ) → Op D (List ℕ)
unfolding read_part
read_parts zero fuel inode offset take done = if ltb done take then run out_of_fuel else return []
read_parts (suc left) fuel inode offset take done =
    if ltb done take
    then (do
      s ← self
      let cur = offset + done
      let count = min (s.bs - cur % s.bs) (take - done)
      part ← read_part fuel inode (cur / s.bs) (cur % s.bs) count
      rest ← read_parts left fuel inode offset take (done + count)
      return (part ++ rest))
    else return []

-- `read_file` into a buffer of `buf_len` bytes: the bytes it puts there, whose number it returns.
unfoldable pub read_file : {D : Device} → ℕ → (ino offset buf_len : ℕ) → Op D (List ℕ)
unfolding read_inode is_file read_parts
read_file fuel ino offset buf_len = if buf_len == 0 then return [] else do
  inode ← read_inode ino
  if not (is_file inode)
      then fail FsError.invalid
      else (if leb inode.size offset
          then return []
          else read_parts (min (inode.size - offset) buf_len) fuel inode offset
              (min (inode.size - offset) buf_len) 0)
