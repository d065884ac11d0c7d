-- ===== src/Ext4/Alloc.antt =====
-- Allocation in src/ext4.rs: the bitmaps, the group descriptors, and the counters.
use pinx_kernel.Prelude.{
  ℕ, zero, suc, ◌+◌, ◌-◌, ◌*◌, ◌/◌, ◌%◌, Bool, true, not, ◌&&◌, ◌||◌, ◌==◌, ltb, leb, Option, none,
  some, if◌then◌else◌, List, length, get_or, set, bit_or, bit_and, ◌<<<◌, add64,
}
use pinx_kernel.Prelude.Run.{Run, panic, out_of_fuel, ret}
use pinx_kernel.Ext4.{FsError}
use pinx_kernel.Ext4.Volume.{
  Device, Ext4, Op, Answer, ok, err, ◌>>=◌, return, run, fail, read_fsb, write_fsb, self,
  group_descriptor, gd_u32,
}

-- The bitmap's block: that of the inodes, or that of the blocks.
unfoldable pub read_bitmap : {D : Device} → ℕ → Bool → Op D ℕ
unfolding group_descriptor gd_u32
read_bitmap group want_inode = do
  s ← self
  gd ← group_descriptor group
  if want_inode then gd_u32 s gd 0x04 0x24 else gd_u32 s gd 0x00 0x20

-- The blocks of group 0 that the descriptors take.
unfoldable pub reserved_end : {D : Device} → Ext4 D → ℕ
reserved_end s = s.gdt_fsb + (s.num_groups * s.desc_size + s.bs - 1) / s.bs + s.reserved_gdt_blocks

-- Whether the descriptor `gd` gives the block to the group's own bitmaps and inode table.
unfoldable pub is_metadata : {D : Device} → List ℕ → ℕ → Op D Bool
unfolding gd_u32
is_metadata gd fsb = do
  s ← self
  bb ← gd_u32 s gd 0x00 0x20
  ib ← gd_u32 s gd 0x04 0x24
  it ← gd_u32 s gd 0x08 0x28
  let it_blocks = (s.inodes_total / s.num_groups * s.inode_size + s.bs - 1) / s.bs
  return (fsb == bb || fsb == ib || (leb it fsb && ltb fsb (add64 it it_blocks)))

-- An error counts as reserved.
abbrev pub or_true : {D : Device} → Ext4 D → Run (Answer Bool × Ext4 D) → Run (Answer Bool × Ext4 D)
or_true s panic = panic
or_true s out_of_fuel = out_of_fuel
or_true s (ret (ok b, s')) = ret (ok b, s')
or_true s (ret (err e, s')) = ret (ok true, s')

unfoldable pub block_reserved : {D : Device} → (group fsb : ℕ) → Op D Bool
unfolding reserved_end group_descriptor is_metadata
block_reserved group fsb s =
    if group == 0 && ltb fsb (reserved_end s)
    then ret (ok true, s)
    else or_true s ((group_descriptor group >>= (λ gd. is_metadata gd fsb)) s)

-- `bm[by] |= 1 << bit`.
unfoldable pub mark_bit : List ℕ → (by bit : ℕ) → List ℕ
mark_bit bm by bit = set bm by (bit_or (get_or bm by 0) (1 <<< bit))

-- Whether `alloc_bit` takes the unit `idx` of the group, and its number: of an inode, or of a
-- block that is inside the volume and not reserved.
unfoldable pub candidate : {D : Device} → Bool → (group idx : ℕ) → Op D (Option ℕ)
unfolding block_reserved
candidate want_inode group idx = do
  s ← self
  let fsb = s.first_data_block + group * s.bpg + idx
  if want_inode
      then return (some (group * s.ipg + idx + 1))
      else (if leb s.blocks_total fsb then return none else (do
        reserved ← block_reserved group fsb
        return (if reserved then none else some fsb)))

-- The loops of `alloc_bit` over one bitmap, from the unit `idx` on, a unit being a bit.
unfoldable pub scan_bits :
    {D : Device} → ℕ → Bool → (group bitmap_fsb : ℕ) → List ℕ → ℕ → Op D (Option ℕ)
unfolding candidate mark_bit write_fsb
scan_bits zero want_inode group bitmap_fsb bm idx = return none
scan_bits (suc left) want_inode group bitmap_fsb bm idx =
    if leb (length bm) (idx / 8)
    then run panic
    else if not (bit_and (get_or bm (idx / 8) 0) (1 <<< (idx % 8)) == 0)
    then scan_bits left want_inode group bitmap_fsb bm (idx + 1)
    else (do
      unit ← candidate want_inode group idx
      elim unit [
        | none ↦ scan_bits left want_inode group bitmap_fsb bm (idx + 1)
        | some n ↦ do _ ← write_fsb bitmap_fsb (mark_bit bm (idx / 8) (idx % 8)); return (some n)
      ])

-- The loop of `alloc_bit` over the groups left, from `group` on.
unfoldable pub scan_groups : {D : Device} → ℕ → Bool → ℕ → Op D ℕ
unfolding read_bitmap read_fsb scan_bits
scan_groups zero want_inode group = fail FsError.no_space
scan_groups (suc left) want_inode group = do
  s ← self
  bitmap_fsb ← read_bitmap group want_inode
  bm ← read_fsb bitmap_fsb
  unit ← scan_bits ((if want_inode then s.ipg else s.bpg) / 8 * 8) want_inode group bitmap_fsb bm 0
  elim unit [ none ↦ scan_groups left want_inode (group + 1) | some n ↦ return n ]

unfoldable pub alloc_bit : {D : Device} → Bool → Op D ℕ
unfolding scan_groups
alloc_bit want_inode = do s ← self; scan_groups s.num_groups want_inode 0
