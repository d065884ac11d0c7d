-- ===== src/Ext4/Inodes.antt =====
-- Inodes of src/ext4.rs: where they lie, and how they are read and written back.
use pinx_kernel.Prelude.{
  ℕ, ◌+◌, ◌-◌, ◌*◌, ◌/◌, ◌%◌, Bool, false, ltb, leb, if◌then◌else◌, List, [], ◌∷◌, ◌++◌, length,
  take, slice, replicate, bit_or, ◌<<<◌, ◌>>>◌, mul64, add64, u32,
}
use pinx_kernel.Prelude.Run.{Run, panic, ret}
use pinx_kernel.Prelude.Bytes.{to_le}
use pinx_kernel.Crc.{crc32c}
use pinx_kernel.Ext4.{Inode, le16, le32, put_le16, put_le32, copy_at, cut, max_inode_size}
use pinx_kernel.Ext4.Volume.{
  Device, Ext4, Op, ◌>>=◌, return, run, self, group_descriptor, gd_u32, read_fsb, write_fsb,
}

-- `ino - 1` on `u32`, as a release build computes it.
abbrev pub before : ℕ → ℕ
before ino = u32 (ino + 0xFFFF_FFFF)

unfoldable pub inode_location : {D : Device} → ℕ → Op D (ℕ × ℕ)
unfolding group_descriptor gd_u32
inode_location ino = do
  s ← self
  gd ← group_descriptor (before ino / s.ipg)
  table ← gd_u32 s gd 0x08 0x28
  let byte = add64 (mul64 table s.bs) (before ino % s.ipg * s.inode_size)
  return (byte / s.bs, byte % s.bs)

-- A field in two halves of 32 bits, the high one with the 64-bit feature.
abbrev pub wide : {D : Device} → Ext4 D → List ℕ → (lo hi : ℕ) → Op D ℕ
wide s raw lo hi =
    if s.has_64bit
    then (do low ← run (le32 raw lo); high ← run (le32 raw hi); return (bit_or low (high <<< 32)))
    else run (le32 raw lo)

unfoldable pub read_inode : {D : Device} → ℕ → Op D Inode
unfolding inode_location read_fsb le16 le32
read_inode ino = do
  s ← self
  (block, off) ← inode_location ino
  buf ← read_fsb block
  raw ← run (cut buf off s.inode_size)
  mode ← run (le16 raw 0x00)
  size ← wide s raw 0x04 0x6C
  blocks ← wide s raw 0x1C 0x74
  flags ← run (le32 raw 0x20)
  return (record {
    ino = ino;
    mode = mode;
    size = size;
    blocks = blocks;
    flags = flags;
    raw = raw ++ replicate (max_inode_size - length raw) 0;
  })

-- The fields of `inode`, into the bytes of its slot.
unfoldable pub put_fields : {D : Device} → Ext4 D → Inode → Op D (List ℕ)
unfolding put_le16 put_le32
put_fields s inode = do
  raw ← run (put_le16 inode.raw 0x00 inode.mode)
  raw ← run (put_le32 raw 0x04 inode.size)
  raw ← run (put_le32 raw 0x1C inode.blocks)
  raw ← run (put_le32 raw 0x20 inode.flags)
  if s.has_64bit
      then (do
        raw ← run (put_le32 raw 0x6C (inode.size >>> 32))
        run (put_le32 raw 0x74 (inode.blocks >>> 32)))
      else return raw

-- Whether the slot has room for the high half of the checksum.
unfoldable pub fits_hi : {D : Device} → Ext4 D → List ℕ → Op D Bool
unfolding le16
fits_hi s raw =
    if ltb 128 s.inode_size
    then (do extra ← run (le16 raw 0x80); return (leb 4 extra))
    else return false

-- The checksum of the slot, its own fields read as zero.
unfoldable pub inode_csum : {D : Device} → Ext4 D → ℕ → List ℕ → (gen : ℕ) → Bool → Run ℕ
unfolding crc32c to_le
inode_csum s ino raw gen fits =
    let seed = crc32c (crc32c s.csum_seed (to_le 4 ino)) (to_le 4 gen) in
    let low = crc32c (crc32c (crc32c seed (take 0x7C raw)) (0 ∷ 0 ∷ [])) (slice 0x7E 2 raw) in
    let mid = crc32c low (slice 0x80 2 raw) in
    let tail = if fits then 0x84 else 0x82 in
    let before_tail = if fits then crc32c mid (0 ∷ 0 ∷ []) else mid in
    if ltb 128 s.inode_size
    then if ltb s.inode_size tail
      then panic
      else ret (crc32c before_tail (slice tail (s.inode_size - tail) raw))
    else ret low

unfoldable pub stamp_inode : {D : Device} → Ext4 D → ℕ → List ℕ → Op D (List ℕ)
unfolding le32 fits_hi inode_csum put_le16
stamp_inode s ino raw =
    if s.meta_csum
    then (do
      gen ← run (le32 raw 0x64)
      fits ← fits_hi s raw
      csum ← run (inode_csum s ino raw gen fits)
      raw ← run (put_le16 raw 0x7C csum)
      if fits then run (put_le16 raw 0x82 (csum >>> 16)) else return raw)
    else return raw

-- `write_inode`, and the slot as it now is.
unfoldable pub write_inode : {D : Device} → Inode → Op D Inode
unfolding inode_location read_fsb put_fields stamp_inode copy_at write_fsb
write_inode inode = do
  s ← self
  (block, off) ← inode_location inode.ino
  buf ← read_fsb block
  raw ← put_fields s inode
  raw ← stamp_inode s inode.ino raw
  buf ← run (copy_at buf off (take s.inode_size raw))
  _ ← write_fsb block buf
  return (record inode { raw = raw })
