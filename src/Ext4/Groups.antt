-- ===== src/Ext4/Groups.antt =====
-- The group descriptors and the counters of src/ext4.rs, and the allocation of a block or an inode.
use pinx_kernel.Prelude.{
  ℕ, ◌+◌, ◌-◌, ◌*◌, ◌/◌, ◌%◌, ◌^◌, Bool, true, false, not, ◌==◌, ltb, leb, Option, none, some,
  if◌then◌else◌, List, [], ◌∷◌, take, slice, min, bit_or, ◌<<<◌, ◌>>>◌, u16, u32, sub64,
}
use pinx_kernel.Prelude.Run.{ret}
use pinx_kernel.Prelude.Bytes.{to_le}
use pinx_kernel.Crc.{crc32c}
use pinx_kernel.Ext4.{le16, put_le16, put_le32, copy_at, cut}
use pinx_kernel.Ext4.Volume.{
  Device, Ext4, Op, ok, ◌>>=◌, return, run, read_fsb, write_fsb, self, group_descriptor, gd_u16,
}
use pinx_kernel.Ext4.Inodes.{before}
use pinx_kernel.Ext4.Alloc.{read_bitmap, alloc_bit}

-- `push_group`.
unfoldable pub push_group : {D : Device} → ℕ → List ℕ → Op D Unit
unfolding read_fsb copy_at write_fsb
push_group group gd = do
  s ← self
  let byte = s.gdt_fsb * s.bs + group * s.desc_size
  buf ← read_fsb (byte / s.bs)
  buf ← run (copy_at buf (byte % s.bs) gd)
  write_fsb (byte / s.bs) buf

-- The checksum of a descriptor, its own field read as zero.
unfoldable pub group_csum : {D : Device} → Ext4 D → ℕ → List ℕ → ℕ
unfolding crc32c to_le
group_csum s group d =
    let first = crc32c (crc32c (crc32c s.csum_seed (to_le 4 group)) (take 0x1E d)) (0 ∷ 0 ∷ []) in
    if ltb 0x20 s.desc_size then crc32c first (slice 0x20 (s.desc_size - 0x20) d) else first

unfoldable pub with_group : {D : Device} → ℕ → (List ℕ → Op D (List ℕ)) → Op D Unit
unfolding group_descriptor group_csum put_le16 push_group
with_group group f = do
  s ← self
  gd ← group_descriptor group
  gd ← f gd
  gd ← if s.meta_csum then run (put_le16 gd 0x1E (group_csum s group gd)) else return gd
  push_group group gd

-- A counter in two halves of 16 bits, less `taken`, written back.
unfoldable pub take_away : {D : Device} → List ℕ → (lo hi taken : ℕ) → Op D (List ℕ)
unfolding le16 put_le16
take_away gd lo hi taken = do
  s ← self
  low ← run (le16 gd lo)
  if s.has_64bit
      then (do
        high ← run (le16 gd hi)
        let n = sub64 (bit_or low (high <<< 16)) taken
        gd ← run (put_le16 gd lo n)
        run (put_le16 gd hi (n >>> 16)))
      else run (put_le16 gd lo (sub64 low taken))

-- The directory counter, one more when a directory is made.
unfoldable pub add_dir : {D : Device} → List ℕ → Bool → Op D (List ℕ)
unfolding le16 put_le16
add_dir gd is_dir = do
  s ← self
  low ← run (le16 gd 0x10)
  if not is_dir
      then return gd
      else (if s.has_64bit
          then (do
            high ← run (le16 gd 0x30)
            let n = bit_or low (high <<< 16) + 1
            gd ← run (put_le16 gd 0x10 n)
            run (put_le16 gd 0x30 (n >>> 16)))
          else run (put_le16 gd 0x10 (low + 1)))

-- A value given, in two halves of 16 bits.
unfoldable pub put_given : {D : Device} → List ℕ → (lo hi : ℕ) → Option ℕ → Op D (List ℕ)
unfolding put_le16
put_given gd lo hi none = return gd
put_given gd lo hi (some c) = do
  s ← self
  gd ← run (put_le16 gd lo c)
  if s.has_64bit then run (put_le16 gd hi (c >>> 16)) else return gd

-- What an allocation takes from its group, and the checksums and the count that it gives it.
pub record Taken : Type 0 where
  pub blocks : ℕ
  pub inodes : ℕ
  pub directory : Bool
  pub bb : Option ℕ
  pub ib : Option ℕ
  pub itu : Option ℕ

unfoldable pub super_csum_field : {D : Device} → Ext4 D → List ℕ → Op D (List ℕ)
unfolding put_le32 crc32c
super_csum_field s sb =
    if s.meta_csum then run (put_le32 sb 0x3FC (crc32c 0xFFFF_FFFF (take 0x3FC sb))) else return sb

-- `(n as i64 - taken).max(0) as u64`.
unfoldable pub less : (n taken : ℕ) → ℕ
less n taken = if leb (2 ^ 63) (sub64 n taken) then 0 else sub64 n taken

abbrev pub count_down : {D : Device} → (blocks inodes : ℕ) → Op D Unit
count_down blocks inodes s = ret (
  ok tt,
  record s { free_blocks = less s.free_blocks blocks; free_inodes = less s.free_inodes inodes },
)

abbrev pub sblock_fsb : {D : Device} → Ext4 D → ℕ
sblock_fsb s = if s.bs == 1024 then 1 else 0

unfoldable pub persist_super_counts : {D : Device} → (blocks inodes : ℕ) → Op D Unit
unfolding read_fsb put_le32 super_csum_field write_fsb
persist_super_counts blocks inodes = do
  _ ← count_down blocks inodes
  s ← self
  sb ← read_fsb (sblock_fsb s)
  sb ← run (put_le32 sb 0x0C s.free_blocks)
  sb ← run (put_le32 sb 0x10 s.free_inodes)
  sb ← if s.has_64bit then run (put_le32 sb 0x158 (s.free_blocks >>> 32)) else return sb
  sb ← super_csum_field s sb
  write_fsb (sblock_fsb s) sb

unfoldable pub commit_alloc : {D : Device} → ℕ → Taken → Op D Unit
unfolding with_group take_away add_dir put_given persist_super_counts
commit_alloc group t = do
  _ ← with_group group (λ gd. do
    gd ← take_away gd 0x0C 0x2C t.blocks
    gd ← take_away gd 0x0E 0x2E t.inodes
    gd ← add_dir gd t.directory
    gd ← put_given gd 0x18 0x38 t.bb
    gd ← put_given gd 0x1A 0x3A t.ib
    put_given gd 0x1C 0x32 t.itu)
  persist_super_counts t.blocks t.inodes

-- The checksum of the first bytes of a bitmap, as `alloc_block` and `alloc_inode` take it.
unfoldable pub bitmap_csum : {D : Device} → (group : ℕ) → Bool → (units : ℕ) → Op D ℕ
unfolding read_bitmap read_fsb crc32c
bitmap_csum group want_inode units = do
  s ← self
  bm_fsb ← read_bitmap group want_inode
  bm ← read_fsb bm_fsb
  if not s.meta_csum
      then return 0
      else (do bytes ← run (cut bm 0 (units / 8)); return (crc32c s.csum_seed bytes))

unfoldable pub alloc_block : {D : Device} → Op D ℕ
unfolding alloc_bit bitmap_csum commit_alloc
alloc_block = do
  s ← self
  fsb ← alloc_bit false
  let group = u32 (sub64 fsb s.first_data_block / s.bpg)
  bb ← bitmap_csum group false s.bpg
  _ ←
      commit_alloc group
        (record { blocks = 1; inodes = 0; directory = false; bb = some bb; ib = none; itu = none })
  return fsb

unfoldable pub alloc_inode : {D : Device} → Bool → Op D ℕ
unfolding alloc_bit bitmap_csum group_descriptor gd_u16 commit_alloc
alloc_inode is_dir = do
  s ← self
  n ← alloc_bit true
  let ino = u32 n
  let group = before ino / s.ipg
  ib ← bitmap_csum group true s.ipg
  gd ← group_descriptor group
  current ← gd_u16 s gd 0x1C 0x32
  _ ← commit_alloc group (record {
    blocks = 0;
    inodes = 1;
    directory = is_dir;
    bb = none;
    ib = some ib;
    itu = some (u16 (min current (s.ipg - before ino % s.ipg - 1)));
  })
  return ino
