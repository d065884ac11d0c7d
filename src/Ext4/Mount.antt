-- ===== src/Ext4/Mount.antt =====
-- `mount` of src/ext4.rs: what it checks of the super block, and the volume it makes.
use pinx_kernel.Prelude.{
  ℕ, ◌+◌, ◌-◌, ◌/◌, Bool, not, ◌&&◌, ◌||◌, ◌==◌, ltb, if◌then◌else◌, List, take, slice, bit_or,
  bit_and, ◌<<<◌, add64, u32, max,
}
use pinx_kernel.Prelude.Run.{Run, panic, out_of_fuel, ret}
use pinx_kernel.Block.{Result}
use pinx_kernel.Crc.{crc32c}
use pinx_kernel.Ext4.{FsError, le16, le32, max_inode_size, map_block_err}
use pinx_kernel.Ext4.Volume.{Device, Ext4, Answer, ok, err, filled}

-- The answer of `mount`, a volume or an error, on the way.
infixl 5 ◌>>=◌
abbrev pub ◌>>=◌ : {A B : Type 0} → Run (Answer A) → (A → Run (Answer B)) → Run (Answer B)
panic >>= f = panic
out_of_fuel >>= f = out_of_fuel
ret (ok a) >>= f = f a
ret (err e) >>= f = ret (err e)

abbrev pub return : {A : Type 0} → A → Run (Answer A)
return a = ret (ok a)

-- A field of the super block.
abbrev pub field : Run ℕ → Run (Answer ℕ)
field panic = panic
field out_of_fuel = out_of_fuel
field (ret v) = ret (ok v)

-- An early return of `Err(e)` where a test fails.
unfoldable pub unless : Bool → FsError → {A : Type 0} → Run (Answer A) → Run (Answer A)
unless bad e rest = if bad then ret (err e) else rest

unfoldable pub ext4_magic : ℕ
ext4_magic = 0xEF53

abbrev pub good_old_inode_size : ℕ
good_old_inode_size = 128

-- The features the driver knows: file types, extents, 64 bit, flex_bg and the checksum seed.
abbrev pub known_incompat : ℕ
known_incompat = 0x22C2

-- The block size, from the first 1024 bytes of the super block.
unfoldable pub super_bs : List ℕ → Run (Answer ℕ)
unfolding le16 le32 ext4_magic
super_bs buf = do
  magic ← field (le16 buf 0x38)
  unless (not (magic == ext4_magic)) FsError.corrupt (do
    log_block_size ← field (le32 buf 0x18)
    log_cluster_size ← field (le32 buf 0x1C)
    unless (ltb 2 log_block_size) FsError.unsupported (
        unless (not (log_cluster_size == log_block_size)) FsError.unsupported
          (return (1024 <<< log_block_size))))

-- For a block size other than 1024, block 0 is read in place of the super block.
unfoldable pub super_again : (D : Device) → D.State → ℕ → List ℕ → Run (Answer (List ℕ))
unfolding map_block_err le16 ext4_magic
super_again D dev bs buf = if bs == 1024 then return buf else checked (D.read_blocks dev 0 bs)
  where
    checked : Result (List ℕ) → Run (Answer (List ℕ))
    checked (Result.err e) = ret (err (map_block_err e))
    checked (Result.ok bytes) = do
      magic ← field (le16 (filled bytes) 0x38)
      if not (magic == ext4_magic) then ret (err FsError.corrupt) else return (filled bytes)

-- The tests of the feature flags.
unfoldable pub check_features : (incompat ro_compat : ℕ) → Run (Answer Unit)
check_features incompat ro_compat =
    unless (not (bit_and incompat (0xFFFF_FFFF - known_incompat) == 0)) FsError.unsupported (
      unless (bit_and incompat 0x40 == 0 || bit_and incompat 0x02 == 0) FsError.unsupported
        (unless (not (bit_and ro_compat 0x1000 == 0)) FsError.unsupported (return tt)))

-- A 64-bit counter, the high half with the 64-bit feature.
unfoldable pub counter : Bool → List ℕ → (lo hi : ℕ) → Run (Answer ℕ)
unfolding le32
counter has_64bit buf lo hi =
    if has_64bit
    then (do
      low ← field (le32 buf lo)
      high ← field (le32 buf hi)
      return (bit_or low (high <<< 32)))
    else field (le32 buf lo)

unfoldable pub super_csum : List ℕ → Bool → Run (Answer Unit)
unfolding le32 crc32c
super_csum buf meta_csum =
    if meta_csum
    then (do
      csum ← field (le32 buf 0x3FC)
      unless (not (csum == crc32c 0xFFFF_FFFF (take 0x3FC buf))) FsError.corrupt (return tt))
    else return tt

-- The rest of `mount`, from the whole super block on.
unfoldable pub make_volume : {D : Device} → D.State → (bs : ℕ) → List ℕ → Run (Answer (Ext4 D))
unfolding le16 le32 check_features counter super_csum crc32c
make_volume dev bs buf = do
  inodes_total ← field (le32 buf 0x00)
  bpg ← field (le32 buf 0x20)
  ipg ← field (le32 buf 0x28)
  unless (inodes_total == 0 || bpg == 0 || ipg == 0) FsError.corrupt (do
    rev_level ← field (le32 buf 0x4C)
    raw_inode_size ← field (le16 buf 0x58)
    incompat ← field (le32 buf 0x60)
    ro_compat ← field (le32 buf 0x64)
    raw_desc_size ← field (le16 buf 0xFE)
    let inode_size = max raw_inode_size good_old_inode_size
    let has_64bit = not (bit_and incompat 0x80 == 0)
    let seeded = not (bit_and incompat 0x2000 == 0)
    let meta_csum = not (bit_and ro_compat 0x400 == 0) && seeded
    let desc_size = if raw_desc_size == 0 then 32 else raw_desc_size
    let bad_desc = ltb desc_size 32 || (has_64bit && ltb desc_size 64)
    unless (not (rev_level == 1)) FsError.unsupported (
        unless (ltb max_inode_size inode_size) FsError.unsupported (do
          _ ← check_features incompat ro_compat
          unless bad_desc FsError.corrupt (do
            blocks_total ← counter has_64bit buf 0x04 0x150
            free_blocks ← counter has_64bit buf 0x0C 0x158
            free_inodes ← field (le32 buf 0x10)
            first_data_block ← field (le32 buf 0x14)
            reserved_gdt_blocks ← field (le16 buf 0xCE)
            stored_seed ← field (le32 buf 0x270)
            let uuid = slice 0x68 16 buf
            _ ← super_csum buf meta_csum
            return (record {
              dev = dev;
              bs = bs;
              bpg = bpg;
              ipg = ipg;
              inode_size = inode_size;
              desc_size = desc_size;
              num_groups = u32 (add64 blocks_total (bpg - 1) / bpg);
              first_data_block = first_data_block;
              gdt_fsb = first_data_block + 1;
              reserved_gdt_blocks = reserved_gdt_blocks;
              uuid = uuid;
              volume_name = slice 0x78 16 buf;
              csum_seed = if seeded then stored_seed else crc32c 0xFFFF_FFFF uuid;
              meta_csum = meta_csum;
              has_64bit = has_64bit;
              blocks_total = blocks_total;
              inodes_total = inodes_total;
              free_blocks = free_blocks;
              free_inodes = free_inodes;
            })))))

-- The first read of the super block, at byte 1024.
abbrev pub first_read : Result (List ℕ) → Run (Answer (List ℕ))
first_read (Result.err e) = ret (err (map_block_err e))
first_read (Result.ok bytes) = ret (ok (filled bytes))

-- `mount`; the block size of the device is an argument.
unfoldable pub mount : (D : Device) → D.State → (block_size : ℕ) → Run (Answer (Ext4 D))
unfolding super_bs super_again make_volume map_block_err
mount D dev block_size = unless (not (block_size == 512)) FsError.unsupported (do
  buf ← first_read (D.read_blocks dev 2 1024)
  bs ← super_bs buf
  buf ← super_again D dev bs buf
  make_volume dev bs buf)
