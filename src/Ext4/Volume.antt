-- ===== src/Ext4/Volume.antt =====
-- The volume that src/ext4.rs has mounted: its device, its geometry, and reads and writes of whole
-- blocks. An operation takes the volume to an answer, a value or an error, and the volume after it.
use pinx_kernel.Prelude.{
  ℕ, ◌+◌, ◌-◌, ◌*◌, ◌/◌, ◌%◌, Bool, ◌&&◌, ltb, leb, if◌then◌else◌, List, ◌++◌, length, take, slice,
  replicate, bit_or, ◌<<<◌, mul64,
}
use pinx_kernel.Prelude.Run.{Run, panic, out_of_fuel, ret}
use pinx_kernel.Block.{Result}
use pinx_kernel.Ext4.{FsError, max_block_size, map_block_err, le16, le32}

-- `dyn BlockDevice`: the operations that the driver calls, on a state of the device's own.
pub record Device : Type 1 where
  pub State : Type 0
  pub read_blocks : State → (lba buf_len : ℕ) → Result (List ℕ)
  pub write_blocks : State → ℕ → List ℕ → Result Unit × State

-- `Ext4`; `dev` is the state of the device.
pub record Ext4 (D : Device) : Type 0 where
  pub dev : D.State
  pub bs : ℕ
  pub bpg : ℕ
  pub ipg : ℕ
  pub inode_size : ℕ
  pub desc_size : ℕ
  pub num_groups : ℕ
  pub first_data_block : ℕ
  pub gdt_fsb : ℕ
  pub reserved_gdt_blocks : ℕ
  pub uuid : List ℕ
  pub volume_name : List ℕ
  pub csum_seed : ℕ
  pub meta_csum : Bool
  pub has_64bit : Bool
  pub blocks_total : ℕ
  pub inodes_total : ℕ
  pub free_blocks : ℕ
  pub free_inodes : ℕ

-- `Result<A, FsError>`.
pub data Answer (A : Type 0) : Type 0 where
  ok : A → Answer A
  err : FsError → Answer A

abbrev pub Op : Device → Type 0 → Type 0
Op D A = Ext4 D → Run (Answer A × Ext4 D)

abbrev pub go_on :
    {D : Device} {A B : Type 0} → (A → Op D B) → Run (Answer A × Ext4 D) → Run (Answer B × Ext4 D)
go_on f panic = panic
go_on f out_of_fuel = out_of_fuel
go_on f (ret (ok a, s)) = f a s
go_on f (ret (err e, s)) = ret (err e, s)

-- `?`.
infixl 5 ◌>>=◌
abbrev pub ◌>>=◌ : {D : Device} {A B : Type 0} → Op D A → (A → Op D B) → Op D B
(m >>= f) s = go_on f (m s)

abbrev pub return : {D : Device} {A : Type 0} → A → Op D A
return a s = ret (ok a, s)

abbrev pub fail : {D : Device} {A : Type 0} → FsError → Op D A
fail e s = ret (err e, s)

-- The volume itself.
abbrev pub self : {D : Device} → Op D (Ext4 D)
self s = ret (ok s, s)

-- Code that may panic.
abbrev pub run : {D : Device} {A : Type 0} → Run A → Op D A
run panic s = panic
run out_of_fuel s = out_of_fuel
run (ret a) s = ret (ok a, s)

unfoldable pub fsb_lba : {D : Device} → Ext4 D → ℕ → ℕ
fsb_lba s fsb = mul64 fsb s.bs / 512

-- A buffer of 4096 bytes, its first ones read.
abbrev pub filled : List ℕ → List ℕ
filled bytes = bytes ++ replicate (max_block_size - length bytes) 0

-- The answer of the device, as that of the driver.
abbrev pub buffered : {D : Device} → Result (List ℕ) → Op D (List ℕ)
buffered (Result.ok bytes) s = ret (ok (filled bytes), s)
buffered (Result.err e) s = ret (err (map_block_err e), s)

unfoldable pub read_fsb : {D : Device} → ℕ → Op D (List ℕ)
unfolding fsb_lba map_block_err
read_fsb {D} fsb s = buffered (D.read_blocks s.dev (fsb_lba s fsb) s.bs) s

abbrev pub written_back : {D : Device} → Ext4 D → Result Unit × D.State → Run (Answer Unit × Ext4 D)
written_back s (Result.ok u, dev) = ret (ok tt, record s { dev = dev })
written_back s (Result.err e, dev) = ret (err (map_block_err e), record s { dev = dev })

unfoldable pub write_fsb : {D : Device} → ℕ → List ℕ → Op D Unit
unfolding fsb_lba map_block_err
write_fsb {D} fsb buf s = written_back s (D.write_blocks s.dev (fsb_lba s fsb) (take s.bs buf))

-- `group_descriptor`, and the bytes of the descriptor that its callers cut from the block.
unfoldable pub group_descriptor : {D : Device} → ℕ → Op D (List ℕ)
unfolding read_fsb
group_descriptor group s =
    let byte = s.gdt_fsb * s.bs + group * s.desc_size in
    let off = byte % s.bs in
    if leb s.num_groups group
    then ret (err FsError.corrupt, s)
    else (do
      buf ← read_fsb (byte / s.bs)
      if ltb (length buf) (off + s.desc_size)
          then run panic
          else return (slice off s.desc_size buf))
        s

-- A field in two halves, the high one with the 64-bit feature.
unfoldable pub gd_u32 : {D : Device} → Ext4 D → List ℕ → (lo hi : ℕ) → Op D ℕ
unfolding le32
gd_u32 s gd lo hi =
    if s.has_64bit && ltb hi s.desc_size
    then (do low ← run (le32 gd lo); high ← run (le32 gd hi); return (bit_or low (high <<< 32)))
    else run (le32 gd lo)

unfoldable pub gd_u16 : {D : Device} → Ext4 D → List ℕ → (lo hi : ℕ) → Op D ℕ
unfolding le16
gd_u16 s gd lo hi =
    if s.has_64bit && ltb hi s.desc_size
    then (do low ← run (le16 gd lo); high ← run (le16 gd hi); return (bit_or low (high <<< 16)))
    else run (le16 gd lo)
