-- ===== src/Ext4.antt =====
-- src/ext4.rs, the file system driver: its constants, and the fields of blocks, which are lists of
-- bytes. An index outside a block panics.
pub mod Codec
pub mod Roundtrip
pub mod Volume
pub mod Mount
pub mod Mounted
pub mod Inodes
pub mod Extents
pub mod Tree
pub mod Reading
pub mod Entries
pub mod Agree
pub mod Rounds
pub mod Dirs
pub mod Alloc
pub mod Groups
pub mod Growing
pub mod Writing
mod Tests
use pinx_kernel.Prelude.{
  ℕ, ◌+◌, ◌-◌, ◌*◌, ◌^◌, Bool, true, false, not, ◌&&◌, ◌||◌, ◌==◌, ltb, leb, Option, none, some,
  if◌then◌else◌, List, [], ◌∷◌, ◌++◌, length, take, drop, slice, bit_and, bit_or, ◌<<<◌, ◌>>>◌,
  not64, u8,
}
use pinx_kernel.Prelude.Run.{Run, panic, ret, ◌>>=◌}
use pinx_kernel.Prelude.Bytes.{le_at, to_le}
use pinx_kernel.Block.{BlockError}

abbrev pub max_block_size : ℕ
max_block_size = 4096

abbrev pub max_inode_size : ℕ
max_inode_size = 256

abbrev pub ext4_name_len : ℕ
ext4_name_len = 255

abbrev pub ext4_ext_magic : ℕ
ext4_ext_magic = 0xF30A

abbrev pub root_ino : ℕ
root_ino = 2

abbrev pub s_ifdir : ℕ
s_ifdir = 0x4000

abbrev pub s_ifreg : ℕ
s_ifreg = 0x8000

abbrev pub s_ifmt : ℕ
s_ifmt = 0xF000

pub data FsError : Type 0 where
  io no_space not_found already_exists corrupt read_only unsupported invalid : FsError

unfoldable pub le16 : List ℕ → ℕ → Run ℕ
unfolding le_at
le16 b off = le_at 2 b off

unfoldable pub le32 : List ℕ → ℕ → Run ℕ
unfolding le_at
le32 b off = le_at 4 b off

-- The `n` bytes of `v`, the lowest first, written at `off`.
unfoldable pub put_le : ℕ → List ℕ → ℕ → ℕ → Run (List ℕ)
unfolding to_le
put_le n b off v =
    if leb (off + n) (length b) then ret (take off b ++ to_le n v ++ drop (off + n) b) else panic

unfoldable pub put_le16 : List ℕ → ℕ → ℕ → Run (List ℕ)
unfolding put_le
put_le16 b off v = put_le 2 b off v

unfoldable pub put_le32 : List ℕ → ℕ → ℕ → Run (List ℕ)
unfolding put_le
put_le32 b off v = put_le 4 b off v

-- `b[off..off + name.len()].copy_from_slice(name)`.
unfoldable pub copy_at : List ℕ → ℕ → List ℕ → Run (List ℕ)
copy_at b off bytes =
    if leb (off + length bytes) (length b)
    then ret (take off b ++ bytes ++ drop (off + length bytes) b)
    else panic

-- `&b[off..off + n]`.
abbrev pub cut : List ℕ → (off n : ℕ) → Run (List ℕ)
cut b off n = if leb (off + n) (length b) then ret (slice off n b) else panic

unfoldable pub round_dir_size : ℕ → ℕ
round_dir_size name_len = 8 + bit_and (name_len + 3) (not64 3)

-- `Inode`, with the bytes of its slot.
pub record Inode : Type 0 where
  pub ino : ℕ
  pub mode : ℕ
  pub size : ℕ
  pub blocks : ℕ
  pub flags : ℕ
  pub raw : List ℕ

unfoldable pub is_dir : Inode → Bool
is_dir inode = bit_and inode.mode s_ifmt == s_ifdir

unfoldable pub is_file : Inode → Bool
is_file inode = bit_and inode.mode s_ifmt == s_ifreg

-- `DirEnt`; the name is its first `name_len` bytes.
pub record DirEnt : Type 0 where
  pub ino : ℕ
  pub file_type : ℕ
  pub name : List ℕ

unfoldable pub map_block_err : BlockError → FsError
map_block_err BlockError.io = FsError.io
map_block_err BlockError.no_space = FsError.no_space
map_block_err BlockError.not_found = FsError.not_found
map_block_err BlockError.corrupt = FsError.corrupt
map_block_err BlockError.unsupported = FsError.unsupported

-- An extent header: entries, max, depth.
unfoldable pub rd_hdr : List ℕ → ℕ → Run (Option (ℕ × ℕ × ℕ))
unfolding le16
rd_hdr b base = if ltb (length b) (base + 12) then ret none else do
  magic ← le16 b base
  if not (magic == ext4_ext_magic) then ret none else (do
    entries ← le16 b (base + 2)
    max ← le16 b (base + 4)
    depth ← le16 b (base + 6)
    ret (some (entries, max, depth)))

unfoldable pub wr_hdr : List ℕ → (base entries max depth : ℕ) → Run (List ℕ)
unfolding put_le16 put_le32
wr_hdr b base entries max depth = do
  b ← put_le16 b base ext4_ext_magic
  b ← put_le16 b (base + 2) entries
  b ← put_le16 b (base + 4) max
  b ← put_le16 b (base + 6) depth
  put_le32 b (base + 8) 0

-- An extent: first logical block, length, physical block.
unfoldable pub rd_extent : List ℕ → (base i : ℕ) → Run (Option (ℕ × ℕ × ℕ))
unfolding le16 le32
rd_extent b base i =
    let o = base + 12 + 12 * i in
    if ltb (length b) (o + 12) then ret none else do
      eb ← le32 b o
      elen ← le16 b (o + 4)
      high ← le16 b (o + 6)
      low ← le32 b (o + 8)
      ret (
          if not (bit_and elen 0x8000 == 0) || elen == 0
          then none
          else some (eb, elen, bit_or (high <<< 32) low))

unfoldable pub wr_extent : List ℕ → (base i eb elen pblock : ℕ) → Run (List ℕ)
unfolding put_le16 put_le32
wr_extent b base i eb elen pblock =
    let o = base + 12 + 12 * i in
    do
      b ← put_le32 b o eb
      b ← put_le16 b (o + 4) elen
      b ← put_le16 b (o + 6) (pblock >>> 32)
      put_le32 b (o + 8) pblock

-- An index: first covered block, child.
unfoldable pub rd_index : List ℕ → (base i : ℕ) → Run (Option (ℕ × ℕ))
unfolding le16 le32
rd_index b base i =
    let o = base + 12 + 12 * i in
    if ltb (length b) (o + 12) then ret none else do
      eb ← le32 b o
      high ← le16 b (o + 8)
      low ← le32 b (o + 4)
      ret (some (eb, bit_or (high <<< 32) low))

unfoldable pub wr_index : List ℕ → (base i eb child : ℕ) → Run (List ℕ)
unfolding put_le16 put_le32
wr_index b base i eb child =
    let o = base + 12 + 12 * i in
    do
      b ← put_le32 b o eb
      b ← put_le32 b (o + 4) child
      b ← put_le16 b (o + 8) (child >>> 32)
      put_le16 b (o + 10) 0

unfoldable pub fill_entry : List ℕ → (pos rec ino ft : ℕ) → List ℕ → Run (List ℕ)
unfolding put_le16 put_le32 copy_at
fill_entry b pos rec ino ft name = do
  b ← put_le32 b pos ino
  b ← put_le16 b (pos + 4) rec
  b ← copy_at b (pos + 6) (u8 (length name) ∷ ft ∷ [])
  copy_at b (pos + 8) name
