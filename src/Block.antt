-- ===== src/Block.antt =====
-- src/block.rs: the errors of block devices, and the requests for one block in terms of those for
-- several. A read gives the bytes that the code puts in its buffer.
use pinx_kernel.Prelude.{ℕ, ltb, if◌then◌else◌, List, length, take}

pub data BlockError : Type 0 where
  io no_space not_found corrupt unsupported : BlockError

pub data Result (A : Type 0) : Type 0 where
  ok : A → Result A
  err : BlockError → Result A

-- `read_block` into a buffer of `buf_len` bytes, over the device's `read_blocks`.
unfoldable pub read_block :
    (read_blocks : (lba buf_len : ℕ) → Result (List ℕ))
    → (block_size lba buf_len : ℕ) → Result (List ℕ)
read_block read_blocks block_size lba buf_len =
    if ltb buf_len block_size then err io else read_blocks lba block_size

-- `write_block`, over the device's `write_blocks`, which changes the disks.
unfoldable pub write_block :
    {Disks : Type 0}
    → (write_blocks : Disks → ℕ → List ℕ → Result Unit × Disks) → (block_size : ℕ) → Disks
    → ℕ
    → List ℕ
    → Result Unit × Disks
write_block write_blocks block_size disks lba buf =
    if ltb (length buf) block_size
    then (err io, disks)
    else write_blocks disks lba (take block_size buf)
