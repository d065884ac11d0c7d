-- ===== src/Gpt/Window.antt =====
-- Partitions of src/gpt.rs as block devices: windows of the disk they lie on. The transfers of
-- src/ahci.rs are arguments.
use pinx_kernel.Prelude.{
  ℕ, ◌+◌, ◌-◌, ◌/◌, ◌%◌, ◌^◌, ◌≤◌, ◌<◌, ◌≡◌, arith, Bool, true, false, not, ◌&&◌, dec_lt, ◌||◌,
  ◌==◌, ltb, leb, Option, none, some, if◌then◌else◌, List, [], ◌∷◌, zero, suc, length, add64, sub64,
  refl, Bool-cases, inl, inr,
}
use pinx_kernel.Block.{Result, ok, err, io}
use pinx_kernel.Gpt.{GptPartition, GptDisk}

-- `partition_count`.
unfoldable pub partition_count : (ℕ → GptDisk) → ℕ → ℕ
partition_count disks disk =
    if leb 8 disk || not (disks disk).parsed then 0 else length (disks disk).parts

abbrev pub nth : List GptPartition → ℕ → Option GptPartition
nth [] index = none
nth (p ∷ ps) zero = some p
nth (p ∷ ps) (suc index) = nth ps index

-- `partition`.
unfoldable pub partition : (ℕ → GptDisk) → (disk index : ℕ) → Option GptPartition
partition disks disk index =
    if leb 8 disk || not (disks disk).parsed || leb (length (disks disk).parts) index
    then none
    else nth (disks disk).parts index

unfoldable pub block_count : GptPartition → ℕ
block_count p = add64 (sub64 p.last_lba p.start_lba) 1

abbrev pub sector_size : ℕ
sector_size = 512

-- `read_blocks` into a buffer of `buf_len` bytes.
unfoldable pub read_blocks :
    (read : (disk lba buf_len : ℕ) → Option (List ℕ))
    → GptPartition
    → (lba buf_len : ℕ) → Result (List ℕ)
unfolding block_count
read_blocks read p lba buf_len =
    if not (buf_len % 512 == 0)
    then err io
    else if ltb (block_count p) (add64 lba (buf_len / 512))
    then err io
    else elim (read p.disk (add64 p.start_lba lba) buf_len) [
      | none ↦ err io
      | some bytes ↦ ok bytes
    ]

-- `write_blocks`; a transfer tells whether it succeeded, and what it left on the disks.
unfoldable pub write_blocks :
    {Disks : Type 0}
    → (write : Disks → (disk lba : ℕ) → List ℕ → Bool × Disks) → GptPartition
    → Disks
    → ℕ
    → List ℕ
    → Result Unit × Disks
unfolding block_count
write_blocks write p disks lba buf =
    if not (length buf % 512 == 0)
    then (err io, disks)
    else if ltb (block_count p) (add64 lba (length buf / 512))
    then (err io, disks)
    else let (done, disks') = write disks p.disk (add64 p.start_lba lba) buf in
      (if done then ok tt else err io, disks')

-- A request inside the partition goes to the disk, that far from the partition's start.
abbrev pub window_read :
    ((disk lba buf_len : ℕ) → Option (List ℕ)) → GptPartition → (lba buf_len : ℕ) → Result (List ℕ)
window_read read p lba buf_len =
    if buf_len % 512 == 0 && leb (p.start_lba + lba + buf_len / 512) (p.last_lba + 1)
    then elim (read p.disk (p.start_lba + lba) buf_len) [ none ↦ err io | some bytes ↦ ok bytes ]
    else err io

block_count_lem :
    (p : GptPartition)
    → p.start_lba ≤ p.last_lba
    → p.last_lba + 1 < 2 ^ 64
    → block_count p ≡ p.last_lba - p.start_lba + 1
unfolding block_count
block_count_lem p l top = omega arith

-- Of a partition that is not empty and ends below the last block number of 64 bits, a read whose
-- block number and count do not add up to 2 ^ 64 reaches the disk exactly when it is whole sectors
-- that lie inside the partition, and then it reads those; otherwise it is an I/O error.
pub read_blocks-window :
    (read : (disk lba buf_len : ℕ) → Option (List ℕ)) (p : GptPartition) (lba buf_len : ℕ)
    → p.start_lba ≤ p.last_lba
    → p.last_lba + 1 < 2 ^ 64
    → lba + buf_len / 512 < 2 ^ 64
    → read_blocks read p lba buf_len ≡ window_read read p lba buf_len
unfolding read_blocks
read_blocks-window read p lba buf_len l top small = elim (Bool-cases (buf_len % 512 == 0)) [
  | inl whole ↦ elim (dec_lt (p.last_lba + 1) (p.start_lba + lba + buf_len / 512)) [
    | yes out ↦
        let refused : ltb (block_count p) (add64 lba (buf_len / 512)) ≡ true =
          ground (arith, block_count_lem p l top) in
        let outside : leb (p.start_lba + lba + buf_len / 512) (p.last_lba + 1) ≡ false =
          ground arith in
        rw (whole, refused, outside) refl
    | no within ↦
        let allowed : ltb (block_count p) (add64 lba (buf_len / 512)) ≡ false =
          ground (arith, block_count_lem p l top) in
        let inside : leb (p.start_lba + lba + buf_len / 512) (p.last_lba + 1) ≡ true =
          ground arith in
        let at : (p.start_lba + lba) % 2 ^ 64 ≡ p.start_lba + lba = omega arith in
        rw (whole, allowed, inside, at) refl
  ]
  | inr part ↦ rw part refl
]
