-- ===== src/Gpt.antt =====
-- src/gpt.rs: the reader of GPT partition tables, and each partition as a window of its disk. The
-- sectors that `ahci::read` returns are an argument, `none` where a read fails.
pub mod Detected
pub mod Window
mod Tests
use pinx_kernel.Prelude.{
  ℕ, zero, suc, ◌+◌, ◌-◌, ◌*◌, ◌/◌, ◌%◌, ◌^◌, min, Bool, true, false, not, ◌&&◌, ◌||◌, ◌==◌, ltb,
  leb, Option, none, some, if◌then◌else◌, update, List, [], ◌∷◌, ◌++◌, length, get_or, slice, take,
  drop, replicate, bit_xor, add64, sub64, u32, mul64,
}
use pinx_kernel.Prelude.Run.{Run, panic, ret, ◌>>=◌}
use pinx_kernel.Prelude.Bytes.{le_at, bytes_eq}
use pinx_kernel.Crc.{crc32}

abbrev pub gpt_signature : List ℕ
gpt_signature = b'E' ∷ b'F' ∷ b'I' ∷ b' ' ∷ b'P' ∷ b'A' ∷ b'R' ∷ b'T' ∷ []

pub record GptPartition : Type 0 where
  pub disk : ℕ
  pub start_lba : ℕ
  pub last_lba : ℕ
  pub type_guid : List ℕ
  pub guid : List ℕ
  pub name : List ℕ

abbrev pub linux_guid : List ℕ
linux_guid =
    0xAF ∷ 0x3D ∷ 0xC6 ∷ 0x0F ∷ 0x83 ∷ 0x84 ∷ 0x72 ∷ 0x47 ∷ 0x8E ∷ 0x79 ∷ 0x3D ∷ 0x69 ∷ 0xD8 ∷ 0x47
    ∷ 0x7D ∷ 0xE4 ∷ []

unfoldable pub type_is_linux : GptPartition → Bool
unfolding bytes_eq
type_is_linux p = bytes_eq p.type_guid linux_guid

-- `parts` is the first `part_count` entries of the array; the rest of it is never read.
pub record GptDisk : Type 0 where
  pub parsed : Bool
  pub entries_lba : ℕ
  pub num_entries : ℕ
  pub entry_size : ℕ
  pub parts : List GptPartition

abbrev pub max_partitions : ℕ
max_partitions = 16

unfoldable pub gpt_crc : List ℕ → ℕ
gpt_crc bytes = bit_xor (crc32 0xFFFF_FFFF bytes) 0xFFFF_FFFF

unfoldable pub u32le : List ℕ → ℕ → Run ℕ
unfolding le_at
u32le b off = le_at 4 b off

unfoldable pub u64le : List ℕ → ℕ → Run ℕ
unfolding le_at
u64le b off = le_at 8 b off

unfoldable pub all_zero : List ℕ → Bool
all_zero [] = true
all_zero (b ∷ bs) = b == 0 && all_zero bs

-- The partition's name: up to 72 bytes of the entry from 56 on, padded with zeros.
unfoldable pub entry_name : List ℕ → ℕ → List ℕ
entry_name e entry_size =
    let name_len = min (entry_size - 56) 72 in slice 56 name_len e ++ replicate (72 - name_len) 0

-- One entry of the table.
unfoldable pub read_entry :
    (disk entry_size : ℕ) → List ℕ → List GptPartition → Run (List GptPartition)
unfolding all_zero entry_name u64le
read_entry disk entry_size e parts = if all_zero (take 16 e) then ret parts else do
  start ← u64le e 32
  last ← u64le e 40
  ret (
      if start == 0 || ltb last start || leb max_partitions (length parts)
      then parts
      else parts
        ++ (record {
          disk = disk;
          start_lba = start;
          last_lba = last;
          type_guid = take 16 e;
          guid = slice 16 16 e;
          name = entry_name e entry_size;
        }
            ∷ []))

-- The loop over the slots of one sector, from `slot` on, `index` entries having been read.
unfoldable pub read_slots :
    ℕ
    → (disk num_entries entry_size : ℕ) → List ℕ
    → (slot index : ℕ) → List GptPartition
    → Run (ℕ × List GptPartition)
unfolding read_entry
read_slots zero disk num_entries entry_size esec slot index parts = ret (index, parts)
read_slots (suc left) disk num_entries entry_size esec slot index parts =
    if leb num_entries index then ret (index, parts) else do
      parts' ← read_entry disk entry_size (slice (slot * entry_size) entry_size esec) parts
      read_slots left disk num_entries entry_size esec (slot + 1) (index + 1) parts'

-- What the loop over the sectors leaves: the CRC so far, the entries read, the partitions found.
pub record Found : Type 0 where
  pub crc_acc : ℕ
  pub index : ℕ
  pub parts : List GptPartition

-- The early return when a read fails, or a table is not found.
abbrev pub or_fail : {A B : Type 0} → Option A → (A → Run (Option B)) → Run (Option B)
or_fail none rest = ret none
or_fail (some a) rest = rest a

-- The loop over the sectors of the table, from `s` on; `none` when a read fails.
unfoldable pub read_sectors :
    ℕ
    → (read : ℕ → ℕ → Option (List ℕ)) → (disk entries_lba num_entries entry_size s : ℕ) → Found
    → Run (Option Found)
unfolding read_slots
read_sectors zero read disk entries_lba num_entries entry_size s f = ret (some f)
read_sectors (suc left) read disk entries_lba num_entries entry_size s f =
    or_fail (read disk (add64 entries_lba s)) (λ esec. do
      let remaining = num_entries * entry_size - s * 512
      (index, parts) ←
          read_slots (512 / entry_size) disk num_entries entry_size esec 0 f.index f.parts
      read_sectors left read disk entries_lba num_entries entry_size (s + 1) (record {
        crc_acc = crc32 f.crc_acc (take (min remaining 512) esec);
        index = index;
        parts = parts;
      }))

-- The CRC of the first `header_size` bytes of the sector, its own field being zero; a header
-- longer than the sector panics.
unfoldable pub header_sum : List ℕ → ℕ → Run ℕ
unfolding gpt_crc
header_sum sector header_size =
    let crc_buf = take 16 sector ++ replicate 4 0 ++ drop 20 sector in
    if ltb 512 header_size then panic else ret (gpt_crc (take header_size crc_buf))

-- The end of `detect`: the entries, and their CRC.
unfoldable pub read_table :
    (read : ℕ → ℕ → Option (List ℕ))
    → (disk entries_lba num_entries entry_size entry_crc : ℕ) → Run (Option GptDisk)
unfolding read_sectors
read_table read disk entries_lba num_entries entry_size entry_crc = do
  let rounds = (num_entries * entry_size + 511) / 512
  found ←
      read_sectors rounds read disk entries_lba num_entries entry_size 0
        (record { crc_acc = 0xFFFF_FFFF; index = 0; parts = [] })
  or_fail found (λ f.
      if not (bit_xor f.crc_acc 0xFFFF_FFFF == entry_crc)
      then ret none
      else ret (
          some (record {
            parsed = true;
            entries_lba = entries_lba;
            num_entries = num_entries;
            entry_size = entry_size;
            parts = f.parts;
          })))

-- `detect` from the header's sector on: the table to cache, or `none`.
unfoldable pub read_header : (read : ℕ → ℕ → Option (List ℕ)) → ℕ → List ℕ → Run (Option GptDisk)
unfolding header_sum read_table u32le u64le
read_header read disk sector = if not (bytes_eq (take 8 sector) gpt_signature) then ret none else do
  header_size ← u32le sector 12
  header_crc ← u32le sector 16
  entries_lba ← u64le sector 72
  num_entries ← u32le sector 80
  entry_size ← u32le sector 84
  if ltb header_size 92 || num_entries == 0 || ltb entry_size 128 then ret none else (do
    sum ← header_sum sector header_size
    entry_crc ← u32le sector 88
    if not (sum == header_crc) || ltb 512 entry_size || not (512 % entry_size == 0)
        then ret none
        else read_table read disk entries_lba num_entries entry_size entry_crc)

-- GPT_DISKS after `detect`, and whether it found a table.
abbrev pub cached : (ℕ → GptDisk) → ℕ → Option GptDisk → Bool × (ℕ → GptDisk)
cached disks disk none = (false, disks)
cached disks disk (some gpt) = (true, update disks disk gpt)

unfoldable pub detect :
    (read : ℕ → ℕ → Option (List ℕ)) → (ℕ → GptDisk) → ℕ → Run (Bool × (ℕ → GptDisk))
unfolding read_header
detect read disks disk =
    if leb 8 disk
    then ret (false, disks)
    else do found ← or_fail (read disk 1) (read_header read disk); ret (cached disks disk found)
