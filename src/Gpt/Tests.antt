-- ===== src/Gpt/Tests.antt =====
-- Runs of src/gpt.rs on a small table, and the theorems about it there.
use pinx_kernel.Prelude.{
  ℕ, ◌≡◌, refl, arith, Bool, true, false, ◌==◌, if◌then◌else◌, Option, some, none, List, [], ◌∷◌,
  ◌++◌, replicate, length,
}
use pinx_kernel.Prelude.Run.{Run, ret, IfReturns}
use pinx_kernel.Prelude.Bytes.{le_at, from_le, bytes_eq}
use pinx_kernel.Crc.{build_table, update, crc32, rounds, round}
use pinx_kernel.Block.{Result}
use pinx_kernel.Gpt.{
  GptPartition, GptDisk, detect, read_header, header_sum, read_table, read_sectors, read_slots,
  read_entry, gpt_crc, all_zero, u32le, u64le, entry_name,
}
use pinx_kernel.Gpt.Detected.{IsParts, detect-IsParts}
use pinx_kernel.Gpt.Window.{read_blocks, window_read, read_blocks-window, block_count}

-- A header of 92 bytes, for 4 entries of 128 bytes in block 2.
abbrev header : List ℕ
header =
    (69 ∷ 70 ∷ 73 ∷ 32 ∷ 80 ∷ 65 ∷ 82 ∷ 84 ∷ [])
    ++ replicate 4 0
    ++ (92 ∷ 0 ∷ 0 ∷ 0 ∷ 66 ∷ 47 ∷ 182 ∷ 212 ∷ [])
    ++ replicate 52 0
    ++ (2 ∷ [])
    ++ replicate 7 0
    ++ (4 ∷ 0 ∷ 0 ∷ 0 ∷ 128 ∷ 0 ∷ 0 ∷ 0 ∷ 26 ∷ 99 ∷ 44 ∷ 26 ∷ [])
    ++ replicate 420 0

-- One entry, for the blocks 34 to 99, and three empty ones.
abbrev entries : List ℕ
entries =
    (1 ∷ 2 ∷ 3 ∷ 4 ∷ 5 ∷ 6 ∷ 7 ∷ 8 ∷ 9 ∷ 10 ∷ 11 ∷ 12 ∷ 13 ∷ 14 ∷ 15 ∷ 16 ∷ 17 ∷ 18 ∷ 19 ∷ 20 ∷ 21
      ∷ 22 ∷ 23 ∷ 24 ∷ 25 ∷ 26 ∷ 27 ∷ 28 ∷ 29 ∷ 30 ∷ 31 ∷ 32 ∷ 34 ∷ [])
    ++ replicate 7 0
    ++ (99 ∷ [])
    ++ replicate 15 0
    ++ (100 ∷ 0 ∷ 97 ∷ 0 ∷ 116 ∷ 0 ∷ 97 ∷ [])
    ++ replicate 449 0

abbrev image : ℕ → ℕ → Option (List ℕ)
image disk lba = if lba == 1 then some header else if lba == 2 then some entries else none

abbrev no_tables : ℕ → GptDisk
no_tables _ = record {
  parsed = false;
  entries_lba = 0;
  num_entries = 0;
  entry_size = 0;
  parts = [];
}

detect-IsParts_example :
    IfReturns (λ r. (d : ℕ) → IsParts d (r.1 d).parts) (detect image no_tables 0)
detect-IsParts_example = detect-IsParts image no_tables 0 (λ d. (omega arith, tt))

abbrev data_partition : GptPartition
data_partition = record {
  disk = 0;
  start_lba = 34;
  last_lba = 99;
  type_guid = [];
  guid = [];
  name = [];
}

-- A disk whose blocks hold their number.
abbrev numbered : (disk lba buf_len : ℕ) → Option (List ℕ)
numbered disk lba buf_len = some (replicate buf_len lba)

read_blocks-window_example :
    read_blocks numbered data_partition 65 512 ≡ window_read numbered data_partition 65 512
read_blocks-window_example =
    read_blocks-window numbered data_partition 65 512 (omega arith) (omega arith) (omega arith)

-- A block number just below 2 ^ 64 passes the bounds check, and the read starts before the
-- partition.
wraps :
    read_blocks (λ _ lba _. some (lba ∷ [])) data_partition 0xFFFF_FFFF_FFFF_FFFF 512
    ≡ Result.ok (33 ∷ [])
unfolding read_blocks block_count
wraps = refl

abbrev count : Run (Bool × (ℕ → GptDisk)) → ℕ
count (ret (true, disks)) = length (disks 0).parts
count _ = 0

-- The table is found, with its one partition.
found : count (detect image no_tables 0) ≡ 1
unfolding detect read_header header_sum read_table read_sectors read_slots read_entry le_at from_le
    bytes_eq gpt_crc all_zero crc32 build_table update u32le u64le entry_name rounds round
found = refl
