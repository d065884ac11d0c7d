-- ===== src/Ext4/Tests.antt =====
-- Runs of src/ext4.rs on small blocks, and the theorems about it there.
use pinx_kernel.Prelude.{
  ℕ, zero, suc, ◌-◌, ◌≡◌, refl, arith, ◌&&◌, ◌==◌, ltb, if◌then◌else◌, some, List, [], ◌∷◌, ◌++◌,
  replicate,
}
use pinx_kernel.Prelude.Run.{out_of_fuel, ret, Returns, Ends}
use pinx_kernel.Prelude.Bytes.{le_at, from_le, bytes_eq}
use pinx_kernel.Block.{Result}
use pinx_kernel.Ext4.{DirEnt, FsError, le16, le32, rd_hdr, rd_index, wr_extent}
use pinx_kernel.Ext4.Volume.{Device, Ext4, err, read_fsb, fsb_lba}
use pinx_kernel.Ext4.Mount.{mount, super_bs, super_again, unless, ext4_magic}
use pinx_kernel.Ext4.Mounted.{IsMounted, IfOk, mount-IsMounted}
use pinx_kernel.Ext4.Roundtrip.{Holds, wr_extent-Holds}
use pinx_kernel.Ext4.Entries.{list_from, find_entry, place_from, is_named}
use pinx_kernel.Ext4.Extents.{scan_index, next_bound, leads}
use pinx_kernel.Ext4.Tree.{map_node}
use pinx_kernel.Ext4.Agree.{first_named, list_from-find_entry}
use pinx_kernel.Ext4.Rounds.{scans-Ends}

abbrev blank : List ℕ
blank = replicate 60 0

wr_extent-Holds_example :
    Returns (Holds blank 0 1 (some (5, 3, 0x1_0000_0007))) (wr_extent blank 0 1 5 3 0x1_0000_0007)
wr_extent-Holds_example =
    wr_extent-Holds blank 0 1 5 3 0x1_0000_0007 (omega arith) (omega arith) (omega arith)
      (omega arith) (omega arith)

-- The entries `.` and `abc`.
abbrev directory : List ℕ
directory =
    (11 ∷ 0 ∷ 0 ∷ 0 ∷ 12 ∷ 0 ∷ 1 ∷ 2 ∷ 46 ∷ 0 ∷ 0 ∷ 0 ∷ 12 ∷ 0 ∷ 0 ∷ 0 ∷ 12 ∷ 0 ∷ 3 ∷ 1 ∷ 97 ∷ 98
      ∷ 99 ∷ 0 ∷ [])

abbrev abc : List ℕ
abc = b'a' ∷ b'b' ∷ b'c' ∷ []

found : find_entry 25 directory 24 abc 0 ≡ ret (some 12)
unfolding find_entry is_named le16 le32 le_at from_le bytes_eq
found = refl

-- What `read_dir` lists with room for exactly its two entries.
abbrev entries : List DirEnt
entries =
    record { ino = 11; file_type = 2; name = 46 ∷ [] }
    ∷ record { ino = 12; file_type = 1; name = abc }
    ∷ []

listed : list_from 25 directory 24 2 0 0 [] ≡ ret (2, entries)
unfolding list_from le16 le32 le_at from_le
listed = refl

list_from-find_entry_example : find_entry 25 directory 24 abc 0 ≡ ret (first_named abc entries)
list_from-find_entry_example =
    list_from-find_entry directory 24 2 abc (omega arith) 25 2 entries listed (omega arith)

scans-Ends_example :
    Ends (list_from 25 directory 24 30 0 0 [])
    × Ends (find_entry 25 directory 24 abc 0)
    × Ends (
        place_from 25 directory 24
          (record { target = 9; ft = 1; name = abc })
          0
          (record { last_pos = 0; last_rec = 0; last_actual = 0 }))
scans-Ends_example =
    scans-Ends directory 24 25 30 abc (record { target = 9; ft = 1; name = abc })
      (record { last_pos = 0; last_rec = 0; last_actual = 0 }) (omega arith)

-- A super block for blocks of 1024 bytes, and one for blocks of 4096.
abbrev small_super : List ℕ
small_super =
    (16 ∷ 0 ∷ 0 ∷ 0 ∷ 64 ∷ [])
    ++ replicate 15 0
    ++ (1 ∷ [])
    ++ replicate 12 0
    ++ (32 ∷ [])
    ++ replicate 6 0
    ++ (16 ∷ [])
    ++ replicate 15 0
    ++ (83 ∷ 239 ∷ [])
    ++ replicate 18 0
    ++ (1 ∷ [])
    ++ replicate 11 0
    ++ (128 ∷ [])
    ++ replicate 7 0
    ++ (66 ∷ [])
    ++ replicate 927 0

abbrev large_super : List ℕ
large_super =
    (16 ∷ 0 ∷ 0 ∷ 0 ∷ 64 ∷ [])
    ++ replicate 19 0
    ++ (2 ∷ 0 ∷ 0 ∷ 0 ∷ 2 ∷ [])
    ++ replicate 4 0
    ++ (32 ∷ [])
    ++ replicate 6 0
    ++ (16 ∷ [])
    ++ replicate 15 0
    ++ (83 ∷ 239 ∷ [])
    ++ replicate 18 0
    ++ (1 ∷ [])
    ++ replicate 11 0
    ++ (128 ∷ [])
    ++ replicate 7 0
    ++ (66 ∷ [])
    ++ replicate 927 0

-- A device with the super block where it belongs, at byte 1024, and zeros elsewhere.
abbrev disk : List ℕ → Device
disk super = record {
  State = Unit;
  read_blocks = λ _ lba buf_len.
      if lba == 2
      then Result.ok super
      else Result.ok (
          if lba == 0 && ltb 2048 buf_len
          then replicate 1024 0 ++ super ++ replicate (buf_len - 2048) 0
          else replicate buf_len 0);
  write_blocks = λ _ _ _. (Result.ok tt, tt);
}

mount-IsMounted_example : IfOk IsMounted (mount (disk small_super) tt 512)
mount-IsMounted_example = mount-IsMounted (disk small_super) tt 512

-- A volume with blocks of 4096 bytes and an empty boot block is taken for a corrupt one.
large_blocks : mount (disk large_super) tt 512 ≡ ret (err FsError.corrupt)
unfolding mount super_bs super_again unless ext4_magic le16 le32 le_at from_le
large_blocks = refl

-- An index node whose one child is itself.
abbrev loop : List ℕ
loop = (10 ∷ 243 ∷ 1 ∷ 0 ∷ 4 ∷ 0 ∷ 1 ∷ []) ++ replicate 9 0 ++ (7 ∷ []) ++ replicate 7 0

abbrev looping : Device
looping = record {
  State = Unit;
  read_blocks = λ _ lba buf_len. Result.ok loop;
  write_blocks = λ _ _ _. (Result.ok tt, tt);
}

-- The search for a block in that tree never ends, whatever the number of rounds.
endless :
    (fuel : ℕ) (s : Ext4 looping)
    → map_node {D = looping} fuel loop (loop ++ replicate 4072 0) 0 1 1 0 s ≡ out_of_fuel
unfolding map_node scan_index next_bound leads rd_index rd_hdr read_fsb fsb_lba le16 le32 le_at
    from_le
endless zero s = refl
endless (suc fuel) s = endless fuel s
