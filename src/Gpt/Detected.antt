-- ===== src/Gpt/Detected.antt =====
-- What `detect` of src/gpt.rs puts in its tables.
use pinx_kernel.Prelude.{
  ℕ, zero, suc, ◌+◌, ◌*◌, ◌/◌, ◌%◌, ◌≤◌, ◌<◌, ◌≡◌, refl, arith, false, not, ◌==◌, ◌||◌, ltb, leb,
  if_elim, Option, none, some, List, [], ◌∷◌, ◌++◌, All, length, length-append, take, slice,
  bit_xor, add64,
}
use pinx_kernel.Prelude.Run.{Run, IfReturns, IfReturns-bind, IfReturns-any, skip}
use mathlib.Core.Path.{subst}
use pinx_kernel.Prelude.Bytes.{bytes_eq}
use pinx_kernel.Gpt.{
  GptPartition, GptDisk, read_entry, read_slots, read_sectors, read_table, read_header, detect,
  Found, all_zero, u64le, header_sum, u32le, gpt_signature, or_fail, cached,
}

-- What holds of the value, if there is one.
abbrev OnSome : {A : Type 0} → (A → Type 0) → Option A → Type 0
OnSome P none = Unit
OnSome P (some a) = P a

or_fail-OnSome :
    {A B : Type 0} (P : B → Type 0) (o : Option A) (f : A → Run (Option B))
    → ((a : A) → IfReturns (OnSome P) (f a))
    → IfReturns (OnSome P) (or_fail o f)
or_fail-OnSome P none f h = tt
or_fail-OnSome P (some a) f h = h a

or_fail-given :
    {A B : Type 0} {Q : A → Type 0} (P : B → Type 0) (o : Option A) (f : A → Run (Option B))
    → OnSome Q o
    → ((a : A) → Q a → IfReturns (OnSome P) (f a))
    → IfReturns (OnSome P) (or_fail o f)
or_fail-given P none f w h = tt
or_fail-given P (some a) f w h = h a w

-- A partition of the disk: after the protective MBR, and not empty.
pub record IsPartition (disk : ℕ) (p : GptPartition) : Type 0 where
  pub on_disk : p.disk ≡ disk
  pub after_mbr : 0 < p.start_lba
  pub ordered : p.start_lba ≤ p.last_lba

-- At most 16 partitions, each of them such.
abbrev pub IsParts : ℕ → List GptPartition → Type 0
IsParts disk parts = (length parts ≤ 16) × All (IsPartition disk) parts

All-snoc :
    {disk : ℕ} (parts : List GptPartition) {p : GptPartition}
    → All (IsPartition disk) parts
    → IsPartition disk p
    → All (IsPartition disk) (parts ++ (p ∷ []))
All-snoc [] h q = (q, tt)
All-snoc (x ∷ parts) (y, h) q = (y, All-snoc parts h q)

module _ (disk entry_size : ℕ) where
  read_entry-IsParts :
      (e : List ℕ) (parts : List GptPartition)
      → IsParts disk parts
      → IfReturns (IsParts disk) (read_entry disk entry_size e parts)
  unfolding read_entry
  read_entry-IsParts e parts v =
      if_elim (IfReturns (IsParts disk)) (all_zero (take 16 e)) (λ _. v)
        (λ _. IfReturns-bind _ _ (u64le e 32) (IfReturns-any _) (λ start _.
          IfReturns-bind _ _ (u64le e 40) (IfReturns-any _) (λ last _.
            if_elim (IsParts disk) (start == 0 || ltb last start || leb 16 (length parts)) (λ _. v)
              (λ good. (
                omega (arith, length-append parts, room start last good),
                All-snoc parts v.1
                    (record { on_disk = refl; after_mbr = ground arith; ordered = ground arith }),
              )))))
    where
      room :
          (start last : ℕ)
          → (start == 0 || ltb last start || leb 16 (length parts)) ≡ false
          → length parts < 16
      room start last h = ground arith

  module _ (num_entries : ℕ) where
    read_slots-IsParts :
        (left : ℕ) (esec : List ℕ) (slot index : ℕ) (parts : List GptPartition)
        → IsParts disk parts
        → IfReturns
            (λ r. IsParts disk r.1)
            (read_slots left disk num_entries entry_size esec slot index parts)
    unfolding read_slots
    read_slots-IsParts zero esec slot index parts v = v
    read_slots-IsParts (suc left) esec slot index parts v =
        if_elim (IfReturns (λ r. IsParts disk r.1)) (leb num_entries index) (λ _. v)
          (λ _.
            IfReturns-bind _ _
              (read_entry disk entry_size (slice (slot * entry_size) entry_size esec) parts)
              (read_entry-IsParts (slice (slot * entry_size) entry_size esec) parts v)
              (λ parts' w. read_slots-IsParts left esec (slot + 1) (index + 1) parts' w))

    read_sectors-IsParts :
        (read : ℕ → ℕ → Option (List ℕ)) (left entries_lba s : ℕ) (f : Found)
        → IsParts disk f.parts
        → IfReturns
            (OnSome (λ g. IsParts disk g.parts))
            (read_sectors left read disk entries_lba num_entries entry_size s f)
    unfolding read_sectors
    read_sectors-IsParts read zero entries_lba s f v = v
    read_sectors-IsParts read (suc left) entries_lba s f v =
        or_fail-OnSome _ (read disk (add64 entries_lba s)) _ (λ esec.
          IfReturns-bind _ _
            (read_slots (512 / entry_size) disk num_entries entry_size esec 0 f.index f.parts)
            (read_slots-IsParts (512 / entry_size) esec 0 f.index f.parts v)
            (λ (index, parts) w. read_sectors-IsParts read left entries_lba (s + 1) _ w))

    read_table-IsParts :
        (read : ℕ → ℕ → Option (List ℕ)) (entries_lba entry_crc : ℕ)
        → IfReturns
            (OnSome (λ g. IsParts disk g.parts))
            (read_table read disk entries_lba num_entries entry_size entry_crc)
    unfolding read_table
    read_table-IsParts read entries_lba entry_crc =
        IfReturns-bind _ _
          (read_sectors ((num_entries * entry_size + 511) / 512) read disk entries_lba num_entries
            entry_size 0 (record { crc_acc = 0xFFFF_FFFF; index = 0; parts = [] }))
          (read_sectors-IsParts read _ entries_lba 0 _ (omega arith, tt))
          (λ found w. or_fail-given _ found _ w (λ f v.
            if_elim (IfReturns (OnSome (λ g. IsParts disk g.parts)))
              (not (bit_xor f.crc_acc 0xFFFF_FFFF == entry_crc)) (λ _. tt) (λ _. v)))

read_header-IsParts :
    (read : ℕ → ℕ → Option (List ℕ)) (disk : ℕ) (sector : List ℕ)
    → IfReturns (OnSome (λ g. IsParts disk g.parts)) (read_header read disk sector)
unfolding read_header
read_header-IsParts read disk sector =
    if_elim (IfReturns (OnSome (λ g. IsParts disk g.parts)))
      (not (bytes_eq (take 8 sector) gpt_signature)) (λ _. tt)
      (λ _. skip _ _ (u32le sector 12) (λ size. skip _ _ (u32le sector 16) (λ crc.
        skip _ _ (u64le sector 72) (λ lba. skip _ _ (u32le sector 80) (λ num.
          skip _ _ (u32le sector 84) (λ entry.
            if_elim (IfReturns (OnSome (λ g. IsParts disk g.parts)))
              (ltb size 92 || num == 0 || ltb entry 128) (λ _. tt)
              (λ _. skip _ _ (header_sum sector size) (λ sum.
                skip _ _ (u32le sector 88) (λ entry_crc.
                  if_elim (IfReturns (OnSome (λ g. IsParts disk g.parts)))
                    (not (sum == crc) || ltb 512 entry || not (512 % entry == 0)) (λ _. tt)
                    (λ _. read_table-IsParts disk entry num read lba entry_crc))))))))))

-- A cache of tables of which each has at most 16 partitions, of its own disk, that start after the
-- protective MBR and are not empty, is such a cache after `detect`, whatever the disk holds.
pub detect-IsParts :
    (read : ℕ → ℕ → Option (List ℕ)) (disks : ℕ → GptDisk) (disk : ℕ)
    → ((d : ℕ) → IsParts d (disks d).parts)
    → IfReturns (λ r. (d : ℕ) → IsParts d (r.1 d).parts) (detect read disks disk)
unfolding detect
detect-IsParts read disks disk v =
    if_elim (IfReturns (λ r. (d : ℕ) → IsParts d (r.1 d).parts)) (leb 8 disk) (λ _. v)
      (λ _.
        IfReturns-bind _ _ (or_fail (read disk 1) (read_header read disk))
          (or_fail-OnSome _ (read disk 1) _ (λ sector. read_header-IsParts read disk sector))
          cached-IsParts)
  where
    cached-IsParts :
        (found : Option GptDisk)
        → OnSome (λ g. IsParts disk g.parts) found
        → (d : ℕ) → IsParts d ((cached disks disk found).1 d).parts
    cached-IsParts none w d = v d
    cached-IsParts (some gpt) w d =
        if_elim (λ (g : GptDisk). IsParts d g.parts) (disk == d)
          (λ e. subst (λ x. IsParts x gpt.parts) (ground arith) w) (λ _. v d)
