-- ===== src/Ext4/Entries.antt =====
-- The entries of one directory block of src/ext4.rs: how `read_dir` lists them, how `lookup`
-- searches them, and where `add_dirent` puts a new one. A block has at most as many entries as
-- bytes, since an entry of length 0 ends it.
use pinx_kernel.Prelude.{
  ℕ, zero, suc, ◌+◌, ◌-◌, not, ◌&&◌, ◌==◌, ltb, leb, Option, none, some, if◌then◌else◌, List, [],
  ◌∷◌, ◌++◌, get_or, length,
}
use pinx_kernel.Prelude.Run.{Run, out_of_fuel, ret, ◌>>=◌}
use pinx_kernel.Prelude.Bytes.{bytes_eq}
use pinx_kernel.Ext4.{DirEnt, le16, le32, put_le16, fill_entry, round_dir_size, ext4_name_len, cut}
use pinx_kernel.Ext4.Extents.{or_else}

-- The entry at `pos`, when `read_dir` stores it: `n` entries were seen before, and there is room
-- for `room`.
unfoldable pub store_entry : List ℕ → (room n pos eino : ℕ) → List DirEnt → Run (List DirEnt)
store_entry blk room n pos eino out =
    if ltb n room
    then (do
      name ← cut blk (pos + 8) (get_or blk (pos + 6) 0)
      ret (out ++ (record { ino = eino; file_type = get_or blk (pos + 7) 0; name = name } ∷ [])))
    else ret out

-- The loop of `read_dir` over one block, from `pos` on: the entries seen, and those stored.
unfoldable pub list_from : ℕ → List ℕ → (limit room n pos : ℕ) → List DirEnt → Run (ℕ × List DirEnt)
unfolding le16 le32 store_entry
list_from zero blk limit room n pos out = out_of_fuel
list_from (suc left) blk limit room n pos out =
    if leb (pos + 8) limit
    then (do
      eino ← le32 blk pos
      rec ← le16 blk (pos + 4)
      if rec == 0
          then ret (n, out)
          else (if not (eino == 0) && leb (get_or blk (pos + 6) 0) ext4_name_len
              then (do
                out ← store_entry blk room n pos eino out
                list_from left blk limit room (n + 1) (pos + rec) out)
              else list_from left blk limit room n (pos + rec) out))
    else ret (n, out)

-- The test of `lookup` on the entry at `pos`.
unfoldable pub is_named : List ℕ → (name : List ℕ) → (pos eino : ℕ) → Run (Option ℕ)
unfolding bytes_eq
is_named blk name pos eino =
    if not (eino == 0) && get_or blk (pos + 6) 0 == length name
    then (do
      here ← cut blk (pos + 8) (length name)
      ret (if bytes_eq here name then some eino else none))
    else ret none

-- The loop of `lookup` over one block, from `pos` on.
unfoldable pub find_entry : ℕ → List ℕ → (limit : ℕ) → List ℕ → (pos : ℕ) → Run (Option ℕ)
unfolding le16 le32 is_named
find_entry zero blk limit name pos = out_of_fuel
find_entry (suc left) blk limit name pos =
    if leb (pos + 8) limit
    then (do
      rec ← le16 blk (pos + 4)
      eino ← le32 blk pos
      if rec == 0 then ret none else (do
        here ← is_named blk name pos eino
        or_else here (find_entry left blk limit name (pos + rec))))
    else ret none

-- What `add_dirent` writes: the inode, the file type and the name.
pub record NewEntry : Type 0 where
  pub target : ℕ
  pub ft : ℕ
  pub name : List ℕ

-- The last entry seen by the loop of `add_dirent`, and how much of it is in use.
pub record Last : Type 0 where
  pub last_pos : ℕ
  pub last_rec : ℕ
  pub last_actual : ℕ

-- After the loop of `add_dirent`: the new entry behind the last one, if that leaves room.
unfoldable pub split_last : List ℕ → NewEntry → Last → Run (Option (List ℕ))
unfolding round_dir_size put_le16 fill_entry
split_last blk e last =
    if leb (last.last_actual + round_dir_size (length e.name)) last.last_rec
    then (do
      blk ← put_le16 blk (last.last_pos + 4) last.last_actual
      blk ←
          fill_entry blk (last.last_pos + last.last_actual) (last.last_rec - last.last_actual)
            e.target e.ft e.name
      ret (some blk))
    else ret none

-- The loop of `add_dirent` over one block, from `pos` on: the block with the new entry, or `none`.
unfoldable pub place_from : ℕ → List ℕ → (limit : ℕ) → NewEntry → ℕ → Last → Run (Option (List ℕ))
unfolding le16 le32 fill_entry round_dir_size split_last
place_from zero blk limit e pos last = out_of_fuel
place_from (suc left) blk limit e pos last =
    if leb (pos + 8) limit
    then (do
      rec ← le16 blk (pos + 4)
      eino ← le32 blk pos
      if rec == 0
          then split_last blk e last
          else (if eino == 0 && leb (round_dir_size (length e.name)) rec
              then (do blk ← fill_entry blk pos rec e.target e.ft e.name; ret (some blk))
              else place_from left blk limit e (pos + rec) (record {
                last_pos = pos;
                last_rec = rec;
                last_actual = if eino == 0 then 0 else round_dir_size (get_or blk (pos + 6) 0);
              })))
    else split_last blk e last
