-- ===== src/Ext4/Rounds.antt =====
-- The loops over a directory block in src/ext4.rs end.
use pinx_kernel.Prelude.{
  ℕ, zero, suc, ◌+◌, ◌-◌, ◌<◌, ◌≡◌, arith, true, false, not, ◌&&◌, ◌==◌, ltb, leb, Option, none,
  some, if_elim, List, [], ◌∷◌, length, get_or, u8,
}
use pinx_kernel.Prelude.Run.{Run, Ends, Ends-bind}
use pinx_kernel.Prelude.Bytes.{le_at}
use pinx_kernel.Ext4.{
  DirEnt, le16, le32, cut, put_le, put_le16, put_le32, copy_at, fill_entry, round_dir_size,
}
use pinx_kernel.Ext4.Extents.{or_else}
use pinx_kernel.Ext4.Entries.{
  list_from, find_entry, place_from, store_entry, is_named, split_last, NewEntry, Last,
}

le_at-Ends : (n : ℕ) (b : List ℕ) (off : ℕ) → Ends (le_at n b off)
unfolding le_at
le_at-Ends n b off = if_elim Ends (leb (off + n) (length b)) (λ _. tt) (λ _. tt)

le16-Ends : (b : List ℕ) (off : ℕ) → Ends (le16 b off)
unfolding le16
le16-Ends b off = le_at-Ends 2 b off

le32-Ends : (b : List ℕ) (off : ℕ) → Ends (le32 b off)
unfolding le32
le32-Ends b off = le_at-Ends 4 b off

cut-Ends : (b : List ℕ) (off n : ℕ) → Ends (cut b off n)
cut-Ends b off n = if_elim Ends (leb (off + n) (length b)) (λ _. tt) (λ _. tt)

put_le-Ends : (n : ℕ) (b : List ℕ) (off v : ℕ) → Ends (put_le n b off v)
unfolding put_le
put_le-Ends n b off v = if_elim Ends (leb (off + n) (length b)) (λ _. tt) (λ _. tt)

copy_at-Ends : (b : List ℕ) (off : ℕ) (bytes : List ℕ) → Ends (copy_at b off bytes)
unfolding copy_at
copy_at-Ends b off bytes = if_elim Ends (leb (off + length bytes) (length b)) (λ _. tt) (λ _. tt)

fill_entry-Ends :
    (b : List ℕ) (pos rec ino ft : ℕ) (name : List ℕ) → Ends (fill_entry b pos rec ino ft name)
unfolding fill_entry put_le16 put_le32
fill_entry-Ends b pos rec ino ft name =
    Ends-bind _ (put_le 4 b pos ino) (put_le-Ends 4 b pos ino) (λ b.
      Ends-bind _ (put_le 2 b (pos + 4) rec) (put_le-Ends 2 b (pos + 4) rec) (λ b.
        Ends-bind _ (copy_at b (pos + 6) (u8 (length name) ∷ ft ∷ []))
          (copy_at-Ends b (pos + 6) (u8 (length name) ∷ ft ∷ []))
          (λ b. copy_at-Ends b (pos + 8) name)))

or_else-Ends : {A : Type 0} (o : Option A) (r : Run (Option A)) → Ends r → Ends (or_else o r)
or_else-Ends none r e = e
or_else-Ends (some a) r e = tt

store_entry-Ends :
    (blk : List ℕ) (room n pos eino : ℕ) (out : List DirEnt)
    → Ends (store_entry blk room n pos eino out)
unfolding store_entry
store_entry-Ends blk room n pos eino out =
    if_elim Ends (ltb n room)
      (λ _. Ends-bind _ (cut blk (pos + 8) (get_or blk (pos + 6) 0)) (cut-Ends blk _ _) (λ _. tt))
      (λ _. tt)

is_named-Ends : (blk name : List ℕ) (pos eino : ℕ) → Ends (is_named blk name pos eino)
unfolding is_named
is_named-Ends blk name pos eino =
    if_elim Ends (not (eino == 0) && get_or blk (pos + 6) 0 == length name)
      (λ _. Ends-bind _ (cut blk (pos + 8) (length name)) (cut-Ends blk _ _) (λ _. tt)) (λ _. tt)

split_last-Ends : (blk : List ℕ) (e : NewEntry) (last : Last) → Ends (split_last blk e last)
unfolding split_last put_le16
split_last-Ends blk e last =
    if_elim Ends (leb (last.last_actual + round_dir_size (length e.name)) last.last_rec)
      (λ _.
        Ends-bind _ (put_le 2 blk (last.last_pos + 4) last.last_actual) (put_le-Ends 2 blk _ _)
          (λ blk.
            Ends-bind _
              (fill_entry blk (last.last_pos + last.last_actual) (last.last_rec - last.last_actual)
                e.target e.ft e.name)
              (fill_entry-Ends blk _ _ _ _ _) (λ _. tt)))
      (λ _. tt)

-- Rounds enough from `pos` on: an entry has at least one byte.
abbrev Enough : (limit left pos : ℕ) → Type 0
Enough limit left pos = (0 < left) × (limit < pos + left)

further :
    (limit left pos rec : ℕ)
    → Enough limit (suc left) pos
    → leb (pos + 8) limit ≡ true
    → (rec == 0) ≡ false
    → Enough limit left (pos + rec)
further limit left pos rec h inside ne = (ground arith, ground arith)

module _ (blk : List ℕ) (limit : ℕ) where
  list_from-Ends :
      (left room n pos : ℕ) (out : List DirEnt)
      → Enough limit left pos
      → Ends (list_from left blk limit room n pos out)
  unfolding list_from
  list_from-Ends zero room n pos out h = omega (arith, h.0)
  list_from-Ends (suc left) room n pos out h =
      if_elim Ends (leb (pos + 8) limit)
        (λ inside. Ends-bind _ (le32 blk pos) (le32-Ends blk pos) (λ eino.
          Ends-bind _ (le16 blk (pos + 4)) (le16-Ends blk (pos + 4)) (λ rec.
            if_elim Ends (rec == 0) (λ _. tt)
              (λ ne.
                if_elim Ends (not (eino == 0) && leb (get_or blk (pos + 6) 0) 255)
                  (λ _.
                    Ends-bind _ (store_entry blk room n pos eino out)
                      (store_entry-Ends blk room n pos eino out)
                      (λ out.
                        list_from-Ends left room (n + 1) (pos + rec) out
                          (further limit left pos rec h inside ne)))
                  (λ _.
                    list_from-Ends left room n (pos + rec) out
                      (further limit left pos rec h inside ne))))))
        (λ _. tt)

  find_entry-Ends :
      (left : ℕ) (name : List ℕ) (pos : ℕ)
      → Enough limit left pos
      → Ends (find_entry left blk limit name pos)
  unfolding find_entry
  find_entry-Ends zero name pos h = omega (arith, h.0)
  find_entry-Ends (suc left) name pos h =
      if_elim Ends (leb (pos + 8) limit)
        (λ inside. Ends-bind _ (le16 blk (pos + 4)) (le16-Ends blk (pos + 4)) (λ rec.
          Ends-bind _ (le32 blk pos) (le32-Ends blk pos) (λ eino.
            if_elim Ends (rec == 0) (λ _. tt)
              (λ ne.
                Ends-bind _ (is_named blk name pos eino) (is_named-Ends blk name pos eino) (λ here.
                  or_else-Ends here (find_entry left blk limit name (pos + rec)) (
                    find_entry-Ends left name (pos + rec)
                      (further limit left pos rec h inside ne)))))))
        (λ _. tt)

  place_from-Ends :
      (left : ℕ) (e : NewEntry) (pos : ℕ) (last : Last)
      → Enough limit left pos
      → Ends (place_from left blk limit e pos last)
  unfolding place_from
  place_from-Ends zero e pos last h = omega (arith, h.0)
  place_from-Ends (suc left) e pos last h =
      if_elim Ends (leb (pos + 8) limit)
        (λ inside. Ends-bind _ (le16 blk (pos + 4)) (le16-Ends blk (pos + 4)) (λ rec.
          Ends-bind _ (le32 blk pos) (le32-Ends blk pos) (λ eino.
            if_elim Ends (rec == 0) (λ _. split_last-Ends blk e last)
              (λ ne.
                if_elim Ends (eino == 0 && leb (round_dir_size (length e.name)) rec)
                  (λ _.
                    Ends-bind _ (fill_entry blk pos rec e.target e.ft e.name)
                      (fill_entry-Ends blk pos rec e.target e.ft e.name) (λ _. tt))
                  (λ _.
                    place_from-Ends left e (pos + rec) _
                      (further limit left pos rec h inside ne))))))
        (λ _. split_last-Ends blk e last)

  -- The loops of `read_dir`, `lookup` and `add_dirent` over a directory block end, whatever the
  -- block holds, within one round more than the block has bytes for entries.
  pub scans-Ends :
      (left : ℕ) (room : ℕ) (name : List ℕ) (e : NewEntry) (last : Last)
      → limit < left
      → Ends (list_from left blk limit room 0 0 [])
        × Ends (find_entry left blk limit name 0)
        × Ends (place_from left blk limit e 0 last)
  scans-Ends left room name e last l =
      let h : Enough limit left 0 = (omega arith, omega arith) in
      (
        list_from-Ends left room 0 0 [] h,
        find_entry-Ends left name 0 h,
        place_from-Ends left e 0 last h,
      )
