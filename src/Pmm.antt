-- ===== src/Pmm.antt =====
-- The physical memory manager of src/mm.rs: a bitmap with one bit for each 4 KiB frame, 64 frames
-- to a word, and a scan hint. A set bit is a used frame. Interrupts are off from the first read to
-- the last write of an operation, so each is one step. `none` stands for `kpanic!`.
pub mod Words
pub mod Init
pub mod Usable
pub mod Placed
pub mod Boot
pub mod Scan
pub mod Alloc
pub mod Free
mod Tests
use pinx_kernel.Prelude.{
  ℕ, zero, suc, ◌+◌, ◌-◌, ◌*◌, ◌/◌, ◌%◌, ◌^◌, bit_and, bit_or, Bool, not, Option, none, some, ◌==◌,
  ltb, leb, if◌then◌else◌, update, u64_max, not64,
}

abbrev pub page_size : ℕ
page_size = 4096

abbrev pub no_page : ℕ
no_page = u64_max

-- BITMAP, BITMAP_ENTRIES and ALLOC_HINT.
pub record Pmm : Type 0 where
  pub bitmap : ℕ → ℕ
  pub entries : ℕ
  pub hint : ℕ

-- `*bitmap.add(page / 64) |= 1 << (page % 64)`.
unfoldable pub set_bit : (ℕ → ℕ) → ℕ → ℕ → ℕ
set_bit bitmap page = update bitmap (page / 64) (bit_or (bitmap (page / 64)) (2 ^ (page % 64)))

-- `*bitmap.add(page / 64) &= !(1 << (page % 64))`.
unfoldable pub clear_bit : (ℕ → ℕ) → ℕ → ℕ → ℕ
clear_bit bitmap page =
    update bitmap (page / 64) (bit_and (bitmap (page / 64)) (not64 (2 ^ (page % 64))))

-- The inner loop of `pmm_alloc_page` from `bit` on: the first clear bit of the word.
unfoldable pub find_bit : ℕ → ℕ → ℕ → Option ℕ
find_bit word zero bit = none
find_bit word (suc left) bit =
    let rest = find_bit word left (bit + 1) in
    if bit_and word (2 ^ bit) == 0 then some bit else rest

-- The outer loop from `scanned` on: the word and the bit at which it breaks.
unfoldable pub scan : Pmm → ℕ → ℕ → Option (ℕ × ℕ)
scan p zero scanned = none
scan p (suc left) scanned =
    let index = (p.hint + scanned) % p.entries in
    let rest = scan p left (scanned + 1) in
    if p.bitmap index == u64_max
    then rest
    else elim (find_bit (p.bitmap index) 64 0) [ none ↦ rest | some bit ↦ some (index, bit) ]

-- The writes on the way out of the loops.
unfoldable pub claim : Pmm → ℕ → ℕ → Pmm
claim p index bit = record p {
  bitmap = update p.bitmap index (bit_or (p.bitmap index) (2 ^ bit));
  hint = (index * 64 + bit + 1) % p.entries;
}

-- `pmm_alloc_page`: the page's physical address, or PMM_NO_PAGE.
unfoldable pub alloc_page : Pmm → ℕ × Pmm
alloc_page p =
    if not (p.entries == 0)
    then elim (scan p p.entries 0) [
      | none ↦ (no_page, p)
      | some (index, bit) ↦ ((index * 64 + bit) * page_size, claim p index bit)
    ]
    else (no_page, p)

-- `pmm_free_page`.
unfoldable pub free_page : Pmm → ℕ → Option Pmm
free_page p page =
    if not (page % page_size == 0)
    then none
    else let page_number = page / page_size in
      if leb p.entries (page_number / 64)
      then none
      else some (record p {
        bitmap = clear_bit p.bitmap page_number;
        hint = if ltb (page_number / 64) p.hint then page_number / 64 else p.hint;
      })
