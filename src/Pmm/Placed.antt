-- ===== src/Pmm/Placed.antt =====
-- Which frames `pmm_init` of src/mm.rs leaves free, by the bytes of the usable memory and of the
-- bitmap.
use pinx_kernel.Prelude.{
  ℕ, ◌+◌, ◌-◌, ◌*◌, ◌/◌, ◌%◌, ◌≤◌, ◌≡◌, ◌≢◌, ◌⊎◌, ◌↔◌, true, ◌==◌, Option, none, some, List, [],
  ◌∷◌,
}
use pinx_kernel.Pmm.{Pmm, page_size}
use pinx_kernel.Pmm.Words.{used}
use pinx_kernel.Pmm.Alloc.{IsValid}
use pinx_kernel.Pmm.Init.{Region, Survey, nothing_seen, memmap_usable, bitmap_pages}
use pinx_kernel.Pmm.Usable.{Sees}

-- Limine's promise for usable regions: base and length are multiples of the page size.
abbrev pub PageAligned : List (Option Region) → Type 0
PageAligned [] = Unit {0}
PageAligned (none ∷ rest) = PageAligned rest
PageAligned (some r ∷ rest) =
    ((r.type_ == memmap_usable) ≡ true → (r.base % 4096 ≡ 0) × (r.length % 4096 ≡ 0))
    × PageAligned rest

-- The `count` bytes from `address` on lie in one usable region of the map.
abbrev pub UsableBytes : List (Option Region) → (address count : ℕ) → Type 0
UsableBytes [] address count = ⊥
UsableBytes (none ∷ rest) address count = UsableBytes rest address count
UsableBytes (some r ∷ rest) address count =
    (((r.type_ == memmap_usable) ≡ true)
      × (r.base ≤ address)
      × (address + count ≤ r.base + r.length))
    ⊎ UsableBytes rest address count

-- The two ranges of bytes share none.
abbrev pub Disjoint : (a m b n : ℕ) → Type 0
Disjoint a m b n = (a + m ≤ b) ⊎ (b + n ≤ a)

-- The bitmap lies at `place`: `8 * entries` bytes from a page boundary on, inside a usable region. A
-- frame is free exactly when all of its bytes are usable and none of them belongs to the bitmap.
pub record Placed (memmap : List (Option Region)) (p : Pmm) (place : ℕ) : Type 0 where
  pub valid : IsValid p
  pub aligned : place % 4096 ≡ 0
  pub inside : UsableBytes memmap place (8 * p.entries)
  pub frees :
      (g : ℕ)
      → (used p.bitmap g ≡ 0)
        ↔ (UsableBytes memmap (g * 4096) 4096 × Disjoint (g * 4096) 4096 place (8 * p.entries))

-- The largest region that the survey keeps is the one it had, or a usable one of the map.
Largest : Survey → List (Option Region) → Survey → Type 0
Largest s memmap t =
    ((t.largest_base ≡ s.largest_base) × (t.largest_len ≡ s.largest_len))
    ⊎ ((t.largest_base % 4096 ≡ 0)
        × (t.largest_len % 4096 ≡ 0)
        × UsableBytes memmap t.largest_base t.largest_len)

-- The place that the survey leads to.
module _ (memmap : List (Option Region)) (s : Survey) (sound : Sees nothing_seen s)
    (fits : bitmap_pages s ≤ s.largest_len / page_size) (len : s.largest_len ≢ 0)
    (base_aligned : s.largest_base % 4096 ≡ 0) (len_aligned : s.largest_len % 4096 ≡ 0)
    (al : PageAligned memmap) (u : UsableBytes memmap s.largest_base s.largest_len) where
  place : ℕ
  place = s.largest_base + s.largest_len - bitmap_pages s * page_size
