-- ===== src/Pmm/Init.antt =====
-- `pmm_init` of src/mm.rs over Limine's memory map. `none` stands for `kpanic!`, and a null entry
-- of the map is `none` in its list.
use pinx_kernel.Prelude.{
  ℕ, zero, suc, ◌+◌, ◌-◌, ◌*◌, ◌/◌, bit_and, not, ◌==◌, ltb, if◌then◌else◌, Option, none, some,
  List, [], ◌∷◌, add64, not64, u64_max,
}
use pinx_kernel.Pmm.{Pmm, page_size, set_bit, clear_bit}

-- An entry of the memory map.
pub record Region : Type 0 where
  pub base : ℕ
  pub length : ℕ
  pub type_ : ℕ

abbrev pub memmap_usable : ℕ
memmap_usable = 0

-- The variables of the first loop.
pub record Survey : Type 0 where
  pub highest_address : ℕ
  pub largest_base : ℕ
  pub largest_len : ℕ

-- One round of the first loop on an entry that is not null.
unfoldable pub survey_region : Survey → Region → Survey
survey_region s r =
    if not (r.type_ == memmap_usable)
    then s
    else let end = add64 r.base r.length in
      record {
        highest_address = if ltb s.highest_address end then end else s.highest_address;
        largest_base = if ltb s.largest_len r.length then r.base else s.largest_base;
        largest_len = if ltb s.largest_len r.length then r.length else s.largest_len;
      }

unfoldable pub survey : Survey → List (Option Region) → Survey
survey s [] = s
survey s (none ∷ rest) = survey s rest
survey s (some r ∷ rest) = survey (survey_region s r) rest

-- `for page in 0..count`, clearing the bit of `start + page`.
unfoldable pub free_range : (ℕ → ℕ) → ℕ → ℕ → ℕ → ℕ
free_range bitmap start zero = bitmap
free_range bitmap start (suc count) = free_range (clear_bit bitmap start) (start + 1) count

-- The same, setting the bit.
unfoldable pub reserve_range : (ℕ → ℕ) → ℕ → ℕ → ℕ → ℕ
reserve_range bitmap start zero = bitmap
reserve_range bitmap start (suc count) = reserve_range (set_bit bitmap start) (start + 1) count

-- The second pass over the map.
unfoldable pub free_usable : (ℕ → ℕ) → List (Option Region) → ℕ → ℕ
free_usable bitmap [] = bitmap
free_usable bitmap (none ∷ rest) = free_usable bitmap rest
free_usable bitmap (some r ∷ rest) =
    free_usable
      (if not (r.type_ == memmap_usable)
        then bitmap
        else free_range bitmap (r.base / page_size) (r.length / page_size))
      rest

abbrev pub nothing_seen : Survey
nothing_seen = record { highest_address = 0; largest_base = 0; largest_len = 0 }

-- The sizes that the code computes from the survey.
abbrev pub bitmap_entries : Survey → ℕ
bitmap_entries s = (s.highest_address / page_size + 63) / 64

abbrev pub bitmap_pages : Survey → ℕ
bitmap_pages s = (bitmap_entries s * 8 + page_size - 1) / page_size

abbrev pub bitmap_physical : Survey → ℕ
bitmap_physical s =
    bit_and (s.largest_base + s.largest_len - bitmap_pages s * page_size) (not64 (page_size - 1))

-- The statics after the writes. Words past the bitmap's end are never read; they hold all ones
-- here as well.
unfoldable pub built : List (Option Region) → Survey → Pmm
built memmap s = record {
  bitmap =
      reserve_range (free_usable (λ _. u64_max) memmap) (bitmap_physical s / page_size)
        (bitmap_pages s);
  entries = bitmap_entries s;
  hint = 0;
}

unfoldable pub pmm_init : List (Option Region) → Option Pmm
pmm_init memmap =
    let s = survey nothing_seen memmap in
    if s.largest_len == 0
    then none
    else if ltb (s.largest_len / page_size) (bitmap_pages s)
    then none
    else some (built memmap s)
