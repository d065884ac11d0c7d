-- ===== src/Pmm/Usable.antt =====
-- The bits that `pmm_init` of src/mm.rs touches, and that they lie inside the bitmap.
use pinx_kernel.Prelude.{
  ℕ, zero, suc, ◌+◌, ◌/◌, ◌^◌, ◌≤◌, ◌<◌, ◌≡◌, ◌≢◌, refl, ◌∙◌, arith, Bool, true, false, not, ◌&&◌,
  ◌||◌, ◌==◌, leb, ltb, if◌then◌else◌, if_elim, Bool-cases, inl, inr, Option, none, some, List, [],
  ◌∷◌, u64_max,
}
use pinx_kernel.Pmm.{Pmm, page_size, set_bit, clear_bit}
use pinx_kernel.Pmm.Words.{
  used, IsWords, set_bit-used, clear_bit-used, set_bit-IsWords, clear_bit-IsWords, used_all_ones,
}
use pinx_kernel.Pmm.Init.{
  Region, Survey, survey, survey_region, nothing_seen, free_range, reserve_range, free_usable,
  pmm_init, built, memmap_usable, bitmap_pages, bitmap_physical,
}
use pinx_kernel.Pmm.Alloc.{IsValid}

-- Whether a frame lies in the `count` frames from `start` on.
abbrev pub within : ℕ → ℕ → ℕ → Bool
within start count g = leb start g && ltb g (start + count)

-- Whether the second pass over the map clears the bit of frame `g`.
abbrev pub clears : List (Option Region) → ℕ → Bool
clears [] g = false
clears (none ∷ rest) g = clears rest g
clears (some r ∷ rest) g =
    ((r.type_ == memmap_usable) && within (r.base / page_size) (r.length / page_size) g)
    || clears rest g

free_range-used :
    (bitmap : ℕ → ℕ) (start count g : ℕ)
    → used (free_range bitmap start count) g ≡ (if within start count g then 0 else used bitmap g)
unfolding free_range
free_range-used bitmap start zero g = ground arith
free_range-used bitmap start (suc count) g = ground (
  arith,
  free_range-used (clear_bit bitmap start) (start + 1) count g,
  clear_bit-used bitmap start g,
)

reserve_range-used :
    (bitmap : ℕ → ℕ) (start count g : ℕ)
    → used (reserve_range bitmap start count) g
      ≡ (if within start count g then 1 else used bitmap g)
unfolding reserve_range
reserve_range-used bitmap start zero g = ground arith
reserve_range-used bitmap start (suc count) g = ground (
  arith,
  reserve_range-used (set_bit bitmap start) (start + 1) count g,
  set_bit-used bitmap start g,
)

free_usable-used :
    (bitmap : ℕ → ℕ) (memmap : List (Option Region)) (g : ℕ)
    → used (free_usable bitmap memmap) g ≡ (if clears memmap g then 0 else used bitmap g)
unfolding free_usable
free_usable-used bitmap [] g = refl
free_usable-used bitmap (none ∷ rest) g = free_usable-used bitmap rest g
free_usable-used bitmap (some r ∷ rest) g =
    free_usable-used
      (if not (r.type_ == memmap_usable)
        then bitmap
        else free_range bitmap (r.base / page_size) (r.length / page_size))
      rest g
    ∙ ground (arith, free_range-used bitmap (r.base / page_size) (r.length / page_size) g)

-- The bits that are built, by the frame numbers that the loops run over.
pub built-used :
    (memmap : List (Option Region)) (s : Survey) (g : ℕ)
    → used (built memmap s).bitmap g ≡ (
        if clears memmap g && not (within (bitmap_physical s / page_size) (bitmap_pages s) g)
        then 0
        else 1)
unfolding built
built-used memmap s g = ground (
  arith,
  reserve_range-used (free_usable (λ _. u64_max) memmap) (bitmap_physical s / page_size)
      (bitmap_pages s) g,
  free_usable-used (λ _. u64_max) memmap g,
  used_all_ones g,
)

ones-IsWords : IsWords (λ _. u64_max)
ones-IsWords i = omega arith

free_range-IsWords :
    (bitmap : ℕ → ℕ) (start count : ℕ) → IsWords bitmap → IsWords (free_range bitmap start count)
unfolding free_range
free_range-IsWords bitmap start zero w = w
free_range-IsWords bitmap start (suc count) w =
    free_range-IsWords (clear_bit bitmap start) (start + 1) count (clear_bit-IsWords bitmap start w)

reserve_range-IsWords :
    (bitmap : ℕ → ℕ) (start count : ℕ) → IsWords bitmap → IsWords (reserve_range bitmap start count)
unfolding reserve_range
reserve_range-IsWords bitmap start zero w = w
reserve_range-IsWords bitmap start (suc count) w =
    reserve_range-IsWords (set_bit bitmap start) (start + 1) count (set_bit-IsWords bitmap start w)

free_usable-IsWords :
    (bitmap : ℕ → ℕ) (memmap : List (Option Region))
    → IsWords bitmap
    → IsWords (free_usable bitmap memmap)
unfolding free_usable
free_usable-IsWords bitmap [] w = w
free_usable-IsWords bitmap (none ∷ rest) w = free_usable-IsWords bitmap rest w
free_usable-IsWords bitmap (some r ∷ rest) w =
    free_usable-IsWords
      (if not (r.type_ == memmap_usable)
        then bitmap
        else free_range bitmap (r.base / page_size) (r.length / page_size))
      rest
      (if_elim IsWords (not (r.type_ == memmap_usable)) (λ _. w)
        (λ _. free_range-IsWords bitmap (r.base / page_size) (r.length / page_size) w))

pub built-IsValid :
    (memmap : List (Option Region)) (s : Survey)
    → 0 < (built memmap s).entries
    → IsValid (built memmap s)
unfolding built
built-IsValid memmap s pos = record {
  words =
      reserve_range-IsWords (free_usable (λ _. u64_max) memmap) (bitmap_physical s / page_size)
        (bitmap_pages s) (free_usable-IsWords (λ _. u64_max) memmap ones-IsWords);
  hint_in = pos;
}

-- What a successful run has passed.
pub accepted :
    (memmap : List (Option Region)) (p : Pmm)
    → pmm_init memmap ≡ some p
    → let s = survey nothing_seen memmap in
      (built memmap s ≡ p) × (bitmap_pages s ≤ s.largest_len / page_size) × (s.largest_len ≢ 0)
unfolding pmm_init
accepted memmap p e =
    let s = survey nothing_seen memmap in
    from s.largest_len (s.largest_len / page_size) (bitmap_pages s) (built memmap s) e
  where
    from :
        (len room pages : ℕ) (q : Pmm)
        → (if len == 0 then none else if ltb room pages then none else some q) ≡ some p
        → (q ≡ p) × (pages ≤ room) × (len ≢ 0)
    from len room pages q h = (ground arith, ground arith, λ z. ground arith)

-- No usable region of the map wraps round the address space.
abbrev pub NoWrap : List (Option Region) → Type 0
NoWrap [] = Unit {0}
NoWrap (none ∷ rest) = NoWrap rest
NoWrap (some r ∷ rest) =
    ((r.type_ == memmap_usable) ≡ true → r.base + r.length < 2 ^ 64) × NoWrap rest

-- What the survey knows of the regions it has seen.
pub record Sees (s t : Survey) : Type 0 where
  pub higher : s.highest_address ≤ t.highest_address
  pub largest_in : t.largest_base + t.largest_len ≤ t.highest_address
  pub word : t.highest_address < 2 ^ 64

abbrev pub Sound : Survey → Type 0
Sound s = (s.largest_base + s.largest_len ≤ s.highest_address) × (s.highest_address < 2 ^ 64)

survey_region-Sees :
    (s : Survey) (r : Region)
    → ((r.type_ == memmap_usable) ≡ true → r.base + r.length < 2 ^ 64)
    → Sound s
    → Sees s (survey_region s r)
unfolding survey_region
survey_region-Sees s r h ok = elim (Bool-cases (r.type_ == memmap_usable)) [
  | inl usable ↦ let low : r.base + r.length < 2 ^ 64 = h usable in ground arith
  | inr other ↦ rw other (ground arith)
]

pub survey-Sees :
    (s : Survey) (memmap : List (Option Region))
    → NoWrap memmap
    → Sound s
    → Sees s (survey s memmap)
unfolding survey
survey-Sees s [] h ok = omega arith
survey-Sees s (none ∷ rest) h ok = survey-Sees s rest h ok
survey-Sees s (some r ∷ rest) h ok =
    let one = survey_region-Sees s r h.0 ok in
    let more = survey-Sees (survey_region s r) rest h.1 (one.largest_in, one.word) in omega arith
