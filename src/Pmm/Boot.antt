-- ===== src/Pmm/Boot.antt =====
-- What `pmm_alloc_page` of src/mm.rs hands out after `pmm_init`.
use pinx_kernel.Prelude.{ℕ, ◌*◌, ◌≡◌}
use pinx_kernel.Pmm.{Pmm}
use pinx_kernel.Pmm.Words.{used}
use pinx_kernel.Pmm.Alloc.{IsValid}

module _ (Good : ℕ → Type 0) where
  -- A state in which every free frame is good.
  record Clean (p : Pmm) : Type 0 where
    valid : IsValid p
    good : (g : ℕ) → used p.bitmap g ≡ 0 → Good (g * 4096)
