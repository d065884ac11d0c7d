-- ===== src/Pmm/Free.antt =====
-- What `pmm_free_page` of src/mm.rs releases.
use pinx_kernel.Prelude.{
  ℕ, ◌*◌, ◌/◌, ◌%◌, ◌≤◌, ◌<◌, ◌≡◌, ◌≢◌, ◌⊎◌, refl, arith, ◌==◌, leb, if◌then◌else◌, if_elim, not,
  Option, none, some, inl, inr,
}
use mathlib.Core.Path.{subst}
use pinx_kernel.Pmm.{Pmm, page_size, no_page, free_page, alloc_page}
use pinx_kernel.Pmm.Words.{used, clear_bit-used, clear_bit-IsWords}
use pinx_kernel.Pmm.Alloc.{IsValid, frames, Allocated, page, exhausted, alloc_page-Allocated}

-- The release of `addr`: a panic unless it is the page of a frame that the bitmap covers;
-- otherwise that frame is free and no other frame changes.
pub data Freed (p : Pmm) (addr : ℕ) : Option Pmm → Type 0 where
  panics : (addr % page_size ≢ 0) ⊎ (frames p ≤ addr / page_size) → Freed p addr none
  released :
      (f : ℕ) {q : Pmm}
      → addr ≡ f * page_size
      → f < frames p
      → ((g : ℕ) → used q.bitmap g ≡ (if f == g then 0 else used p.bitmap g))
      → q.entries ≡ p.entries
      → IsValid q
      → Freed p addr (some q)

-- `pmm_free_page` panics on an address that is not page aligned or whose frame the bitmap does not
-- cover, and on no other; otherwise it frees that frame, changes no other and keeps the state valid.
pub free_page-Freed : (p : Pmm) (addr : ℕ) → IsValid p → Freed p addr (free_page p addr)
unfolding free_page
free_page-Freed p addr v =
    if_elim (Freed p addr) (not (addr % page_size == 0)) (λ t. panics (inl (ground arith)))
      (λ t.
        if_elim (Freed p addr) (leb p.entries (addr / page_size / 64))
          (λ o. panics (inr (ground arith)))
          (λ o.
            released (addr / page_size) (ground arith) (ground arith)
              (clear_bit-used p.bitmap (addr / page_size)) refl
              (record {
                words = clear_bit-IsWords p.bitmap (addr / page_size) v.words;
                hint_in = ground (arith, v.hint_in);
              })))

-- After a release the next allocation succeeds.
pub alloc-free_page :
    (p q : Pmm) (addr : ℕ) → IsValid p → free_page p addr ≡ some q → (alloc_page q).0 ≢ no_page
alloc-free_page p q addr v e = after (free_page-Freed p addr v) e
  where
    not_full :
        {r : Pmm} {f : ℕ} {out : ℕ × Pmm}
        → f < frames r
        → used r.bitmap f ≡ 0
        → Allocated r out
        → out.0 ≢ no_page
    not_full small free (page g a b c d w) = omega arith
    not_full {f = f} small free (exhausted all) = λ _. omega (arith, all f small)

    after : {o : Option Pmm} → Freed p addr o → o ≡ some q → (alloc_page q).0 ≢ no_page
    after (panics why) e = cc
    after (released f {q = r} at small now same w) e =
        let same_state : r ≡ q = cc in
        subst (λ t. (alloc_page t).0 ≢ no_page) same_state
          (not_full {f = f} (ground (arith, same)) (ground (arith, now f))
            (alloc_page-Allocated r w))
