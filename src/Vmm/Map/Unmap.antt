-- ===== src/Vmm/Map/Unmap.antt =====
-- `vmm_unmap_page` of src/mm.rs.
use pinx_kernel.Prelude.{
  ℕ, ◌+◌, ◌%◌, ◌^◌, ◌<◌, ◌≡◌, refl, ap, ◌∙◌, arith, Bool, true, false, not, if◌then◌else◌, if_elim,
  Option, none, some, bit_and,
}
use pinx_kernel.Prelude.Masks.{and_mask, and_high}
use pinx_kernel.Vmm.{
  Vmm, pte_addr_mask, is_present, is_huge, put_entry, vmm_virt_to_phys, pt_index, no_phys,
}
use pinx_kernel.Vmm.Descend.{IsTables}
use pinx_kernel.Vmm.Map.{entry4, entry3, entry2, entry1, At2, mapped, mapped-At2, leaf_at}

module _ (s : Vmm) (root address offset : ℕ) (r : s.pml4 ≡ some root) (al : address % 4096 ≡ 0)
    (hi : address + offset < 2 ^ 64) (lo : offset < 4096) where
  low : bit_and (address + offset) 4095 ≡ offset
  low = and_mask 12 (address + offset) ∙ omega arith

  high : bit_and (address + offset) 0xFFFF_FFFF_FFFF_F000 ≡ address
  high = and_high 64 12 (address + offset) hi (omega arith) ∙ omega arith

  -- The walk stops at the first entry that is not present.
  absent4 :
      is_present (entry4 s root address) ≡ false → vmm_virt_to_phys s (address + offset) ≡ no_phys
  unfolding vmm_virt_to_phys
  absent4 p = rw (r, low, high, p) refl

  module _ (p4 : is_present (entry4 s root address) ≡ true)
      (h4 : is_huge (entry4 s root address) ≡ false) where
    absent3 :
        is_present (entry3 s root address) ≡ false → vmm_virt_to_phys s (address + offset) ≡ no_phys
    unfolding vmm_virt_to_phys
    absent3 p = rw (r, low, high, p4, h4, p) refl

    module _ (p3 : is_present (entry3 s root address) ≡ true)
        (h3 : is_huge (entry3 s root address) ≡ false) where
      absent2 :
          is_present (entry2 s root address) ≡ false
          → vmm_virt_to_phys s (address + offset) ≡ no_phys
      unfolding vmm_virt_to_phys
      absent2 p = rw (r, low, high, p4, h4, p3, h3, p) refl

      absent1 :
          is_present (entry2 s root address) ≡ true
          → is_huge (entry2 s root address) ≡ false
          → is_present (entry1 s root address) ≡ false
          → vmm_virt_to_phys s (address + offset) ≡ no_phys
      unfolding vmm_virt_to_phys
      absent1 p2 h2 p = rw (r, low, high, p4, h4, p3, h3, p2, h2, p) refl

-- The entries on the way to a page lead, each present and not huge, to a present entry that maps a
-- huge page.
pub data MapsHuge (s : Vmm) (root address : ℕ) : Type 0 where
  huge4 :
      is_present (entry4 s root address) ≡ true
      → is_huge (entry4 s root address) ≡ true
      → MapsHuge s root address
  huge3 :
      is_present (entry4 s root address) ≡ true
      → is_huge (entry4 s root address) ≡ false
      → is_present (entry3 s root address) ≡ true
      → is_huge (entry3 s root address) ≡ true
      → MapsHuge s root address
  huge2 :
      is_present (entry4 s root address) ≡ true
      → is_huge (entry4 s root address) ≡ false
      → is_present (entry3 s root address) ≡ true
      → is_huge (entry3 s root address) ≡ false
      → is_present (entry2 s root address) ≡ true
      → is_huge (entry2 s root address) ≡ true
      → MapsHuge s root address

-- What `vmm_unmap_page` may do: panic, at a present entry that maps a huge page; or leave a state
-- in which no address of the page resolves, with the levels in order.
pub data Unmapped (s : Vmm) (level : ℕ → ℕ) (root address : ℕ) : Option Vmm → Type 0 where
  huge : MapsHuge s root address → Unmapped s level root address none
  unmapped :
      {t : Vmm}
      → IsTables t level
      → t.pml4 ≡ s.pml4
      → t.pmm ≡ s.pmm
      → ((offset : ℕ)
          → address + offset < 2 ^ 64
          → offset < 4096
          → vmm_virt_to_phys t (address + offset) ≡ no_phys)
      → Unmapped s level root address (some t)

module _ (s : Vmm) (level : ℕ → ℕ) (root address : ℕ) (v : IsTables s level)
    (r : s.pml4 ≡ some root) (top : level root ≡ 4) (al : address % 4096 ≡ 0) where
  cleared :
      (a : At2 root address s level)
      → Unmapped s level root address (some (mapped root address s level a 0))
  cleared a =
      let b = mapped-At2 root address s level a 0 in
      let c = b.upper.upper in
      unmapped c.tables refl refl (λ offset hi lo.
        absent1 (mapped root address s level a 0) root address offset c.at_root al hi lo c.present4
          c.small4 b.upper.present3 b.upper.small3 b.present2 b.small2
          (ap is_present (leaf_at root address s level a 0)))

  walked : Unmapped s level root address (
      if not (is_present (entry4 s root address))
      then some s
      else if is_huge (entry4 s root address)
      then none
      else if not (is_present (entry3 s root address))
      then some s
      else if is_huge (entry3 s root address)
      then none
      else if not (is_present (entry2 s root address))
      then some s
      else if is_huge (entry2 s root address)
      then none
      else if not (is_present (entry1 s root address))
      then some s
      else some (record s {
        tables =
            put_entry s.tables (bit_and (entry2 s root address) pte_addr_mask) (pt_index address) 0;
      }))
  walked =
      if_elim U (not (is_present (entry4 s root address)))
        (λ n. unmapped v refl refl (λ o hi lo. absent4 s root address o r al hi lo (off n)))
        (λ y4.
          if_elim U (is_huge (entry4 s root address)) (λ h. huge (huge4 (on y4) h))
            (λ h4.
              if_elim U (not (is_present (entry3 s root address)))
                (λ n.
                  unmapped v refl refl
                    (λ o hi lo. absent3 s root address o r al hi lo (on y4) h4 (off n)))
                (λ y3.
                  if_elim U (is_huge (entry3 s root address))
                    (λ h. huge (huge3 (on y4) h4 (on y3) h))
                    (λ h3.
                      if_elim U (not (is_present (entry2 s root address)))
                        (λ n. unmapped v refl refl (λ o hi lo.
                          absent2 s root address o r al hi lo (on y4) h4 (on y3) h3 (off n)))
                        (λ y2.
                          if_elim U (is_huge (entry2 s root address))
                            (λ h. huge (huge2 (on y4) h4 (on y3) h3 (on y2) h))
                            (λ h2.
                              if_elim U (not (is_present (entry1 s root address)))
                                (λ n. unmapped v refl refl (λ o hi lo.
                                  absent1 s root address o r al hi lo (on y4) h4 (on y3) h3 (on y2)
                                    h2 (off n)))
                                (λ _. cleared (record {
                                  upper = record {
                                    upper = record {
                                      tables = v;
                                      at_root = r;
                                      top = top;
                                      present4 = on y4;
                                      small4 = h4;
                                    };
                                    present3 = on y3;
                                    small3 = h3;
                                  };
                                  present2 = on y2;
                                  small2 = h2;
                                }))))))))
    where
      U : Option Vmm → Type 0
      U = Unmapped s level root address

      on : {b : Bool} → not b ≡ false → b ≡ true
      on h = ground arith

      off : {b : Bool} → not b ≡ true → b ≡ false
      off h = ground arith
