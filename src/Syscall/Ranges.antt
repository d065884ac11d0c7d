-- ===== src/Syscall/Ranges.antt =====
-- The check of user ranges in src/syscall.rs, against the bytes of the range.
use pinx_kernel.Prelude.{
  ℕ, zero, suc, ◌+◌, ◌-◌, ◌*◌, ◌/◌, ◌%◌, ◌^◌, ◌≤◌, ◌<◌, ◌≡◌, ◌≢◌, refl, sym, ap, ◌∙◌, arith, Bool,
  true, false, not, ◌==◌, ◌||◌, ltb, leb, if◌then◌else◌, bit_and, bit_or, not64, some, none, ◌↔◌,
  dec_lt, Option,
}
use pinx_kernel.Prelude.Bits.{bit-and, bit_above, lt_of_bits}
use pinx_kernel.Prelude.Masks.{and_mask}
use pinx_kernel.Prelude.Masks.{and_high}
use pinx_kernel.Pmm.Words.{or-lt}
use pinx_kernel.Vmm.{
  Vmm, no_phys, vmm_virt_to_phys, is_present, is_huge, pte_addr_mask, pml4_index, pdpt_index,
  pd_index, pt_index, pte_addr_mask_1g, pte_addr_mask_2m,
}
use pinx_kernel.Syscall.{user_range_valid, check_pages, user_address_max}

-- The address leads to a byte of memory.
abbrev pub Resolves : Vmm → ℕ → Type 0
Resolves s a = vmm_virt_to_phys s a ≢ no_phys

-- A masked number is at most the mask.
and_le : (a b j : ℕ) → b < 2 ^ j → bit_and a b < 2 ^ j
and_le a b j h =
    lt_of_bits j (bit_and a b) (λ i l. ground (arith, bit-and a b i, bit_above j b i h l))

small : (a : ℕ) → a < 2 ^ 52 → (a == no_phys) ≡ false
small a h = ground arith

-- The walk of `vmm_virt_to_phys` for the page `addr` and the offset in it.
walk : Vmm → ℕ → ℕ → ℕ → ℕ
walk s root addr offset =
    let e4 = s.tables root (pml4_index addr) in
    let e3 = s.tables (bit_and e4 pte_addr_mask) (pdpt_index addr) in
    let e2 = s.tables (bit_and e3 pte_addr_mask) (pd_index addr) in
    let e1 = s.tables (bit_and e2 pte_addr_mask) (pt_index addr) in
    if not (is_present e4) || is_huge e4
    then no_phys
    else if not (is_present e3)
    then no_phys
    else if is_huge e3
    then bit_or (bit_or (bit_and e3 pte_addr_mask_1g) (bit_and addr 0x3FFF_FFFF)) offset
    else if not (is_present e2)
    then no_phys
    else if is_huge e2
    then bit_or (bit_or (bit_and e2 pte_addr_mask_2m) (bit_and addr 0x1F_FFFF)) offset
    else if not (is_present e1)
    then no_phys
    else bit_or (bit_and e1 pte_addr_mask) offset

walk_root : Option ℕ → Vmm → ℕ → ℕ → ℕ
walk_root none s addr offset = no_phys
walk_root (some root) s addr offset = walk s root addr offset

walked : Vmm → ℕ → ℕ → ℕ
walked s addr offset = walk_root s.pml4 s addr offset

vmm_virt_to_phys_lem :
    (s : Vmm) (a : ℕ) → vmm_virt_to_phys s a ≡ walked s (bit_and a (not64 4095)) (bit_and a 4095)
unfolding walked walk vmm_virt_to_phys walk_root
vmm_virt_to_phys_lem s a =
    elim s.pml4
      as (λ o.
        (elim o [
          | none ↦ no_phys
          | some root ↦ walk s root (bit_and a (not64 4095)) (bit_and a 4095)
        ])
        ≡ walk_root o s (bit_and a (not64 4095)) (bit_and a 4095)) [
          | none ↦ refl
          | some root ↦ refl
        ]

-- What carries over in both branches carries over.
both_if :
    (b : Bool) {v v' w w' : ℕ}
    → (v ≢ no_phys → w ≢ no_phys)
    → (v' ≢ no_phys → w' ≢ no_phys)
    → (if b then v else v') ≢ no_phys
    → (if b then w else w') ≢ no_phys
both_if true f g = f
both_if false f g = g

module _ (s : Vmm) (addr x y : ℕ) (lx : x < 2 ^ 12) (ly : y < 2 ^ 12) where
  leaf : (e mask z : ℕ) → mask < 2 ^ 52 → z < 2 ^ 12 → bit_or (bit_and e mask) z ≢ no_phys
  leaf e mask z h k p =
      omega (arith, or-lt 52 (bit_and e mask) z (and_le e mask 52 h) (omega (arith, k)))

  huge_leaf :
      (e mask within z : ℕ)
      → mask < 2 ^ 52
      → within < 2 ^ 52
      → z < 2 ^ 12
      → bit_or (bit_or (bit_and e mask) (bit_and addr within)) z ≢ no_phys
  huge_leaf e mask within z h w k p = omega (
    arith,
    or-lt 52 (bit_or (bit_and e mask) (bit_and addr within)) z
        (or-lt 52 _ _ (and_le e mask 52 h) (and_le addr within 52 w)) (omega (arith, k)),
  )

  -- Whether an address resolves does not depend on the offset in its page.
  walk-offset : (root : ℕ) → walk s root addr x ≢ no_phys → walk s root addr y ≢ no_phys
  unfolding walk
  walk-offset root =
      let e4 : ℕ = s.tables root (pml4_index addr) in
      let e3 : ℕ = s.tables (bit_and e4 pte_addr_mask) (pdpt_index addr) in
      let e2 : ℕ = s.tables (bit_and e3 pte_addr_mask) (pd_index addr) in
      let e1 : ℕ = s.tables (bit_and e2 pte_addr_mask) (pt_index addr) in
      both_if (not (is_present e4) || is_huge e4) (λ h. h)
        (both_if (not (is_present e3)) (λ h. h)
          (both_if (is_huge e3)
            (λ _. huge_leaf e3 pte_addr_mask_1g 0x3FFF_FFFF y (omega arith) (omega arith) ly)
            (both_if (not (is_present e2)) (λ h. h)
              (both_if (is_huge e2)
                (λ _. huge_leaf e2 pte_addr_mask_2m 0x1F_FFFF y (omega arith) (omega arith) ly)
                (both_if (not (is_present e1)) (λ h. h)
                  (λ _. leaf e1 pte_addr_mask y (omega arith) ly))))))

  walked-offset : walked s addr x ≢ no_phys → walked s addr y ≢ no_phys
  unfolding walked walk_root
  walked-offset =
      elim s.pml4 as (λ o. walk_root o s addr x ≢ no_phys → walk_root o s addr y ≢ no_phys) [
        | none ↦ λ h. h
        | some root ↦ walk-offset root
      ]

page_of : ℕ → ℕ
page_of a = bit_and a (not64 4095)

page_of_lem : (a : ℕ) → a < 2 ^ 64 → page_of a ≡ a - a % 4096
unfolding page_of
page_of_lem a h = and_high 64 12 a h (omega arith)

Resolves-page : (s : Vmm) (a b : ℕ) → page_of a ≡ page_of b → Resolves s a → Resolves s b
unfolding page_of
Resolves-page s a b e h p =
    walked-offset s (bit_and a (not64 4095)) (bit_and a 4095) (bit_and b 4095)
      (omega (arith, and_mask 12 a)) (omega (arith, and_mask 12 b))
      (λ q. h (vmm_virt_to_phys_lem s a ∙ q))
      (ap (λ t. walked s t (bit_and b 4095)) e ∙ sym (vmm_virt_to_phys_lem s b) ∙ p)

check_pages-suc :
    (s : Vmm) (left page : ℕ)
    → check_pages s (suc left) page ≡ true
    → Resolves s page × (check_pages s left (page + 4096) ≡ true)
unfolding check_pages
check_pages-suc s left page h = (λ p. ground arith, ground arith)

-- The loop: `true` exactly when every page checked resolves.
check_pages-all :
    (s : Vmm) (left page : ℕ)
    → check_pages s left page ≡ true
    → (i : ℕ) → i < left
    → Resolves s (page + i * 4096)
check_pages-all s zero page h i l p = absurd (omega arith)
check_pages-all s (suc left) page h zero l p =
    (check_pages-suc s left page h).0 (ap (vmm_virt_to_phys s) (omega arith) ∙ p)
check_pages-all s (suc left) page h (suc i) l p =
    check_pages-all s left (page + 4096) (check_pages-suc s left page h).1 i (omega arith)
      (ap (vmm_virt_to_phys s) (omega arith) ∙ p)

all-check_pages :
    (s : Vmm) (left page : ℕ)
    → ((i : ℕ) → i < left → Resolves s (page + i * 4096))
    → check_pages s left page ≡ true
unfolding check_pages
all-check_pages s zero page h = refl
all-check_pages s (suc left) page h =
    let here : Resolves s page =
      λ p. h 0 (omega arith) (ap (vmm_virt_to_phys s) (omega arith) ∙ p) in
    let test : (vmm_virt_to_phys s page == no_phys) ≡ false = ground arith in
    rw test (
      all-check_pages s left (page + 4096)
        (λ i l p. h (suc i) (omega arith) (ap (vmm_virt_to_phys s) (omega arith) ∙ p)))

-- Every address of the range lies in user space and resolves.
pub record IsMapped (s : Vmm) (address length : ℕ) : Type 0 where
  pub non_null : address ≢ 0
  pub in_user : address + length ≤ user_address_max
  pub resolves : (a : ℕ) → address ≤ a → a < address + length → Resolves s a

abbrev page_rounds : ℕ → ℕ → ℕ
page_rounds address length = (address + length - page_of address + 4095) / 4096

user_range_valid_split :
    (s : Vmm) (address length : ℕ)
    → user_range_valid s address length ≡ true
    → (address ≢ 0)
      × (address + length ≤ user_address_max)
      × (check_pages s (page_rounds address length) (page_of address) ≡ true)
unfolding user_range_valid page_of
user_range_valid_split s address length h = (λ z. ground arith, ground arith, ground arith)

pub user_range_valid-IsMapped :
    (s : Vmm) (address length : ℕ)
    → user_range_valid s address length ≡ true
    → IsMapped s address length
user_range_valid-IsMapped s address length h = record {
  non_null = parts.0;
  in_user = parts.1;
  resolves = λ a l u.
      let i = (a - page_of address) / 4096 in
      let low = page_of_lem address (omega (arith, parts.1)) in
      Resolves-page s (page_of address + i * 4096) a
        (page_of_lem _ (omega (arith, parts.1))
          ∙ omega (arith, low)
          ∙ sym (page_of_lem a (omega (arith, parts.1))))
        (check_pages-all s (page_rounds address length) (page_of address) parts.2 i
          (omega (arith, low)));
}
  where
    parts :
        (address ≢ 0)
        × (address + length ≤ user_address_max)
        × (check_pages s (page_rounds address length) (page_of address) ≡ true)
    parts = user_range_valid_split s address length h

IsMapped-user_range_valid :
    (s : Vmm) (address length : ℕ)
    → 0 < length
    → IsMapped s address length
    → user_range_valid s address length ≡ true
unfolding user_range_valid page_of
IsMapped-user_range_valid s address length pos v =
    let fits : leb (2 ^ 64) (address + length) ≡ false = ground (arith, v.in_user) in
    let user : (address == 0 || ltb user_address_max (address + length)) ≡ false =
      ground (arith, v.in_user, v.non_null) in
    rw (fits, user) pages
  where
    touched : (i : ℕ) → i < page_rounds address length → Resolves s (page_of address + i * 4096)
    touched i l = elim (dec_lt (page_of address + i * 4096) address) [
      | yes below ↦
          Resolves-page s address (page_of address + i * 4096)
            (page_of_lem address small_address
              ∙ omega (arith, low)
              ∙ sym (page_of_lem _ (omega (arith, v.in_user, low))))
            (v.resolves address (omega arith) (omega arith))
      | no above ↦ v.resolves _ (omega arith) (omega (arith, low))
    ]
      where
        small_address : address < 2 ^ 64
        small_address = omega (arith, v.in_user)

        low : page_of address ≡ address - address % 4096
        low = page_of_lem address small_address

    pages : check_pages s (page_rounds address length) (page_of address) ≡ true
    pages = all-check_pages s (page_rounds address length) (page_of address) touched

-- For a length above 0, `user_range_valid` says yes exactly when the range starts above address 0,
-- ends, without wrapping, at the split between user and kernel addresses or below it, and every
-- byte of it resolves.
pub user_range_valid_iff :
    (s : Vmm) (address length : ℕ)
    → 0 < length
    → (user_range_valid s address length ≡ true) ↔ IsMapped s address length
user_range_valid_iff s address length pos =
    (user_range_valid-IsMapped s address length, IsMapped-user_range_valid s address length pos)
