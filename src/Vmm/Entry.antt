-- ===== src/Vmm/Entry.antt =====
-- The fields of a page-table entry of src/mm.rs: its address, and its present and huge bits.
use pinx_kernel.Prelude.{
  ℕ, ◌%◌, ◌^◌, ◌<◌, ◌≡◌, ◌⊎◌, refl, sym, ap, ◌∙◌, arith, true, false, not, ◌&&◌, ◌==◌, leb, ltb,
  if◌then◌else◌, bit_and, bit_or, inl, inr, Bool-cases, dec_lt,
}
use pinx_kernel.Prelude.Bits.{bit, bit-lt, bit-and, bit-or, bit-pow, bit_ext, bit_above, zero-bit}
use pinx_kernel.Prelude.Below.{holds_from, holds_at}
use pinx_kernel.Prelude.Masks.{and_mask}
use pinx_kernel.Pmm.Words.{and_pow}
use pinx_kernel.Vmm.{pte_addr_mask, is_present, is_huge}

mask_table : holds_from (λ j. bit pte_addr_mask j == (if leb 12 j then 1 else 0)) 0 52 ≡ true
unfolding holds_from bit
mask_table = refl

-- The mask keeps the digits from place 12 up to 52.
bit-mask : (j : ℕ) → bit pte_addr_mask j ≡ (if leb 12 j && ltb j 52 then 1 else 0)
bit-mask j = elim (Bool-cases (ltb j 52)) [
  | inl low ↦ ground (
    arith,
    holds_at (λ j. bit pte_addr_mask j == (if leb 12 j then 1 else 0)) 0 52 {x = j} (omega arith)
        (ground arith) mask_table,
  )
  | inr high ↦ ground (arith, bit_above 52 pte_addr_mask j (omega arith) (ground arith))
]

bit-address :
    (a j : ℕ) → bit (bit_and a pte_addr_mask) j ≡ (if leb 12 j && ltb j 52 then bit a j else 0)
bit-address a j = ground (arith, bit-and a pte_addr_mask j, bit-mask j, bit-lt a j)

-- A page's address: a multiple of 4096 below 2 ^ 52.
pub record IsPage (a : ℕ) : Type 0 where
  pub aligned : a % 4096 ≡ 0
  pub small : a < 2 ^ 52

low_ones : holds_from (λ j. bit 4095 j == 1) 0 12 ≡ true
unfolding holds_from bit
low_ones = refl

low_digit : (a j : ℕ) → a % 4096 ≡ 0 → j < 12 → bit a j ≡ 0
low_digit a j h l = ground (
  arith,
  bit-and a 4095 j,
  holds_at (λ j. bit 4095 j == 1) 0 12 {x = j} (omega arith) l low_ones,
  ap (λ t. bit t j) (and_mask 12 a ∙ h),
  zero-bit j,
  bit-lt a j,
)

pub bit-page : (a j : ℕ) → IsPage a → bit a j ≡ (if leb 12 j && ltb j 52 then bit a j else 0)
bit-page a j p = elim (dec_lt j 12) [
  | yes l ↦ ground (arith, low_digit a j p.aligned l)
  | no g ↦ elim (dec_lt j 52) [
    | yes l ↦ ground arith
    | no h ↦ ground (arith, bit_above 52 a j p.small (omega arith))
  ]
]

-- The tests of an entry read one digit each.
pub present-bit : (e : ℕ) → is_present e ≡ not (bit e 0 == 0)
present-bit e = rw (and_pow e 0) (ground arith)

pub huge-bit : (e : ℕ) → is_huge e ≡ not (bit e 7 == 0)
huge-bit e = rw (and_pow e 7) (ground (arith, bit-lt e 7))

-- An entry for the page `a` with flags that leave the address digits alone holds the page.
pub address_of :
    (a flags : ℕ)
    → IsPage a
    → bit_and flags pte_addr_mask ≡ 0
    → bit_and (bit_or a flags) pte_addr_mask ≡ a
address_of a flags p clear = bit_ext _ _ (λ j. ground (
  arith,
  bit-address (bit_or a flags) j,
  bit-or a flags j,
  bit-page a j p,
  bit-address flags j,
  ap (λ t. bit t j) clear,
  zero-bit j,
))

-- Setting a digit outside the address, other than the tested one, changes neither.
pub address_kept :
    (e flags : ℕ)
    → bit_and flags pte_addr_mask ≡ 0
    → bit_and (bit_or e flags) pte_addr_mask ≡ bit_and e pte_addr_mask
address_kept e flags clear = bit_ext _ _ (λ j. ground (
  arith,
  bit-address (bit_or e flags) j,
  bit-or e flags j,
  bit-address e j,
  bit-address flags j,
  ap (λ t. bit t j) clear,
  zero-bit j,
  bit-lt e j,
))

-- The flags of a table's entry: present and writable, and the user bit or not.
pub table_flags :
    (flags : ℕ)
    → (bit_or (bit_or 1 2) (bit_and flags 4) ≡ 3) ⊎ (bit_or (bit_or 1 2) (bit_and flags 4) ≡ 7)
table_flags flags = elim (Bool-cases (bit flags 2 == 0)) [
  | inl off ↦ inl (let e : bit flags 2 ≡ 0 = ground arith in rw (and_pow flags 2, e) refl)
  | inr on ↦
      inr (let e : bit flags 2 ≡ 1 = ground (arith, bit-lt flags 2) in rw (and_pow flags 2, e) refl)
]

-- A new entry: its page, present, not huge.
pub new_entry :
    (a flags : ℕ)
    → IsPage a
    → (let e : ℕ = bit_or a (bit_or (bit_or 1 2) (bit_and flags 4)) in
        (bit_and e pte_addr_mask ≡ a) × (is_present e ≡ true) × (is_huge e ≡ false))
unfolding bit
new_entry a flags p = elim (table_flags flags) [
  | inl e ↦ rw e (fields 3 refl refl refl)
  | inr e ↦ rw e (fields 7 refl refl refl)
]
  where
    fields :
        (g : ℕ)
        → bit_and g pte_addr_mask ≡ 0
        → bit g 0 ≡ 1
        → bit g 7 ≡ 0
        → (bit_and (bit_or a g) pte_addr_mask ≡ a)
          × (is_present (bit_or a g) ≡ true)
          × (is_huge (bit_or a g) ≡ false)
    fields g m zero' seven = (
      address_of a g p m,
      present-bit (bit_or a g) ∙ ground (arith, bit-or a g 0),
      huge-bit (bit_or a g) ∙ ground (arith, bit-or a g 7, bit-page a 7 p),
    )

-- The user bit changes neither the address nor the two tests.
pub user_entry :
    (e : ℕ)
    → (bit_and (bit_or e 4) pte_addr_mask ≡ bit_and e pte_addr_mask)
      × (is_present (bit_or e 4) ≡ is_present e)
      × (is_huge (bit_or e 4) ≡ is_huge e)
unfolding bit
user_entry e = (
  address_kept e 4 refl,
  present-bit (bit_or e 4) ∙ rw (bit-or e 4 0) (ground arith) ∙ sym (present-bit e),
  huge-bit (bit_or e 4) ∙ rw (bit-or e 4 7) (ground arith) ∙ sym (huge-bit e),
)

-- The leaf: the page, present, whatever flags leave the address digits alone.
pub leaf_entry :
    (a flags : ℕ)
    → IsPage a
    → bit_and flags pte_addr_mask ≡ 0
    → (let e : ℕ = bit_or (bit_or (bit_and a pte_addr_mask) 1) flags in
        (bit_and e pte_addr_mask ≡ a) × (is_present e ≡ true))
leaf_entry a flags p clear = (
  address_kept (bit_or (bit_and a pte_addr_mask) 1) flags clear ∙ rw whole (address_of a 1 p refl),
  present-bit e
      ∙ ground (
        arith,
        bit-or (bit_or (bit_and a pte_addr_mask) 1) flags 0,
        bit-or (bit_and a pte_addr_mask) 1 0,
        one,
        bit-lt flags 0,
        bit-lt (bit_and a pte_addr_mask) 0,
      ),
)
  where
    e : ℕ
    e = bit_or (bit_or (bit_and a pte_addr_mask) 1) flags

    one : bit 1 0 ≡ 1
    one = bit-pow 0 0

    whole : bit_and a pte_addr_mask ≡ a
    whole = bit_ext _ _ (λ j. bit-address a j ∙ sym (bit-page a j p))
