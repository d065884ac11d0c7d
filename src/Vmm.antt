-- ===== src/Vmm.antt =====
-- src/mm.rs: the virtual memory manager, four levels of page tables. A table is known by its
-- physical address; the HHDM, through which the code reaches it, is left out.
pub mod Entry
pub mod Descend
pub mod Map
mod Tests
use pinx_kernel.Prelude.{
  ℕ, ◌-◌, Bool, not, ◌&&◌, ◌||◌, ◌==◌, Option, none, some, if◌then◌else◌, update, bit_and, bit_or,
  not64, ◌>>>◌, u64_max,
}
use pinx_kernel.Pmm.{Pmm, page_size, no_page, alloc_page}

abbrev pub no_phys : ℕ
no_phys = u64_max

abbrev pub pte_present : ℕ
pte_present = 1

abbrev pub pte_writable : ℕ
pte_writable = 2

abbrev pub pte_user : ℕ
pte_user = 4

abbrev pub pte_pwt : ℕ
pte_pwt = 8

abbrev pub pte_pcd : ℕ
pte_pcd = 16

abbrev pub pte_huge : ℕ
pte_huge = 128

abbrev pub pte_addr_mask : ℕ
pte_addr_mask = 0x000F_FFFF_FFFF_F000

abbrev pub pte_addr_mask_1g : ℕ
pte_addr_mask_1g = 0x000F_FFFF_C000_0000

abbrev pub pte_addr_mask_2m : ℕ
pte_addr_mask_2m = 0x000F_FFFF_FFE0_0000

-- PML4, null before `vmm_init`; the tables, by physical address and index; and the frames.
pub record Vmm : Type 0 where
  pub pml4 : Option ℕ
  pub tables : ℕ → ℕ → ℕ
  pub pmm : Pmm

-- `*table.add(index) = entry`.
unfoldable pub put_entry : (ℕ → ℕ → ℕ) → ℕ → ℕ → ℕ → ℕ → ℕ → ℕ
put_entry tables table index entry = update tables table (update (tables table) index entry)

-- `write_bytes(phys_to_ptr(page), 0, 512)`.
unfoldable pub clear_page : (ℕ → ℕ → ℕ) → ℕ → ℕ → ℕ → ℕ
clear_page tables page = update tables page (λ _. 0)

abbrev pub is_present : ℕ → Bool
is_present entry = not (bit_and entry pte_present == 0)

abbrev pub is_huge : ℕ → Bool
is_huge entry = not (bit_and entry pte_huge == 0)

-- `vmm_init`, given CR3; `none` is its panic.
unfoldable pub vmm_init : Vmm → ℕ → Option Vmm
vmm_init s cr3 =
    if cr3 == 0 then none else some (record s { pml4 = some (bit_and cr3 (not64 0xFFF)) })

-- At one level of `vmm_map_page_flags`: the user bit on an entry that is present.
unfoldable pub grant_user : Vmm → (table index flags : ℕ) → Vmm
unfolding put_entry
grant_user s table index flags =
    if not (bit_and flags pte_user == 0)
    then record s {
      tables = put_entry s.tables table index (bit_or (s.tables table index) pte_user);
    }
    else s

-- A new table under an entry that is not; `none` when no frame is left, a panic.
unfoldable pub make_table : Vmm → (table index flags : ℕ) → Option Vmm
unfolding put_entry clear_page
make_table s table index flags =
    let table_flags = bit_or (bit_or pte_present pte_writable) (bit_and flags pte_user) in
    let (new_page, pmm) = alloc_page s.pmm in
    if new_page == no_page
    then none
    else some (record s {
      tables = clear_page (put_entry s.tables table index (bit_or new_page table_flags)) new_page;
      pmm = pmm;
    })

-- The entry is read again, for the table that it leads to.
abbrev pub reread : (table index : ℕ) → Option Vmm → Option (ℕ × Vmm)
reread table index none = none
reread table index (some s) = some (bit_and (s.tables table index) pte_addr_mask, s)

-- A panic ends the walk.
abbrev pub and_then : Option (ℕ × Vmm) → (ℕ → Vmm → Option Vmm) → Option Vmm
and_then none rest = none
and_then (some (table, s)) rest = rest table s

-- One level of the walk: the table that the entry leads to. `none` is a panic.
unfoldable pub descend : Vmm → (table index flags : ℕ) → Option (ℕ × Vmm)
unfolding grant_user make_table
descend s table index flags =
    let entry = s.tables table index in
    let next =
      if is_present entry
      then if is_huge entry then none else some (grant_user s table index flags)
      else make_table s table index flags in
    reread table index next

abbrev pub pml4_index : ℕ → ℕ
pml4_index address = bit_and (address >>> 39) 0x1FF

abbrev pub pdpt_index : ℕ → ℕ
pdpt_index address = bit_and (address >>> 30) 0x1FF

abbrev pub pd_index : ℕ → ℕ
pd_index address = bit_and (address >>> 21) 0x1FF

abbrev pub pt_index : ℕ → ℕ
pt_index address = bit_and (address >>> 12) 0x1FF

-- The walk of `vmm_map_page_flags` from the PML4 at `root`, and the leaf.
unfoldable pub map_from : Vmm → (root address physical flags : ℕ) → Option Vmm
unfolding put_entry
map_from s root address physical flags =
    and_then (descend s root (pml4_index address) flags) (λ pdpt s1.
      and_then (descend s1 pdpt (pdpt_index address) flags) (λ pd s2.
        and_then (descend s2 pd (pd_index address) flags) (λ pt s3. some (record s3 {
          tables =
              put_entry s3.tables pt (pt_index address)
                (bit_or (bit_or (bit_and physical pte_addr_mask) pte_present) flags);
        }))))

-- The panic when `vmm_init` was not called.
abbrev pub with_root : Option ℕ → (ℕ → Option Vmm) → Option Vmm
with_root none walk = none
with_root (some root) walk = walk root

unfoldable pub vmm_map_page_flags : Vmm → (address physical flags : ℕ) → Option Vmm
unfolding map_from
vmm_map_page_flags s address physical flags = with_root s.pml4 (λ root.
    if not (bit_and address (page_size - 1) == 0) || not (bit_and physical (page_size - 1) == 0)
    then none
    else map_from s root address physical flags)

unfoldable pub vmm_map_page : Vmm → ℕ → ℕ → Option Vmm
vmm_map_page s address physical =
    vmm_map_page_flags s address physical (bit_or pte_present pte_writable)

unfoldable pub vmm_map_user_page : Vmm → ℕ → ℕ → Option Vmm
vmm_map_user_page s address physical =
    vmm_map_page_flags s address physical (bit_or (bit_or pte_present pte_writable) pte_user)

unfoldable pub vmm_map_user_page_flags : Vmm → ℕ → ℕ → ℕ → Option Vmm
vmm_map_user_page_flags s address physical flags =
    vmm_map_page_flags s address physical (bit_or flags pte_user)

unfoldable pub vmm_map_user_mmio : Vmm → ℕ → ℕ → Option Vmm
vmm_map_user_mmio s address physical =
    vmm_map_page_flags s address physical
      (bit_or (bit_or (bit_or (bit_or pte_present pte_writable) pte_pwt) pte_pcd) pte_user)

unfoldable pub vmm_map_mmio : Vmm → ℕ → ℕ → Option Vmm
vmm_map_mmio s address physical =
    vmm_map_page_flags s address physical
      (bit_or (bit_or (bit_or pte_present pte_writable) pte_pwt) pte_pcd)

-- `vmm_unmap_page`; `none` is a panic.
unfoldable pub vmm_unmap_page : Vmm → ℕ → Option Vmm
unfolding put_entry
vmm_unmap_page s address = with_root s.pml4 (λ root.
    let pml4_entry = s.tables root (pml4_index address) in
    let pdpt_entry = s.tables (bit_and pml4_entry pte_addr_mask) (pdpt_index address) in
    let pd_entry = s.tables (bit_and pdpt_entry pte_addr_mask) (pd_index address) in
    let pt = bit_and pd_entry pte_addr_mask in
    if not (is_present pml4_entry)
    then some s
    else if is_huge pml4_entry
    then none
    else if not (is_present pdpt_entry)
    then some s
    else if is_huge pdpt_entry
    then none
    else if not (is_present pd_entry)
    then some s
    else if is_huge pd_entry
    then none
    else if not (is_present (s.tables pt (pt_index address)))
    then some s
    else some (record s { tables = put_entry s.tables pt (pt_index address) 0 }))

-- `vmm_virt_to_phys`.
unfoldable pub vmm_virt_to_phys : Vmm → ℕ → ℕ
vmm_virt_to_phys s virtual_address = elim s.pml4 [
  | none ↦ no_phys
  | some root ↦
      let offset = bit_and virtual_address (page_size - 1) in
      let addr = bit_and virtual_address (not64 0xFFF) in
      let e4 = s.tables root (pml4_index addr) in
      let e3 = s.tables (bit_and e4 pte_addr_mask) (pdpt_index addr) in
      let e2 = s.tables (bit_and e3 pte_addr_mask) (pd_index addr) in
      let e1 = s.tables (bit_and e2 pte_addr_mask) (pt_index addr) in
      if not (is_present e4) || is_huge e4
      then no_phys
      else if not (is_present e3)
      then no_phys
      else if is_huge e3
      then bit_or (bit_or (bit_and e3 pte_addr_mask_1g) (bit_and addr 0x3FFF_FFFF)) offset
      else if not (is_present e2)
      then no_phys
      else if is_huge e2
      then bit_or (bit_or (bit_and e2 pte_addr_mask_2m) (bit_and addr 0x1F_FFFF)) offset
      else if not (is_present e1)
      then no_phys
      else bit_or (bit_and e1 pte_addr_mask) offset
]
