-- ===== src/Vmm/Map.antt =====
-- `vmm_map_page_flags` and `vmm_virt_to_phys` of src/mm.rs.
pub mod Unmap
use pinx_kernel.Prelude.{
  ℕ, ◌+◌, ◌-◌, ◌*◌, ◌/◌, ◌%◌, ◌^◌, ◌<◌, ◌≡◌, ◌≢◌, ◌⊎◌, refl, sym, ap, ◌∙◌, arith, Bool, true, false,
  not, ◌||◌, ◌==◌, if◌then◌else◌, Option, none, some, inl, bit_and, bit_or,
}
use mathlib.Core.Path.{subst}
use pinx_kernel.Prelude.Masks.{and_mask, and_high, or_fields}
use pinx_kernel.Pmm.{page_size}
use pinx_kernel.Vmm.{
  Vmm, pte_addr_mask, is_present, is_huge, put_entry, descend, map_from, vmm_map_page_flags,
  vmm_virt_to_phys, with_root, and_then, reread, pml4_index, pdpt_index, pd_index, pt_index,
}
use pinx_kernel.Vmm.Entry.{leaf_entry, IsPage}
use pinx_kernel.Vmm.Descend.{IsTables, Descended, panics, entered, descend-Descended, put_entry_lem}

-- A level of the walk that did not panic, and what the rest of the walk gives.
data Through (s : Vmm) (level : ℕ → ℕ) (t i : ℕ) (P : ℕ → Vmm → Type 0) : Type 0 where
  through :
      (level' : ℕ → ℕ) (s' : Vmm)
      → IsTables s' level'
      → s'.pml4 ≡ s.pml4
      → is_present (s'.tables t i) ≡ true
      → is_huge (s'.tables t i) ≡ false
      → ((x : ℕ) → 0 < level x → level' x ≡ level x)
      → ((x j : ℕ) → 0 < level x → (t ≢ x) ⊎ (i ≢ j) → s'.tables x j ≡ s.tables x j)
      → P (bit_and (s'.tables t i) pte_addr_mask) s'
      → Through s level t i P

descend-Through :
    (s : Vmm) (level : ℕ → ℕ) (t i flags : ℕ) (k : ℕ → Vmm → Option Vmm) (end : Vmm)
    → IsTables s level
    → 1 < level t
    → and_then (descend s t i flags) k ≡ some end
    → Through s level t i (λ c s'. k c s' ≡ some end)
descend-Through s level t i flags k end v inner h =
    let (out, d, e) = descend-Descended s level t i flags v inner in go d (rw e at h)
  where
    go :
        {out : Option Vmm}
        → Descended s level t i out
        → and_then (reread t i out) k ≡ some end
        → Through s level t i (λ c s'. k c s' ≡ some end)
    go panics h = cc
    go (entered level' {s'} v' root p hu old same) h = through level' s' v' root p hu old same h

-- A page that a walk through present entries reaches translates to the leaf's frame.
module _ (s : Vmm) (root address : ℕ) where
  abbrev entry4 : ℕ
  entry4 = s.tables root (pml4_index address)

  abbrev entry3 : ℕ
  entry3 = s.tables (bit_and entry4 pte_addr_mask) (pdpt_index address)

  abbrev entry2 : ℕ
  entry2 = s.tables (bit_and entry3 pte_addr_mask) (pd_index address)

  abbrev entry1 : ℕ
  entry1 = s.tables (bit_and entry2 pte_addr_mask) (pt_index address)

  translated :
      (offset : ℕ)
      → s.pml4 ≡ some root
      → address % 4096 ≡ 0
      → address + offset < 2 ^ 64
      → offset < 4096
      → (is_present entry4 ≡ true) × (is_huge entry4 ≡ false)
      → (is_present entry3 ≡ true) × (is_huge entry3 ≡ false)
      → (is_present entry2 ≡ true) × (is_huge entry2 ≡ false)
      → is_present entry1 ≡ true
      → vmm_virt_to_phys s (address + offset) ≡ bit_or (bit_and entry1 pte_addr_mask) offset
  unfolding vmm_virt_to_phys
  translated offset r al hi lo p4 p3 p2 p1 =
      let low : bit_and (address + offset) 4095 ≡ offset =
        and_mask 12 (address + offset) ∙ omega arith in
      let high : bit_and (address + offset) 0xFFFF_FFFF_FFFF_F000 ≡ address =
        and_high 64 12 (address + offset) hi (omega arith) ∙ omega arith in
      rw (r, low, high, p4.0, p4.1, p3.0, p3.1, p2.0, p2.1, p1) refl

-- A walk in progress: the entries above the current table lead down from the root.
module _ (root address : ℕ) where
  record At4 (s : Vmm) (level : ℕ → ℕ) : Type 0 where
    tables : IsTables s level
    at_root : s.pml4 ≡ some root
    top : level root ≡ 4
    present4 : is_present (entry4 s root address) ≡ true
    small4 : is_huge (entry4 s root address) ≡ false

  record At3 (s : Vmm) (level : ℕ → ℕ) : Type 0 where
    upper : At4 s level
    present3 : is_present (entry3 s root address) ≡ true
    small3 : is_huge (entry3 s root address) ≡ false

  record At2 (s : Vmm) (level : ℕ → ℕ) : Type 0 where
    upper : At3 s level
    present2 : is_present (entry2 s root address) ≡ true
    small2 : is_huge (entry2 s root address) ≡ false

  level3 :
      {s : Vmm} {level : ℕ → ℕ}
      → At4 s level
      → level (bit_and (entry4 s root address) pte_addr_mask) ≡ 3
  level3 {s} {level} a = omega (
    arith,
    a.top,
    a.tables.child root (pml4_index address) (omega (arith, a.top)) a.present4 a.small4,
  )

  level2 :
      {s : Vmm} {level : ℕ → ℕ}
      → At3 s level
      → level (bit_and (entry3 s root address) pte_addr_mask) ≡ 2
  level2 {s} {level} a =
      let l = level3 a.upper in
      omega (
        arith,
        l,
        a.upper.tables.child (bit_and (entry4 s root address) pte_addr_mask) (pdpt_index address)
            (omega (arith, l)) a.present3 a.small3,
      )

  level1 :
      {s : Vmm} {level : ℕ → ℕ}
      → At2 s level
      → level (bit_and (entry2 s root address) pte_addr_mask) ≡ 1
  level1 {s} {level} a =
      let l = level2 a.upper in
      omega (
        arith,
        l,
        a.upper.upper.tables.child (bit_and (entry3 s root address) pte_addr_mask)
            (pd_index address) (omega (arith, l)) a.present2 a.small2,
      )

  -- A step at another table keeps what stands above it.
  module _ {s s' : Vmm} {level level' : ℕ → ℕ} (t i : ℕ) (v' : IsTables s' level')
      (r : s'.pml4 ≡ s.pml4) (old : (x : ℕ) → 0 < level x → level' x ≡ level x)
      (same : (x j : ℕ) → 0 < level x → (t ≢ x) ⊎ (i ≢ j) → s'.tables x j ≡ s.tables x j) where
    kept4 : (a : At4 s level) → level t < 4 → entry4 s' root address ≡ entry4 s root address
    kept4 a l =
        same root (pml4_index address) (omega (arith, a.top))
          (inl (λ e. omega (arith, ap level e, a.top)))

    keep4 : (a : At4 s level) → level t < 4 → At4 s' level'
    keep4 a l = record {
      tables = v';
      at_root = r ∙ a.at_root;
      top = old root (omega (arith, a.top)) ∙ a.top;
      present4 = ap is_present (kept4 a l) ∙ a.present4;
      small4 = ap is_huge (kept4 a l) ∙ a.small4;
    }

    kept3 : (a : At3 s level) → level t < 3 → entry3 s' root address ≡ entry3 s root address
    kept3 a l =
        ap (λ e. s'.tables (bit_and e pte_addr_mask) (pdpt_index address))
          (kept4 a.upper (omega arith))
        ∙ same (bit_and (entry4 s root address) pte_addr_mask) (pdpt_index address)
            (omega (arith, level3 a.upper)) (inl (λ e. omega (arith, ap level e, level3 a.upper)))

    keep3 : (a : At3 s level) → level t < 3 → At3 s' level'
    keep3 a l = record {
      upper = keep4 a.upper (omega arith);
      present3 = ap is_present (kept3 a l) ∙ a.present3;
      small3 = ap is_huge (kept3 a l) ∙ a.small3;
    }

    kept2 : (a : At2 s level) → level t < 2 → entry2 s' root address ≡ entry2 s root address
    kept2 a l =
        ap (λ e. s'.tables (bit_and e pte_addr_mask) (pd_index address))
          (kept3 a.upper (omega arith))
        ∙ same (bit_and (entry3 s root address) pte_addr_mask) (pd_index address)
            (omega (arith, level2 a.upper)) (inl (λ e. omega (arith, ap level e, level2 a.upper)))

    keep2 : (a : At2 s level) → level t < 2 → At2 s' level'
    keep2 a l = record {
      upper = keep3 a.upper (omega arith);
      present2 = ap is_present (kept2 a l) ∙ a.present2;
      small2 = ap is_huge (kept2 a l) ∙ a.small2;
    }

  -- The second and third levels of the walk.
  into3 :
      {s : Vmm} {level : ℕ → ℕ} {P : ℕ → Vmm → Type 0}
      → At4 s level
      → Through s level (bit_and (entry4 s root address) pte_addr_mask) (pdpt_index address) P
      → (level' : ℕ → ℕ) × (s' : Vmm) × At3 s' level'
        × P (bit_and (entry3 s' root address) pte_addr_mask) s'
  into3 {s} {level} {P} a (through level' s' v' r p h old same k) =
      let t = bit_and (entry4 s root address) pte_addr_mask in
      let l : level t < 4 = omega (arith, level3 a) in
      let e =
        ap (λ e. s'.tables (bit_and e pte_addr_mask) (pdpt_index address))
          (sym (kept4 t (pdpt_index address) v' r old same a l)) in
      (
        level',
        s',
        record {
          upper = keep4 t (pdpt_index address) v' r old same a l;
          present3 = subst (λ e. is_present e ≡ true) e p;
          small3 = subst (λ e. is_huge e ≡ false) e h;
        },
        subst (λ e. P (bit_and e pte_addr_mask) s') e k,
      )

  into2 :
      {s : Vmm} {level : ℕ → ℕ} {P : ℕ → Vmm → Type 0}
      → At3 s level
      → Through s level (bit_and (entry3 s root address) pte_addr_mask) (pd_index address) P
      → (level' : ℕ → ℕ) × (s' : Vmm) × At2 s' level'
        × P (bit_and (entry2 s' root address) pte_addr_mask) s'
  into2 {s} {level} {P} a (through level' s' v' r p h old same k) =
      let t = bit_and (entry3 s root address) pte_addr_mask in
      let l : level t < 3 = omega (arith, level2 a) in
      let e =
        ap (λ e. s'.tables (bit_and e pte_addr_mask) (pd_index address))
          (sym (kept3 t (pd_index address) v' r old same a l)) in
      (
        level',
        s',
        record {
          upper = keep3 t (pd_index address) v' r old same a l;
          present2 = subst (λ e. is_present e ≡ true) e p;
          small2 = subst (λ e. is_huge e ≡ false) e h;
        },
        subst (λ e. P (bit_and e pte_addr_mask) s') e k,
      )

  -- The write of the leaf.
  module _ (s : Vmm) (level : ℕ → ℕ) (a : At2 s level) (leaf : ℕ) where
    abbrev pt : ℕ
    pt = bit_and (entry2 s root address) pte_addr_mask

    abbrev mapped : Vmm
    mapped = record s { tables = put_entry s.tables pt (pt_index address) leaf }

    elsewhere :
        (x j : ℕ)
        → 0 < level x
        → (pt ≢ x) ⊎ (pt_index address ≢ j)
        → mapped.tables x j ≡ s.tables x j
    elsewhere x j l ne = put_entry_lem s.tables pt (pt_index address) leaf x j ∙ ground arith

    above : (x j : ℕ) → 1 < level x → mapped.tables x j ≡ s.tables x j
    above x j l = elsewhere x j (omega arith) (inl (λ e. omega (arith, ap level e, level1 a)))

    mapped-IsTables : IsTables mapped level
    mapped-IsTables =
        let v = a.upper.upper.tables in
        record {
          frames_valid = v.frames_valid;
          small = v.small;
          taken = v.taken;
          child = λ x j l p h.
              ap (λ e. level (bit_and e pte_addr_mask) + 1) (above x j l)
              ∙ v.child x j l (sym (ap is_present (above x j l)) ∙ p)
                  (sym (ap is_huge (above x j l)) ∙ h);
        }

    mapped-At2 : At2 mapped level
    mapped-At2 =
        keep2 pt (pt_index address) mapped-IsTables refl (λ x l. refl) elsewhere a
          (omega (arith, level1 a))

    leaf_at : entry1 mapped root address ≡ leaf
    leaf_at =
        ap (λ e. mapped.tables (bit_and e pte_addr_mask) (pt_index address))
          (kept2 pt (pt_index address) mapped-IsTables refl (λ x l. refl) elsewhere a
            (omega (arith, level1 a)))
        ∙ put_entry_lem s.tables pt (pt_index address) leaf pt (pt_index address)
        ∙ ground arith

-- What a call that maps the page `address` to the frame `physical` leaves behind.
pub record Maps (s : Vmm) (root address physical : ℕ) : Type 0 where
  pub level : ℕ → ℕ
  pub tables : IsTables s level
  pub at_root : s.pml4 ≡ some root
  pub top : level root ≡ 4
  pub translates :
      (offset : ℕ)
      → address + offset < 2 ^ 64
      → offset < 4096
      → vmm_virt_to_phys s (address + offset) ≡ physical + offset

reached :
    (t : Vmm) (level : ℕ → ℕ) (root address physical : ℕ)
    → At2 root address t level
    → IsPage physical
    → address % 4096 ≡ 0
    → bit_and (entry1 t root address) pte_addr_mask ≡ physical
    → is_present (entry1 t root address) ≡ true
    → Maps t root address physical
reached t level root address physical b p al e here =
    let a = b.upper.upper in
    record {
      level = level;
      tables = a.tables;
      at_root = a.at_root;
      top = a.top;
      translates = λ offset hi lo.
          translated t root address offset a.at_root al hi lo (a.present4, a.small4)
            (b.upper.present3, b.upper.small3) (b.present2, b.small2) here
          ∙ ap (λ x. bit_or x offset) (e ∙ whole)
          ∙ or_fields 12 (physical / 4096) offset lo
          ∙ ap (λ x. x + offset) (sym whole);
    }
  where
    whole : physical ≡ physical / 4096 * 4096
    whole = omega (arith, p.aligned)

map_from-Maps :
    (s end : Vmm) (level : ℕ → ℕ) (root address physical flags : ℕ)
    → IsTables s level
    → s.pml4 ≡ some root
    → level root ≡ 4
    → IsPage physical
    → address % 4096 ≡ 0
    → bit_and flags pte_addr_mask ≡ 0
    → map_from s root address physical flags ≡ some end
    → Maps end root address physical
unfolding map_from
map_from-Maps s end level root address physical flags v r top p al clear h =
    first (descend-Through s level root (pml4_index address) flags _ end v (omega (arith, top)) h)
  where
    leaf : ℕ
    leaf = bit_or (bit_or (bit_and physical pte_addr_mask) 1) flags

    last :
        (level' : ℕ → ℕ) (s' : Vmm) (a : At2 root address s' level')
        → some (mapped root address s' level' a leaf) ≡ some end
        → Maps end root address physical
    last level' s' a e =
        let same : mapped root address s' level' a leaf ≡ end = ground arith in
        let there = leaf_at root address s' level' a leaf in
        subst (λ t. Maps t root address physical) same
          (reached (mapped root address s' level' a leaf) level' root address physical
            (mapped-At2 root address s' level' a leaf) p al
            (ap (λ x. bit_and x pte_addr_mask) there ∙ (leaf_entry physical flags p clear).0)
            (ap is_present there ∙ (leaf_entry physical flags p clear).1))

    second :
        (level' : ℕ → ℕ) (s' : Vmm) (a : At3 root address s' level')
        → and_then
            (descend s' (bit_and (entry3 s' root address) pte_addr_mask) (pd_index address) flags)
            (λ pt s3. some (record s3 { tables = put_entry s3.tables pt (pt_index address) leaf }))
          ≡ some end
        → Maps end root address physical
    second level' s' a e =
        let (level3', s3, b, k) = into2 root address a (
          descend-Through s' level' (bit_and (entry3 s' root address) pte_addr_mask)
            (pd_index address) flags _ end a.upper.tables (omega (arith, level2 root address a))
            e) in
        last level3' s3 b k

    first :
        Through s level root (pml4_index address) (λ c s1.
          and_then (descend s1 c (pdpt_index address) flags) (λ pd s2.
            and_then (descend s2 pd (pd_index address) flags) (λ pt s3.
              some (record s3 { tables = put_entry s3.tables pt (pt_index address) leaf })))
          ≡ some end)
        → Maps end root address physical
    first (through level' s' v' root' present huge old same k) =
        let a : At4 root address s' level' = record {
          tables = v';
          at_root = root' ∙ r;
          top = old root (omega (arith, top)) ∙ top;
          present4 = present;
          small4 = huge;
        } in
        let (level2', s2, b, k') = into3 root address a (
          descend-Through s' level' (bit_and (entry4 s' root address) pte_addr_mask)
            (pdpt_index address) flags _ end v' (omega (arith, level3 root address a)) k) in
        second level2' s2 b k'

called :
    (s : Vmm) (root address physical flags : ℕ)
    → s.pml4 ≡ some root
    → vmm_map_page_flags s address physical flags ≡ (
        if not (bit_and address (page_size - 1) == 0) || not (bit_and physical (page_size - 1) == 0)
        then none
        else map_from s root address physical flags)
unfolding vmm_map_page_flags
called s root address physical flags r =
    ap
      (λ o. with_root o (λ root.
        if not (bit_and address (page_size - 1) == 0) || not (bit_and physical (page_size - 1) == 0)
        then none
        else map_from s root address physical flags))
      r

-- After `vmm_map_page_flags` returned, with page-table levels in order, a frame's address below
-- 2 ^ 52 and flags outside the address digits, every address of the page translates to the same
-- place in the frame, and the levels are in order again.
pub vmm_map_page_flags-Maps :
    (s end : Vmm) (level : ℕ → ℕ) (root address physical flags : ℕ)
    → IsTables s level
    → s.pml4 ≡ some root
    → level root ≡ 4
    → physical < 2 ^ 52
    → bit_and flags pte_addr_mask ≡ 0
    → vmm_map_page_flags s address physical flags ≡ some end
    → Maps end root address physical
unfolding vmm_map_page_flags
vmm_map_page_flags-Maps s end level root address physical flags v r top small clear h =
    let (fits, e) =
      returned (not (bit_and address 4095 == 0) || not (bit_and physical 4095 == 0))
        (sym (called s root address physical flags r) ∙ h) in
    map_from-Maps s end level root address physical flags v r top
      (record { aligned = ground (arith, and_mask 12 physical); small = small })
      (ground (arith, and_mask 12 address)) clear e
  where
    returned :
        (b : Bool) {out : Option Vmm}
        → (if b then none else out) ≡ some end
        → (b ≡ false) × (out ≡ some end)
    returned true h = cc
    returned false h = (refl, h)
