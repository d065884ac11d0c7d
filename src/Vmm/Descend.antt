-- ===== src/Vmm/Descend.antt =====
-- One level of the walk of `vmm_map_page_flags` in src/mm.rs, with the invariant of the tables.
use pinx_kernel.Prelude.{
  ℕ, ◌+◌, ◌-◌, ◌*◌, ◌/◌, ◌^◌, ◌≤◌, ◌<◌, ◌≡◌, ◌≢◌, ◌⊎◌, refl, sym, ap, ◌∙◌, arith, true, false, not,
  ◌==◌, if◌then◌else◌, if_elim, update, Option, none, some, inl, inr, Bool-cases, bit_and, bit_or,
}
use pinx_kernel.Pmm.{Pmm, no_page}
use pinx_kernel.Pmm.Words.{used}
use pinx_kernel.Pmm.Alloc.{frames, Allocated, page, exhausted, alloc_page-Allocated}
use pinx_kernel.Pmm.Alloc
use pinx_kernel.Vmm.{
  Vmm, pte_addr_mask, is_present, is_huge, put_entry, clear_page, grant_user, make_table, descend,
  reread,
}
use pinx_kernel.Vmm.Entry.{IsPage, new_entry, user_entry}

-- The tables form levels, 4 at the root: an entry that is present and not huge leads one level
-- down. Their frames are in use, and the frames' addresses fit an entry.
pub record IsTables (s : Vmm) (level : ℕ → ℕ) : Type 0 where
  pub frames_valid : Alloc.IsValid s.pmm
  pub small : frames s.pmm * 4096 ≤ 2 ^ 52
  pub taken : (t : ℕ) → 0 < level t → used s.pmm.bitmap (t / 4096) ≡ 1
  pub child :
      (t i : ℕ)
      → 1 < level t
      → is_present (s.tables t i) ≡ true
      → is_huge (s.tables t i) ≡ false
      → level (bit_and (s.tables t i) pte_addr_mask) + 1 ≡ level t

-- What a level of the walk may do: panic; or lead one level down, through an entry that is now
-- present and not huge, all other entries of the tables staying as they are.
pub data Descended (s : Vmm) (level : ℕ → ℕ) (t i : ℕ) : Option Vmm → Type 0 where
  panics : Descended s level t i none
  entered :
      (level' : ℕ → ℕ) {s' : Vmm}
      → IsTables s' level'
      → s'.pml4 ≡ s.pml4
      → is_present (s'.tables t i) ≡ true
      → is_huge (s'.tables t i) ≡ false
      → ((x : ℕ) → 0 < level x → level' x ≡ level x)
      → ((x j : ℕ) → 0 < level x → (t ≢ x) ⊎ (i ≢ j) → s'.tables x j ≡ s.tables x j)
      → Descended s level t i (some s')

pub put_entry_lem :
    (m : ℕ → ℕ → ℕ) (t i e x j : ℕ)
    → put_entry m t i e x j ≡ (if t == x then (if i == j then e else m x j) else m x j)
unfolding put_entry
put_entry_lem m t i e x j = ground (arith, ap (λ y. m y j) {x = t} {y = x})

clear_page_lem : (m : ℕ → ℕ → ℕ) (p x j : ℕ) → clear_page m p x j ≡ (if p == x then 0 else m x j)
unfolding clear_page
clear_page_lem m p x j = ground arith

module _ (s : Vmm) (level : ℕ → ℕ) (t i flags : ℕ) (v : IsTables s level)
    (inner : 1 < level t) where
  kept :
      (x j : ℕ)
      → (let e : ℕ = put_entry s.tables t i (bit_or (s.tables t i) 4) x j in
          (bit_and e pte_addr_mask ≡ bit_and (s.tables x j) pte_addr_mask)
          × (is_present e ≡ is_present (s.tables x j))
          × (is_huge e ≡ is_huge (s.tables x j)))
  kept x j = rw (put_entry_lem s.tables t i (bit_or (s.tables t i) 4) x j) (
      if_elim Same (t == x)
        (λ a.
          if_elim Same (i == j)
            (λ b.
              let tx : t ≡ x = ground arith in
              let ij : i ≡ j = ground arith in rw (tx, ij) (user_entry (s.tables x j)))
            (λ _. (refl, refl, refl)))
        (λ _. (refl, refl, refl)))
    where
      Same : ℕ → Type 0
      Same e =
          (bit_and e pte_addr_mask ≡ bit_and (s.tables x j) pte_addr_mask)
          × (is_present e ≡ is_present (s.tables x j))
          × (is_huge e ≡ is_huge (s.tables x j))

  granted :
      is_present (s.tables t i) ≡ true
      → is_huge (s.tables t i) ≡ false
      → Descended s level t i
          (some (record s { tables = put_entry s.tables t i (bit_or (s.tables t i) 4) }))
  granted present small =
      entered level
        (record {
          frames_valid = v.frames_valid;
          small = v.small;
          taken = v.taken;
          child = λ x j l p h.
              ap (λ a. level a + 1) (kept x j).0
              ∙ v.child x j l (sym (kept x j).1 ∙ p) (sym (kept x j).2 ∙ h);
        })
        refl ((kept t i).1 ∙ present) ((kept t i).2 ∙ small) (λ x l. refl)
        (λ x j l ne. put_entry_lem s.tables t i (bit_or (s.tables t i) 4) x j ∙ ground arith)

  grant_user-Descended :
      is_present (s.tables t i) ≡ true
      → is_huge (s.tables t i) ≡ false
      → Descended s level t i (some (grant_user s t i flags))
  unfolding grant_user
  grant_user-Descended present small =
      if_elim (λ s'. Descended s level t i (some s')) (not (bit_and flags 4 == 0))
        (λ _. granted present small)
        (λ _. entered level v refl present small (λ x l. refl) (λ x j l n. refl))

  module _ (f : ℕ) (q : Pmm) (free : used s.pmm.bitmap f ≡ 0) (inside : f < frames s.pmm) where
    abbrev fresh_entry : ℕ
    fresh_entry = bit_or (f * 4096) (bit_or (bit_or 1 2) (bit_and flags 4))

    abbrev with_table : ℕ → ℕ → ℕ
    with_table = clear_page (put_entry s.tables t i fresh_entry) (f * 4096)

    abbrev deeper : ℕ → ℕ
    deeper = update level (f * 4096) (level t - 1)

    is_page : IsPage (f * 4096)
    is_page = record { aligned = omega arith; small = omega (arith, v.small) }

    unshared : (x : ℕ) → 0 < level x → f * 4096 ≢ x
    unshared x l e =
        let back : x / 4096 ≡ f = omega (arith, e) in
        omega (arith, v.taken x l, ap (used s.pmm.bitmap) back)

    old_entry : (x j : ℕ) → 0 < level x → (t ≢ x) ⊎ (i ≢ j) → with_table x j ≡ s.tables x j
    old_entry x j l ne =
        clear_page_lem (put_entry s.tables t i fresh_entry) (f * 4096) x j
        ∙ ground (arith, unshared x l, put_entry_lem s.tables t i fresh_entry x j)

    new_at : with_table t i ≡ fresh_entry
    new_at =
        clear_page_lem (put_entry s.tables t i fresh_entry) (f * 4096) t i
        ∙ ground (arith, unshared t, put_entry_lem s.tables t i fresh_entry t i)

    blank : (x j : ℕ) → f * 4096 ≡ x → with_table x j ≡ 0
    blank x j e = clear_page_lem (put_entry s.tables t i fresh_entry) (f * 4096) x j ∙ ground arith

    deeper_old : (x : ℕ) → 0 < level x → deeper x ≡ level x
    deeper_old x l = ground (arith, unshared x l)

    new_child :
        (x j : ℕ)
        → deeper x ≡ level x
        → t ≡ x
        → i ≡ j
        → deeper (bit_and (with_table x j) pte_addr_mask) + 1 ≡ deeper x
    new_child x j deep a b =
        rw (← a, ← b, new_at, (new_entry (f * 4096) flags is_page).0) (ground (arith, unshared t))

    old_child :
        (x j : ℕ)
        → deeper x ≡ level x
        → 1 < level x
        → is_present (with_table x j) ≡ true
        → is_huge (with_table x j) ≡ false
        → with_table x j ≡ s.tables x j
        → deeper (bit_and (with_table x j) pte_addr_mask) + 1 ≡ deeper x
    old_child x j deep l p h same =
        let down = v.child x j l (sym (ap is_present same) ∙ p) (sym (ap is_huge same) ∙ h) in
        ap (λ e. deeper (bit_and e pte_addr_mask) + 1) same
        ∙ ap (λ a. a + 1) (deeper_old (bit_and (s.tables x j) pte_addr_mask) (omega (arith, down)))
        ∙ down
        ∙ sym deep

    child_of :
        (x j : ℕ)
        → 1 < deeper x
        → is_present (with_table x j) ≡ true
        → is_huge (with_table x j) ≡ false
        → deeper (bit_and (with_table x j) pte_addr_mask) + 1 ≡ deeper x
    child_of x j l p h = elim (Bool-cases (f * 4096 == x)) [
      | inl new ↦ let e = sym p ∙ ap is_present (blank x j (ground arith)) in cc
      | inr old ↦
          let deep : deeper x ≡ level x = rw old refl in
          elim (Bool-cases (t == x)) [
            | inl a ↦ elim (Bool-cases (i == j)) [
              | inl b ↦ new_child x j deep (ground arith) (ground arith)
              | inr b ↦
                  old_child x j deep (omega (arith, deep)) p h
                    (old_entry x j (omega (arith, deep)) (inr (ground arith)))
            ]
            | inr a ↦
                old_child x j deep (omega (arith, deep)) p h
                  (old_entry x j (omega (arith, deep)) (inl (ground arith)))
          ]
    ]

    taken_of :
        (x : ℕ)
        → ((g : ℕ) → used q.bitmap g ≡ (if f == g then 1 else used s.pmm.bitmap g))
        → 0 < deeper x
        → used q.bitmap (x / 4096) ≡ 1
    taken_of x after l = elim (Bool-cases (f * 4096 == x)) [
      | inl new ↦ let here : f ≡ x / 4096 = ground arith in after (x / 4096) ∙ ground arith
      | inr old ↦
          let deep : deeper x ≡ level x = rw old refl in
          after (x / 4096) ∙ ground (arith, v.taken x (omega (arith, deep)))
    ]

    made :
        Alloc.IsValid q
        → q.entries ≡ s.pmm.entries
        → ((g : ℕ) → used q.bitmap g ≡ (if f == g then 1 else used s.pmm.bitmap g))
        → Descended s level t i (some (record s { tables = with_table; pmm = q }))
    made valid same after =
        entered deeper
          (record {
            frames_valid = valid;
            small = omega (arith, v.small, same);
            taken = λ x l. taken_of x after l;
            child = child_of;
          })
          refl (ap is_present new_at ∙ (new_entry (f * 4096) flags is_page).1)
          (ap is_huge new_at ∙ (new_entry (f * 4096) flags is_page).2) deeper_old old_entry

  make_table-Descended : Descended s level t i (make_table s t i flags)
  unfolding make_table
  make_table-Descended = go (alloc_page-Allocated s.pmm v.frames_valid)
    where
      go :
          {out : ℕ × Pmm}
          → Allocated s.pmm out
          → Descended s level t i (
              if out.0 == no_page
              then none
              else some (record s {
                tables =
                    clear_page
                      (put_entry s.tables t i
                        (bit_or out.0 (bit_or (bit_or 1 2) (bit_and flags 4))))
                      out.0;
                pmm = out.1;
              }))
      go (exhausted all) = panics
      go (page f {q} inside free after same valid) =
          if_elim (Descended s level t i) (f * 4096 == no_page) (λ _. panics)
            (λ _. made f q free inside valid same after)

  -- What `descend` returns: the table that the entry leads to, after such a step.
  pub descend-Descended :
      (out : Option Vmm) × Descended s level t i out × (descend s t i flags ≡ reread t i out)
  unfolding descend
  descend-Descended = (
    (if is_present (s.tables t i)
        then if is_huge (s.tables t i) then none else some (grant_user s t i flags)
        else make_table s t i flags),
    if_elim (Descended s level t i) (is_present (s.tables t i))
        (λ p.
          if_elim (Descended s level t i) (is_huge (s.tables t i)) (λ _. panics)
            (λ h. grant_user-Descended p h))
        (λ _. make_table-Descended),
    refl,
  )
