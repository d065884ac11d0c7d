-- ===== src/Syscall/Mmap.antt =====
-- The addresses that `sys_mmap` of src/syscall.rs hands out.
use pinx_kernel.Prelude.{
  ℕ, zero, suc, ◌+◌, ◌-◌, ◌*◌, ◌/◌, ◌%◌, ◌^◌, ◌≤◌, ◌<◌, ◌≡◌, ◌≢◌, ◌⊎◌, refl, ap, ◌∙◌, arith, Bool,
  true, false, ◌==◌, ◌||◌, ltb, leb, if◌then◌else◌, List, [], ◌∷◌, All, if_elim, inl, inr, Option,
  some, none,
}
use mathlib.Core.Path.{subst}
use pinx_kernel.Prelude.Run.{Run, panic, out_of_fuel, ret, ◌>>=◌, IfReturns, Ends}
use pinx_kernel.Pmm.{alloc_page, no_page}
use pinx_kernel.User.{Memory, add_page}
use pinx_kernel.Syscall.{Kernel, sys_mmap, mmap_pages, user_address_max, einval, mmap_base}

-- A call that is refused changes nothing; one that runs out of frames still moves MMAP_NEXT, past
-- a region that nobody gets; one that succeeds returns where MMAP_NEXT was, and moves it past the
-- last page of the region. A panic is that of the page tables.
pub data Mapped (k : Kernel) (size : ℕ) : Run (ℕ × Kernel) → Type 0 where
  refused : Mapped k size (ret (einval, k))
  failed :
      {k' : Kernel}
      → k.mmap_next < k'.mmap_next
      → k'.mmap_next ≤ user_address_max
      → k'.mmap_next % 4096 ≡ 0
      → Mapped k size (ret (einval, k'))
  handed :
      {k' : Kernel}
      → 0 < size
      → k.mmap_next + size ≤ k'.mmap_next
      → k'.mmap_next < k.mmap_next + size + 4096
      → k'.mmap_next ≤ user_address_max
      → k'.mmap_next % 4096 ≡ 0
      → Mapped k size (ret (k.mmap_next, k'))
  panics : Mapped k size panic

mapped-Ends :
    {A : Type 0} (o : Option A) {B : Type 0} (f : A → B)
    → Ends (elim o [ none ↦ panic | some a ↦ ret (f a) ])
mapped-Ends none f = tt
mapped-Ends (some a) f = tt

add_page-Ends : (m : Memory) (page : ℕ) → Ends (add_page m page)
unfolding add_page
add_page-Ends m page =
    if_elim Ends ((alloc_page m.vmm.pmm).0 == no_page) (λ _. tt) (λ _. mapped-Ends _ _)

mmap_pages-Ends : (left : ℕ) (m : Memory) (base page : ℕ) → Ends (mmap_pages left m base page)
unfolding mmap_pages
mmap_pages-Ends zero m base page = tt
mmap_pages-Ends (suc left) m base page =
    next (λ m'. mmap_pages-Ends left m' base (page + 1)) (add_page m (base + page * 4096))
      (add_page-Ends m (base + page * 4096))
  where
    next :
        ((m' : Memory) → Ends (mmap_pages left m' base (page + 1)))
        → (r : Run (Bool × Memory)) → Ends r
        → Ends (
            r >>= λ (done, m').
            if done then mmap_pages left m' base (page + 1) else ret (false, m'))
    next go panic e = tt
    next go out_of_fuel e = e
    next go (ret (true, m')) e = go m'
    next go (ret (false, m')) e = tt

module _ (k : Kernel) (size : ℕ) (al : k.mmap_next % 4096 ≡ 0) where
  abbrev end : ℕ
  end = k.mmap_next + (size + 4096 - 1) / 4096 * 4096

  carved :
      (r : Run (Bool × Memory))
      → Ends r
      → 0 < size
      → end ≤ user_address_max
      → Mapped k size (
          r >>= λ (done, m).
          ret (if done then k.mmap_next else einval, record k { mmap_next = end; memory = m }))
  carved panic e pos fits = panics
  carved out_of_fuel e pos fits = absurd e
  carved (ret (true, m)) e pos fits = handed pos (omega arith) (omega arith) fits (omega arith)
  carved (ret (false, m)) e pos fits = failed (omega arith) fits (omega arith)

  sys_mmap-Mapped : Mapped k size (sys_mmap k size)
  unfolding sys_mmap
  sys_mmap-Mapped =
      if_elim (Mapped k size) (size == 0 || ltb (2 ^ 40) size) (λ _. refused)
        (λ some_size.
          if_elim (Mapped k size) (leb (2 ^ 64) end || ltb user_address_max end) (λ _. refused)
            (λ fits.
              carved (mmap_pages ((size + 4096 - 1) / 4096) k.memory k.mmap_next 0)
                (mmap_pages-Ends _ k.memory k.mmap_next 0) (ground arith) (ground arith)))

-- A history of system calls: calls of `sys_mmap`, and whatever else leaves MMAP_NEXT alone, with
-- the regions handed out, the last one first, each by its address and the size asked for.
pub data History (k : Kernel) : Kernel → List (ℕ × ℕ) → Type 0 where
  start : History k k []
  other :
      {k1 k2 : Kernel} {regions : List (ℕ × ℕ)}
      → History k k1 regions
      → k2.mmap_next ≡ k1.mmap_next
      → History k k2 regions
  fails :
      {k1 k2 : Kernel} {regions : List (ℕ × ℕ)} (size : ℕ)
      → History k k1 regions
      → sys_mmap k1 size ≡ ret (einval, k2)
      → History k k2 regions
  hands :
      {k1 k2 : Kernel} {regions : List (ℕ × ℕ)} (base size : ℕ)
      → History k k1 regions
      → sys_mmap k1 size ≡ ret (base, k2)
      → base ≢ einval
      → History k k2 ((base, size) ∷ regions)

-- A region of whole addresses between `mmap_base` and `limit`.
abbrev pub IsRegion : ℕ → ℕ × ℕ → Type 0
IsRegion limit (base, size) =
    (mmap_base ≤ base) × (base % 4096 ≡ 0) × (0 < size) × (base + size ≤ limit)

-- Each region starts at or above the end of all that were handed out before it.
abbrev pub Apart : List (ℕ × ℕ) → Type 0
Apart [] = Unit
Apart ((base, size) ∷ regions) = All (λ r. r.0 + r.1 ≤ base) regions × Apart regions

record IsCarved (k : Kernel) (regions : List (ℕ × ℕ)) : Type 0 where
  above : mmap_base ≤ k.mmap_next
  limit : k.mmap_next ≤ user_address_max
  aligned : k.mmap_next % 4096 ≡ 0
  inside : All (IsRegion k.mmap_next) regions
  apart : Apart regions

raised :
    {a b : ℕ} (regions : List (ℕ × ℕ)) → a ≤ b → All (IsRegion a) regions → All (IsRegion b) regions
raised [] l h = tt
raised ((base, size) ∷ regions) l ((x, y, z, w), h) = ((x, y, z, omega arith), raised regions l h)

ends :
    (a : ℕ) (regions : List (ℕ × ℕ)) → All (IsRegion a) regions → All (λ r. r.0 + r.1 ≤ a) regions
ends a [] h = tt
ends a ((base, size) ∷ regions) ((x, y, z, w), h) = (w, ends a regions h)

-- What a call that returns leaves, by its return value.
abbrev After : List (ℕ × ℕ) → ℕ → ℕ × Kernel → Type 0
After regions size (v, k) =
    ((v ≡ einval) × IsCarved k regions) ⊎ ((v ≢ einval) × IsCarved k ((v, size) ∷ regions))

Mapped-After :
    {k : Kernel} {regions : List (ℕ × ℕ)} (size : ℕ) {r : Run (ℕ × Kernel)}
    → IsCarved k regions
    → Mapped k size r
    → IfReturns (After regions size) r
Mapped-After size c panics = tt
Mapped-After size c refused = inl (refl, c)
Mapped-After {k} {regions} size c (failed up top al) = inl (
  refl,
  record {
    above = omega (arith, c.above);
    limit = top;
    aligned = al;
    inside = raised regions (omega arith) c.inside;
    apart = c.apart;
  },
)
Mapped-After {k} {regions} size c (handed pos room near top al) = inr (
  (λ e. omega (arith, c.limit)),
  record {
    above = omega (arith, c.above);
    limit = top;
    aligned = al;
    inside = ((c.above, c.aligned, pos, room), raised regions (omega arith) c.inside);
    apart = (ends k.mmap_next regions c.inside, c.apart);
  },
)

called :
    {k1 k2 : Kernel} {regions : List (ℕ × ℕ)} (size v : ℕ)
    → IsCarved k1 regions
    → sys_mmap k1 size ≡ ret (v, k2)
    → After regions size (v, k2)
called {k1} {k2} {regions} size v c e =
    subst (IfReturns (After regions size)) e
      (Mapped-After size c (sys_mmap-Mapped k1 size c.aligned))

History-IsCarved :
    {k k' : Kernel} {regions : List (ℕ × ℕ)}
    → k.mmap_next ≡ mmap_base
    → History k k' regions
    → IsCarved k' regions
History-IsCarved b start = record {
  above = omega arith;
  limit = omega arith;
  aligned = rw b refl;
  inside = tt;
  apart = tt;
}
History-IsCarved b (other {k1} {k2} {regions} h e) =
    let c = History-IsCarved b h in
    record {
      above = omega (arith, c.above);
      limit = omega (arith, c.limit);
      aligned = ap (λ n. n % 4096) e ∙ c.aligned;
      inside = raised regions (omega arith) c.inside;
      apart = c.apart;
    }
History-IsCarved b (fails size h e) = elim (called size einval (History-IsCarved b h) e) [
  | inl (_, c) ↦ c
  | inr (ne, _) ↦ absurd (ne refl)
]
History-IsCarved b (hands base size h e ne) = elim (called size base (History-IsCarved b h) e) [
  | inl (eq, _) ↦ absurd (ne eq)
  | inr (_, c) ↦ c
]

-- In every history that starts with MMAP_NEXT at its base, the regions that `sys_mmap` returned are
-- page aligned, not empty, lie between that base and the user address limit, and each lies wholly
-- above those handed out before it, so no two of them share a byte.
pub History-Apart :
    {k k' : Kernel} {regions : List (ℕ × ℕ)}
    → k.mmap_next ≡ mmap_base
    → History k k' regions
    → All (IsRegion user_address_max) regions × Apart regions
History-Apart {regions = regions} b h =
    let c = History-IsCarved b h in (raised regions c.limit c.inside, c.apart)
