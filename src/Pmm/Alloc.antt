-- ===== src/Pmm/Alloc.antt =====
-- What `pmm_alloc_page` of src/mm.rs hands out.
use pinx_kernel.Prelude.{
  ◌⊎◌, ℕ, zero, suc, ◌+◌, ◌*◌, ◌/◌, ◌%◌, ◌^◌, ◌≤◌, ◌<◌, ◌≡◌, ◌≢◌, refl, sym, ap, ◌∙◌, arith, ◌==◌,
  if◌then◌else◌, if_elim, not, Option, none, some, inl, inr, List, [], ◌∷◌, All,
}
use native.Mathlib.Nat.{mod-lt}
use pinx_kernel.Prelude.Bits.{bit}
use pinx_kernel.Pmm.{Pmm, page_size, no_page, claim, alloc_page, set_bit}
use pinx_kernel.Pmm.Words.{used, IsWords, set_bit-used, set_bit-IsWords}
use pinx_kernel.Pmm.Scan.{Scanned, free, none_free, scan-Scanned, visited}

-- The words are `u64`s and the hint is a word index.
pub record IsValid (p : Pmm) : Type 0 where
  pub words : IsWords p.bitmap
  pub hint_in : p.hint < p.entries

-- The frames that the bitmap covers.
abbrev pub frames : Pmm → ℕ
frames p = 64 * p.entries

-- What an allocation from `p` may return: a page of a frame that was free, which is then the one
-- frame that changes; or PMM_NO_PAGE, when every frame is used, and no change.
pub data Allocated (p : Pmm) : ℕ × Pmm → Type 0 where
  page :
      (f : ℕ) {q : Pmm}
      → f < frames p
      → used p.bitmap f ≡ 0
      → ((g : ℕ) → used q.bitmap g ≡ (if f == g then 1 else used p.bitmap g))
      → q.entries ≡ p.entries
      → IsValid q
      → Allocated p (f * page_size, q)
  exhausted : ((f : ℕ) → f < frames p → used p.bitmap f ≡ 1) → Allocated p (no_page, p)

claim-set_bit :
    (p : Pmm) (index c : ℕ) → c < 64 → (claim p index c).bitmap ≡ set_bit p.bitmap (index * 64 + c)
unfolding claim set_bit
claim-set_bit p index c h =
    let word : (index * 64 + c) / 64 ≡ index = omega arith in
    let place : (index * 64 + c) % 64 ≡ c = omega arith in rw (word, place)

module _ (p : Pmm) (v : IsValid p) where
  claimed :
      (index c : ℕ)
      → index < p.entries
      → c < 64
      → bit (p.bitmap index) c ≡ 0
      → Allocated p ((index * 64 + c) * page_size, claim p index c)
  unfolding claim
  claimed index c hi hc z =
      let f = index * 64 + c in
      let same = claim-set_bit p index c hc in
      page f {q = claim p index c} (omega arith) free_before
        (λ g. ap (λ b. used b g) same ∙ set_bit-used p.bitmap f g) refl
        (record {
          words = λ i. ap_lt i (ap (λ b. b i) same) (set_bit-IsWords p.bitmap f v.words i);
          hint_in = mod-lt (f + 1) (omega (arith, v.hint_in));
        })
    where
      word : (index * 64 + c) / 64 ≡ index
      word = omega arith

      place : (index * 64 + c) % 64 ≡ c
      place = omega arith

      free_before : used p.bitmap (index * 64 + c) ≡ 0
      free_before = unfold used in rw (word, place) z

      ap_lt : (i : ℕ) {a b : ℕ} → a ≡ b → b < 2 ^ 64 → a < 2 ^ 64
      ap_lt i e h = omega arith

  all_used :
      ((s c : ℕ) → 0 ≤ s → s < p.entries → c < 64 → bit (p.bitmap ((p.hint + s) % p.entries)) c ≡ 1)
      → (f : ℕ) → f < frames p
      → used p.bitmap f ≡ 1
  unfolding used
  all_used all f h =
      let (s, small, e) = visited p.hint p.entries (f / 64) v.hint_in (omega arith) in
      ap (λ i. bit (p.bitmap i) (f % 64)) (sym e) ∙ all s (f % 64) (omega arith) small (omega arith)

  finish :
      {o : Option (ℕ × ℕ)}
      → Scanned p 0 p.entries o
      → Allocated p (elim o [
        | none ↦ (no_page, p)
        | some (index, c) ↦ ((index * 64 + c) * page_size, claim p index c)
      ])
  finish (free index c hi hc z) = claimed index c hi hc z
  finish (none_free all) = exhausted (λ f h. all_used all f h)

  -- From a valid state, `pmm_alloc_page` returns the page of a frame that was free, marks that
  -- frame and no other as used, and leaves a valid state; or it returns PMM_NO_PAGE and changes
  -- nothing, which happens only when every frame is used.
  pub alloc_page-Allocated : Allocated p (alloc_page p)
  unfolding alloc_page
  alloc_page-Allocated =
      if_elim (Allocated p) (not (p.entries == 0))
        (λ _. finish (scan-Scanned p p.entries 0 p.entries (omega arith) (omega arith)))
        (λ t. absurd (ground (arith, v.hint_in)))

-- `n` calls of `pmm_alloc_page` in a row, with what each returned.
abbrev pub allocs : ℕ → Pmm → List ℕ
allocs zero p = []
allocs (suc n) p = let (r, q) = alloc_page p in r ∷ allocs n q

-- No page twice in a list; PMM_NO_PAGE may repeat.
abbrev pub Distinct : List ℕ → Type 0
Distinct [] = Unit
Distinct (x ∷ xs) = All (λ y. (x ≡ no_page) ⊎ (x ≢ y)) xs × Distinct xs

-- `out` does not return the page of the used frame `f`, and leaves `f` used.
record Spares (f : ℕ) (out : ℕ × Pmm) : Type 0 where
  other : f * page_size ≢ out.0
  still : used out.1.bitmap f ≡ 1
  valid : IsValid out.1

alloc-Spares :
    {p : Pmm} (f : ℕ) {out : ℕ × Pmm}
    → IsValid p
    → used p.bitmap f ≡ 1
    → Allocated p out
    → Spares f out
alloc-Spares f v h (page g small was now e v') = record {
  other = ground (arith, was, h, now f);
  still = ground (arith, now f);
  valid = v';
}
alloc-Spares f v h (exhausted all) = record { other = omega arith; still = h; valid = v }

-- The page of a used frame is never handed out.
spared :
    (n : ℕ) (f : ℕ) (p : Pmm)
    → IsValid p
    → used p.bitmap f ≡ 1
    → All (λ y. f * page_size ≢ y) (allocs n p)
spared zero f p v h = tt
spared (suc n) f p v h =
    let s = alloc-Spares f v h (alloc_page-Allocated p v) in
    (s.other, spared n f (alloc_page p).1 s.valid s.still)

later_distinct :
    (n : ℕ) {p : Pmm} {out : ℕ × Pmm}
    → IsValid p
    → Allocated p out
    → All (λ y. (out.0 ≡ no_page) ⊎ (out.0 ≢ y)) (allocs n out.1) × IsValid out.1
later_distinct n v (page f {q = q} small was now e v') =
    (weaken (allocs n q) (spared n f q v' (ground (arith, now f))), v')
  where
    weaken :
        (ys : List ℕ)
        → All (λ y. f * page_size ≢ y) ys
        → All (λ y. (f * page_size ≡ no_page) ⊎ (f * page_size ≢ y)) ys
    weaken [] h = tt
    weaken (y ∷ ys) h = (inr h.0, weaken ys h.1)
later_distinct n {p} v (exhausted all) = (anything (allocs n p), v)
  where
    anything : (ys : List ℕ) → All (λ y. (no_page ≡ no_page) ⊎ (no_page ≢ y)) ys
    anything [] = tt
    anything (y ∷ ys) = (inl refl, anything ys)

-- From a valid state, any number of calls of `pmm_alloc_page` without a release in between never
-- returns the same page twice.
pub allocs-Distinct : (n : ℕ) (p : Pmm) → IsValid p → Distinct (allocs n p)
allocs-Distinct zero p v = tt
allocs-Distinct (suc n) p v =
    let (later, v') = later_distinct n v (alloc_page-Allocated p v) in
    (later, allocs-Distinct n (alloc_page p).1 v')
