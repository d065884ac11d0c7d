-- ===== src/Pmm/Scan.antt =====
-- What the two loops of `pmm_alloc_page` in src/mm.rs find.
use pinx_kernel.Prelude.{
  ℕ, zero, suc, ◌+◌, ◌-◌, ◌*◌, ◌%◌, ◌^◌, ◌≤◌, ◌<◌, bit_and, ◌≡◌, ◌≢◌, ap, ◌∙◌, arith, ◌==◌, if_elim,
  u64_max, Bool-cases, Option, none, some, inl, inr, dec_lt,
}
use native.Mathlib.Nat.{mod-eq_of_lt, mod-lt, mod-eq-sub-mod, zero-mul}
use pinx_kernel.Prelude.Bits.{bit, bit-lt, bit-complement, zero-bit}
use pinx_kernel.Prelude.Masks.{two_pow_pos}
use pinx_kernel.Pmm.{Pmm, find_bit, scan}
use pinx_kernel.Pmm.Words.{and_pow}

-- Where the search for a clear bit from `lo` up to `hi` ends.
data Found (word lo hi : ℕ) : Option ℕ → Type 0 where
  clear : (c : ℕ) → lo ≤ c → c < hi → bit word c ≡ 0 → Found word lo hi (some c)
  full : ((c : ℕ) → lo ≤ c → c < hi → bit word c ≡ 1) → Found word lo hi none

test_bit : (word c : ℕ) → (bit_and word (2 ^ c) ≡ 0) → bit word c ≡ 0
test_bit word c h = grind (arith, and_pow word c, bit-lt word c, two_pow_pos c)

test_set : (word c : ℕ) → (bit_and word (2 ^ c) ≢ 0) → bit word c ≡ 1
test_set word c h = elim (Bool-cases (bit word c == 0)) [
  | inl e ↦ absurd (h (and_pow word c ∙ ap (λ t. t * 2 ^ c) (ground arith) ∙ zero-mul (2 ^ c)))
  | inr e ↦ ground (arith, bit-lt word c)
]

find_bit-Found : (word left lo hi : ℕ) → lo + left ≡ hi → Found word lo hi (find_bit word left lo)
unfolding find_bit
find_bit-Found word zero lo hi e = full (λ c p q. absurd (omega arith))
find_bit-Found word (suc left) lo hi e =
    if_elim (Found word lo hi) (bit_and word (2 ^ lo) == 0)
      (λ t. clear lo (omega arith) (omega arith) (test_bit word lo (ground arith)))
      (λ t.
        later (test_set word lo (ground arith))
          (find_bit-Found word left (lo + 1) hi (omega arith)))
  where
    later : bit word lo ≡ 1 → {o : Option ℕ} → Found word (lo + 1) hi o → Found word lo hi o
    later set (clear c p q z) = clear c (omega arith) q z
    later set (full all) = full (λ c p q. ground (arith, all c, ap (bit word) {x = lo} {y = c}))

-- Where the scan of words from `lo` up to `hi` places after the hint ends.
pub data Scanned (p : Pmm) (lo hi : ℕ) : Option (ℕ × ℕ) → Type 0 where
  free :
      (index c : ℕ)
      → index < p.entries
      → c < 64
      → bit (p.bitmap index) c ≡ 0
      → Scanned p lo hi (some (index, c))
  none_free :
      ((s c : ℕ) → lo ≤ s → s < hi → c < 64 → bit (p.bitmap ((p.hint + s) % p.entries)) c ≡ 1)
      → Scanned p lo hi none

all_ones : (c : ℕ) → c < 64 → bit u64_max c ≡ 1
all_ones c h = bit-complement 64 0 c (omega arith) h ∙ omega (arith, zero-bit c)

module _ (p : Pmm) (lo hi : ℕ) where
  abbrev word_at : ℕ → ℕ
  word_at s = p.bitmap ((p.hint + s) % p.entries)

  -- A word with no free frame is passed over.
  pass :
      ((c : ℕ) → c < 64 → bit (word_at lo) c ≡ 1)
      → {o : Option (ℕ × ℕ)} → Scanned p (lo + 1) hi o
      → Scanned p lo hi o
  pass ones (free i c a b z) = free i c a b z
  pass ones (none_free all) = none_free (λ s c a b d. elim (Bool-cases (lo == s)) [
    | inl e ↦ ap (λ t. bit (word_at t) c) {x = s} {y = lo} (ground arith) ∙ ones c d
    | inr e ↦ all s c (ground arith) b d
  ])

  take_word :
      0 < p.entries
      → {o : Option ℕ} → Found (word_at lo) 0 64 o
      → (rest : Option (ℕ × ℕ)) → Scanned p (lo + 1) hi rest
      → Scanned p lo hi (elim o [ none ↦ rest | some c ↦ some ((p.hint + lo) % p.entries, c) ])
  take_word pos (clear c a b z) rest later = free ((p.hint + lo) % p.entries) c (mod-lt _ pos) b z
  take_word pos (full ones) rest later = pass (λ c d. ones c (omega arith) d) later

pub scan-Scanned :
    (p : Pmm) (left lo hi : ℕ) → 0 < p.entries → lo + left ≡ hi → Scanned p lo hi (scan p left lo)
unfolding scan
scan-Scanned p zero lo hi pos e = none_free (λ s c a b d. absurd (omega arith))
scan-Scanned p (suc left) lo hi pos e =
    let later = scan-Scanned p left (lo + 1) hi pos (omega arith) in
    if_elim (Scanned p lo hi) (p.bitmap ((p.hint + lo) % p.entries) == u64_max)
      (λ t. pass p lo hi (λ c d. ap (λ w. bit w c) (ground arith) ∙ all_ones c d) later)
      (λ t.
        take_word p lo hi pos
          (find_bit-Found (p.bitmap ((p.hint + lo) % p.entries)) 64 0 64 (omega arith))
          (scan p left (lo + 1)) later)

-- Scanning every word from the hint on, going round, visits every word.
pub visited : (h n i : ℕ) → h < n → i < n → (s : ℕ) × (s < n) × ((h + s) % n ≡ i)
visited h n i hh hi = elim (dec_lt i h) [
  | yes before ↦ (
    i + n - h,
    omega arith,
    mod-eq-sub-mod {n = h + (i + n - h)} {m = n} (omega arith)
        ∙ mod-eq_of_lt {n = h + (i + n - h) - n} (omega arith)
        ∙ omega arith,
  )
  | no after ↦ (i - h, omega arith, mod-eq_of_lt {n = h + (i - h)} (omega arith) ∙ omega arith)
]
