-- ===== src/Pmm/Words.antt =====
-- Setting, clearing and testing one bit of the bitmap of src/mm.rs, frame by frame.
use pinx_kernel.Prelude.{
  ℕ, zero, suc, ◌-◌, ◌*◌, ◌/◌, ◌%◌, ◌^◌, ◌<◌, bit_and, bit_or, ◌≡◌, sym, ap, ◌∙◌, arith, ◌==◌,
  if◌then◌else◌, u64_max, not64, Bool-cases, inl, inr,
}
use native.Mathlib.Nat.{pow-suc}
use pinx_kernel.Prelude.Bits.{
  bit, bit-lt, bit-and, bit-or, bit-pow, bit-complement, bit_above, lt_of_bits, lowest_and,
  zero-bit,
}
use pinx_kernel.Prelude.Masks.{and_mask}
use pinx_kernel.Pmm.{set_bit, clear_bit}

-- 1 if frame `f` is used, 0 if it is free.
unfoldable pub used : (ℕ → ℕ) → ℕ → ℕ
used bitmap f = bit (bitmap (f / 64)) (f % 64)

-- Every word is a `u64`.
abbrev pub IsWords : (ℕ → ℕ) → Type 0
IsWords bitmap = (i : ℕ) → bitmap i < 2 ^ 64

pub used-lt : (bitmap : ℕ → ℕ) (f : ℕ) → used bitmap f < 2
unfolding used
used-lt bitmap f = bit-lt (bitmap (f / 64)) (f % 64)

pub pow-lt : (k : ℕ) → k < 64 → 2 ^ k < 2 ^ 64
pow-lt k h = lt_of_bits 64 (2 ^ k) (λ j l. ground (arith, bit-pow k j))

pub bit-or-pow : (w b j : ℕ) → bit (bit_or w (2 ^ b)) j ≡ (if b == j then 1 else bit w j)
bit-or-pow w b j = ground (arith, bit-or w (2 ^ b) j, bit-pow b j, bit-lt w j)

pub bit-and-not-pow :
    (w b j : ℕ)
    → b < 64
    → j < 64
    → bit (bit_and w (not64 (2 ^ b))) j ≡ (if b == j then 0 else bit w j)
bit-and-not-pow w b j hb hj = ground (
  arith,
  bit-and w (2 ^ 64 - 1 - 2 ^ b) j,
  bit-complement 64 (2 ^ b) j (pow-lt b hb) hj,
  bit-pow b j,
  bit-lt w j,
)

pub or-lt : (k a b : ℕ) → a < 2 ^ k → b < 2 ^ k → bit_or a b < 2 ^ k
or-lt k a b p q =
    lt_of_bits k (bit_or a b)
      λ j l. omega (arith, bit-or a b j, bit_above k a j p l, bit_above k b j q l)

pub and-lt : (k a b : ℕ) → a < 2 ^ k → bit_and a b < 2 ^ k
and-lt k a b p = lt_of_bits k (bit_and a b) λ j l. omega (arith, bit-and a b j, bit_above k a j p l)

-- `w & (1 << c)` is the digit at place `c`, in place.
pub and_pow : (w c : ℕ) → bit_and w (2 ^ c) ≡ bit w c * 2 ^ c
unfolding bit
and_pow w zero = and_mask 1 w ∙ omega arith
and_pow w (suc c) =
    let halves : 2 ^ suc c / 2 ≡ 2 ^ c = omega (arith, pow-suc 2 c) in
    let even : 2 ^ suc c % 2 ≡ 0 = omega (arith, pow-suc 2 c) in
    sym (lowest_and w (2 ^ suc c))
    ∙ rw (halves, even, and_pow (w / 2) c)
        (omega (arith, ap (λ (t : ℕ). bit (w / 2) c * t) (pow-suc 2 c)))

pub set_bit-used :
    (bitmap : ℕ → ℕ) (f g : ℕ) → used (set_bit bitmap f) g ≡ (if f == g then 1 else used bitmap g)
unfolding used set_bit
set_bit-used bitmap f g = elim (Bool-cases (f / 64 == g / 64)) [
  | inl same ↦ rw same (ground (arith, bit-or-pow (bitmap (f / 64)) (f % 64) (g % 64), word))
  | inr other ↦ rw other (ground arith)
]
  where
    word : f / 64 ≡ g / 64 → bitmap (f / 64) ≡ bitmap (g / 64)
    word e = ap bitmap e

pub clear_bit-used :
    (bitmap : ℕ → ℕ) (f g : ℕ) → used (clear_bit bitmap f) g ≡ (if f == g then 0 else used bitmap g)
unfolding used clear_bit
clear_bit-used bitmap f g = elim (Bool-cases (f / 64 == g / 64)) [
  | inl same ↦ rw same (
      ground (
        arith,
        bit-and-not-pow (bitmap (f / 64)) (f % 64) (g % 64) (omega arith) (omega arith),
        word,
      ))
  | inr other ↦ rw other (ground arith)
]
  where
    word : f / 64 ≡ g / 64 → bitmap (f / 64) ≡ bitmap (g / 64)
    word e = ap bitmap e

pub set_bit-IsWords : (bitmap : ℕ → ℕ) (f : ℕ) → IsWords bitmap → IsWords (set_bit bitmap f)
unfolding set_bit
set_bit-IsWords bitmap f w i = ground (
  arith,
  w i,
  or-lt 64 (bitmap (f / 64)) (2 ^ (f % 64)) (w (f / 64)) (pow-lt (f % 64) (omega arith)),
)

pub clear_bit-IsWords : (bitmap : ℕ → ℕ) (f : ℕ) → IsWords bitmap → IsWords (clear_bit bitmap f)
unfolding clear_bit
clear_bit-IsWords bitmap f w i =
    ground (arith, w i, and-lt 64 (bitmap (f / 64)) (not64 (2 ^ (f % 64))) (w (f / 64)))

pub used_all_ones : (f : ℕ) → used (λ _. u64_max) f ≡ 1
unfolding used
used_all_ones f =
    bit-complement 64 0 (f % 64) (omega arith) (omega arith) ∙ omega (arith, zero-bit (f % 64))
