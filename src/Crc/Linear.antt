-- ===== src/Crc/Linear.antt =====
-- The division step of src/crc.rs commutes with `^`, which is why a table of 256 entries serves.
use pinx_kernel.Prelude.{
  ℕ, zero, suc, ◌+◌, ◌*◌, ◌/◌, ◌%◌, ◌^◌, ◌<◌, bit_xor, ◌≡◌, refl, sym, ap, ◌∙◌, arith,
}
use native.Mathlib.Nat.{zero-mul}
use pinx_kernel.Prelude.Bits.{half-xor}
use pinx_kernel.Prelude.Xor.{xor_zero, xor_self, xor_middle, xor-mod-two, zero_xor, xor-lt}
use pinx_kernel.Prelude.Masks.{and_mask, mul-two-pow}
use pinx_kernel.Crc.{round, rounds}

module _ (poly : ℕ) where
  pub round_lem : (crc : ℕ) → round poly crc ≡ bit_xor (crc / 2) (crc % 2 * poly)
  unfolding round
  round_lem crc = ground (arith, and_mask 1 crc, xor_zero (crc / 2))

  select-xor : (x y : ℕ) → x < 2 → y < 2 → (x + y) % 2 * poly ≡ bit_xor (x * poly) (y * poly)
  select-xor zero zero h k = rw zero-mul refl
  select-xor zero (suc zero) h k = rw zero-mul (sym (zero_xor (1 * poly)))
  select-xor (suc zero) zero h k = rw zero-mul (sym (xor_zero (1 * poly)))
  select-xor (suc zero) (suc zero) h k = rw (zero-mul, xor_self)
  select-xor zero (suc (suc y)) h k = absurd (omega arith)
  select-xor (suc zero) (suc (suc y)) h k = absurd (omega arith)
  select-xor (suc (suc x)) y h k = absurd (omega arith)

  round-xor : (a b : ℕ) → round poly (bit_xor a b) ≡ bit_xor (round poly a) (round poly b)
  round-xor a b =
      rw
        (
          round_lem (bit_xor a b),
          round_lem a,
          round_lem b,
          half-xor,
          xor-mod-two,
          select-xor (a % 2) (b % 2) (omega arith) (omega arith),
        )
        (xor_middle (a / 2) (b / 2) (a % 2 * poly) (b % 2 * poly))

  -- Any number of rounds commutes with `^`.
  pub rounds-xor :
      (n a b : ℕ) → rounds poly n (bit_xor a b) ≡ bit_xor (rounds poly n a) (rounds poly n b)
  unfolding rounds
  rounds-xor zero a b = refl
  rounds-xor (suc n) a b =
      ap (rounds poly n) (round-xor a b) ∙ rounds-xor n (round poly a) (round poly b)

  -- Rounds on a register whose low digits are clear only shift.
  pub rounds_shift : (n h : ℕ) → rounds poly n (h * 2 ^ n) ≡ h
  unfolding rounds
  rounds_shift zero h = omega arith
  rounds_shift (suc n) h = ap (rounds poly n) one_round ∙ rounds_shift n h
    where
      one_round : round poly (h * 2 ^ suc n) ≡ h * 2 ^ n
      one_round =
          let halves : h * 2 ^ suc n / 2 ≡ h * 2 ^ n = omega (arith, mul-two-pow h n) in
          let even : h * 2 ^ suc n % 2 ≡ 0 = omega (arith, mul-two-pow h n) in
          round_lem (h * 2 ^ suc n) ∙ rw (halves, even, zero-mul) (xor_zero (h * 2 ^ n))

  pub round-lt : (a : ℕ) → poly < 2 ^ 32 → a < 2 ^ 32 → round poly a < 2 ^ 32
  unfolding round
  round-lt a p h = ground (arith, xor-lt 32 (a / 2) poly (omega arith) p)

  pub rounds-lt : (n a : ℕ) → poly < 2 ^ 32 → a < 2 ^ 32 → rounds poly n a < 2 ^ 32
  unfolding rounds
  rounds-lt zero a p h = h
  rounds-lt (suc n) a p h = rounds-lt n (round poly a) p (round-lt a p h)
