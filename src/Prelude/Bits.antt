-- ===== src/Prelude/Bits.antt =====
-- Bits of native numbers: one equation for the lowest digit of each bitwise operation, the
-- digit at each place, and the algebra of `^` that follows digit by digit.
use Prim.Native.Nat.{
  ℕ, zero, suc, ◌+◌, ◌-◌, ◌*◌, ◌/◌, ◌%◌, ◌^◌, ◌≤◌, ◌<◌, min, max, bit_and, bit_or, bit_xor, digits,
  bitwise, differ, bit_and-bitwise, bit_or-bitwise, bit_xor-bitwise,
}
use mathlib.Core.Path.{◌≡◌, refl, sym, ap, ◌∙◌}
use native.Mathlib.Nat.{pow-suc}
use native.Mathlib.Omega.{arith}
use pinx_kernel.Prelude.Tests.{◌==◌, if◌then◌else◌}

-- A bitwise operation works on one pair of binary digits at a time.
module _ (op : ℕ → ℕ → ℕ) (last : ℕ → ℕ) (join : ℕ → ℕ → ℕ)
    (meaning : (x y : ℕ) → op x y ≡ bitwise last join x y) where
  no_digits : (fuel y : ℕ) → digits last join fuel 0 y ≡ last y
  no_digits zero y = refl
  no_digits (suc fuel) y = refl

  -- Fuel beyond the first number changes nothing.
  spare_fuel :
      (spare y fuel x : ℕ)
      → x ≤ fuel
      → digits last join (fuel + spare) x y ≡ digits last join fuel x y
  spare_fuel spare y fuel zero l = no_digits (fuel + spare) y ∙ sym (no_digits fuel y)
  spare_fuel spare y zero (suc x) l = absurd (omega arith)
  spare_fuel spare y (suc fuel) (suc x) l =
      let out : suc fuel + spare ≡ suc (fuel + spare) = omega arith in
      ap (λ n. digits last join n (suc x) y) out
      ∙ ap (λ d. d * 2 + join (suc x % 2) (y % 2))
          (spare_fuel spare (y / 2) fuel (suc x / 2) (omega arith))

  op_zero : (y : ℕ) → op 0 y ≡ last y
  op_zero y = meaning 0 y

  op_suc : (x y : ℕ) → op (suc x) y ≡ op (suc x / 2) (y / 2) * 2 + join (suc x % 2) (y % 2)
  op_suc x y =
      let half = suc x / 2 in
      let all : half + (x - half) ≡ x = omega arith in
      let fewer = spare_fuel (x - half) (y / 2) half half (omega arith) in
      meaning (suc x) y
      ∙ ap (λ d. d * 2 + join (suc x % 2) (y % 2))
          (ap (λ n. digits last join n half (y / 2)) (sym all) ∙ fewer ∙ sym (meaning half (y / 2)))

pub lowest_or : (x y : ℕ) → max (x % 2) (y % 2) + 2 * bit_or (x / 2) (y / 2) ≡ bit_or x y
lowest_or zero y =
    omega
      (arith, op_zero bit_or _ max bit_or-bitwise y, op_zero bit_or _ max bit_or-bitwise (y / 2))
lowest_or (suc x) y = omega (arith, op_suc bit_or _ max bit_or-bitwise x y)

pub lowest_and : (x y : ℕ) → min (x % 2) (y % 2) + 2 * bit_and (x / 2) (y / 2) ≡ bit_and x y
lowest_and zero y =
    omega (
      arith,
      op_zero bit_and _ min bit_and-bitwise y,
      op_zero bit_and _ min bit_and-bitwise (y / 2),
    )
lowest_and (suc x) y = omega (arith, op_suc bit_and _ min bit_and-bitwise x y)

differ-mod : (x y : ℕ) → x < 2 → y < 2 → differ x y ≡ (x + y) % 2
differ-mod zero zero h k = refl
differ-mod zero (suc zero) h k = refl
differ-mod zero (suc (suc y)) h k = absurd (omega arith)
differ-mod (suc zero) zero h k = refl
differ-mod (suc zero) (suc zero) h k = refl
differ-mod (suc zero) (suc (suc y)) h k = absurd (omega arith)
differ-mod (suc (suc x)) y h k = absurd (omega arith)

pub lowest_xor : (x y : ℕ) → (x % 2 + y % 2) % 2 + 2 * bit_xor (x / 2) (y / 2) ≡ bit_xor x y
lowest_xor zero y = omega (
  arith,
  op_zero bit_xor _ differ bit_xor-bitwise y,
  op_zero bit_xor _ differ bit_xor-bitwise (y / 2),
)
lowest_xor (suc x) y = omega (
  arith,
  op_suc bit_xor _ differ bit_xor-bitwise x y,
  differ-mod (suc x % 2) (y % 2) (omega arith) (omega arith),
)

-- The binary digit of `a` at place `j`.
unfoldable pub bit : ℕ → ℕ → ℕ
bit a zero = a % 2
bit a (suc j) = bit (a / 2) j

pub bit-lt : (a j : ℕ) → bit a j < 2
unfolding bit
bit-lt a zero = omega arith
bit-lt a (suc j) = bit-lt (a / 2) j

pub bit-and : (a b j : ℕ) → bit (bit_and a b) j ≡ min (bit a j) (bit b j)
unfolding bit
bit-and a b zero = omega (arith, lowest_and a b)
bit-and a b (suc j) =
    let halves : bit_and a b / 2 ≡ bit_and (a / 2) (b / 2) = omega (arith, lowest_and a b) in
    rw halves (bit-and (a / 2) (b / 2) j)

pub bit-or : (a b j : ℕ) → bit (bit_or a b) j ≡ max (bit a j) (bit b j)
unfolding bit
bit-or a b zero = omega (arith, lowest_or a b)
bit-or a b (suc j) =
    let halves : bit_or a b / 2 ≡ bit_or (a / 2) (b / 2) = omega (arith, lowest_or a b) in
    rw halves (bit-or (a / 2) (b / 2) j)

pub half-xor : (a b : ℕ) → bit_xor a b / 2 ≡ bit_xor (a / 2) (b / 2)
half-xor a b = omega (arith, lowest_xor a b)

pub bit-xor : (a b j : ℕ) → bit (bit_xor a b) j ≡ (bit a j + bit b j) % 2
unfolding bit
bit-xor a b zero = omega (arith, lowest_xor a b)
bit-xor a b (suc j) = rw half-xor (bit-xor (a / 2) (b / 2) j)

-- Numbers with the same digits are equal.
ext_fuel : (n a b : ℕ) → a ≤ n → b ≤ n → ((j : ℕ) → bit a j ≡ bit b j) → a ≡ b
unfolding bit
ext_fuel zero a b p q h = omega arith
ext_fuel (suc n) a b p q h =
    omega (arith, h 0, ext_fuel n (a / 2) (b / 2) (omega arith) (omega arith) (λ j. h (suc j)))

pub bit_ext : (a b : ℕ) → ((j : ℕ) → bit a j ≡ bit b j) → a ≡ b
bit_ext a b h = ext_fuel (a + b) a b (omega arith) (omega arith) h

pub zero-bit : (j : ℕ) → bit 0 j ≡ 0
unfolding bit
zero-bit zero = refl
zero-bit (suc j) = zero-bit j

-- The digits of a power of two.
pub bit-pow : (k j : ℕ) → bit (2 ^ k) j ≡ (if k == j then 1 else 0)
unfolding bit
bit-pow zero zero = refl
bit-pow zero (suc j) = ground (arith, zero-bit j)
bit-pow (suc k) zero = ground (arith, pow-suc 2 k)
bit-pow (suc k) (suc j) =
    let halves : 2 ^ suc k / 2 ≡ 2 ^ k = omega (arith, pow-suc 2 k) in
    rw halves (ground (arith, bit-pow k j))

-- The digits of the complement of a `k`-digit number.
pub bit-complement : (k a j : ℕ) → a < 2 ^ k → j < k → bit (2 ^ k - 1 - a) j ≡ 1 - bit a j
unfolding bit
bit-complement zero a j h l = absurd (omega arith)
bit-complement (suc k) a zero h l = omega (arith, pow-suc 2 k)
bit-complement (suc k) a (suc j) h l =
    let halves : (2 ^ suc k - 1 - a) / 2 ≡ 2 ^ k - 1 - a / 2 = omega (arith, pow-suc 2 k) in
    rw halves (bit-complement k (a / 2) j (omega (arith, pow-suc 2 k)) (omega arith))

-- A number of `k` digits has none from place `k` on.
pub bit_above : (k a j : ℕ) → a < 2 ^ k → k ≤ j → bit a j ≡ 0
unfolding bit
bit_above zero a j h l = let e : a ≡ 0 = omega arith in rw e (zero-bit j)
bit_above (suc k) a zero h l = absurd (omega arith)
bit_above (suc k) a (suc j) h l = bit_above k (a / 2) j (omega (arith, pow-suc 2 k)) (omega arith)

-- A number with no digit from place `k` on is below `2 ^ k`.
pub lt_of_bits : (k a : ℕ) → ((j : ℕ) → k ≤ j → bit a j ≡ 0) → a < 2 ^ k
unfolding bit
lt_of_bits zero a h =
    let e : a ≡ 0 = bit_ext a 0 (λ j. h j (omega arith) ∙ sym (zero-bit j)) in omega arith
lt_of_bits (suc k) a h =
    omega (arith, pow-suc 2 k, lt_of_bits k (a / 2) (λ j l. h (suc j) (omega arith)))

-- The top digit of a number of exactly `k + 1` digits is 1.
pub bit_top : (k a : ℕ) → 2 ^ k ≤ a → a < 2 ^ suc k → bit a k ≡ 1
unfolding bit
bit_top zero a h l = omega arith
bit_top (suc k) a h l =
    bit_top k (a / 2) (omega (arith, pow-suc 2 k)) (omega (arith, pow-suc 2 k, pow-suc 2 (suc k)))
