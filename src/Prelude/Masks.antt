-- ===== src/Prelude/Masks.antt =====
-- Masks and packed fields as arithmetic, at every width.
use pinx_kernel.Prelude.Bits.{bit_ext, bit-and, zero-bit}
use pinx_kernel.Prelude.Bits.{lowest_and, lowest_or, lowest_xor}
use Prim.Native.Nat.{
  ℕ, zero, suc, ◌+◌, ◌-◌, ◌*◌, ◌/◌, ◌%◌, ◌^◌, ◌≤◌, ◌<◌, min, bit_and, bit_or, bit_xor,
}
use mathlib.Core.Path.{◌≡◌, sym, ap, ◌∙◌}
use native.Mathlib.Nat.{
  pow-suc, div-add-mod, add-mul-mod_self_left, mod-eq_of_lt, mod-lt, one-le-pow,
}
use native.Mathlib.Omega.{arith}

pub two_pow_pos : (k : ℕ) → 0 < 2 ^ k
two_pow_pos k = one-le-pow k 2 (omega arith)

-- `a | b` and `a & b` share out the digits of `a + b`.
or_add_and_fuel : (n a b : ℕ) → a ≤ n → b ≤ n → bit_or a b + bit_and a b ≡ a + b
or_add_and_fuel zero a b p q = omega (arith, lowest_or a b, lowest_and a b, zeros)
  where
    zeros : bit_or (a / 2) (b / 2) + bit_and (a / 2) (b / 2) ≡ 0
    zeros = let e : a / 2 ≡ 0 = omega arith in let f : b / 2 ≡ 0 = omega arith in rw (e, f)
or_add_and_fuel (suc n) a b p q = omega (
  arith,
  lowest_or a b,
  lowest_and a b,
  or_add_and_fuel n (a / 2) (b / 2) (omega arith) (omega arith),
)

pub or_add_and : (a b : ℕ) → bit_or a b + bit_and a b ≡ a + b
or_add_and a b = or_add_and_fuel (a + b) a b (omega arith) (omega arith)

xor_add_and_fuel : (n a b : ℕ) → a ≤ n → b ≤ n → bit_xor a b + 2 * bit_and a b ≡ a + b
xor_add_and_fuel zero a b p q =
    let e : a ≡ 0 = omega arith in let f : b ≡ 0 = omega arith in rw (e, f)
xor_add_and_fuel (suc n) a b p q = omega (
  arith,
  lowest_xor a b,
  lowest_and a b,
  xor_add_and_fuel n (a / 2) (b / 2) (omega arith) (omega arith),
)

pub xor_add_and : (a b : ℕ) → bit_xor a b + 2 * bit_and a b ≡ a + b
xor_add_and a b = xor_add_and_fuel (a + b) a b (omega arith) (omega arith)

pub and_zero : (a : ℕ) → bit_and a 0 ≡ 0
and_zero a = bit_ext _ _ (λ j. omega (arith, bit-and a 0 j, zero-bit j))

pub mul-two-pow : (q k : ℕ) → q * 2 ^ suc k ≡ 2 * (q * 2 ^ k)
mul-two-pow q k = omega (arith, ap (λ (t : ℕ). q * t) (pow-suc 2 k))

-- A field above place `k` and one below it have no digit in common.
pub and_fields : (k q r : ℕ) → r < 2 ^ k → bit_and (q * 2 ^ k) r ≡ 0
and_fields zero q r h = let e : r ≡ 0 = omega arith in rw e (and_zero (q * 1))
and_fields (suc k) q r h =
    let halves : q * 2 ^ suc k / 2 ≡ q * 2 ^ k = omega (arith, mul-two-pow q k) in
    omega (
      arith,
      lowest_and (q * 2 ^ suc k) r,
      mul-two-pow q k,
      ap (λ (t : ℕ). bit_and t (r / 2)) halves,
      and_fields k q (r / 2) (omega (arith, pow-suc 2 k)),
    )

-- `(q << k) | r` and `(q << k) ^ r` are sums when `r` fits `k` digits.
pub or_fields : (k q r : ℕ) → r < 2 ^ k → bit_or (q * 2 ^ k) r ≡ q * 2 ^ k + r
or_fields k q r h = omega (arith, or_add_and (q * 2 ^ k) r, and_fields k q r h)

pub xor_fields : (k q r : ℕ) → r < 2 ^ k → bit_xor (q * 2 ^ k) r ≡ q * 2 ^ k + r
xor_fields k q r h = omega (arith, xor_add_and (q * 2 ^ k) r, and_fields k q r h)

mod_double : (m a : ℕ) → 0 < m → a % (2 * m) ≡ a / 2 % m * 2 + a % 2
mod_double m a h =
    ap (λ t. t % (2 * m)) whole
    ∙ add-mul-mod_self_left (a / 2 % m * 2 + a % 2) (2 * m) (a / 2 / m)
    ∙ mod-eq_of_lt (omega (arith, mod-lt (a / 2) h))
  where
    whole : a ≡ a / 2 % m * 2 + a % 2 + 2 * m * (a / 2 / m)
    whole = omega (arith, div-add-mod (a / 2) m)

-- `a & (2^k - 1)` is the remainder by `2^k`.
pub and_mask : (k a : ℕ) → bit_and a (2 ^ k - 1) ≡ a % 2 ^ k
and_mask zero a = and_zero a ∙ omega arith
and_mask (suc k) a =
    sym (lowest_and a (2 ^ suc k - 1))
    ∙ rw (halves, odd, and_mask k (a / 2)) low_digit
    ∙ sym (mod_double (2 ^ k) a (two_pow_pos k))
    ∙ ap (λ t. a % t) (sym doubled)
  where
    doubled : 2 ^ suc k ≡ 2 * 2 ^ k
    doubled = omega (arith, pow-suc 2 k)

    halves : (2 ^ suc k - 1) / 2 ≡ 2 ^ k - 1
    halves = omega (arith, doubled)

    odd : (2 ^ suc k - 1) % 2 ≡ 1
    odd = omega (arith, doubled, two_pow_pos k)

    low_digit : min (a % 2) 1 + 2 * (a / 2 % 2 ^ k) ≡ a / 2 % 2 ^ k * 2 + a % 2
    low_digit = omega arith

-- A mask and its complement share out the digits of a `k`-digit number.
pub and_complement :
    (k a m : ℕ) → a < 2 ^ k → m < 2 ^ k → bit_and a m + bit_and a (2 ^ k - 1 - m) ≡ a
and_complement zero a m p q =
    let e : a ≡ 0 = omega arith in let f : m ≡ 0 = omega arith in rw (e, f)
and_complement (suc k) a m p q =
    let halves : (2 ^ suc k - 1 - m) / 2 ≡ 2 ^ k - 1 - m / 2 = omega (arith, pow-suc 2 k) in
    omega (
      arith,
      lowest_and a m,
      lowest_and a (2 ^ suc k - 1 - m),
      ap (λ (t : ℕ). bit_and (a / 2) t) halves,
      pow-suc 2 k,
      and_complement k (a / 2) (m / 2) (omega (arith, pow-suc 2 k)) (omega (arith, pow-suc 2 k)),
    )

-- `a & !(2^k - 1)` on a `w`-digit word clears the low `k` digits.
pub and_high :
    (w k a : ℕ) → a < 2 ^ w → 2 ^ k ≤ 2 ^ w → bit_and a (2 ^ w - 1 - (2 ^ k - 1)) ≡ a - a % 2 ^ k
and_high w k a h l =
    omega (arith, and_complement w a (2 ^ k - 1) h (omega (arith, two_pow_pos k)), and_mask k a)
