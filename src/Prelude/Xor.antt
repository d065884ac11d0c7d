-- ===== src/Prelude/Xor.antt =====
-- The algebra of `^` on native numbers, from the digits.
use pinx_kernel.Prelude.Bits.{bit_ext, bit-xor, bit-lt, zero-bit, bit_above, lt_of_bits}
use pinx_kernel.Prelude.Bits.{lowest_xor, half-xor}
use Prim.Native.Nat.{ℕ, zero, suc, ◌+◌, ◌%◌, ◌/◌, ◌^◌, ◌<◌, bit_xor}
use mathlib.Core.Path.{◌≡◌, ap, ap₂, sym, ◌∙◌}
use native.Mathlib.Nat.{pow-suc, div-div-eq-div-mul, div-one}
use native.Mathlib.Omega.{arith}

pub xor_comm : (a b : ℕ) → bit_xor a b ≡ bit_xor b a
xor_comm a b = bit_ext _ _ (λ j. omega (arith, bit-xor a b j, bit-xor b a j))

pub xor_assoc : (a b c : ℕ) → bit_xor (bit_xor a b) c ≡ bit_xor a (bit_xor b c)
xor_assoc a b c = bit_ext _ _ (λ j.
    omega
      (arith, bit-xor (bit_xor a b) c j, bit-xor a b j, bit-xor a (bit_xor b c) j, bit-xor b c j))

pub xor_self : (a : ℕ) → bit_xor a a ≡ 0
xor_self a = bit_ext _ _ (λ j. omega (arith, bit-xor a a j, zero-bit j))

pub xor_zero : (a : ℕ) → bit_xor a 0 ≡ a
xor_zero a = bit_ext _ _ (λ j. omega (arith, bit-xor a 0 j, zero-bit j, bit-lt a j))

pub zero_xor : (a : ℕ) → bit_xor 0 a ≡ a
zero_xor a = bit_ext _ _ (λ j. omega (arith, bit-xor 0 a j, zero-bit j, bit-lt a j))

-- The middle two of four are exchanged.
pub xor_middle :
    (a b c d : ℕ) → bit_xor (bit_xor a b) (bit_xor c d) ≡ bit_xor (bit_xor a c) (bit_xor b d)
xor_middle a b c d = bit_ext _ _ (λ j. omega (
  arith,
  bit-xor (bit_xor a b) (bit_xor c d) j,
  bit-xor a b j,
  bit-xor c d j,
  bit-xor (bit_xor a c) (bit_xor b d) j,
  bit-xor a c j,
  bit-xor b d j,
))

pub xor-mod-two : (a b : ℕ) → bit_xor a b % 2 ≡ (a % 2 + b % 2) % 2
xor-mod-two a b = omega (arith, lowest_xor a b)

-- The result of `^` has no more digits than its arguments.
pub xor-lt : (k a b : ℕ) → a < 2 ^ k → b < 2 ^ k → bit_xor a b < 2 ^ k
xor-lt k a b p q =
    lt_of_bits k (bit_xor a b)
      λ j l. omega (arith, bit-xor a b j, bit_above k a j p l, bit_above k b j q l)

-- A right shift distributes over `^`.
pub shift-xor : (k a b : ℕ) → bit_xor a b / 2 ^ k ≡ bit_xor (a / 2 ^ k) (b / 2 ^ k)
shift-xor zero a b = div-one (bit_xor a b) ∙ sym (ap₂ bit_xor (div-one a) (div-one b))
shift-xor (suc k) a b =
    once (bit_xor a b)
    ∙ ap (λ t. t / 2) (shift-xor k a b)
    ∙ half-xor (a / 2 ^ k) (b / 2 ^ k)
    ∙ sym (ap₂ bit_xor (once a) (once b))
  where
    once : (x : ℕ) → x / 2 ^ suc k ≡ x / 2 ^ k / 2
    once x = ap (λ t. x / t) (pow-suc 2 k) ∙ sym (div-div-eq-div-mul x (2 ^ k) 2)

-- `^` by the same number can be cancelled.
pub xor_cancel : (a b c : ℕ) → bit_xor a c ≡ bit_xor b c → a ≡ b
xor_cancel a b c h = sym (undo a) ∙ ap (λ t. bit_xor t c) h ∙ undo b
  where
    undo : (x : ℕ) → bit_xor (bit_xor x c) c ≡ x
    undo x = xor_assoc x c c ∙ ap (bit_xor x) (xor_self c) ∙ xor_zero x
