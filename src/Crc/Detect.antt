-- ===== src/Crc/Detect.antt =====
-- What a CRC of src/crc.rs detects, for a polynomial whose top digit is set (both of the file's).
use native.Mathlib.Nat.{zero-mul}
use pinx_kernel.Prelude.{
  ℕ, zero, suc, ◌*◌, ◌/◌, ◌%◌, ◌^◌, ◌<◌, ◌≤◌, bit_xor, bit_and, ◌>>>◌, get_or, ◌≢◌, ◌≡◌, refl, sym,
  ap, ◌∙◌, arith, List, [], ◌∷◌, ◌++◌,
}
use pinx_kernel.Prelude.Bits.{bit, bit-xor, bit_above, bit_top}
use pinx_kernel.Prelude.Xor.{xor_cancel, xor_comm, xor-lt}
use pinx_kernel.Crc.{round, rounds, build_table, update, crc32, crc32c, poly_crc32, poly_crc32c}
use pinx_kernel.Crc.Linear.{round_lem, round-lt, rounds-lt}
use pinx_kernel.Crc.Table.{divide, IsBytes, update-divide, divide-lt}

-- Feeding the parts of a buffer one after the other gives the CRC of the whole.
pub update-append :
    (table : List ℕ) (crc : ℕ) (xs ys : List ℕ)
    → update table crc (xs ++ ys) ≡ update table (update table crc xs) ys
unfolding update
update-append table crc [] ys = refl
update-append table crc (x ∷ xs) ys =
    update-append table (bit_xor (crc >>> 8) (get_or table (bit_and (bit_xor crc x) 0xFF) 0)) xs ys

module _ (poly : ℕ) (top : 2 ^ 31 ≤ poly) (word : poly < 2 ^ 32) where
  -- The digit shifted out can be read off the top digit of the result.
  top_digit : (x : ℕ) → x < 2 ^ 32 → bit (round poly x) 31 ≡ x % 2
  top_digit x h =
      ap (λ t. bit t 31) (round_lem poly x)
      ∙ bit-xor (x / 2) (x % 2 * poly) 31
      ∙ omega (
        arith,
        bit_above 31 (x / 2) 31 (omega arith) (omega arith),
        selected (x % 2) (omega arith),
      )
    where
      selected : (d : ℕ) → d < 2 → bit (d * poly) 31 ≡ d
      selected zero k = rw zero-mul (bit_above 31 0 31 (omega arith) (omega arith))
      selected (suc zero) k = ap (λ t. bit t 31) (omega arith) ∙ bit_top 31 poly top word
      selected (suc (suc d)) k = absurd (omega arith)

  round_injective : (x y : ℕ) → x < 2 ^ 32 → y < 2 ^ 32 → round poly x ≡ round poly y → x ≡ y
  round_injective x y hx hy h = omega (arith, digits, halves)
    where
      digits : x % 2 ≡ y % 2
      digits = sym (top_digit x hx) ∙ ap (λ t. bit t 31) h ∙ top_digit y hy

      halves : x / 2 ≡ y / 2
      halves = xor_cancel (x / 2) (y / 2) (x % 2 * poly) (
          sym (round_lem poly x)
          ∙ h
          ∙ round_lem poly y
          ∙ ap (λ d. bit_xor (y / 2) (d * poly)) (sym digits))

  rounds_injective :
      (n x y : ℕ) → x < 2 ^ 32 → y < 2 ^ 32 → rounds poly n x ≡ rounds poly n y → x ≡ y
  unfolding rounds
  rounds_injective zero x y hx hy h = h
  rounds_injective (suc n) x y hx hy h = round_injective x y hx hy (
      rounds_injective n (round poly x) (round poly y) (round-lt poly x word hx)
        (round-lt poly y word hy) h)

  -- The same bytes take different registers to different registers.
  divide_injective :
      (x y : ℕ) (bytes : List ℕ)
      → IsBytes bytes
      → x < 2 ^ 32
      → y < 2 ^ 32
      → divide poly x bytes ≡ divide poly y bytes
      → x ≡ y
  divide_injective x y [] b hx hy h = h
  divide_injective x y (byte ∷ rest) b hx hy h =
      let x' : bit_xor x byte < 2 ^ 32 = xor-lt 32 x byte hx (omega arith) in
      let y' : bit_xor y byte < 2 ^ 32 = xor-lt 32 y byte hy (omega arith) in
      xor_cancel x y byte (
        rounds_injective 8 (bit_xor x byte) (bit_xor y byte) x' y' (
          divide_injective (rounds poly 8 (bit_xor x byte)) (rounds poly 8 (bit_xor y byte)) rest
            b.1 (rounds-lt poly 8 (bit_xor x byte) word x')
            (rounds-lt poly 8 (bit_xor y byte) word y') h))

  -- A change of one byte in an otherwise equal buffer changes the CRC.
  pub one_byte_detected :
      (crc a b : ℕ) (before after : List ℕ)
      → crc < 2 ^ 32
      → IsBytes before
      → a < 256
      → b < 256
      → IsBytes after
      → update (build_table poly) crc (before ++ (a ∷ after))
        ≡ update (build_table poly) crc (before ++ (b ∷ after))
      → a ≡ b
  one_byte_detected crc a b before after c p ha hb q h =
      let reg = divide poly crc before in
      let small : reg < 2 ^ 32 = divide-lt poly crc before word p c in
      xor_cancel a b reg (
        xor_comm a reg
        ∙ rounds_injective 8 (bit_xor reg a) (bit_xor reg b) (xor-lt 32 reg a small (omega arith))
            (xor-lt 32 reg b small (omega arith))
            (divide_injective (rounds poly 8 (bit_xor reg a)) (rounds poly 8 (bit_xor reg b)) after
              q (rounds-lt poly 8 (bit_xor reg a) word (xor-lt 32 reg a small (omega arith)))
              (rounds-lt poly 8 (bit_xor reg b) word (xor-lt 32 reg b small (omega arith)))
              (sym (whole a ha) ∙ h ∙ whole b hb))
        ∙ xor_comm reg b)
    where
      whole :
          (x : ℕ)
          → x < 256
          → update (build_table poly) crc (before ++ (x ∷ after))
            ≡ divide poly (divide poly crc before) (x ∷ after)
      whole x hx =
          update-append (build_table poly) crc before (x ∷ after)
          ∙ ap (λ r. update (build_table poly) r (x ∷ after)) (update-divide poly crc before p)
          ∙ update-divide poly (divide poly crc before) (x ∷ after) (hx, q)

-- A change of exactly one byte in a buffer, at any place, changes both the CRC32 and the CRC32C
-- of the buffer, whatever the initial register.
pub crc-detects_one_byte :
    (crc a b : ℕ) (before after : List ℕ)
    → crc < 2 ^ 32
    → IsBytes before
    → a < 256
    → b < 256
    → IsBytes after
    → a ≢ b
    → (crc32 crc (before ++ (a ∷ after)) ≢ crc32 crc (before ++ (b ∷ after)))
      × (crc32c crc (before ++ (a ∷ after)) ≢ crc32c crc (before ++ (b ∷ after)))
unfolding crc32 crc32c
crc-detects_one_byte crc a b before after c p ha hb q ne = (
  λ h.
      ne (
        one_byte_detected poly_crc32 (omega arith) (omega arith) crc a b before after c p ha hb q
          h),
  λ h. ne (
      one_byte_detected poly_crc32c (omega arith) (omega arith) crc a b before after c p ha hb q h),
)
