-- ===== src/Crc.antt =====
-- src/crc.rs: the reflected, table-driven CRC32 and CRC32C. A `u32` register is a number; the
-- shifts and `^` keep it below 2^32.
pub mod Linear
pub mod Table
pub mod Detect
mod Tests
use pinx_kernel.Prelude.{
  ℕ, zero, suc, ◌+◌, ◌*◌, ◌/◌, ◌^◌, bit_and, bit_xor, Bool, not, List, [], ◌∷◌, ◌==◌, if◌then◌else◌,
  get_or, ◌>>>◌,
}

abbrev pub poly_crc32 : ℕ
poly_crc32 = 0xEDB8_8320

abbrev pub poly_crc32c : ℕ
poly_crc32c = 0x82F6_3B78

module _ (poly : ℕ) where
  -- One round of the inner loop of `build_table`.
  unfoldable pub round : ℕ → ℕ
  round crc = if not (bit_and crc 1 == 0) then bit_xor (crc >>> 1) poly else crc >>> 1

  -- The inner loop: `bit` from 0 up to the count.
  unfoldable pub rounds : ℕ → ℕ → ℕ
  rounds zero crc = crc
  rounds (suc bits) crc = rounds bits (round crc)

  -- The outer loop from index `i`, with the rows left.
  unfoldable pub build_from : ℕ → ℕ → List ℕ
  build_from zero i = []
  build_from (suc left) i = rounds 8 i ∷ build_from left (i + 1)

  unfoldable pub build_table : List ℕ
  unfolding build_from
  build_table = build_from 256 0

-- `update`. The index is masked to 8 bits, so the read of the 256-entry table is in range.
unfoldable pub update : List ℕ → ℕ → List ℕ → ℕ
update table crc [] = crc
update table crc (byte ∷ rest) =
    update table (bit_xor (crc >>> 8) (get_or table (bit_and (bit_xor crc byte) 0xFF) 0)) rest

unfoldable pub crc32 : ℕ → List ℕ → ℕ
unfolding update
crc32 crc bytes = update (build_table poly_crc32) crc bytes

unfoldable pub crc32c : ℕ → List ℕ → ℕ
unfolding update
crc32c crc bytes = update (build_table poly_crc32c) crc bytes
