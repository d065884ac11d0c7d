-- ===== src/Crc/Table.antt =====
-- The table-driven update of src/crc.rs is the bitwise long division that it tabulates.
use pinx_kernel.Prelude.{
  ℕ, zero, suc, ◌+◌, ◌*◌, ◌/◌, ◌%◌, ◌^◌, ◌<◌, bit_and, bit_xor, ◌≡◌, refl, sym, ap, ◌∙◌, arith,
  List, [], ◌∷◌, get_or, All,
}
use pinx_kernel.Prelude.Xor.{xor-lt, xor_zero, shift-xor}
use pinx_kernel.Prelude.Masks.{and_mask, xor_fields}
use pinx_kernel.Crc.{rounds, build_from, build_table, update}
use pinx_kernel.Crc.Linear.{rounds-xor, rounds_shift, rounds-lt}

-- The definition of a reflected CRC: each byte goes into the low end of the register, and the
-- register then takes eight division steps.
abbrev pub divide : ℕ → ℕ → List ℕ → ℕ
divide poly crc [] = crc
divide poly crc (byte ∷ rest) = divide poly (rounds poly 8 (bit_xor crc byte)) rest

abbrev pub IsBytes : List ℕ → Type 0
IsBytes = All (λ b. b < 256)

module _ (poly : ℕ) where
  get_or-build_from :
      (left i j : ℕ) → j < left → get_or (build_from poly left i) j 0 ≡ rounds poly 8 (i + j)
  unfolding build_from
  get_or-build_from zero i j h = absurd (omega arith)
  get_or-build_from (suc left) i zero h = ap (rounds poly 8) (omega arith)
  get_or-build_from (suc left) i (suc j) h =
      get_or-build_from left (i + 1) j (omega arith) ∙ ap (rounds poly 8) (omega arith)

  get_or-build_table : (j : ℕ) → j < 256 → get_or (build_table poly) j 0 ≡ rounds poly 8 j
  unfolding build_table
  get_or-build_table j h = get_or-build_from 256 0 j h ∙ ap (rounds poly 8) (omega arith)

  -- One byte: a shift and a table entry are eight division steps.
  lookup_rounds :
      (x : ℕ) → bit_xor (x / 256) (get_or (build_table poly) (bit_and x 0xFF) 0) ≡ rounds poly 8 x
  lookup_rounds x =
      ap (λ i. bit_xor (x / 256) (get_or (build_table poly) i 0)) (and_mask 8 x)
      ∙ ap (bit_xor (x / 256)) (get_or-build_table (x % 256) (omega arith))
      ∙ ap (λ h. bit_xor h (rounds poly 8 (x % 256))) (sym (rounds_shift poly 8 (x / 256)))
      ∙ sym (rounds-xor poly 8 (x / 256 * 256) (x % 256))
      ∙ ap (rounds poly 8) (xor_fields 8 (x / 256) (x % 256) (omega arith) ∙ omega arith)

  one_byte :
      (crc byte : ℕ)
      → byte < 256
      → bit_xor (crc / 256) (get_or (build_table poly) (bit_and (bit_xor crc byte) 0xFF) 0)
        ≡ rounds poly 8 (bit_xor crc byte)
  one_byte crc byte h =
      ap (λ t. bit_xor t (get_or (build_table poly) (bit_and (bit_xor crc byte) 0xFF) 0)) top
      ∙ lookup_rounds (bit_xor crc byte)
    where
      top : crc / 256 ≡ bit_xor crc byte / 256
      top =
          let none_left : byte / 256 ≡ 0 = omega arith in
          sym (shift-xor 8 crc byte ∙ rw none_left (xor_zero (crc / 256)))

  -- For every polynomial, register value and byte string, the table-driven update is the
  -- bitwise division of the reflected CRC.
  pub update-divide :
      (crc : ℕ) (bytes : List ℕ)
      → IsBytes bytes
      → update (build_table poly) crc bytes ≡ divide poly crc bytes
  unfolding update
  update-divide crc [] h = refl
  update-divide crc (byte ∷ rest) h =
      ap (λ c. update (build_table poly) c rest) (one_byte crc byte h.0)
      ∙ update-divide (rounds poly 8 (bit_xor crc byte)) rest h.1

  pub divide-lt :
      (crc : ℕ) (bytes : List ℕ)
      → poly < 2 ^ 32
      → IsBytes bytes
      → crc < 2 ^ 32
      → divide poly crc bytes < 2 ^ 32
  divide-lt crc [] p h c = c
  divide-lt crc (byte ∷ rest) p h c =
      divide-lt (rounds poly 8 (bit_xor crc byte)) rest p h.1
        (rounds-lt poly 8 (bit_xor crc byte) p (xor-lt 32 crc byte c (omega arith)))
