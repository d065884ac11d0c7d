-- ===== src/Crc/Tests.antt =====
-- Runs of src/crc.rs on concrete bytes, and the theorems about it at concrete inputs.
use pinx_kernel.Prelude.{ℕ, ◌≡◌, ◌≢◌, refl, arith, List, [], ◌∷◌, ◌++◌}
use pinx_kernel.Prelude.{bit_xor}
use pinx_kernel.Crc.{build_table, update, crc32, crc32c, rounds, round, poly_crc32}
use pinx_kernel.Crc.Table.{divide, update-divide}
use pinx_kernel.Crc.Detect.{crc-detects_one_byte}

-- "123456789", the customary check string.
abbrev check : List ℕ
check = 49 ∷ 50 ∷ 51 ∷ 52 ∷ 53 ∷ 54 ∷ 55 ∷ 56 ∷ 57 ∷ []

ieee_check_value : bit_xor (crc32 0xFFFF_FFFF check) 0xFFFF_FFFF ≡ 0xCBF4_3926
unfolding crc32 build_table rounds round
ieee_check_value = refl

castagnoli_check_value : bit_xor (crc32c 0xFFFF_FFFF check) 0xFFFF_FFFF ≡ 0xE306_9283
unfolding crc32c build_table rounds round
castagnoli_check_value = refl

update-divide_example :
    update (build_table poly_crc32) 0xFFFF_FFFF check ≡ divide poly_crc32 0xFFFF_FFFF check
update-divide_example = update-divide poly_crc32 0xFFFF_FFFF check (omega arith)

crc-detects_one_byte_example :
    (crc32 0 ((1 ∷ []) ++ (2 ∷ 7 ∷ [])) ≢ crc32 0 ((1 ∷ []) ++ (3 ∷ 7 ∷ [])))
    × (crc32c 0 ((1 ∷ []) ++ (2 ∷ 7 ∷ [])) ≢ crc32c 0 ((1 ∷ []) ++ (3 ∷ 7 ∷ [])))
crc-detects_one_byte_example =
    crc-detects_one_byte 0 2 3 (1 ∷ []) (7 ∷ []) (omega arith) (omega arith) (omega arith)
      (omega arith) (omega arith) (omega arith)
