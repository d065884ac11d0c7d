-- ===== src/User/Tests.antt =====
-- Runs of the loader of src/user.rs, and the theorems about it at concrete images.
use pinx_kernel.Prelude.{ℕ, ◌≡◌, refl, true, false, List, [], ◌∷◌, ◌++◌, replicate}
use pinx_kernel.Prelude.Run.{panic, ret}
use pinx_kernel.Prelude.Bytes.{le_at, from_le, bytes_eq}
use pinx_kernel.User.{
  Memory, find_header, find_from, read_u32, load_elf, load_headers, load_header, read_u16, read_u64,
}
use pinx_kernel.User.Header.{Search, find_header-Search}
use pinx_kernel.User.Spawn.{program_magic}

abbrev image : List ℕ
image = 7 ∷ b'P' ∷ b'I' ∷ program_magic ++ 1 ∷ 0 ∷ 0 ∷ 0 ∷ []

found : find_header image program_magic 1 ≡ ret true
unfolding find_header find_from bytes_eq read_u32 le_at from_le
found = refl

other_version : find_header image program_magic 2 ≡ ret false
unfolding find_header find_from bytes_eq read_u32 le_at from_le
other_version = refl

find_header-Search_example : Search image program_magic 1 0 (find_header image program_magic 1)
find_header-Search_example = find_header-Search image program_magic 1 refl

-- An ELF header for one program header, at offset 2 ^ 64 - 56.
abbrev wrapping : List ℕ
wrapping =
    0x7F ∷ b'E' ∷ b'L' ∷ b'F' ∷ 2 ∷ 1 ∷ replicate 10 0
    ++ 2 ∷ 0 ∷ 0x3E ∷ 0 ∷ replicate 12 0
    ++ 0xC8 ∷ replicate 7 0xFF
    ++ replicate 14 0
    ++ 56 ∷ 0 ∷ 1 ∷ 0 ∷ replicate 6 0

-- The bounds check of the program header wraps, and the read behind it panics.
wraps : (m : Memory) → load_elf 0 m wrapping ≡ panic
unfolding load_elf load_headers load_header read_u16 read_u32 read_u64 bytes_eq le_at from_le
wraps m = refl
