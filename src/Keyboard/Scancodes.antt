-- ===== src/Keyboard/Scancodes.antt =====
-- The translation tables of src/keyboard.rs, built from pairs by `table`.
use pinx_kernel.Prelude.{ℕ, List, [], ◌∷◌, set, replicate}

-- `table`: every scancode that no pair names stays zero.
unfoldable pub table : List (ℕ × ℕ) → List ℕ → List ℕ
table [] out = out
table ((code, value) ∷ entries) out = table entries (set out code value)

-- Values are ASCII codes.
abbrev pub scancode_to_ascii_entries : List (ℕ × ℕ)
scancode_to_ascii_entries =
    (0x01, 0x1B)
    ∷ (0x02, 0x31)
    ∷ (0x03, 0x32)
    ∷ (0x04, 0x33)
    ∷ (0x05, 0x34)
    ∷ (0x06, 0x35)
    ∷ (0x07, 0x36)
    ∷ (0x08, 0x37)
    ∷ (0x09, 0x38)
    ∷ (0x0A, 0x39)
    ∷ (0x0B, 0x30)
    ∷ (0x0C, 0x2D)
    ∷ (0x0D, 0x3D)
    ∷ (0x0E, 0x08)
    ∷ (0x0F, 0x09)
    ∷ (0x10, 0x71)
    ∷ (0x11, 0x77)
    ∷ (0x12, 0x65)
    ∷ (0x13, 0x72)
    ∷ (0x14, 0x74)
    ∷ (0x15, 0x79)
    ∷ (0x16, 0x75)
    ∷ (0x17, 0x69)
    ∷ (0x18, 0x6F)
    ∷ (0x19, 0x70)
    ∷ (0x1A, 0x5B)
    ∷ (0x1B, 0x5D)
    ∷ (0x1C, 0x0A)
    ∷ (0x1E, 0x61)
    ∷ (0x1F, 0x73)
    ∷ (0x20, 0x64)
    ∷ (0x21, 0x66)
    ∷ (0x22, 0x67)
    ∷ (0x23, 0x68)
    ∷ (0x24, 0x6A)
    ∷ (0x25, 0x6B)
    ∷ (0x26, 0x6C)
    ∷ (0x27, 0x3B)
    ∷ (0x28, 0x27)
    ∷ (0x29, 0x60)
    ∷ (0x2B, 0x5C)
    ∷ (0x2C, 0x7A)
    ∷ (0x2D, 0x78)
    ∷ (0x2E, 0x63)
    ∷ (0x2F, 0x76)
    ∷ (0x30, 0x62)
    ∷ (0x31, 0x6E)
    ∷ (0x32, 0x6D)
    ∷ (0x33, 0x2C)
    ∷ (0x34, 0x2E)
    ∷ (0x35, 0x2F)
    ∷ (0x37, 0x2A)
    ∷ (0x39, 0x20)
    ∷ (0x47, 0x37)
    ∷ (0x48, 0x38)
    ∷ (0x49, 0x39)
    ∷ (0x4A, 0x2D)
    ∷ (0x4B, 0x34)
    ∷ (0x4C, 0x35)
    ∷ (0x4D, 0x36)
    ∷ (0x4E, 0x2B)
    ∷ (0x4F, 0x31)
    ∷ (0x50, 0x32)
    ∷ (0x51, 0x33)
    ∷ (0x52, 0x30)
    ∷ (0x53, 0x2E)
    ∷ []

unfoldable pub scancode_to_ascii : List ℕ
unfolding table
scancode_to_ascii = table scancode_to_ascii_entries (replicate 128 0)

-- With shift held.
abbrev pub scancode_to_ascii_shift_entries : List (ℕ × ℕ)
scancode_to_ascii_shift_entries =
    (0x01, 0x1B)
    ∷ (0x02, 0x21)
    ∷ (0x03, 0x40)
    ∷ (0x04, 0x23)
    ∷ (0x05, 0x24)
    ∷ (0x06, 0x25)
    ∷ (0x07, 0x5E)
    ∷ (0x08, 0x26)
    ∷ (0x09, 0x2A)
    ∷ (0x0A, 0x28)
    ∷ (0x0B, 0x29)
    ∷ (0x0C, 0x5F)
    ∷ (0x0D, 0x2B)
    ∷ (0x0E, 0x08)
    ∷ (0x0F, 0x09)
    ∷ (0x10, 0x51)
    ∷ (0x11, 0x57)
    ∷ (0x12, 0x45)
    ∷ (0x13, 0x52)
    ∷ (0x14, 0x54)
    ∷ (0x15, 0x59)
    ∷ (0x16, 0x55)
    ∷ (0x17, 0x49)
    ∷ (0x18, 0x4F)
    ∷ (0x19, 0x50)
    ∷ (0x1A, 0x7B)
    ∷ (0x1B, 0x7D)
    ∷ (0x1C, 0x0A)
    ∷ (0x1E, 0x41)
    ∷ (0x1F, 0x53)
    ∷ (0x20, 0x44)
    ∷ (0x21, 0x46)
    ∷ (0x22, 0x47)
    ∷ (0x23, 0x48)
    ∷ (0x24, 0x4A)
    ∷ (0x25, 0x4B)
    ∷ (0x26, 0x4C)
    ∷ (0x27, 0x3A)
    ∷ (0x28, 0x22)
    ∷ (0x29, 0x7E)
    ∷ (0x2B, 0x7C)
    ∷ (0x2C, 0x5A)
    ∷ (0x2D, 0x58)
    ∷ (0x2E, 0x43)
    ∷ (0x2F, 0x56)
    ∷ (0x30, 0x42)
    ∷ (0x31, 0x4E)
    ∷ (0x32, 0x4D)
    ∷ (0x33, 0x3C)
    ∷ (0x34, 0x3E)
    ∷ (0x35, 0x3F)
    ∷ (0x37, 0x2A)
    ∷ (0x39, 0x20)
    ∷ (0x47, 0x37)
    ∷ (0x48, 0x38)
    ∷ (0x49, 0x39)
    ∷ (0x4A, 0x2D)
    ∷ (0x4B, 0x34)
    ∷ (0x4C, 0x35)
    ∷ (0x4D, 0x36)
    ∷ (0x4E, 0x2B)
    ∷ (0x4F, 0x31)
    ∷ (0x50, 0x32)
    ∷ (0x51, 0x33)
    ∷ (0x52, 0x30)
    ∷ (0x53, 0x2E)
    ∷ []

unfoldable pub scancode_to_ascii_shift : List ℕ
unfolding table
scancode_to_ascii_shift = table scancode_to_ascii_shift_entries (replicate 128 0)

-- After the 0xE0 prefix.
abbrev pub extended_to_key_entries : List (ℕ × ℕ)
extended_to_key_entries =
    (0x48, 0x80)
    ∷ (0x50, 0x81)
    ∷ (0x4B, 0x82)
    ∷ (0x4D, 0x83)
    ∷ (0x47, 0x84)
    ∷ (0x4F, 0x85)
    ∷ (0x49, 0x86)
    ∷ (0x51, 0x87)
    ∷ (0x52, 0x88)
    ∷ (0x53, 0x89)
    ∷ (0x3B, 0x8A)
    ∷ (0x3C, 0x8B)
    ∷ (0x3D, 0x8C)
    ∷ (0x3E, 0x8D)
    ∷ (0x3F, 0x8E)
    ∷ (0x40, 0x8F)
    ∷ (0x41, 0x90)
    ∷ (0x42, 0x91)
    ∷ (0x43, 0x92)
    ∷ (0x44, 0x93)
    ∷ (0x57, 0x94)
    ∷ (0x5D, 0x95)
    ∷ (0x1D, 0x00)
    ∷ (0x38, 0x00)
    ∷ (0x5B, 0x00)
    ∷ []

unfoldable pub extended_to_key : List ℕ
unfolding table
extended_to_key = table extended_to_key_entries (replicate 128 0)
