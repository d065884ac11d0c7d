-- ===== src/Keyboard/Letters.antt =====
-- How src/keyboard.rs translates the letter keys.
use pinx_kernel.Prelude.{ℕ, ◌-◌, Bool, not, ◌&&◌, ◌||◌, ◌==◌, if◌then◌else◌}
use pinx_kernel.Keyboard.{Keyboard}
use pinx_kernel.Keyboard.Irq.{
  plain_char, caps_adjust, ctrl_adjust, is_letter_code, is_ascii_lowercase,
}

-- What a letter key should give: the letter's place in the alphabet with ctrl, else the letter,
-- capital if exactly one of shift and caps lock is on.
abbrev pub letter_key : ℕ → ℕ → ℕ → ℕ → ℕ
letter_key shift caps ctrl letter =
    if not (ctrl == 0) then letter - 96 else if shift == caps then letter else letter - 32

abbrev as_specified : ℕ → ℕ → ℕ → ℕ → Bool
as_specified shift caps ctrl scancode =
    not (is_letter_code scancode)
    || (is_ascii_lowercase (plain_char 0 scancode)
        && (ctrl_adjust ctrl (caps_adjust shift caps scancode (plain_char shift scancode))
            == letter_key shift caps ctrl (plain_char 0 scancode))
        && not (plain_char shift scancode == 0))
