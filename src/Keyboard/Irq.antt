-- ===== src/Keyboard/Irq.antt =====
-- `irq` of src/keyboard.rs, with the translation of an ordinary key.
use pinx_kernel.Prelude.{
  ℕ, ◌+◌, ◌-◌, Bool, true, false, not, ◌&&◌, ◌||◌, ◌==◌, leb, if◌then◌else◌, get_or, bit_and,
  bit_xor,
}
use pinx_kernel.Keyboard.{Keyboard, buffer_push, key_none}
use pinx_kernel.Keyboard.Scancodes.{scancode_to_ascii, scancode_to_ascii_shift, extended_to_key}

abbrev pub is_ascii_lowercase : ℕ → Bool
is_ascii_lowercase c = leb b'a' c && leb c b'z'

abbrev pub is_ascii_uppercase : ℕ → Bool
is_ascii_uppercase c = leb b'A' c && leb c b'Z'

-- `apply_caps_lock`, with the flag that it reads as an argument.
unfoldable pub apply_caps_lock : ℕ → ℕ → Bool → ℕ
apply_caps_lock caps_lock c is_alpha =
    if (caps_lock == 0) || not is_alpha
    then c
    else if is_ascii_lowercase c
    then c - 32
    else if is_ascii_uppercase c
    then c + 32
    else c

abbrev pub is_letter_code : ℕ → Bool
is_letter_code scancode =
    (leb 0x10 scancode && leb scancode 0x19)
    || (leb 0x1E scancode && leb scancode 0x26)
    || (leb 0x2C scancode && leb scancode 0x32)

-- The table that `irq` reads: the shifted one if shift is held.
unfoldable pub plain_char : ℕ → ℕ → ℕ
plain_char shift_held scancode =
    if not (shift_held == 0)
    then get_or scancode_to_ascii_shift scancode 0
    else get_or scancode_to_ascii scancode 0

-- The two adjustments made after the test for KEY_NONE: caps lock, then ctrl.
unfoldable pub caps_adjust : ℕ → ℕ → ℕ → ℕ → ℕ
unfolding apply_caps_lock
caps_adjust shift_held caps_lock scancode c =
    if is_letter_code scancode
    then apply_caps_lock caps_lock c true
    else if not (caps_lock == 0) && not (shift_held == 0)
    then apply_caps_lock caps_lock c false
    else c

unfoldable pub ctrl_adjust : ℕ → ℕ → ℕ
ctrl_adjust ctrl_held c =
    if not (ctrl_held == 0)
    then if is_ascii_lowercase c
      then c - b'a' + 1
      else if is_ascii_uppercase c
      then c - b'A' + 1
      else c
    else c

-- The end of `irq`: an ordinary make code.
unfoldable pub press : Keyboard → ℕ → Keyboard
press k scancode =
    let c = plain_char k.shift_held scancode in
    if c == key_none
    then k
    else buffer_push k (ctrl_adjust k.ctrl_held (caps_adjust k.shift_held k.caps_lock scancode c))

-- A code after the 0xE0 prefix; the caller has cleared the prefix.
unfoldable pub extended : Keyboard → ℕ → Keyboard
extended k scancode =
    if (scancode == 0x2A) || (scancode == 0x36)
    then record k { shift_held = 0 }
    else if not (bit_and scancode 0x80 == 0)
    then k
    else let key = get_or extended_to_key scancode 0 in
      if not (key == key_none) then buffer_push k key else k

-- A break code: bit 7 is set.
unfoldable pub release : Keyboard → ℕ → Keyboard
release k scancode =
    let released = bit_and scancode 0x7F in
    if (released == 0x2A) || (released == 0x36)
    then record k { shift_held = 0 }
    else if released == 0x1D
    then record k { ctrl_held = 0 }
    else if released == 0x38
    then record k { alt_held = 0 }
    else k

unfoldable pub irq : Keyboard → ℕ → Keyboard
irq k scancode =
    if scancode == 0xE0
    then record k { extended_prefix = 1 }
    else if not (k.extended_prefix == 0)
    then extended (record k { extended_prefix = 0 }) scancode
    else if (scancode == 0x2A) || (scancode == 0x36)
    then record k { shift_held = 1 }
    else if scancode == 0x1D
    then record k { ctrl_held = 1 }
    else if scancode == 0x38
    then record k { alt_held = 1 }
    else if scancode == 0x3A
    then record k { caps_lock = bit_xor k.caps_lock 1 }
    else if not (bit_and scancode 0x80 == 0)
    then release k scancode
    else if leb 128 scancode
    then k
    else press k scancode
