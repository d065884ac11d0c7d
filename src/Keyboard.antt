-- ===== src/Keyboard.antt =====
-- src/keyboard.rs: the scancode tables, the ring buffer of translated keys, and the IRQ handler.
-- The static variables are the fields of one record; the byte that `irq` reads from the data port
-- is an argument.
pub mod Scancodes
pub mod Irq
pub mod Queue
pub mod Keys
pub mod Letters
mod Tests
use pinx_kernel.Prelude.{
  ℕ, ◌+◌, ◌-◌, ◌%◌, Bool, true, false, not, ◌&&◌, ◌||◌, ◌==◌, leb, if◌then◌else◌, update,
}

-- KB_BUFFER, KB_HEAD, KB_TAIL and the modifier flags.
pub record Keyboard : Type 0 where
  pub buffer : ℕ → ℕ
  pub head : ℕ
  pub tail : ℕ
  pub shift_held : ℕ
  pub ctrl_held : ℕ
  pub alt_held : ℕ
  pub caps_lock : ℕ
  pub extended_prefix : ℕ

abbrev pub buffer_size : ℕ
buffer_size = 256

abbrev pub key_none : ℕ
key_none = 0

-- The state of the statics after `init`; the controller commands it sends are I/O.
unfoldable pub init : Keyboard → Keyboard
init k = record k {
  shift_held = 0;
  ctrl_held = 0;
  alt_held = 0;
  caps_lock = 0;
  extended_prefix = 0;
  head = 0;
  tail = 0;
}

-- A full buffer drops the key.
unfoldable pub buffer_push : Keyboard → ℕ → Keyboard
buffer_push k key =
    let next = (k.head + 1) % buffer_size in
    if not (next == k.tail)
    then record k { buffer = update k.buffer k.head key; head = next }
    else k

unfoldable pub input : Keyboard → ℕ × Keyboard
input k =
    if k.head == k.tail
    then (key_none, k)
    else (k.buffer k.tail, record k { tail = (k.tail + 1) % buffer_size })

unfoldable pub has_input : Keyboard → Bool
has_input k = not (k.head == k.tail)
