-- ===== src/Keyboard/Tests.antt =====
-- Runs of src/keyboard.rs, and the theorems about it at concrete states.
use pinx_kernel.Prelude.{◌<◌, ◌≡◌, ◌⊎◌, refl, arith, [], ◌∷◌, true, false, ◌==◌, if◌then◌else◌}
use pinx_kernel.Keyboard.{Keyboard, init, buffer_push, input, has_input}
use pinx_kernel.Keyboard.Scancodes.{scancode_to_ascii, scancode_to_ascii_shift, extended_to_key}
use pinx_kernel.Keyboard.Irq.{irq, press, release, extended, plain_char, caps_adjust, ctrl_adjust}
use pinx_kernel.Keyboard.Queue.{InRange, contents, enqueue, buffer_push-enqueue}
use pinx_kernel.Keyboard.Keys.{
  IsValid, Offers, scan, read, run, irq-Offers, input_dequeues, init-run-IsValid,
}

abbrev fresh : Keyboard
fresh = record {
  buffer = λ _. 0;
  head = 0;
  tail = 0;
  shift_held = 0;
  ctrl_held = 0;
  alt_held = 0;
  caps_lock = 0;
  extended_prefix = 0;
}

-- 'a' waits at the last index, and the next key goes to index 0.
abbrev wrapped : Keyboard
wrapped = record fresh {
  buffer = λ i. if i == 255 then 97 else 0;
  head = 0;
  tail = 255;
  caps_lock = 1;
}

fresh-InRange : InRange fresh
fresh-InRange = omega arith

wrapped-InRange : InRange wrapped
wrapped-InRange = omega arith

wrapped-IsValid : IsValid wrapped
wrapped-IsValid = record { in_range = wrapped-InRange; no_none = omega arith }

-- Shift down, H, shift up, I, then the up arrow.
typed :
    contents
      (run fresh (scan 0x2A ∷ scan 0x23 ∷ scan 0xAA ∷ scan 0x17 ∷ scan 0xE0 ∷ scan 0x48 ∷ []))
    ≡ 72 ∷ 105 ∷ 0x80 ∷ []
unfolding irq press release extended plain_char caps_adjust ctrl_adjust buffer_push
    scancode_to_ascii scancode_to_ascii_shift extended_to_key
typed = refl

buffer_push-enqueue_example : contents (buffer_push wrapped 98) ≡ enqueue (contents wrapped) 98
buffer_push-enqueue_example = buffer_push-enqueue wrapped 98 wrapped-InRange

irq-Offers_example : Offers wrapped (irq wrapped 0x1E)
irq-Offers_example = irq-Offers wrapped 0x1E wrapped-InRange

input_dequeues_example :
    ((contents wrapped ≡ []) × (input wrapped ≡ (0, wrapped)) × (has_input wrapped ≡ false))
    ⊎ ((contents wrapped ≡ (input wrapped).0 ∷ contents (input wrapped).1)
        × (0 < (input wrapped).0)
        × (has_input wrapped ≡ true))
input_dequeues_example = input_dequeues wrapped-IsValid

init-run-IsValid_example : IsValid (run (init wrapped) (scan 0x1E ∷ read ∷ read ∷ []))
init-run-IsValid_example = init-run-IsValid wrapped (scan 0x1E ∷ read ∷ read ∷ [])
