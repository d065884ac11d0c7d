-- ===== src/Keyboard/Keys.antt =====
-- What the interrupt handler and the reader of src/keyboard.rs do to the queue of waiting keys.
use pinx_kernel.Prelude.{
  ℕ, ◌<◌, ◌≢◌, ◌≡◌, refl, arith, List, [], ◌∷◌, ◌++◌, All, ltb, ◌==◌, if◌then◌else◌, Bool, true,
  false, not, leb, Bool-cases, if_elim, ◌||◌, bit_and, ◌⊎◌, inl, inr, get_or, length,
}
use mathlib.Core.Path.{subst}
use pinx_kernel.Keyboard.{Keyboard, init, buffer_push, input, has_input}
use pinx_kernel.Keyboard.Irq.{irq, press, release, extended, caps_adjust, ctrl_adjust, plain_char}
use pinx_kernel.Keyboard.Scancodes.{extended_to_key}
use pinx_kernel.Keyboard.Queue.{
  InRange, contents, enqueue, buffer_push-enqueue, buffer_push-InRange, input-InRange, input_some,
  input_none,
}

-- Both indices in range, and no waiting key is KEY_NONE.
pub record IsValid (k : Keyboard) : Type 0 where
  pub in_range : InRange k
  pub no_none : All (λ c. 0 < c) (contents k)

-- The queue after `k'` is that of `k`, or that with one key offered to it, which is not KEY_NONE.
pub data Offers (k k' : Keyboard) : Type 0 where
  nothing : contents k' ≡ contents k → InRange k' → Offers k k'
  key : (c : ℕ) → 0 < c → contents k' ≡ enqueue (contents k) c → InRange k' → Offers k k'

push-Offers : (k : Keyboard) (c : ℕ) → InRange k → 0 < c → Offers k (buffer_push k c)
push-Offers k c v pos = key c pos (buffer_push-enqueue k c v) (buffer_push-InRange k c v)

adjusted_pos :
    (shift caps ctrl scancode c : ℕ)
    → c ≢ 0
    → 0 < ctrl_adjust ctrl (caps_adjust shift caps scancode c)
unfolding ctrl_adjust caps_adjust
adjusted_pos shift caps ctrl scancode c h = ground arith

press-Offers : (k : Keyboard) (scancode : ℕ) → InRange k → Offers k (press k scancode)
unfolding press
press-Offers k scancode v =
    if_elim (Offers k) (plain_char k.shift_held scancode == 0) (λ e. nothing refl v)
      (λ ne.
        push-Offers k _ v
          (adjusted_pos k.shift_held k.caps_lock k.ctrl_held scancode _ (ground arith)))

-- A change of flags alone.
same :
    (k k' : Keyboard)
    → (k'.buffer ≡ k.buffer) × (k'.head ≡ k.head) × (k'.tail ≡ k.tail)
    → InRange k
    → Offers k k'
same k k' (b, h, t) v = nothing (rw (b, h, t)) (ground arith)

extended-Offers : (k : Keyboard) (scancode : ℕ) → InRange k → Offers k (extended k scancode)
unfolding extended
extended-Offers k scancode v =
    if_elim (Offers k) ((scancode == 0x2A) || (scancode == 0x36))
      (λ _. same k _ (refl, refl, refl) v)
      (λ _.
        if_elim (Offers k) (not (bit_and scancode 0x80 == 0)) (λ _. nothing refl v)
          (λ _.
            if_elim (Offers k) (not (get_or extended_to_key scancode 0 == 0))
              (λ ne. push-Offers k _ v (ground arith)) (λ _. nothing refl v)))

release-Offers : (k : Keyboard) (scancode : ℕ) → InRange k → Offers k (release k scancode)
unfolding release
release-Offers k scancode v =
    same k (release k scancode) (ground arith, ground arith, ground arith) v

-- The prefix flag plays no part in the queue.
unprefixed : (k k' : Keyboard) → Offers (record k { extended_prefix = 0 }) k' → Offers k k'
unprefixed k k' (nothing e v) = nothing e v
unprefixed k k' (key c pos e v) = key c pos e v

flags :
    (k k' rest : Keyboard) (test : Bool)
    → (k'.buffer ≡ k.buffer) × (k'.head ≡ k.head) × (k'.tail ≡ k.tail)
    → InRange k
    → Offers k rest
    → Offers k (if test then k' else rest)
flags k k' rest test e v o = if_elim (Offers k) test (λ _. same k k' e v) (λ _. o)

-- Whatever the scancode and the modifiers, the handler offers the queue nothing, or one key that
-- is not KEY_NONE; waiting keys stay, in order, and the indices stay in range.
pub irq-Offers : (k : Keyboard) (scancode : ℕ) → InRange k → Offers k (irq k scancode)
unfolding irq
irq-Offers k scancode v =
    flags k _ _ (scancode == 0xE0) (refl, refl, refl) v
      (if_elim (Offers k) (not (k.extended_prefix == 0))
        (λ _. unprefixed k _ (
          extended-Offers (record k { extended_prefix = 0 }) scancode
            (record { head_in = v.head_in; tail_in = v.tail_in })))
        (λ _.
          flags k _ _ ((scancode == 0x2A) || (scancode == 0x36)) (refl, refl, refl) v
            (flags k _ _ (scancode == 0x1D) (refl, refl, refl) v
              (flags k _ _ (scancode == 0x38) (refl, refl, refl) v
                (flags k _ _ (scancode == 0x3A) (refl, refl, refl) v
                  (if_elim (Offers k) (not (bit_and scancode 0x80 == 0))
                    (λ _. release-Offers k scancode v)
                    (λ _.
                      if_elim (Offers k) (leb 128 scancode) (λ _. nothing refl v)
                        (λ _. press-Offers k scancode v))))))))

All-snoc : (q : List ℕ) (c : ℕ) → All (λ c. 0 < c) q → 0 < c → All (λ c. 0 < c) (q ++ (c ∷ []))
All-snoc [] c h p = (p, tt)
All-snoc (x ∷ q) c h p = (h.0, All-snoc q c h.1 p)

module _ {k : Keyboard} (v : IsValid k) where
  -- A read of a valid buffer returns KEY_NONE, and changes nothing, exactly when no key waits;
  -- otherwise it returns the oldest waiting key, which is not KEY_NONE, and leaves the rest.
  pub input_dequeues :
      ((contents k ≡ []) × (input k ≡ (0, k)) × (has_input k ≡ false))
      ⊎ ((contents k ≡ (input k).0 ∷ contents (input k).1)
          × (0 < (input k).0)
          × (has_input k ≡ true))
  unfolding has_input
  input_dequeues = elim (Bool-cases (k.head == k.tail)) [
    | inl e ↦ inl (
      (input_none k v.in_range (ground arith)).0,
      (input_none k v.in_range (ground arith)).1,
      rw e,
    )
    | inr ne ↦
        let shape = input_some k v.in_range (ground arith) in
        inr (shape, (subst (All (λ c. 0 < c)) shape v.no_none).0, rw ne)
  ]

  pub input-IsValid : IsValid (input k).1
  input-IsValid = record {
    in_range = input-InRange k v.in_range;
    no_none = elim input_dequeues [
      | inl (e, i, _) ↦ rw i v.no_none
      | inr (shape, _, _) ↦ (subst (All (λ c. 0 < c)) shape v.no_none).1
    ];
  }

  pub irq-IsValid : (scancode : ℕ) → IsValid (irq k scancode)
  irq-IsValid scancode = keep (irq-Offers k scancode v.in_range)
    where
      keep : {k' : Keyboard} → Offers k k' → IsValid k'
      keep (nothing e r) = record { in_range = r; no_none = rw e v.no_none }
      keep (key c pos e r) = record {
        in_range = r;
        no_none = rw e (
            if_elim (All (λ c. 0 < c)) (ltb (length (contents k)) 255)
              (λ _. All-snoc (contents k) c v.no_none pos) (λ _. v.no_none));
      }

-- What happens to the driver: an interrupt with a scancode, or a read of one key.
pub data Event : Type 0 where
  scan : ℕ → Event
  read : Event

abbrev pub run : Keyboard → List Event → Keyboard
run k [] = k
run k (scan scancode ∷ events) = run (irq k scancode) events
run k (read ∷ events) = run (input k).1 events

run-IsValid : (events : List Event) {k : Keyboard} → IsValid k → IsValid (run k events)
run-IsValid [] v = v
run-IsValid (scan scancode ∷ events) v = run-IsValid events (irq-IsValid v scancode)
run-IsValid (read ∷ events) v = run-IsValid events (input-IsValid v)

-- From `init` on, whatever the earlier contents of the statics, every sequence of interrupts and
-- reads keeps the indices in range and KEY_NONE out of the queue.
pub init-run-IsValid : (k : Keyboard) (events : List Event) → IsValid (run (init k) events)
unfolding init
init-run-IsValid k events =
    run-IsValid events
      (record { in_range = record { head_in = omega arith; tail_in = omega arith }; no_none = tt })
