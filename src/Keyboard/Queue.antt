-- ===== src/Keyboard/Queue.antt =====
-- The ring buffer of src/keyboard.rs holds a queue of at most 255 keys.
use pinx_kernel.Prelude.{
  ℕ, zero, suc, ◌+◌, ◌-◌, ◌%◌, ◌≤◌, ◌<◌, ◌≢◌, ◌≡◌, refl, ap, ap₂, ◌∙◌, arith, List, [], ◌∷◌, ◌++◌,
  ltb, ◌==◌, if◌then◌else◌, length, update, update_ne, update_self, false, Bool-cases, ltb→lt, inl,
  inr,
}
use pinx_kernel.Keyboard.{Keyboard, buffer_push, input}

-- Both indices lie in the buffer.
pub record InRange (k : Keyboard) : Type 0 where
  pub head_in : k.head < 256
  pub tail_in : k.tail < 256

-- The `n` keys of the buffer from index `h` on, going round at 256.
abbrev pub window : (ℕ → ℕ) → ℕ → ℕ → List ℕ
window f h zero = []
window f h (suc n) = f h ∷ window f ((h + 1) % 256) n

-- How many keys wait.
abbrev pub pending : Keyboard → ℕ
pending k = (k.head + 256 - k.tail) % 256

-- The waiting keys, oldest first.
abbrev pub contents : Keyboard → List ℕ
contents k = window k.buffer k.tail (pending k)

-- The queue that the buffer implements: the 256th key is dropped.
abbrev pub enqueue : List ℕ → ℕ → List ℕ
enqueue q key = if ltb (length q) 255 then q ++ (key ∷ []) else q

pub length-window : (f : ℕ → ℕ) (h n : ℕ) → length (window f h n) ≡ n
length-window f h zero = refl
length-window f h (suc n) = ap suc (length-window f ((h + 1) % 256) n)

window-snoc :
    (f : ℕ → ℕ) (h n : ℕ) → h < 256 → window f h (suc n) ≡ window f h n ++ (f ((h + n) % 256) ∷ [])
window-snoc f h zero hh = ap (λ i. f i ∷ []) (omega arith)
window-snoc f h (suc n) hh =
    ap (λ l. f h ∷ l)
      (window-snoc f ((h + 1) % 256) n (omega arith)
        ∙ ap (λ i. window f ((h + 1) % 256) n ++ (f i ∷ [])) (omega arith))

-- A write ahead of the window does not touch it.
window-update :
    (f : ℕ → ℕ) (i x h n : ℕ)
    → i < 256
    → h < 256
    → n ≤ (i + 256 - h) % 256
    → window (update f i x) h n ≡ window f h n
window-update f i x h zero hi hh d = refl
window-update f i x h (suc n) hi hh d =
    ap₂ ◌∷◌ (update_ne f i h x (omega arith))
      (window-update f i x ((h + 1) % 256) n hi (omega arith) (omega arith))

module _ (k : Keyboard) (key : ℕ) (v : InRange k) where
  pushed : pending k < 255 → contents (buffer_push k key) ≡ contents k ++ (key ∷ [])
  unfolding buffer_push
  pushed room =
      let next_ne : ((k.head + 1) % 256 == k.tail) ≡ false = ground arith in
      let more : ((k.head + 1) % 256 + 256 - k.tail) % 256 ≡ suc (pending k) = omega arith in
      let last : (k.tail + pending k) % 256 ≡ k.head = omega arith in
      rw (next_ne, more)
        (window-snoc (update k.buffer k.head key) k.tail (pending k) v.tail_in
          ∙ ap₂ (λ q x. q ++ (x ∷ []))
              (window-update k.buffer k.head key k.tail (pending k) v.head_in v.tail_in
                (omega arith))
              (ap (update k.buffer k.head key) last ∙ update_self k.buffer k.head key))

  dropped : pending k ≡ 255 → buffer_push k key ≡ k
  unfolding buffer_push
  dropped full = ground arith

  -- `buffer_push` appends the key to the waiting ones, and drops it when 255 are waiting.
  pub buffer_push-enqueue : contents (buffer_push k key) ≡ enqueue (contents k) key
  buffer_push-enqueue = elim (Bool-cases (ltb (pending k) 255)) [
    | inl room ↦ pushed (ltb→lt _ _ room) ∙ rw (length-window, room)
    | inr full ↦ ap contents (dropped (ground arith)) ∙ rw (length-window, full)
  ]

  pub buffer_push-InRange : InRange (buffer_push k key)
  unfolding buffer_push
  buffer_push-InRange = ground arith

module _ (k : Keyboard) (v : InRange k) where
  pub input-InRange : InRange (input k).1
  unfolding input
  input-InRange = ground arith

  pub input_some : k.head ≢ k.tail → contents k ≡ (input k).0 ∷ contents (input k).1
  unfolding input
  input_some ne =
      let test : (k.head == k.tail) ≡ false = ground arith in
      let fewer : pending k ≡ suc ((k.head + 256 - (k.tail + 1) % 256) % 256) = omega arith in
      rw (test, fewer)

  pub input_none : k.head ≡ k.tail → (contents k ≡ []) × (input k ≡ (0, k))
  unfolding input
  input_none e = let none : pending k ≡ 0 = omega arith in (rw none, ground arith)
