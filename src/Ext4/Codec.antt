-- ===== src/Ext4/Codec.antt =====
-- The fields of extent trees in src/ext4.rs: what is written is read back, and nothing else changes.
use pinx_kernel.Prelude.{
  ℕ, zero, suc, ◌+◌, ◌-◌, ◌≤◌, ◌≡◌, ◌⊎◌, inl, inr, refl, sym, ap, ap₂, ◌∙◌, arith, true, leb, List,
  [], ◌∷◌, ◌++◌, length, take, drop, slice, append_assoc, length-append, length-take, length-drop,
}
use pinx_kernel.Prelude.Run.{ret}
use pinx_kernel.Prelude.Bytes.{le_at, from_le, to_le, length-to_le}
use pinx_kernel.Ext4.{put_le}

-- Bytes put at `off` of a block that has room for them.
unfoldable pub put : List ℕ → ℕ → List ℕ → List ℕ
put b off bytes = take off b ++ bytes ++ drop (off + length bytes) b

take-append : {A : Type 0} (xs ys : List A) → take (length xs) (xs ++ ys) ≡ xs
take-append [] ys = refl
take-append (x ∷ xs) ys = ap (λ l. x ∷ l) (take-append xs ys)

drop-append : {A : Type 0} (xs ys : List A) (n : ℕ) → drop (length xs + n) (xs ++ ys) ≡ drop n ys
drop-append [] ys n = ap (λ m. drop m ys) (omega arith)
drop-append (x ∷ xs) ys n =
    let out : length (x ∷ xs) + n ≡ suc (length xs + n) = omega arith in
    ap (λ m. drop m (x ∷ xs ++ ys)) out ∙ drop-append xs ys n

drop-nil : {A : Type 0} (n : ℕ) → (let nil : List A = [] in drop n nil ≡ nil)
drop-nil zero = refl
drop-nil (suc n) = refl

drop-drop : {A : Type 0} (n m : ℕ) (xs : List A) → drop n (drop m xs) ≡ drop (m + n) xs
drop-drop n zero xs = ap (λ k. drop k xs) (omega arith)
drop-drop n (suc m) [] = drop-nil n ∙ sym (drop-nil (suc m + n))
drop-drop n (suc m) (x ∷ xs) =
    let out : suc m + n ≡ suc (m + n) = omega arith in
    drop-drop n m xs ∙ ap (λ k. drop k (x ∷ xs)) (sym out)

put_lem :
    (b : List ℕ) (off : ℕ) (bytes : List ℕ)
    → put b off bytes ≡ take off b ++ (bytes ++ drop (off + length bytes) b)
unfolding put
put_lem b off bytes = append_assoc (take off b) bytes (drop (off + length bytes) b)

put-suc :
    (x : ℕ) (b : List ℕ) (off : ℕ) (bytes : List ℕ)
    → put (x ∷ b) (suc off) bytes ≡ x ∷ put b off bytes
unfolding put
put-suc x b off bytes =
    let out : suc off + length bytes ≡ suc (off + length bytes) = omega arith in
    ap (λ k. x ∷ take off b ++ bytes ++ drop k (x ∷ b)) out

pub length-put :
    (b : List ℕ) (off : ℕ) (bytes : List ℕ)
    → off + length bytes ≤ length b
    → length (put b off bytes) ≡ length b
length-put b off bytes h = omega (
  arith,
  ap length (put_lem b off bytes),
  length-append (take off b) (bytes ++ drop (off + length bytes) b),
  length-append bytes (drop (off + length bytes) b),
  length-take off b,
  length-drop (off + length bytes) b,
)

put-zero : (b bytes : List ℕ) → take (length bytes) (put b 0 bytes) ≡ bytes
unfolding put
put-zero b bytes = take-append bytes (drop (0 + length bytes) b)

slice-put_self :
    (b : List ℕ) (off : ℕ) (bytes : List ℕ)
    → off + length bytes ≤ length b
    → slice off (length bytes) (put b off bytes) ≡ bytes
slice-put_self b zero bytes h = put-zero b bytes
slice-put_self [] (suc off) bytes h = absurd (omega arith)
slice-put_self (x ∷ b) (suc off) bytes h =
    ap (slice (suc off) (length bytes)) (put-suc x b off bytes)
    ∙ slice-put_self b off bytes (omega arith)

-- The bytes before the place.
slice-put_before :
    (b : List ℕ) (off : ℕ) (bytes : List ℕ) (o n : ℕ)
    → off ≤ length b
    → o + n ≤ off
    → slice o n (put b off bytes) ≡ slice o n b
slice-put_before b zero bytes o zero l h = refl
slice-put_before b zero bytes o (suc n) l h = absurd (omega arith)
slice-put_before [] (suc off) bytes o n l h = absurd (omega arith)
slice-put_before (x ∷ b) (suc off) bytes zero zero l h = refl
slice-put_before (x ∷ b) (suc off) bytes zero (suc n) l h =
    ap (slice 0 (suc n)) (put-suc x b off bytes)
    ∙ ap (λ r. x ∷ r) (slice-put_before b off bytes 0 n (omega arith) (omega arith))
slice-put_before (x ∷ b) (suc off) bytes (suc o) n l h =
    ap (slice (suc o) n) (put-suc x b off bytes)
    ∙ slice-put_before b off bytes o n (omega arith) (omega arith)

-- The bytes behind it.
drop-put :
    (b : List ℕ) (off : ℕ) (bytes : List ℕ)
    → off + length bytes ≤ length b
    → drop (off + length bytes) (put b off bytes) ≡ drop (off + length bytes) b
drop-put b off bytes h =
    let front : length (take off b) ≡ off = omega (arith, length-take off b) in
    let at : off + length bytes ≡ length (take off b) + (length bytes + 0) = omega (arith, front) in
    ap₂ drop at (put_lem b off bytes)
    ∙ drop-append (take off b) (bytes ++ drop (off + length bytes) b) (length bytes + 0)
    ∙ drop-append bytes (drop (off + length bytes) b) 0

slice-put_after :
    (b : List ℕ) (off : ℕ) (bytes : List ℕ) (o n : ℕ)
    → off + length bytes ≤ length b
    → off + length bytes ≤ o
    → slice o n (put b off bytes) ≡ slice o n b
slice-put_after b off bytes o n fits h =
    let k : ℕ = o - (off + length bytes) in
    let at : off + length bytes + k ≡ o = omega arith in
    ap (λ j. slice j n (put b off bytes)) (sym at)
    ∙ ap (take n) (
        sym (drop-drop k (off + length bytes) (put b off bytes))
        ∙ ap (drop k) (drop-put b off bytes fits)
        ∙ drop-drop k (off + length bytes) b)
    ∙ ap (λ j. slice j n b) at

pub put_le-put :
    (n : ℕ) (b : List ℕ) (off v : ℕ)
    → off + n ≤ length b
    → put_le n b off v ≡ ret (put b off (to_le n v))
unfolding put_le put
put_le-put n b off v h =
    let fits : leb (off + n) (length b) ≡ true = ground arith in rw (fits, length-to_le n v) refl

-- A read of what was written, and a read elsewhere.
module _ (n : ℕ) (b : List ℕ) (off v : ℕ) (fits : off + n ≤ length b) where
  pub le_at-put_self : le_at n (put b off (to_le n v)) off ≡ ret (from_le (to_le n v))
  unfolding le_at
  le_at-put_self =
      let long : length (put b off (to_le n v)) ≡ length b =
        length-put b off (to_le n v) (omega (arith, length-to_le n v)) in
      let inside : leb (off + n) (length (put b off (to_le n v))) ≡ true = ground arith in
      rw inside (
        ap (λ l. ret (from_le l))
          (ap (λ m. slice off m (put b off (to_le n v))) (sym (length-to_le n v))
            ∙ slice-put_self b off (to_le n v) (omega (arith, length-to_le n v))))

  pub le_at-put_other :
      (m o : ℕ) → (o + m ≤ off) ⊎ (off + n ≤ o) → le_at m (put b off (to_le n v)) o ≡ le_at m b o
  unfolding le_at
  le_at-put_other m o apart =
      let long : length (put b off (to_le n v)) ≡ length b =
        length-put b off (to_le n v) (omega (arith, length-to_le n v)) in
      let same : slice o m (put b off (to_le n v)) ≡ slice o m b = elim apart [
        | inl below ↦ slice-put_before b off (to_le n v) o m (omega arith) below
        | inr above ↦
            slice-put_after b off (to_le n v) o m (omega (arith, length-to_le n v))
              (omega (arith, length-to_le n v))
      ] in
      rw (long, same) refl
