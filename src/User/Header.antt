-- ===== src/User/Header.antt =====
-- The search of src/user.rs for the header of a program in its image.
use pinx_kernel.Prelude.{
  ℕ, zero, suc, ◌+◌, ◌-◌, ◌≤◌, ◌<◌, ◌≡◌, ◌≢◌, ap, arith, Bool, false, ◌==◌, ltb, if_elim, List,
  length, slice, dec_lt,
}
use mathlib.Core.Path.{subst}
use pinx_kernel.Prelude.Run.{Run, ret}
use pinx_kernel.Prelude.Bytes.{bytes_eq, bytes_eq-eq, bytes_eq_refl, from_le, le_at}
use pinx_kernel.User.{find_from, find_header, read_u32, header_size}

-- How a search for the magic from `i` on ends: the magic stands nowhere where a header would fit,
-- and the answer is no; or it stands first at `j`, and the version behind it decides.
pub data Search (image magic : List ℕ) (version i : ℕ) : Run Bool → Type 0 where
  absent :
      ((j : ℕ) → i ≤ j → j + header_size ≤ length image → slice j (length magic) image ≢ magic)
      → Search image magic version i (ret false)
  first :
      (j : ℕ)
      → i ≤ j
      → j + header_size ≤ length image
      → slice j (length magic) image ≡ magic
      → ((l : ℕ) → i ≤ l → l < j → slice l (length magic) image ≢ magic)
      → Search image magic version i (ret (from_le (slice (j + length magic) 4 image) == version))

module _ (image magic : List ℕ) (version : ℕ) (twelve : length magic ≡ 12) where
  later :
      (i : ℕ) {r : Run Bool}
      → slice i (length magic) image ≢ magic
      → Search image magic version (i + 1) r
      → Search image magic version i r
  later i ne (absent none) = absent (λ j l fits e. elim (dec_lt i j) [
    | yes above ↦ none j (omega arith) fits e
    | no here ↦
        let same : j ≡ i = omega arith in
        ne (subst (λ x. slice x (length magic) image ≡ magic) same e)
  ])
  later i ne (first j l fits e before) = first j (omega arith) fits e (λ x a b p.
      elim (dec_lt i x) [
        | yes above ↦ before x (omega arith) b p
        | no here ↦
            let same : x ≡ i = omega arith in
            ne (subst (λ y. slice y (length magic) image ≡ magic) same p)
      ])

  read_u32_lem :
      (i : ℕ)
      → i + 16 ≤ length image
      → read_u32 image (i + length magic) ≡ ret (from_le (slice (i + length magic) 4 image))
  unfolding read_u32 le_at
  read_u32_lem i fits = ground arith

  find_from-Search :
      (left i : ℕ)
      → i + left + 15 ≡ length image
      → Search image magic version i (find_from left image magic version i)
  unfolding find_from
  find_from-Search zero i e = absent (λ j l fits p. omega arith)
  find_from-Search (suc left) i e =
      if_elim (Search image magic version i) (bytes_eq (slice i (length magic) image) magic)
        (λ here. rw (read_u32_lem i (omega arith)) (
          first i (omega arith) (omega arith) (bytes_eq-eq _ _ here)
            (λ l a b. absurd (omega arith))))
        (λ other.
          later i (λ p. cc (bytes_eq_refl magic, ap (λ x. bytes_eq x magic) p, other))
            (find_from-Search left (i + 1) (omega arith)))

  -- With a magic of 12 bytes, `find_header` always answers, and never reads outside the image: no,
  -- when the magic stands nowhere where a header fits; otherwise whether the 32-bit version behind
  -- its first occurrence is the one asked for.
  pub find_header-Search : Search image magic version 0 (find_header image magic version)
  unfolding find_header
  find_header-Search =
      if_elim (Search image magic version 0) (ltb (length image) header_size)
        (λ short. absent (λ j l fits p. ground arith))
        (λ fits. find_from-Search (length image - 15) 0 (ground arith))
