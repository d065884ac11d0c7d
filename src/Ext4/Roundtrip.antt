-- ===== src/Ext4/Roundtrip.antt =====
-- An extent that src/ext4.rs writes, read back.
use pinx_kernel.Prelude.{
  ℕ, ◌+◌, ◌*◌, ◌/◌, ◌%◌, ◌^◌, ◌≤◌, ◌<◌, ◌≡◌, ◌≢◌, ◌⊎◌, inl, inr, refl, ap, ◌∙◌, arith, false, not,
  ◌==◌, ◌||◌, ltb, if◌then◌else◌, Option, none, some, List, length, dec_lt, bit_and, bit_or, ◌<<<◌,
  ◌>>>◌,
}
use pinx_kernel.Prelude.Run.{ret, Returns}
use pinx_kernel.Prelude.Bits.{bit_above, bit_top}
use pinx_kernel.Prelude.Masks.{or_fields}
use pinx_kernel.Pmm.Words.{and_pow}
use pinx_kernel.Prelude.Bytes.{le_at, from_le, to_le, length-to_le}
use pinx_kernel.Ext4.{put_le16, put_le32, le16, le32, rd_extent, wr_extent}
use pinx_kernel.Ext4.Codec.{put, length-put, put_le-put, le_at-put_self, le_at-put_other}

low_32 : (v : ℕ) → from_le (to_le 4 v) ≡ v % 2 ^ 32
unfolding from_le to_le
low_32 v = omega arith

low_16 : (v : ℕ) → from_le (to_le 2 v) ≡ v % 2 ^ 16
unfolding from_le to_le
low_16 v = omega arith

-- The slot of the extent `i`.
abbrev slot : ℕ → ℕ → ℕ
slot base i = base + 12 + 12 * i

module _ (b : List ℕ) (o eb elen pblock : ℕ) (fits : o + 12 ≤ length b) where
  b1 : List ℕ
  b1 = put b o (to_le 4 eb)

  b2 : List ℕ
  b2 = put b1 (o + 4) (to_le 2 elen)

  b3 : List ℕ
  b3 = put b2 (o + 6) (to_le 2 (pblock >>> 32))

  b4 : List ℕ
  b4 = put b3 (o + 8) (to_le 4 pblock)

  length1 : length b1 ≡ length b
  unfolding b1
  length1 = length-put b o (to_le 4 eb) (omega (arith, length-to_le 4 eb))

  length2 : length b2 ≡ length b
  unfolding b2
  length2 =
      length-put b1 (o + 4) (to_le 2 elen) (omega (arith, length1, length-to_le 2 elen)) ∙ length1

  length3 : length b3 ≡ length b
  unfolding b3
  length3 =
      length-put b2 (o + 6) (to_le 2 (pblock >>> 32))
        (omega (arith, length2, length-to_le 2 (pblock >>> 32)))
      ∙ length2

  length4 : length b4 ≡ length b
  unfolding b4
  length4 =
      length-put b3 (o + 8) (to_le 4 pblock) (omega (arith, length3, length-to_le 4 pblock))
      ∙ length3

  other : (m p : ℕ) → (p + m ≤ o) ⊎ (o + 12 ≤ p) → le_at m b4 p ≡ le_at m b p
  unfolding b1 b2 b3 b4
  other m p apart =
      le_at-put_other 4 b3 (o + 8) pblock (omega (arith, length3)) m p (near 8 4 (omega arith))
      ∙ le_at-put_other 2 b2 (o + 6) (pblock >>> 32) (omega (arith, length2)) m p
          (near 6 2 (omega arith))
      ∙ le_at-put_other 2 b1 (o + 4) elen (omega (arith, length1)) m p (near 4 2 (omega arith))
      ∙ le_at-put_other 4 b o eb (omega arith) m p (near0 apart)
    where
      near : (at n : ℕ) → at + n ≤ 12 → (p + m ≤ o + at) ⊎ (o + at + n ≤ p)
      near at n l = elim apart [ inl x ↦ inl (omega arith) | inr y ↦ inr (omega arith) ]

      near0 : (p + m ≤ o) ⊎ (o + 12 ≤ p) → (p + m ≤ o) ⊎ (o + 4 ≤ p)
      near0 (inl x) = inl x
      near0 (inr y) = inr (omega arith)

  field_eb : le_at 4 b4 o ≡ ret (eb % 2 ^ 32)
  unfolding b1 b2 b3 b4
  field_eb =
      le_at-put_other 4 b3 (o + 8) pblock (omega (arith, length3)) 4 o (inl (omega arith))
      ∙ le_at-put_other 2 b2 (o + 6) (pblock >>> 32) (omega (arith, length2)) 4 o
          (inl (omega arith))
      ∙ le_at-put_other 2 b1 (o + 4) elen (omega (arith, length1)) 4 o (inl (omega arith))
      ∙ le_at-put_self 4 b o eb (omega arith)
      ∙ ap ret (low_32 eb)

  field_elen : le_at 2 b4 (o + 4) ≡ ret (elen % 2 ^ 16)
  unfolding b2 b3 b4
  field_elen =
      le_at-put_other 4 b3 (o + 8) pblock (omega (arith, length3)) 2 (o + 4) (inl (omega arith))
      ∙ le_at-put_other 2 b2 (o + 6) (pblock >>> 32) (omega (arith, length2)) 2 (o + 4)
          (inl (omega arith))
      ∙ le_at-put_self 2 b1 (o + 4) elen (omega (arith, length1))
      ∙ ap ret (low_16 elen)

  field_high : le_at 2 b4 (o + 6) ≡ ret (pblock / 2 ^ 32 % 2 ^ 16)
  unfolding b3 b4
  field_high =
      le_at-put_other 4 b3 (o + 8) pblock (omega (arith, length3)) 2 (o + 6) (inl (omega arith))
      ∙ le_at-put_self 2 b2 (o + 6) (pblock >>> 32) (omega (arith, length2))
      ∙ ap ret (low_16 (pblock >>> 32))

  field_low : le_at 4 b4 (o + 8) ≡ ret (pblock % 2 ^ 32)
  unfolding b4
  field_low = le_at-put_self 4 b3 (o + 8) pblock (omega (arith, length3)) ∙ ap ret (low_32 pblock)

-- What `rd_extent` makes of the fields.
abbrev decode : (eb elen high low : ℕ) → Option (ℕ × ℕ × ℕ)
decode eb elen high low =
    if not (bit_and elen 0x8000 == 0) || elen == 0
    then none
    else some (eb, elen, bit_or (high <<< 32) low)

rd_extent_fields :
    (b : List ℕ) (base i eb elen high low : ℕ)
    → slot base i + 12 ≤ length b
    → le_at 4 b (slot base i) ≡ ret eb
    → le_at 2 b (slot base i + 4) ≡ ret elen
    → le_at 2 b (slot base i + 6) ≡ ret high
    → le_at 4 b (slot base i + 8) ≡ ret low
    → rd_extent b base i ≡ ret (decode eb elen high low)
unfolding rd_extent le16 le32
rd_extent_fields b base i eb elen high low fits e1 e2 e3 e4 =
    let test : ltb (length b) (slot base i + 12) ≡ false = ground arith in
    rw (test, e1, e2, e3, e4) refl

wr_extent_lem :
    (b : List ℕ) (base i eb elen pblock : ℕ) (fits : slot base i + 12 ≤ length b)
    → wr_extent b base i eb elen pblock ≡ ret (b4 b (slot base i) eb elen pblock fits)
unfolding wr_extent put_le16 put_le32 b1 b2 b3 b4
wr_extent_lem b base i eb elen pblock fits =
    let o : ℕ = slot base i in
    let p1 = put_le-put 4 b o eb (omega arith) in
    let p2 =
      put_le-put 2 (b1 b o eb elen pblock fits) (o + 4) elen
        (omega (arith, length1 b o eb elen pblock fits)) in
    let p3 =
      put_le-put 2 (b2 b o eb elen pblock fits) (o + 6) (pblock >>> 32)
        (omega (arith, length2 b o eb elen pblock fits)) in
    let p4 =
      put_le-put 4 (b3 b o eb elen pblock fits) (o + 8) pblock
        (omega (arith, length3 b o eb elen pblock fits)) in
    rw (p1, p2, p3, p4) refl

unwritten_flag :
    (elen : ℕ) → elen < 2 ^ 16 → bit_and elen 0x8000 ≡ (if ltb elen (2 ^ 15) then 0 else 2 ^ 15)
unwritten_flag elen h = elim (dec_lt elen (2 ^ 15)) [
  | yes l ↦ and_pow elen 15 ∙ ground (arith, bit_above 15 elen 15 l (omega arith))
  | no g ↦ and_pow elen 15 ∙ ground (arith, bit_top 15 elen (omega arith) (omega arith))
]

decode_fields :
    (eb elen pblock : ℕ)
    → eb < 2 ^ 32
    → 0 < elen
    → elen < 2 ^ 16
    → pblock < 2 ^ 48
    → decode (eb % 2 ^ 32) (elen % 2 ^ 16) (pblock / 2 ^ 32 % 2 ^ 16) (pblock % 2 ^ 32)
      ≡ (if ltb elen 0x8000 then some (eb, elen, pblock) else none)
decode_fields eb elen pblock he pos hl hp =
    let e1 : eb % 2 ^ 32 ≡ eb = omega arith in
    let e2 : elen % 2 ^ 16 ≡ elen = omega arith in
    let e3 : pblock / 2 ^ 32 % 2 ^ 16 ≡ pblock / 2 ^ 32 = omega arith in
    let whole : bit_or (pblock / 2 ^ 32 * 2 ^ 32) (pblock % 2 ^ 32) ≡ pblock =
      or_fields 32 (pblock / 2 ^ 32) (pblock % 2 ^ 32) (omega arith) ∙ omega arith in
    rw (e1, e2, e3, whole, unwritten_flag elen hl) (ground arith)

-- What a block holds after `wr_extent`: the new extent at its place, as `rd_extent` gives it, and
-- every other extent as before; the block keeps its length.
pub record Holds (b : List ℕ) (base i : ℕ) (e : Option (ℕ × ℕ × ℕ)) (b' : List ℕ) : Type 0 where
  pub here : rd_extent b' base i ≡ ret e
  pub elsewhere : (j : ℕ) → j ≢ i → rd_extent b' base j ≡ rd_extent b base j
  pub same_length : length b' ≡ length b

rd_extent_same :
    (b b' : List ℕ) (base j : ℕ)
    → length b' ≡ length b
    → ((m p : ℕ) → slot base j ≤ p → p + m ≤ slot base j + 12 → le_at m b' p ≡ le_at m b p)
    → rd_extent b' base j ≡ rd_extent b base j
unfolding rd_extent le16 le32
rd_extent_same b b' base j l same =
    rw
      (
        same 4 (slot base j) (omega arith) (omega arith),
        same 2 (slot base j + 4) (omega arith) (omega arith),
        same 2 (slot base j + 6) (omega arith) (omega arith),
        same 4 (slot base j + 8) (omega arith) (omega arith),
        l,
      )
      refl

-- With room for it in the block, fields of 32, 16 and 48 bits and a length above 0, `wr_extent`
-- writes the extent: `rd_extent` gives it back, or nothing when the length is 32768 or more, and
-- gives every other extent as before.
pub wr_extent-Holds :
    (b : List ℕ) (base i eb elen pblock : ℕ)
    → base + 12 + 12 * i + 12 ≤ length b
    → eb < 2 ^ 32
    → 0 < elen
    → elen < 2 ^ 16
    → pblock < 2 ^ 48
    → Returns
        (Holds b base i (if ltb elen 0x8000 then some (eb, elen, pblock) else none))
        (wr_extent b base i eb elen pblock)
wr_extent-Holds b base i eb elen pblock fits he pos hl hp =
    rw (wr_extent_lem b base i eb elen pblock fits) (record {
      here =
          rd_extent_fields after base i _ _ _ _
            (omega (arith, length4 b (slot base i) eb elen pblock fits))
            (field_eb b (slot base i) eb elen pblock fits)
            (field_elen b (slot base i) eb elen pblock fits)
            (field_high b (slot base i) eb elen pblock fits)
            (field_low b (slot base i) eb elen pblock fits)
          ∙ ap ret (decode_fields eb elen pblock he pos hl hp);
      elsewhere = λ j ne.
          rd_extent_same b after base j (length4 b (slot base i) eb elen pblock fits)
            (λ m p lo hi. other b (slot base i) eb elen pblock fits m p (apart j ne m p lo hi));
      same_length = length4 b (slot base i) eb elen pblock fits;
    })
  where
    after : List ℕ
    after = b4 b (slot base i) eb elen pblock fits

    apart :
        (j : ℕ)
        → j ≢ i
        → (m p : ℕ) → slot base j ≤ p
        → p + m ≤ slot base j + 12
        → (p + m ≤ slot base i) ⊎ (slot base i + 12 ≤ p)
    apart j ne m p lo hi = elim (dec_lt j i) [
      | yes below ↦ inl (omega arith)
      | no above ↦
          let ne' : i < j = elim (dec_lt i j) [
            | yes x ↦ x
            | no y ↦ let same : j ≡ i = omega arith in absurd (ne same)
          ] in
          inr (omega arith)
    ]
