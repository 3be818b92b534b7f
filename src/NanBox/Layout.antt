-- ===== src/NanBox/Layout.antt =====
-- The fields of a boxed word: thirteen marker digits, three digits of tag, 47 digits of payload.
use eta.Prelude.{
  ℕ, ◌+◌, ◌*◌, ◌/◌, ◌%◌, ◌^◌, ◌<◌, ◌≡◌, ap, ◌∙◌, true, arith, ◌↔◌, bit_or_shifted, bit_and_low,
  bit_and_upper,
}
use eta.NanBox.{Tag, tag_code, tag_of_code, box, is_boxed, tag, payload}

tag_code-lt : (t : Tag) → tag_code t < 8
tag_code-lt t = ground arith

tag_code-tag_of_code : (n : ℕ) → n < 8 → tag_code (tag_of_code n) ≡ n
tag_code-tag_of_code n h = ground arith

pub tag_of_code-tag_code : (t : Tag) → tag_of_code (tag_code t) ≡ t
tag_of_code-tag_code t = ground arith

pub box_as_sum : (t : Tag) (p : ℕ) → box t p ≡ 8191 * 2 ^ 50 + tag_code t * 2 ^ 47 + p % 2 ^ 47
unfolding box
box_as_sum t p = ground (
  arith,
  tag_code-lt t,
  bit_or_shifted 50 8191 (tag_code t * 2 ^ 47),
  bit_and_low 47 p,
  bit_or_shifted 47 (8191 * 8 + tag_code t) (p % 2 ^ 47),
)

pub is_boxed_iff : (v : ℕ) → (is_boxed v ≡ true) ↔ (v / 2 ^ 50 % 2 ^ 13 ≡ 8191)
unfolding is_boxed
is_boxed_iff v =
    ground (arith, bit_and_upper 50 (v / 2 ^ 50) (v % 2 ^ 50) 8191, bit_and_low 13 (v / 2 ^ 50))

pub tag_as_code : (v : ℕ) → tag v ≡ tag_of_code (v / 2 ^ 47 % 8)
unfolding tag
tag_as_code v = ap tag_of_code (bit_and_low 3 (v / 2 ^ 47))

pub payload_as_rest : (v : ℕ) → payload v ≡ v % 2 ^ 47
unfolding payload
payload_as_rest v = bit_and_low 47 v

-- A boxed word is recognised as one, and gives back its tag and the low 47 digits of its payload,
-- whatever the tag and the payload are; its sign bit is clear.
pub box_fields :
    (t : Tag) (p : ℕ)
    → (is_boxed (box t p) ≡ true)
      × (tag (box t p) ≡ t)
      × (payload (box t p) ≡ p % 2 ^ 47)
      × (box t p < 2 ^ 63)
box_fields t p =
    let sum = box_as_sum t p in
    let small = tag_code-lt t in
    let middle : box t p / 2 ^ 47 % 8 ≡ tag_code t = omega (arith, sum, small) in
    (
      (is_boxed_iff (box t p)).1 (omega (arith, sum, small)),
      tag_as_code (box t p) ∙ ap tag_of_code middle ∙ tag_of_code-tag_code t,
      payload_as_rest (box t p) ∙ omega (arith, sum, small),
      omega (arith, sum, small),
    )

-- Every boxed word with a clear sign bit is the box of its own tag and payload.
pub box_of_fields : (v : ℕ) → v < 2 ^ 63 → is_boxed v ≡ true → box (tag v) (payload v) ≡ v
box_of_fields v h b =
    box_as_sum (tag v) (payload v)
    ∙ omega (
      arith,
      payload_as_rest v,
      (is_boxed_iff v).0 b,
      ap tag_code (tag_as_code v),
      tag_code-tag_of_code (v / 2 ^ 47 % 8) (omega arith),
    )
