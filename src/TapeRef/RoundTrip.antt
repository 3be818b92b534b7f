-- ===== src/TapeRef/RoundTrip.antt =====
-- Packing and unpacking of runtime/types/tape_ref.h.
use eta.Prelude.{
  ℕ, ◌+◌, ◌*◌, ◌/◌, ◌%◌, ◌^◌, ◌≤◌, ◌<◌, ◌≡◌, ◌≢◌, refl, ap, ◌∙◌, true, bit_and, bit_or,
  bit_or_shifted, bit_and_low, arith,
}
use mathlib.Core.Path.{ap₂}
use eta.NanBox.{Tag}
use eta.NanBox.Layout.{box_fields}
use eta.TapeRef.{
  normalize_generation, next_generation, encode_payload, decode_payload, is_tape_ref, make, decode,
  node_index_mask, generation_mask, tape_id_mask, max_generation,
}

normalized : (g : ℕ) → 0 < normalize_generation g × normalize_generation g ≤ max_generation
unfolding normalize_generation
normalized g = (ground arith, ground arith)

packed :
    (t g n : ℕ)
    → encode_payload t g n ≡ t % 2 ^ 13 * 2 ^ 34 + normalize_generation g * 2 ^ 24 + n % 2 ^ 24
unfolding encode_payload
packed t g n =
    let (positive, bounded) = normalized g in
    let q : ℕ = normalize_generation g in
    let high : bit_and t tape_id_mask * 2 ^ 34 % 2 ^ 64 ≡ t % 2 ^ 13 * 2 ^ 34 =
      ap (λ x. x * 2 ^ 34 % 2 ^ 64) (bit_and_low 13 t) ∙ omega arith in
    let mid : bit_and q generation_mask * 2 ^ 24 % 2 ^ 64 ≡ q * 2 ^ 24 =
      ap (λ x. x * 2 ^ 24 % 2 ^ 64) (bit_and_low 10 q) ∙ omega (arith, bounded) in
    let both : bit_or (t % 2 ^ 13 * 2 ^ 34) (q * 2 ^ 24) ≡ (t % 2 ^ 13 * 2 ^ 10 + q) * 2 ^ 24 =
      bit_or_shifted 34 (t % 2 ^ 13) (q * 2 ^ 24) (omega (arith, bounded)) ∙ omega arith in
    ap₂ bit_or (ap₂ bit_or high mid ∙ both) (bit_and_low 24 n)
    ∙ bit_or_shifted 24 (t % 2 ^ 13 * 2 ^ 10 + q) (n % 2 ^ 24) (omega arith)
    ∙ omega arith

normalize_id : (g : ℕ) → 0 < g → g ≤ max_generation → normalize_generation g ≡ g
unfolding normalize_generation
normalize_id g h k = ground arith

unpacked :
    (t g n : ℕ)
    → t < 2 ^ 13
    → 0 < g
    → g ≤ max_generation
    → n < 2 ^ 24
    → decode_payload (t * 2 ^ 34 + g * 2 ^ 24 + n)
      ≡ record { tape_id = t; generation = g; node_index = n }
unfolding decode_payload
unpacked t g n ht hg kg hn =
    let p : ℕ = t * 2 ^ 34 + g * 2 ^ 24 + n in
    let top : bit_and (p / 2 ^ 34) tape_id_mask ≡ t = bit_and_low 13 (p / 2 ^ 34) ∙ omega arith in
    let mid : bit_and (p / 2 ^ 24) generation_mask ≡ g =
      bit_and_low 10 (p / 2 ^ 24) ∙ omega arith in
    let bottom : bit_and p node_index_mask ≡ n = bit_and_low 24 p ∙ omega arith in
    λ i. record {
      tape_id = top i;
      generation = (ap normalize_generation mid ∙ normalize_id g hg kg) i;
      node_index = bottom i;
    }

-- A reference made of a tape id, a generation and a node index is recognised, and gives back the
-- low digits of the id and of the index and the normalized generation.
pub decode-make :
    (t g n : ℕ)
    → (is_tape_ref (make t g n) ≡ true)
      × (decode (make t g n) ≡ record {
        tape_id = t % 2 ^ 13;
        generation = normalize_generation g;
        node_index = n % 2 ^ 24;
      })
unfolding make decode is_tape_ref
decode-make t g n =
    let (boxed, tagged, low, top) = box_fields Tag.tape_ref (encode_payload t g n) in
    let (positive, bounded) = normalized g in
    let fits : encode_payload t g n % 2 ^ 47
        ≡ t % 2 ^ 13 * 2 ^ 34 + normalize_generation g * 2 ^ 24 + n % 2 ^ 24 =
      ap (λ x. x % 2 ^ 47) (packed t g n) ∙ omega (arith, bounded) in
    (
      rw (boxed, tagged) refl,
      ap decode_payload (low ∙ fits)
          ∙ unpacked (t % 2 ^ 13) (normalize_generation g) (n % 2 ^ 24) (omega arith) positive
              bounded (omega arith),
    )

-- The generation after one is in range, is already normalized, and differs from that one.
pub next_generation_lem :
    (g : ℕ)
    → (normalize_generation (next_generation g) ≡ next_generation g)
      × (next_generation g ≢ normalize_generation g)
unfolding next_generation normalize_generation
next_generation_lem g = (ground arith, ground arith)
