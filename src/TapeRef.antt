-- ===== src/TapeRef.antt =====
-- eta/core/src/eta/runtime/types/tape_ref.h: references into a tape, packed into the 47 digits of a
-- boxed payload.
pub mod RoundTrip
mod Tests
use eta.Prelude.{
  ℕ, ◌+◌, ◌-◌, ◌*◌, ◌/◌, ◌%◌, ◌^◌, Bool, ◌&&◌, ◌==◌, ltb, leb, if◌then◌else◌, bit_and, bit_or,
}
use eta.NanBox.{LispVal, Tag, box, is_boxed, has_tag, payload}

pub record Parts : Type 0 where
  pub tape_id : ℕ
  pub generation : ℕ
  pub node_index : ℕ

abbrev pub node_index_bits : ℕ
node_index_bits = 24

abbrev pub generation_bits : ℕ
generation_bits = 10

abbrev pub tape_id_bits : ℕ
tape_id_bits = 13

abbrev pub node_index_mask : ℕ
node_index_mask = 2 ^ node_index_bits - 1

abbrev pub generation_mask : ℕ
generation_mask = 2 ^ generation_bits - 1

abbrev pub tape_id_mask : ℕ
tape_id_mask = 2 ^ tape_id_bits - 1

abbrev pub max_generation : ℕ
max_generation = generation_mask

pub normalize_generation : ℕ → ℕ
normalize_generation generation =
    if generation == 0
    then 1
    else if ltb max_generation generation
    then generation % max_generation + 1
    else generation

pub next_generation : ℕ → ℕ
unfolding normalize_generation
next_generation generation =
    let current : ℕ = normalize_generation generation in
    if leb max_generation current then 1 else current + 1

pub encode_payload : ℕ → ℕ → ℕ → ℕ
encode_payload tape_id generation node_index =
    bit_or
      (bit_or (bit_and tape_id tape_id_mask * 2 ^ (node_index_bits + generation_bits) % 2 ^ 64)
        (bit_and (normalize_generation generation) generation_mask * 2 ^ node_index_bits % 2 ^ 64))
      (bit_and node_index node_index_mask)

pub decode_payload : ℕ → Parts
decode_payload p = record {
  tape_id = bit_and (p / 2 ^ (node_index_bits + generation_bits)) tape_id_mask;
  generation = normalize_generation (bit_and (p / 2 ^ node_index_bits) generation_mask);
  node_index = bit_and p node_index_mask;
}

pub is_tape_ref : LispVal → Bool
is_tape_ref value = has_tag Tag.tape_ref value

pub make : ℕ → ℕ → ℕ → LispVal
make tape_id generation node_index = box Tag.tape_ref (encode_payload tape_id generation node_index)

pub decode : LispVal → Parts
decode value = decode_payload (payload value)
