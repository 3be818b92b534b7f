-- ===== src/NanBox/Shape.antt =====
-- Of what form the words are that `encode` returns.
use eta.Prelude.{
  ℕ, ◌^◌, ◌<◌, ◌≤◌, ◌≡◌, refl, false, bit_and, ℤ, pos, negsuc, ◌≤ℤ◌, IsInt64, to_u64, arith,
}
use eta.NanBox.{
  LispVal, ok, fixnum, char, box, encode_int64, decode_int64, encode_char32, decode_char32,
  payload_mask, fixnum_min, fixnum_max, unicode_max, is_nan, nan, quiet_nan, encode_double,
}
use eta.NanBox.Layout.{box_fields}
use eta.NanBox.RoundTrip.{decode-encode_int64}

pub fixnum_shape :
    (i : ℤ) (v : LispVal)
    → IsInt64 i
    → encode_int64 i ≡ ok v
    → (v ≡ box fixnum (bit_and (to_u64 i) payload_mask)) × (decode_int64 v ≡ ok i)
unfolding encode_int64
fixnum_shape i v h e = (ground arith, ground (arith, decode-encode_int64 i h))

pub char_shape :
    (c : ℕ) (v : LispVal)
    → encode_char32 c ≡ ok v
    → (v ≡ box char c) × (decode_char32 v ≡ ok c) × (c < 2 ^ 32)
unfolding encode_char32 decode_char32
char_shape c v e = (ground arith, ground (arith, box_fields char c), ground arith)

pub fixnum-IsInt64 : (i : ℤ) → fixnum_min ≤ℤ i → i ≤ℤ fixnum_max → IsInt64 i
fixnum-IsInt64 (pos n) lo hi = omega arith
fixnum-IsInt64 (negsuc n) lo hi = omega arith

-- In range, encoding succeeds.
pub encode_int64_fits :
    (i : ℤ) → fixnum_min ≤ℤ i → i ≤ℤ fixnum_max → (v : LispVal) × (encode_int64 i ≡ ok v)
unfolding encode_int64
encode_int64_fits i lo hi = (box fixnum (bit_and (to_u64 i) payload_mask), ground arith)

pub encode_char32_fits : (c : ℕ) → c ≤ unicode_max → encode_char32 c ≡ ok (box char c)
unfolding encode_char32
encode_char32_fits c h = ground arith

pub encode_double_fits : (b : ℕ) → is_nan b ≡ false → encode_double b ≡ ok b
unfolding encode_double
encode_double_fits b h = rw h

pub encode_double-quiet_nan : encode_double quiet_nan ≡ ok (box nan 0)
unfolding encode_double is_nan
encode_double-quiet_nan = refl
