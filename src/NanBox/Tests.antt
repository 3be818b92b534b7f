-- ===== src/NanBox/Tests.antt =====
-- Runs of the theorems on runtime/nanbox.h at concrete values.
use eta.Prelude.{◌≡◌, refl, leb, ltb, ◌^◌, if◌then◌else◌, pos, negsuc, arith}
use eta.NanBox.{
  box, is_boxed, tag, payload, is_nan, quiet_nan, ◌>>=◌, encode_int64, decode_int64, encode_double,
  decode_double, encode_char32, encode_char8, decode_char8, encode_uint64, decode_uint64,
  decode_char32, encode_small, decode_int32, unicode_max,
}
use eta.NanBox.Expected.{ok, unexpected}
use eta.NanBox.NanBoxError.{invalid_tag, out_of_range}
use eta.NanBox.RoundTrip.{
  in_fixnum_range, decode-encode_int64, decode-encode_double, decode-encode_char32,
  encode_int32_agrees, decode_mismatch, RefusedByInts, RefusedByChars, RefusedByDouble, mismatch,
}

decode-encode_int64_example :
    (encode_int64 (negsuc 41) >>= decode_int64)
    ≡ (if in_fixnum_range (negsuc 41) then ok (negsuc 41) else unexpected out_of_range)
decode-encode_int64_example = decode-encode_int64 (negsuc 41) (omega arith, omega arith)

decode-encode_double_example :
    (encode_double 0x7ff8000000000001 >>= decode_double)
    ≡ (if is_nan 0x7ff8000000000001 then ok quiet_nan else ok 0x7ff8000000000001)
decode-encode_double_example = decode-encode_double 0x7ff8000000000001

decode-encode_char32_test :
    (encode_char32 0x1f600 >>= decode_char32)
    ≡ (if leb 0x1f600 unicode_max then ok 0x1f600 else unexpected out_of_range)
decode-encode_char32_test = decode-encode_char32 0x1f600

encode_int32_agrees_test :
    (encode_small (pos 7) ≡ encode_int64 (pos 7))
    × ((encode_small (pos 7) >>= decode_int32) ≡ ok (pos 7))
encode_int32_agrees_test = encode_int32_agrees (pos 7) (omega arith) (omega arith)

decode_mismatch_example :
    (RefusedByInts (encode_double 0) invalid_tag × RefusedByChars (encode_double 0) invalid_tag)
    × (RefusedByInts (encode_char8 65) invalid_tag × RefusedByDouble (encode_char8 65) invalid_tag)
    × (RefusedByInts (encode_char32 65) (mismatch (leb 65 unicode_max))
        × RefusedByDouble (encode_char32 65) (mismatch (leb 65 unicode_max)))
    × (RefusedByChars (encode_int64 (pos 3)) (mismatch (in_fixnum_range (pos 3)))
        × RefusedByDouble (encode_int64 (pos 3)) (mismatch (in_fixnum_range (pos 3))))
    × (RefusedByChars (encode_uint64 9) (mismatch (ltb 9 (2 ^ 46)))
        × RefusedByDouble (encode_uint64 9) (mismatch (ltb 9 (2 ^ 46))))
    × (RefusedByChars (encode_small (pos 3)) invalid_tag
        × RefusedByDouble (encode_small (pos 3)) invalid_tag)
decode_mismatch_example = decode_mismatch 0 65 9 (pos 3)

-- Bytes and unsigned integers come back as well.
byte_test : (encode_char8 321 >>= decode_char8) ≡ ok 65
unfolding encode_char8 decode_char8 box is_boxed tag payload
byte_test = refl

unsigned_test : (encode_uint64 99 >>= decode_uint64) ≡ ok 99
unfolding encode_uint64 decode_uint64 box is_boxed tag payload
unsigned_test = refl
