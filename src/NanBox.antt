-- ===== src/NanBox.antt =====
-- eta/core/src/eta/runtime/nanbox.h: the 64-bit NaN-boxed value. A double is its IEEE-754 bit
-- pattern.
pub mod Layout
pub mod RoundTrip
pub mod Shape
mod Tests
use eta.Prelude.{
  ℕ, ◌-◌, ◌*◌, ◌/◌, ◌%◌, ◌^◌, bit_and, bit_or, Bool, not, ◌&&◌, ◌||◌, ◌==◌, ltb, if◌then◌else◌, ℤ,
  pos, negsuc, to_u64, to_i64, ltb_ℤ,
}

abbrev pub LispVal : Type 0
LispVal = ℕ

pub data Tag : Type 0 where
  nil char fixnum string symbol nan heap_object tape_ref : Tag

pub data NanBoxError : Type 0 where
  invalid_tag out_of_range : NanBoxError

-- `std::expected<A, NaNBoxError>`
pub data Expected {ℓ} (A : Type ℓ) : Type ℓ where
  ok : A → Expected A
  unexpected : NanBoxError → Expected A

infixl 5 ◌>>=◌
abbrev pub ◌>>=◌ {ℓ κ} : {A : Type ℓ} {B : Type κ} → Expected A → (A → Expected B) → Expected B
ok a >>= f = f a
unexpected e >>= f = unexpected e

abbrev pub tag_shift : ℕ
tag_shift = 47

abbrev pub tag_mask : ℕ
tag_mask = 0x07

abbrev pub mantissa_mask : ℕ
mantissa_mask = 0x000fffffffffffff

abbrev pub payload_mask : ℕ
payload_mask = 0x00007fffffffffff

-- `x << k` on `uint64_t`
abbrev pub shl64 : ℕ → ℕ → ℕ
shl64 x k = x * 2 ^ k % 2 ^ 64

abbrev pub qnan_exp_bits : ℕ
qnan_exp_bits = shl64 0x7ff 52

abbrev pub qnan_bit : ℕ
qnan_bit = shl64 1 51

abbrev pub marker_bit : ℕ
marker_bit = shl64 1 50

abbrev pub boxed_pattern_mask : ℕ
boxed_pattern_mask = bit_or (bit_or qnan_exp_bits qnan_bit) marker_bit

abbrev pub fixnum_min : ℤ
fixnum_min = negsuc (2 ^ 46 - 1)

abbrev pub fixnum_max : ℤ
fixnum_max = pos (2 ^ 46 - 1)

abbrev pub unicode_max : ℕ
unicode_max = 0x10ffff

abbrev pub fixnum_sign_bit : ℕ
fixnum_sign_bit = shl64 1 46

-- `~PAYLOAD_MASK`
abbrev pub fixnum_sign_extend_mask : ℕ
fixnum_sign_extend_mask = 2 ^ 64 - 1 - payload_mask

-- `static_cast<uint64_t>(tag)`
abbrev pub tag_code : Tag → ℕ
tag_code nil = 0
tag_code char = 1
tag_code fixnum = 2
tag_code string = 3
tag_code symbol = 4
tag_code nan = 5
tag_code heap_object = 6
tag_code tape_ref = 7

-- `static_cast<Tag>` of a number below 8
abbrev pub tag_of_code : ℕ → Tag
tag_of_code n =
    if n == 0
    then nil
    else if n == 1
    then char
    else if n == 2
    then fixnum
    else if n == 3
    then string
    else if n == 4
    then symbol
    else if n == 5
    then nan
    else if n == 6
    then heap_object
    else tape_ref

unfoldable pub box : Tag → ℕ → LispVal
box t p = bit_or (bit_or boxed_pattern_mask (shl64 (tag_code t) tag_shift)) (bit_and p payload_mask)

pub is_boxed : ℕ → Bool
is_boxed bits = bit_and bits boxed_pattern_mask == boxed_pattern_mask

pub tag : LispVal → Tag
tag value = tag_of_code (bit_and (value / 2 ^ tag_shift) tag_mask)

pub payload : LispVal → ℕ
payload value = bit_and value payload_mask

pub sign_extend_fixnum : ℕ → ℤ
sign_extend_fixnum raw =
    if not (bit_and raw fixnum_sign_bit == 0)
    then to_i64 (bit_or raw fixnum_sign_extend_mask)
    else to_i64 raw

-- `std::isnan` on the bit pattern: exponent all ones and a mantissa that is not zero.
unfoldable pub is_nan : ℕ → Bool
is_nan b = (bit_and (b / 2 ^ 52) 0x7ff == 0x7ff) && not (bit_and b mantissa_mask == 0)

-- `std::numeric_limits<double>::quiet_NaN()`
abbrev pub quiet_nan : ℕ
quiet_nan = bit_or qnan_exp_bits qnan_bit

-- The branches of `encode<T>`, one for each kind of `T`.
pub encode_double : ℕ → Expected LispVal
encode_double bits = if is_nan bits then ok (box nan 0) else ok bits

pub encode_char8 : ℕ → Expected LispVal
encode_char8 c = ok (box char (c % 2 ^ 8))

pub encode_char32 : ℕ → Expected LispVal
encode_char32 codepoint =
    if ltb unicode_max codepoint then unexpected out_of_range else ok (box char codepoint)

pub encode_int64 : ℤ → Expected LispVal
encode_int64 value =
    if ltb_ℤ value fixnum_min || ltb_ℤ fixnum_max value
    then unexpected out_of_range
    else ok (box fixnum (bit_and (to_u64 value) payload_mask))

pub encode_uint64 : ℕ → Expected LispVal
encode_uint64 value =
    if ltb (to_u64 fixnum_max) value
    then unexpected out_of_range
    else ok (box fixnum (bit_and value payload_mask))

-- An integral type of fewer than eight bytes, its value as an integer.
pub encode_small : ℤ → Expected LispVal
encode_small value = ok (box fixnum (to_u64 value))

abbrev pub same_tag : Tag → Tag → Bool
same_tag s t = tag_code s == tag_code t

-- The test that every branch of `decode<T>` but that of `double` begins with.
abbrev pub has_tag : Tag → LispVal → Bool
has_tag t value = is_boxed value && same_tag (tag value) t

pub decode_double : LispVal → Expected ℕ
decode_double value =
    if is_boxed value
    then (if same_tag (tag value) nan then ok quiet_nan else unexpected invalid_tag)
    else ok value

pub decode_char8 : LispVal → Expected ℕ
decode_char8 value =
    if has_tag char value then ok (bit_and (payload value) 0xff) else unexpected invalid_tag

pub decode_char32 : LispVal → Expected ℕ
decode_char32 value =
    if has_tag char value then ok (payload value % 2 ^ 32) else unexpected invalid_tag

pub decode_int64 : LispVal → Expected ℤ
decode_int64 value =
    if has_tag fixnum value then ok (sign_extend_fixnum (payload value)) else unexpected invalid_tag

pub decode_uint64 : LispVal → Expected ℕ
decode_uint64 value = if has_tag fixnum value then ok (payload value) else unexpected invalid_tag

-- `static_cast<int32_t>` of a `uint64_t`
abbrev pub to_i32 : ℕ → ℤ
to_i32 w = let m = w % 2 ^ 32 in if ltb m (2 ^ 31) then pos m else negsuc (2 ^ 32 - m - 1)

pub decode_int32 : LispVal → Expected ℤ
decode_int32 value =
    if has_tag fixnum value then ok (to_i32 (payload value)) else unexpected invalid_tag

abbrev pub nil_value : LispVal
nil_value = box nil 0

abbrev pub true_value : LispVal
true_value = box nil 1

abbrev pub false_value : LispVal
false_value = box nil 2
