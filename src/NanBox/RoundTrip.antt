-- ===== src/NanBox/RoundTrip.antt =====
-- What `encode` and `decode` of runtime/nanbox.h do to each other.
use eta.Prelude.{
  ℕ, ◌/◌, ◌%◌, ◌-◌, ◌^◌, ◌≤◌, ◌<◌, ◌≡◌, true, false, refl, ◌==◌, ◌||◌, Bool-cases, inl, inr, ltb_ℤ,
  arith, bit_and_low, bit_or_shifted_right, bit_and, ◌&&◌, Bool, pos, negsuc, bit_and_upper, ℤ,
  pos_part, neg_part, IsInt64, to_u64, ltb, leb, leb_ℤ, if◌then◌else◌,
}
use eta.NanBox.{
  LispVal, Expected, NanBoxError, Tag, tag_code, fixnum, char, nan, ok, decode_char8, encode_char8,
  encode_uint64, decode_uint64, ◌>>=◌, payload_mask, unexpected, out_of_range, invalid_tag, box,
  is_boxed, payload, is_nan, sign_extend_fixnum, fixnum_min, fixnum_max, unicode_max, quiet_nan,
  encode_double, decode_double, encode_char32, decode_char32, encode_int64, decode_int64,
  encode_small, decode_int32,
}
use eta.NanBox.Layout.{box_fields, is_boxed_iff, box_as_sum}

is_nan_lem : (b : ℕ) → is_nan b ≡ true → (b / 2 ^ 52 % 2 ^ 11 ≡ 2047) × (0 < b % 2 ^ 52)
unfolding is_nan
is_nan_lem b h = ground (arith, bit_and_low 11 (b / 2 ^ 52), bit_and_low 52 b)

nan_lem : (b : ℕ) → b / 2 ^ 52 % 2 ^ 11 ≡ 2047 → 0 < b % 2 ^ 52 → is_nan b ≡ true
unfolding is_nan
nan_lem b e h = ground (arith, bit_and_low 11 (b / 2 ^ 52), bit_and_low 52 b)

-- Only a NaN can look like a boxed word.
pub is_nan_of_boxed : (b : ℕ) → is_boxed b ≡ true → is_nan b ≡ true
is_nan_of_boxed b h =
    nan_lem b (omega (arith, (is_boxed_iff b).0 h)) (omega (arith, (is_boxed_iff b).0 h))

sign_extend_lem :
    (p : ℕ)
    → p < 2 ^ 47
    → sign_extend_fixnum p ≡ (if ltb p (2 ^ 46) then pos p else negsuc (2 ^ 47 - p - 1))
unfolding sign_extend_fixnum
sign_extend_lem p h = ground (
  arith,
  bit_and_upper 46 (p / 2 ^ 46) (p % 2 ^ 46) 1,
  bit_and_low 1 (p / 2 ^ 46),
  bit_or_shifted_right 47 (2 ^ 17 - 1) p,
)

abbrev pub in_fixnum_range : ℤ → Bool
in_fixnum_range i = leb_ℤ fixnum_min i && leb_ℤ i fixnum_max

low_payload : (t : Tag) (p : ℕ) → payload (box t (bit_and p payload_mask)) ≡ p % 2 ^ 47
low_payload t p = omega (arith, bit_and_low 47 p, (box_fields t (bit_and p payload_mask)).2)

decode_boxed_fixnum : (p : ℕ) → decode_int64 (box fixnum p) ≡ ok (sign_extend_fixnum (p % 2 ^ 47))
unfolding decode_int64
decode_boxed_fixnum p = let f = box_fields fixnum p in rw (f.0, f.1, f.2)

-- A 64-bit integer comes back from its box exactly in the fixnum range, and is refused outside.
pub decode-encode_int64 :
    (i : ℤ)
    → IsInt64 i
    → (encode_int64 i >>= decode_int64)
      ≡ (if in_fixnum_range i then ok i else unexpected out_of_range)
unfolding encode_int64
decode-encode_int64 i h = ground (
  arith,
  decode_boxed_fixnum (bit_and (to_u64 i) payload_mask),
  bit_and_low 47 (to_u64 i),
  sign_extend_lem (to_u64 i % 2 ^ 47),
)

-- A double comes back bit for bit, unless it is a NaN, which comes back as the quiet NaN.
pub decode-encode_double :
    (b : ℕ) → (encode_double b >>= decode_double) ≡ (if is_nan b then ok quiet_nan else ok b)
unfolding encode_double decode_double
decode-encode_double b = ground (arith, is_nan_of_boxed b, box_fields nan 0)

-- A code point comes back exactly up to U+10FFFF.
pub decode-encode_char32 :
    (c : ℕ)
    → (encode_char32 c >>= decode_char32)
      ≡ (if leb c unicode_max then ok c else unexpected out_of_range)
unfolding encode_char32 decode_char32
decode-encode_char32 c = ground (arith, box_fields char c)

-- A 32-bit integer has the same box as the same number at 64 bits, and comes back from it.
pub encode_int32_agrees :
    (i : ℤ)
    → pos_part i < 2 ^ 31
    → neg_part i ≤ 2 ^ 31
    → (encode_small i ≡ encode_int64 i) × ((encode_small i >>= decode_int32) ≡ ok i)
unfolding encode_small encode_int64 decode_int32
encode_int32_agrees i hi lo = ground (
  arith,
  box_as_sum fixnum (to_u64 i),
  box_as_sum fixnum (bit_and (to_u64 i) payload_mask),
  bit_and_low 47 (to_u64 i),
  box_fields fixnum (to_u64 i),
)

abbrev pub RefusedByInts : Expected LispVal → NanBoxError → Type 0
RefusedByInts encoded e =
    ((encoded >>= decode_int64) ≡ unexpected e)
    × ((encoded >>= decode_uint64) ≡ unexpected e)
    × ((encoded >>= decode_int32) ≡ unexpected e)

abbrev pub RefusedByChars : Expected LispVal → NanBoxError → Type 0
RefusedByChars encoded e =
    ((encoded >>= decode_char8) ≡ unexpected e) × ((encoded >>= decode_char32) ≡ unexpected e)

abbrev pub RefusedByDouble : Expected LispVal → NanBoxError → Type 0
RefusedByDouble encoded e = (encoded >>= decode_double) ≡ unexpected e

-- Where decoding fails, given that encoding succeeds or not.
abbrev pub mismatch : Bool → NanBoxError
mismatch fits = if fits then invalid_tag else out_of_range

boxed-RefusedByInts :
    (t : Tag) (p : ℕ) → (tag_code t == 2) ≡ false → RefusedByInts (ok (box t p)) invalid_tag
unfolding decode_int64 decode_uint64 decode_int32
boxed-RefusedByInts t p other = let f = box_fields t p in rw (f.0, f.1, other) (refl, refl, refl)

boxed-RefusedByChars :
    (t : Tag) (p : ℕ) → (tag_code t == 1) ≡ false → RefusedByChars (ok (box t p)) invalid_tag
unfolding decode_char8 decode_char32
boxed-RefusedByChars t p other = let f = box_fields t p in rw (f.0, f.1, other) (refl, refl)

boxed-RefusedByDouble :
    (t : Tag) (p : ℕ) → (tag_code t == 5) ≡ false → RefusedByDouble (ok (box t p)) invalid_tag
unfolding decode_double
boxed-RefusedByDouble t p other = let f = box_fields t p in rw (f.0, f.1, other) refl

double-RefusedByInts : (b : ℕ) → RefusedByInts (encode_double b) invalid_tag
unfolding encode_double decode_int64 decode_uint64 decode_int32
double-RefusedByInts b = elim (Bool-cases (is_nan b)) [
  | inl is ↦ rw is (boxed-RefusedByInts nan 0 refl)
  | inr plain_word ↦
      let plain : is_boxed b ≡ false = ground (arith, is_nan_of_boxed b) in
      rw (plain_word, plain) (refl, refl, refl)
]

double-RefusedByChars : (b : ℕ) → RefusedByChars (encode_double b) invalid_tag
unfolding encode_double decode_char8 decode_char32
double-RefusedByChars b = elim (Bool-cases (is_nan b)) [
  | inl is ↦ rw is (boxed-RefusedByChars nan 0 refl)
  | inr plain_word ↦
      let plain : is_boxed b ≡ false = ground (arith, is_nan_of_boxed b) in
      rw (plain_word, plain) (refl, refl)
]

-- What one type has encoded, no decoder for another tag decodes: doubles are refused by the decoders
-- of characters and of integers, characters by those of integers and of doubles, and integers, of
-- every width, by those of characters and of doubles. The decoding fails with `InvalidTag`, where
-- the encoding has not failed before with `OutOfRange`.
pub decode_mismatch :
    (b c n : ℕ) (i : ℤ)
    → (RefusedByInts (encode_double b) invalid_tag × RefusedByChars (encode_double b) invalid_tag)
      × (RefusedByInts (encode_char8 c) invalid_tag × RefusedByDouble (encode_char8 c) invalid_tag)
      × (RefusedByInts (encode_char32 c) (mismatch (leb c unicode_max))
          × RefusedByDouble (encode_char32 c) (mismatch (leb c unicode_max)))
      × (RefusedByChars (encode_int64 i) (mismatch (in_fixnum_range i))
          × RefusedByDouble (encode_int64 i) (mismatch (in_fixnum_range i)))
      × (RefusedByChars (encode_uint64 n) (mismatch (ltb n (2 ^ 46)))
          × RefusedByDouble (encode_uint64 n) (mismatch (ltb n (2 ^ 46))))
      × (RefusedByChars (encode_small i) invalid_tag × RefusedByDouble (encode_small i) invalid_tag)
unfolding encode_char8 encode_char32 encode_int64 encode_uint64 encode_small
decode_mismatch b c n i =
    let p = bit_and (to_u64 i) payload_mask in
    let q = bit_and n payload_mask in
    (
      (double-RefusedByInts b, double-RefusedByChars b),
      (boxed-RefusedByInts char (c % 2 ^ 8) refl, boxed-RefusedByDouble char (c % 2 ^ 8) refl),
      elim (Bool-cases (leb c unicode_max)) [
        | inl fits ↦
            let below : ltb unicode_max c ≡ false = ground arith in
            rw (fits, below) (boxed-RefusedByInts char c refl, boxed-RefusedByDouble char c refl)
        | inr beyond ↦
            let above : ltb unicode_max c ≡ true = ground arith in
            rw (beyond, above) ((refl, refl, refl), refl)
      ],
      elim (Bool-cases (in_fixnum_range i)) [
        | inl fits ↦
            let inside : (ltb_ℤ i fixnum_min || ltb_ℤ fixnum_max i) ≡ false = ground arith in
            rw (fits, inside)
              (boxed-RefusedByChars fixnum p refl, boxed-RefusedByDouble fixnum p refl)
        | inr beyond ↦
            let outside : (ltb_ℤ i fixnum_min || ltb_ℤ fixnum_max i) ≡ true = ground arith in
            rw (beyond, outside) ((refl, refl), refl)
      ],
      elim (Bool-cases (ltb n (2 ^ 46))) [
        | inl fits ↦
            let below : ltb (to_u64 fixnum_max) n ≡ false = ground arith in
            rw (fits, below)
              (boxed-RefusedByChars fixnum q refl, boxed-RefusedByDouble fixnum q refl)
        | inr beyond ↦
            let above : ltb (to_u64 fixnum_max) n ≡ true = ground arith in
            rw (beyond, above) ((refl, refl), refl)
      ],
      (boxed-RefusedByChars fixnum (to_u64 i) refl, boxed-RefusedByDouble fixnum (to_u64 i) refl),
    )
