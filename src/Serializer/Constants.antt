-- ===== src/Serializer/Constants.antt =====
-- eta/core/src/eta/runtime/vm/bytecode_serializer.cpp, `write_constant`, `write_heap_value` and
-- `read_constant`. Both follow lists and vectors: fuel bounds how deep.

pub mod Codes
pub mod Datum
pub mod Written
pub mod ReadBack
pub mod Fuel
pub mod RoundTrip
pub mod Ends
use eta.Prelude.{
  ℕ, zero, suc, ◌%◌, ◌^◌, ltb, ◌==◌, Bool, if◌then◌else◌, List, [], ◌∷◌, ◌++◌, length, pos, Option,
  none, some,
}
use eta.NanBox as NanBox
use eta.NanBox.{
  LispVal, Tag, Expected, box, is_boxed, tag, payload, decode_int64, decode_char32, encode_int64,
  encode_double, encode_char32, nil_value, true_value, false_value, quiet_nan,
}
use eta.Bytecode.{encode_func_index, is_func_index, decode_func_index}
use eta.Serializer.Stream.{
  ok, unexpected, stuck, corrupt_constant, Reader, ◌>>=◌, ◌>>◌, done, fail, refuse_if, Text,
  write_u8, write_u32, write_u64, write_i64, write_f64, write_str, read_u8, read_u32, read_u64,
  read_i64, read_f64, read_str, read_times,
}
use eta.Serializer.Memory.{Memory}
use eta.Serializer.Constants.Codes.{
  ct_nil, ct_true, ct_fixnum, ct_double, ct_char, ct_string, ct_symbol, ct_func_index, ct_heap_cons,
  ct_heap_vec, ct_raw_bits, ct_heap_nil, ct_false,
}

-- `expected.value_or(d)`
abbrev pub value_or : {A : Type 0} → Expected A → A → A
value_or (NanBox.ok a) d = a
value_or (NanBox.unexpected e) d = d

abbrev pub text_or_empty : Option Text → Text
text_or_empty none = []
text_or_empty (some t) = t

-- Several writes, one after the other; `none` if one of them ran out of fuel.
infixr 65 ◌+++◌
abbrev pub ◌+++◌ : Option (List ℕ) → Option (List ℕ) → Option (List ℕ)
none +++ b = none
some a +++ none = none
some a +++ some b = some (a ++ b)

abbrev pub max_vec_len : ℕ
max_vec_len = 65535

-- A loop of writes.
module _ {A : Type 0} (w : A → Option (List ℕ)) where
  unfoldable pub write_all : List A → Option (List ℕ)
  write_all [] = some []
  write_all (a ∷ xs) = w a +++ write_all xs

module _ (memory : Memory) where
  open memory use {State, get_string, intern, get_cons, get_vector, make_cons, make_vector}

  -- The recursive calls are those of `write`.
  module _ (write : LispVal → Option (List ℕ)) (m : State) where
    unfoldable pub write_vector : LispVal → Option (List LispVal) → Option (List ℕ)
    write_vector v (some elements) =
        some (write_u8 ct_heap_vec)
        +++ some (write_u32 (length elements % 2 ^ 32))
        +++ write_all write elements
    write_vector v none = some (write_u8 ct_raw_bits) +++ some (write_u64 v)

    unfoldable pub write_heap_value : LispVal → Option (LispVal × LispVal) → Option (List ℕ)
    write_heap_value v (some (car, cdr)) = some (write_u8 ct_heap_cons) +++ write car +++ write cdr
    write_heap_value v none = write_vector v (get_vector m (payload v))

    -- `switch (tag)`
    pub write_boxed : LispVal → Tag → Option (List ℕ)
    write_boxed v Tag.fixnum =
        some (write_u8 ct_fixnum) +++ some (write_i64 (value_or (decode_int64 v) (pos 0)))
    write_boxed v Tag.char =
        some (write_u8 ct_char) +++ some (write_u32 (value_or (decode_char32 v) 0))
    write_boxed v Tag.string =
        some (write_u8 ct_string) +++ some (write_str (text_or_empty (get_string m (payload v))))
    write_boxed v Tag.symbol =
        some (write_u8 ct_symbol) +++ some (write_str (text_or_empty (get_string m (payload v))))
    write_boxed v Tag.heap_object = write_heap_value v (get_cons m (payload v))
    write_boxed v Tag.nan = some (write_u8 ct_double) +++ some (write_f64 quiet_nan)
    write_boxed v Tag.nil = some (write_u8 ct_nil)
    write_boxed v Tag.tape_ref = some (write_u8 ct_nil)

  pub write_constant : ℕ → State → LispVal → Option (List ℕ)
  write_constant zero m v = none
  write_constant (suc fuel) m v =
      if v == nil_value
      then some (write_u8 ct_nil)
      else if v == true_value
      then some (write_u8 ct_true)
      else if v == false_value
      then some (write_u8 ct_false)
      else if is_boxed v
      then write_boxed (write_constant fuel m) m v (tag v)
      else if is_func_index v
      then some (write_u8 ct_func_index) +++ some (write_u32 (decode_func_index v))
      else some (write_u8 ct_double) +++ some (write_f64 v)

  -- A value that cannot be encoded, or that the memory refuses, is a corrupt constant.
  abbrev pub encoded : {A : Type 0} → Expected A → Reader State A
  encoded (NanBox.ok a) = done a
  encoded (NanBox.unexpected e) = fail corrupt_constant

  abbrev pub stored : {A : Type 0} → (State → Option (A × State)) → Reader State A
  stored op m s = elim (op m) [ none ↦ unexpected corrupt_constant | some (a, m') ↦ ok (a, m', s) ]

  module _ (read : Reader State LispVal) where
    pub read_cons : Reader State LispVal
    read_cons = do car ← read; cdr ← read; stored (λ m. make_cons m car cdr)

    pub read_vector : Reader State LispVal
    read_vector = do
      len ← read_u32
      refuse_if (ltb max_vec_len len) corrupt_constant
      elements ← read_times read len
      stored (λ m. make_vector m elements)

    -- `switch (static_cast<ConstTag>(tag))`
    pub read_tagged : ℕ → Reader State LispVal
    read_tagged t =
        if t == ct_nil
        then done nil_value
        else if t == ct_true
        then done true_value
        else if t == ct_false
        then done false_value
        else if t == ct_fixnum
        then (do v ← read_i64; encoded (encode_int64 v))
        else if t == ct_double
        then (do v ← read_f64; encoded (encode_double v))
        else if t == ct_char
        then (do cp ← read_u32; encoded (encode_char32 cp))
        else if t == ct_string
        then (do text ← read_str; id ← stored (λ m. intern m text); done (box Tag.string id))
        else if t == ct_symbol
        then (do text ← read_str; id ← stored (λ m. intern m text); done (box Tag.symbol id))
        else if t == ct_func_index
        then (do index ← read_u32; done (encode_func_index index))
        else if t == ct_heap_cons
        then read_cons
        else if t == ct_heap_vec
        then read_vector
        else if t == ct_heap_nil
        then done nil_value
        else if t == ct_raw_bits
        then read_u64
        else fail corrupt_constant

  pub read_constant : ℕ → Reader State LispVal
  read_constant zero m s = stuck
  read_constant (suc fuel) m s = (read_u8 >>= read_tagged (read_constant fuel)) m s
