-- ===== src/Serializer/Constants/Datum.antt =====
-- What a constant stands for, apart from the words that hold it: data without addresses. `format` is
-- the file format of a datum, `Shows` says that a word stands for one in a memory.
use eta.Prelude.{
  ℕ, zero, suc, ◌+◌, ◌^◌, ◌≤◌, ◌<◌, max, ◌≡◌, false, List, [], ◌∷◌, ◌++◌, length, ℤ, ◌≤ℤ◌, some,
  none, arith,
}
use eta.NanBox as NanBox
use eta.NanBox.{
  LispVal, Tag, box, is_nan, quiet_nan, encode_int64, encode_double, encode_char32, fixnum_min,
  fixnum_max, unicode_max, nil_value, true_value, false_value,
}
use eta.Bytecode.{encode_func_index, is_func_index}
use eta.Serializer.Stream.{
  Text, write_u8, write_u32, write_i64, write_f64, write_str, max_string_len,
}
use eta.Serializer.Memory.{Memory}
use eta.Serializer.Constants.{max_vec_len}
use eta.Serializer.Constants.Codes.{
  ct_nil, ct_true, ct_fixnum, ct_double, ct_char, ct_string, ct_symbol, ct_func_index, ct_heap_cons,
  ct_heap_vec, ct_false,
}

mutual
  pub data Datum : Type 0 where
    nil true_ false_ nan : Datum
    fixnum : ℤ → Datum
    double : ℕ → Datum
    char : ℕ → Datum
    string : Text → Datum
    symbol : Text → Datum
    func_index : ℕ → Datum
    cons : Datum → Datum → Datum
    vector : Data → Datum

  pub data Data : Type 0 where
    end : Data
    item : Datum → Data → Data

abbrev pub count : Data → ℕ
count end = 0
count (item d ds) = suc (count ds)

unfoldable mutual
  pub format : Datum → List ℕ
  format nil = write_u8 ct_nil
  format true_ = write_u8 ct_true
  format false_ = write_u8 ct_false
  format nan = write_u8 ct_double ++ write_f64 quiet_nan
  format (fixnum i) = write_u8 ct_fixnum ++ write_i64 i
  format (double b) = write_u8 ct_double ++ write_f64 b
  format (char c) = write_u8 ct_char ++ write_u32 c
  format (string t) = write_u8 ct_string ++ write_str t
  format (symbol t) = write_u8 ct_symbol ++ write_str t
  format (func_index i) = write_u8 ct_func_index ++ write_u32 i
  format (cons a d) = write_u8 ct_heap_cons ++ (format a ++ format d)
  format (vector ds) = write_u8 ct_heap_vec ++ (write_u32 (count ds) ++ format_data ds)

  pub format_data : Data → List ℕ
  format_data end = []
  format_data (item d ds) = format d ++ format_data ds

-- How deep the recursion goes.
unfoldable mutual
  pub depth : Datum → ℕ
  depth (cons a d) = suc (max (depth a) (depth d))
  depth (vector ds) = suc (depth_data ds)
  depth _ = 1

  pub depth_data : Data → ℕ
  depth_data end = 0
  depth_data (item d ds) = max (depth d) (depth_data ds)

-- How many strings and objects a datum takes.
unfoldable mutual
  pub cost : Datum → ℕ
  cost (cons a d) = suc (cost a + cost d)
  cost (vector ds) = suc (cost_data ds)
  cost (string t) = 1
  cost (symbol t) = 1
  cost _ = 0

  pub cost_data : Data → ℕ
  cost_data end = 0
  cost_data (item d ds) = cost d + cost_data ds

-- The limits of words and of the format. A double whose pattern is that of a function index does
-- not count: the word stands for the index.
unfoldable mutual
  pub Fits : Datum → Type 0
  Fits (fixnum i) = (fixnum_min ≤ℤ i) × (i ≤ℤ fixnum_max)
  Fits (double b) = (b < 2 ^ 64) × (is_nan b ≡ false) × (is_func_index b ≡ false)
  Fits (char c) = c ≤ unicode_max
  Fits (func_index i) = i < 2 ^ 32
  Fits (string t) = length t ≤ max_string_len
  Fits (symbol t) = length t ≤ max_string_len
  Fits (cons a d) = Fits a × Fits d
  Fits (vector ds) = (count ds ≤ max_vec_len) × FitsData ds
  Fits _ = Unit

  pub FitsData : Data → Type 0
  FitsData end = Unit
  FitsData (item d ds) = Fits d × FitsData ds

module _ (memory : Memory) where
  open memory use {State, get_string, get_cons, get_vector}

  unfoldable mutual
    pub Shows : State → LispVal → Datum → Type 0
    Shows m v nil = v ≡ nil_value
    Shows m v true_ = v ≡ true_value
    Shows m v false_ = v ≡ false_value
    Shows m v nan = v ≡ box Tag.nan 0
    Shows m v (fixnum i) = encode_int64 i ≡ NanBox.ok v
    Shows m v (double b) = v ≡ b
    Shows m v (char c) = encode_char32 c ≡ NanBox.ok v
    Shows m v (string t) =
        (id : ℕ) × (v ≡ box Tag.string id) × (id < 2 ^ 47) × (get_string m id ≡ some t)
    Shows m v (symbol t) =
        (id : ℕ) × (v ≡ box Tag.symbol id) × (id < 2 ^ 47) × (get_string m id ≡ some t)
    Shows m v (func_index i) = v ≡ encode_func_index i
    Shows m v (cons a d) =
        (id : ℕ) × (car : LispVal) × (cdr : LispVal) × (v ≡ box Tag.heap_object id)
        × (id < 2 ^ 47)
        × (get_cons m id ≡ some (car, cdr))
        × Shows m car a
        × Shows m cdr d
    Shows m v (vector ds) =
        (id : ℕ) × (elements : List LispVal) × (v ≡ box Tag.heap_object id)
        × (id < 2 ^ 47)
        × (get_cons m id ≡ none)
        × (get_vector m id ≡ some elements)
        × ShowsEach m elements ds

    pub ShowsEach : State → List LispVal → Data → Type 0
    ShowsEach m [] end = Unit
    ShowsEach m [] (item d ds) = ⊥
    ShowsEach m (v ∷ vs) end = ⊥
    ShowsEach m (v ∷ vs) (item d ds) = Shows m v d × ShowsEach m vs ds

depth_pos : (d : Datum) → 1 ≤ depth d
unfolding depth
depth_pos (cons a d) = omega arith
depth_pos (vector ds) = omega arith
depth_pos _ = omega arith

-- Enough fuel for some datum is a successor.
pub spend :
    (P : ℕ → Type 0) (d : Datum)
    → ((fuel : ℕ) → depth d ≤ suc fuel → P (suc fuel))
    → (fuel : ℕ) → depth d ≤ fuel
    → P fuel
spend P d k zero h = absurd (omega (arith, depth_pos d))
spend P d k (suc fuel) h = k fuel h
