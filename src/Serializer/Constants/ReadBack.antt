-- ===== src/Serializer/Constants/ReadBack.antt =====
-- `read_constant` reads the format of a datum as a word that stands for it.
pub mod Parts
use eta.Prelude.{
  ℕ, zero, suc, ◌+◌, ◌^◌, ◌≤◌, ◌<◌, ◌≡◌, refl, ◌∙◌, false, List, [], ◌∷◌, ◌++◌, length, some, none,
  arith, ltb,
}
use mathlib.Core.List.{append_assoc}
use eta.NanBox as NanBox
use eta.NanBox.{LispVal, Tag, box, nil_value, true_value, false_value, quiet_nan, encode_int64}
use eta.NanBox.Shape.{
  fixnum-IsInt64, encode_int64_fits, encode_char32_fits, encode_double_fits,
  encode_double-quiet_nan,
}
use eta.Bytecode.{encode_func_index}
use eta.Serializer.Stream.{
  ok, Reader, ◌>>=◌, Text, write_u8, write_u32, write_i64, write_f64, write_str, read_times,
}
use eta.Serializer.Stream.RoundTrip.{
  read_u8-Trips, read_u32-Trips, read_i64-Trips, read_f64-Trips, read_str-Trips,
}
use eta.Serializer.Memory.{Memory, IsLawful, Grows, Grows-refl, Grows-trans}
use eta.Serializer.Constants.{
  read_constant, read_tagged, read_cons, read_vector, stored, max_vec_len,
}
use eta.Serializer.Constants.ReadBack.Parts.{
  read_head, read_body, cons_back, vector_back, item_back, ReadsBack, ReadsEachBack,
}
use eta.Serializer.Constants.Codes.{
  ct_nil, ct_true, ct_false, ct_fixnum, ct_double, ct_char, ct_string, ct_symbol, ct_func_index,
  ct_heap_cons, ct_heap_vec,
}
use eta.Serializer.Constants.Datum.{
  Datum, Data, nil, true_, false_, nan, fixnum, double, char, string, symbol, func_index, cons,
  vector, end, item, count, format, format_data, depth, depth_data, cost, cost_data, Shows,
  ShowsEach, Fits, FitsData, spend,
}

module _ (memory : Memory) (lawful : IsLawful memory) where
  open memory use {State}
  open lawful use {room, intern_lem}

  mutual
    unfolding Shows ShowsEach Fits FitsData format format_data depth depth_data cost cost_data
        read_tagged read_cons read_vector read_times

    reads :
        (d : Datum) (m : State) (rest : List ℕ) (fuel : ℕ)
        → depth d ≤ suc fuel
        → Fits d
        → cost d ≤ room m
        → ReadsBack memory lawful (suc fuel) d m rest
    reads nil m rest fuel h f r = (
      nil_value,
      m,
      read_head memory fuel ct_nil m rest (omega arith),
      refl,
      Grows-refl memory m,
      omega arith,
    )
    reads true_ m rest fuel h f r = (
      true_value,
      m,
      read_head memory fuel ct_true m rest (omega arith),
      refl,
      Grows-refl memory m,
      omega arith,
    )
    reads false_ m rest fuel h f r = (
      false_value,
      m,
      read_head memory fuel ct_false m rest (omega arith),
      refl,
      Grows-refl memory m,
      omega arith,
    )
    reads nan m rest fuel h f r = (
      box Tag.nan 0,
      m,
      read_body memory fuel ct_double (write_f64 quiet_nan) m rest (omega arith)
          ∙ rw (read_f64-Trips quiet_nan (omega arith) m rest, ◌>>=◌, encode_double-quiet_nan),
      refl,
      Grows-refl memory m,
      omega arith,
    )
    reads (fixnum i) m rest fuel h f r =
        let (v, e) = encode_int64_fits i f.0 f.1 in
        (
          v,
          m,
          read_body memory fuel ct_fixnum (write_i64 i) m rest (omega arith)
              ∙ rw (read_i64-Trips i (fixnum-IsInt64 i f.0 f.1) m rest, ◌>>=◌, e),
          e,
          Grows-refl memory m,
          omega arith,
        )
    reads (double b) m rest fuel h f r = (
      b,
      m,
      read_body memory fuel ct_double (write_f64 b) m rest (omega arith)
          ∙ rw (read_f64-Trips b f.0 m rest, ◌>>=◌, encode_double_fits b f.1),
      refl,
      Grows-refl memory m,
      omega arith,
    )
    reads (char c) m rest fuel h f r = (
      box Tag.char c,
      m,
      read_body memory fuel ct_char (write_u32 c) m rest (omega arith)
          ∙ rw (read_u32-Trips c (omega arith) m rest, ◌>>=◌, encode_char32_fits c f),
      encode_char32_fits c f,
      Grows-refl memory m,
      omega arith,
    )
    reads (string t) m rest fuel h f r =
        let (id, m', e, l, g, grows, left) = intern_lem m t r in
        (
          box Tag.string id,
          m',
          read_body memory fuel ct_string (write_str t) m rest (omega arith)
              ∙ rw (read_str-Trips t f m rest, ◌>>=◌, e),
          (id, refl, l, g),
          grows,
          left,
        )
    reads (symbol t) m rest fuel h f r =
        let (id, m', e, l, g, grows, left) = intern_lem m t r in
        (
          box Tag.symbol id,
          m',
          read_body memory fuel ct_symbol (write_str t) m rest (omega arith)
              ∙ rw (read_str-Trips t f m rest, ◌>>=◌, e),
          (id, refl, l, g),
          grows,
          left,
        )
    reads (func_index i) m rest fuel h f r = (
      encode_func_index i,
      m,
      read_body memory fuel ct_func_index (write_u32 i) m rest (omega arith)
          ∙ rw (read_u32-Trips i f m rest, ◌>>=◌),
      refl,
      Grows-refl memory m,
      omega arith,
    )
    reads (cons a d) m rest fuel h f r =
        cons_back memory lawful fuel a d m rest r
          (spend (λ n. ReadsBack memory lawful n a m (format d ++ rest)) a
            (λ n p. reads a m (format d ++ rest) n p f.0 (omega arith)) fuel (omega arith))
          (λ m1 r1.
            spend (λ n. ReadsBack memory lawful n d m1 rest) d
              (λ n p. reads d m1 rest n p f.1 (omega arith)) fuel (omega arith))
    reads (vector ds) m rest fuel h f r =
        vector_back memory lawful fuel ds m rest f.0 r
          (reads_each ds m rest fuel (omega arith) f.1 (omega arith))

    pub reads_each :
        (ds : Data) (m : State) (rest : List ℕ) (fuel : ℕ)
        → depth_data ds ≤ fuel
        → FitsData ds
        → cost_data ds ≤ room m
        → ReadsEachBack memory lawful fuel ds m rest
    reads_each end m rest fuel h f r = ([], m, refl, tt, Grows-refl memory m, omega arith)
    reads_each (item d ds) m rest fuel h f r =
        item_back memory lawful fuel d ds m rest
          (spend (λ n. ReadsBack memory lawful n d m (format_data ds ++ rest)) d
            (λ n p. reads d m (format_data ds ++ rest) n p f.0 (omega arith)) fuel (omega arith))
          (λ m1 r1. reads_each ds m1 rest fuel (omega arith) f.1 (omega arith))

  -- With fuel for its depth and room for its parts, a datum within the limits of the format is
  -- read back from its format: the stream is left at what follows, the word stands for the datum,
  -- and nothing stored before is gone.
  pub read_constant_lem :
      (d : Datum) (m : State) (rest : List ℕ) (fuel : ℕ)
      → depth d ≤ fuel
      → Fits d
      → cost d ≤ room m
      → ReadsBack memory lawful fuel d m rest
  read_constant_lem d m rest fuel h f r =
      spend (λ n. ReadsBack memory lawful n d m rest) d (λ n p. reads d m rest n p f r) fuel h
