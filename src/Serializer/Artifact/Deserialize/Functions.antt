-- ===== src/Serializer/Artifact/Deserialize/Functions.antt =====
-- The functions of an artifact come back, their constants as words for the same data.
use eta.Prelude.{
  ℕ, zero, suc, ◌^◌, ◌<◌, ◌≡◌, refl, ap, ◌∙◌, ◌==◌, if◌then◌else◌, Bool, true, false, not, List, [],
  ◌∷◌, ◌++◌, map, length, length-map, All, arith,
}
use mathlib.Core.List.{append_assoc}
use eta.NanBox.{LispVal}
use eta.Ir.{Span}
use eta.Serializer.Stream.{
  ok, Reader, ◌>>=◌, write_u8, write_u32, write_str, write_each, read_str, read_times,
}
use eta.Serializer.Stream.RoundTrip.{
  read_u8-Trips, read_u32-Trips, read_str-Trips, read_times-Trips,
}
use eta.Serializer.Constants.Datum.{Data, count, format_data}
use eta.Serializer.Artifact.{BytecodeFunction}
use eta.Serializer.Artifact.Write.{
  write_list, write_instruction, write_span, debug_spans, spans_from,
}
use eta.Serializer.Artifact.Read.{read_instruction, read_span}
use eta.Serializer.Artifact.Deserialize.{read_function, read_spans_if}
use eta.Serializer.Artifact.Deserialize.Limits.{IsU32, IsShort, EachOf, InInstruction, InSpan}
use eta.Serializer.Artifact.Deserialize.Parts.{
  read_list-Trips, read_instruction-Trips, read_span-Trips, read_list_lem, write_list_lem,
}

abbrev pub without_offsets : Span → Span
without_offsets span = record {
  file_id = span.file_id;
  start = record { offset = 0; line = span.start.line; column = span.start.column };
  end_ = record { offset = 0; line = span.end_.line; column = span.end_.column };
}

-- The spans that the file keeps: one for each instruction if spans are written, and none if not.
unfoldable pub stored_spans : Bool → BytecodeFunction → List Span
stored_spans debug func = map without_offsets (debug_spans debug func)

-- A function as it comes back, its constants being `vs`.
abbrev pub reload : Bool → BytecodeFunction → List LispVal → BytecodeFunction
reload debug func vs = record func { source_map = stored_spans debug func; constants = vs }

abbrev pub function_head : BytecodeFunction → ℕ → List ℕ
function_head func n =
    write_str func.name
    ++ (write_u32 func.arity
        ++ (write_u8 (if func.has_rest then 1 else 0)
            ++ (write_u32 func.stack_size ++ write_u32 n)))

abbrev pub function_tail : Bool → BytecodeFunction → List ℕ
function_tail debug func =
    write_list write_instruction func.code
    ++ (write_each write_span (debug_spans debug func)
        ++ (write_list write_str func.local_names ++ write_list write_str func.upval_names))

pub record InFunction (debug : Bool) (func : BytecodeFunction) : Type 0 where
  pub name : IsShort func.name
  pub arity : IsU32 func.arity
  pub stack_size : IsU32 func.stack_size
  pub code : EachOf InInstruction func.code
  pub spans : All InSpan (stored_spans debug func)
  pub local_names : EachOf IsShort func.local_names
  pub upval_names : EachOf IsShort func.upval_names

length-spans_from : (spans : List Span) (pc n : ℕ) → length (spans_from spans pc n) ≡ n
unfolding spans_from
length-spans_from spans pc zero = refl
length-spans_from spans pc (suc n) = ap suc (length-spans_from spans (suc pc) n)

write_each-without_offsets :
    (spans : List Span)
    → write_each write_span spans ≡ write_each write_span (map without_offsets spans)
unfolding write_each write_span
write_each-without_offsets [] = refl
write_each-without_offsets (span ∷ spans) = rw (write_each-without_offsets spans)

has_rest-Trips : (b : Bool) → not ((if b then 1 else 0) == 0) ≡ b
has_rest-Trips true = refl
has_rest-Trips false = refl

flag-lt : (b : Bool) → (if b then 1 else 0) < 2 ^ 8
flag-lt true = omega arith
flag-lt false = omega arith

module _ {M : Type 0} where
  read_spans_lem :
      (debug : Bool) (func : BytecodeFunction) (m : M) (rest : List ℕ)
      → All InSpan (stored_spans debug func)
      → read_spans_if debug
          (length func.code)
          m
          (write_each write_span (debug_spans debug func) ++ rest)
        ≡ ok (stored_spans debug func, m, rest)
  unfolding read_spans_if stored_spans debug_spans write_each
  read_spans_lem false func m rest h = refl
  read_spans_lem true func m rest h =
      let spans = spans_from func.source_map 0 (length func.code) in
      let n : length (map without_offsets spans) ≡ length func.code =
        length-map spans without_offsets ∙ length-spans_from func.source_map 0 (length func.code) in
      let stored =
        read_times-Trips read_span write_span InSpan read_span-Trips (map without_offsets spans) h m
          rest in
      rw (write_each-without_offsets spans) (rw n at stored)

  pub read_function_lem :
      (read : Reader M LispVal) (debug : Bool) (func : BytecodeFunction) (ds : Data)
      (vs : List LispVal) (m m' : M) (rest : List ℕ)
      → InFunction debug func
      → count ds < 2 ^ 32
      → read_times read (count ds) m (format_data ds ++ (function_tail debug func ++ rest))
        ≡ ok (vs, m', function_tail debug func ++ rest)
      → read_function read debug m
          ((function_head func (count ds) ++ (format_data ds ++ function_tail debug func)) ++ rest)
        ≡ ok (reload debug func vs, m', rest)
  unfolding read_function
  read_function_lem read debug func ds vs m m' rest h small e =
      let e' = rw (write_list_lem write_instruction func.code h.code.0) at e in
      rw (write_list_lem write_instruction func.code h.code.0) (
        simp append_assoc (
          rw (
            read_str-Trips func.name h.name m _,
            ◌>>=◌,
            read_u32-Trips func.arity h.arity m _,
            read_u8-Trips (if func.has_rest then 1 else 0) (flag-lt func.has_rest) m _,
            read_u32-Trips func.stack_size h.stack_size m _,
            read_list_lem read (count ds) m _ small,
            simp append_assoc at e',
            read_u32-Trips (length func.code) h.code.0 m' _,
            read_times-Trips read_instruction write_instruction InInstruction read_instruction-Trips
                func.code h.code.1 m' _,
            read_spans_lem debug func m' _ h.spans,
            read_list-Trips read_str write_str IsShort read_str-Trips func.local_names h.local_names
                m' _,
            read_list-Trips read_str write_str IsShort read_str-Trips func.upval_names h.upval_names
                m' rest,
            has_rest-Trips func.has_rest,
          )))
