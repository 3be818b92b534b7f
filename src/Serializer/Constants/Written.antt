-- ===== src/Serializer/Constants/Written.antt =====
-- `write_constant` writes the format of the datum that the word stands for.
use eta.Prelude.{
  ℕ, suc, ◌%◌, ◌^◌, ◌≤◌, ◌<◌, ◌≡◌, refl, sym, ap, ◌∙◌, false, ◌==◌, ==_iff, List, [], ◌∷◌, ◌++◌,
  length, some, arith, if◌then◌else◌, bit_and, to_u64, Bool-cases, inl, inr,
}
use eta.NanBox.{
  LispVal, Tag, box, tag, payload, is_boxed, is_nan, nil_value, true_value, false_value,
  payload_mask,
}
use eta.NanBox.Layout.{box_fields}
use eta.NanBox.Shape.{fixnum_shape, char_shape, fixnum-IsInt64}
use eta.NanBox.RoundTrip.{is_nan_of_boxed}
use eta.Bytecode.{encode_func_index, is_func_index, decode_func_index}
use eta.Serializer.Memory.{Memory}
use eta.Serializer.Constants.{
  write_constant, write_boxed, write_heap_value, write_vector, write_all, max_vec_len,
}
use eta.Serializer.Constants.Datum.{
  Datum, Data, nil, true_, false_, nan, fixnum, double, char, string, symbol, func_index, cons,
  vector, end, item, count, format, format_data, depth, depth_data, Shows, ShowsEach, Fits,
  FitsData, spend,
}
use eta.Serializer.Constants.Codes.{ct_nil, ct_true, ct_false, ct_func_index, ct_double}
use eta.Serializer.Stream.{write_u8, write_u32, write_f64}
use eta.Bytecode.FuncIndex.{decode-encode_func_index}

-- A box is none of the sentinels, unless its tag is `Nil`.
not_sentinel : (t : Tag) (p : ℕ) (q : ℕ) → (t ≡ Tag.nil → ⊥) → (box t p == box Tag.nil q) ≡ false
not_sentinel t p q h = elim (Bool-cases (box t p == box Tag.nil q)) [
  | inl e ↦
      absurd (h (sym (box_fields t p).1 ∙ ap tag ((==_iff _ _).0 e) ∙ (box_fields Tag.nil q).1))
  | inr e ↦ e
]

payload-box : (t : Tag) (id : ℕ) → id < 2 ^ 47 → payload (box t id) ≡ id
payload-box t id h = omega (arith, (box_fields t id).2)

small : (n : ℕ) → n ≤ max_vec_len → n % 2 ^ 32 ≡ n
small n h = omega arith

pub length-ShowsEach :
    (memory : Memory) (m : memory.State) (vs : List LispVal) (ds : Data)
    → ShowsEach memory m vs ds
    → length vs ≡ count ds
unfolding ShowsEach
length-ShowsEach memory m [] end s = refl
length-ShowsEach memory m [] (item d ds) s = absurd s
length-ShowsEach memory m (v ∷ vs) end s = absurd s
length-ShowsEach memory m (v ∷ vs) (item d ds) s = ap suc (length-ShowsEach memory m vs ds s.1)

module _ (memory : Memory) where
  open memory use {State, get_string, get_cons, get_vector}

  -- A boxed word goes through the switch over its tag.
  write_box :
      (fuel : ℕ) (m : State) (t : Tag) (p : ℕ)
      → (t ≡ Tag.nil → ⊥)
      → write_constant memory (suc fuel) m (box t p)
        ≡ write_boxed memory (write_constant memory fuel m) m (box t p) t
  unfolding write_constant
  write_box fuel m t p h = rw (
    not_sentinel t p 0 h,
    not_sentinel t p 1 h,
    not_sentinel t p 2 h,
    (box_fields t p).0,
    (box_fields t p).1,
  )

  -- A word that is no box is a function index or a double.
  write_unboxed :
      (fuel : ℕ) (m : State) (v : LispVal)
      → is_boxed v ≡ false
      → write_constant memory (suc fuel) m v
        ≡ some (
            if is_func_index v
            then write_u8 ct_func_index ++ write_u32 (decode_func_index v)
            else write_u8 ct_double ++ write_f64 v)
  unfolding write_constant
  write_unboxed fuel m v h =
      ground (arith, box_fields Tag.nil 0, box_fields Tag.nil 1, box_fields Tag.nil 2)

  write_sentinels :
      (fuel : ℕ) (m : State)
      → (write_constant memory (suc fuel) m nil_value ≡ some (write_u8 ct_nil))
        × (write_constant memory (suc fuel) m true_value ≡ some (write_u8 ct_true))
        × (write_constant memory (suc fuel) m false_value ≡ some (write_u8 ct_false))
  unfolding write_constant box
  write_sentinels fuel m = (refl, refl, refl)

  written_double :
      (fuel : ℕ) (m : State) (b : ℕ)
      → is_nan b ≡ false
      → is_func_index b ≡ false
      → write_constant memory (suc fuel) m b ≡ some (write_u8 ct_double ++ write_f64 b)
  written_double fuel m b n i =
      let e : is_boxed b ≡ false = ground (arith, is_nan_of_boxed b) in
      write_unboxed fuel m b e ∙ rw i

  written_func_index :
      (fuel : ℕ) (m : State) (i : ℕ)
      → i < 2 ^ 32
      → write_constant memory (suc fuel) m (encode_func_index i)
        ≡ some (write_u8 ct_func_index ++ write_u32 i)
  written_func_index fuel m i h =
      let facts = decode-encode_func_index i h in
      write_unboxed fuel m (encode_func_index i) facts.2 ∙ rw (facts.0, facts.1)

  mutual
    unfolding Shows ShowsEach Fits FitsData format format_data depth depth_data write_boxed
        write_heap_value write_vector write_all

    written :
        (d : Datum) (m : State) (v : LispVal) (fuel : ℕ)
        → depth d ≤ suc fuel
        → Fits d
        → Shows memory m v d
        → write_constant memory (suc fuel) m v ≡ some (format d)
    written nil m v fuel h f s = rw s (write_sentinels fuel m).0
    written true_ m v fuel h f s = rw s (write_sentinels fuel m).1
    written false_ m v fuel h f s = rw s (write_sentinels fuel m).2
    written nan m v fuel h f s = rw s (write_box fuel m Tag.nan 0 (λ e. cc))
    written (fixnum i) m v fuel h f s =
        let (e, dec) = fixnum_shape i v (fixnum-IsInt64 i f.0 f.1) s in
        let boxed = write_box fuel m Tag.fixnum (bit_and (to_u64 i) payload_mask) (λ e. cc) in
        rw (rw (← e) at boxed, dec)
    written (double b) m v fuel h f e = rw e (written_double fuel m b f.1 f.2)
    written (char c) m v fuel h f s =
        let (e, dec, l) = char_shape c v s in
        let boxed = write_box fuel m Tag.char c (λ e. cc) in rw (rw (← e) at boxed, dec)
    written (string t) m v fuel h f (id, e, l, g) =
        rw (e, write_box fuel m Tag.string id (λ e. cc), payload-box Tag.string id l, g)
    written (symbol t) m v fuel h f (id, e, l, g) =
        rw (e, write_box fuel m Tag.symbol id (λ e. cc), payload-box Tag.symbol id l, g)
    written (func_index i) m v fuel h f e = rw e (written_func_index fuel m i f)
    written (cons a d) m v fuel h f (id, car, cdr, e, l, g, sa, sd) = rw (
      e,
      write_box fuel m Tag.heap_object id (λ e. cc),
      payload-box Tag.heap_object id l,
      g,
      spend (λ n. write_constant memory n m car ≡ some (format a)) a
          (λ n p. written a m car n p f.0 sa) fuel (omega arith),
      spend (λ n. write_constant memory n m cdr ≡ some (format d)) d
          (λ n p. written d m cdr n p f.1 sd) fuel (omega arith),
    )
    written (vector ds) m v fuel h f (id, elements, e, l, gc, gv, each) = rw (
      e,
      write_box fuel m Tag.heap_object id (λ e. cc),
      payload-box Tag.heap_object id l,
      gc,
      write_heap_value,
      payload-box Tag.heap_object id l,
      gv,
      length-ShowsEach memory m elements ds each,
      small (count ds) f.0,
      written_each ds m elements fuel (omega arith) f.1 each,
    )

    pub written_each :
        (ds : Data) (m : State) (vs : List LispVal) (fuel : ℕ)
        → depth_data ds ≤ fuel
        → FitsData ds
        → ShowsEach memory m vs ds
        → write_all (write_constant memory fuel m) vs ≡ some (format_data ds)
    written_each end m [] fuel h f s = refl
    written_each end m (v ∷ vs) fuel h f s = absurd s
    written_each (item d ds) m [] fuel h f s = absurd s
    written_each (item d ds) m (v ∷ vs) fuel h f s = rw (
      spend (λ n. write_constant memory n m v ≡ some (format d)) d
          (λ n p. written d m v n p f.0 s.0) fuel (omega arith),
      written_each ds m vs fuel (omega arith) f.1 s.1,
    )

  -- With fuel for its depth, a word that stands for a datum within the limits of the format is
  -- written as that datum's format.
  pub write_constant_lem :
      (d : Datum) (m : State) (v : LispVal) (fuel : ℕ)
      → depth d ≤ fuel
      → Fits d
      → Shows memory m v d
      → write_constant memory fuel m v ≡ some (format d)
  write_constant_lem d m v fuel h f s =
      spend (λ n. write_constant memory n m v ≡ some (format d)) d (λ n p. written d m v n p f s)
        fuel h
