-- ===== src/Bytecode/FuncIndex.antt =====
-- What is a function index among the constants of runtime/vm/bytecode.h.
use eta.Prelude.{
  ℕ, ◌+◌, ◌-◌, ◌/◌, ◌%◌, ◌^◌, ◌≤◌, ◌<◌, ◌≡◌, refl, ap, ◌∙◌, true, false, arith, inl, inr,
  Bool-cases, ◌↔◌, List, [], ◌∷◌, bit_and_low, bit_and_upper, bit_or_shifted, ℤ, pos, negsuc,
  pos_part, neg_part, ◌+ℤ◌, ◌-ℤ◌,
}
use mathlib.Core.Path.{ap₂}
use eta.NanBox.{LispVal, is_boxed, to_i32}
use eta.NanBox.Layout.{is_boxed_iff}
use eta.Bytecode.{
  encode_func_index, is_func_index, decode_func_index, to_u32, rebase_constant, rebase_func_indices,
}

encode_as_sum : (i : ℕ) → i < 2 ^ 32 → encode_func_index i ≡ 2 ^ 63 + i
unfolding encode_func_index
encode_as_sum i h = bit_or_shifted 63 1 i (omega arith)

-- A 64-bit word is taken for a function index exactly if its top digit is set and the 31 digits
-- below that are clear.
pub is_func_index_iff :
    (v : LispVal) → v < 2 ^ 64 → (is_func_index v ≡ true) ↔ (2 ^ 63 ≤ v × v < 2 ^ 63 + 2 ^ 32)
unfolding is_func_index
is_func_index_iff v h = ground (
  arith,
  bit_and_upper 63 (v / 2 ^ 63) (v % 2 ^ 63) 1,
  bit_and_low 1 (v / 2 ^ 63),
  bit_and_upper 32 (v / 2 ^ 32) (v % 2 ^ 32) (2 ^ 31 - 1),
  bit_and_low 31 (v / 2 ^ 32),
)

decode_as_rest : (v : LispVal) → decode_func_index v ≡ v % 2 ^ 32
unfolding decode_func_index
decode_as_rest v = ground (arith, bit_and_low 63 v)

-- Every 32-bit index is recognised and comes back, and its word is no boxed value.
pub decode-encode_func_index :
    (i : ℕ)
    → i < 2 ^ 32
    → (is_func_index (encode_func_index i) ≡ true)
      × (decode_func_index (encode_func_index i) ≡ i)
      × (is_boxed (encode_func_index i) ≡ false)
decode-encode_func_index i h =
    let sum = encode_as_sum i h in
    (
      (is_func_index_iff (encode_func_index i) (omega (arith, sum))).1 (omega (arith, sum)),
      decode_as_rest (encode_func_index i) ∙ omega (arith, sum),
      ground (arith, sum, is_boxed_iff (encode_func_index i)),
    )

-- Of the bit patterns of doubles exactly those of negative sign and a magnitude below 2 ^ 32 units
-- of the least subnormal are taken for function indices. Minus zero is the first of them: its
-- pattern is that of index 0.
pub double_taken_for_index :
    (b : ℕ)
    → b < 2 ^ 64
    → (is_func_index b ≡ true)
      ↔ ((b / 2 ^ 63 ≡ 1) × (b / 2 ^ 52 % 2 ^ 11 ≡ 0) × (b % 2 ^ 52 < 2 ^ 32))
double_taken_for_index b h = ground (arith, is_func_index_iff b h)

moved :
    (i : ℕ) (k : ℤ)
    → i < 2 ^ 32
    → neg_part k ≤ 2 ^ 31
    → to_u32 (to_i32 i +ℤ k) ≡ (i + 2 ^ 32 + pos_part k - neg_part k) % 2 ^ 32
unfolding ◌+ℤ◌
moved i (pos k) h lo = ground arith
moved i (negsuc k) h lo = ground arith

opposite_parts :
    (k : ℤ) → (pos_part (pos 0 -ℤ k) ≡ neg_part k) × (neg_part (pos 0 -ℤ k) ≡ pos_part k)
unfolding ◌-ℤ◌
opposite_parts k = ground arith

to_u32-lt : (z : ℤ) → to_u32 z < 2 ^ 32
to_u32-lt z = ground arith

rebase_encoded :
    (k : ℤ) (i : ℕ)
    → i < 2 ^ 32
    → rebase_constant k (encode_func_index i) ≡ encode_func_index (to_u32 (to_i32 i +ℤ k))
unfolding rebase_constant
rebase_encoded k i h = let f = decode-encode_func_index i h in rw (f.0, f.1) refl

shifted_back :
    (i : ℕ) (k : ℤ)
    → i < 2 ^ 32
    → pos_part k < 2 ^ 31
    → neg_part k ≤ 2 ^ 31
    → to_u32 (to_i32 (to_u32 (to_i32 i +ℤ k)) +ℤ (pos 0 -ℤ k)) ≡ i
shifted_back i k h hi lo =
    let j = to_u32 (to_i32 i +ℤ k) in
    let small = to_u32-lt (to_i32 i +ℤ k) in
    let parts = opposite_parts k in
    moved j (pos 0 -ℤ k) small (omega (arith, parts)) ∙ omega (arith, parts, moved i k h lo, small)

rebase_constant_back :
    (k : ℤ) (c : LispVal)
    → pos_part k < 2 ^ 31
    → neg_part k ≤ 2 ^ 31
    → c < 2 ^ 64
    → rebase_constant (pos 0 -ℤ k) (rebase_constant k c) ≡ c
unfolding rebase_constant
rebase_constant_back k c hi lo h = elim (Bool-cases (is_func_index c)) [
  | inr plain ↦ rw (plain, rebase_constant, plain) refl
  | inl index ↦
      let (low, high) = (is_func_index_iff c h).0 index in
      let i = decode_func_index c in
      let small : i < 2 ^ 32 = omega (arith, decode_as_rest c) in
      let whole : encode_func_index i ≡ c =
        omega (arith, decode_as_rest c, encode_as_sum i small) in
      rw (← whole, rebase_encoded k i small)
        (rebase_encoded (pos 0 -ℤ k) (to_u32 (to_i32 i +ℤ k)) (to_u32-lt (to_i32 i +ℤ k))
          ∙ ap encode_func_index (shifted_back i k small hi lo))
]

-- All words of a constant table.
abbrev pub AllWords : List LispVal → Type 0
AllWords [] = Unit
AllWords (c ∷ cs) = (c < 2 ^ 64) × AllWords cs

-- To relocate by an offset and then by its opposite gives every constant back, function index or
-- not, in the exact arithmetic of `rebase_constant`.
pub rebase_func_indices_back :
    (k : ℤ) (cs : List LispVal)
    → pos_part k < 2 ^ 31
    → neg_part k ≤ 2 ^ 31
    → AllWords cs
    → rebase_func_indices (pos 0 -ℤ k) (rebase_func_indices k cs) ≡ cs
unfolding rebase_func_indices
rebase_func_indices_back k [] hi lo h = refl
rebase_func_indices_back k (c ∷ cs) hi lo h =
    ap₂ ◌∷◌ (rebase_constant_back k c hi lo h.0) (rebase_func_indices_back k cs hi lo h.1)
