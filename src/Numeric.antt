-- ===== src/Numeric.antt =====
-- Arithmetic on numbers at run time: eta/core/src/eta/runtime/numeric_value.h (`NumericValue`), the
-- end of `VM::do_binary_arithmetic` in runtime/vm/vm.cpp, and the overflow tests of
-- runtime/overflow.h. The arithmetic of doubles is the machine's, a parameter. A result is the
-- number pushed; that the heap has room for one too large for a box is taken for granted.
pub mod Overflow
mod Tests
use eta.Prelude.{
  ◌≡◌, ℕ, ◌+◌, ◌*◌, ◌-◌, ◌/◌, ◌%◌, ◌^◌, ◌==◌, Bool, true, false, not, ◌&&◌, ◌||◌, if◌then◌else◌, ℤ,
  pos, negsuc, pos_part, neg_part, sub_ℕ, ltb, leb, ltb_ℤ, leb_ℤ, ◌+ℤ◌, ◌-ℤ◌,
}

infixl 70 ◌*ℤ◌
unfoldable pub ◌*ℤ◌ : ℤ → ℤ → ℤ
a *ℤ b =
    sub_ℕ (pos_part a * pos_part b + neg_part a * neg_part b)
      (pos_part a * neg_part b + neg_part a * pos_part b)

abbrev pub magnitude : ℤ → ℕ
magnitude a = pos_part a + neg_part a

-- Division of integers towards zero, as C++ divides.
unfoldable pub quot : ℤ → ℤ → ℤ
quot a b =
    let q = magnitude a / magnitude b in
    if ltb_ℤ a (pos 0)
    then (if ltb_ℤ b (pos 0) then sub_ℕ q 0 else sub_ℕ 0 q)
    else (if ltb_ℤ b (pos 0) then sub_ℕ 0 q else sub_ℕ q 0)

-- `a % b == 0`
abbrev pub divides : ℤ → ℤ → Bool
divides b a = magnitude a % magnitude b == 0

abbrev pub int64_max : ℤ
int64_max = pos (2 ^ 63 - 1)

abbrev pub int64_min : ℤ
int64_min = negsuc (2 ^ 63 - 1)

abbrev pub fits_int64 : ℤ → Bool
fits_int64 a = leb_ℤ int64_min a && leb_ℤ a int64_max

-- What `__builtin_add_overflow`, `__builtin_sub_overflow` and `__builtin_mul_overflow` answer.
abbrev pub add_overflow : ℤ → ℤ → Bool
add_overflow a b = not (fits_int64 (a +ℤ b))

abbrev pub sub_overflow : ℤ → ℤ → Bool
sub_overflow a b = not (fits_int64 (a -ℤ b))

abbrev pub mul_overflow : ℤ → ℤ → Bool
mul_overflow a b = not (fits_int64 (a *ℤ b))

-- The branches for compilers without these builtins.
unfoldable pub add_overflow_by_bounds : ℤ → ℤ → Bool
add_overflow_by_bounds a b =
    if ltb_ℤ (pos 0) b && ltb_ℤ (int64_max -ℤ b) a
    then true
    else ltb_ℤ b (pos 0) && ltb_ℤ a (int64_min -ℤ b)

unfoldable pub sub_overflow_by_bounds : ℤ → ℤ → Bool
sub_overflow_by_bounds a b =
    if ltb_ℤ b (pos 0) && ltb_ℤ (int64_max +ℤ b) a
    then true
    else ltb_ℤ (pos 0) b && ltb_ℤ a (int64_min +ℤ b)

abbrev pub is_zero : ℤ → Bool
is_zero a = magnitude a == 0

unfoldable pub mul_overflow_by_bounds : ℤ → ℤ → Bool
mul_overflow_by_bounds a b =
    if is_zero a || is_zero b
    then false
    else if ltb_ℤ (pos 0) a && ltb_ℤ (pos 0) b && ltb_ℤ (quot int64_max b) a
    then true
    else if ltb_ℤ a (pos 0) && ltb_ℤ b (pos 0) && ltb_ℤ a (quot int64_max b)
    then true
    else if ltb_ℤ (pos 0) a && ltb_ℤ b (pos 0) && ltb_ℤ b (quot int64_min a)
    then true
    else ltb_ℤ a (pos 0) && ltb_ℤ (pos 0) b && ltb_ℤ a (quot int64_min b)

-- The machine's doubles, by their bit patterns.
pub record Doubles : Type 0 where
  pub add_double : ℕ → ℕ → ℕ
  pub sub_double : ℕ → ℕ → ℕ
  pub mul_double : ℕ → ℕ → ℕ
  pub div_double : ℕ → ℕ → ℕ
  pub of_int64 : ℤ → ℕ
  pub equals_zero : ℕ → Bool

-- An integer converts to a zero only if it is zero.
abbrev pub ConvertsZero : Doubles → Type 0
ConvertsZero d = (a : ℤ) → d.equals_zero (d.of_int64 a) ≡ is_zero a

pub data NumericValue : Type 0 where
  fixnum : ℤ → NumericValue
  flonum : ℕ → NumericValue
  invalid : NumericValue

pub data OpCode : Type 0 where
  add sub mul div : OpCode

pub data Outcome : Type 0 where
  pushed : NumericValue → Outcome
  type_error : Outcome
  division_by_zero : Outcome

abbrev pub as_double : Doubles → NumericValue → ℕ
as_double d (fixnum a) = d.of_int64 a
as_double d (flonum x) = x
as_double d invalid = 0

-- `apply_double`, and `push_flonum` of its result
unfoldable pub apply_double : Doubles → OpCode → ℕ → ℕ → Outcome
apply_double d add a b = pushed (flonum (d.add_double a b))
apply_double d sub a b = pushed (flonum (d.sub_double a b))
apply_double d mul a b = pushed (flonum (d.mul_double a b))
apply_double d div a b =
    if d.equals_zero b then division_by_zero else pushed (flonum (d.div_double a b))

-- The path of two integers.
unfoldable pub apply_int : Doubles → OpCode → ℤ → ℤ → Outcome
unfolding apply_double
apply_int d add a b =
    if add_overflow a b
    then apply_double d add (d.of_int64 a) (d.of_int64 b)
    else pushed (fixnum (a +ℤ b))
apply_int d sub a b =
    if sub_overflow a b
    then apply_double d sub (d.of_int64 a) (d.of_int64 b)
    else pushed (fixnum (a -ℤ b))
apply_int d mul a b =
    if mul_overflow a b
    then apply_double d mul (d.of_int64 a) (d.of_int64 b)
    else pushed (fixnum (a *ℤ b))
apply_int d div a b =
    if is_zero b
    then division_by_zero
    else if not (divides b a)
    then pushed (flonum (d.div_double (d.of_int64 a) (d.of_int64 b)))
    else pushed (fixnum (quot a b))

-- `do_binary_arithmetic` once the operands are popped, are not on the tape, and are classified.
unfoldable pub binary_arithmetic : Doubles → OpCode → NumericValue → NumericValue → Outcome
unfolding apply_int apply_double
binary_arithmetic d op invalid b = type_error
binary_arithmetic d op (fixnum a) invalid = type_error
binary_arithmetic d op (flonum a) invalid = type_error
binary_arithmetic d op (fixnum a) (fixnum b) = apply_int d op a b
binary_arithmetic d op (fixnum a) (flonum b) = apply_double d op (d.of_int64 a) b
binary_arithmetic d op (flonum a) (fixnum b) = apply_double d op a (d.of_int64 b)
binary_arithmetic d op (flonum a) (flonum b) = apply_double d op a b
