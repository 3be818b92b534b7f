-- ===== src/Ir/Fold/Agrees.antt =====
-- What constant_folding.h folds is what `VM::do_binary_arithmetic` computes.
use eta.Prelude.{◌≡◌, refl, ◌⊎◌, true, Option, none, some, ℤ, ◌+ℤ◌, ◌-ℤ◌, Bool-cases, inl, inr}
use eta.Numeric.{
  Doubles, ◌*ℤ◌, quot, divides, is_zero, fits_int64, ConvertsZero, NumericValue, OpCode, Outcome,
  binary_arithmetic, apply_int, apply_double,
}
use eta.Numeric.NumericValue.{fixnum, flonum, invalid}
use eta.Numeric.OpCode.{add, sub, mul, div}
use eta.Numeric.Outcome.{pushed, type_error, division_by_zero}
use eta.Ir.{Literal, Text}
use eta.Ir.Literal.{int64, double, nothing, boolean, char32, string}
use eta.Ir.Bindings.{eq_text, plus, minus, times, slash}
use eta.Ir.Fold.{to_numeric, make_result, fold_add, fold_sub, fold_mul, fold_div, fold_named}

-- The number that a literal becomes at run time.
abbrev pub value_of : Literal → NumericValue
value_of (int64 n) = fixnum n
value_of (double n) = flonum n
value_of nothing = invalid
value_of (boolean b) = invalid
value_of (char32 c) = invalid
value_of (string t) = invalid

-- The name that the pass knows an operation by.
abbrev pub name_of : OpCode → Text
name_of add = plus
name_of sub = minus
name_of mul = times
name_of div = slash

-- The exact result of two integers.
abbrev pub exact : OpCode → ℤ → ℤ → ℤ
exact add a b = a +ℤ b
exact sub a b = a -ℤ b
exact mul a b = a *ℤ b
exact div a b = quot a b

-- On two integers the exact result is in the range of `int64_t`; other operands are free.
abbrev pub StaysInRange : OpCode → Literal → Literal → Type 0
StaysInRange op (int64 a) (int64 b) = fits_int64 (exact op a b) ≡ true
StaysInRange op _ _ = Unit

-- What the pass makes of an operation on two literals.
abbrev pub folded : Doubles → OpCode → Literal → Literal → Option Literal
folded x op l r = elim (to_numeric x l) [
  | none ↦ none
  | some a ↦ elim (to_numeric x r) [ none ↦ none | some b ↦ fold_named x (name_of op) a b ]
]

-- The same as an outcome of the virtual machine: nothing is folded where it raises an error.
abbrev pub AgreesWith : Option Literal → Outcome → Type 0
AgreesWith (some c) o = o ≡ pushed (value_of c)
AgreesWith none o = (o ≡ type_error) ⊎ (o ≡ division_by_zero)

fold_div-agrees :
    (x : Doubles) (l r : Literal)
    → ConvertsZero x
    → StaysInRange div l r
    → AgreesWith (folded x div l r) (binary_arithmetic x div (value_of l) (value_of r))
unfolding to_numeric fold_named fold_div apply_int apply_double binary_arithmetic eq_text
fold_div-agrees x nothing r z h = inl refl
fold_div-agrees x (boolean b) r z h = inl refl
fold_div-agrees x (char32 c) r z h = inl refl
fold_div-agrees x (string t) r z h = inl refl
fold_div-agrees x (int64 a) nothing z h = inl refl
fold_div-agrees x (int64 a) (boolean b) z h = inl refl
fold_div-agrees x (int64 a) (char32 c) z h = inl refl
fold_div-agrees x (int64 a) (string t) z h = inl refl
fold_div-agrees x (double a) nothing z h = inl refl
fold_div-agrees x (double a) (boolean b) z h = inl refl
fold_div-agrees x (double a) (char32 c) z h = inl refl
fold_div-agrees x (double a) (string t) z h = inl refl
fold_div-agrees x (int64 a) (int64 b) z h = elim (Bool-cases (is_zero b)) [
  | inl zero_b ↦ rw (z b, zero_b) (inr refl)
  | inr other ↦ elim (Bool-cases (divides b a)) [
    | inl exact_div ↦ rw (z b, other, exact_div) refl
    | inr inexact ↦ rw (z b, other, inexact) refl
  ]
]
fold_div-agrees x (int64 a) (double b) z h = elim (Bool-cases (x.equals_zero b)) [
  | inl zero_b ↦ rw zero_b (inr refl)
  | inr other ↦ rw other refl
]
fold_div-agrees x (double a) (int64 b) z h = elim (Bool-cases (x.equals_zero (x.of_int64 b))) [
  | inl zero_b ↦ rw zero_b (inr refl)
  | inr other ↦ rw other refl
]
fold_div-agrees x (double a) (double b) z h = elim (Bool-cases (x.equals_zero b)) [
  | inl zero_b ↦ rw zero_b (inr refl)
  | inr other ↦ rw other refl
]

-- If the exact result of two integers is in the range of `int64_t`, what the pass folds an
-- operation on two literals to is what the virtual machine computes for it; and where the pass
-- leaves the call in place, the operation is a division by zero or one operand is not a number, and
-- the machine raises an error.
pub folded-binary_arithmetic :
    (x : Doubles) (op : OpCode) (l r : Literal)
    → ConvertsZero x
    → StaysInRange op l r
    → AgreesWith (folded x op l r) (binary_arithmetic x op (value_of l) (value_of r))
unfolding to_numeric fold_named fold_add fold_sub fold_mul make_result apply_int apply_double
    binary_arithmetic eq_text
folded-binary_arithmetic x div l r z h = fold_div-agrees x l r z h
folded-binary_arithmetic x add nothing r z h = inl refl
folded-binary_arithmetic x add (boolean b) r z h = inl refl
folded-binary_arithmetic x add (char32 c) r z h = inl refl
folded-binary_arithmetic x add (string t) r z h = inl refl
folded-binary_arithmetic x add (int64 a) nothing z h = inl refl
folded-binary_arithmetic x add (int64 a) (boolean b) z h = inl refl
folded-binary_arithmetic x add (int64 a) (char32 c) z h = inl refl
folded-binary_arithmetic x add (int64 a) (string t) z h = inl refl
folded-binary_arithmetic x add (double a) nothing z h = inl refl
folded-binary_arithmetic x add (double a) (boolean b) z h = inl refl
folded-binary_arithmetic x add (double a) (char32 c) z h = inl refl
folded-binary_arithmetic x add (double a) (string t) z h = inl refl
folded-binary_arithmetic x add (int64 a) (int64 b) z h = rw h refl
folded-binary_arithmetic x add (int64 a) (double b) z h = refl
folded-binary_arithmetic x add (double a) (int64 b) z h = refl
folded-binary_arithmetic x add (double a) (double b) z h = refl
folded-binary_arithmetic x sub nothing r z h = inl refl
folded-binary_arithmetic x sub (boolean b) r z h = inl refl
folded-binary_arithmetic x sub (char32 c) r z h = inl refl
folded-binary_arithmetic x sub (string t) r z h = inl refl
folded-binary_arithmetic x sub (int64 a) nothing z h = inl refl
folded-binary_arithmetic x sub (int64 a) (boolean b) z h = inl refl
folded-binary_arithmetic x sub (int64 a) (char32 c) z h = inl refl
folded-binary_arithmetic x sub (int64 a) (string t) z h = inl refl
folded-binary_arithmetic x sub (double a) nothing z h = inl refl
folded-binary_arithmetic x sub (double a) (boolean b) z h = inl refl
folded-binary_arithmetic x sub (double a) (char32 c) z h = inl refl
folded-binary_arithmetic x sub (double a) (string t) z h = inl refl
folded-binary_arithmetic x sub (int64 a) (int64 b) z h = rw h refl
folded-binary_arithmetic x sub (int64 a) (double b) z h = refl
folded-binary_arithmetic x sub (double a) (int64 b) z h = refl
folded-binary_arithmetic x sub (double a) (double b) z h = refl
folded-binary_arithmetic x mul nothing r z h = inl refl
folded-binary_arithmetic x mul (boolean b) r z h = inl refl
folded-binary_arithmetic x mul (char32 c) r z h = inl refl
folded-binary_arithmetic x mul (string t) r z h = inl refl
folded-binary_arithmetic x mul (int64 a) nothing z h = inl refl
folded-binary_arithmetic x mul (int64 a) (boolean b) z h = inl refl
folded-binary_arithmetic x mul (int64 a) (char32 c) z h = inl refl
folded-binary_arithmetic x mul (int64 a) (string t) z h = inl refl
folded-binary_arithmetic x mul (double a) nothing z h = inl refl
folded-binary_arithmetic x mul (double a) (boolean b) z h = inl refl
folded-binary_arithmetic x mul (double a) (char32 c) z h = inl refl
folded-binary_arithmetic x mul (double a) (string t) z h = inl refl
folded-binary_arithmetic x mul (int64 a) (int64 b) z h = rw h refl
folded-binary_arithmetic x mul (int64 a) (double b) z h = refl
folded-binary_arithmetic x mul (double a) (int64 b) z h = refl
folded-binary_arithmetic x mul (double a) (double b) z h = refl
