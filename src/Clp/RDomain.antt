-- ===== src/Clp/RDomain.antt =====
-- `RDomain` of eta/core/src/eta/runtime/clp/domain.h: an interval of doubles with open or closed
-- ends. A double is its bit pattern, and the comparisons are those of IEEE 754. The conversion of
-- an `int64_t` to a double rounds as the machine does: a parameter.
pub mod Intersect
use eta.Prelude.{
  ℕ, ◌-◌, ◌^◌, ◌≤◌, ◌≡◌, refl, sym, ap, ◌∙◌, Bool, true, false, not, ◌&&◌, ◌||◌, ltb, leb, arith, ℤ,
  pos, pos_part, neg_part, sub_ℕ, leb_ℤ, ltb_ℤ, ◌≤ℤ◌, if◌then◌else◌, IsInt64, Bool-cases, inl, inr,
}
use mathlib.Core.Path.{ap₂}
use eta.NanBox.{is_nan}
use eta.Clp.ZDomain.{ZDomain}
use eta.Clp.ZDomain

-- The place of a double that is not a NaN in the order of doubles; the two zeros share one.
abbrev pub double_key : ℕ → ℤ
double_key b = if ltb b (2 ^ 63) then pos b else sub_ℕ 0 (b - 2 ^ 63)

-- `a < b`, `a <= b` and `a == b` on doubles: false where one is a NaN.
abbrev pub lt_double : ℕ → ℕ → Bool
lt_double a b = not (is_nan a) && not (is_nan b) && ltb_ℤ (double_key a) (double_key b)

abbrev pub le_double : ℕ → ℕ → Bool
le_double a b = not (is_nan a) && not (is_nan b) && leb_ℤ (double_key a) (double_key b)

abbrev pub eq_double : ℕ → ℕ → Bool
eq_double a b = le_double a b && le_double b a

pub record RDomain : Type 0 where
  pub lo : ℕ
  pub hi : ℕ
  pub lo_open : Bool
  pub hi_open : Bool

unfoldable pub empty : RDomain → Bool
empty d = if lt_double d.hi d.lo then true else eq_double d.lo d.hi && (d.lo_open || d.hi_open)

unfoldable pub contains : RDomain → ℕ → Bool
contains d v =
    if is_nan v
    then false
    else if (if d.lo_open then not (lt_double d.lo v) else not (le_double d.lo v))
    then false
    else if (if d.hi_open then not (lt_double v d.hi) else not (le_double v d.hi))
    then false
    else true

unfoldable pub size : RDomain → ℤ
unfolding empty
size d = if empty d then pos 0 else pos (2 ^ 63 - 1)

unfoldable pub intersect : RDomain → RDomain → RDomain
intersect d o = record {
  lo = if lt_double o.lo d.lo then d.lo else (if lt_double d.lo o.lo then o.lo else d.lo);
  lo_open =
      if lt_double o.lo d.lo
      then d.lo_open
      else (if lt_double d.lo o.lo then o.lo_open else d.lo_open || o.lo_open);
  hi = if lt_double d.hi o.hi then d.hi else (if lt_double o.hi d.hi then o.hi else d.hi);
  hi_open =
      if lt_double d.hi o.hi
      then d.hi_open
      else (if lt_double o.hi d.hi then o.hi_open else d.hi_open || o.hi_open);
}

-- The bit patterns of 1.0 and 0.0
abbrev pub one_bits : ℕ
one_bits = 0x3ff0000000000000

-- The empty interval from 1.0 to 0.0
abbrev pub nothing : RDomain
nothing = record { lo = one_bits; hi = 0; lo_open = false; hi_open = false }

unfoldable pub intersect_z : (ℤ → ℕ) → RDomain → ZDomain → RDomain
intersect_z to_double d z =
    if ZDomain.empty z
    then nothing
    else let zlo = to_double z.lo in
      let zhi = to_double z.hi in
      record {
        lo = if lt_double zlo d.lo then d.lo else (if lt_double d.lo zlo then zlo else d.lo);
        lo_open =
            if lt_double zlo d.lo
            then d.lo_open
            else (if lt_double d.lo zlo then false else d.lo_open);
        hi = if lt_double d.hi zhi then d.hi else (if lt_double zhi d.hi then zhi else d.hi);
        hi_open =
            if lt_double d.hi zhi
            then d.hi_open
            else (if lt_double zhi d.hi then false else d.hi_open);
      }

-- No end is a NaN.
abbrev pub HasEnds : RDomain → Type 0
HasEnds d = (is_nan d.lo ≡ false) × (is_nan d.hi ≡ false)
