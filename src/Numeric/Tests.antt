-- ===== src/Numeric/Tests.antt =====
-- Runs of the theorems on runtime/overflow.h at concrete integers.
use eta.Prelude.{◌≡◌, ◌^◌, ◌-◌, ℤ, pos, negsuc, arith}
use eta.Numeric.{sub_overflow, sub_overflow_by_bounds}
use eta.Numeric.Overflow.{sub_overflow_by_bounds_lem}

abbrev greatest : ℤ
greatest = pos (2 ^ 63 - 1)

sub_overflow_by_bounds_lem_test :
    sub_overflow_by_bounds greatest (negsuc 0) ≡ sub_overflow greatest (negsuc 0)
sub_overflow_by_bounds_lem_test =
    sub_overflow_by_bounds_lem greatest (negsuc 0) (omega arith, omega arith)
      (omega arith, omega arith)
