-- ===== src/Clp/Tests.antt =====
-- Runs of the theorems on runtime/clp/domain.h at concrete domains.
use eta.Prelude.{◌<◌, ℕ, ◌+ℤ◌, ◌-ℤ◌}
use eta.Clp.Domain.Domain.{r}
use eta.Prelude.{◌/◌, bit_and_low}
use eta.Clp.Domain.Lossless.{Rounds, domain_intersect-lossless}
use eta.Prelude.{
  ◌^◌, ◌-◌, ◌≡◌, refl, true, false, ◌&&◌, List, [], ◌∷◌, length, ℤ, pos, negsuc, IsInt64, ◌≤ℤ◌,
  leb_ℤ, arith,
}
use eta.NanBox.{is_nan}
use eta.Clp.ZDomain.{ZDomain}
use eta.Clp.ZDomain
use eta.Clp.FdDomain.{FdDomain, from_range, from_sorted_unique, singleton, to_vector}
use eta.Clp.FdDomain
use eta.Clp.FdDomain.Valid.{IsValid, size-members}
use eta.Clp.FdDomain.Build.{from_range_lem}
use eta.Clp.FdDomain.Sorted.{IsSortedUnique, to_vector-from_sorted_unique}
use eta.Clp.FdDomain.Ends.{min_lem, max_lem}
use eta.Clp.FdDomain.Window.{Filters}
use eta.Clp.FdDomain.Intersect.{intersect-Filters}
use eta.Clp.FdDomain.IntersectZ.{intersect_z-Filters}
use eta.Clp.RDomain.{RDomain, HasEnds, one_bits}
use eta.Clp.RDomain
use eta.Clp.FdDomain.{from_unsorted, last_or, insert_sorted, sort, unique}
use eta.Clp.FdDomain.Valid.{elem_ℤ}
use eta.Clp.FdDomain.Unsorted.{elem-from_unsorted}
use eta.Clp.RDomain.Intersect.{contains-intersect_real}
use eta.Clp.Domain.{
  Conversions, domain_contains_int, domain_intersect, domain_empty, domain_contains_double,
}
use eta.Clp.Domain.Domain.{z, fd}
use eta.Clp.Domain.Sound.{domain_contains_int-domain_intersect}

abbrev low : FdDomain
low = from_range (negsuc 2) (pos 70)

abbrev high : FdDomain
high = from_range (pos 3) (pos 200)

low-IsValid : IsValid low
unfolding ◌+ℤ◌ ◌-ℤ◌
low-IsValid =
    (from_range_lem (negsuc 2) (pos 70) (omega arith, omega arith) (omega arith, omega arith)
      (omega arith, omega arith)).0

high-IsValid : IsValid high
unfolding ◌+ℤ◌ ◌-ℤ◌
high-IsValid =
    (from_range_lem (pos 3) (pos 200) (omega arith, omega arith) (omega arith, omega arith)
      (omega arith, omega arith)).0

intersect-Filters_example : Filters low (FdDomain.contains high) (FdDomain.intersect low high)
intersect-Filters_example = intersect-Filters low high low-IsValid high-IsValid

intersect_z-Filters_example :
    Filters low
      (λ v. leb_ℤ (pos 5) v && leb_ℤ v (pos 66))
      (FdDomain.intersect_z low (pos 5) (pos 66))
intersect_z-Filters_example =
    intersect_z-Filters low low-IsValid (pos 5) (pos 66) (omega arith, omega arith)
      (omega arith, omega arith)

abbrev three_values : List ℤ
three_values = negsuc 4 ∷ pos 2 ∷ pos 130 ∷ []

three_values-IsSortedUnique : IsSortedUnique three_values
three_values-IsSortedUnique = (
  (omega arith, omega arith),
  omega arith,
  ((omega arith, omega arith), omega arith, (omega arith, omega arith)),
)

to_vector-from_sorted_unique_example :
    IsValid (from_sorted_unique three_values)
    × (to_vector (from_sorted_unique three_values) ≡ three_values)
unfolding ◌-ℤ◌ last_or
to_vector-from_sorted_unique_example =
    to_vector-from_sorted_unique three_values three_values-IsSortedUnique (omega arith, omega arith)

abbrev padded : FdDomain
padded = record { base = negsuc 63; bits = 0 ∷ 5 ∷ 0 ∷ []; count = 2 }

size-members_test : FdDomain.size low ≡ length (to_vector low)
size-members_test = size-members low low-IsValid

low-contains : FdDomain.contains low (pos 64) ≡ true
unfolding ◌+ℤ◌ ◌-ℤ◌
low-contains =
    (from_range_lem (negsuc 2) (pos 70) (omega arith, omega arith) (omega arith, omega arith)
        (omega arith, omega arith)).1
      (pos 64) (omega arith, omega arith)

min_lem_example :
    (FdDomain.contains low (FdDomain.min low) ≡ true)
    × (FdDomain.min low ≤ℤ pos 64)
    × IsInt64 (FdDomain.min low)
min_lem_example = min_lem low low-IsValid (pos 64) (omega arith, omega arith) low-contains

max_lem_example :
    (FdDomain.contains low (FdDomain.max low) ≡ true)
    × (pos 64 ≤ℤ FdDomain.max low)
    × IsInt64 (FdDomain.max low)
max_lem_example = max_lem low low-IsValid (pos 64) (omega arith, omega arith) low-contains

contains-intersect_test :
    ZDomain.contains
      (ZDomain.intersect (record { lo = negsuc 3; hi = pos 5 }) (record { lo = pos 0; hi = pos 9 }))
      (pos 4)
    ≡ (ZDomain.contains (record { lo = negsuc 3; hi = pos 5 }) (pos 4)
        && ZDomain.contains (record { lo = pos 0; hi = pos 9 }) (pos 4))
contains-intersect_test =
    ZDomain.contains-intersect (record { lo = negsuc 3; hi = pos 5 })
      (record { lo = pos 0; hi = pos 9 }) (pos 4)

-- From 0.0 to 1.0, without the upper end, and from 1.0 to 2.0.
abbrev left : RDomain
left = record { lo = 0; hi = one_bits; lo_open = false; hi_open = true }

abbrev right : RDomain
right = record { lo = one_bits; hi = 0x4000000000000000; lo_open = false; hi_open = false }

left-HasEnds : HasEnds left
unfolding is_nan
left-HasEnds = (refl, refl)

right-HasEnds : HasEnds right
unfolding is_nan
right-HasEnds = (refl, refl)

contains-intersect_real_example :
    RDomain.contains (RDomain.intersect left right) one_bits
    ≡ (RDomain.contains left one_bits && RDomain.contains right one_bits)
contains-intersect_real_example =
    contains-intersect_real left right one_bits left-HasEnds right-HasEnds

abbrev no_conversions : Conversions
no_conversions = record { to_double = λ v. 0; round = λ v. v; to_int64 = λ v. pos 0 }

domain_contains_int-domain_intersect_example :
    domain_contains_int no_conversions
      (domain_intersect no_conversions (fd low) (z (record { lo = pos 1; hi = pos 8 })))
      (pos 4)
    ≡ (domain_contains_int no_conversions (fd low) (pos 4)
        && domain_contains_int no_conversions (z (record { lo = pos 1; hi = pos 8 })) (pos 4))
domain_contains_int-domain_intersect_example =
    domain_contains_int-domain_intersect no_conversions (fd low)
      (z (record { lo = pos 1; hi = pos 8 })) (pos 4) low-IsValid
      ((omega arith, omega arith), (omega arith, omega arith)) (omega arith, omega arith)

z_empty_test : domain_empty (z (record { lo = pos 2; hi = pos 1 })) ≡ true
unfolding domain_empty ZDomain.empty
z_empty_test = refl

r_size_test : RDomain.size left ≡ pos (2 ^ 63 - 1)
unfolding RDomain.size RDomain.empty is_nan
r_size_test = refl

-- The double 1.0, with a rounding that leaves it alone.
double_test :
    domain_contains_double
      (record { to_double = λ v. 0; round = λ v. v; to_int64 = λ v. pos 1 })
      (z (record { lo = pos 0; hi = pos 3 }))
      one_bits
    ≡ true
unfolding domain_contains_double ZDomain.contains is_nan
double_test = refl

elem-from_unsorted_example :
    IsValid (from_unsorted (pos 9 ∷ pos 3 ∷ pos 9 ∷ []))
    × ((v : ℤ)
        → elem_ℤ v (to_vector (from_unsorted (pos 9 ∷ pos 3 ∷ pos 9 ∷ [])))
          ≡ elem_ℤ v (pos 9 ∷ pos 3 ∷ pos 9 ∷ []))
unfolding ◌-ℤ◌ last_or insert_sorted sort unique
elem-from_unsorted_example =
    elem-from_unsorted (pos 9 ∷ pos 3 ∷ pos 9 ∷ [])
      ((omega arith, omega arith), ((omega arith, omega arith), ((omega arith, omega arith), tt)))
      (omega arith, omega arith)

-- A conversion that keeps the order and gives no NaN.
abbrev quarter : ℤ → ℕ
quarter (pos n) = n / 4
quarter (negsuc n) = 0

abbrev quarters : Conversions
quarters = record { to_double = quarter; round = λ v. v; to_int64 = λ v. pos 0 }

small_not_nan : (b : ℕ) → b < 2 ^ 62 → is_nan b ≡ false
unfolding is_nan
small_not_nan b h = ground (arith, bit_and_low 11 (b / 2 ^ 52))

quarters-Rounds : Rounds quarters
quarters-Rounds = record {
  a_number = λ v h. small_not_nan (quarter v) (quarter_small v h);
  in_order = λ a b h k le. ordered a b h k le;
}
  where
    quarter_small : (v : ℤ) → IsInt64 v → quarter v < 2 ^ 62
    quarter_small (pos n) h = omega arith
    quarter_small (negsuc n) h = omega arith

    ordered :
        (a b : ℤ)
        → IsInt64 a
        → IsInt64 b
        → a ≤ℤ b
        → RDomain.double_key (quarter a) ≤ℤ RDomain.double_key (quarter b)
    ordered (pos m) (pos n) h k le = ground arith
    ordered (pos m) (negsuc n) h k le = ground arith
    ordered (negsuc m) (pos n) h k le = ground arith
    ordered (negsuc m) (negsuc n) h k le = ground arith

left-contains : domain_contains_int quarters (r left) (pos 64) ≡ true
unfolding domain_contains_int RDomain.contains is_nan
left-contains = refl

fd_low-contains : domain_contains_int quarters (fd low) (pos 64) ≡ true
unfolding domain_contains_int
fd_low-contains = low-contains

domain_intersect-lossless_example :
    domain_contains_int quarters (domain_intersect quarters (r left) (fd low)) (pos 64) ≡ true
domain_intersect-lossless_example =
    domain_intersect-lossless quarters quarters-Rounds (r left) (fd low) (pos 64) left-HasEnds
      low-IsValid (omega arith, omega arith) left-contains fd_low-contains
