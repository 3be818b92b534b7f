-- ===== src/Clp/Domain.antt =====
-- `Domain` of eta/core/src/eta/runtime/clp/domain.h: one of the three kinds of domain, and the
-- operations that choose by kind. The conversion from `int64_t` to double and `std::round` are the
-- machine's, parameters.
pub mod Sound
pub mod Lossless
use eta.Prelude.{ℕ, Bool, true, false, not, ◌&&◌, ◌||◌, if◌then◌else◌, ℤ, pos, to_i64}
use eta.Clp.ZDomain.{ZDomain}
use eta.Clp.ZDomain
use eta.Clp.FdDomain.{FdDomain}
use eta.Clp.FdDomain
use eta.Clp.RDomain.{RDomain, eq_double, lt_double, nothing}
use eta.Clp.RDomain

pub data Domain : Type 0 where
  z : ZDomain → Domain
  fd : FdDomain → Domain
  r : RDomain → Domain

-- What the machine does with doubles.
pub record Conversions : Type 0 where
  pub to_double : ℤ → ℕ
  pub round : ℕ → ℕ
  pub to_int64 : ℕ → ℤ

unfoldable pub domain_empty : Domain → Bool
domain_empty (z d) = ZDomain.empty d
domain_empty (fd d) = FdDomain.empty d
domain_empty (r d) = RDomain.empty d

unfoldable pub domain_contains_int : Conversions → Domain → ℤ → Bool
domain_contains_int c (r d) v = RDomain.contains d (c.to_double v)
domain_contains_int c (z d) v = ZDomain.contains d v
domain_contains_int c (fd d) v = FdDomain.contains d v

-- The bit patterns of -2^63 and 2^63, to which the limits of `int64_t` convert.
abbrev pub min_limit : ℕ
min_limit = 0xc3e0000000000000

abbrev pub max_limit : ℕ
max_limit = 0x43e0000000000000

-- The integer that a double other than a NaN stands for exactly, if it is in range.
unfoldable pub domain_contains_double : Conversions → Domain → ℕ → Bool
domain_contains_double c (r d) v = RDomain.contains d v
domain_contains_double c (z d) v =
    let rv = c.round v in
    if not (eq_double rv v)
    then false
    else if lt_double rv min_limit
    then false
    else if lt_double max_limit rv
    then false
    else ZDomain.contains d (c.to_int64 rv)
domain_contains_double c (fd d) v =
    let rv = c.round v in
    if not (eq_double rv v)
    then false
    else if lt_double rv min_limit
    then false
    else if lt_double max_limit rv
    then false
    else FdDomain.contains d (c.to_int64 rv)

-- The interval from the least to the greatest member.
abbrev pub hull : FdDomain → ZDomain
hull d = record { lo = FdDomain.min d; hi = FdDomain.max d }

pub domain_intersect : Conversions → Domain → Domain → Domain
domain_intersect c (r a) (r b) = r (RDomain.intersect a b)
domain_intersect c (r a) (z b) = r (RDomain.intersect_z c.to_double a b)
domain_intersect c (r a) (fd b) =
    if FdDomain.empty b then r nothing else r (RDomain.intersect_z c.to_double a (hull b))
domain_intersect c (z a) (r b) = r (RDomain.intersect_z c.to_double b a)
domain_intersect c (fd a) (r b) =
    if FdDomain.empty a then r nothing else r (RDomain.intersect_z c.to_double b (hull a))
domain_intersect c (z a) (z b) = z (ZDomain.intersect a b)
domain_intersect c (z a) (fd b) = fd (FdDomain.intersect_z b a.lo a.hi)
domain_intersect c (fd a) (z b) = fd (FdDomain.intersect_z a b.lo b.hi)
domain_intersect c (fd a) (fd b) = fd (FdDomain.intersect a b)
