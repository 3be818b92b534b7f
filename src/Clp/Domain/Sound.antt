-- ===== src/Clp/Domain/Sound.antt =====
-- `domain_intersect` of runtime/clp/domain.h, by the kinds of its arguments.
use eta.Prelude.{◌≡◌, refl, ◌∙◌, Bool, true, false, ◌&&◌, ℤ, IsInt64}
use eta.Clp.ZDomain.{ZDomain}
use eta.Clp.ZDomain
use eta.Clp.FdDomain.{FdDomain}
use eta.Clp.FdDomain
use eta.Clp.FdDomain.Valid.{IsValid}
use eta.Clp.FdDomain.Intersect.{intersect-Filters}
use eta.Clp.FdDomain.IntersectZ.{intersect_z-Filters}
use eta.Clp.Domain.{Domain, Conversions, domain_contains_int, domain_intersect}
use eta.Clp.Domain.Domain.{z, fd, r}

-- The domains that hold integers only, well-formed.
abbrev pub IsIntegral : Domain → Type 0
IsIntegral (z d) = IsInt64 d.lo × IsInt64 d.hi
IsIntegral (fd d) = IsValid d
IsIntegral (r d) = ⊥

and_comm : (a b : Bool) → (a && b) ≡ (b && a)
and_comm true true = refl
and_comm true false = refl
and_comm false true = refl
and_comm false false = refl

-- On domains of integers, whichever of the two kinds each is, the intersection holds exactly the
-- common members.
pub domain_contains_int-domain_intersect :
    (c : Conversions) (a b : Domain) (v : ℤ)
    → IsIntegral a
    → IsIntegral b
    → IsInt64 v
    → domain_contains_int c (domain_intersect c a b) v
      ≡ (domain_contains_int c a v && domain_contains_int c b v)
unfolding domain_contains_int domain_intersect ZDomain.contains
domain_contains_int-domain_intersect c (z a) (z b) v h k w = ZDomain.contains-intersect a b v
domain_contains_int-domain_intersect c (z a) (fd b) v h k w =
    (intersect_z-Filters b k a.lo a.hi h.0 h.1).1 v w ∙ and_comm (FdDomain.contains b v) _
domain_contains_int-domain_intersect c (fd a) (z b) v h k w =
    (intersect_z-Filters a h b.lo b.hi k.0 k.1).1 v w
domain_contains_int-domain_intersect c (fd a) (fd b) v h k w = (intersect-Filters a b h k).1 v w
domain_contains_int-domain_intersect c (r a) b v h k w = elim h [ ]
domain_contains_int-domain_intersect c (z a) (r b) v h k w = elim k [ ]
domain_contains_int-domain_intersect c (fd a) (r b) v h k w = elim k [ ]
