-- ===== src/Clp/Domain/Lossless.antt =====
-- `domain_intersect` of runtime/clp/domain.h where a real interval takes part, which a bit-set
-- domain meets through its least and greatest members only.
use eta.Prelude.{
  ◌≡◌, refl, sym, ◌∙◌, Bool, true, false, ◌&&◌, if◌then◌else◌, ℕ, ℤ, IsInt64, arith, leb_ℤ, ltb_ℤ,
  ◌≤ℤ◌,
}
use eta.NanBox.{is_nan}
use eta.Clp.ZDomain.{ZDomain}
use eta.Clp.ZDomain
use eta.Clp.FdDomain.{FdDomain}
use eta.Clp.FdDomain
use eta.Clp.FdDomain.Valid.{IsValid}
use eta.Clp.FdDomain.Ends.{min_lem, max_lem}
use eta.Clp.FdDomain.Window.{contains_of_empty}
use eta.Clp.RDomain.{RDomain, double_key, le_double, lt_double, HasEnds}
use eta.Clp.RDomain
use eta.Clp.RDomain.Intersect.{above, below, contains-ends, contains-intersect_real}
use eta.Clp.Domain.{Domain, Conversions, domain_contains_int, domain_intersect, hull}
use eta.Clp.Domain.Domain.{z, fd, r}
use eta.Clp.Domain.Sound.{domain_contains_int-domain_intersect}

-- The conversion of an `int64_t` to a double rounds: it never gives a NaN and keeps the order.
pub record Rounds (c : Conversions) : Type 0 where
  pub a_number : (v : ℤ) → IsInt64 v → is_nan (c.to_double v) ≡ false
  pub in_order :
      (a b : ℤ)
      → IsInt64 a
      → IsInt64 b
      → a ≤ℤ b
      → double_key (c.to_double a) ≤ℤ double_key (c.to_double b)

-- The domains of the source: bit sets well-formed, interval ends in range and no NaN.
abbrev pub IsProper : Domain → Type 0
IsProper (z d) = IsInt64 d.lo × IsInt64 d.hi
IsProper (fd d) = IsValid d
IsProper (r d) = HasEnds d

pick_above :
    (x y open_lo : Bool) (lo zlo v : ℕ)
    → above open_lo lo v ≡ true
    → le_double zlo v ≡ true
    → above
        (if x then open_lo else (if y then false else open_lo))
        (if x then lo else (if y then zlo else lo))
        v
      ≡ true
pick_above true y o lo zlo v h k = h
pick_above false true o lo zlo v h k = k
pick_above false false o lo zlo v h k = h

pick_below :
    (x y open_hi : Bool) (hi zhi v : ℕ)
    → below open_hi hi v ≡ true
    → le_double v zhi ≡ true
    → below
        (if x then open_hi else (if y then false else open_hi))
        (if x then hi else (if y then zhi else hi))
        v
      ≡ true
pick_below true y o hi zhi v h k = h
pick_below false true o hi zhi v h k = k
pick_below false false o hi zhi v h k = h

and_true : (a b : Bool) → (a && b) ≡ true → (a ≡ true) × (b ≡ true)
and_true true true h = (refl, refl)
and_true true false h = absurd cc
and_true false b h = absurd cc

module _ (c : Conversions) (rounds : Rounds c) where
  le_converted :
      (a b : ℤ) → IsInt64 a → IsInt64 b → a ≤ℤ b → le_double (c.to_double a) (c.to_double b) ≡ true
  le_converted a b h k le =
      rw (rounds.a_number a h, rounds.a_number b k)
        (ordered (double_key (c.to_double a)) (double_key (c.to_double b))
          (rounds.in_order a b h k le))
    where
      ordered : (p q : ℤ) → p ≤ℤ q → leb_ℤ p q ≡ true
      ordered p q e = ground arith

  contains-intersect_z :
      (d : RDomain) (i : ZDomain) (v : ℤ)
      → IsInt64 i.lo
      → IsInt64 i.hi
      → IsInt64 v
      → i.lo ≤ℤ v
      → v ≤ℤ i.hi
      → RDomain.contains d (c.to_double v) ≡ true
      → RDomain.contains (RDomain.intersect_z c.to_double d i) (c.to_double v) ≡ true
  unfolding RDomain.intersect_z ZDomain.empty
  contains-intersect_z d i v lo64 hi64 v64 low high on =
      let some_there : ltb_ℤ i.hi i.lo ≡ false = ground arith in
      let (number, ends) = and_true _ _ (sym (contains-ends d (c.to_double v)) ∙ on) in
      let (over, under) = and_true _ _ ends in
      rw some_there (
        contains-ends _ (c.to_double v)
        ∙ all_true number
            (pick_above (lt_double (c.to_double i.lo) d.lo) (lt_double d.lo (c.to_double i.lo))
              d.lo_open d.lo (c.to_double i.lo) (c.to_double v) over
              (le_converted i.lo v lo64 v64 low))
            (pick_below (lt_double d.hi (c.to_double i.hi)) (lt_double (c.to_double i.hi) d.hi)
              d.hi_open d.hi (c.to_double i.hi) (c.to_double v) under
              (le_converted v i.hi v64 hi64 high)))
    where
      all_true : {p q s : Bool} → p ≡ true → q ≡ true → s ≡ true → (p && (q && s)) ≡ true
      all_true h k l = rw (h, k, l) refl

  contains-hull :
      (d : RDomain) (b : FdDomain) (v : ℤ)
      → IsValid b
      → IsInt64 v
      → RDomain.contains d (c.to_double v) ≡ true
      → FdDomain.contains b v ≡ true
      → (FdDomain.empty b ≡ false)
        × (RDomain.contains (RDomain.intersect_z c.to_double d (hull b)) (c.to_double v) ≡ true)
  contains-hull d b v valid v64 on inside =
      let (least_in, low, low64) = min_lem b valid v v64 inside in
      let (greatest_in, high, high64) = max_lem b valid v v64 inside in
      (
        not_empty (FdDomain.empty b) refl,
        contains-intersect_z d (hull b) v low64 high64 v64 low high on,
      )
    where
      clash : FdDomain.contains b v ≡ false → ⊥
      clash h = cc

      not_empty : (e : Bool) → FdDomain.empty b ≡ e → FdDomain.empty b ≡ false
      not_empty false h = h
      not_empty true h = absurd (clash (contains_of_empty b v h))

  -- An integer that is in both domains, of whatever kinds, is in the intersection: narrowing a
  -- variable's domain never loses an integer solution, if conversion to double rounds.
  pub domain_intersect-lossless :
      (a b : Domain) (v : ℤ)
      → IsProper a
      → IsProper b
      → IsInt64 v
      → domain_contains_int c a v ≡ true
      → domain_contains_int c b v ≡ true
      → domain_contains_int c (domain_intersect c a b) v ≡ true
  unfolding domain_contains_int domain_intersect ZDomain.contains
  domain_intersect-lossless (r a) (r b) v h k w on in_b =
      contains-intersect_real a b (c.to_double v) h k ∙ rw (on, in_b) refl
  domain_intersect-lossless (r a) (z b) v h k w on in_b =
      contains-intersect_z a b v k.0 k.1 w (ground arith) (ground arith) on
  domain_intersect-lossless (z a) (r b) v h k w on in_b =
      contains-intersect_z b a v h.0 h.1 w (ground arith) (ground arith) in_b
  domain_intersect-lossless (r a) (fd b) v h k w on in_b =
      let (some_there, kept) = contains-hull a b v k w on in_b in rw some_there kept
  domain_intersect-lossless (fd a) (r b) v h k w on in_b =
      let (some_there, kept) = contains-hull b a v h w in_b on in rw some_there kept
  domain_intersect-lossless (z a) (z b) v h k w on in_b =
      domain_contains_int-domain_intersect c (z a) (z b) v h k w ∙ rw (on, in_b) refl
  domain_intersect-lossless (z a) (fd b) v h k w on in_b =
      domain_contains_int-domain_intersect c (z a) (fd b) v h k w ∙ rw (on, in_b) refl
  domain_intersect-lossless (fd a) (z b) v h k w on in_b =
      domain_contains_int-domain_intersect c (fd a) (z b) v h k w ∙ rw (on, in_b) refl
  domain_intersect-lossless (fd a) (fd b) v h k w on in_b =
      domain_contains_int-domain_intersect c (fd a) (fd b) v h k w ∙ rw (on, in_b) refl
