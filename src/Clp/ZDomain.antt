-- ===== src/Clp/ZDomain.antt =====
-- `ZDomain` of runtime/clp/domain.h: a closed interval of integers.
use eta.Prelude.{
  ◌≡◌, Bool, true, false, ◌&&◌, arith, ℤ, pos, ◌+ℤ◌, ◌-ℤ◌, leb_ℤ, ltb_ℤ, if◌then◌else◌,
}

pub record ZDomain : Type 0 where
  pub lo : ℤ
  pub hi : ℤ

-- `std::max` and `std::min` on `int64_t`
abbrev pub max_ℤ : ℤ → ℤ → ℤ
max_ℤ a b = if ltb_ℤ a b then b else a

abbrev pub min_ℤ : ℤ → ℤ → ℤ
min_ℤ a b = if ltb_ℤ b a then b else a

unfoldable pub empty : ZDomain → Bool
empty d = ltb_ℤ d.hi d.lo

unfoldable pub contains : ZDomain → ℤ → Bool
contains d v = leb_ℤ d.lo v && leb_ℤ v d.hi

unfoldable pub intersect : ZDomain → ZDomain → ZDomain
intersect d o = record { lo = max_ℤ d.lo o.lo; hi = min_ℤ d.hi o.hi }

unfoldable pub size : ZDomain → ℤ
unfolding empty
size d = if empty d then pos 0 else d.hi -ℤ d.lo +ℤ pos 1

-- The intersection holds exactly the common members.
pub contains-intersect :
    (d o : ZDomain) (v : ℤ) → contains (intersect d o) v ≡ (contains d v && contains o v)
unfolding contains intersect
contains-intersect d o v = ground arith

pub contains_of_empty : (d : ZDomain) (v : ℤ) → empty d ≡ true → contains d v ≡ false
unfolding contains empty
contains_of_empty d v h = ground arith
