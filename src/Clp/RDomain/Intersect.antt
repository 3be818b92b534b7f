-- ===== src/Clp/RDomain/Intersect.antt =====
-- `RDomain::contains` and `RDomain::intersect` of runtime/clp/domain.h.
use eta.Prelude.{
  ℕ, ◌≡◌, refl, sym, ap, ◌∙◌, Bool, true, false, not, ◌&&◌, ◌||◌, arith, ℤ, leb_ℤ, ltb_ℤ,
  if◌then◌else◌, Bool-cases, inl, inr,
}
use mathlib.Core.Path.{ap₂}
use eta.NanBox.{is_nan}
use eta.Clp.RDomain.{RDomain, contains, intersect, HasEnds, lt_double, le_double, double_key}

drop_true : (n x : Bool) → ((n && true) && x) ≡ (n && x)
drop_true true x = refl
drop_true false x = refl

-- The test of one end.
abbrev pub above : Bool → ℕ → ℕ → Bool
above strict lo v = if strict then lt_double lo v else le_double lo v

abbrev pub below : Bool → ℕ → ℕ → Bool
below strict hi v = if strict then lt_double v hi else le_double v hi

pub contains-ends :
    (d : RDomain) (v : ℕ)
    → contains d v ≡ (not (is_nan v) && (above d.lo_open d.lo v && below d.hi_open d.hi v))
unfolding contains
contains-ends d v = ground arith

-- The same on the places of the doubles.
over : Bool → ℤ → ℤ → Bool
over strict k v = if strict then ltb_ℤ k v else leb_ℤ k v

over_pick :
    (a b v : ℤ) (p q : Bool)
    → over
        (if ltb_ℤ b a then p else (if ltb_ℤ a b then q else p || q))
        (if ltb_ℤ b a then a else (if ltb_ℤ a b then b else a))
        v
      ≡ (over p a v && over q b v)
unfolding over
over_pick a b v p q = elim (Bool-cases (ltb_ℤ b a)) [
  | inl gt ↦ rw gt (greater p q gt)
  | inr not_gt ↦ elim (Bool-cases (ltb_ℤ a b)) [
    | inl lt ↦ rw (not_gt, lt) (less p q lt)
    | inr not_lt ↦ rw (not_gt, not_lt) (same p q not_gt not_lt)
  ]
]
  where
    greater : (p q : Bool) → ltb_ℤ b a ≡ true → over p a v ≡ (over p a v && over q b v)
    greater true true h = ground arith
    greater true false h = ground arith
    greater false true h = ground arith
    greater false false h = ground arith

    less : (p q : Bool) → ltb_ℤ a b ≡ true → over q b v ≡ (over p a v && over q b v)
    less true true h = ground arith
    less true false h = ground arith
    less false true h = ground arith
    less false false h = ground arith

    same :
        (p q : Bool)
        → ltb_ℤ b a ≡ false
        → ltb_ℤ a b ≡ false
        → over (p || q) a v ≡ (over p a v && over q b v)
    same true true h k = ground arith
    same true false h k = ground arith
    same false true h k = ground arith
    same false false h k = ground arith

above-over :
    (strict : Bool) (a v : ℕ)
    → is_nan a ≡ false
    → above strict a v ≡ (not (is_nan v) && over strict (double_key a) (double_key v))
unfolding over
above-over true a v h = rw h refl
above-over false a v h = rw h refl

under : Bool → ℤ → ℤ → Bool
under strict k v = if strict then ltb_ℤ v k else leb_ℤ v k

under_pick :
    (a b v : ℤ) (p q : Bool)
    → under
        (if ltb_ℤ a b then p else (if ltb_ℤ b a then q else p || q))
        (if ltb_ℤ a b then a else (if ltb_ℤ b a then b else a))
        v
      ≡ (under p a v && under q b v)
unfolding under
under_pick a b v p q = elim (Bool-cases (ltb_ℤ a b)) [
  | inl gt ↦ rw gt (greater p q gt)
  | inr not_gt ↦ elim (Bool-cases (ltb_ℤ b a)) [
    | inl lt ↦ rw (not_gt, lt) (less p q lt)
    | inr not_lt ↦ rw (not_gt, not_lt) (same p q not_gt not_lt)
  ]
]
  where
    greater : (p q : Bool) → ltb_ℤ a b ≡ true → under p a v ≡ (under p a v && under q b v)
    greater true true h = ground arith
    greater true false h = ground arith
    greater false true h = ground arith
    greater false false h = ground arith

    less : (p q : Bool) → ltb_ℤ b a ≡ true → under q b v ≡ (under p a v && under q b v)
    less true true h = ground arith
    less true false h = ground arith
    less false true h = ground arith
    less false false h = ground arith

    same :
        (p q : Bool)
        → ltb_ℤ a b ≡ false
        → ltb_ℤ b a ≡ false
        → under (p || q) a v ≡ (under p a v && under q b v)
    same true true h k = ground arith
    same true false h k = ground arith
    same false true h k = ground arith
    same false false h k = ground arith

below-under :
    (strict : Bool) (a v : ℕ)
    → is_nan a ≡ false
    → below strict a v ≡ (not (is_nan v) && under strict (double_key a) (double_key v))
unfolding under
below-under true a v h = rw h (drop_true (not (is_nan v)) _)
below-under false a v h = rw h (drop_true (not (is_nan v)) _)

lt-keys :
    (a b : ℕ)
    → is_nan a ≡ false
    → is_nan b ≡ false
    → lt_double a b ≡ ltb_ℤ (double_key a) (double_key b)
lt-keys a b h k = rw (h, k) refl

both : (n a b : Bool) → (n && (a && b)) ≡ ((n && a) && (n && b))
both true a b = refl
both false a b = refl

above_greater :
    (a b v : ℕ) (p q : Bool)
    → is_nan a ≡ false
    → is_nan b ≡ false
    → above
        (if lt_double b a then p else (if lt_double a b then q else p || q))
        (if lt_double b a then a else (if lt_double a b then b else a))
        v
      ≡ (above p a v && above q b v)
above_greater a b v p q h k =
    ap₂
      (λ x y.
        above (if x then p else (if y then q else p || q)) (if x then a else (if y then b else a))
          v)
      (lt-keys b a k h) (lt-keys a b h k)
    ∙ (picked (ltb_ℤ (double_key b) (double_key a)) (ltb_ℤ (double_key a) (double_key b))
        ∙ ap (λ t. not (is_nan v) && t) (over_pick (double_key a) (double_key b) (double_key v) p q)
        ∙ both (not (is_nan v)) (over p (double_key a) (double_key v))
            (over q (double_key b) (double_key v))
        ∙ ap₂ ◌&&◌ (sym (above-over p a v h)) (sym (above-over q b v k)))
  where
    picked :
        (x y : Bool)
        → above
            (if x then p else (if y then q else p || q))
            (if x then a else (if y then b else a))
            v
          ≡ (not (is_nan v)
              && over
                  (if x then p else (if y then q else p || q))
                  (if x then double_key a else (if y then double_key b else double_key a))
                  (double_key v))
    picked true y = above-over p a v h
    picked false true = above-over q b v k
    picked false false = above-over (p || q) a v h

below_smaller :
    (a b v : ℕ) (p q : Bool)
    → is_nan a ≡ false
    → is_nan b ≡ false
    → below
        (if lt_double a b then p else (if lt_double b a then q else p || q))
        (if lt_double a b then a else (if lt_double b a then b else a))
        v
      ≡ (below p a v && below q b v)
below_smaller a b v p q h k =
    ap₂
      (λ x y.
        below (if x then p else (if y then q else p || q)) (if x then a else (if y then b else a))
          v)
      (lt-keys a b h k) (lt-keys b a k h)
    ∙ (picked (ltb_ℤ (double_key a) (double_key b)) (ltb_ℤ (double_key b) (double_key a))
        ∙ ap (λ t. not (is_nan v) && t)
            (under_pick (double_key a) (double_key b) (double_key v) p q)
        ∙ both (not (is_nan v)) (under p (double_key a) (double_key v))
            (under q (double_key b) (double_key v))
        ∙ ap₂ ◌&&◌ (sym (below-under p a v h)) (sym (below-under q b v k)))
  where
    picked :
        (x y : Bool)
        → below
            (if x then p else (if y then q else p || q))
            (if x then a else (if y then b else a))
            v
          ≡ (not (is_nan v)
              && under
                  (if x then p else (if y then q else p || q))
                  (if x then double_key a else (if y then double_key b else double_key a))
                  (double_key v))
    picked true y = below-under p a v h
    picked false true = below-under q b v k
    picked false false = below-under (p || q) a v h

four : (n a b c d : Bool) → (n && ((a && b) && (c && d))) ≡ ((n && (a && c)) && (n && (b && d)))
four true a b c d = ground arith
four false a b c d = refl

-- The intersection of two intervals holds exactly their common members, ends included, if no end is
-- a NaN.
pub contains-intersect_real :
    (d o : RDomain) (v : ℕ)
    → HasEnds d
    → HasEnds o
    → contains (intersect d o) v ≡ (contains d v && contains o v)
unfolding intersect
contains-intersect_real d o v h k =
    rw
      (
        contains-ends (intersect d o) v,
        contains-ends d v,
        contains-ends o v,
        above_greater d.lo o.lo v d.lo_open o.lo_open h.0 k.0,
        below_smaller d.hi o.hi v d.hi_open o.hi_open h.1 k.1,
      )
      (four (not (is_nan v)) (above d.lo_open d.lo v) (above o.lo_open o.lo v)
        (below d.hi_open d.hi v) (below o.hi_open o.hi v))
