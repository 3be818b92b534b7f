-- ===== src/Clp/FdDomain/Window.antt =====
-- The window that both intersections of runtime/clp/domain.h fill and shrink.
use eta.Prelude.{
  ℕ, ◌+◌, ◌*◌, ◌/◌, ◌<◌, ◌≡◌, refl, ap, ◌∙◌, Bool, true, false, ◌&&◌, if◌then◌else◌, List, length,
  replicate, length-replicate, arith, ℤ, pos, ◌+ℤ◌, ◌-ℤ◌, ◌≤ℤ◌, ltb_ℤ, leb_ℤ, leb→le, to_u64,
  IsInt64, +ℤ_parts, disjoint_parts, Bool-cases, inl, inr,
}
use eta.Clp.BitSet.{visit, has}
use eta.Clp.BitSet.Write.{has-replicate_zero, replicate-AreWords}
use eta.Clp.FdDomain.{
  FdDomain, default, empty, contains, for_each, recount, shrink_to_fit, copy_common,
}
use eta.Clp.FdDomain.Valid.{
  IsValid, member, members, offset, cast_offset, sum_of_offset, contains-member, for_each-visit,
  elem_ℤ, elem_ℤ-members,
}
use eta.Clp.FdDomain.Shrink.{member-shrink_to_fit, shrink_to_fit-IsValid}
use eta.Clp.FdDomain.Copy.{has-copied, visit-AreWords, kept}

module _ (lo hi : ℤ) (lo64 : IsInt64 lo) (hi64 : IsInt64 hi) (le : lo ≤ℤ hi)
    (probe : ℤ → Bool) where
  abbrev pub blank : List ℕ
  blank = replicate (to_u64 (hi -ℤ lo) / 64 + 1) 0

  abbrev pub window : List ℤ → FdDomain
  window vs =
      recount (record { base = lo; bits = visit (copy_common lo hi probe) vs blank; count = 0 })

  room : offset lo hi < 64 * length blank
  room =
      let e : to_u64 (hi -ℤ lo) ≡ offset lo hi = cast_offset lo hi lo64 hi64 le in
      rw (length-replicate {A = ℕ} (to_u64 (hi -ℤ lo) / 64 + 1) 0, e) (omega arith)

  pub has-window :
      (vs : List ℤ) (n : ℕ)
      → has (visit (copy_common lo hi probe) vs blank) n ≡ kept lo hi lo64 hi64 probe n vs
  has-window vs n =
      has-copied lo hi lo64 hi64 probe vs blank n room
      ∙ rw (has-replicate_zero (to_u64 (hi -ℤ lo) / 64 + 1) n) refl

  pub window-IsValid : (vs : List ℤ) → IsValid (window vs)
  unfolding recount
  window-IsValid vs = record {
    words = visit-AreWords lo hi lo64 hi64 probe vs blank (replicate-AreWords _ 0 (omega arith));
    counted = refl;
    based = lo64;
    fits = λ n on.
        let below : leb_ℤ (lo +ℤ pos n) hi ≡ true = ground (arith, has-window vs n) in
        omega (
          arith,
          leb→le _ _ below,
          +ℤ_parts lo (pos n),
          disjoint_parts lo,
          disjoint_parts hi,
          disjoint_parts (lo +ℤ pos n),
        );
  }

  member-window :
      (vs : List ℤ) (v : ℤ)
      → member lo (window vs).bits v ≡ (leb_ℤ lo v && (elem_ℤ v vs && (leb_ℤ v hi && probe v)))
  unfolding recount
  member-window vs v = elim (Bool-cases (ltb_ℤ v lo)) [
    | inl below ↦ rw below (ground arith)
    | inr above ↦
        let from : lo ≤ℤ v = ground arith in
        rw (above, has-window vs (offset lo v), sum_of_offset lo v from) (ground arith)
  ]

  -- The whole of what both intersections compute once the window [lo, hi] is known.
  abbrev pub result : FdDomain → FdDomain
  result src = shrink_to_fit (
      recount
        (record { base = lo; bits = for_each (copy_common lo hi probe) src blank; count = 0 }))

  result-window : (src : FdDomain) → IsValid src → result src ≡ shrink_to_fit (window (members src))
  result-window src valid =
      ap (λ (bits : List ℕ). shrink_to_fit (recount (record { base = lo; bits = bits; count = 0 })))
        (for_each-visit (copy_common lo hi probe) src blank valid.words)

  pub result-IsValid : (src : FdDomain) → IsValid src → IsValid (result src)
  result-IsValid src valid =
      rw (result-window src valid)
        (shrink_to_fit-IsValid (window (members src)) (window-IsValid (members src)))

  pub contains-result :
      (src : FdDomain) (v : ℤ)
      → IsValid src
      → IsInt64 v
      → contains (result src) v ≡ (leb_ℤ lo v && (contains src v && (leb_ℤ v hi && probe v)))
  unfolding recount
  contains-result src v valid in64 =
      let vs = members src in
      rw (result-window src valid) (
        contains-member (shrink_to_fit (window vs)) v
          (shrink_to_fit-IsValid (window vs) (window-IsValid vs)) in64
        ∙ member-shrink_to_fit (window vs) v
        ∙ member-window vs v
        ∙ rw (elem_ℤ-members src v, contains-member src v valid in64) refl)

-- `x` is well-formed and holds what both `d` and the test `p` accept.
abbrev pub Filters : FdDomain → (ℤ → Bool) → FdDomain → Type 0
Filters d p x = IsValid x × ((v : ℤ) → IsInt64 v → contains x v ≡ (contains d v && p v))

pub branch :
    (d : FdDomain) (p : ℤ → Bool) (b : Bool) (x y : FdDomain)
    → (b ≡ true → Filters d p x)
    → (b ≡ false → Filters d p y)
    → Filters d p (if b then x else y)
branch d p true x y h k = h refl
branch d p false x y h k = k refl

pub contains_of_empty : (d : FdDomain) (v : ℤ) → empty d ≡ true → contains d v ≡ false
unfolding contains empty
contains_of_empty d v h = ground arith

pub contains-default : (v : ℤ) → contains default v ≡ false
unfolding contains
contains-default v = refl
