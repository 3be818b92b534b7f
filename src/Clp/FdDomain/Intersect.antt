-- ===== src/Clp/FdDomain/Intersect.antt =====
-- `intersect` of runtime/clp/domain.h.
use eta.Prelude.{
  ◌+◌, ◌/◌, ◌≡◌, refl, ◌∙◌, sym, Bool, true, false, ◌||◌, ◌&&◌, leb, if◌then◌else◌, replicate,
  arith, ℤ, ◌-ℤ◌, ◌≤ℤ◌, ltb_ℤ, leb_ℤ, ltb→lt, to_u64, IsInt64, Bool-cases, inl, inr,
}
use eta.Clp.ZDomain.{max_ℤ, min_ℤ}
use eta.Clp.FdDomain.{
  FdDomain, default, empty, contains, min, max, for_each, recount, shrink_to_fit, copy_common,
  intersect,
}
use eta.Clp.FdDomain.Valid.{IsValid}
use eta.Clp.FdDomain.Shrink.{default-IsValid}
use eta.Clp.FdDomain.Ends.{min_lem, max_lem, some_member}
use eta.Clp.FdDomain.Window.{
  result-IsValid, contains-result, result, Filters, branch, contains_of_empty, contains-default,
}

-- The largest of the least members and the least of the largest, as `intersect` computes them.
abbrev low : FdDomain → FdDomain → ℤ
low d o = max_ℤ (min d) (min o)

abbrev high : FdDomain → FdDomain → ℤ
high d o = min_ℤ (max d) (max o)

module _ (d o : FdDomain) (dv : IsValid d) (ov : IsValid o) where
  in_window :
      (v : ℤ)
      → IsInt64 v
      → contains d v ≡ true
      → contains o v ≡ true
      → (low d o ≤ℤ v) × (v ≤ℤ high d o)
  in_window v in64 p q = ground (
    arith,
    min_lem d dv v in64 p,
    min_lem o ov v in64 q,
    max_lem d dv v in64 p,
    max_lem o ov v in64 q,
  )

  window_in64 : empty d ≡ false → empty o ≡ false → IsInt64 (low d o) × IsInt64 (high d o)
  window_in64 p q =
      let (u, u64, u_on) = some_member d dv p in
      let (w, w64, w_on) = some_member o ov q in
      ground (
        arith,
        min_lem d dv u u64 u_on,
        min_lem o ov w w64 w_on,
        max_lem d dv u u64 u_on,
        max_lem o ov w w64 w_on,
      )

  none_common :
      (v : ℤ)
      → IsInt64 v
      → ltb_ℤ (high d o) (low d o) ≡ true
      → (contains d v && contains o v) ≡ false
  none_common v in64 gap = elim (Bool-cases (contains d v)) [
    | inr out ↦ rw out refl
    | inl on ↦ elim (Bool-cases (contains o v)) [
      | inr out ↦ rw (on, out) refl
      | inl also ↦ absurd (cross (in_window v in64 on also))
    ]
  ]
    where
      cross : (low d o ≤ℤ v) × (v ≤ℤ high d o) → ⊥
      cross h = omega (arith, h, ltb→lt _ _ gap)

  filtered :
      (v : ℤ) (b : Bool)
      → IsInt64 v
      → (leb_ℤ (low d o) v
          && (contains (if b then d else o) v
              && (leb_ℤ v (high d o) && contains (if b then o else d) v)))
        ≡ (contains d v && contains o v)
  filtered v true in64 = ground (arith, in_window v in64)
  filtered v false in64 = ground (arith, in_window v in64)

  core :
      (b : Bool) (lo64 : IsInt64 (low d o)) (hi64 : IsInt64 (high d o)) (le : low d o ≤ℤ high d o)
      → Filters d (contains o) (
          result
            (low d o)
            (high d o)
            lo64
            hi64
            le
            (contains (if b then o else d))
            (if b then d else o))
  core true lo64 hi64 le = (
    result-IsValid (low d o) (high d o) lo64 hi64 le (contains o) d dv,
    λ v in64.
        contains-result (low d o) (high d o) lo64 hi64 le (contains o) d v dv in64
        ∙ filtered v true in64,
  )
  core false lo64 hi64 le = (
    result-IsValid (low d o) (high d o) lo64 hi64 le (contains d) o ov,
    λ v in64.
        contains-result (low d o) (high d o) lo64 hi64 le (contains d) o v ov in64
        ∙ filtered v false in64,
  )

  both_full : (empty d || empty o) ≡ false → (empty d ≡ false) × (empty o ≡ false)
  both_full e = ground arith

  full-Filters :
      empty d ≡ false
      → empty o ≡ false
      → ltb_ℤ (high d o) (low d o) ≡ false
      → (b : Bool)
      → Filters d (contains o) (
          shrink_to_fit (
            recount (record {
              base = low d o;
              bits =
                  for_each
                    (copy_common (low d o) (high d o) (contains (if b then o else d)))
                    (if b then d else o)
                    (replicate (to_u64 (high d o -ℤ low d o) / 64 + 1) 0);
              count = 0;
            })))
  full-Filters p q le b = let (lo64, hi64) = window_in64 p q in core b lo64 hi64 (ground arith)

  -- The result of `intersect` is well-formed, and holds exactly the common members.
  pub intersect-Filters : Filters d (contains o) (intersect d o)
  unfolding intersect
  intersect-Filters =
      branch d (contains o) (empty d || empty o) default _
        (λ e. (
          default-IsValid,
          λ v in64.
              rw (contains-default v)
                (ground (arith, contains_of_empty d v, contains_of_empty o v)),
        ))
        (λ e.
          branch d (contains o) (ltb_ℤ (high d o) (low d o)) default _
            (λ gap. (default-IsValid, λ v in64. contains-default v ∙ sym (none_common v in64 gap)))
            (λ le. full-Filters (both_full e).0 (both_full e).1 le (leb d.count o.count)))
