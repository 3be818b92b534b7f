-- ===== src/Clp/FdDomain/IntersectZ.antt =====
-- `intersect_z` of runtime/clp/domain.h.
use eta.Prelude.{
  ℕ, ◌+◌, ◌/◌, ◌≡◌, refl, ◌∙◌, sym, Bool, true, false, ◌||◌, ◌&&◌, List, [], ◌∷◌, replicate, arith,
  ℤ, ◌-ℤ◌, ◌≤ℤ◌, ltb_ℤ, leb_ℤ, to_u64, IsInt64,
}
use eta.Clp.BitSet.{visit, has}
use eta.Clp.ZDomain.{max_ℤ, min_ℤ}
use eta.Clp.FdDomain.{
  FdDomain, default, empty, contains, min, max, for_each, recount, shrink_to_fit, copy_common,
  copy_within, intersect_z,
}
use eta.Clp.FdDomain.Valid.{
  IsValid, members, offset, sum_of_offset, contains-member, for_each-visit, elem_ℤ, elem_ℤ-members,
}
use eta.Clp.FdDomain.Shrink.{default-IsValid}
use eta.Clp.FdDomain.Ends.{min_lem, max_lem, some_member}
use eta.Clp.FdDomain.Window.{
  result-IsValid, contains-result, Filters, branch, contains_of_empty, contains-default,
}

visit-ext :
    (f g : ℤ → List ℕ → List ℕ) (vs : List ℤ) (bits : List ℕ)
    → ((v : ℤ) (b : List ℕ) → elem_ℤ v vs ≡ true → f v b ≡ g v b)
    → visit f vs bits ≡ visit g vs bits
visit-ext f g [] bits h = refl
visit-ext f g (x ∷ vs) bits h =
    rw (h x bits (ground arith)) (visit-ext f g vs (g x bits) (λ v b e. h v b (ground arith)))

module _ (d : FdDomain) (dv : IsValid d) (lo hi : ℤ) (lo64 : IsInt64 lo) (hi64 : IsInt64 hi) where
  abbrev nlo : ℤ
  nlo = max_ℤ (min d) lo

  abbrev nhi : ℤ
  nhi = min_ℤ (max d) hi

  abbrev in_range : ℤ → Bool
  in_range v = leb_ℤ lo v && leb_ℤ v hi

  a_member : (v : ℤ) → elem_ℤ v (members d) ≡ true → IsInt64 v × (contains d v ≡ true)
  a_member v h =
      let on = sym (elem_ℤ-members d v) ∙ h in
      let from : d.base ≤ℤ v = ground arith in
      let bit_on : has d.bits (offset d.base v) ≡ true = ground arith in
      let e = sum_of_offset d.base v from in
      let in64 : IsInt64 v = rw e at (dv.fits (offset d.base v) bit_on) in
      (in64, contains-member d v dv in64 ∙ on)

  same_copy :
      (v : ℤ) (bits : List ℕ)
      → elem_ℤ v (members d) ≡ true
      → copy_within lo hi nlo v bits ≡ copy_common nlo nhi (λ _. true) v bits
  unfolding copy_within copy_common
  same_copy v bits h =
      let (in64, on) = a_member v h in
      let low = min_lem d dv v in64 on in
      let high = max_lem d dv v in64 on in ground (arith, low.1, high.1)

  z_window_in64 : empty d ≡ false → IsInt64 nlo × IsInt64 nhi
  z_window_in64 p =
      let (u, u64, u_on) = some_member d dv p in
      ground (arith, min_lem d dv u u64 u_on, max_lem d dv u u64 u_on)

  z_filtered :
      (v : ℤ)
      → IsInt64 v
      → (leb_ℤ nlo v && (contains d v && (leb_ℤ v nhi && true))) ≡ (contains d v && in_range v)
  z_filtered v in64 = ground (arith, min_lem d dv v in64, max_lem d dv v in64)

  z_full :
      empty d ≡ false
      → ltb_ℤ nhi nlo ≡ false
      → Filters d in_range (
          shrink_to_fit (
            recount (record {
              base = nlo;
              bits =
                  for_each (copy_within lo hi nlo) d (replicate (to_u64 (nhi -ℤ nlo) / 64 + 1) 0);
              count = 0;
            })))
  z_full p le =
      let (nlo64, nhi64) = z_window_in64 p in
      let ordered : nlo ≤ℤ nhi = ground arith in
      let blank = replicate {A = ℕ} (to_u64 (nhi -ℤ nlo) / 64 + 1) 0 in
      let same =
        for_each-visit (copy_within lo hi nlo) d blank dv.words
        ∙ visit-ext (copy_within lo hi nlo) (copy_common nlo nhi (λ _. true)) (members d) blank
            same_copy
        ∙ sym (for_each-visit (copy_common nlo nhi (λ _. true)) d blank dv.words) in
      rw same (
        result-IsValid nlo nhi nlo64 nhi64 ordered (λ _. true) d dv,
        λ v in64.
            contains-result nlo nhi nlo64 nhi64 ordered (λ _. true) d v dv in64 ∙ z_filtered v in64,
      )

  -- The result of `intersect_z` is well-formed, and holds exactly the members that lie in the
  -- interval.
  pub intersect_z-Filters : Filters d in_range (intersect_z d lo hi)
  unfolding intersect_z
  intersect_z-Filters =
      branch d in_range (empty d || ltb_ℤ hi lo) default _
        (λ e. (
          default-IsValid,
          λ v in64. rw (contains-default v) (ground (arith, contains_of_empty d v)),
        ))
        (λ e.
          branch d in_range (ltb_ℤ nhi nlo) default _
            (λ gap. (
              default-IsValid,
              λ v in64.
                  rw (contains-default v)
                    (ground (arith, min_lem d dv v in64, max_lem d dv v in64)),
            ))
            (λ le. z_full (ground arith) le))
