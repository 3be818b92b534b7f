-- ===== src/Clp/FdDomain/Copy.antt =====
-- What the callbacks of runtime/clp/domain.h write into a blank window.
use eta.Prelude.{
  ℕ, ◌*◌, ◌≤◌, ◌<◌, ◌≡◌, Bool, true, false, not, ◌||◌, ◌&&◌, ◌==◌, if◌then◌else◌, List, [], ◌∷◌,
  length, arith, ℤ, pos, ◌+ℤ◌, ◌-ℤ◌, ◌≤ℤ◌, ltb_ℤ, leb_ℤ, to_u64, IsInt64, +ℤ_parts, -ℤ_parts,
  int_laws, eq_of_parts, disjoint_parts,
}
use eta.Clp.BitSet.{visit, has}
use eta.Clp.BitSet.Write.{AreWords, has-set_offset, length-set_offset, set_offset-AreWords}
use eta.Clp.FdDomain.{copy_common, insert_at}
use eta.Clp.FdDomain.Valid.{offset, cast_offset, eq_ℤ, elem_ℤ}

pub same_offset : (lo v : ℤ) (n : ℕ) → lo ≤ℤ v → (n == offset lo v) ≡ eq_ℤ (lo +ℤ pos n) v
same_offset lo v n h = ground (arith, +ℤ_parts lo (pos n), -ℤ_parts v lo, disjoint_parts (v -ℤ lo))

when : (b : Bool) (xs ys : List ℕ) → AreWords xs → AreWords ys → AreWords (if b then xs else ys)
when true xs ys p q = p
when false xs ys p q = q

module _ (lo hi : ℤ) (lo64 : IsInt64 lo) (hi64 : IsInt64 hi) (probe : ℤ → Bool) where
  -- What of the values the callback keeps, at the offset `n`.
  abbrev pub kept : ℕ → List ℤ → Bool
  kept n vs = let v = lo +ℤ pos n in elem_ℤ v vs && (leb_ℤ v hi && probe v)

  within : (v : ℤ) → lo ≤ℤ v → v ≤ℤ hi → IsInt64 v
  within v p q = omega (arith, disjoint_parts v, disjoint_parts lo, disjoint_parts hi)

  insert_kept :
      (v : ℤ) (bits : List ℕ) (n : ℕ)
      → offset lo hi < 64 * length bits
      → lo ≤ℤ v
      → v ≤ℤ hi
      → has (insert_at lo v bits) n ≡ (has bits n || eq_ℤ (lo +ℤ pos n) v)
  insert_kept v bits n fits p q =
      let near : offset lo v ≤ offset lo hi =
        omega (int_laws, eq_of_parts, disjoint_parts (v -ℤ lo), disjoint_parts (hi -ℤ lo)) in
      rw (cast_offset lo v lo64 (within v p q) p, ← same_offset lo v n p)
        (has-set_offset bits (offset lo v) n (omega arith))

  length-copy_common :
      (v : ℤ) (bits : List ℕ) → length (copy_common lo hi probe v bits) ≡ length bits
  unfolding copy_common
  length-copy_common v bits = ground (arith, length-set_offset bits (to_u64 (v -ℤ lo)))

  one_copied :
      (v : ℤ) (bits : List ℕ) (n : ℕ)
      → offset lo hi < 64 * length bits
      → has (copy_common lo hi probe v bits) n ≡ (has bits n || kept n (v ∷ []))
  unfolding copy_common
  one_copied v bits n fits =
      ground (arith, insert_kept v bits n fits, eq_of_parts (lo +ℤ pos n) v, +ℤ_parts lo (pos n))

  pub has-copied :
      (vs : List ℤ) (bits : List ℕ) (n : ℕ)
      → offset lo hi < 64 * length bits
      → has (visit (copy_common lo hi probe) vs bits) n ≡ (has bits n || kept n vs)
  has-copied [] bits n fits = ground arith
  has-copied (v ∷ vs) bits n fits = ground (
    arith,
    has-copied vs (copy_common lo hi probe v bits) n (omega (arith, length-copy_common v bits)),
    one_copied v bits n fits,
  )

  copied-AreWords :
      (v : ℤ) (bits : List ℕ) → AreWords bits → AreWords (copy_common lo hi probe v bits)
  unfolding copy_common
  copied-AreWords v bits a =
      when (ltb_ℤ v lo || ltb_ℤ hi v) _ _ a
        (when (not (probe v)) _ _ a (set_offset-AreWords bits (to_u64 (v -ℤ lo)) a))

  pub visit-AreWords :
      (vs : List ℤ) (bits : List ℕ)
      → AreWords bits
      → AreWords (visit (copy_common lo hi probe) vs bits)
  visit-AreWords [] bits a = a
  visit-AreWords (v ∷ vs) bits a =
      visit-AreWords vs (copy_common lo hi probe v bits) (copied-AreWords v bits a)
