-- ===== src/Clp/FdDomain/Ends.antt =====
-- `min` and `max` of runtime/clp/domain.h.
use eta.Prelude.{
  ℕ, zero, suc, ◌+◌, ◌-◌, ◌*◌, ◌<◌, ◌≡◌, refl, ◌∙◌, sym, true, false, ◌==◌, List, [], ◌∷◌, length,
  get_or, arith, ℤ, pos, ◌+ℤ◌, ◌-ℤ◌, ◌≤ℤ◌, IsInt64, +ℤ_parts, int_laws, disjoint_parts, Bool-cases,
  inl, inr,
}
use eta.Clp.BitSet.{has, has-nil, offsets, elem, elem-offsets}
use eta.Clp.BitSet.Order.{total_popcount-length}
use eta.Clp.BitSet.Write.{AreWords}
use eta.Clp.BitSet.Ends.{
  has_zero_word, lower_word, min_offset, max_offset, min_offset_lem, max_offset_lem,
}
use eta.Clp.FdDomain.{FdDomain, min_from, min, max_below, max, contains, empty}
use eta.Clp.FdDomain.Valid.{IsValid, offset, add_pos, offset_of_sum, has-beyond, contains-member}

min_from_offset :
    (base : ℤ) (i n : ℕ) (ws : List ℕ)
    → AreWords ws
    → has ws n ≡ true
    → min_from base i ws ≡ base +ℤ pos (i * 64 + min_offset ws)
unfolding min_from min_offset
min_from_offset base i n [] a h = absurd (ground (arith, has-nil n))
min_from_offset base i n (w ∷ ws) a h = elim (Bool-cases (w == 0)) [
  | inl blank ↦
      let z : w ≡ 0 = ground arith in
      let later = has_zero_word ws n (rw z at h) in
      let e : (i + 1) * 64 + min_offset ws ≡ i * 64 + (64 + min_offset ws) = omega arith in
      rw (blank, min_from, min_offset)
        (min_from_offset base (i + 1) (n - 64) ws a.1 later.1 ∙ rw e refl)
  | inr full ↦ rw (full, min_from, min_offset) (add_pos base (i * 64) _)
]

max_below_offset :
    (base : ℤ) (ws : List ℕ) (i n : ℕ)
    → n < 64 * i
    → has ws n ≡ true
    → max_below base ws i ≡ base +ℤ pos (max_offset ws i)
unfolding max_below max_offset
max_below_offset base ws zero n s h = absurd (omega arith)
max_below_offset base ws (suc i) n s h = elim (Bool-cases (get_or ws i 0 == 0)) [
  | inl blank ↦
      rw (blank, max_below, max_offset)
        (max_below_offset base ws i n (lower_word ws i n (ground arith) s h) h)
  | inr full ↦ rw (full, max_below, max_offset) (add_pos base (i * 64) _)
]

module _ (d : FdDomain) (valid : IsValid d) (v : ℤ) (in64 : IsInt64 v)
    (on : contains d v ≡ true) where
  at_offset : (d.base ≤ℤ v) × (has d.bits (offset d.base v) ≡ true)
  at_offset = ground (arith, contains-member d v valid in64)

  in_window : offset d.base v < 64 * length d.bits
  in_window = ground (arith, has-beyond d.bits (offset d.base v), at_offset)

  member_at : (m : ℕ) → has d.bits m ≡ true → contains d (d.base +ℤ pos m) ≡ true
  member_at m h =
      contains-member d (d.base +ℤ pos m) valid (valid.fits m h)
      ∙ rw (offset_of_sum d.base m) (ground (arith, +ℤ_parts d.base (pos m)))

  -- Where a domain has a member at all, `min` is a member, and no member is less.
  pub min_lem : (contains d (min d) ≡ true) × (min d ≤ℤ v) × IsInt64 (min d)
  unfolding min
  min_lem =
      let (on_base, on_bit) = at_offset in
      let found = min_offset_lem d.bits (offset d.base v) valid.words on_bit in
      let zero_word : 0 * 64 + min_offset d.bits ≡ min_offset d.bits = omega arith in
      rw (min_from_offset d.base 0 (offset d.base v) d.bits valid.words on_bit, zero_word)
        (
          member_at (min_offset d.bits) found.0,
          omega (int_laws, disjoint_parts (v -ℤ d.base), on_base, found.1),
          valid.fits (min_offset d.bits) found.0,
        )

  -- Where a domain has a member at all, `max` is a member, and no member is greater.
  pub max_lem : (contains d (max d) ≡ true) × (v ≤ℤ max d) × IsInt64 (max d)
  unfolding max
  max_lem =
      let (on_base, on_bit) = at_offset in
      let n = length d.bits in
      let found = max_offset_lem d.bits n (offset d.base v) valid.words in_window on_bit in
      rw (max_below_offset d.base d.bits n (offset d.base v) in_window on_bit) (
        member_at (max_offset d.bits n) found.0,
        omega (int_laws, disjoint_parts (v -ℤ d.base), on_base, found.1),
        valid.fits (max_offset d.bits n) found.0,
      )

-- A domain that is not empty has a member.
pub some_member :
    (d : FdDomain) → IsValid d → empty d ≡ false → (v : ℤ) × IsInt64 v × (contains d v ≡ true)
unfolding empty
some_member d valid h =
    let (n, on) =
      first (offsets d.bits) (ground (arith, total_popcount-length d.bits, valid.counted)) in
    let bit_on : has d.bits n ≡ true = sym (elem-offsets n d.bits) ∙ on in
    let v = d.base +ℤ pos n in
    let in64 = valid.fits n bit_on in
    (
      v,
      in64,
      contains-member d v valid in64
          ∙ rw (offset_of_sum d.base n) (ground (arith, +ℤ_parts d.base (pos n), bit_on)),
    )
  where
    first : (xs : List ℕ) → 0 < length xs → (n : ℕ) × (elem n xs ≡ true)
    first [] e = absurd (omega arith)
    first (x ∷ xs) e = (x, ground arith)
