-- ===== src/Clp/FdDomain/Build.antt =====
-- The constructors of runtime/clp/domain.h: `from_range`, `from_sorted_unique` and `singleton`.
use eta.Prelude.{
  ℕ, zero, suc, ◌+◌, ◌-◌, ◌*◌, ◌/◌, ◌%◌, ◌^◌, ◌<◌, ◌≡◌, refl, ap, ◌∙◌, sym, Bool, true, false, ◌&&◌,
  ltb, leb, if◌then◌else◌, List, [], ◌∷◌, length, length-replicate, get_or, set, replicate, arith,
  ℤ, pos, pos_part, ◌+ℤ◌, ◌-ℤ◌, ◌≤ℤ◌, ltb_ℤ, leb_ℤ, ltb→lt, IsInt64, -ℤ_parts, int_laws,
  disjoint_parts, Bool-cases, inl, inr, bit, bit_ones, bit-zero, two_pow_mono,
}
use eta.Clp.BitSet.{has, offsets, elem, elem-offsets}
use eta.Clp.BitSet.Order.{
  total_popcount-length, Ascending, AllAbove, Ascending-ext, offsets-Ascending,
}
use eta.Clp.BitSet.Write.{AreWords, replicate-AreWords, get_or-set, set-AreWords}
use eta.Clp.FdDomain.{FdDomain, from_range, last_word, contains, singleton}
use eta.Clp.FdDomain.Valid.{IsValid, offset, contains-member}
use eta.Clp.FdDomain.Shrink.{default-IsValid}
use eta.Clp.FdDomain.Window.{contains-default}

-- The words that `from_range` writes for `total` values.
abbrev nwords : ℕ → ℕ
nwords total = (total + 64 - 1) / 64

abbrev used : ℕ → ℕ
used total = total - (nwords total - 1) * 64

abbrev ones : ℕ → List ℕ
ones total = replicate (nwords total) (2 ^ 64 - 1)

abbrev range_bits : ℕ → List ℕ
range_bits total =
    if ltb (used total) 64
    then set (ones total) (nwords total - 1) (last_word (used total))
    else ones total

get_or-replicate : (k i w : ℕ) → get_or (replicate k w) i 0 ≡ (if ltb i k then w else 0)
get_or-replicate zero i w = ground arith
get_or-replicate (suc k) zero w = ground arith
get_or-replicate (suc k) (suc i) w = ground (arith, get_or-replicate k i w)

last_word-bit : (u i : ℕ) → 0 < u → u < 64 → bit (last_word u) i ≡ (if ltb i u then 1 else 0)
last_word-bit u i p h = ground (arith, bit_ones u i)

has-range_bits : (total n : ℕ) → 0 < total → has (range_bits total) n ≡ ltb n total
unfolding has
has-range_bits total n p = ground (
  arith,
  get_or-replicate (nwords total) (n / 64) (2 ^ 64 - 1),
  get_or-set (ones total) (nwords total - 1) (n / 64) (last_word (used total)),
  length-replicate {A = ℕ} (nwords total) (2 ^ 64 - 1),
  last_word-bit (used total) (n % 64),
  bit_ones 64 (n % 64),
  bit-zero (n % 64),
)

-- The offsets k, k + 1, ..., k + n - 1.
abbrev run : ℕ → ℕ → List ℕ
run k zero = []
run k (suc n) = k ∷ run (k + 1) n

elem-run : (k n m : ℕ) → elem m (run k n) ≡ (leb k m && ltb m (k + n))
elem-run k zero m = ground arith
elem-run k (suc n) m = ground (arith, elem-run (k + 1) n m)

AllAbove-run : (x k n : ℕ) → x < k → AllAbove x (run k n)
AllAbove-run x k zero h = tt
AllAbove-run x k (suc n) h = (h, AllAbove-run x (k + 1) n (omega arith))

run-Ascending : (k n : ℕ) → Ascending (run k n)
run-Ascending k zero = tt
run-Ascending k (suc n) = (AllAbove-run k (k + 1) n (omega arith), run-Ascending (k + 1) n)

length-run : (k n : ℕ) → length (run k n) ≡ n
length-run k zero = refl
length-run k (suc n) = ap suc (length-run (k + 1) n)

offsets-range_bits : (total : ℕ) → 0 < total → offsets (range_bits total) ≡ run 0 total
offsets-range_bits total p =
    Ascending-ext (offsets (range_bits total)) (run 0 total) (offsets-Ascending (range_bits total))
      (run-Ascending 0 total)
      (λ n.
        elem-offsets n (range_bits total)
        ∙ has-range_bits total n p
        ∙ sym (elem-run 0 total n ∙ ground arith))

range_bits-AreWords : (total : ℕ) → AreWords (range_bits total)
range_bits-AreWords total = pick (ltb (used total) 64) _ _ last all
  where
    all : AreWords (ones total)
    all = replicate-AreWords (nwords total) (2 ^ 64 - 1) (omega arith)

    fits : last_word (used total) < 2 ^ 64
    fits = ground (arith, two_pow_mono (used total) 64)

    last : AreWords (set (ones total) (nwords total - 1) (last_word (used total)))
    last = set-AreWords (ones total) (nwords total - 1) (last_word (used total)) fits all

    pick : (b : Bool) (xs ys : List ℕ) → AreWords xs → AreWords ys → AreWords (if b then xs else ys)
    pick true xs ys p q = p
    pick false xs ys p q = q

module _ (lo hi : ℤ) (lo64 : IsInt64 lo) (hi64 : IsInt64 hi) (le : lo ≤ℤ hi) where
  abbrev total : ℕ
  total = pos_part (hi -ℤ lo +ℤ pos 1)

  abbrev ranged : FdDomain
  ranged = record { base = lo; bits = range_bits total; count = total }

  total_lem : total ≡ offset lo hi + 1
  total_lem = omega (int_laws, disjoint_parts (hi -ℤ lo), disjoint_parts (hi -ℤ lo +ℤ pos 1))

  has-ranged : (n : ℕ) → has (range_bits total) n ≡ ltb n total
  has-ranged n = has-range_bits total n (omega (arith, total_lem))

  ranged-IsValid : IsValid ranged
  ranged-IsValid = record {
    words = range_bits-AreWords total;
    counted = sym (
        total_popcount-length (range_bits total)
        ∙ ap length (offsets-range_bits total (omega (arith, total_lem)))
        ∙ length-run 0 total);
    based = lo64;
    fits = λ n on.
        let below : n < total = ltb→lt n total (sym (has-ranged n) ∙ on) in
        omega (
          int_laws,
          total_lem,
          below,
          disjoint_parts lo,
          disjoint_parts hi,
          disjoint_parts (hi -ℤ lo),
          disjoint_parts (lo +ℤ pos n),
        );
  }

  contains-ranged : (v : ℤ) → IsInt64 v → contains ranged v ≡ (leb_ℤ lo v && leb_ℤ v hi)
  contains-ranged v in64 =
      contains-member ranged v ranged-IsValid in64
      ∙ ground (
        arith,
        has-ranged (offset lo v),
        total_lem,
        -ℤ_parts v lo,
        -ℤ_parts hi lo,
        disjoint_parts (v -ℤ lo),
        disjoint_parts (hi -ℤ lo),
      )

pub from_range_lem :
    (lo hi : ℤ)
    → IsInt64 lo
    → IsInt64 hi
    → IsInt64 (hi -ℤ lo +ℤ pos 1)
    → IsValid (from_range lo hi)
      × ((v : ℤ) → IsInt64 v → contains (from_range lo hi) v ≡ (leb_ℤ lo v && leb_ℤ v hi))
unfolding from_range
from_range_lem lo hi lo64 hi64 total64 = elim (Bool-cases (ltb_ℤ hi lo)) [
  | inl none ↦ rw (none, from_range) (default-IsValid, λ v in64. contains-default v ∙ ground arith)
  | inr some_value ↦
      let le : lo ≤ℤ hi = ground arith in
      rw (some_value, from_range)
        (ranged-IsValid lo hi lo64 hi64 le, contains-ranged lo hi lo64 hi64 le)
]

-- A singleton is the range from its value to its value.
pub singleton-from_range : (u : ℤ) → singleton u ≡ from_range u u
unfolding singleton from_range
singleton-from_range u =
    let full : ltb_ℤ u u ≡ false = ground arith in
    let one : pos_part (u -ℤ u +ℤ pos 1) ≡ 1 =
      omega (int_laws, disjoint_parts (u -ℤ u), disjoint_parts (u -ℤ u +ℤ pos 1)) in
    rw (full, from_range, one) refl
