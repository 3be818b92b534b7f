-- ===== src/Clp/FdDomain.antt =====
-- `FDDomain` of eta/core/src/eta/runtime/clp/domain.h: a finite set of integers as a list of 64-bit
-- words over a window that begins at `base`. Signed overflow is undefined in the source, so
-- `int64_t` sums are exact here; the casts to `uint64_t` wrap.
pub mod Valid
pub mod Shrink
pub mod Ends
pub mod Copy
pub mod Build
pub mod Sorted
pub mod Unsorted
pub mod Window
pub mod Intersect
pub mod IntersectZ
use eta.Prelude.{
  ℕ, zero, suc, ◌+◌, ◌-◌, ◌*◌, ◌/◌, ◌%◌, ◌^◌, Bool, true, false, not, ◌||◌, ◌&&◌, ◌==◌, ltb, leb,
  if◌then◌else◌, List, [], ◌∷◌, ◌++◌, length, get_or, set, take, drop, replicate, bit_and, ℤ, pos,
  pos_part, ◌+ℤ◌, ◌-ℤ◌, leb_ℤ, ltb_ℤ, to_u64,
}
use eta.Clp.Words.{countr_zero, countl_zero, each_set_digit}
use eta.Clp.BitSet.Write.{set_offset}
use eta.Clp.BitSet.Order.{total_popcount}
use eta.Clp.ZDomain.{max_ℤ, min_ℤ}

pub record FdDomain : Type 0 where
  pub base : ℤ
  pub bits : List ℕ
  pub count : ℕ

abbrev pub default : FdDomain
default = record { base = pos 0; bits = []; count = 0 }

pub empty : FdDomain → Bool
empty d = d.count == 0

pub size : FdDomain → ℕ
size d = d.count

pub contains : FdDomain → ℤ → Bool
contains d v =
    if d.count == 0
    then false
    else if ltb_ℤ v d.base
    then false
    else let off = to_u64 (v -ℤ d.base) in
      if leb (length d.bits) (off / 64)
      then false
      else not (bit_and (get_or d.bits (off / 64) 0 / 2 ^ (off % 64)) 1 == 0)

-- The loop of `min` from word `i` on.
pub min_from : ℤ → ℕ → List ℕ → ℤ
min_from base i [] = pos 0
min_from base i (w ∷ ws) =
    if not (w == 0)
    then base +ℤ pos (i * 64) +ℤ pos (countr_zero 64 w)
    else min_from base (i + 1) ws

pub min : FdDomain → ℤ
unfolding min_from
min d = min_from d.base 0 d.bits

-- The loop of `max` over the words below `i`, the last of them first.
pub max_below : ℤ → List ℕ → ℕ → ℤ
max_below base bits zero = pos 0
max_below base bits (suc i) =
    if not (get_or bits i 0 == 0)
    then base +ℤ pos (i * 64) +ℤ pos (64 - 1 - countl_zero 64 (get_or bits i 0))
    else max_below base bits i

pub max : FdDomain → ℤ
unfolding max_below
max d = max_below d.base d.bits (length d.bits)

-- The loop of `for_each` from word `i` on; `f` changes a state.
pub for_each_from {ℓ} : {S : Type ℓ} → (ℤ → S → S) → ℤ → ℕ → List ℕ → S → S
for_each_from f base i [] s = s
for_each_from f base i (w ∷ ws) s =
    let word_base = base +ℤ pos (i * 64) in
    for_each_from f base (i + 1) ws (each_set_digit 64 64 (λ b. f (word_base +ℤ pos b)) w s)

pub for_each {ℓ} : {S : Type ℓ} → (ℤ → S → S) → FdDomain → S → S
unfolding for_each_from
for_each f d s = for_each_from f d.base 0 d.bits s

pub to_vector : FdDomain → List ℤ
unfolding for_each
to_vector d = for_each (λ v r. r ++ v ∷ []) d []

pub recount : FdDomain → FdDomain
recount d = record d { count = total_popcount d.bits }

-- `while (lead < bits.size() && bits[lead] == 0) ++lead;`
pub lead_from : List ℕ → ℕ
lead_from [] = 0
lead_from (w ∷ ws) = if w == 0 then suc (lead_from ws) else 0

-- `while (trail > lead && bits[trail - 1] == 0) --trail;`
pub trail_from : List ℕ → ℕ → ℕ → ℕ
trail_from bits lead zero = zero
trail_from bits lead (suc t) =
    if ltb lead (suc t)
    then (if get_or bits t 0 == 0 then trail_from bits lead t else suc t)
    else suc t

pub shrink_to_fit : FdDomain → FdDomain
unfolding lead_from trail_from
shrink_to_fit d =
    let lead = lead_from d.bits in
    let n = length d.bits in
    let trail = trail_from d.bits lead n in
    if lead == n
    then default
    else if not (lead == 0) || not (trail == n)
    then record d {
      base = d.base +ℤ pos (lead * 64);
      bits = take (trail - lead) (drop lead d.bits);
    }
    else d

-- `bits[off / W] |= (1ull << (off % W))` for `off = static_cast<uint64_t>(v - base)`
abbrev pub insert_at : ℤ → ℤ → List ℕ → List ℕ
insert_at base v bits = set_offset bits (to_u64 (v -ℤ base))

-- `back()` of the values, which are not empty where it is read.
unfoldable pub last_or : ℤ → List ℤ → ℤ
last_or d [] = d
last_or d (v ∷ vs) = last_or v vs

pub insert_all : ℤ → List ℤ → List ℕ → List ℕ
insert_all base [] bits = bits
insert_all base (v ∷ vs) bits = insert_all base vs (insert_at base v bits)

-- `span` is an `int64_t`: a span beyond it overflows, which the source leaves undefined, and here the
-- function is about the source only where it does not.
pub from_sorted_unique : List ℤ → FdDomain
unfolding last_or insert_all
from_sorted_unique [] = default
from_sorted_unique (v ∷ vs) =
    let span = last_or v vs -ℤ v in
    record {
      base = v;
      bits = insert_all v (v ∷ vs) (replicate (to_u64 span / 64 + 1) 0);
      count = suc (length vs);
    }

-- `std::sort`, by insertion
unfoldable pub insert_sorted : ℤ → List ℤ → List ℤ
insert_sorted v [] = v ∷ []
insert_sorted v (w ∷ ws) = if leb_ℤ v w then v ∷ w ∷ ws else w ∷ insert_sorted v ws

unfoldable pub sort : List ℤ → List ℤ
unfolding insert_sorted
sort [] = []
sort (v ∷ vs) = insert_sorted v (sort vs)

-- `std::unique`: of neighbours that are equal the first stays
unfoldable pub unique : List ℤ → List ℤ
unique [] = []
unique (v ∷ []) = v ∷ []
unique (v ∷ w ∷ vs) =
    let rest = unique (w ∷ vs) in if leb_ℤ v w && leb_ℤ w v then rest else v ∷ rest

pub from_unsorted : List ℤ → FdDomain
unfolding sort unique
from_unsorted vs = from_sorted_unique (unique (sort vs))

-- The word that `from_range` writes last.
abbrev pub last_word : ℕ → ℕ
last_word used = if used == 0 then 0 else if leb 64 used then 2 ^ 64 - 1 else 2 ^ used - 1

-- `hi - lo + 1` is an `int64_t`: beyond it the source overflows, and the function is not about it.
pub from_range : ℤ → ℤ → FdDomain
from_range lo hi =
    if ltb_ℤ hi lo
    then default
    else let total = pos_part (hi -ℤ lo +ℤ pos 1) in
      let nwords = (total + 64 - 1) / 64 in
      let used_in_last = total - (nwords - 1) * 64 in
      let ones = replicate nwords (2 ^ 64 - 1) in
      record {
        base = lo;
        bits = if ltb used_in_last 64 then set ones (nwords - 1) (last_word used_in_last) else ones;
        count = total;
      }

pub singleton : ℤ → FdDomain
singleton v = record { base = v; bits = 1 ∷ []; count = 1 }

-- The callback that `intersect` hands to `for_each`.
pub copy_common : ℤ → ℤ → (ℤ → Bool) → ℤ → List ℕ → List ℕ
copy_common lo hi probe v bits =
    if ltb_ℤ v lo || ltb_ℤ hi v then bits else if not (probe v) then bits else insert_at lo v bits

pub intersect : FdDomain → FdDomain → FdDomain
unfolding copy_common
intersect d o =
    if empty d || empty o
    then default
    else let lo = max_ℤ (min d) (min o) in
      let hi = min_ℤ (max d) (max o) in
      if ltb_ℤ hi lo
      then default
      else let small = if leb d.count o.count then d else o in
        let large = if leb d.count o.count then o else d in
        let blank = replicate (to_u64 (hi -ℤ lo) / 64 + 1) 0 in
        shrink_to_fit (
          recount (record {
            base = lo;
            bits = for_each (copy_common lo hi (contains large)) small blank;
            count = 0;
          }))

-- The callback that `intersect_z` hands to `for_each`; `base` is the base of the result.
pub copy_within : ℤ → ℤ → ℤ → ℤ → List ℕ → List ℕ
copy_within lo hi base v bits = if ltb_ℤ v lo || ltb_ℤ hi v then bits else insert_at base v bits

pub intersect_z : FdDomain → ℤ → ℤ → FdDomain
unfolding copy_within
intersect_z d lo hi =
    if empty d || ltb_ℤ hi lo
    then default
    else let nlo = max_ℤ (min d) lo in
      let nhi = min_ℤ (max d) hi in
      if ltb_ℤ nhi nlo
      then default
      else let blank = replicate (to_u64 (nhi -ℤ nlo) / 64 + 1) 0 in
        shrink_to_fit (
          recount
            (record { base = nlo; bits = for_each (copy_within lo hi nlo) d blank; count = 0 }))
