-- ===== src/Clp/FdDomain/Shrink.antt =====
-- `shrink_to_fit` of runtime/clp/domain.h drops the blank words at both ends of the window.
use eta.Prelude.{
  ℕ, zero, suc, ◌+◌, ◌-◌, ◌*◌, ◌/◌, ◌%◌, ◌≤◌, ◌<◌, ◌≡◌, refl, ap, ◌∙◌, sym, Bool, true, false, ◌==◌,
  ltb, if◌then◌else◌, List, [], ◌∷◌, map, length, length-map, get_or, take, drop, arith, ℤ, pos,
  ◌+ℤ◌, ◌-ℤ◌, IsInt64, +ℤ_parts, -ℤ_parts, Bool-cases, inl, inr, bit-zero, disjoint_parts,
}
use eta.Clp.BitSet.{offsets, elem-offsets, elem-map_add, has, has-nil}
use eta.Clp.BitSet.Order.{
  total_popcount, total_popcount-length, Ascending-ext, Ascending-map_add, offsets-Ascending,
}
use eta.Clp.BitSet.Write.{AreWords}
use eta.Clp.BitSet.Ends.{word_member}
use eta.Clp.FdDomain.{FdDomain, default, lead_from, trail_from, shrink_to_fit}
use eta.Clp.FdDomain.Valid.{IsValid, member, offset, beyond, has-beyond, add_pos}

lead-le : (ws : List ℕ) → lead_from ws ≤ length ws
unfolding lead_from
lead-le [] = omega arith
lead-le (w ∷ ws) = ground (arith, lead-le ws)

before_lead : (ws : List ℕ) (i : ℕ) → i < lead_from ws → get_or ws i 0 ≡ 0
unfolding lead_from
before_lead [] i h = refl
before_lead (w ∷ ws) zero h = ground arith
before_lead (w ∷ ws) (suc i) h = ground (arith, before_lead ws i)

at_lead : (ws : List ℕ) → lead_from ws < length ws → 0 < get_or ws (lead_from ws) 0
unfolding lead_from
at_lead [] h = absurd (omega arith)
at_lead (w ∷ ws) h = elim (Bool-cases (w == 0)) [
  | inl blank ↦ rw (blank, lead_from) (at_lead ws (ground arith))
  | inr full ↦ rw (full, lead_from) (ground arith)
]

after_trail :
    (ws : List ℕ) (lead n i : ℕ) → trail_from ws lead n ≤ i → i < n → lead ≤ i → get_or ws i 0 ≡ 0
unfolding trail_from
after_trail ws lead zero i t h l = absurd (omega arith)
after_trail ws lead (suc n) i t h l = elim (Bool-cases (i == n)) [
  | inl last ↦ let e : i ≡ n = ground arith in rw e (ground arith)
  | inr earlier ↦ after_trail ws lead n i (ground arith) (ground arith) l
]

trail_bounds :
    (ws : List ℕ) (lead n : ℕ)
    → lead ≤ n
    → (lead ≤ trail_from ws lead n) × (trail_from ws lead n ≤ n)
unfolding trail_from
trail_bounds ws lead zero h = omega arith
trail_bounds ws lead (suc n) h = ground (arith, trail_bounds ws lead n)

get_or-drop : (k i : ℕ) (ws : List ℕ) → get_or (drop k ws) i 0 ≡ get_or ws (k + i) 0
get_or-drop zero i ws = let e : 0 + i ≡ i = omega arith in rw e refl
get_or-drop (suc k) i [] = refl
get_or-drop (suc k) i (w ∷ ws) =
    get_or-drop k i ws ∙ (let e : suc k + i ≡ suc (k + i) = omega arith in rw e refl)

get_or-take :
    (k i : ℕ) (ws : List ℕ) → get_or (take k ws) i 0 ≡ (if ltb i k then get_or ws i 0 else 0)
get_or-take zero i ws = ground arith
get_or-take (suc k) i [] = ground arith
get_or-take (suc k) zero (w ∷ ws) = ground arith
get_or-take (suc k) (suc i) (w ∷ ws) = ground (arith, get_or-take k i ws)

abbrev middle : List ℕ → List ℕ
middle ws = let lead = lead_from ws in take (trail_from ws lead (length ws) - lead) (drop lead ws)

get_or-middle : (ws : List ℕ) (i : ℕ) → get_or (middle ws) i 0 ≡ get_or ws (lead_from ws + i) 0
get_or-middle ws i =
    let lead = lead_from ws in
    let n = length ws in
    ground (
      arith,
      get_or-take (trail_from ws lead n - lead) i (drop lead ws),
      get_or-drop lead i ws,
      after_trail ws lead n (lead + i),
      beyond ws (lead + i),
      trail_bounds ws lead n (lead-le ws),
    )

has-middle : (ws : List ℕ) (n : ℕ) → has (middle ws) n ≡ has ws (64 * lead_from ws + n)
unfolding has
has-middle ws n =
    let q : (64 * lead_from ws + n) / 64 ≡ lead_from ws + n / 64 = omega arith in
    let r : (64 * lead_from ws + n) % 64 ≡ n % 64 = omega arith in
    rw (q, r, get_or-middle ws (n / 64)) refl

has_before_lead : (ws : List ℕ) (n : ℕ) → n < 64 * lead_from ws → has ws n ≡ false
unfolding has
has_before_lead ws n h = rw (before_lead ws (n / 64) (omega arith), bit-zero (n % 64)) refl

drop-AreWords : (k : ℕ) (ws : List ℕ) → AreWords ws → AreWords (drop k ws)
drop-AreWords zero ws a = a
drop-AreWords (suc k) [] a = tt
drop-AreWords (suc k) (w ∷ ws) a = drop-AreWords k ws a.1

take-AreWords : (k : ℕ) (ws : List ℕ) → AreWords ws → AreWords (take k ws)
take-AreWords zero ws a = tt
take-AreWords (suc k) [] a = tt
take-AreWords (suc k) (w ∷ ws) a = (a.0, take-AreWords k ws a.1)

offsets-middle : (ws : List ℕ) → map (λ n. 64 * lead_from ws + n) (offsets (middle ws)) ≡ offsets ws
offsets-middle ws =
    let l = 64 * lead_from ws in
    Ascending-ext (map (λ n. l + n) (offsets (middle ws))) (offsets ws)
      (Ascending-map_add l (offsets (middle ws)) (offsets-Ascending (middle ws)))
      (offsets-Ascending ws)
      (λ n. ground (
        arith,
        elem-map_add l n (offsets (middle ws)),
        elem-offsets n ws,
        elem-offsets (n - l) (middle ws),
        has-middle ws (n - l),
        has_before_lead ws n,
      ))

total_popcount-middle : (ws : List ℕ) → total_popcount (middle ws) ≡ total_popcount ws
total_popcount-middle ws =
    total_popcount-length (middle ws)
    ∙ sym (length-map (offsets (middle ws)) (λ n. 64 * lead_from ws + n))
    ∙ ap length (offsets-middle ws)
    ∙ sym (total_popcount-length ws)

has_of_all_blank : (ws : List ℕ) (n : ℕ) → lead_from ws ≡ length ws → has ws n ≡ false
has_of_all_blank ws n e = ground (arith, has_before_lead ws n, has-beyond ws n)

member-middle :
    (base v : ℤ) (ws : List ℕ)
    → member (base +ℤ pos (lead_from ws * 64)) (middle ws) v ≡ member base ws v
member-middle base v ws =
    let l = lead_from ws in
    let base' = base +ℤ pos (l * 64) in
    ground (
      arith,
      has-middle ws (offset base' v),
      has_before_lead ws (offset base v),
      +ℤ_parts base (pos (l * 64)),
      -ℤ_parts v base,
      -ℤ_parts v base',
      disjoint_parts (v -ℤ base),
      disjoint_parts (v -ℤ base'),
    )

-- Dropping the blank words at the ends changes no membership.
pub member-shrink_to_fit :
    (d : FdDomain) (v : ℤ)
    → member (shrink_to_fit d).base (shrink_to_fit d).bits v ≡ member d.base d.bits v
unfolding shrink_to_fit
member-shrink_to_fit d v = ground (
  arith,
  has_of_all_blank d.bits (offset d.base v),
  has-nil (offset (pos 0) v),
  member-middle d.base v d.bits,
)

pub default-IsValid : IsValid default
unfolding total_popcount
default-IsValid = record {
  words = tt;
  counted = refl;
  based = (omega arith, omega arith);
  fits = λ n h. absurd (ground (arith, has-nil n));
}

moved_base :
    (d : FdDomain)
    → IsValid d
    → lead_from d.bits < length d.bits
    → IsInt64 (d.base +ℤ pos (lead_from d.bits * 64))
moved_base d valid h =
    let l = lead_from d.bits in
    let (j, small, on) = word_member d.bits l valid.words (at_lead d.bits h) in
    let top = valid.fits (l * 64 + j) on in
    let low = valid.based in
    (
      omega (
        arith,
        +ℤ_parts d.base (pos (l * 64)),
        +ℤ_parts d.base (pos (l * 64 + j)),
        disjoint_parts d.base,
        disjoint_parts (d.base +ℤ pos (l * 64)),
        disjoint_parts (d.base +ℤ pos (l * 64 + j)),
      ),
      omega (arith, +ℤ_parts d.base (pos (l * 64)), disjoint_parts (d.base +ℤ pos (l * 64))),
    )

middle-IsValid :
    (d : FdDomain)
    → IsValid d
    → lead_from d.bits < length d.bits
    → IsValid (record d { base = d.base +ℤ pos (lead_from d.bits * 64); bits = middle d.bits })
middle-IsValid d valid h = record {
  words = take-AreWords _ _ (drop-AreWords (lead_from d.bits) d.bits valid.words);
  counted = valid.counted ∙ sym (total_popcount-middle d.bits);
  based = moved_base d valid h;
  fits = λ n on.
      let l = lead_from d.bits in
      let e : 64 * l + n ≡ l * 64 + n = omega arith in
      rw (add_pos d.base (l * 64) n)
        (valid.fits (l * 64 + n) (rw (← e) (sym (has-middle d.bits n) ∙ on)));
}

either : (b : Bool) (x y : FdDomain) → IsValid x → IsValid y → IsValid (if b then x else y)
either true x y p q = p
either false x y p q = q

-- The result is well-formed again: the count and the window fit what is left.
pub shrink_to_fit-IsValid : (d : FdDomain) → IsValid d → IsValid (shrink_to_fit d)
unfolding shrink_to_fit
shrink_to_fit-IsValid d valid = elim (Bool-cases (lead_from d.bits == length d.bits)) [
  | inl blank ↦ rw (blank, shrink_to_fit) default-IsValid
  | inr some_word ↦
      rw (some_word, shrink_to_fit)
        (either _ _ _ (middle-IsValid d valid (ground (arith, lead-le d.bits))) valid)
]
