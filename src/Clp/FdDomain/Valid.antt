-- ===== src/Clp/FdDomain/Valid.antt =====
-- Well-formed domains of runtime/clp/domain.h, and membership without the cached count.
use eta.Prelude.{
  ℕ, zero, suc, ◌+◌, ◌*◌, ◌/◌, ◌%◌, ◌^◌, ◌≤◌, ◌≡◌, refl, ap, ◌∙◌, sym, Bool, true, false, not, ◌||◌,
  ◌==◌, leb, if◌then◌else◌, List, [], ◌∷◌, ◌++◌, map, length, length-map, get_or, arith, ℤ, pos,
  pos_part, neg_part, ◌+ℤ◌, ◌-ℤ◌, ◌≤ℤ◌, ltb_ℤ, to_u64, IsInt64, +ℤ_parts, -ℤ_parts, int_laws,
  Bool-cases, inl, inr, bit_and, bit_and_low, bit_by_shift, bit-lt, bit-zero,
}
use mathlib.Core.Path.{fun_ext}
use mathlib.Core.List.{append-nil, append_assoc}
use eta.Clp.Words.{each_set_digit, each_set_digit-each_digit}
use eta.Clp.BitSet.{
  visit, visit-append, visit-map, each_digit-visit, set_digits, offsets, elem, elem-offsets, has,
}
use eta.Clp.BitSet.Order.{total_popcount, total_popcount-length}
use eta.Clp.BitSet.Write.{AreWords}
use eta.Clp.FdDomain.{FdDomain, contains, for_each_from, for_each, to_vector, size}

-- The offset of a value in a window.
abbrev pub offset : ℤ → ℤ → ℕ
offset base v = pos_part (v -ℤ base)

-- Membership by the words alone.
abbrev pub member : ℤ → List ℕ → ℤ → Bool
member base bits v = if ltb_ℤ v base then false else has bits (offset base v)

pub record IsValid (d : FdDomain) : Type 0 where
  pub words : AreWords d.bits
  pub counted : d.count ≡ total_popcount d.bits
  pub based : IsInt64 d.base
  pub fits : (n : ℕ) → has d.bits n ≡ true → IsInt64 (d.base +ℤ pos n)

pub add_pos : (a : ℤ) (m n : ℕ) → a +ℤ pos m +ℤ pos n ≡ a +ℤ pos (m + n)
add_pos a m n = omega int_laws

pub offset_of_sum : (base : ℤ) (n : ℕ) → offset base (base +ℤ pos n) ≡ n
unfolding ◌+ℤ◌ ◌-ℤ◌
offset_of_sum base n = ground arith

pub sum_of_offset : (base v : ℤ) → base ≤ℤ v → base +ℤ pos (offset base v) ≡ v
unfolding ◌+ℤ◌ ◌-ℤ◌
sum_of_offset base v h = ground arith

pub cast_offset :
    (base v : ℤ) → IsInt64 base → IsInt64 v → base ≤ℤ v → to_u64 (v -ℤ base) ≡ offset base v
unfolding ◌-ℤ◌
cast_offset base v hb hv h = ground arith

no_offsets : (ws : List ℕ) (n : ℕ) → total_popcount ws ≡ 0 → has ws n ≡ false
no_offsets ws n h = sym (elem-offsets n ws) ∙ none (offsets ws) (sym (total_popcount-length ws) ∙ h)
  where
    none : (xs : List ℕ) → length xs ≡ 0 → elem n xs ≡ false
    none [] e = refl
    none (x ∷ xs) e = absurd (omega arith)

pub beyond : (ws : List ℕ) (i : ℕ) → length ws ≤ i → get_or ws i 0 ≡ 0
beyond [] i h = refl
beyond (w ∷ ws) zero h = absurd (omega arith)
beyond (w ∷ ws) (suc i) h = beyond ws i (omega arith)

pub has-beyond : (ws : List ℕ) (n : ℕ) → 64 * length ws ≤ n → has ws n ≡ false
unfolding has
has-beyond ws n h = rw (beyond ws (n / 64) (omega arith), bit-zero (n % 64)) refl

read_digit :
    (ws : List ℕ) (n : ℕ) → not (bit_and (get_or ws (n / 64) 0 / 2 ^ (n % 64)) 1 == 0) ≡ has ws n
unfolding has
read_digit ws n = ground (
  arith,
  bit_and_low 1 (get_or ws (n / 64) 0 / 2 ^ (n % 64)),
  bit_by_shift (n % 64) (get_or ws (n / 64) 0),
  bit-lt (get_or ws (n / 64) 0) (n % 64),
)

guarded_read :
    (count n : ℕ) (ws : List ℕ)
    → count ≡ total_popcount ws
    → (if count == 0
        then false
        else if leb (length ws) (n / 64)
        then false
        else not (bit_and (get_or ws (n / 64) 0 / 2 ^ (n % 64)) 1 == 0))
      ≡ has ws n
guarded_read count n ws e = ground (arith, no_offsets ws n, has-beyond ws n, read_digit ws n)

-- On a well-formed domain the shortcuts of `contains` change nothing.
pub contains-member :
    (d : FdDomain) (v : ℤ) → IsValid d → IsInt64 v → contains d v ≡ member d.base d.bits v
unfolding contains
contains-member d v valid h = elim (Bool-cases (ltb_ℤ v d.base)) [
  | inl below ↦ rw (below, contains) (ground arith)
  | inr above ↦
      let e = cast_offset d.base v valid.based h (ground arith) in
      rw (above, contains, e) (guarded_read d.count (offset d.base v) d.bits valid.counted)
]

for_each_from-visit {ℓ} :
    {S : Type ℓ} (f : ℤ → S → S) (base : ℤ) (i : ℕ) (ws : List ℕ) (s : S)
    → AreWords ws
    → for_each_from f base i ws s ≡ visit (λ n. f (base +ℤ pos (i * 64 + n))) (offsets ws) s
unfolding for_each_from offsets
for_each_from-visit f base i [] s a = refl
for_each_from-visit {S} f base i (w ∷ ws) s a =
    let start : each_set_digit 64 64 (λ b. f (base +ℤ pos (i * 64) +ℤ pos b)) w s
        ≡ visit (λ n. f (base +ℤ pos (i * 64 + n))) (set_digits 64 w) s =
      each_set_digit-each_digit 64 64 (λ b. f (base +ℤ pos (i * 64) +ℤ pos b)) w s a.0 (omega arith)
      ∙ each_digit-visit 64 (λ b. f (base +ℤ pos (i * 64) +ℤ pos b)) w s
      ∙ ap (λ (g : ℕ → S → S). visit g (set_digits 64 w) s)
          (fun_ext (λ b. ap f (add_pos base (i * 64) b))) in
    let shift : (λ (n : ℕ). f (base +ℤ pos ((i + 1) * 64 + n)))
        ≡ (λ n. f (base +ℤ pos (i * 64 + (64 + n)))) =
      fun_ext (λ n. ap (λ (m : ℕ). f (base +ℤ pos m)) (omega arith)) in
    rw start (
      for_each_from-visit f base (i + 1) ws _ a.1
      ∙ rw shift (
          sym (
            visit-append (λ n. f (base +ℤ pos (i * 64 + n))) (set_digits 64 w)
              (map (λ n. 64 + n) (offsets ws)) s
            ∙ visit-map (λ n. f (base +ℤ pos (i * 64 + n))) (λ n. 64 + n) (offsets ws) _)))

-- The members of a window, in ascending order.
abbrev pub members : FdDomain → List ℤ
members d = map (λ n. d.base +ℤ pos n) (offsets d.bits)

pub for_each-visit {ℓ} :
    {S : Type ℓ} (f : ℤ → S → S) (d : FdDomain) (s : S)
    → AreWords d.bits
    → for_each f d s ≡ visit f (members d) s
unfolding for_each
for_each-visit {S} f d s a =
    for_each_from-visit f d.base 0 d.bits s a
    ∙ ap (λ (g : ℕ → S → S). visit g (offsets d.bits) s)
        (fun_ext (λ n. ap (λ (m : ℕ). f (d.base +ℤ pos m)) (omega arith)))
    ∙ sym (visit-map f (λ n. d.base +ℤ pos n) (offsets d.bits) s)

collect : (vs acc : List ℤ) → visit (λ v r. r ++ v ∷ []) vs acc ≡ acc ++ vs
collect [] acc = sym (append-nil acc)
collect (v ∷ vs) acc = collect vs (acc ++ v ∷ []) ∙ append_assoc acc (v ∷ []) vs

pub to_vector-members : (d : FdDomain) → AreWords d.bits → to_vector d ≡ members d
unfolding to_vector
to_vector-members d a = for_each-visit (λ v r. r ++ v ∷ []) d [] a ∙ collect (members d) []

-- The cached count is the number of the members.
pub size-members : (d : FdDomain) → IsValid d → size d ≡ length (to_vector d)
unfolding size
size-members d valid = rw (to_vector-members d valid.words) (
    valid.counted
    ∙ total_popcount-length d.bits
    ∙ sym (length-map (offsets d.bits) (λ n. d.base +ℤ pos n)))

abbrev pub eq_ℤ : ℤ → ℤ → Bool
eq_ℤ a b = pos_part a + neg_part b == pos_part b + neg_part a

abbrev pub elem_ℤ : ℤ → List ℤ → Bool
elem_ℤ v [] = false
elem_ℤ v (x ∷ xs) = eq_ℤ v x || elem_ℤ v xs

elem_ℤ-map :
    (base v : ℤ) (xs : List ℕ)
    → elem_ℤ v (map (λ n. base +ℤ pos n) xs)
      ≡ (if ltb_ℤ v base then false else elem (offset base v) xs)
elem_ℤ-map base v [] = ground arith
elem_ℤ-map base v (x ∷ xs) =
    ground (arith, elem_ℤ-map base v xs, +ℤ_parts base (pos x), -ℤ_parts v base)

pub elem_ℤ-members : (d : FdDomain) (v : ℤ) → elem_ℤ v (members d) ≡ member d.base d.bits v
elem_ℤ-members d v = elem_ℤ-map d.base v (offsets d.bits) ∙ rw elem-offsets refl
