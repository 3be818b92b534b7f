-- ===== src/Clp/FdDomain/Unsorted.antt =====
-- `from_unsorted` of runtime/clp/domain.h.
use eta.Prelude.{
  ◌≡◌, refl, ap, ◌∙◌, ◌&&◌, ◌||◌, List, [], ◌∷◌, ℤ, ◌<ℤ◌, ◌≤ℤ◌, leb_ℤ, IsInt64, arith, Bool-cases,
  inl, inr,
}
use eta.Clp.FdDomain.{insert_sorted, sort, unique, from_unsorted, to_vector}
use eta.Clp.FdDomain.Valid.{IsValid, elem_ℤ, eq_ℤ}
use eta.Clp.FdDomain.Sorted.{IsSortedUnique, span_of, to_vector-from_sorted_unique}

abbrev pub AllInt64 : List ℤ → Type 0
AllInt64 [] = Unit
AllInt64 (v ∷ vs) = IsInt64 v × AllInt64 vs

-- The first value, if there is one, is not below `v`; or above it.
abbrev StartsFrom : ℤ → List ℤ → Type 0
StartsFrom v [] = Unit
StartsFrom v (w ∷ ws) = v ≤ℤ w

abbrev StartsAbove : ℤ → List ℤ → Type 0
StartsAbove v [] = Unit
StartsAbove v (w ∷ ws) = v <ℤ w

abbrev IsSorted : List ℤ → Type 0
IsSorted [] = Unit
IsSorted (v ∷ vs) = StartsFrom v vs × IsSorted vs

insert_sorted-StartsFrom :
    (u v : ℤ) (vs : List ℤ) → u ≤ℤ v → StartsFrom u vs → StartsFrom u (insert_sorted v vs)
unfolding insert_sorted
insert_sorted-StartsFrom u v [] h s = h
insert_sorted-StartsFrom u v (w ∷ ws) h s = elim (Bool-cases (leb_ℤ v w)) [
  | inl le ↦ rw le h
  | inr gt ↦ rw gt s
]

insert_sorted-IsSorted : (v : ℤ) (vs : List ℤ) → IsSorted vs → IsSorted (insert_sorted v vs)
unfolding insert_sorted
insert_sorted-IsSorted v [] s = (tt, tt)
insert_sorted-IsSorted v (w ∷ ws) s = elim (Bool-cases (leb_ℤ v w)) [
  | inl le ↦ rw le (ground arith, s)
  | inr gt ↦
      rw gt (insert_sorted-StartsFrom w v ws (ground arith) s.0, insert_sorted-IsSorted v ws s.1)
]

insert_sorted-AllInt64 :
    (v : ℤ) (vs : List ℤ) → IsInt64 v → AllInt64 vs → AllInt64 (insert_sorted v vs)
unfolding insert_sorted
insert_sorted-AllInt64 v [] h a = (h, tt)
insert_sorted-AllInt64 v (w ∷ vs) h a = elim (Bool-cases (leb_ℤ v w)) [
  | inl le ↦ rw le (h, a)
  | inr gt ↦ rw gt (a.0, insert_sorted-AllInt64 v vs h a.1)
]

sort-IsSorted : (vs : List ℤ) → IsSorted (sort vs)
unfolding sort
sort-IsSorted [] = tt
sort-IsSorted (v ∷ vs) = insert_sorted-IsSorted v (sort vs) (sort-IsSorted vs)

sort-AllInt64 : (vs : List ℤ) → AllInt64 vs → AllInt64 (sort vs)
unfolding sort
sort-AllInt64 [] a = tt
sort-AllInt64 (v ∷ vs) a = insert_sorted-AllInt64 v (sort vs) a.0 (sort-AllInt64 vs a.1)

elem-insert_sorted :
    (x v : ℤ) (vs : List ℤ) → elem_ℤ x (insert_sorted v vs) ≡ (eq_ℤ v x || elem_ℤ x vs)
unfolding insert_sorted
elem-insert_sorted x v [] = ground arith
elem-insert_sorted x v (w ∷ vs) = ground (arith, elem-insert_sorted x v vs)

elem-sort : (x : ℤ) (vs : List ℤ) → elem_ℤ x (sort vs) ≡ elem_ℤ x vs
unfolding sort
elem-sort x [] = refl
elem-sort x (v ∷ vs) = ground (arith, elem-insert_sorted x v (sort vs), elem-sort x vs)

elem-unique : (x : ℤ) (vs : List ℤ) → elem_ℤ x (unique vs) ≡ elem_ℤ x vs
unfolding unique
elem-unique x [] = refl
elem-unique x (v ∷ []) = refl
elem-unique x (v ∷ w ∷ vs) = ground (arith, elem-unique x (w ∷ vs))

unique-StartsAbove :
    (v : ℤ) (vs : List ℤ) → IsSorted vs → StartsAbove v vs → StartsAbove v (unique vs)
unfolding unique
unique-StartsAbove v [] s h = tt
unique-StartsAbove v (w ∷ []) s h = h
unique-StartsAbove v (w ∷ x ∷ vs) s h = elim (Bool-cases (leb_ℤ w x && leb_ℤ x w)) [
  | inl same ↦ rw same (unique-StartsAbove v (x ∷ vs) s.1 (omega (arith, s.0)))
  | inr differ ↦ rw differ h
]

cons-IsSortedUnique :
    (v : ℤ) (vs : List ℤ)
    → IsInt64 v
    → StartsAbove v vs
    → IsSortedUnique vs
    → IsSortedUnique (v ∷ vs)
cons-IsSortedUnique v [] h a s = h
cons-IsSortedUnique v (w ∷ ws) h a s = (h, a, s)

unique-IsSortedUnique : (vs : List ℤ) → IsSorted vs → AllInt64 vs → IsSortedUnique (unique vs)
unfolding unique
unique-IsSortedUnique [] s a = tt
unique-IsSortedUnique (v ∷ []) s a = a.0
unique-IsSortedUnique (v ∷ w ∷ vs) s a =
    let rest = unique-IsSortedUnique (w ∷ vs) s.1 a.1 in
    elim (Bool-cases (leb_ℤ v w && leb_ℤ w v)) [
      | inl same ↦ rw same rest
      | inr differ ↦ rw differ (
          cons-IsSortedUnique v (unique (w ∷ vs)) a.0
            (unique-StartsAbove v (w ∷ vs) s.1 (ground (arith, s.0))) rest)
    ]

-- From values in any order, repeated or not, the distance of whose least from the greatest is an
-- `int64_t`, the domain is well-formed, and it lists exactly these values.
pub elem-from_unsorted :
    (vs : List ℤ)
    → AllInt64 vs
    → IsInt64 (span_of (unique (sort vs)))
    → IsValid (from_unsorted vs) × ((v : ℤ) → elem_ℤ v (to_vector (from_unsorted vs)) ≡ elem_ℤ v vs)
unfolding from_unsorted
elem-from_unsorted vs a span64 =
    let (valid, listed) =
      to_vector-from_sorted_unique (unique (sort vs))
        (unique-IsSortedUnique (sort vs) (sort-IsSorted vs) (sort-AllInt64 vs a)) span64 in
    (valid, λ v. ap (elem_ℤ v) listed ∙ elem-unique v (sort vs) ∙ elem-sort v vs)
