-- ===== src/Clp/FdDomain/Sorted.antt =====
-- `from_sorted_unique` of runtime/clp/domain.h.
use eta.Prelude.{
  ℕ, suc, ◌<◌, ◌≡◌, refl, ap, ◌∙◌, sym, true, List, [], ◌∷◌, map, length, length-map, arith, ℤ, pos,
  ◌+ℤ◌, ◌-ℤ◌, ◌≤ℤ◌, ◌<ℤ◌, leb_ℤ, IsInt64, int_laws, disjoint_parts,
}
use eta.Clp.BitSet.{visit, offsets, elem, elem-offsets}
use eta.Clp.BitSet.Order.{
  total_popcount, total_popcount-length, Ascending, AllAbove, Ascending-ext, offsets-Ascending,
}
use eta.Clp.FdDomain.{
  FdDomain, from_sorted_unique, insert_all, last_or, copy_common, insert_at, to_vector, recount,
  for_each, for_each_from,
}
use eta.Clp.FdDomain.Valid.{IsValid, members, offset, sum_of_offset, elem_ℤ, to_vector-members}
use mathlib.Core.Path.{ap₂}
use eta.Clp.FdDomain.Copy.{same_offset}
use eta.Clp.FdDomain.Shrink.{default-IsValid}
use eta.Clp.FdDomain.Window.{blank, window, has-window, window-IsValid}

-- Sorted and without duplicates, and all of them `int64_t`.
abbrev pub IsSortedUnique : List ℤ → Type 0
IsSortedUnique [] = Unit
IsSortedUnique (v ∷ []) = IsInt64 v
IsSortedUnique (v ∷ w ∷ vs) = IsInt64 v × (v <ℤ w) × IsSortedUnique (w ∷ vs)

-- Every value lies between the ends.
abbrev Between : ℤ → ℤ → List ℤ → Type 0
Between lo hi [] = Unit
Between lo hi (v ∷ vs) = (lo ≤ℤ v) × (v ≤ℤ hi) × Between lo hi vs

Between-weaken : (a b hi : ℤ) (vs : List ℤ) → a ≤ℤ b → Between b hi vs → Between a hi vs
Between-weaken a b hi [] h p = tt
Between-weaken a b hi (v ∷ vs) h p = (omega arith, p.1, Between-weaken a b hi vs h p.2)

ends :
    (v : ℤ) (vs : List ℤ)
    → IsSortedUnique (v ∷ vs)
    → Between v (last_or v vs) (v ∷ vs) × IsInt64 (last_or v vs) × IsInt64 v
unfolding last_or
ends v [] s = ((omega arith, omega arith, tt), s, s)
ends v (w ∷ vs) s =
    let (rest, last64, w64) = ends w vs s.2 in
    (
      (
        omega arith,
        omega (arith, rest.0, rest.1, s.1),
        Between-weaken v w (last_or w vs) (w ∷ vs) (omega (arith, s.1)) rest,
      ),
      last64,
      s.0,
    )

insert_all-visit :
    (lo hi : ℤ) (vs : List ℤ) (bits : List ℕ)
    → Between lo hi vs
    → insert_all lo vs bits ≡ visit (copy_common lo hi (λ _. true)) vs bits
unfolding insert_all copy_common
insert_all-visit lo hi [] bits b = refl
insert_all-visit lo hi (v ∷ vs) bits b =
    let inside : copy_common lo hi (λ _. true) v bits ≡ insert_at lo v bits = ground arith in
    rw inside (insert_all-visit lo hi vs (insert_at lo v bits) b.2)

abbrev offs : ℤ → List ℤ → List ℕ
offs lo vs = map (offset lo) vs

above_weaken : (m n : ℕ) (xs : List ℕ) → m < n → AllAbove n xs → AllAbove m xs
above_weaken m n [] h a = tt
above_weaken m n (x ∷ xs) h a = (omega arith, above_weaken m n xs h a.1)

offs-above :
    (lo v : ℤ) (vs : List ℤ)
    → lo ≤ℤ v
    → IsSortedUnique (v ∷ vs)
    → AllAbove (offset lo v) (offs lo vs) × Ascending (offs lo (v ∷ vs))
offs-above lo v [] le s = (tt, (tt, tt))
offs-above lo v (w ∷ vs) le s =
    let (above, up) = offs-above lo w vs (omega (arith, s.1)) s.2 in
    let step : offset lo v < offset lo w =
      omega (int_laws, s.1, disjoint_parts (v -ℤ lo), disjoint_parts (w -ℤ lo)) in
    let later : AllAbove (offset lo v) (offs lo (w ∷ vs)) =
      (step, above_weaken (offset lo v) (offset lo w) (offs lo vs) step above) in
    (later, (later, up))

restore : (lo hi : ℤ) (vs : List ℤ) → Between lo hi vs → map (λ n. lo +ℤ pos n) (offs lo vs) ≡ vs
restore lo hi [] b = refl
restore lo hi (v ∷ vs) b = ap₂ ◌∷◌ (sum_of_offset lo v b.0) (restore lo hi vs b.2)

elem-offs :
    (lo hi : ℤ) (n : ℕ) (vs : List ℤ)
    → Between lo hi vs
    → elem n (offs lo vs) ≡ elem_ℤ (lo +ℤ pos n) vs
elem-offs lo hi n [] b = refl
elem-offs lo hi n (v ∷ vs) b = rw (same_offset lo v n b.0, elem-offs lo hi n vs b.2) refl

elem-le : (lo hi v : ℤ) (vs : List ℤ) → Between lo hi vs → elem_ℤ v vs ≡ true → leb_ℤ v hi ≡ true
elem-le lo hi v [] b h = cc
elem-le lo hi v (x ∷ vs) b h = ground (arith, elem-le lo hi v vs b.2)

module _ (v : ℤ) (vs : List ℤ) (sorted : IsSortedUnique (v ∷ vs)) where
  abbrev hi : ℤ
  hi = last_or v vs

  inside : Between v hi (v ∷ vs) × IsInt64 hi × IsInt64 v
  inside = ends v vs sorted

  ordered : v ≤ℤ hi
  ordered = inside.0.1

  abbrev filled : FdDomain
  filled = window v hi inside.2 inside.1 ordered (λ _. true) (v ∷ vs)

  elem-filled : (n : ℕ) → elem n (offsets filled.bits) ≡ elem n (offs v (v ∷ vs))
  unfolding recount
  elem-filled n =
      elem-offsets n filled.bits
      ∙ has-window v hi inside.2 inside.1 ordered (λ _. true) (v ∷ vs) n
      ∙ ground (arith, elem-le v hi (v +ℤ pos n) (v ∷ vs) inside.0)
      ∙ sym (elem-offs v hi n (v ∷ vs) inside.0)

  offsets-filled : offsets filled.bits ≡ offs v (v ∷ vs)
  offsets-filled =
      Ascending-ext (offsets filled.bits) (offs v (v ∷ vs)) (offsets-Ascending filled.bits)
        (offs-above v v vs (omega arith) sorted).1 elem-filled

  counted-filled : suc (length vs) ≡ total_popcount filled.bits
  counted-filled = sym (
      total_popcount-length filled.bits ∙ ap length offsets-filled ∙ length-map (v ∷ vs) (offset v))

  built : from_sorted_unique (v ∷ vs) ≡ filled
  unfolding from_sorted_unique recount
  built =
      rw
        (
          insert_all-visit v hi (v ∷ vs) (blank v hi inside.2 inside.1 ordered (λ _. true))
              inside.0,
          counted-filled,
        )
        refl

listed : (v : ℤ) (vs : List ℤ) (s : IsSortedUnique (v ∷ vs)) → to_vector (filled v vs s) ≡ v ∷ vs
unfolding recount
listed v vs s =
    let up : IsValid (filled v vs s) =
      window-IsValid v (hi v vs s) (inside v vs s).2 (inside v vs s).1 (ordered v vs s) (λ _. true)
        (v ∷ vs) in
    let shifted : members (filled v vs s) ≡ v ∷ vs =
      ap (map (λ n. v +ℤ pos n)) (offsets-filled v vs s)
      ∙ restore v (hi v vs s) (v ∷ vs) (inside v vs s).0 in
    to_vector-members (filled v vs s) up.words ∙ shifted

-- The distance from the first value to the last, an `int64_t` in the source.
abbrev pub span_of : List ℤ → ℤ
span_of [] = pos 0
span_of (v ∷ vs) = last_or v vs -ℤ v

-- From values in ascending order without duplicates, whose span is an `int64_t`, the domain is
-- well-formed, and its members, in order, are the values: nothing is lost and nothing added.
pub to_vector-from_sorted_unique :
    (vs : List ℤ)
    → IsSortedUnique vs
    → IsInt64 (span_of vs)
    → IsValid (from_sorted_unique vs) × (to_vector (from_sorted_unique vs) ≡ vs)
unfolding from_sorted_unique to_vector for_each for_each_from
to_vector-from_sorted_unique [] s span64 = (default-IsValid, refl)
to_vector-from_sorted_unique (v ∷ vs) s span64 =
    let up : IsValid (filled v vs s) =
      window-IsValid v (hi v vs s) (inside v vs s).2 (inside v vs s).1 (ordered v vs s) (λ _. true)
        (v ∷ vs) in
    (rw (built v vs s) up, ap to_vector (built v vs s) ∙ listed v vs s)
