-- ===== src/ConsPool/Slots.antt =====
-- `find_slot` of memory/cons_pool.h after a write and after a new slab.
use eta.Prelude.{
  ℕ, zero, suc, ◌+◌, ◌-◌, ◌≤◌, ◌<◌, ◌≡◌, refl, false, ◌==◌, if◌then◌else◌, List, [], ◌∷◌, ◌++◌,
  get_elem?, set, Option, some, Option-cases, Bool-cases, inl, inr, arith,
}
use eta.ConsPool.{ObjectId, ConsSlot, Slab, in_range, find_slot, at_slot, link_slots}
use eta.ConsPool.Contents.{next_free}

set-get_elem? :
    {A : Type 0} (xs : List A) (i j : ℕ) (a v : A)
    → get_elem? xs i ≡ some a
    → get_elem? (set xs i v) j ≡ (if i == j then some v else get_elem? xs j)
set-get_elem? [] i j a v h = absurd cc
set-get_elem? (x ∷ xs) zero zero a v h = refl
set-get_elem? (x ∷ xs) zero (suc j) a v h = ground arith
set-get_elem? (x ∷ xs) (suc i) zero a v h = ground arith
set-get_elem? (x ∷ xs) (suc i) (suc j) a v h = ground (arith, set-get_elem? xs i j a v)

-- A write changes the slot it goes to and no other.
pub find_slot-at_slot :
    (f : ConsSlot → ConsSlot) (i j : ObjectId) (slot : ConsSlot) (ss : List Slab)
    → find_slot i ss ≡ some slot
    → find_slot j (at_slot i f ss) ≡ (if j == i then some (f slot) else find_slot j ss)
unfolding find_slot at_slot
find_slot-at_slot f i j slot [] h = absurd cc
find_slot-at_slot f i j slot (s ∷ ss) h = elim (Bool-cases (in_range i s)) [
  | inr elsewhere ↦
      let rest : find_slot i ss ≡ some slot = ground arith in
      rw (elsewhere, at_slot) (ground (arith, find_slot-at_slot f i j slot ss rest))
  | inl here ↦
      let there : get_elem? s.slots (i - s.base_id) ≡ some slot = ground arith in
      rw (here, there, at_slot)
        (ground (arith, set-get_elem? s.slots (i - s.base_id) (j - s.base_id) slot (f slot) there))
]

pub get_elem?-link_slots :
    (base i n j : ℕ) (head : Option ObjectId)
    → j < n
    → get_elem? (link_slots base i n head) j
      ≡ some (record {
        allocated = false;
        marked = false;
        id = base + (i + j);
        contents = next_free (if j + 1 == n then head else some (base + (i + (j + 1))));
      })
unfolding link_slots
get_elem?-link_slots base i zero j head h = absurd (omega arith)
get_elem?-link_slots base i (suc n) zero head h = ground arith
get_elem?-link_slots base i (suc n) (suc j) head h =
    ground (arith, get_elem?-link_slots base (i + 1) n j head (omega arith))

-- A new slab does not hide the slots of those before it.
pub find_slot-append :
    (j : ObjectId) (slot : ConsSlot) (ss : List Slab) (new : Slab)
    → find_slot j ss ≡ some slot
    → find_slot j (ss ++ new ∷ []) ≡ some slot
unfolding find_slot
find_slot-append j slot [] new h = absurd cc
find_slot-append j slot (s ∷ ss) new h = ground (arith, find_slot-append j slot ss new)

-- Every id of every slab is below a bound.
abbrev pub AllBelow : ℕ → List Slab → Type 0
AllBelow n [] = Unit
AllBelow n (s ∷ ss) = (s.base_id + s.capacity ≤ n) × AllBelow n ss

pub find_slot-append_above :
    (j n : ObjectId) (ss : List Slab) (new : Slab)
    → AllBelow n ss
    → n ≤ j
    → find_slot j (ss ++ new ∷ []) ≡ find_slot j (new ∷ [])
unfolding find_slot
find_slot-append_above j n [] new a h = refl
find_slot-append_above j n (s ∷ ss) new a h =
    ground (arith, a.0, find_slot-append_above j n ss new a.1 h)

pub AllBelow-at_slot :
    (n : ℕ) (i : ObjectId) (f : ConsSlot → ConsSlot) (ss : List Slab)
    → AllBelow n ss
    → AllBelow n (at_slot i f ss)
unfolding at_slot
AllBelow-at_slot n i f [] a = tt
AllBelow-at_slot n i f (s ∷ ss) a = elim (Bool-cases (in_range i s)) [
  | inr elsewhere ↦ rw (elsewhere, at_slot) (a.0, AllBelow-at_slot n i f ss a.1)
  | inl here ↦ elim (Option-cases (get_elem? s.slots (i - s.base_id))) [
    | inl nothing ↦ rw (here, nothing, at_slot) a
    | inr (slot, there) ↦ rw (here, there, at_slot) a
  ]
]
