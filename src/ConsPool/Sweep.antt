-- ===== src/ConsPool/Sweep.antt =====
-- `clear_marks`, `mark`, `try_mark` and `sweep` of memory/cons_pool.h: what they do to each slot.
use eta.Prelude.{
  ℕ, zero, suc, ◌-◌, ◌≡◌, refl, sym, ap, ◌∙◌, Bool, true, false, ◌&&◌, ◌||◌, ◌==◌, if◌then◌else◌,
  List, [], ◌∷◌, get_elem?, Option, none, some, Bool-cases, inl, inr, arith,
}
use eta.ConsPool.{
  ObjectId, ConsSlot, ConsPool, Slab, in_range, find_slot, at_slot, try_get, found_cell, found_live,
  is_live, mark, clear_mark, clear_slots, clear_slabs, clear_marks, is_garbage, sweep_slots,
  sweep_slabs, sweep,
}
use eta.ConsPool.Contents.{next_free}
use eta.ConsPool.Slots.{find_slot-at_slot}

abbrev cleared : Option ConsSlot → Option ConsSlot
cleared none = none
cleared (some s) = some (clear_mark s)

get_elem?-clear_slots :
    (xs : List ConsSlot) (k : ℕ) → get_elem? (clear_slots xs) k ≡ cleared (get_elem? xs k)
unfolding clear_slots
get_elem?-clear_slots [] k = refl
get_elem?-clear_slots (x ∷ xs) zero = refl
get_elem?-clear_slots (x ∷ xs) (suc k) = get_elem?-clear_slots xs k

find_slot-clear_slabs :
    (j : ObjectId) (ss : List Slab) → find_slot j (clear_slabs ss) ≡ cleared (find_slot j ss)
unfolding find_slot clear_slabs
find_slot-clear_slabs j [] = refl
find_slot-clear_slabs j (s ∷ ss) = elim (Bool-cases (in_range j s)) [
  | inl here ↦ rw here (get_elem?-clear_slots s.slots (j - s.base_id))
  | inr elsewhere ↦ rw elsewhere (find_slot-clear_slabs j ss)
]

-- The slot as a sweep leaves it, linked to the head that the list had by then.
abbrev swept : Option ObjectId → Option ConsSlot → Option ConsSlot
swept head none = none
swept head (some s) = some (
    if is_garbage s
    then record s { allocated = false; marked = false; contents = next_free head }
    else s)

get_elem?-sweep_slots :
    (xs : List ConsSlot) (head : Option ObjectId) (k : ℕ)
    → (h : Option ObjectId) × (get_elem? (sweep_slots xs head).kept k ≡ swept h (get_elem? xs k))
unfolding sweep_slots
get_elem?-sweep_slots [] head k = (head, refl)
get_elem?-sweep_slots (x ∷ xs) head zero = elim (Bool-cases (is_garbage x)) [
  | inl garbage ↦ (head, rw garbage refl)
  | inr kept ↦ (head, rw kept refl)
]
get_elem?-sweep_slots (x ∷ xs) head (suc k) = elim (Bool-cases (is_garbage x)) [
  | inl garbage ↦ rw garbage (get_elem?-sweep_slots xs (some x.id) k)
  | inr kept ↦ rw kept (get_elem?-sweep_slots xs head k)
]

find_slot-sweep_slabs :
    (j : ObjectId) (ss : List Slab) (head : Option ObjectId)
    → (h : Option ObjectId) × (find_slot j (sweep_slabs ss head).kept ≡ swept h (find_slot j ss))
unfolding find_slot sweep_slabs
find_slot-sweep_slabs j [] head = (head, refl)
find_slot-sweep_slabs j (s ∷ ss) head = elim (Bool-cases (in_range j s)) [
  | inl here ↦ rw here (get_elem?-sweep_slots s.slots head (j - s.base_id))
  | inr elsewhere ↦ rw elsewhere (find_slot-sweep_slabs j ss (sweep_slots s.slots head).head)
]

-- Does the id name a slot with the mark set?
abbrev pub found_marked : Option ConsSlot → Bool
found_marked none = false
found_marked (some s) = s.marked

found_cell-swept :
    (h : Option ObjectId) (o : Option ConsSlot)
    → found_cell (swept h o) ≡ (if found_marked o then found_cell o else none)
found_cell-swept h none = refl
found_cell-swept h (some s) = elim (Bool-cases s.marked) [
  | inl marked ↦ elim (Bool-cases s.allocated) [
    | inl live ↦ rw (live, marked) refl
    | inr dead ↦ rw (dead, marked) refl
  ]
  | inr unmarked ↦ elim (Bool-cases s.allocated) [
    | inl live ↦ rw (live, unmarked) refl
    | inr dead ↦ rw (dead, unmarked) refl
  ]
]

-- A sweep keeps the cells whose slots are marked, with their contents, and no other.
pub try_get-sweep :
    (p : ConsPool) (j : ObjectId)
    → try_get j (sweep p).0 ≡ (if found_marked (find_slot j p.slabs) then try_get j p else none)
unfolding sweep try_get
try_get-sweep p j =
    let (h, e) = find_slot-sweep_slabs j p.slabs p.free_head in
    ap found_cell e ∙ found_cell-swept h (find_slot j p.slabs)

found_cell-cleared : (o : Option ConsSlot) → found_cell (cleared o) ≡ found_cell o
found_cell-cleared none = refl
found_cell-cleared (some s) = elim (Bool-cases s.allocated) [
  | inl live ↦ rw live refl
  | inr dead ↦ rw dead refl
]

-- Clearing the marks changes no cell, and then no live slot is marked.
pub try_get-clear_marks :
    (p : ConsPool) (j : ObjectId)
    → (try_get j (clear_marks p) ≡ try_get j p)
      × ((is_live j p && found_marked (find_slot j (clear_marks p).slabs)) ≡ false)
unfolding clear_marks try_get is_live
try_get-clear_marks p j = (
  ap found_cell (find_slot-clear_slabs j p.slabs) ∙ found_cell-cleared (find_slot j p.slabs),
  rw (find_slot-clear_slabs j p.slabs) (unmarked (find_slot j p.slabs)),
)
  where
    unmarked : (o : Option ConsSlot) → (found_live o && found_marked (cleared o)) ≡ false
    unmarked none = refl
    unmarked (some s) = elim (Bool-cases s.allocated) [
      | inl live ↦ rw live refl
      | inr dead ↦ rw dead refl
    ]

-- Marking a slot sets its mark and no other, and changes no cell.
pub try_get-mark :
    (p : ConsPool) (id : ObjectId) (slot : ConsSlot)
    → find_slot id p.slabs ≡ some slot
    → (j : ObjectId)
    → (try_get j (mark id p) ≡ try_get j p)
      × (found_marked (find_slot j (mark id p).slabs)
          ≡ (j == id || found_marked (find_slot j p.slabs)))
unfolding mark try_get
try_get-mark p id slot found j =
    let after : find_slot j (at_slot id (λ s. record s { marked = true }) p.slabs)
        ≡ (if j == id then some (record slot { marked = true }) else find_slot j p.slabs) =
      find_slot-at_slot (λ s. record s { marked = true }) id j slot p.slabs found in
    elim (Bool-cases (j == id)) [
      | inl here ↦
          let at : j ≡ id = ground arith in
          rw (after, here) (ap found_cell (sym (ap (λ i. find_slot i p.slabs) at ∙ found)), refl)
      | inr other ↦ rw (after, other) (refl, refl)
    ]
