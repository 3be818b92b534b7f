-- ===== src/ConsPool/Entries.antt =====
-- The views of the slots of memory/cons_pool.h that the heap works through: `HeapEntry`, and what
-- of it is written back.
use eta.Prelude.{
  ℕ, ◌-◌, ◌*◌, Bool, true, false, not, if◌then◌else◌, List, [], ◌∷◌, Option, none, some,
}
use eta.ConsPool.{ObjectId, ConsSlot, Contents, Slab, ConsPool, find_slot, at_slot}

pub record HeapEntry : Type 0 where
  pub allocated : Bool
  pub marked : Bool
  pub ptr : Contents
  pub size : ℕ

-- `sizeof(types::Cons)`
abbrev pub cons_size : ℕ
cons_size = 16

abbrev pub entry_of : ConsSlot → HeapEntry
entry_of s = record {
  allocated = s.allocated;
  marked = s.marked;
  ptr = s.contents;
  size = cons_size;
}

-- Only the flags go back to the slot.
abbrev pub write_back : HeapEntry → ConsSlot → ConsSlot
write_back e s = record s { allocated = e.allocated; marked = e.marked }

unfoldable pub try_get_entry : ObjectId → ConsPool → Option HeapEntry
try_get_entry id p = elim (find_slot id p.slabs) [
  | none ↦ none
  | some slot ↦ if not slot.allocated then none else some (entry_of slot)
]

-- The result says whether there was a live slot.
unfoldable pub with_entry : ObjectId → (HeapEntry → HeapEntry) → ConsPool → ConsPool × Bool
with_entry id fn p = elim (find_slot id p.slabs) [
  | none ↦ (p, false)
  | some slot ↦
      if not slot.allocated
      then (p, false)
      else (record p { slabs = at_slot id (λ s. write_back (fn (entry_of s)) s) p.slabs }, true)
]

-- What the callback carries along is a state `S`.
unfoldable pub each_live_slot {ℓ} :
    {S : Type ℓ}
    → (ObjectId → HeapEntry → S → HeapEntry × S)
    → List ConsSlot
    → S
    → List ConsSlot × S
each_live_slot fn [] st = ([], st)
each_live_slot fn (s ∷ ss) st =
    let called = if s.allocated then fn s.id (entry_of s) st else (entry_of s, st) in
    let rest = each_live_slot fn ss called.1 in
    ((if s.allocated then write_back called.0 s else s) ∷ rest.0, rest.1)

unfoldable pub each_live_in_slabs {ℓ} :
    {S : Type ℓ} → (ObjectId → HeapEntry → S → HeapEntry × S) → List Slab → S → List Slab × S
unfolding each_live_slot
each_live_in_slabs fn [] st = ([], st)
each_live_in_slabs fn (s ∷ ss) st =
    let first = each_live_slot fn s.slots st in
    let rest = each_live_in_slabs fn ss first.1 in (record s { slots = first.0 } ∷ rest.0, rest.1)

unfoldable pub for_each_live_entry {ℓ} :
    {S : Type ℓ} → (ObjectId → HeapEntry → S → HeapEntry × S) → ConsPool → S → ConsPool × S
unfolding each_live_in_slabs
for_each_live_entry fn p st =
    let walked = each_live_in_slabs fn p.slabs st in (record p { slabs = walked.0 }, walked.1)

pub record PoolStats : Type 0 where
  pub capacity : ℕ
  pub live_count : ℕ
  pub free_count : ℕ
  pub bytes : ℕ

unfoldable pub stats : ConsPool → PoolStats
stats p = record {
  capacity = p.total_capacity;
  live_count = p.live_count;
  free_count = p.total_capacity - p.live_count;
  bytes = p.live_count * cons_size;
}
