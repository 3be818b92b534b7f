-- ===== src/ConsPool.antt =====
-- `ConsPool` of eta/core/src/eta/runtime/memory/cons_pool.h: cons cells in slabs, with a free list
-- that runs through the free slots. A `ConsSlot*` is named by the id of its slot, which never
-- changes; the union of a slot is a sum of its two members, told apart in the source by the
-- allocated flag. The id counter, which the heap shares, is a field.
pub mod Slots
pub mod Chain
pub mod Grow
pub mod Alloc
pub mod Free
pub mod Sweep
pub mod Entries
mod Tests
use eta.Prelude.{
  ℕ, zero, suc, ◌+◌, ◌-◌, ◌%◌, ◌^◌, Bool, true, false, not, ◌&&◌, ◌||◌, ◌==◌, ltb, leb,
  if◌then◌else◌, List, [], ◌∷◌, ◌++◌, get_elem?, set, Option, none, some,
}
use eta.NanBox.{LispVal, payload_mask}

abbrev pub ObjectId : Type 0
ObjectId = ℕ

pub data Contents : Type 0 where
  cell : LispVal → LispVal → Contents
  next_free : Option ObjectId → Contents

-- `header.flags` by its two bits.
pub record ConsSlot : Type 0 where
  pub allocated : Bool
  pub marked : Bool
  pub id : ObjectId
  pub contents : Contents

pub record Slab : Type 0 where
  pub slots : List ConsSlot
  pub capacity : ℕ
  pub base_id : ObjectId

pub record ConsPool : Type 0 where
  pub slabs : List Slab
  pub free_head : Option ObjectId
  pub live_count : ℕ
  pub total_capacity : ℕ
  pub id_source : ℕ

pub record Cons : Type 0 where
  pub car : LispVal
  pub cdr : LispVal

-- Is the id in the slab's range?
abbrev pub in_range : ObjectId → Slab → Bool
in_range id s = leb s.base_id id && ltb id (s.base_id + s.capacity)

unfoldable pub find_slot : ObjectId → List Slab → Option ConsSlot
find_slot id [] = none
find_slot id (s ∷ ss) =
    if in_range id s then get_elem? s.slots (id - s.base_id) else find_slot id ss

-- A change through the pointer that `find_slot` returns.
unfoldable pub at_slot : ObjectId → (ConsSlot → ConsSlot) → List Slab → List Slab
at_slot id f [] = []
at_slot id f (s ∷ ss) =
    if in_range id s
    then elim (get_elem? s.slots (id - s.base_id)) [
      | none ↦ s ∷ ss
      | some slot ↦ record s { slots = set s.slots (id - s.base_id) (f slot) } ∷ ss
    ]
    else s ∷ at_slot id f ss

-- The slots `i`, `i + 1`, ... of a new slab, `n` of them; the last is linked to `head`.
pub link_slots : ObjectId → ℕ → ℕ → Option ObjectId → List ConsSlot
link_slots base i zero head = []
link_slots base i (suc n) head =
    record {
      allocated = false;
      marked = false;
      id = base + i;
      contents = next_free (if n == 0 then head else some (base + (i + 1)));
    }
    ∷ link_slots base (i + 1) n head

-- The result says whether there was room for the ids.
pub grow : ℕ → ConsPool → ConsPool × Bool
unfolding link_slots
grow capacity p =
    let base_id = p.id_source in
    let claimed : ConsPool = record p { id_source = (base_id + capacity) % 2 ^ 64 } in
    if ltb payload_mask ((base_id + capacity) % 2 ^ 64) then (claimed, false) else (
      record claimed {
        slabs =
            p.slabs
            ++ record {
              slots = link_slots base_id 0 capacity p.free_head;
              capacity = capacity;
              base_id = base_id;
            }
              ∷ [];
        free_head = some base_id;
        total_capacity = p.total_capacity + capacity;
      },
      true,
    )

-- The constructor, on an id counter that stands at `id_source`.
pub construct : ℕ → ℕ → ConsPool
unfolding grow
construct initial_capacity id_source =
    (grow initial_capacity (record {
      slabs = [];
      free_head = none;
      live_count = 0;
      total_capacity = 0;
      id_source = id_source;
    })).0

abbrev pub next_of : Contents → Option ObjectId
next_of (next_free n) = n
next_of (cell a d) = none

-- `alloc` from where the free list is not empty: its head is `id`.
pub take_head : LispVal → LispVal → ObjectId → ConsPool → ConsPool
take_head car cdr id p = record p {
  free_head = elim (find_slot id p.slabs) [ none ↦ none | some slot ↦ next_of slot.contents ];
  slabs =
      at_slot id (λ s. record s { allocated = true; marked = false; contents = cell car cdr })
        p.slabs;
  live_count = p.live_count + 1;
}

-- No id is `HeapError::FailedToAllocateMemory`.
pub alloc : LispVal → LispVal → ConsPool → ConsPool × Option ObjectId
alloc car cdr p = elim p.free_head [
  | some id ↦ (take_head car cdr id p, some id)
  | none ↦
      let grown = grow (if ltb 0 p.total_capacity then p.total_capacity else 8192) p in
      if grown.1
      then elim grown.0.free_head [
        | some id ↦ (take_head car cdr id grown.0, some id)
        | none ↦ (grown.0, none)
      ]
      else (grown.0, none)
]

abbrev pub cell_of : ConsSlot → Option Cons
cell_of s =
    if not s.allocated
    then none
    else elim s.contents [ cell a d ↦ some (record { car = a; cdr = d }) | next_free n ↦ none ]

abbrev pub found_cell : Option ConsSlot → Option Cons
found_cell none = none
found_cell (some s) = cell_of s

pub try_get : ObjectId → ConsPool → Option Cons
try_get id p = found_cell (find_slot id p.slabs)

pub owns : ObjectId → ConsPool → Bool
owns id p = elim (find_slot id p.slabs) [ none ↦ false | some slot ↦ true ]

-- Is the id that of a live slot?
abbrev pub found_live : Option ConsSlot → Bool
found_live none = false
found_live (some s) = s.allocated

pub is_live : ObjectId → ConsPool → Bool
is_live id p = found_live (find_slot id p.slabs)

pub free_slot : ObjectId → ConsPool → ConsPool
unfolding is_live
free_slot id p = if not (is_live id p) then p else record p {
  slabs =
      at_slot id
        (λ s. record s { allocated = false; marked = false; contents = next_free p.free_head })
        p.slabs;
  free_head = some id;
  live_count = p.live_count - 1;
}

pub mark : ObjectId → ConsPool → ConsPool
mark id p = record p { slabs = at_slot id (λ s. record s { marked = true }) p.slabs }

-- The cell, if it is newly marked.
pub try_mark : ObjectId → ConsPool → ConsPool × Option Cons
unfolding mark
try_mark id p = elim (find_slot id p.slabs) [
  | none ↦ (p, none)
  | some slot ↦
      if not slot.allocated
      then (p, none)
      else if slot.marked
      then (p, none)
      else (mark id p, cell_of slot)
]

abbrev pub clear_mark : ConsSlot → ConsSlot
clear_mark s = if s.allocated then record s { marked = false } else s

pub clear_slots : List ConsSlot → List ConsSlot
clear_slots [] = []
clear_slots (s ∷ ss) = clear_mark s ∷ clear_slots ss

pub clear_slabs : List Slab → List Slab
unfolding clear_slots
clear_slabs [] = []
clear_slabs (s ∷ ss) = record s { slots = clear_slots s.slots } ∷ clear_slabs ss

pub clear_marks : ConsPool → ConsPool
unfolding clear_slabs
clear_marks p = record p { slabs = clear_slabs p.slabs }

-- What the walk of `sweep` carries along: the head of the free list and the number freed.
pub record Swept (A : Type 0) : Type 0 where
  pub kept : A
  pub head : Option ObjectId
  pub freed : ℕ

abbrev pub is_garbage : ConsSlot → Bool
is_garbage s = s.allocated && not s.marked

pub sweep_slots : List ConsSlot → Option ObjectId → Swept (List ConsSlot)
sweep_slots [] head = record { kept = []; head = head; freed = 0 }
sweep_slots (s ∷ ss) head =
    let rest : Swept (List ConsSlot) = sweep_slots ss (if is_garbage s then some s.id else head) in
    if is_garbage s
    then record {
      kept = record s { allocated = false; marked = false; contents = next_free head } ∷ rest.kept;
      head = rest.head;
      freed = suc rest.freed;
    }
    else record { kept = s ∷ rest.kept; head = rest.head; freed = rest.freed }

pub sweep_slabs : List Slab → Option ObjectId → Swept (List Slab)
unfolding sweep_slots
sweep_slabs [] head = record { kept = []; head = head; freed = 0 }
sweep_slabs (s ∷ ss) head =
    let first : Swept (List ConsSlot) = sweep_slots s.slots head in
    let rest : Swept (List Slab) = sweep_slabs ss first.head in
    record {
      kept = record s { slots = first.kept } ∷ rest.kept;
      head = rest.head;
      freed = first.freed + rest.freed;
    }

-- The result is the number of slots freed.
pub sweep : ConsPool → ConsPool × ℕ
unfolding sweep_slabs
sweep p =
    let swept : Swept (List Slab) = sweep_slabs p.slabs p.free_head in
    (
      record p {
        slabs = swept.kept;
        free_head = swept.head;
        live_count = p.live_count - swept.freed;
      },
      swept.freed,
    )
