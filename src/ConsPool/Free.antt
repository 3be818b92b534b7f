-- ===== src/ConsPool/Free.antt =====
-- `free_slot`, `mark`, `try_mark` and `clear_marks` of memory/cons_pool.h.
use eta.Prelude.{
  ◌-◌, ◌≡◌, refl, ap, ◌∙◌, Bool, true, false, ◌==◌, if◌then◌else◌, ◌∷◌, Option, none, some,
  Bool-cases, inl, inr, arith,
}
use eta.ConsPool.{
  ObjectId, ConsSlot, ConsPool, find_slot, at_slot, try_get, found_cell, found_live, cell_of,
  free_slot, is_live,
}
use eta.ConsPool.Contents.{next_free}
use eta.ConsPool.Slots.{AllBelow-at_slot, find_slot-at_slot}
use eta.ConsPool.Chain.{is_in, Valid, Chain-agrees}

abbrev release : Option ObjectId → ConsSlot → ConsSlot
release head s = record s { allocated = false; marked = false; contents = next_free head }

found_cell_if :
    (b : Bool) (s : ConsSlot) (o : Option ConsSlot)
    → found_cell (if b then some s else o) ≡ (if b then cell_of s else found_cell o)
found_cell_if true s o = refl
found_cell_if false s o = refl

not_live : (o : Option ConsSlot) → found_live o ≡ false → found_cell o ≡ none
not_live none h = refl
not_live (some s) h = rw h refl

live_slot :
    (o : Option ConsSlot)
    → found_live o ≡ true
    → (s : ConsSlot) × (o ≡ some s) × (s.allocated ≡ true)
live_slot none h = absurd cc
live_slot (some s) h = (s, refl, h)

-- A live slot is freed: the lemmas share the pool after it.
module _ (p : ConsPool) (v : Valid p) (id : ObjectId) (slot : ConsSlot)
    (found : find_slot id p.slabs ≡ some slot) (live : slot.allocated ≡ true) where
  abbrev freed : ConsPool
  freed = record p {
    slabs = at_slot id (release p.free_head) p.slabs;
    free_head = some id;
    live_count = p.live_count - 1;
  }

  after :
      (j : ObjectId)
      → find_slot j freed.slabs
        ≡ (if j == id then some (release p.free_head slot) else find_slot j p.slabs)
  after j = find_slot-at_slot (release p.free_head) id j slot p.slabs found

  freed-Valid : Valid freed
  unfolding is_in
  freed-Valid = record {
    free_ids = id ∷ v.free_ids;
    chained = (
      refl,
      release p.free_head slot,
      p.free_head,
      ground (arith, after id),
      refl,
      refl,
      Chain-agrees (λ i. find_slot i p.slabs) (λ i. find_slot i freed.slabs) p.free_head v.free_ids
          (λ j s e l u. ground (arith, after j)) v.chained,
    );
    complete = λ j s e u. ground (arith, after j, v.complete j s);
    named = λ j s e. ground (arith, after j, v.named j s, v.named id slot found);
    below = AllBelow-at_slot p.id_source id (release p.free_head) p.slabs v.below;
  }

  try_get-freed : (j : ObjectId) → try_get j freed ≡ (if j == id then none else try_get j p)
  unfolding try_get
  try_get-freed j =
      ap found_cell (after j)
      ∙ found_cell_if (j == id) (release p.free_head slot) (find_slot j p.slabs)

-- Freeing an id, live or not, keeps the pool valid, takes the cell of that id away and leaves every
-- other cell as it was.
pub try_get-free_slot :
    (p : ConsPool) (id : ObjectId)
    → Valid p
    → Valid (free_slot id p)
      × ((j : ObjectId) → try_get j (free_slot id p) ≡ (if j == id then none else try_get j p))
unfolding free_slot is_live try_get
try_get-free_slot p id v = elim (Bool-cases (found_live (find_slot id p.slabs))) [
  | inr dead ↦
      let same : free_slot id p ≡ p = rw (dead, free_slot) refl in
      rw same (
        v,
        λ j. elim (Bool-cases (j == id)) [
          | inl here ↦
              let at : j ≡ id = ground arith in
              rw (here) (
                ap (λ i. found_cell (find_slot i p.slabs)) at
                ∙ not_live (find_slot id p.slabs) dead)
          | inr other ↦ rw (other) refl
        ],
      )
  | inl on ↦
      let (slot, found, live) = live_slot (find_slot id p.slabs) on in
      let same : free_slot id p ≡ freed p v id slot found live = rw (on, free_slot) refl in
      rw same (freed-Valid p v id slot found live, try_get-freed p v id slot found live)
]
