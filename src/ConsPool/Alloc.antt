-- ===== src/ConsPool/Alloc.antt =====
-- `alloc` from the free list, and `free_slot`, of memory/cons_pool.h.
use eta.Prelude.{
  ℕ, suc, ◌+◌, ◌-◌, ◌≤◌, ◌≡◌, refl, sym, ap, ◌∙◌, Bool, true, false, ◌==◌, ltb, if◌then◌else◌, List,
  [], ◌∷◌, Option, none, some, Option-cases, inl, inr, arith,
}
use mathlib.Core.Path.{subst}
use eta.NanBox.{LispVal, payload_mask}
use eta.ConsPool.{
  ObjectId, ConsSlot, ConsPool, find_slot, take_head, alloc, grow, try_get, found_cell, cell_of,
  next_of,
}
use eta.ConsPool.Grow.{bigger, opened, bigger-Valid, try_get-bigger}
use eta.ConsPool.Contents.{cell, next_free}
use eta.ConsPool.Slots.{AllBelow-at_slot, find_slot-at_slot}
use eta.ConsPool.Chain.{Chain, is_in, Valid, Chain-agrees, head_not_in_rest}

abbrev pub fill : LispVal → LispVal → ConsSlot → ConsSlot
fill car cdr s = record s { allocated = true; marked = false; contents = cell car cdr }

found_cell_if :
    (b : Bool) (s : ConsSlot) (o : Option ConsSlot)
    → found_cell (if b then some s else o) ≡ (if b then cell_of s else found_cell o)
found_cell_if true s o = refl
found_cell_if false s o = refl

-- The free list has `id` at its head, and the slot of `id` links to `next`.
module _ (car cdr : LispVal) (p : ConsPool) (v : Valid p) (id : ObjectId) (is : List ObjectId)
    (slot : ConsSlot) (next : Option ObjectId) (all : v.free_ids ≡ id ∷ is)
    (found : find_slot id p.slabs ≡ some slot) (free : slot.allocated ≡ false)
    (links : slot.contents ≡ next_free next) (rest : Chain (λ i. find_slot i p.slabs) next is)
    (absent : is_in id is ≡ false) where
  after :
      (j : ObjectId)
      → find_slot j (take_head car cdr id p).slabs
        ≡ (if j == id then some (fill car cdr slot) else find_slot j p.slabs)
  unfolding take_head
  after j = find_slot-at_slot (fill car cdr) id j slot p.slabs found

  next_head : (take_head car cdr id p).free_head ≡ next
  unfolding take_head
  next_head = rw (found, take_head) (ap next_of links)

  take_head-Valid_lem : Valid (take_head car cdr id p)
  unfolding is_in take_head
  take_head-Valid_lem = record {
    free_ids = is;
    chained =
        subst (λ h. Chain (λ i. find_slot i (take_head car cdr id p).slabs) h is) (sym next_head)
          (Chain-agrees (λ i. find_slot i p.slabs) (λ i. find_slot i (take_head car cdr id p).slabs)
            next is (λ j s e l u. ground (arith, after j, absent)) rest);
    complete = λ j s e u. ground (arith, after j, v.complete j s, all);
    named = λ j s e. ground (arith, after j, v.named j s, v.named id slot found);
    below = AllBelow-at_slot p.id_source id (fill car cdr) p.slabs v.below;
  }

  try_get-take_head_lem :
      (j : ObjectId)
      → try_get j (take_head car cdr id p)
        ≡ (if j == id then some (record { car = car; cdr = cdr }) else try_get j p)
  unfolding try_get
  try_get-take_head_lem j =
      ap found_cell (after j) ∙ found_cell_if (j == id) (fill car cdr slot) (find_slot j p.slabs)

-- A pool that is valid and whose free list begins with `id`, as the lemmas above take it.
pub take_head_all :
    (car cdr : LispVal) (p : ConsPool) (v : Valid p) (id : ObjectId)
    → p.free_head ≡ some id
    → Valid (take_head car cdr id p)
      × (try_get id p ≡ none)
      × ((j : ObjectId)
          → try_get j (take_head car cdr id p)
            ≡ (if j == id then some (record { car = car; cdr = cdr }) else try_get j p))
unfolding try_get
take_head_all car cdr p v id h =
    from_list v.free_ids refl
      (subst (λ o. Chain (λ i. find_slot i p.slabs) o v.free_ids) h v.chained)
  where
    from_list :
        (is : List ObjectId)
        → v.free_ids ≡ is
        → Chain (λ i. find_slot i p.slabs) (some id) is
        → Valid (take_head car cdr id p)
          × (try_get id p ≡ none)
          × ((j : ObjectId)
              → try_get j (take_head car cdr id p)
                ≡ (if j == id then some (record { car = car; cdr = cdr }) else try_get j p))
    from_list [] all c = elim c [ ]
    from_list (i ∷ is) all (hi, s, n, found, free, links, rest) =
        let here : find_slot id p.slabs ≡ some s = ap (λ k. find_slot k p.slabs) hi ∙ found in
        let listed : v.free_ids ≡ id ∷ is = all ∙ ap (λ k. k ∷ is) (sym hi) in
        let absent : is_in id is ≡ false =
          head_not_in_rest (λ k. find_slot k p.slabs) id is (refl, s, n, here, free, links, rest) in
        (
          take_head-Valid_lem car cdr p v id is s n listed here free links rest absent,
          ap found_cell here ∙ rw free refl,
          try_get-take_head_lem car cdr p v id is s n listed here free links rest absent,
        )

alloc_from_list :
    (car cdr : LispVal) (p : ConsPool) (id : ObjectId)
    → p.free_head ≡ some id
    → alloc car cdr p ≡ (take_head car cdr id p, some id)
unfolding alloc
alloc_from_list car cdr p id h = simp (h, alloc)

abbrev slab_size : ConsPool → ℕ
slab_size p = if ltb 0 p.total_capacity then p.total_capacity else 8192

alloc_grown :
    (car cdr : LispVal) (p q : ConsPool) (id : ObjectId)
    → p.free_head ≡ none
    → grow (slab_size p) p ≡ (q, true)
    → q.free_head ≡ some id
    → alloc car cdr p ≡ (take_head car cdr id q, some id)
unfolding alloc
alloc_grown car cdr p q id h g k = simp (h, g, k, alloc)

-- With room for the ids of one more slab, allocating succeeds: it returns an id that held no cell
-- before and holds the given one after, every other cell is as it was, and the pool stays valid.
pub alloc_lem :
    (car cdr : LispVal) (p : ConsPool)
    → Valid p
    → p.id_source + p.total_capacity + 8192 ≤ payload_mask
    → (id : ObjectId) × ((alloc car cdr p).1 ≡ some id)
      × (try_get id p ≡ none)
      × Valid (alloc car cdr p).0
      × ((j : ObjectId)
          → try_get j (alloc car cdr p).0
            ≡ (if j == id then some (record { car = car; cdr = cdr }) else try_get j p))
alloc_lem car cdr p v room = elim (Option-cases p.free_head) [
  | inr (id, h) ↦
      let (valid, fresh, holds) = take_head_all car cdr p v id h in
      rw (alloc_from_list car cdr p id h) (id, refl, fresh, valid, holds)
  | inl h ↦
      let n : ℕ = slab_size p - 1 in
      let size : slab_size p ≡ suc n = ground arith in
      let fits : p.id_source + suc n ≤ payload_mask = ground arith in
      let made : grow (slab_size p) p ≡ (bigger n p v fits, true) =
        ap (λ k. grow k p) size ∙ opened n p v fits in
      let (valid, fresh, holds) =
        take_head_all car cdr (bigger n p v fits) (bigger-Valid n p v fits) p.id_source refl in
      rw (alloc_grown car cdr p (bigger n p v fits) p.id_source h made refl) (
        p.id_source,
        refl,
        sym (try_get-bigger n p v fits p.id_source) ∙ fresh,
        valid,
        λ j.
            holds j
            ∙ ap (λ o. if j == p.id_source then some (record { car = car; cdr = cdr }) else o)
                (try_get-bigger n p v fits j),
      )
]
