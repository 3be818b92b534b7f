-- ===== src/ConsPool/Grow.antt =====
-- `grow` of memory/cons_pool.h: a new slab goes to the front of the free list.
use eta.Prelude.{
  ℕ, zero, suc, ◌+◌, ◌-◌, ◌%◌, ◌^◌, ◌≤◌, ◌<◌, ◌≡◌, refl, sym, ap, ◌∙◌, Bool, true, false, ◌&&◌,
  ◌||◌, ◌==◌, ltb, leb, if◌then◌else◌, List, [], ◌∷◌, ◌++◌, get_elem?, Option, none, some,
  Option-cases, Bool-cases, ◌⊎◌, inl, inr, arith,
}
use mathlib.Core.Path.{subst}
use eta.NanBox.{payload_mask}
use eta.ConsPool.{
  ObjectId, ConsSlot, ConsPool, Slab, find_slot, link_slots, grow, try_get, found_cell,
}
use eta.ConsPool.Contents.{next_free}
use eta.ConsPool.Slots.{AllBelow, find_slot-append_above, get_elem?-link_slots}
use eta.ConsPool.Chain.{Look, Chain, is_in, Valid, Chain-agrees}

find_slot-append_outside :
    (j n : ObjectId) (ss : List Slab) (new : Slab)
    → AllBelow n ss
    → n ≤ new.base_id
    → j < new.base_id
    → find_slot j (ss ++ new ∷ []) ≡ find_slot j ss
unfolding find_slot
find_slot-append_outside j n [] new a h k = ground arith
find_slot-append_outside j n (s ∷ ss) new a h k =
    ground (arith, find_slot-append_outside j n ss new a.1 h k)

find_slot_above : (j n : ObjectId) (ss : List Slab) → AllBelow n ss → n ≤ j → find_slot j ss ≡ none
unfolding find_slot
find_slot_above j n [] a h = refl
find_slot_above j n (s ∷ ss) a h = ground (arith, a.0, find_slot_above j n ss a.1 h)

AllBelow-append :
    (n m : ℕ) (ss : List Slab) (new : Slab)
    → AllBelow n ss
    → n ≤ m
    → new.base_id + new.capacity ≤ m
    → AllBelow m (ss ++ new ∷ [])
AllBelow-append n m [] new a h k = (k, tt)
AllBelow-append n m (s ∷ ss) new a h k = (omega (arith, a.0), AllBelow-append n m ss new a.1 h k)

new_ids : ObjectId → ℕ → ℕ → List ObjectId
new_ids base i zero = []
new_ids base i (suc n) = (base + i) ∷ new_ids base (i + 1) n

is_in-new_ids :
    (base i n : ℕ) (fs : List ObjectId) (j : ObjectId)
    → is_in j (new_ids base i n ++ fs)
      ≡ ((leb (base + i) j && ltb j (base + (i + n))) || is_in j fs)
unfolding is_in new_ids
is_in-new_ids base i zero fs j = ground arith
is_in-new_ids base i (suc n) fs j = ground (arith, is_in-new_ids base (i + 1) n fs j)

-- The slots of the new slab in order, then the old free list.
Chain-new_ids :
    (look : Look) (base size i n : ℕ) (head : Option ObjectId) (fs : List ObjectId)
    → i + suc n ≡ size
    → ((j : ℕ) → j < size → look (base + j) ≡ get_elem? (link_slots base 0 size head) j)
    → Chain look head fs
    → Chain look (some (base + i)) (new_ids base i (suc n) ++ fs)
unfolding new_ids
Chain-new_ids look base size i zero head fs e at c = (
  refl,
  record { allocated = false; marked = false; id = base + i; contents = next_free head },
  head,
  at i (omega arith) ∙ get_elem?-link_slots base 0 size i head (omega arith) ∙ ground arith,
  refl,
  refl,
  c,
)
Chain-new_ids look base size i (suc n) head fs e at c = (
  refl,
  record {
    allocated = false;
    marked = false;
    id = base + i;
    contents = next_free (some (base + (i + 1)));
  },
  some (base + (i + 1)),
  at i (omega arith) ∙ get_elem?-link_slots base 0 size i head (omega arith) ∙ ground arith,
  refl,
  refl,
  Chain-new_ids look base size (i + 1) n head fs (omega arith) at c,
)

abbrev allocated_of : Option ConsSlot → Bool
allocated_of none = false
allocated_of (some s) = s.allocated

abbrev id_of : Option ConsSlot → ObjectId
id_of none = 0
id_of (some s) = s.id

module _ (n : ℕ) (p : ConsPool) (v : Valid p) (room : p.id_source + suc n ≤ payload_mask) where
  abbrev pub slab : Slab
  slab = record {
    slots = link_slots p.id_source 0 (suc n) p.free_head;
    capacity = suc n;
    base_id = p.id_source;
  }

  abbrev pub bigger : ConsPool
  bigger = record {
    slabs = p.slabs ++ slab ∷ [];
    free_head = some p.id_source;
    live_count = p.live_count;
    total_capacity = p.total_capacity + suc n;
    id_source = p.id_source + suc n;
  }

  pub opened : grow (suc n) p ≡ (bigger, true)
  unfolding grow
  opened =
      let exact : (p.id_source + suc n) % 2 ^ 64 ≡ p.id_source + suc n = ground arith in
      let small : ltb payload_mask (p.id_source + suc n) ≡ false = ground arith in
      rw (exact, small) refl

  look_old : (j : ObjectId) → j < p.id_source → find_slot j bigger.slabs ≡ find_slot j p.slabs
  look_old j h = find_slot-append_outside j p.id_source p.slabs slab v.below (omega arith) h

  look_new : (j : ℕ) → j < suc n → find_slot (p.id_source + j) bigger.slabs ≡ get_elem? slab.slots j
  unfolding find_slot
  look_new j h =
      let past : p.id_source + j - p.id_source ≡ j = omega arith in
      find_slot-append_above (p.id_source + j) p.id_source p.slabs slab v.below (omega arith)
      ∙ ground (arith, past)

  look_past : (j : ℕ) → p.id_source + suc n ≤ j → find_slot j bigger.slabs ≡ none
  unfolding find_slot
  look_past j h =
      find_slot-append_above j p.id_source p.slabs slab v.below (omega arith) ∙ ground arith

  old_ids_below : (j : ObjectId) (s : ConsSlot) → find_slot j p.slabs ≡ some s → j < p.id_source
  old_ids_below j s e = elim (Bool-cases (ltb j p.id_source)) [
    | inl under ↦ ground arith
    | inr over ↦
        let missing : find_slot j p.slabs ≡ none =
          find_slot_above j p.id_source p.slabs v.below (ground arith) in
        absurd cc
  ]

  abbrev linked : ℕ → ConsSlot
  linked k = record {
    allocated = false;
    marked = false;
    id = p.id_source + (0 + k);
    contents =
        next_free (if k + 1 == suc n then p.free_head else some (p.id_source + (0 + (k + 1))));
  }

  -- A slot of the bigger pool is an old one, or a new one, which is free and has its id.
  old_or_new :
      (j : ObjectId) (s : ConsSlot)
      → find_slot j bigger.slabs ≡ some s
      → ((j < p.id_source) × (find_slot j p.slabs ≡ some s))
        ⊎ ((p.id_source ≤ j) × (j < p.id_source + suc n) × (s.allocated ≡ false) × (s.id ≡ j))
  old_or_new j s e = elim (Bool-cases (ltb j p.id_source)) [
    | inl under ↦ inl (ground arith, sym (look_old j (ground arith)) ∙ e)
    | inr over ↦ elim (Bool-cases (ltb j (p.id_source + suc n))) [
      | inr past ↦
          let missing : find_slot j bigger.slabs ≡ none = look_past j (ground arith) in absurd cc
      | inl within ↦
          let k : ℕ = j - p.id_source in
          let place : p.id_source + k ≡ j = ground arith in
          let short : k < suc n = ground arith in
          let there : get_elem? slab.slots k ≡ some s =
            sym (look_new k short) ∙ ap (λ i. find_slot i bigger.slabs) place ∙ e in
          let made = get_elem?-link_slots p.id_source 0 (suc n) k p.free_head short in
          let same : some (linked k) ≡ some s = sym made ∙ there in
          inr (
            ground arith,
            ground arith,
            ap allocated_of (sym same),
            ap id_of (sym same) ∙ ground arith,
          )
    ]
  ]

  pub bigger-Valid : Valid bigger
  unfolding is_in new_ids
  bigger-Valid = record {
    free_ids = new_ids p.id_source 0 (suc n) ++ v.free_ids;
    chained =
        subst
          (λ i.
            Chain (λ j. find_slot j bigger.slabs) (some i)
              (new_ids p.id_source 0 (suc n) ++ v.free_ids))
          (omega arith)
          (Chain-new_ids (λ j. find_slot j bigger.slabs) p.id_source (suc n) 0 n p.free_head
            v.free_ids (omega arith) look_new
            (Chain-agrees (λ j. find_slot j p.slabs) (λ j. find_slot j bigger.slabs) p.free_head
              v.free_ids (λ j s i e f. look_old j (old_ids_below j s e) ∙ e) v.chained));
    complete = λ j s e f.
        is_in-new_ids p.id_source 0 (suc n) v.free_ids j ∙ (elim (old_or_new j s e) [
          | inl (under, old) ↦ ground (arith, v.complete j s old f)
          | inr (over, within, free, name) ↦ ground arith
        ]);
    named = λ j s e. elim (old_or_new j s e) [
      | inl (under, old) ↦ v.named j s old
      | inr (over, within, free, name) ↦ name
    ];
    below =
        AllBelow-append p.id_source (p.id_source + suc n) p.slabs slab v.below (omega arith)
          (omega arith);
  }

  -- No cell is gained or lost.
  pub try_get-bigger : (j : ObjectId) → try_get j bigger ≡ try_get j p
  unfolding try_get
  try_get-bigger j = elim (Option-cases (find_slot j bigger.slabs)) [
    | inl missing ↦ elim (Bool-cases (ltb j p.id_source)) [
      | inl under ↦ ap found_cell (look_old j (ground arith))
      | inr over ↦
          ap found_cell
            (missing ∙ sym (find_slot_above j p.id_source p.slabs v.below (ground arith)))
    ]
    | inr (s, e) ↦ elim (old_or_new j s e) [
      | inl (under, old) ↦ ap found_cell (e ∙ sym old)
      | inr (over, within, free, name) ↦
          ap found_cell e
          ∙ rw free refl
          ∙ ap found_cell (sym (find_slot_above j p.id_source p.slabs v.below over))
    ]
  ]
