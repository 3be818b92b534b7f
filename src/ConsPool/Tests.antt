-- ===== src/ConsPool/Tests.antt =====
-- Runs of the theorems on memory/cons_pool.h at a small pool.
use eta.ConsPool.{owns, try_mark}
use eta.ConsPool.Entries.{
  try_get_entry, with_entry, each_live_slot, each_live_in_slabs, for_each_live_entry, stats,
}
use eta.Prelude.{ℕ, true, ◌+◌}
use eta.Prelude.{◌≡◌, refl, false, ◌||◌, ◌==◌, if◌then◌else◌, [], none, some, arith}
use eta.ConsPool.{
  ObjectId, ConsPool, ConsSlot, construct, alloc, free_slot, sweep, mark, try_get, find_slot,
  link_slots,
}
use eta.ConsPool.Contents.{next_free}
use eta.ConsPool.Chain.{Valid}
use eta.ConsPool.Grow.{bigger, bigger-Valid}
use eta.ConsPool.Alloc.{alloc_lem}
use eta.ConsPool.Free.{try_get-free_slot}
use eta.ConsPool.Sweep.{try_get-sweep, try_get-mark, found_marked}

abbrev nothing : ConsPool
nothing = record { slabs = []; free_head = none; live_count = 0; total_capacity = 0; id_source = 1 }

nothing-Valid : Valid nothing
unfolding find_slot
nothing-Valid = record {
  free_ids = [];
  chained = tt;
  complete = λ i slot e f. absurd cc;
  named = λ i slot e. absurd cc;
  below = tt;
}

-- A pool of two free slots.
abbrev pool : ConsPool
pool = bigger 1 nothing nothing-Valid (omega arith)

pool-Valid : Valid pool
pool-Valid = bigger-Valid 1 nothing nothing-Valid (omega arith)

construct-pool : construct 2 1 ≡ pool
unfolding construct
construct-pool = refl

alloc_lem_example :
    (id : ObjectId) × ((alloc 10 20 pool).1 ≡ some id)
    × (try_get id pool ≡ none)
    × Valid (alloc 10 20 pool).0
    × ((j : ObjectId)
        → try_get j (alloc 10 20 pool).0
          ≡ (if j == id then some (record { car = 10; cdr = 20 }) else try_get j pool))
alloc_lem_example = alloc_lem 10 20 pool pool-Valid (omega arith)

abbrev one_cell : ConsPool
one_cell = (alloc 10 20 pool).0

one_cell-Valid : Valid one_cell
one_cell-Valid = (alloc_lem 10 20 pool pool-Valid (omega arith)).3

try_get-free_slot_example :
    Valid (free_slot 1 one_cell)
    × ((j : ObjectId)
        → try_get j (free_slot 1 one_cell) ≡ (if j == 1 then none else try_get j one_cell))
try_get-free_slot_example = try_get-free_slot one_cell 1 one_cell-Valid

try_get-sweep_example :
    try_get 1 (sweep one_cell).0
    ≡ (if found_marked (find_slot 1 one_cell.slabs) then try_get 1 one_cell else none)
try_get-sweep_example = try_get-sweep one_cell 1

abbrev second_slot : ConsSlot
second_slot = record { allocated = false; marked = false; id = 2; contents = next_free none }

second_slot_found : find_slot 2 pool.slabs ≡ some second_slot
unfolding find_slot link_slots
second_slot_found = refl

try_get-mark_test :
    (try_get 2 (mark 2 pool) ≡ try_get 2 pool)
    × (found_marked (find_slot 2 (mark 2 pool).slabs)
        ≡ (2 == 2 || found_marked (find_slot 2 pool.slabs)))
try_get-mark_test = try_get-mark pool 2 second_slot second_slot_found 2

owns_test : owns 2 pool ≡ true
unfolding owns find_slot link_slots
owns_test = refl

-- A free slot is not marked.
try_mark_test : (try_mark 2 pool).1 ≡ none
unfolding try_mark find_slot link_slots
try_mark_test = refl

stats_test : (stats pool).free_count ≡ 2
unfolding stats
stats_test = refl

-- No slot is live, so that the callback is never run and no entry is found.
entries_test :
    ((for_each_live_entry (λ id e (n : ℕ). (e, n + 1)) pool 0).1 ≡ 0)
    × (try_get_entry 1 pool ≡ none)
    × ((with_entry 1 (λ e. e) pool).1 ≡ false)
unfolding for_each_live_entry each_live_in_slabs each_live_slot try_get_entry with_entry find_slot
    link_slots
entries_test = (refl, refl, refl)
