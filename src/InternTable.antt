-- ===== src/InternTable.antt =====
-- eta/core/src/eta/runtime/memory/intern_table.h and intern_table.cpp. Each of the two concurrent
-- maps is an association list; an operation on a map is one atomic step. `intern` is given twice: as
-- the steps of a thread, for InternTable.Threads, and as they run when nothing comes between.
pub mod Maps
pub mod Threads
pub mod Alone
mod Tests
use eta.Prelude.{
  ℕ, zero, suc, ◌+◌, ◌%◌, ◌^◌, ltb, Bool, if◌then◌else◌, List, [], Option, some, none,
}
use eta.NanBox.{payload_mask}
use eta.InternTable.Maps.{Text, find_id, find_text, put_id, put_text, drop_text}

pub data InternTableError : Type 0 where
  missing_id missing_string id_out_of_range : InternTableError

pub record InternTable : Type 0 where
  pub str_to_id : List (Text × ℕ)
  pub id_to_str : List (ℕ × Text)
  pub next_id : ℕ

abbrev pub empty_table : InternTable
empty_table = record { str_to_id = []; id_to_str = []; next_id = 0 }

-- `std::expected<A, InternTableError>`
pub data Expected {ℓ} (A : Type ℓ) : Type ℓ where
  ok : A → Expected A
  unexpected : InternTableError → Expected A

abbrev pub or_error {ℓ} : {A : Type ℓ} → InternTableError → Option A → Expected A
or_error e none = unexpected e
or_error e (some a) = ok a

unfoldable pub get_id : Text → InternTable → Expected ℕ
get_id s t = or_error missing_id (find_id s t.str_to_id)

pub get_string : ℕ → InternTable → Expected Text
get_string id t = or_error missing_string (find_text id t.id_to_str)

-- Where a call of `intern` stands: before the lookup, before it takes an id, before each of the two
-- insertions, before the removal of an id that is not needed, and after its return.
pub data Call : Type 0 where
  looking : Text → Call
  missed : Text → Call
  numbered : Text → ℕ → Call
  named : Text → ℕ → Call
  collided : Text → ℕ → ℕ → Call
  returned : Text → ℕ → Call
  failed : Text → Call

module _ (t : InternTable) where
  -- `str_to_id.visit`
  unfoldable pub look : Text → Option ℕ → InternTable × Call
  look s (some existing) = (t, returned s existing)
  look s none = (t, missed s)

  -- `next_id.fetch_add(1)` on a 64-bit counter, and the test of its range
  unfoldable pub take_id : Text → InternTable × Call
  take_id s = (
    record t { next_id = (t.next_id + 1) % 2 ^ 64 },
    if ltb payload_mask t.next_id then failed s else numbered s t.next_id,
  )

  -- `str_to_id.emplace_or_visit`
  unfoldable pub claim : Text → ℕ → Option ℕ → InternTable × Call
  claim s id (some result) = (t, collided s id result)
  claim s id none = (record t { str_to_id = put_id s id t.str_to_id }, returned s id)

  -- One step of a call.
  unfoldable pub step : Call → InternTable × Call
  step (looking s) = look s (find_id s t.str_to_id)
  step (missed s) = take_id s
  step (numbered s id) = (record t { id_to_str = put_text id s t.id_to_str }, named s id)
  step (named s id) = claim s id (find_id s t.str_to_id)
  step (collided s id result) =
      (record t { id_to_str = drop_text id t.id_to_str }, returned s result)
  step (returned s id) = (t, returned s id)
  step (failed s) = (t, failed s)

abbrev pub run : ℕ → InternTable × Call → InternTable × Call
run zero (t, c) = (t, c)
run (suc n) (t, c) = run n (step t c)

abbrev pub outcome : Call → Expected ℕ
outcome (returned s id) = ok id
outcome _ = unexpected id_out_of_range

-- A call takes at most five steps.
pub intern : Text → InternTable → InternTable × Expected ℕ
intern s t = let (t', c) = run 5 (t, looking s) in (t', outcome c)
