-- ===== src/InternTable/Threads.antt =====
-- Any number of calls of `intern` at once, and what holds at each moment.
pub mod Steps
pub mod Agree
use eta.Prelude.{
  ℕ, zero, suc, ◌+◌, ◌^◌, ◌<◌, ◌≤◌, ◌≡◌, ◌≢◌, ◌==◌, if◌then◌else◌, Option, some, none,
}
use eta.InternTable.{
  InternTable, empty_table, Call, looking, missed, numbered, named, collided, returned, failed,
  step,
}
use eta.InternTable.Maps.{Text, find_id, find_text}

pub record State : Type 0 where
  pub table : InternTable
  pub calls : ℕ → Call

abbrev pub update : (ℕ → Call) → ℕ → Call → ℕ → Call
update calls i c j = if i == j then c else calls j

-- Call `i` takes its next step. There may be any number of calls, each on a thread of its own.
pub data Step : State → State → Type 0 where
  advance :
      (s : State) (i : ℕ)
      → Step s (record {
        table = (step s.table (s.calls i)).0;
        calls = update s.calls i (step s.table (s.calls i)).1;
      })

-- The states that `n` steps lead to, from an empty table and calls that are about to look.
pub data Reach (texts : ℕ → Text) : ℕ → State → Type 0 where
  start : Reach texts 0 (record { table = empty_table; calls = λ i. looking (texts i) })
  next : {n : ℕ} {s t : State} → Reach texts n s → Step s t → Reach texts (suc n) t

-- The id that a call has taken, and neither given up nor made known.
abbrev pub owned : Call → Option ℕ
owned (looking s) = none
owned (missed s) = none
owned (numbered s id) = some id
owned (named s id) = some id
owned (collided s id result) = some id
owned (returned s id) = none
owned (failed s) = none

module _ (t : InternTable) where
  -- No text stands for the id.
  abbrev pub Unclaimed : ℕ → Type 0
  Unclaimed id = (r : Text) → find_id r t.str_to_id ≡ some id → ⊥

  -- What holds of a call.
  abbrev pub Fine : Call → Type 0
  Fine (looking s) = Unit
  Fine (missed s) = Unit
  Fine (numbered s id) = (id < t.next_id) × (find_text id t.id_to_str ≡ none)
  Fine (named s id) = (id < t.next_id) × (find_text id t.id_to_str ≡ some s) × Unclaimed id
  Fine (collided s id result) =
      (id < t.next_id)
      × (find_text id t.id_to_str ≡ some s)
      × Unclaimed id
      × (find_id s t.str_to_id ≡ some result)
  Fine (returned s id) = find_id s t.str_to_id ≡ some id
  Fine (failed s) = Unit

  pub record IsValid : Type 0 where
    pub known :
        (s : Text) (id : ℕ) → find_id s t.str_to_id ≡ some id → find_text id t.id_to_str ≡ some s
    pub below : (id : ℕ) (s : Text) → find_text id t.id_to_str ≡ some s → id < t.next_id

-- After `n` steps: the maps agree, each call is as it should be, and no two own the same id.
pub record Sound (n : ℕ) (s : State) : Type 0 where
  pub count : s.table.next_id ≤ n
  pub valid : IsValid s.table
  pub fine : (i : ℕ) → Fine s.table (s.calls i)
  pub apart : (i j a : ℕ) → i ≢ j → owned (s.calls i) ≡ some a → owned (s.calls j) ≡ some a → ⊥
