-- ===== src/InternTable/Tests.antt =====
-- Two calls at once that intern the same text, and a call alone.
use eta.Prelude.{ℕ, ◌≡◌, ◌↔◌, refl, length, List, [], ◌∷◌, arith}
use eta.InternTable.{
  InternTable, empty_table, looking, returned, step, look, take_id, claim, intern, get_string, ok,
}
use eta.InternTable.Maps.{Text, find_id, find_text, put_id, put_text, drop_text}
use eta.InternTable.Threads.{State, Reach, start, next, advance, update}
use eta.InternTable.Threads.Agree.{interned_once}
use eta.InternTable.Alone.{Interned, intern_lem, empty_table-IsValid}

abbrev word : Text
word = b'a' ∷ b'b' ∷ []

abbrev texts : ℕ → Text
texts i = word

abbrev moved : State → ℕ → State
moved s i = record {
  table = (step s.table (s.calls i)).0;
  calls = update s.calls i (step s.table (s.calls i)).1;
}

-- The calls that step, the last one first.
abbrev after_steps : List ℕ → State
after_steps [] = record { table = empty_table; calls = λ i. looking (texts i) }
after_steps (i ∷ is) = moved (after_steps is) i

after_steps-Reach : (is : List ℕ) → Reach texts (length is) (after_steps is)
after_steps-Reach [] = start
after_steps-Reach (i ∷ is) = next (after_steps-Reach is) (advance (after_steps is) i)

-- Both look and take an id; call 0 is first to make its id known, and call 1 gives its id up.
abbrev race : List ℕ
race = 1 ∷ 1 ∷ 0 ∷ 1 ∷ 0 ∷ 1 ∷ 1 ∷ 0 ∷ 0 ∷ []

race_0 : (after_steps race).calls 0 ≡ returned word 0
unfolding step look take_id claim find_id find_text put_id put_text drop_text
race_0 = refl

race_1 : (after_steps race).calls 1 ≡ returned word 0
unfolding step look take_id claim find_id find_text put_id put_text drop_text
race_1 = refl

interned_once_example :
    ((◌≡◌ {A = ℕ} 0 0) ↔ (texts 0 ≡ texts 1))
    × (get_string 0 (after_steps race).table ≡ ok (texts 0))
interned_once_example =
    interned_once (after_steps-Reach race) (omega arith) 0 1 word word 0 0 race_0 race_1

intern_lem_example :
    (id : ℕ) × (t' : InternTable) × (intern word empty_table ≡ (t', ok id))
    × Interned word empty_table t' id
intern_lem_example = intern_lem empty_table empty_table-IsValid word (omega arith)
