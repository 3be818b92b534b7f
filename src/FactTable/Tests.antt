-- ===== src/FactTable/Tests.antt =====
-- Runs of the theorems on runtime/types/fact_table.h at a small table.
use eta.NanBox.{box, nil_value, false_value}
use eta.FactTable.{set_predicate_header, is_ground_row, get_rule, push_values, index_values}
use eta.Prelude.{some}
use eta.Prelude.{
  ℕ, ◌≡◌, ◌≢◌, refl, true, not, ◌&&◌, ◌||◌, ◌==◌, ltb, if◌then◌else◌, [], ◌∷◌, length, get_or, none,
  arith,
}
use eta.FactTable.{
  FactTable, add_row, delete_row, build_index, query, live_rows, is_live_row, get_cell,
}
use eta.FactTable.Entries.{count_row}
use eta.FactTable.Valid.{Valid, live_total}
use eta.FactTable.Query.{count_row-query, count_row-live_rows}
use eta.FactTable.Keeps.{add_row-Valid, delete_row-Valid, build_index-Valid}
use eta.FactTable.Effects.{get_cell-add_row, is_live_row-delete_row, count_row-query-build_index}

-- Two columns and no row.
abbrev blank : FactTable
blank = record {
  col_names = (97 ∷ []) ∷ (98 ∷ []) ∷ [];
  columns = [] ∷ [] ∷ [];
  indexes = [] ∷ [] ∷ [];
  rule_column = [];
  ground_mask = [];
  live_mask = [];
  row_count = 0;
  live_count = 0;
  predicate_functor = none;
  predicate_arity = 0;
}

blank-Valid : Valid blank
unfolding live_total
blank-Valid = record {
  tall = (refl, (refl, tt));
  ruled = refl;
  grounded = refl;
  marked = refl;
  counted = refl;
  complete = ((λ h k r. absurd cc), ((λ h k r. absurd cc), tt));
}

-- One row, indexed on the first column.
abbrev facts : FactTable
facts = build_index (add_row blank (7 ∷ 8 ∷ []) 0 true).0 0

add_row-Valid_example : Valid (add_row blank (7 ∷ 8 ∷ []) 0 true).0
add_row-Valid_example = add_row-Valid blank (7 ∷ 8 ∷ []) 0 true blank-Valid

build_index-Valid_example : Valid (build_index (add_row blank (7 ∷ 8 ∷ []) 0 true).0 0)
build_index-Valid_example =
    build_index-Valid (add_row blank (7 ∷ 8 ∷ []) 0 true).0 0
      (add_row-Valid blank (7 ∷ 8 ∷ []) 0 true blank-Valid)

facts-Valid : Valid facts
facts-Valid =
    build_index-Valid (add_row blank (7 ∷ 8 ∷ []) 0 true).0 0
      (add_row-Valid blank (7 ∷ 8 ∷ []) 0 true blank-Valid)

delete_row-Valid_example : Valid (delete_row facts 0).0
delete_row-Valid_example = delete_row-Valid facts 0 facts-Valid

count_row-query_example : count_row 0 (query facts 0 7) ≡ (
    if ltb 0 (length facts.columns) && is_live_row facts 0 && get_cell facts 0 0 == 7 then 1 else 0)
count_row-query_example = count_row-query facts 0 7 0 facts-Valid

count_row-live_rows_test : count_row 0 (live_rows facts) ≡ (if is_live_row facts 0 then 1 else 0)
count_row-live_rows_test = count_row-live_rows facts 0

get_cell-add_row_example :
    ((add_row blank (7 ∷ 8 ∷ []) 0 true).1 ≡ true)
    × (is_live_row (add_row blank (7 ∷ 8 ∷ []) 0 true).0 0 ≡ (is_live_row blank 0 || 0 == 0))
    × (get_cell (add_row blank (7 ∷ 8 ∷ []) 0 true).0 0 1
        ≡ (if 0 == 0 then get_or (7 ∷ 8 ∷ []) 1 0 else get_cell blank 0 1))
    × (get_rule (add_row blank (7 ∷ 8 ∷ []) 0 true).0 0
        ≡ (if 0 == 0 then (if 0 == nil_value then false_value else 0) else get_rule blank 0))
    × (is_ground_row (add_row blank (7 ∷ 8 ∷ []) 0 true).0 0
        ≡ (if 0 == 0 then true else is_ground_row blank 0))
get_cell-add_row_example =
    get_cell-add_row blank (7 ∷ 8 ∷ []) 0 true 0 1 blank-Valid refl (omega arith)

is_live_row-delete_row_example :
    ((delete_row facts 0).1 ≡ is_live_row facts 0)
    × (is_live_row (delete_row facts 0).0 1 ≡ (is_live_row facts 1 && not (1 == 0)))
    × (◌≢◌ {A = ℕ} 1 0
        → (get_cell (delete_row facts 0).0 1 0 ≡ get_cell facts 1 0)
          × (get_rule (delete_row facts 0).0 1 ≡ get_rule facts 1)
          × (is_ground_row (delete_row facts 0).0 1 ≡ is_ground_row facts 1))
is_live_row-delete_row_example = is_live_row-delete_row facts 0 1 0

count_row-query-build_index_example :
    count_row 0 (query (build_index facts 1) 1 8) ≡ count_row 0 (query facts 1 8)
count_row-query-build_index_example = count_row-query-build_index facts 1 1 8 0 facts-Valid

header_test : (set_predicate_header blank 12 2).predicate_functor ≡ some 12
unfolding set_predicate_header
header_test = refl

ground_test : is_ground_row facts 0 ≡ true
unfolding is_ground_row build_index add_row push_values index_values
ground_test = refl

-- The row was added with the rule 0, which is no `Nil`.
rule_test : get_rule facts 0 ≡ 0
unfolding get_rule build_index add_row push_values index_values box
rule_test = refl
