-- ===== src/FactTable/Query.antt =====
-- `query`, `live_rows` and `active_row_count` of runtime/types/fact_table.h.
use eta.Prelude.{
  ℕ, ◌≡◌, true, ◌&&◌, ◌==◌, ltb, if◌then◌else◌, [], length, get_or, arith, Bool-cases, inl, inr,
}
use eta.FactTable.{FactTable, is_empty, query, get_cell, is_live_row, live_rows}
use eta.FactTable.Entries.{count_row, count_row-lookup, count_row-rows_from}
use eta.FactTable.Valid.{Valid, Complete, Complete-at}

-- In a valid table a query returns a row once if the row is live and its cell in the column is the
-- key, and else not at all: whether or not the column has an index.
pub count_row-query :
    (t : FactTable) (col key r : ℕ)
    → Valid t
    → count_row r (query t col key)
      ≡ (if ltb col (length t.columns) && is_live_row t r && get_cell t r col == key then 1 else 0)
unfolding query get_cell is_live_row count_row
count_row-query t col key r v =
    let whole : Complete t.live_mask (get_or t.columns col []) (get_or t.indexes col []) =
      Complete-at t.live_mask t.columns t.indexes col v.complete in
    elim (Bool-cases (is_empty (get_or t.indexes col []))) [
      | inl none_there ↦ ground (
        arith,
        count_row-rows_from (λ i. get_or (get_or t.columns col []) i 0 == key) t.live_mask 0
            t.row_count r,
      )
      | inr there ↦ ground (
        arith,
        count_row-lookup t.row_count t.live_mask key (get_or t.indexes col []) r,
        whole there key r,
      )
    ]

-- `live_rows` returns each live row once and nothing else.
pub count_row-live_rows :
    (t : FactTable) (r : ℕ) → count_row r (live_rows t) ≡ (if is_live_row t r then 1 else 0)
unfolding live_rows is_live_row
count_row-live_rows t r =
    ground (arith, count_row-rows_from (λ _. true) t.live_mask 0 t.row_count r)
