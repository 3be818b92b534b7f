-- ===== src/FactTable/Effects.antt =====
-- What the mutators of runtime/types/fact_table.h change for the readers.
use eta.Prelude.{
  ℕ, zero, suc, ◌+◌, ◌<◌, ◌≡◌, refl, ◌∙◌, sym, ap, Bool, true, not, ◌&&◌, ◌||◌, ◌≢◌, ◌==◌, leb,
  if◌then◌else◌, List, [], ◌∷◌, ◌++◌, length, get_or, arith, Bool-cases, inl, inr,
}
use eta.NanBox.{LispVal, nil_value, false_value}
use eta.FactTable.{
  FactTable, push_values, add_row, delete_row, build_index, get_cell, is_live_row, live_rows,
  rows_from, query, active_row_count, get_rule, is_ground_row,
}
use eta.FactTable.Entries.{count_row}
use eta.FactTable.Query.{count_row-query}
use eta.FactTable.Valid.{Valid, AllTall, live_total}
use eta.FactTable.Keeps.{get_or-append, get_or_beyond, get_or-set_zero, build_index-Valid}

length-push_values : (cs : List (List ℕ)) (vs : List ℕ) → length (push_values cs vs) ≡ length cs
unfolding push_values
length-push_values [] vs = refl
length-push_values (c ∷ cs) [] = refl
length-push_values (c ∷ cs) (v ∷ vs) = ap suc (length-push_values cs vs)

cell-push_values :
    (cs : List (List ℕ)) (vs : List ℕ) (n col r : ℕ)
    → length vs ≡ length cs
    → AllTall n cs
    → col < length cs
    → get_or (get_or (push_values cs vs) col []) r 0
      ≡ (if r == n then get_or vs col 0 else get_or (get_or cs col []) r 0)
unfolding push_values
cell-push_values [] vs n col r l a h = absurd (omega arith)
cell-push_values (c ∷ cs) [] n col r l a h = absurd (omega arith)
cell-push_values (c ∷ cs) (v ∷ vs) n zero r l a h = ground (arith, get_or-append c v r, a.0)
cell-push_values (c ∷ cs) (v ∷ vs) n (suc col) r l a h =
    cell-push_values cs vs n col r (omega arith) a.1 (omega arith)

-- In a valid table a row of as many values as there are columns is added at the end: it is live,
-- it reads back in every column, and its rule and ground flag are the ones given, a rule of `nil`
-- reading as false. Every other row keeps its liveness, its cells, its rule and its ground flag.
pub get_cell-add_row :
    (t : FactTable) (values : List LispVal) (rule : LispVal) (is_ground : Bool) (r col : ℕ)
    → Valid t
    → length values ≡ length t.columns
    → col < length t.columns
    → ((add_row t values rule is_ground).1 ≡ true)
      × (is_live_row (add_row t values rule is_ground).0 r ≡ (is_live_row t r || r == t.row_count))
      × (get_cell (add_row t values rule is_ground).0 r col
          ≡ (if r == t.row_count then get_or values col 0 else get_cell t r col))
      × (get_rule (add_row t values rule is_ground).0 r ≡ (
          if r == t.row_count
          then (if rule == nil_value then false_value else rule)
          else get_rule t r))
      × (is_ground_row (add_row t values rule is_ground).0 r
          ≡ (if r == t.row_count then is_ground else is_ground_row t r))
unfolding add_row get_cell is_live_row get_rule is_ground_row
get_cell-add_row t values rule is_ground r col v l h =
    let fits : (length values == length t.columns) ≡ true = ground arith in
    let marks : get_or (t.live_mask ++ 1 ∷ []) r 0
        ≡ (if r == length t.live_mask then 1 else get_or t.live_mask r 0) =
      get_or-append t.live_mask 1 r in
    rw fits (
      refl,
      ground (arith, marks, v.marked),
      ground (
        arith,
        marks,
        v.marked,
        length-push_values t.columns values,
        cell-push_values t.columns values t.row_count col r l v.tall h,
      ),
      ground (arith, get_or-append t.rule_column rule r, v.ruled, get_or_beyond t.rule_column r),
      ground (
        arith,
        get_or-append t.ground_mask (if is_ground then 1 else 0) r,
        v.grounded,
        get_or_beyond t.ground_mask r,
      ),
    )

-- Deleting answers whether the row was live, and afterwards it is not. Every other row keeps its
-- liveness, its cells, its rule and its ground flag.
pub is_live_row-delete_row :
    (t : FactTable) (row r col : ℕ)
    → ((delete_row t row).1 ≡ is_live_row t row)
      × (is_live_row (delete_row t row).0 r ≡ (is_live_row t r && not (r == row)))
      × (r ≢ row
          → (get_cell (delete_row t row).0 r col ≡ get_cell t r col)
            × (get_rule (delete_row t row).0 r ≡ get_rule t r)
            × (is_ground_row (delete_row t row).0 r ≡ is_ground_row t r))
unfolding delete_row get_cell is_live_row get_rule is_ground_row
is_live_row-delete_row t row r col = elim (Bool-cases (leb t.row_count row)) [
  | inl beyond ↦ rw beyond (ground arith, ground arith, λ ne. (refl, refl, refl))
  | inr within ↦ elim (Bool-cases (get_or t.live_mask row 0 == 0)) [
    | inl dead ↦ rw (within, dead) (ground arith, ground arith, λ ne. (refl, refl, refl))
    | inr on ↦
        rw (within, on)
          (
            ground arith,
            ground (arith, get_or-set_zero t.live_mask row r),
            λ ne. (
              ground (arith, get_or-set_zero t.live_mask row r),
              ground (arith, get_or-set_zero t.live_mask row r),
              ground (arith, get_or-set_zero t.live_mask row r),
            ),
          )
  ]
]

-- Building an index changes how a query finds its rows, never which: in a valid table every query
-- returns each row as often as before.
pub count_row-query-build_index :
    (t : FactTable) (built col key r : ℕ)
    → Valid t
    → count_row r (query (build_index t built) col key) ≡ count_row r (query t col key)
unfolding build_index get_cell is_live_row
count_row-query-build_index t built col key r v =
    count_row-query (build_index t built) col key r (build_index-Valid t built v)
    ∙ ground arith
    ∙ sym (count_row-query t col key r v)

length-rows_from-cons :
    (x : ℕ) (xs : List ℕ) (r n : ℕ)
    → length (rows_from (λ _. true) (x ∷ xs) (suc r) n) ≡ length (rows_from (λ _. true) xs r n)
unfolding rows_from
length-rows_from-cons x xs r zero = refl
length-rows_from-cons x xs r (suc n) = ground (arith, length-rows_from-cons x xs (r + 1) n)

length-rows_from : (xs : List ℕ) → length (rows_from (λ _. true) xs 0 (length xs)) ≡ live_total xs
unfolding rows_from live_total
length-rows_from [] = refl
length-rows_from (x ∷ xs) =
    ground (arith, length-rows_from-cons x xs 0 (length xs), length-rows_from xs)

-- In a valid table the cached count of the live rows is the number of the rows that `live_rows`
-- returns.
pub active_row_count-live_rows :
    (t : FactTable) → Valid t → active_row_count t ≡ length (live_rows t)
unfolding active_row_count live_rows
active_row_count-live_rows t v = rw (v.counted, sym v.marked) (sym (length-rows_from t.live_mask))
