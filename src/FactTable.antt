-- ===== src/FactTable.antt =====
-- `FactTable` of eta/core/src/eta/runtime/types/fact_table.h: facts in columns, rows deleted by a
-- mark, and an optional index on each column. An index is a list of its entries in place of a
-- `std::unordered_multimap`, whose order within a key is not specified.
pub mod Entries
pub mod Valid
pub mod Query
pub mod Keeps
pub mod Effects
mod Tests
use eta.Prelude.{
  ℕ, zero, suc, ◌+◌, ◌-◌, Bool, true, false, not, ◌&&◌, ◌||◌, ◌==◌, ltb, leb, if◌then◌else◌, List,
  [], ◌∷◌, ◌++◌, length, get_or, set, Option, none, some,
}
use eta.NanBox.{LispVal, nil_value, false_value}

pub record Entry : Type 0 where
  pub key : LispVal
  pub row : ℕ

abbrev pub Index : Type 0
Index = List Entry

pub record FactTable : Type 0 where
  pub col_names : List (List ℕ)
  pub columns : List (List LispVal)
  pub indexes : List Index
  pub rule_column : List LispVal
  pub ground_mask : List ℕ
  pub live_mask : List ℕ
  pub row_count : ℕ
  pub live_count : ℕ
  pub predicate_functor : Option ℕ
  pub predicate_arity : ℕ

abbrev pub is_empty : Index → Bool
is_empty [] = true
is_empty (e ∷ es) = false

abbrev pub emplace : LispVal → ℕ → Index → Index
emplace k r idx = record { key = k; row = r } ∷ idx

-- `live_mask[row] != 0`
abbrev pub is_live : List ℕ → ℕ → Bool
is_live live r = not (get_or live r 0 == 0)

-- The loop of `add_row` over the columns, from where `values` begins.
pub push_values : List (List LispVal) → List LispVal → List (List LispVal)
push_values [] vs = []
push_values (c ∷ cs) [] = c ∷ cs
push_values (c ∷ cs) (v ∷ vs) = (c ++ v ∷ []) ∷ push_values cs vs

pub index_values : List Index → List LispVal → ℕ → List Index
index_values [] vs r = []
index_values (i ∷ is) [] r = i ∷ is
index_values (i ∷ is) (v ∷ vs) r =
    (if not (is_empty i) then emplace v r i else i) ∷ index_values is vs r

-- The result says whether the row was added.
pub add_row : FactTable → List LispVal → LispVal → Bool → FactTable × Bool
unfolding push_values index_values
add_row t values rule is_ground = if not (length values == length t.columns) then (t, false) else (
  record t {
    columns = push_values t.columns values;
    indexes = index_values t.indexes values t.row_count;
    rule_column = t.rule_column ++ rule ∷ [];
    ground_mask = t.ground_mask ++ (if is_ground then 1 else 0) ∷ [];
    live_mask = t.live_mask ++ 1 ∷ [];
    row_count = t.row_count + 1;
    live_count = t.live_count + 1;
  },
  true,
)

-- The walk over `equal_range(k)` that erases the first entry of `row`.
pub erase : LispVal → ℕ → Index → Index
erase k r [] = []
erase k r (e ∷ es) = if e.key == k && e.row == r then es else e ∷ erase k r es

pub erase_all : List (List LispVal) → List Index → ℕ → List Index
erase_all cs [] row = []
erase_all [] (i ∷ is) row = i ∷ is
erase_all (c ∷ cs) (i ∷ is) row =
    (if is_empty i then i else erase (get_or c row 0) row i) ∷ erase_all cs is row

pub delete_row : FactTable → ℕ → FactTable × Bool
unfolding erase_all
delete_row t row =
    if leb t.row_count row
    then (t, false)
    else if get_or t.live_mask row 0 == 0
    then (t, false)
    else (
      record t {
        live_mask = set t.live_mask row 0;
        live_count = t.live_count - 1;
        indexes = erase_all t.columns t.indexes row;
      },
      true,
    )

pub set_predicate_header : FactTable → ℕ → ℕ → FactTable
set_predicate_header t functor arity = record t {
  predicate_functor = some functor;
  predicate_arity = arity;
}

-- The loop of `build_index` over the `n` rows from `r` on.
pub index_from : List LispVal → List ℕ → ℕ → ℕ → Index → Index
index_from c live r zero idx = idx
index_from c live r (suc n) idx =
    index_from c live (r + 1) n (if get_or live r 0 == 0 then idx else emplace (get_or c r 0) r idx)

pub build_index : FactTable → ℕ → FactTable
unfolding index_from
build_index t col = if leb (length t.columns) col then t else record t {
  indexes = set t.indexes col (index_from (get_or t.columns col []) t.live_mask 0 t.row_count []);
}

-- The walk of `query` over `equal_range(key)`.
pub lookup : ℕ → List ℕ → LispVal → Index → List ℕ
lookup rows live k [] = []
lookup rows live k (e ∷ es) =
    let rest = lookup rows live k es in
    if e.key == k
    then (if ltb e.row rows && is_live live e.row then e.row ∷ rest else rest)
    else rest

-- The loops over the `n` rows from `r` on: the live ones among them that pass a test.
pub rows_from : (ℕ → Bool) → List ℕ → ℕ → ℕ → List ℕ
rows_from test live r zero = []
rows_from test live r (suc n) =
    let rest = rows_from test live (r + 1) n in
    if get_or live r 0 == 0 then rest else (if test r then r ∷ rest else rest)

pub query : FactTable → ℕ → LispVal → List ℕ
unfolding lookup rows_from
query t col key =
    if leb (length t.columns) col
    then []
    else if not (is_empty (get_or t.indexes col []))
    then lookup t.row_count t.live_mask key (get_or t.indexes col [])
    else rows_from (λ r. get_or (get_or t.columns col []) r 0 == key) t.live_mask 0 t.row_count

pub live_rows : FactTable → List ℕ
unfolding rows_from
live_rows t = rows_from (λ _. true) t.live_mask 0 t.row_count

pub active_row_count : FactTable → ℕ
active_row_count t = t.live_count

pub is_live_row : FactTable → ℕ → Bool
is_live_row t row = ltb row t.row_count && is_live t.live_mask row

pub is_ground_row : FactTable → ℕ → Bool
is_ground_row t row =
    ltb row t.row_count && is_live t.live_mask row && not (get_or t.ground_mask row 0 == 0)

pub get_rule : FactTable → ℕ → LispVal
get_rule t row =
    if leb t.row_count row || get_or t.live_mask row 0 == 0
    then false_value
    else (if get_or t.rule_column row 0 == nil_value
        then false_value
        else get_or t.rule_column row 0)

pub get_cell : FactTable → ℕ → ℕ → LispVal
get_cell t row col =
    if leb (length t.columns) col || leb t.row_count row || get_or t.live_mask row 0 == 0
    then nil_value
    else get_or (get_or t.columns col []) row 0
