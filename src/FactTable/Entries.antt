-- ===== src/FactTable/Entries.antt =====
-- How often an entry stands in an index of runtime/types/fact_table.h, and a row in a result.
use eta.Prelude.{
  ℕ, zero, suc, ◌+◌, ◌-◌, ◌≡◌, Bool, ◌&&◌, ◌==◌, ltb, leb, if◌then◌else◌, List, [], ◌∷◌, get_or,
  arith,
}
use eta.FactTable.{Index, emplace, erase, index_from, lookup, rows_from, is_live}

unfoldable pub count_row : ℕ → List ℕ → ℕ
count_row r [] = 0
count_row r (x ∷ xs) = (if x == r then 1 else 0) + count_row r xs

unfoldable pub count_entry : ℕ → ℕ → Index → ℕ
count_entry k r [] = 0
count_entry k r (e ∷ es) = (if e.key == k && e.row == r then 1 else 0) + count_entry k r es

pub count_entry-erase :
    (k r k2 r2 : ℕ) (idx : Index)
    → count_entry k2 r2 (erase k r idx)
      ≡ count_entry k2 r2 idx - (if k == k2 && r == r2 then 1 else 0)
unfolding count_entry erase
count_entry-erase k r k2 r2 [] = ground arith
count_entry-erase k r k2 r2 (e ∷ es) = ground (arith, count_entry-erase k r k2 r2 es)

pub count_entry-index_from :
    (c : List ℕ) (live : List ℕ) (r n : ℕ) (idx : Index) (k r2 : ℕ)
    → count_entry k r2 (index_from c live r n idx)
      ≡ (if leb r r2 && ltb r2 (r + n) && is_live live r2 && get_or c r2 0 == k then 1 else 0)
        + count_entry k r2 idx
unfolding count_entry index_from
count_entry-index_from c live r zero idx k r2 = ground arith
count_entry-index_from c live r (suc n) idx k r2 = ground (
  arith,
  count_entry-index_from c live (r + 1) n
      (if get_or live r 0 == 0 then idx else emplace (get_or c r 0) r idx) k r2,
)

pub count_row-lookup :
    (rows : ℕ) (live : List ℕ) (k : ℕ) (idx : Index) (r : ℕ)
    → count_row r (lookup rows live k idx)
      ≡ (if ltb r rows && is_live live r then count_entry k r idx else 0)
unfolding count_row count_entry lookup
count_row-lookup rows live k [] r = ground arith
count_row-lookup rows live k (e ∷ es) r = ground (arith, count_row-lookup rows live k es r)

pub count_row-rows_from :
    (test : ℕ → Bool) (live : List ℕ) (r n r2 : ℕ)
    → count_row r2 (rows_from test live r n)
      ≡ (if leb r r2 && ltb r2 (r + n) && is_live live r2 && test r2 then 1 else 0)
unfolding count_row rows_from
count_row-rows_from test live r zero r2 = ground arith
count_row-rows_from test live r (suc n) r2 =
    ground (arith, count_row-rows_from test live (r + 1) n r2)
