-- ===== src/FactTable/Valid.antt =====
-- What `FactTable` of runtime/types/fact_table.h keeps between calls.
use eta.Prelude.{
  ℕ, zero, suc, ◌+◌, ◌≡◌, false, ◌&&◌, ◌==◌, if◌then◌else◌, List, [], ◌∷◌, length, get_or,
}
use eta.FactTable.{FactTable, Index, is_empty, is_live}
use eta.FactTable.Entries.{count_entry}

-- The number of the live rows.
unfoldable pub live_total : List ℕ → ℕ
live_total [] = 0
live_total (x ∷ xs) = (if x == 0 then 0 else 1) + live_total xs

-- An index is either empty or has each live row of the column once, under its value, and nothing
-- else.
abbrev pub Complete : List ℕ → List ℕ → Index → Type 0
Complete live c idx =
    is_empty idx ≡ false
    → (k r : ℕ) → count_entry k r idx ≡ (if is_live live r && get_or c r 0 == k then 1 else 0)

abbrev pub AllComplete : List ℕ → List (List ℕ) → List Index → Type 0
AllComplete live [] [] = Unit
AllComplete live (c ∷ cs) (i ∷ is) = Complete live c i × AllComplete live cs is
AllComplete live [] (i ∷ is) = ⊥
AllComplete live (c ∷ cs) [] = ⊥

abbrev pub AllTall : ℕ → List (List ℕ) → Type 0
AllTall n [] = Unit
AllTall n (c ∷ cs) = (length c ≡ n) × AllTall n cs

pub record Valid (t : FactTable) : Type 0 where
  pub tall : AllTall t.row_count t.columns
  pub ruled : length t.rule_column ≡ t.row_count
  pub grounded : length t.ground_mask ≡ t.row_count
  pub marked : length t.live_mask ≡ t.row_count
  pub counted : t.live_count ≡ live_total t.live_mask
  pub complete : AllComplete t.live_mask t.columns t.indexes

pub Complete-at :
    (live : List ℕ) (cs : List (List ℕ)) (is : List Index) (col : ℕ)
    → AllComplete live cs is
    → Complete live (get_or cs col []) (get_or is col [])
unfolding count_entry
Complete-at live [] [] col a = λ h k r. cc
Complete-at live [] (i ∷ is) col a = elim a [ ]
Complete-at live (c ∷ cs) [] col a = elim a [ ]
Complete-at live (c ∷ cs) (i ∷ is) zero a = a.0
Complete-at live (c ∷ cs) (i ∷ is) (suc col) a = Complete-at live cs is col a.1
