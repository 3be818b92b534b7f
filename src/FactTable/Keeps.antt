-- ===== src/FactTable/Keeps.antt =====
-- The mutators of runtime/types/fact_table.h keep a table valid.
use eta.Prelude.{
  ℕ, zero, suc, ◌+◌, ◌-◌, ◌≤◌, ◌<◌, ◌≡◌, refl, ◌∙◌, Bool, true, not, ◌==◌, leb, if◌then◌else◌, List,
  [], ◌∷◌, ◌++◌, length, length-append, length-set, get_or, set, arith, Bool-cases, inl, inr,
}
use eta.NanBox.{LispVal}
use eta.FactTable.{
  FactTable, Index, is_empty, is_live, emplace, erase, push_values, index_values, add_row,
  erase_all, delete_row, build_index, index_from,
}
use eta.FactTable.Entries.{count_entry, count_entry-erase, count_entry-index_from}
use eta.FactTable.Valid.{Valid, Complete, AllComplete, AllTall, live_total}

pub get_or-append :
    (xs : List ℕ) (v j : ℕ)
    → get_or (xs ++ v ∷ []) j 0 ≡ (if j == length xs then v else get_or xs j 0)
get_or-append [] v zero = refl
get_or-append [] v (suc j) = ground arith
get_or-append (x ∷ xs) v zero = ground arith
get_or-append (x ∷ xs) v (suc j) = ground (arith, get_or-append xs v j)

pub get_or_beyond : (xs : List ℕ) (j : ℕ) → length xs ≤ j → get_or xs j 0 ≡ 0
get_or_beyond [] j h = refl
get_or_beyond (x ∷ xs) zero h = absurd (omega arith)
get_or_beyond (x ∷ xs) (suc j) h = get_or_beyond xs j (omega arith)

pub get_or-set_zero :
    (xs : List ℕ) (i j : ℕ) → get_or (set xs i 0) j 0 ≡ (if i == j then 0 else get_or xs j 0)
get_or-set_zero [] i j = ground arith
get_or-set_zero (x ∷ xs) zero zero = refl
get_or-set_zero (x ∷ xs) zero (suc j) = ground arith
get_or-set_zero (x ∷ xs) (suc i) zero = ground arith
get_or-set_zero (x ∷ xs) (suc i) (suc j) = ground (arith, get_or-set_zero xs i j)

live_total-append : (xs : List ℕ) → live_total (xs ++ 1 ∷ []) ≡ live_total xs + 1
unfolding live_total
live_total-append [] = refl
live_total-append (x ∷ xs) = omega (arith, live_total-append xs)

live_total_pos : (xs : List ℕ) (i : ℕ) → is_live xs i ≡ true → 0 < live_total xs
unfolding live_total
live_total_pos [] i h = ground arith
live_total_pos (x ∷ xs) zero h = ground arith
live_total_pos (x ∷ xs) (suc i) h = ground (arith, live_total_pos xs i)

live_total-set :
    (xs : List ℕ) (i : ℕ)
    → live_total (set xs i 0) ≡ live_total xs - (if is_live xs i then 1 else 0)
unfolding live_total
live_total-set [] i = ground arith
live_total-set (x ∷ xs) zero = ground arith
live_total-set (x ∷ xs) (suc i) =
    let some_live : is_live xs i ≡ true → 0 < live_total xs = live_total_pos xs i in
    ground (arith, live_total-set xs i)

Complete-push :
    (live c : List ℕ) (i : Index) (v n : ℕ)
    → length live ≡ n
    → length c ≡ n
    → Complete live c i
    → Complete (live ++ 1 ∷ []) (c ++ v ∷ []) (if not (is_empty i) then emplace v n i else i)
unfolding count_entry
Complete-push live c i v n l m whole = elim (Bool-cases (is_empty i)) [
  | inl none_there ↦ rw none_there (λ h k r. absurd (cc))
  | inr there ↦ rw there (λ h k r.
      ground
        (arith, get_or-append live 1 r, get_or-append c v r, get_or_beyond live r, whole there k r))
]

Complete-erase :
    (live c : List ℕ) (i : Index) (row : ℕ)
    → is_live live row ≡ true
    → Complete live c i
    → Complete (set live row 0) c (if is_empty i then i else erase (get_or c row 0) row i)
Complete-erase live c i row on whole = elim (Bool-cases (is_empty i)) [
  | inl none_there ↦ rw none_there (λ h k r. absurd (cc))
  | inr there ↦ rw there (λ h k r. ground (
    arith,
    get_or-set_zero live row r,
    count_entry-erase (get_or c row 0) row k r i,
    whole there k r,
  ))
]

Complete-index_from :
    (live c : List ℕ) (n : ℕ) → length live ≡ n → Complete live c (index_from c live 0 n [])
unfolding count_entry
Complete-index_from live c n l h k r =
    ground (arith, count_entry-index_from c live 0 n [] k r, get_or_beyond live r)

push_values-AllTall :
    (cs : List (List ℕ)) (vs : List ℕ) (n : ℕ)
    → length vs ≡ length cs
    → AllTall n cs
    → AllTall (n + 1) (push_values cs vs)
unfolding push_values
push_values-AllTall [] vs n l a = tt
push_values-AllTall (c ∷ cs) [] n l a = absurd (omega arith)
push_values-AllTall (c ∷ cs) (v ∷ vs) n l a =
    (omega (arith, length-append c (v ∷ []), a.0), push_values-AllTall cs vs n (omega arith) a.1)

push_values-AllComplete :
    (live : List ℕ) (cs : List (List ℕ)) (is : List Index) (vs : List ℕ) (n : ℕ)
    → length live ≡ n
    → AllTall n cs
    → length vs ≡ length cs
    → AllComplete live cs is
    → AllComplete (live ++ 1 ∷ []) (push_values cs vs) (index_values is vs n)
unfolding push_values index_values
push_values-AllComplete live [] [] vs n l t m a = tt
push_values-AllComplete live [] (i ∷ is) vs n l t m a = elim a [ ]
push_values-AllComplete live (c ∷ cs) [] vs n l t m a = elim a [ ]
push_values-AllComplete live (c ∷ cs) (i ∷ is) [] n l t m a = absurd (omega arith)
push_values-AllComplete live (c ∷ cs) (i ∷ is) (v ∷ vs) n l t m a = (
  Complete-push live c i v n l t.0 a.0,
  push_values-AllComplete live cs is vs n l t.1 (omega arith) a.1,
)

-- Adding a row, refused or not, keeps the table valid.
pub add_row-Valid :
    (t : FactTable) (values : List LispVal) (rule : LispVal) (is_ground : Bool)
    → Valid t
    → Valid (add_row t values rule is_ground).0
unfolding add_row
add_row-Valid t values rule is_ground v = elim (Bool-cases (length values == length t.columns)) [
  | inr refused ↦ rw refused v
  | inl fits ↦ rw fits (record {
    tall = push_values-AllTall t.columns values t.row_count (ground arith) v.tall;
    ruled = omega (arith, length-append t.rule_column (rule ∷ []), v.ruled);
    grounded =
        ground (arith, length-append t.ground_mask ((if is_ground then 1 else 0) ∷ []), v.grounded);
    marked = omega (arith, length-append t.live_mask (1 ∷ []), v.marked);
    counted = omega (arith, live_total-append t.live_mask, v.counted);
    complete =
        push_values-AllComplete t.live_mask t.columns t.indexes values t.row_count v.marked v.tall
          (ground arith) v.complete;
  })
]

erase_all-AllComplete :
    (live : List ℕ) (cs : List (List ℕ)) (is : List Index) (row : ℕ)
    → is_live live row ≡ true
    → AllComplete live cs is
    → AllComplete (set live row 0) cs (erase_all cs is row)
unfolding erase_all
erase_all-AllComplete live [] [] row on a = tt
erase_all-AllComplete live [] (i ∷ is) row on a = elim a [ ]
erase_all-AllComplete live (c ∷ cs) [] row on a = elim a [ ]
erase_all-AllComplete live (c ∷ cs) (i ∷ is) row on a =
    (Complete-erase live c i row on a.0, erase_all-AllComplete live cs is row on a.1)

-- Deleting a row, refused or not, keeps the table valid.
pub delete_row-Valid : (t : FactTable) (row : ℕ) → Valid t → Valid (delete_row t row).0
unfolding delete_row
delete_row-Valid t row v = elim (Bool-cases (leb t.row_count row)) [
  | inl beyond ↦ rw beyond v
  | inr within ↦ elim (Bool-cases (get_or t.live_mask row 0 == 0)) [
    | inl dead ↦ rw (within, dead) v
    | inr on ↦
        let live : is_live t.live_mask row ≡ true = ground arith in
        rw (within, on)
          (record {
            tall = v.tall;
            ruled = v.ruled;
            grounded = v.grounded;
            marked = length-set t.live_mask row 0 ∙ v.marked;
            counted = ground (arith, live_total-set t.live_mask row, v.counted);
            complete = erase_all-AllComplete t.live_mask t.columns t.indexes row live v.complete;
          })
  ]
]

set-AllComplete :
    (live : List ℕ) (cs : List (List ℕ)) (is : List Index) (col : ℕ) (i : Index)
    → AllComplete live cs is
    → Complete live (get_or cs col []) i
    → AllComplete live cs (set is col i)
set-AllComplete live [] [] col i a h = tt
set-AllComplete live [] (j ∷ is) col i a h = elim a [ ]
set-AllComplete live (c ∷ cs) [] col i a h = elim a [ ]
set-AllComplete live (c ∷ cs) (j ∷ is) zero i a h = (h, a.1)
set-AllComplete live (c ∷ cs) (j ∷ is) (suc col) i a h =
    (a.0, set-AllComplete live cs is col i a.1 h)

-- Building an index keeps the table valid.
pub build_index-Valid : (t : FactTable) (col : ℕ) → Valid t → Valid (build_index t col)
unfolding build_index
build_index-Valid t col v = elim (Bool-cases (leb (length t.columns) col)) [
  | inl beyond ↦ rw beyond v
  | inr within ↦ rw within (record {
    tall = v.tall;
    ruled = v.ruled;
    grounded = v.grounded;
    marked = v.marked;
    counted = v.counted;
    complete =
        set-AllComplete t.live_mask t.columns t.indexes col
          (index_from (get_or t.columns col []) t.live_mask 0 t.row_count []) v.complete
          (Complete-index_from t.live_mask (get_or t.columns col []) t.row_count v.marked);
  })
]
