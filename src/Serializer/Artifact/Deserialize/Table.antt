-- ===== src/Serializer/Artifact/Deserialize/Table.antt =====
-- The function table comes back. A table pairs each function with the data that its constants stand
-- for.
use eta.Prelude.{
  ℕ, ◌+◌, ◌%◌, ◌^◌, ◌<◌, ◌≤◌, ◌≡◌, refl, sym, ap, ◌∙◌, Bool, List, [], ◌∷◌, ◌++◌, length,
  length-append, All, some, arith,
}
use mathlib.Core.List.{append_assoc}
use eta.NanBox.{LispVal}
use eta.Serializer.Stream.{ok, ◌>>=◌, read_times}
use eta.Serializer.Memory.{Memory, IsLawful, Grows, Grows-refl, Grows-trans}
use eta.Serializer.Constants.{read_constant, write_all}
use eta.Serializer.Constants.Datum.{
  Data, count, format_data, depth_data, cost_data, FitsData, ShowsEach,
}
use eta.Serializer.Constants.Fuel.{depth_data-le-length}
use eta.Serializer.Constants.Written.{written_each, length-ShowsEach}
use eta.Serializer.Constants.ReadBack.{reads_each}
use eta.Serializer.Constants.ReadBack.Parts.{ShowsEach-Grows}
use eta.Serializer.Artifact.{BytecodeFunction}
use eta.Serializer.Artifact.Write.{write_function}
use eta.Serializer.Artifact.Verify.{verify_all, verify_function, verify_code}
use eta.Serializer.Artifact.Deserialize.{read_function}
use eta.Serializer.Artifact.Deserialize.Functions.{
  InFunction, reload, function_head, function_tail, read_function_lem,
}
use eta.Serializer.Artifact.Deserialize.Parts.{u32_small}

abbrev pub Table : Type 0
Table = List (BytecodeFunction × Data)

abbrev pub functions : Table → List BytecodeFunction
functions [] = []
functions ((func, ds) ∷ table) = func ∷ functions table

abbrev pub function_bytes : Bool → BytecodeFunction → Data → List ℕ
function_bytes debug func ds =
    function_head func (count ds) ++ (format_data ds ++ function_tail debug func)

unfoldable pub table_bytes : Bool → Table → List ℕ
table_bytes debug [] = []
table_bytes debug ((func, ds) ∷ table) = function_bytes debug func ds ++ table_bytes debug table

abbrev pub table_cost : Table → ℕ
table_cost [] = 0
table_cost ((func, ds) ∷ table) = cost_data ds + table_cost table

-- What can be written: the fields are in range, and the constants are not too many, too long or, for
-- the fuel, too deep.
pub record InEntry (debug : Bool) (fuel : ℕ) (entry : BytecodeFunction × Data) : Type 0 where
  pub function : InFunction debug entry.0
  pub small : count entry.1 < 2 ^ 32
  pub fits : FitsData entry.1
  pub deep : depth_data entry.1 ≤ fuel

-- Any fuel that is not below the length of the table is enough.
pub deep_enough :
    (debug : Bool) (fuel : ℕ) (t : Table) (k : ℕ)
    → All (InEntry debug fuel) t
    → length (table_bytes debug t) ≤ k
    → All (InEntry debug k) t
unfolding table_bytes
deep_enough debug fuel [] k h l = tt
deep_enough debug fuel ((func, ds) ∷ t) k h l = (
  record {
    function = h.0.function;
    small = h.0.small;
    fits = h.0.fits;
    deep = omega (arith, length-append {0}, depth_data-le-length ds);
  },
  deep_enough debug fuel t k h.1 (omega (arith, length-append {0})),
)

verify_function-reload :
    (debug : Bool) (func : BytecodeFunction) (vs : List LispVal)
    → length vs ≡ length func.constants
    → verify_function (reload debug func vs) ≡ verify_function func
unfolding verify_function
verify_function-reload debug func vs e =
    ap (λ (n : ℕ). verify_code (n % 2 ^ 32) func.stack_size func.code) e

module _ (memory : Memory) where
  open memory use {State}

  abbrev pub ShowsTable : State → Table → Type 0
  ShowsTable m = All (λ entry. ShowsEach memory m entry.0.constants entry.1)

  -- What has come back: each function as it was, but for the offsets of its spans, its constants
  -- standing for the same data.
  abbrev pub Reloaded : State → Bool → Table → List BytecodeFunction → Type 0
  Reloaded m debug [] [] = Unit
  Reloaded m debug [] (func' ∷ funcs') = ⊥
  Reloaded m debug ((func, ds) ∷ table) [] = ⊥
  Reloaded m debug ((func, ds) ∷ table) (func' ∷ funcs') =
      (vs : List LispVal) × (func' ≡ reload debug func vs)
      × ShowsEach memory m vs ds
      × Reloaded m debug table funcs'

  write_function_lem :
      (fuel : ℕ) (m : State) (debug : Bool) (func : BytecodeFunction) (ds : Data)
      → InEntry debug fuel (func, ds)
      → ShowsEach memory m func.constants ds
      → write_function memory fuel m debug func ≡ some (function_bytes debug func ds)
  unfolding write_function
  write_function_lem fuel m debug func ds h s =
      let n : length func.constants % 2 ^ 32 ≡ count ds =
        ap (λ (k : ℕ). k % 2 ^ 32) (length-ShowsEach memory m func.constants ds s)
        ∙ u32_small (count ds) h.small in
      rw (written_each memory ds m func.constants fuel h.deep h.fits s)
        (ap (λ k. some (function_head func k ++ (format_data ds ++ function_tail debug func))) n)

  pub write_table :
      (fuel : ℕ) (m : State) (debug : Bool) (table : Table)
      → All (InEntry debug fuel) table
      → ShowsTable m table
      → write_all (write_function memory fuel m debug) (functions table)
        ≡ some (table_bytes debug table)
  unfolding write_all table_bytes
  write_table fuel m debug [] h s = refl
  write_table fuel m debug ((func, ds) ∷ table) h s =
      rw (write_function_lem fuel m debug func ds h.0 s.0, write_table fuel m debug table h.1 s.1)

  module _ (lawful : IsLawful memory) (fuel : ℕ) (debug : Bool) where
    open lawful use {room}

    -- The table is read as one that shows the same data.
    abbrev pub TableBack : Table → State → List ℕ → Type 0
    TableBack table m rest =
        (funcs' : List BytecodeFunction) × (m' : State) × (read_times
            (read_function (read_constant memory fuel) debug) (length (functions table)) m
            (table_bytes debug table ++ rest)
          ≡ ok (funcs', m', rest))
        × Reloaded m' debug table funcs'
        × Grows memory m m'

    module _ (func : BytecodeFunction) (ds : Data) (table : Table) (m : State) (rest : List ℕ) where
      later_functions :
          InEntry debug fuel (func, ds)
          → (vs : List LispVal) (m1 : State)
          → read_times
              (read_constant memory fuel)
              (count ds)
              m
              (format_data ds ++ (function_tail debug func ++ (table_bytes debug table ++ rest)))
            ≡ ok (vs, m1, function_tail debug func ++ (table_bytes debug table ++ rest))
          → ShowsEach memory m1 vs ds
          → Grows memory m m1
          → TableBack table m1 rest
          → TableBack ((func, ds) ∷ table) m rest
      unfolding read_times table_bytes
      later_functions h vs m1 e1 s1 g1 (funcs', m2, e2, r2, g2) = (
        reload debug func vs ∷ funcs',
        m2,
        rw (
          append_assoc (function_bytes debug func ds) (table_bytes debug table) rest,
          read_function_lem (read_constant memory fuel) debug func ds vs m m1
              (table_bytes debug table ++ rest) h.function h.small e1,
          ◌>>=◌,
          e2,
        ),
        (vs, refl, ShowsEach-Grows memory ds vs g2 s1, r2),
        Grows-trans memory g1 g2,
      )

      function_back :
          InEntry debug fuel (func, ds)
          → (vs : List LispVal) × (m1 : State) × (read_times
                (read_constant memory fuel)
                (count ds)
                m
                (format_data ds ++ (function_tail debug func ++ (table_bytes debug table ++ rest)))
              ≡ ok (vs, m1, function_tail debug func ++ (table_bytes debug table ++ rest)))
            × ShowsEach memory m1 vs ds
            × Grows memory m m1
            × (room m ≤ room m1 + cost_data ds)
          → ((m1 : State) → room m ≤ room m1 + cost_data ds → TableBack table m1 rest)
          → TableBack ((func, ds) ∷ table) m rest
      function_back h (vs, m1, e1, s1, g1, r1) next = later_functions h vs m1 e1 s1 g1 (next m1 r1)

    pub read_table :
        (table : Table) (m : State) (rest : List ℕ)
        → All (InEntry debug fuel) table
        → table_cost table ≤ room m
        → TableBack table m rest
    unfolding read_times table_bytes
    read_table [] m rest h r = ([], m, refl, tt, Grows-refl memory m)
    read_table ((func, ds) ∷ table) m rest h r =
        function_back func ds table m rest h.0
          (reads_each memory lawful ds m
            (function_tail debug func ++ (table_bytes debug table ++ rest)) fuel h.0.deep h.0.fits
            (omega arith))
          (λ m1 r1. read_table table m1 rest h.1 (omega arith))

  -- The check of opcodes and indices answers for what has come back as it did before.
  pub verify_all-Reloaded :
      (m m' : State) (debug : Bool) (table : Table) (funcs' : List BytecodeFunction)
      → ShowsTable m table
      → Reloaded m' debug table funcs'
      → verify_all funcs' ≡ verify_all (functions table)
  unfolding verify_all
  verify_all-Reloaded m m' debug [] [] s r = refl
  verify_all-Reloaded m m' debug [] (func' ∷ funcs') s r = absurd r
  verify_all-Reloaded m m' debug ((func, ds) ∷ table) [] s r = absurd r
  verify_all-Reloaded m m' debug ((func, ds) ∷ table) (func' ∷ funcs') s (vs, e, shown, r) = rw (
    e,
    verify_function-reload debug func vs (
        length-ShowsEach memory m' vs ds shown
        ∙ sym (length-ShowsEach memory m func.constants ds s.0)),
    verify_all-Reloaded m m' debug table funcs' s.1 r,
  )
