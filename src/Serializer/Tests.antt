-- ===== src/Serializer/Tests.antt =====
-- Runs of the serializer on small artifacts.
use eta.Prelude.{ℕ, ◌≡◌, ◌↔◌, refl, true, false, List, [], ◌∷◌, ◌++◌, some, none, arith, inr}
use eta.NanBox.{LispVal, Tag, box, nil_value, true_value}
use eta.Bytecode.{encode_func_index}
use eta.Serializer.Stream.{ok}
use eta.Serializer.Stream.Ends.{Within}
use eta.Serializer.Memory.{Grows}
use eta.Serializer.Memory.Growing.{
  Growing, Object, growing, growing-IsLawful, nothing_stored, room_lem,
}
use eta.Serializer.Constants.{write_constant, read_constant}
use eta.Serializer.Constants.Datum as Datum
use eta.Serializer.Constants.Datum.{Data, Shows, ShowsEach, Fits, end, item}
use eta.Serializer.Constants.RoundTrip.{read_constant-write_constant}
use eta.Serializer.Artifact.{BytecodeFunction}
use eta.Serializer.Artifact.Write.{serialize, debug_spans, spans_from}
use eta.Serializer.Artifact.Verify.{verify_all, FunctionIsSafe, verify_all_iff}
use eta.Serializer.Artifact.Verify.{verify_function, verify_code, is_invalid, is_known}
use eta.Serializer.Artifact.Freshness.{FreshnessContext, fresh, check_freshness}
use eta.Serializer.Artifact.Freshness.Agrees.{IsFresh, check_freshness_iff}
use eta.Serializer.Artifact.Deserialize.{deserialize}
use eta.Serializer.Artifact.Deserialize.Table.{Table, functions, InEntry, ShowsTable, Reloaded}
use eta.Serializer.Artifact.Deserialize.Functions.{stored_spans}
use eta.Serializer.Artifact.Deserialize.RoundTrip.{
  Contents, InContents, file_of, deserialize-serialize,
}
use eta.Serializer.Artifact.Deserialize.Ends.{deserialize_ends}

-- A pair of the empty list and #t, the only object.
abbrev one_pair : Growing
one_pair = record nothing_stored { objects = Object.cons nil_value true_value ∷ [] }

abbrev pair : Datum.Datum
pair = Datum.cons Datum.nil Datum.true_

abbrev pair_word : LispVal
pair_word = box Tag.heap_object 0

pair_word-Shows : Shows growing one_pair pair_word pair
unfolding Shows
pair_word-Shows = (0, nil_value, true_value, refl, omega arith, refl, refl, refl)

pair-Fits : Fits pair
unfolding Fits
pair-Fits = (tt, tt)

read_constant-write_constant_example :
    (bytes : List ℕ) × (v' : LispVal) × (m' : Growing) × (write_constant growing 5 one_pair
        pair_word
      ≡ some bytes)
    × (read_constant growing 9 nothing_stored (bytes ++ (7 ∷ [])) ≡ ok (v', m', 7 ∷ []))
    × Shows growing m' v' pair
    × Grows growing nothing_stored m'
read_constant-write_constant_example =
    read_constant-write_constant growing growing-IsLawful pair one_pair pair_word nothing_stored
      (7 ∷ []) 5 9 pair_word-Shows pair-Fits (unfold Datum.depth in omega arith)
      (unfold Datum.depth in omega arith)
      (unfold Datum.cost in omega (arith, room_lem nothing_stored))

-- (lambda () (quote (())...)): load a constant and return it.
abbrev loader : BytecodeFunction
loader = record {
  code = record { opcode = 1; arg = 1 } ∷ record { opcode = 14; arg = 0 } ∷ [];
  source_map = [];
  constants = encode_func_index 3 ∷ pair_word ∷ [];
  arity = 2;
  has_rest = false;
  stack_size = 4;
  name = b'f' ∷ [];
  local_names = (b'x' ∷ []) ∷ [] ∷ [];
  upval_names = [];
}

abbrev loader_table : Table
loader_table = (loader, item (Datum.func_index 3) (item pair end)) ∷ []

abbrev contents : Contents
contents = record {
  modules =
      record {
        name = b'm' ∷ [];
        init_func_index = 0;
        total_globals = 2;
        main_func_slot = some 1;
        first_func_index = 0;
        func_count = 1;
        owned_global_slots = 0 ∷ 1 ∷ [];
        import_bindings =
            record { local_slot = 0; from_module = b'n' ∷ []; remote_name = b'g' ∷ [] } ∷ [];
        export_bindings = record { name = b'h' ∷ []; slot = 1 } ∷ [];
      }
      ∷ [];
  source_hash = 77;
  imports = (b'n' ∷ []) ∷ [];
  num_builtins = 120;
  package_metadata = some (record { name = b'p' ∷ []; version = b'1' ∷ []; manifest_hash = 5 });
  dependency_hashes = record { dependency = b'd' ∷ []; etac_hash = 9 } ∷ [];
  compiler_id = 1 ∷ 2 ∷ 3 ∷ 4 ∷ 5 ∷ 6 ∷ 7 ∷ 8 ∷ 9 ∷ 10 ∷ 11 ∷ 12 ∷ 13 ∷ 14 ∷ 15 ∷ 16 ∷ [];
}

contents-InContents : InContents contents
contents-InContents = record {
  modules = (
    omega arith,
    (
      record {
        name = omega arith;
        init_func_index = omega arith;
        total_globals = omega arith;
        main_func_slot = omega arith;
        first_func_index = omega arith;
        func_count = omega arith;
        owned_global_slots = omega arith;
        import_bindings = omega arith;
        export_bindings = omega arith;
      },
      tt,
    ),
  );
  source_hash = omega arith;
  imports = omega arith;
  num_builtins = omega arith;
  package_metadata = omega arith;
  dependency_hashes = omega arith;
  compiler_id = refl;
}

loader-InEntry : InEntry true 3 (loader, item (Datum.func_index 3) (item pair end))
unfolding stored_spans debug_spans spans_from Datum.Fits Datum.FitsData Datum.depth Datum.depth_data
loader-InEntry = record {
  function = record {
    name = omega arith;
    arity = omega arith;
    stack_size = omega arith;
    code = omega arith;
    spans = omega arith;
    local_names = omega arith;
    upval_names = omega arith;
  };
  small = omega arith;
  fits = (omega arith, ((tt, tt), tt));
  deep = omega arith;
}

loader_table-ShowsTable : ShowsTable growing one_pair loader_table
unfolding ShowsEach Shows
loader_table-ShowsTable =
    ((refl, ((0, nil_value, true_value, refl, omega arith, refl, refl, refl), tt)), tt)

loader_valid : verify_all (functions loader_table) ≡ ok tt
unfolding verify_all verify_function verify_code is_invalid is_known
loader_valid = refl

deserialize-serialize_example :
    (bytes' : List ℕ) × (funcs' : List BytecodeFunction) × (m' : Growing) × (serialize growing 3
        one_pair true contents.modules
        (functions loader_table)
        contents.source_hash
        contents.imports
        contents.num_builtins
        contents.package_metadata
        contents.dependency_hashes
        contents.compiler_id
      ≡ some bytes')
    × (deserialize growing 120 nothing_stored (bytes' ++ (7 ∷ []))
        ≡ ok (file_of true contents funcs', m', 7 ∷ []))
    × Reloaded growing m' true loader_table funcs'
deserialize-serialize_example =
    deserialize-serialize growing growing-IsLawful true contents loader_table 3 one_pair
      contents-InContents (omega arith) (loader-InEntry, tt) loader_table-ShowsTable loader_valid
      nothing_stored (unfold Datum.cost_data Datum.cost in omega (arith, room_lem nothing_stored))
      120 (inr refl) (7 ∷ [])

deserialize_ends_example : Within 3 (deserialize growing 0 nothing_stored (b'E' ∷ b'T' ∷ 255 ∷ []))
deserialize_ends_example = deserialize_ends growing 0 nothing_stored (b'E' ∷ b'T' ∷ 255 ∷ [])

verify_all_iff_example : (verify_all (loader ∷ []) ≡ ok tt) ↔ ((FunctionIsSafe loader) × Unit {0})
verify_all_iff_example = verify_all_iff (loader ∷ [])

abbrev any_context : FreshnessContext
any_context = record {
  expected_compiler_id = none;
  expected_builtin_count = some 120;
  expected_source_hash = none;
  expected_manifest_hash = some 5;
  expected_dependency_hashes = record { dependency = b'd' ∷ []; etac_hash = 9 } ∷ [];
}

check_freshness_iff_example :
    (check_freshness (file_of true contents []) any_context ≡ fresh)
    ↔ IsFresh (file_of true contents []) any_context
check_freshness_iff_example = check_freshness_iff (file_of true contents []) any_context
