-- ===== src/Serializer/Artifact/Deserialize.antt =====
-- eta/core/src/eta/runtime/vm/bytecode_serializer.cpp, `deserialize`. A constant is nested no deeper
-- than the stream is long, so the length of the stream is fuel enough for each of them.
pub mod Limits
pub mod Parts
pub mod Head
pub mod Functions
pub mod Table
pub mod RoundTrip
pub mod Ends
use eta.Prelude.{
  ℕ, zero, suc, ltb, leb, ◌==◌, Bool, true, false, not, ◌&&◌, if◌then◌else◌, List, [], ◌∷◌, ◌++◌,
  length, Option, some, none,
}
use eta.NanBox.{LispVal}
use eta.Ir.{Span}
use eta.Serializer.Stream.{
  Reader, Result, ok, unexpected, stuck, ◌>>=◌, ◌>>◌, done, fail, refuse_if, Text, version_mismatch,
  builtin_count_mismatch, read_bytes, read_u8, read_u16, read_u32, read_u64, read_str, read_times,
}
use eta.Serializer.Memory.{Memory}
use eta.Serializer.Constants.{read_constant}
use eta.Serializer.Artifact.{
  ModuleEntry, PackageMetadata, DependencyHashEntry, Instruction, BytecodeFunction, EtacFile,
}
use eta.Serializer.Artifact.Write.{
  format_version_v4, current_version, flag_has_debug, flag_has_package_meta, flag_has_dephash,
}
use eta.Serializer.Artifact.Read.{
  has_flag, supported, read_list, read_module, read_instruction, read_span, read_package_if,
  read_dependencies_if, read_magic, read_dependency, infer_ranges,
}
use eta.Serializer.Artifact.Verify.{verify_all}

-- What `deserialize` has read before the module table.
pub record Header : Type 0 where
  pub format_version : ℕ
  pub flags : ℕ
  pub source_hash : ℕ
  pub builtin_count : ℕ
  pub has_compiler_id : Bool
  pub compiler_id : List ℕ
  pub package_metadata : Option PackageMetadata
  pub dependency_hashes : List DependencyHashEntry

abbrev pub no_compiler_id : List ℕ
no_compiler_id = 0 ∷ 0 ∷ 0 ∷ 0 ∷ 0 ∷ 0 ∷ 0 ∷ 0 ∷ 0 ∷ 0 ∷ 0 ∷ 0 ∷ 0 ∷ 0 ∷ 0 ∷ 0 ∷ []

module _ {M : Type 0} where
  -- `if (version >= FORMAT_VERSION_V4)`
  unfoldable pub read_identity : Bool → Header → Reader M Header
  read_identity false header = done header
  read_identity true header = do
    compiler_id ← read_bytes 16
    package_metadata ← read_package_if (has_flag header.flags flag_has_package_meta)
    dependency_hashes ← read_dependencies_if (has_flag header.flags flag_has_dephash)
    done (record header {
      has_compiler_id = true;
      compiler_id = compiler_id;
      package_metadata = package_metadata;
      dependency_hashes = dependency_hashes;
    })

  unfoldable pub read_header : ℕ → Reader M Header
  read_header expected_builtins = do
    read_magic
    version ← read_u16
    refuse_if (not (supported version)) version_mismatch
    flags ← read_u16
    source_hash ← read_u64
    file_builtins ← read_u32
    refuse_if (not (expected_builtins == 0) && not (file_builtins == expected_builtins))
        builtin_count_mismatch
    read_identity (leb format_version_v4 version) (record {
      format_version = version;
      flags = flags;
      source_hash = source_hash;
      builtin_count = file_builtins;
      has_compiler_id = false;
      compiler_id = no_compiler_id;
      package_metadata = none;
      dependency_hashes = [];
    })

  unfoldable pub read_spans_if : Bool → ℕ → Reader M (List Span)
  read_spans_if true n = read_times read_span n
  read_spans_if false n = done []

  -- A function of the table; `read` reads a constant.
  unfoldable pub read_function : Reader M LispVal → Bool → Reader M BytecodeFunction
  read_function read has_debug = do
    name ← read_str
    arity ← read_u32
    has_rest ← read_u8
    stack_size ← read_u32
    constants ← read_list read
    num_instrs ← read_u32
    code ← read_times read_instruction num_instrs
    source_map ← read_spans_if has_debug num_instrs
    local_names ← read_list read_str
    upval_names ← read_list read_str
    done (record {
      code = code;
      source_map = source_map;
      constants = constants;
      arity = arity;
      has_rest = not (has_rest == 0);
      stack_size = stack_size;
      name = name;
      local_names = local_names;
      upval_names = upval_names;
    })

  abbrev pub verified : List BytecodeFunction → EtacFile → Reader M EtacFile
  verified registry file m s = elim (verify_all registry) [
    | ok _ ↦ ok (file, m, s)
    | unexpected e ↦ unexpected e
    | stuck ↦ stuck
  ]

  -- The whole stream, with the reader of a constant.
  unfoldable pub read_file : Reader M LispVal → ℕ → Reader M EtacFile
  read_file read expected_builtins = do
    header ← read_header expected_builtins
    num_modules ← read_u32
    num_functions ← read_u32
    imports ← read_list read_str
    mods ← read_times (read_module header.format_version) num_modules
    let modules = if ltb header.format_version current_version then infer_ranges 0 mods else mods
    registry ← read_times (read_function read (has_flag header.flags flag_has_debug)) num_functions
    verified registry (record {
      format_version = header.format_version;
      flags = header.flags;
      source_hash = header.source_hash;
      builtin_count = header.builtin_count;
      has_compiler_id = header.has_compiler_id;
      compiler_id = header.compiler_id;
      package_metadata = header.package_metadata;
      dependency_hashes = header.dependency_hashes;
      imports = imports;
      modules = modules;
      registry = registry;
    })

module _ (memory : Memory) where
  open memory use {State}

  unfoldable pub deserialize : ℕ → Reader State EtacFile
  deserialize expected_builtins m s =
      read_file (read_constant memory (suc (length s))) expected_builtins m s
