-- ===== src/Serializer/Artifact/Read.antt =====
-- eta/core/src/eta/runtime/vm/bytecode_serializer.cpp, `deserialize`, up to the verification.
use eta.Prelude.{
  ℕ, ◌+◌, ◌-◌, ◌%◌, ◌^◌, ltb, leb, ◌==◌, bit_and, Bool, true, false, not, ◌&&◌, ◌||◌, if◌then◌else◌,
  List, [], ◌∷◌, Option, some, none,
}
use eta.Ir.{Span}
use eta.Serializer.Stream.{
  Reader, Result, ok, unexpected, stuck, ◌>>=◌, ◌>>◌, done, refuse_if, bad_magic, corrupt_constant,
  read_bytes, read_u8, read_u32, read_u64, read_str, read_times,
}
use eta.Serializer.Artifact.{
  ImportBinding, ExportBinding, ModuleEntry, PackageMetadata, DependencyHashEntry, Instruction,
}
use eta.Serializer.Artifact.Write.{magic, format_version_v3, format_version_v4, current_version}

abbrev pub max_dep_hash_entries : ℕ
max_dep_hash_entries = 65535

abbrev pub same_bytes : List ℕ → List ℕ → Bool
same_bytes [] [] = true
same_bytes [] (b ∷ bs) = false
same_bytes (a ∷ xs) [] = false
same_bytes (a ∷ xs) (b ∷ bs) = (a == b) && same_bytes xs bs

-- Any failure of the first read is a bad magic number.
abbrev pub blame_magic {ℓ} : {A : Type ℓ} → Result A → Result A
blame_magic (ok x) = ok x
blame_magic (unexpected e) = unexpected bad_magic
blame_magic stuck = stuck

abbrev pub or_bad_magic : {M A : Type 0} → Reader M A → Reader M A
or_bad_magic r m s = blame_magic (r m s)

-- `if (flags & flag)`
abbrev pub has_flag : ℕ → ℕ → Bool
has_flag flags flag = not (bit_and flags flag == 0)

abbrev pub supported : ℕ → Bool
supported version =
    version == format_version_v3 || (version == format_version_v4 || version == current_version)

abbrev pub main_slot : ℕ → ℕ → Option ℕ
main_slot has_main slot = if has_main == 0 then none else some slot

module _ {M : Type 0} where
  -- A count, and then that many elements.
  unfoldable pub read_list : {A : Type 0} → Reader M A → Reader M (List A)
  read_list r = do n ← read_u32; read_times r n

  unfoldable pub read_import : Reader M ImportBinding
  read_import = do
    local_slot ← read_u32
    from_module ← read_str
    remote_name ← read_str
    done (record { local_slot = local_slot; from_module = from_module; remote_name = remote_name })

  unfoldable pub read_export : Reader M ExportBinding
  read_export = do name ← read_str; slot ← read_u32; done (record { name = name; slot = slot })

  -- What an older file says of a module.
  unfoldable pub read_module_v4 : Reader M ModuleEntry
  read_module_v4 = do
    name ← read_str
    init_func_index ← read_u32
    total_globals ← read_u32
    has_main ← read_u8
    slot ← read_u32
    done (record {
      name = name;
      init_func_index = init_func_index;
      total_globals = total_globals;
      main_func_slot = main_slot has_main slot;
      first_func_index = 0;
      func_count = 0;
      owned_global_slots = [];
      import_bindings = [];
      export_bindings = [];
    })

  -- `if (version >= FORMAT_VERSION)`
  unfoldable pub read_relocation : ModuleEntry → Reader M ModuleEntry
  read_relocation mod_ = do
    first_func_index ← read_u32
    func_count ← read_u32
    owned_global_slots ← read_list read_u32
    import_bindings ← read_list read_import
    export_bindings ← read_list read_export
    done (record mod_ {
      first_func_index = first_func_index;
      func_count = func_count;
      owned_global_slots = owned_global_slots;
      import_bindings = import_bindings;
      export_bindings = export_bindings;
    })

  unfoldable pub read_module : ℕ → Reader M ModuleEntry
  read_module version = do
    mod_ ← read_module_v4
    if leb current_version version then read_relocation mod_ else done mod_

  unfoldable pub read_dependency : Reader M DependencyHashEntry
  read_dependency = do
    dependency ← read_str
    etac_hash ← read_u64
    done (record { dependency = dependency; etac_hash = etac_hash })

  unfoldable pub read_instruction : Reader M Instruction
  read_instruction = do op ← read_u8; arg ← read_u32; done (record { opcode = op; arg = arg })

  -- The offsets are not stored.
  unfoldable pub read_span : Reader M Span
  read_span = do
    file_id ← read_u32
    start_line ← read_u32
    start_column ← read_u32
    end_line ← read_u32
    end_column ← read_u32
    done (record {
      file_id = file_id;
      start = record { offset = 0; line = start_line; column = start_column };
      end_ = record { offset = 0; line = end_line; column = end_column };
    })

  unfoldable pub read_package : Reader M PackageMetadata
  read_package = do
    name ← read_str
    version ← read_str
    manifest_hash ← read_u64
    done (record { name = name; version = version; manifest_hash = manifest_hash })

  unfoldable pub read_package_if : Bool → Reader M (Option PackageMetadata)
  read_package_if true = do meta ← read_package; done (some meta)
  read_package_if false = done none

  unfoldable pub read_dependencies_if : Bool → Reader M (List DependencyHashEntry)
  read_dependencies_if true = do
    dep_count ← read_u32
    refuse_if (ltb max_dep_hash_entries dep_count) corrupt_constant
    read_times read_dependency dep_count
  read_dependencies_if false = done []

  unfoldable pub read_magic : Reader M (Unit {0})
  read_magic = do
    bytes ← or_bad_magic (read_bytes 4)
    refuse_if (not (same_bytes bytes magic)) bad_magic

-- Older files do not store which functions belong to a module: each module's initializer is the
-- last of them. The arithmetic is that of `uint32_t`.
unfoldable pub infer_ranges : ℕ → List ModuleEntry → List ModuleEntry
infer_ranges start [] = []
infer_ranges start (mod_ ∷ mods) =
    (record mod_ {
      first_func_index = start;
      func_count =
          if leb start mod_.init_func_index then (mod_.init_func_index - start + 1) % 2 ^ 32 else 0;
    })
    ∷ infer_ranges ((mod_.init_func_index + 1) % 2 ^ 32) mods
