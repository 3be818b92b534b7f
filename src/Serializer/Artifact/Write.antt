-- ===== src/Serializer/Artifact/Write.antt =====
-- eta/core/src/eta/runtime/vm/bytecode_serializer.cpp, `serialize`. Writing a constant takes fuel,
-- and `none` means that it ran out. The compiler id is an argument: where none is given, the source
-- takes that of its own build.
use eta.Prelude.{
  ℕ, zero, suc, ◌%◌, ◌^◌, bit_or, Bool, true, false, if◌then◌else◌, List, [], ◌∷◌, ◌++◌, length,
  get_or, Option, some, none,
}
use eta.Ir.{Position, Span}
use eta.Serializer.Stream.{Text, write_u8, write_u16, write_u32, write_u64, write_str, write_each}
use eta.Serializer.Memory.{Memory}
use eta.Serializer.Constants.{write_constant, write_all, ◌+++◌}
use eta.Serializer.Artifact.{
  ImportBinding, ExportBinding, ModuleEntry, PackageMetadata, DependencyHashEntry, Instruction,
  BytecodeFunction,
}

-- `{'E','T','A','C'}`
abbrev pub magic : List ℕ
magic = b'E' ∷ b'T' ∷ b'A' ∷ b'C' ∷ []

abbrev pub format_version_v3 : ℕ
format_version_v3 = 3

abbrev pub format_version_v4 : ℕ
format_version_v4 = 4

abbrev pub current_version : ℕ
current_version = 5

abbrev pub flag_has_debug : ℕ
flag_has_debug = 0x0001

abbrev pub flag_has_package_meta : ℕ
flag_has_package_meta = 0x0002

abbrev pub flag_has_dephash : ℕ
flag_has_dephash = 0x0004

-- `static_cast<uint32_t>(xs.size())`, and then the elements
module _ {A : Type 0} (w : A → List ℕ) where
  unfoldable pub write_list : List A → List ℕ
  write_list xs = write_u32 (length xs % 2 ^ 32) ++ write_each w xs

unfoldable pub write_import : ImportBinding → List ℕ
write_import imp =
    write_u32 imp.local_slot ++ (write_str imp.from_module ++ write_str imp.remote_name)

unfoldable pub write_export : ExportBinding → List ℕ
write_export ex = write_str ex.name ++ write_u32 ex.slot

unfoldable pub has_value {ℓ} : {A : Type ℓ} → Option A → ℕ
has_value none = 0
has_value (some a) = 1

-- `main_func_slot.value_or(0xFFFFFFFFu)`
unfoldable pub slot_or_ones : Option ℕ → ℕ
slot_or_ones none = 0xffffffff
slot_or_ones (some slot) = slot

unfoldable pub write_module : ModuleEntry → List ℕ
write_module mod_ =
    write_str mod_.name
    ++ (write_u32 mod_.init_func_index
        ++ (write_u32 mod_.total_globals
            ++ (write_u8 (has_value mod_.main_func_slot)
                ++ (write_u32 (slot_or_ones mod_.main_func_slot)
                    ++ (write_u32 mod_.first_func_index
                        ++ (write_u32 mod_.func_count
                            ++ (write_list write_u32 mod_.owned_global_slots
                                ++ (write_list write_import mod_.import_bindings
                                    ++ write_list write_export mod_.export_bindings))))))))

unfoldable pub write_dependency : DependencyHashEntry → List ℕ
write_dependency dep = write_str dep.dependency ++ write_u64 dep.etac_hash

unfoldable pub write_instruction : Instruction → List ℕ
write_instruction instr = write_u8 instr.opcode ++ write_u32 instr.arg

unfoldable pub write_span : Span → List ℕ
write_span span =
    write_u32 span.file_id
    ++ (write_u32 span.start.line
        ++ (write_u32 span.start.column
            ++ (write_u32 span.end_.line ++ write_u32 span.end_.column)))

abbrev pub no_position : Position
no_position = record { offset = 0; line = 0; column = 0 }

abbrev pub no_span : Span
no_span = record { file_id = 0; start = no_position; end_ = no_position }

-- `BytecodeFunction::span_at`
abbrev pub span_at : List Span → ℕ → Span
span_at source_map pc = get_or source_map pc no_span

-- The spans for `n` instructions from `pc` on.
unfoldable pub spans_from : List Span → ℕ → ℕ → List Span
spans_from source_map pc zero = []
spans_from source_map pc (suc n) = span_at source_map pc ∷ spans_from source_map (suc pc) n

unfoldable pub debug_spans : Bool → BytecodeFunction → List Span
debug_spans true func = spans_from func.source_map 0 (length func.code)
debug_spans false func = []

unfoldable pub package_bytes : Option PackageMetadata → List ℕ
package_bytes none = []
package_bytes (some meta) =
    write_str meta.name ++ (write_str meta.version ++ write_u64 meta.manifest_hash)

unfoldable pub dependency_bytes : List DependencyHashEntry → List ℕ
dependency_bytes [] = []
dependency_bytes (dep ∷ deps) = write_list write_dependency (dep ∷ deps)

abbrev pub flag_if : Bool → ℕ → ℕ
flag_if test flag = if test then flag else 0

abbrev pub is_some {ℓ} : {A : Type ℓ} → Option A → Bool
is_some none = false
is_some (some a) = true

abbrev pub nonempty {ℓ} : {A : Type ℓ} → List A → Bool
nonempty [] = false
nonempty (x ∷ xs) = true

unfoldable pub header_flags : Bool → Option PackageMetadata → List DependencyHashEntry → ℕ
header_flags include_debug package_metadata dependency_hashes =
    bit_or
      (bit_or (flag_if include_debug flag_has_debug)
        (flag_if (is_some package_metadata) flag_has_package_meta))
      (flag_if (nonempty dependency_hashes) flag_has_dephash)

module _ (memory : Memory) (fuel : ℕ) (m : memory.State) (include_debug : Bool) where
  unfoldable pub write_function : BytecodeFunction → Option (List ℕ)
  write_function func =
      some (
        write_str func.name
        ++ (write_u32 func.arity
            ++ (write_u8 (if func.has_rest then 1 else 0)
                ++ (write_u32 func.stack_size ++ write_u32 (length func.constants % 2 ^ 32)))))
      +++ write_all (write_constant memory fuel m) func.constants
      +++ some (
          write_list write_instruction func.code
          ++ (write_each write_span (debug_spans include_debug func)
              ++ (write_list write_str func.local_names ++ write_list write_str func.upval_names)))

  unfoldable pub serialize :
      List ModuleEntry
      → List BytecodeFunction
      → ℕ
      → List Text
      → ℕ
      → Option PackageMetadata
      → List DependencyHashEntry
      → List ℕ
      → Option (List ℕ)
  serialize modules registry source_hash imports num_builtins package_metadata dependency_hashes
        compiler_id =
      some (
        magic
        ++ (write_u16 current_version
            ++ (write_u16 (header_flags include_debug package_metadata dependency_hashes)
                ++ (write_u64 source_hash
                    ++ (write_u32 num_builtins
                        ++ (compiler_id
                            ++ (package_bytes package_metadata
                                ++ (dependency_bytes dependency_hashes
                                    ++ (write_u32 (length modules % 2 ^ 32)
                                        ++ (write_u32 (length registry % 2 ^ 32)
                                            ++ (write_list write_str imports
                                                ++ write_each write_module modules)))))))))))
      +++ write_all write_function registry
