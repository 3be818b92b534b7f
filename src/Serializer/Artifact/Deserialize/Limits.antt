-- ===== src/Serializer/Artifact/Deserialize/Limits.antt =====
-- What the fields of an artifact may hold: the widths of their types, and the limits on lengths that
-- the reader enforces.
use eta.Prelude.{ℕ, ◌^◌, ◌<◌, ◌≤◌, ◌≡◌, List, length, All, Option, some, none}
use eta.Ir.{Span}
use eta.Serializer.Stream.{Text, max_string_len}
use eta.Serializer.Artifact.{
  ImportBinding, ExportBinding, ModuleEntry, PackageMetadata, DependencyHashEntry, Instruction,
}
use eta.Serializer.Artifact.Read.{max_dep_hash_entries}

abbrev pub IsU32 : ℕ → Type 0
IsU32 v = v < 2 ^ 32

abbrev pub IsShort : Text → Type 0
IsShort s = length s ≤ max_string_len

abbrev pub EachOf {ℓ κ} : {A : Type ℓ} → (A → Type κ) → List A → Type κ
EachOf P xs = (length xs < 2 ^ 32) × All P xs

abbrev pub InImport : ImportBinding → Type 0
InImport imp = IsU32 imp.local_slot × IsShort imp.from_module × IsShort imp.remote_name

abbrev pub InExport : ExportBinding → Type 0
InExport ex = IsShort ex.name × IsU32 ex.slot

abbrev pub InSlot : Option ℕ → Type 0
InSlot none = Unit
InSlot (some slot) = IsU32 slot

pub record InModule (mod_ : ModuleEntry) : Type 0 where
  pub name : IsShort mod_.name
  pub init_func_index : IsU32 mod_.init_func_index
  pub total_globals : IsU32 mod_.total_globals
  pub main_func_slot : InSlot mod_.main_func_slot
  pub first_func_index : IsU32 mod_.first_func_index
  pub func_count : IsU32 mod_.func_count
  pub owned_global_slots : EachOf IsU32 mod_.owned_global_slots
  pub import_bindings : EachOf InImport mod_.import_bindings
  pub export_bindings : EachOf InExport mod_.export_bindings

abbrev pub InPackage : Option PackageMetadata → Type 0
InPackage none = Unit
InPackage (some meta) = IsShort meta.name × IsShort meta.version × (meta.manifest_hash < 2 ^ 64)

abbrev pub InDependency : DependencyHashEntry → Type 0
InDependency dep = IsShort dep.dependency × (dep.etac_hash < 2 ^ 64)

abbrev pub InDependencies : List DependencyHashEntry → Type 0
InDependencies deps = (length deps ≤ max_dep_hash_entries) × All InDependency deps

abbrev pub InInstruction : Instruction → Type 0
InInstruction instr = (instr.opcode < 2 ^ 8) × IsU32 instr.arg

-- A span as it is stored: without offsets.
pub record InSpan (span : Span) : Type 0 where
  pub file_id : IsU32 span.file_id
  pub start_line : IsU32 span.start.line
  pub start_column : IsU32 span.start.column
  pub end_line : IsU32 span.end_.line
  pub end_column : IsU32 span.end_.column
  pub start_offset : span.start.offset ≡ 0
  pub end_offset : span.end_.offset ≡ 0
