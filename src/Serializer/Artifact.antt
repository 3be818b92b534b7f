-- ===== src/Serializer/Artifact.antt =====
-- eta/core/src/eta/runtime/vm/bytecode_serializer.h and bytecode.h: what an `.etac` file holds.
pub mod Write
pub mod Read
pub mod Verify
pub mod Deserialize
pub mod Freshness
use eta.Prelude.{ℕ, Bool, List, Option}
use eta.NanBox.{LispVal}
use eta.Ir.{Span}
use eta.Serializer.Stream.{Text}

pub record ImportBinding : Type 0 where
  pub local_slot : ℕ
  pub from_module : Text
  pub remote_name : Text

pub record ExportBinding : Type 0 where
  pub name : Text
  pub slot : ℕ

pub record ModuleEntry : Type 0 where
  pub name : Text
  pub init_func_index : ℕ
  pub total_globals : ℕ
  pub main_func_slot : Option ℕ
  pub first_func_index : ℕ
  pub func_count : ℕ
  pub owned_global_slots : List ℕ
  pub import_bindings : List ImportBinding
  pub export_bindings : List ExportBinding

pub record PackageMetadata : Type 0 where
  pub name : Text
  pub version : Text
  pub manifest_hash : ℕ

pub record DependencyHashEntry : Type 0 where
  pub dependency : Text
  pub etac_hash : ℕ

-- An `OpCode` is its byte: a file may hold any.
pub record Instruction : Type 0 where
  pub opcode : ℕ
  pub arg : ℕ

pub record BytecodeFunction : Type 0 where
  pub code : List Instruction
  pub source_map : List Span
  pub constants : List LispVal
  pub arity : ℕ
  pub has_rest : Bool
  pub stack_size : ℕ
  pub name : Text
  pub local_names : List Text
  pub upval_names : List Text

pub record EtacFile : Type 0 where
  pub format_version : ℕ
  pub flags : ℕ
  pub source_hash : ℕ
  pub builtin_count : ℕ
  pub has_compiler_id : Bool
  pub compiler_id : List ℕ
  pub package_metadata : Option PackageMetadata
  pub dependency_hashes : List DependencyHashEntry
  pub imports : List Text
  pub modules : List ModuleEntry
  pub registry : List BytecodeFunction
