-- ===== src/Serializer/Artifact/Deserialize/Ends.antt =====
-- `deserialize` ends on every stream.
use eta.Prelude.{ℕ, suc, ◌%◌, ◌^◌, ◌≢◌, Bool, true, false, List, [], ◌∷◌, length, arith}
use eta.NanBox.{LispVal}
use eta.Serializer.Stream.{
  Result, ok, unexpected, stuck, Reader, read_u8, read_u32, read_str, read_bytes, read_times,
}
use eta.Serializer.Stream.Ends.{
  EndsBelow, Within, EndsBelow->>=, EndsBelow-done, EndsBelow-refuse_if, EndsBelow-if,
  EndsBelow-read_bytes, EndsBelow-read_u8, EndsBelow-read_u16, EndsBelow-read_u32,
  EndsBelow-read_u64, EndsBelow-read_str, EndsBelow-read_times,
}
use eta.Serializer.Memory.{Memory}
use eta.Serializer.Constants.{read_constant}
use eta.Serializer.Constants.Ends.{EndsBelow-read_constant}
use eta.Serializer.Artifact.{ModuleEntry, Instruction, BytecodeFunction, EtacFile}
use eta.Serializer.Artifact.Read.{
  or_bad_magic, blame_magic, read_list, read_import, read_export, read_module_v4, read_relocation,
  read_module, read_dependency, read_instruction, read_span, read_package, read_package_if,
  read_dependencies_if, read_magic,
}
use eta.Serializer.Artifact.Verify.{verify_all, verify_function, verify_code}
use eta.Serializer.Artifact.Deserialize.{
  Header, read_identity, read_header, read_spans_if, read_function, verified, read_file,
  deserialize,
}

Within-blame_magic :
    {M A : Type 0} (x : Result (A × M × List ℕ)) (n : ℕ) → Within n x → Within n (blame_magic x)
Within-blame_magic (ok (a, m, s)) n w = w
Within-blame_magic (unexpected e) n w = tt
Within-blame_magic stuck n w = w

verify_code-ne-stuck :
    (nconsts stack_size : ℕ) (code : List Instruction) → verify_code nconsts stack_size code ≢ stuck
unfolding verify_code
verify_code-ne-stuck nconsts stack_size [] = λ e. cc
verify_code-ne-stuck nconsts stack_size (instr ∷ code) =
    ground (arith, verify_code-ne-stuck nconsts stack_size code)

verify_all-ne-stuck : (funcs : List BytecodeFunction) → verify_all funcs ≢ stuck
unfolding verify_all verify_function
verify_all-ne-stuck [] = λ e. cc
verify_all-ne-stuck (func ∷ funcs) = ground (
  arith,
  verify_code-ne-stuck (length func.constants % 2 ^ 32) func.stack_size func.code,
  verify_all-ne-stuck funcs,
)

ruleset words = (
  EndsBelow->>=, EndsBelow-done, EndsBelow-refuse_if, EndsBelow-read_bytes, EndsBelow-read_u8,
  EndsBelow-read_u16, EndsBelow-read_u32, EndsBelow-read_u64, EndsBelow-read_str,
)

module _ {M : Type 0} (k : ℕ) where
  EndsBelow-read_magic : EndsBelow k (read_magic {M = M})
  unfolding read_magic
  EndsBelow-read_magic = search (words, EndsBelow-or_bad_magic)
    where
      EndsBelow-or_bad_magic : EndsBelow k (or_bad_magic {M = M} (read_bytes 4))
      EndsBelow-or_bad_magic = record {
        ends = λ m s l.
            Within-blame_magic (read_bytes 4 m s) (length s)
              ((EndsBelow-read_bytes k 4).ends m s l);
      }

  EndsBelow-read_list : {A : Type 0} (r : Reader M A) → EndsBelow k r → EndsBelow k (read_list r)
  unfolding read_list
  EndsBelow-read_list r h =
      EndsBelow->>= k read_u32 _ (EndsBelow-read_u32 k) λ n. EndsBelow-read_times k r n h

  EndsBelow-read_import : EndsBelow k (read_import {M = M})
  unfolding read_import
  EndsBelow-read_import = search words depth 12

  EndsBelow-read_export : EndsBelow k (read_export {M = M})
  unfolding read_export
  EndsBelow-read_export = search words depth 12

  EndsBelow-read_dependency : EndsBelow k (read_dependency {M = M})
  unfolding read_dependency
  EndsBelow-read_dependency = search words depth 12

  EndsBelow-read_instruction : EndsBelow k (read_instruction {M = M})
  unfolding read_instruction
  EndsBelow-read_instruction = search words depth 12

  EndsBelow-read_span : EndsBelow k (read_span {M = M})
  unfolding read_span
  EndsBelow-read_span = search words depth 12

  EndsBelow-read_module_v4 : EndsBelow k (read_module_v4 {M = M})
  unfolding read_module_v4
  EndsBelow-read_module_v4 = search words depth 12

  EndsBelow-read_relocation : (mod_ : ModuleEntry) → EndsBelow k (read_relocation {M = M} mod_)
  unfolding read_relocation
  EndsBelow-read_relocation mod_ =
      search (words, EndsBelow-read_list, EndsBelow-read_import, EndsBelow-read_export) depth 12

  EndsBelow-read_module : (version : ℕ) → EndsBelow k (read_module {M = M} version)
  unfolding read_module
  EndsBelow-read_module version =
      search (words, EndsBelow-if, EndsBelow-read_module_v4, EndsBelow-read_relocation) depth 12

  EndsBelow-read_package_if : (b : Bool) → EndsBelow k (read_package_if {M = M} b)
  unfolding read_package_if read_package
  EndsBelow-read_package_if true = search words depth 12
  EndsBelow-read_package_if false = EndsBelow-done k _

  EndsBelow-read_dependencies_if : (b : Bool) → EndsBelow k (read_dependencies_if {M = M} b)
  unfolding read_dependencies_if
  EndsBelow-read_dependencies_if true =
      search (words, EndsBelow-read_times, EndsBelow-read_dependency) depth 12
  EndsBelow-read_dependencies_if false = EndsBelow-done k _

  EndsBelow-read_identity :
      (b : Bool) (header : Header) → EndsBelow k (read_identity {M = M} b header)
  unfolding read_identity
  EndsBelow-read_identity true header =
      search (words, EndsBelow-read_package_if, EndsBelow-read_dependencies_if) depth 12
  EndsBelow-read_identity false header = EndsBelow-done k header

  EndsBelow-read_header : (expected : ℕ) → EndsBelow k (read_header {M = M} expected)
  unfolding read_header
  EndsBelow-read_header expected =
      search (words, EndsBelow-read_magic, EndsBelow-read_identity) depth 16

  EndsBelow-read_spans_if : (b : Bool) (n : ℕ) → EndsBelow k (read_spans_if {M = M} b n)
  unfolding read_spans_if
  EndsBelow-read_spans_if true n = EndsBelow-read_times k read_span n EndsBelow-read_span
  EndsBelow-read_spans_if false n = EndsBelow-done k []

  EndsBelow-verified :
      (funcs : List BytecodeFunction) (file : EtacFile) → EndsBelow k (verified {M = M} funcs file)
  EndsBelow-verified funcs file = record {
    ends = λ m s l. ground (arith, verify_all-ne-stuck funcs);
  }

  names_end : EndsBelow k (read_list {M = M} read_str)
  names_end = EndsBelow-read_list read_str (EndsBelow-read_str k)

  module _ (read : Reader M LispVal) (h : EndsBelow k read) where
    EndsBelow-read_function : (debug : Bool) → EndsBelow k (read_function read debug)
    unfolding read_function
    EndsBelow-read_function debug = EndsBelow->>= k read_str _ (EndsBelow-read_str k) λ name.
        EndsBelow->>= k read_u32 _ (EndsBelow-read_u32 k) λ arity.
          EndsBelow->>= k read_u8 _ (EndsBelow-read_u8 k) λ has_rest.
            EndsBelow->>= k read_u32 _ (EndsBelow-read_u32 k) λ stack_size.
              EndsBelow->>= k (read_list read) _ (EndsBelow-read_list read h) λ constants.
                EndsBelow->>= k read_u32 _ (EndsBelow-read_u32 k) λ n.
                  EndsBelow->>= k (read_times read_instruction n) _
                    (EndsBelow-read_times k read_instruction n EndsBelow-read_instruction)
                    λ code.
                      EndsBelow->>= k (read_spans_if debug n) _ (EndsBelow-read_spans_if debug n)
                        λ source_map.
                          EndsBelow->>= k (read_list read_str) _ names_end λ local_names.
                            EndsBelow->>= k (read_list read_str) _ names_end
                              λ upval_names. EndsBelow-done k _

    EndsBelow-read_file : (expected : ℕ) → EndsBelow k (read_file read expected)
    unfolding read_file
    EndsBelow-read_file expected =
        search
          (
            words, EndsBelow-read_header, EndsBelow-read_list, EndsBelow-read_times,
            EndsBelow-read_module, EndsBelow-read_function, EndsBelow-verified,
          )
          depth 24 fits 4000

-- Whatever the bytes are, reading an artifact comes to an end: with an error, or with a file and what
-- is left of the stream, which is no more than there was.
pub deserialize_ends :
    (memory : Memory) (expected : ℕ) (m : memory.State) (s : List ℕ)
    → Within (length s) (deserialize memory expected m s)
unfolding deserialize
deserialize_ends memory expected m s =
    (EndsBelow-read_file (suc (length s)) (read_constant memory (suc (length s)))
        (EndsBelow-read_constant memory (suc (length s))) expected).ends
      m s (omega arith)
