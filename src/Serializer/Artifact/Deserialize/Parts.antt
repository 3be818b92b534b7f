-- ===== src/Serializer/Artifact/Deserialize/Parts.antt =====
-- The parts of an artifact that hold no constants come back.
use eta.Prelude.{
  ℕ, ◌%◌, ◌^◌, ◌<◌, ◌≡◌, refl, ltb, false, List, [], ◌∷◌, ◌++◌, length, Option, some, none, arith,
}
use mathlib.Core.List.{append_assoc}
use eta.Serializer.Stream.{ok, Reader, ◌>>=◌, write_u32, write_each, read_u32, read_times}
use eta.Serializer.Stream.RoundTrip.{
  Trips, read_u8-Trips, read_u32-Trips, read_u64-Trips, read_str-Trips, read_times-Trips,
}
use eta.Serializer.Artifact.{PackageMetadata, DependencyHashEntry}
use eta.Serializer.Artifact.Write.{
  write_list, write_import, write_export, write_module, write_dependency, write_instruction,
  write_span, has_value, slot_or_ones, package_bytes, dependency_bytes, current_version, is_some,
  nonempty,
}
use eta.Serializer.Artifact.Read.{
  read_list, read_import, read_export, read_module_v4, read_relocation, read_module,
  read_dependency, read_instruction, read_span, read_package, read_package_if, read_dependencies_if,
  main_slot, max_dep_hash_entries,
}
use eta.Serializer.Artifact.Deserialize.Limits.{
  IsU32, EachOf, InImport, InExport, InSlot, InModule, InPackage, InDependency, InDependencies,
  InInstruction, InSpan,
}

pub u32_small : (n : ℕ) → n < 2 ^ 32 → n % 2 ^ 32 ≡ n
u32_small n h = omega arith

pub write_list_lem :
    {A : Type 0} (w : A → List ℕ) (xs : List A)
    → length xs < 2 ^ 32
    → write_list w xs ≡ write_u32 (length xs) ++ write_each w xs
unfolding write_list
write_list_lem w xs h = rw (u32_small (length xs) h)

main_slot-Trips : (o : Option ℕ) → main_slot (has_value o) (slot_or_ones o) ≡ o
unfolding has_value slot_or_ones
main_slot-Trips none = refl
main_slot-Trips (some slot) = refl

slot_or_ones-lt : (o : Option ℕ) → InSlot o → slot_or_ones o < 2 ^ 32
unfolding slot_or_ones
slot_or_ones-lt none h = omega arith
slot_or_ones-lt (some slot) h = h

has_value-lt : (o : Option ℕ) → has_value o < 2 ^ 8
unfolding has_value
has_value-lt none = omega arith
has_value-lt (some slot) = omega arith

module _ {M : Type 0} where
  pub read_list_lem :
      {A : Type 0} (r : Reader M A) (n : ℕ) (m : M) (s : List ℕ)
      → n < 2 ^ 32
      → read_list r m (write_u32 n ++ s) ≡ read_times r n m s
  unfolding read_list
  read_list_lem r n m s h = rw (read_u32-Trips n h m s, ◌>>=◌)

  module _ {A : Type 0} (r : Reader M A) (w : A → List ℕ) (P : A → Type 0) (t : Trips r w P) where
    pub read_list-Trips : Trips (read_list r) (write_list w) (EachOf P)
    unfolding read_list write_list
    read_list-Trips xs h m rest = rw (
      append_assoc (write_u32 (length xs % 2 ^ 32)) (write_each w xs) rest,
      u32_small (length xs) h.0,
      read_u32-Trips (length xs) h.0 m (write_each w xs ++ rest),
      ◌>>=◌,
      read_times-Trips r w P t xs h.1 m rest,
    )

  read_import-Trips : Trips {M = M} read_import write_import InImport
  unfolding read_import write_import
  read_import-Trips imp (h0, h1, h2) m rest = simp append_assoc (
      rw (
        read_u32-Trips imp.local_slot h0 m _,
        ◌>>=◌,
        read_str-Trips imp.from_module h1 m _,
        read_str-Trips imp.remote_name h2 m rest,
      ))

  read_export-Trips : Trips {M = M} read_export write_export InExport
  unfolding read_export write_export
  read_export-Trips ex (h0, h1) m rest =
      simp append_assoc
        (rw (read_str-Trips ex.name h0 m _, ◌>>=◌, read_u32-Trips ex.slot h1 m rest))

  read_dependency-Trips : Trips {M = M} read_dependency write_dependency InDependency
  unfolding read_dependency write_dependency
  read_dependency-Trips dep (h0, h1) m rest =
      simp append_assoc
        (rw (read_str-Trips dep.dependency h0 m _, ◌>>=◌, read_u64-Trips dep.etac_hash h1 m rest))

  pub read_instruction-Trips : Trips {M = M} read_instruction write_instruction InInstruction
  unfolding read_instruction write_instruction
  read_instruction-Trips instr (h0, h1) m rest =
      simp append_assoc
        (rw (read_u8-Trips instr.opcode h0 m _, ◌>>=◌, read_u32-Trips instr.arg h1 m rest))

  pub read_span-Trips : Trips {M = M} read_span write_span InSpan
  unfolding read_span write_span
  read_span-Trips span h m rest = simp append_assoc (
      rw
        (
          read_u32-Trips span.file_id h.file_id m _,
          ◌>>=◌,
          read_u32-Trips span.start.line h.start_line m _,
          read_u32-Trips span.start.column h.start_column m _,
          read_u32-Trips span.end_.line h.end_line m _,
          read_u32-Trips span.end_.column h.end_column m rest,
        )
        (ground (arith, h.start_offset, h.end_offset)))

  pub read_module-Trips : Trips {M = M} (read_module current_version) write_module InModule
  unfolding read_module read_module_v4 read_relocation write_module
  read_module-Trips mod_ h m rest = simp append_assoc (
      rw (
        read_str-Trips mod_.name h.name m _,
        ◌>>=◌,
        read_u32-Trips mod_.init_func_index h.init_func_index m _,
        read_u32-Trips mod_.total_globals h.total_globals m _,
        read_u8-Trips (has_value mod_.main_func_slot) (has_value-lt mod_.main_func_slot) m _,
        read_u32-Trips (slot_or_ones mod_.main_func_slot)
            (slot_or_ones-lt mod_.main_func_slot h.main_func_slot) m _,
        read_u32-Trips mod_.first_func_index h.first_func_index m _,
        read_u32-Trips mod_.func_count h.func_count m _,
        read_list-Trips read_u32 write_u32 IsU32 read_u32-Trips mod_.owned_global_slots
            h.owned_global_slots m _,
        read_list-Trips read_import write_import InImport read_import-Trips mod_.import_bindings
            h.import_bindings m _,
        read_list-Trips read_export write_export InExport read_export-Trips mod_.export_bindings
            h.export_bindings m rest,
        main_slot-Trips mod_.main_func_slot,
      ))

  pub read_package_if-Trips :
      (meta : Option PackageMetadata) (m : M) (rest : List ℕ)
      → InPackage meta
      → read_package_if (is_some meta) m (package_bytes meta ++ rest) ≡ ok (meta, m, rest)
  unfolding read_package_if read_package package_bytes
  read_package_if-Trips none m rest h = refl
  read_package_if-Trips (some meta) m rest (h0, h1, h2) = simp append_assoc (
      rw (
        read_str-Trips meta.name h0 m _,
        ◌>>=◌,
        read_str-Trips meta.version h1 m _,
        read_u64-Trips meta.manifest_hash h2 m rest,
      ))

  pub read_dependencies_if-Trips :
      (deps : List DependencyHashEntry) (m : M) (rest : List ℕ)
      → InDependencies deps
      → read_dependencies_if (nonempty deps) m (dependency_bytes deps ++ rest) ≡ ok (deps, m, rest)
  unfolding read_dependencies_if dependency_bytes write_list
  read_dependencies_if-Trips [] m rest h = refl
  read_dependencies_if-Trips (dep ∷ deps) m rest h =
      let xs = dep ∷ deps in
      let limit : ltb max_dep_hash_entries (length xs) ≡ false = ground arith in
      rw (
        append_assoc (write_u32 (length xs % 2 ^ 32)) (write_each write_dependency xs) rest,
        u32_small (length xs) (omega arith),
        read_u32-Trips (length xs) (omega arith) m (write_each write_dependency xs ++ rest),
        ◌>>=◌,
        limit,
        read_times-Trips read_dependency write_dependency InDependency read_dependency-Trips xs h.1
            m rest,
      )
