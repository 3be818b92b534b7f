-- ===== src/Serializer/Artifact/Deserialize/Head.antt =====
-- The header of an artifact comes back.
use eta.Prelude.{
  ℕ, ◌^◌, ◌<◌, ◌≡◌, refl, ◌==◌, Bool, true, false, not, ◌&&◌, bit_or, List, [], ◌++◌, length,
  Option, none, arith, ◌⊎◌,
}
use mathlib.Core.List.{append_assoc}
use eta.Serializer.Stream.{ok, ◌>>=◌, write_u16, write_u32, write_u64}
use eta.Serializer.Stream.RoundTrip.{read_u16-Trips, read_u32-Trips, read_u64-Trips, read_bytes_lem}
use eta.Serializer.Artifact.{PackageMetadata, DependencyHashEntry}
use eta.Serializer.Artifact.Write.{
  magic, current_version, flag_has_debug, flag_has_package_meta, flag_has_dephash, header_flags,
  is_some, nonempty, flag_if, package_bytes, dependency_bytes,
}
use eta.Serializer.Artifact.Read.{has_flag, read_magic}
use eta.Serializer.Artifact.Deserialize.{Header, no_compiler_id, read_header, read_identity}
use eta.Serializer.Artifact.Deserialize.Limits.{InPackage, InDependencies}
use eta.Serializer.Artifact.Deserialize.Parts.{read_package_if-Trips, read_dependencies_if-Trips}

accepted :
    (expected n : ℕ)
    → (expected ≡ 0) ⊎ (expected ≡ n)
    → (not (expected == 0) && not (n == expected)) ≡ false
accepted expected n h = ground arith

abbrev combined : Bool → Bool → Bool → ℕ
combined x y z =
    bit_or (bit_or (flag_if x flag_has_debug) (flag_if y flag_has_package_meta))
      (flag_if z flag_has_dephash)

combined_lem :
    (x y z : Bool)
    → (has_flag (combined x y z) flag_has_debug ≡ x)
      × (has_flag (combined x y z) flag_has_package_meta ≡ y)
      × (has_flag (combined x y z) flag_has_dephash ≡ z)
      × (combined x y z < 2 ^ 16)
combined_lem true true true = (refl, refl, refl, omega arith)
combined_lem true true false = (refl, refl, refl, omega arith)
combined_lem true false true = (refl, refl, refl, omega arith)
combined_lem true false false = (refl, refl, refl, omega arith)
combined_lem false true true = (refl, refl, refl, omega arith)
combined_lem false true false = (refl, refl, refl, omega arith)
combined_lem false false true = (refl, refl, refl, omega arith)
combined_lem false false false = (refl, refl, refl, omega arith)

module _ (debug : Bool) (meta : Option PackageMetadata) (deps : List DependencyHashEntry) where
  -- Each flag tells what follows.
  pub header_flags_lem :
      (has_flag (header_flags debug meta deps) flag_has_debug ≡ debug)
      × (has_flag (header_flags debug meta deps) flag_has_package_meta ≡ is_some meta)
      × (has_flag (header_flags debug meta deps) flag_has_dephash ≡ nonempty deps)
      × (header_flags debug meta deps < 2 ^ 16)
  unfolding header_flags
  header_flags_lem = combined_lem debug (is_some meta) (nonempty deps)

  abbrev pub header_bytes : ℕ → ℕ → List ℕ → List ℕ
  header_bytes source_hash num_builtins compiler_id =
      magic
      ++ (write_u16 current_version
          ++ (write_u16 (header_flags debug meta deps)
              ++ (write_u64 source_hash
                  ++ (write_u32 num_builtins
                      ++ (compiler_id ++ (package_bytes meta ++ dependency_bytes deps))))))

  abbrev pub header_of : ℕ → ℕ → List ℕ → Header
  header_of source_hash num_builtins compiler_id = record {
    format_version = current_version;
    flags = header_flags debug meta deps;
    source_hash = source_hash;
    builtin_count = num_builtins;
    has_compiler_id = true;
    compiler_id = compiler_id;
    package_metadata = meta;
    dependency_hashes = deps;
  }

  -- What is known before the compiler id.
  abbrev before_identity : ℕ → ℕ → Header
  before_identity source_hash num_builtins = record {
    format_version = current_version;
    flags = header_flags debug meta deps;
    source_hash = source_hash;
    builtin_count = num_builtins;
    has_compiler_id = false;
    compiler_id = no_compiler_id;
    package_metadata = none;
    dependency_hashes = [];
  }

  read_identity_lem :
      {M : Type 0} (header : Header) (compiler_id : List ℕ) (m : M) (rest : List ℕ)
      → header.flags ≡ header_flags debug meta deps
      → length compiler_id ≡ 16
      → InPackage meta
      → InDependencies deps
      → read_identity true header m
          (compiler_id ++ (package_bytes meta ++ (dependency_bytes deps ++ rest)))
        ≡ ok (
          record header {
            has_compiler_id = true;
            compiler_id = compiler_id;
            package_metadata = meta;
            dependency_hashes = deps;
          },
          m,
          rest,
        )
  unfolding read_identity
  read_identity_lem header compiler_id m rest e len hp hd =
      let p : has_flag header.flags flag_has_package_meta ≡ is_some meta =
        rw e header_flags_lem.1 in
      let d : has_flag header.flags flag_has_dephash ≡ nonempty deps = rw e header_flags_lem.2 in
      rw (
        ← len,
        read_bytes_lem compiler_id m _,
        ◌>>=◌,
        p,
        read_package_if-Trips meta m _ hp,
        d,
        read_dependencies_if-Trips deps m rest hd,
      )

  pub read_header_lem :
      {M : Type 0} (source_hash num_builtins expected : ℕ) (compiler_id : List ℕ) (m : M)
      (rest : List ℕ)
      → source_hash < 2 ^ 64
      → num_builtins < 2 ^ 32
      → length compiler_id ≡ 16
      → InPackage meta
      → InDependencies deps
      → (expected ≡ 0) ⊎ (expected ≡ num_builtins)
      → read_header expected m (header_bytes source_hash num_builtins compiler_id ++ rest)
        ≡ ok (header_of source_hash num_builtins compiler_id, m, rest)
  unfolding read_header read_magic
  read_header_lem source_hash num_builtins expected compiler_id m rest hs hn len hp hd he =
      simp append_assoc (
        rw (
          read_bytes_lem magic m _,
          ◌>>=◌,
          read_u16-Trips current_version (omega arith) m _,
          read_u16-Trips (header_flags debug meta deps) header_flags_lem.3 m _,
          read_u64-Trips source_hash hs m _,
          read_u32-Trips num_builtins hn m _,
          accepted expected num_builtins he,
          read_identity_lem (before_identity source_hash num_builtins) compiler_id m rest refl len
              hp hd,
        ))
