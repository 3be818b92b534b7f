-- ===== src/Serializer/Artifact/Freshness.antt =====
-- eta/core/src/eta/runtime/vm/bytecode_serializer.cpp, `check_freshness`: whether a compiled artifact
-- may still be used. The texts that explain a refusal are left out.
pub mod Agrees
use eta.Prelude.{
  ℕ, ◌≡◌, refl, ap, ◌↔◌, ◌==◌, ==_iff, Bool, true, false, not, ◌&&◌, ◌||◌, if◌then◌else◌,
  Bool-cases, inl, inr, List, [], ◌∷◌, Option, some, none, arith,
}
use eta.Serializer.Stream.{Text}
use eta.Serializer.Artifact.{EtacFile, PackageMetadata, DependencyHashEntry}
use eta.Serializer.Artifact.Read.{same_bytes, supported}

pub record FreshnessContext : Type 0 where
  pub expected_compiler_id : Option (List ℕ)
  pub expected_builtin_count : Option ℕ
  pub expected_source_hash : Option ℕ
  pub expected_manifest_hash : Option ℕ
  pub expected_dependency_hashes : List DependencyHashEntry

pub data FreshnessStatus : Type 0 where
  fresh unsupported_format missing_compiler_id compiler_id_mismatch : FreshnessStatus
  builtin_count_mismatch source_hash_mismatch manifest_hash_mismatch : FreshnessStatus
  dependency_hash_mismatch : FreshnessStatus

-- A test that lets the next one go on, or answers at once.
abbrev pub after : FreshnessStatus → FreshnessStatus → FreshnessStatus
after fresh next = next
after unsupported_format next = unsupported_format
after missing_compiler_id next = missing_compiler_id
after compiler_id_mismatch next = compiler_id_mismatch
after builtin_count_mismatch next = builtin_count_mismatch
after source_hash_mismatch next = source_hash_mismatch
after manifest_hash_mismatch next = manifest_hash_mismatch
after dependency_hash_mismatch next = dependency_hash_mismatch

pub check_format : EtacFile → FreshnessStatus
check_format file = if not (supported file.format_version) then unsupported_format else fresh

pub check_compiler_id : Option (List ℕ) → EtacFile → FreshnessStatus
check_compiler_id none file = fresh
check_compiler_id (some expected) file =
    if not file.has_compiler_id
    then missing_compiler_id
    else if not (same_bytes file.compiler_id expected)
    then compiler_id_mismatch
    else fresh

pub check_number : FreshnessStatus → Option ℕ → ℕ → FreshnessStatus
check_number mismatch none actual = fresh
check_number mismatch (some expected) actual = if not (actual == expected) then mismatch else fresh

pub check_manifest : Option ℕ → Option PackageMetadata → FreshnessStatus
check_manifest none meta = fresh
check_manifest (some expected) none = manifest_hash_mismatch
check_manifest (some expected) (some meta) =
    if not (meta.manifest_hash == expected) then manifest_hash_mismatch else fresh

-- `std::find_if` over the dependencies of the file
pub find_dependency : Text → List DependencyHashEntry → Option DependencyHashEntry
find_dependency dependency [] = none
find_dependency dependency (actual ∷ rest) =
    if same_bytes actual.dependency dependency then some actual else find_dependency dependency rest

abbrev pub same_hash : ℕ → Option DependencyHashEntry → FreshnessStatus
same_hash expected none = dependency_hash_mismatch
same_hash expected (some it) =
    if not (it.etac_hash == expected) then dependency_hash_mismatch else fresh

pub check_dependencies : List DependencyHashEntry → List DependencyHashEntry → FreshnessStatus
check_dependencies [] actual = fresh
check_dependencies (expected ∷ rest) actual =
    after (same_hash expected.etac_hash (find_dependency expected.dependency actual))
      (check_dependencies rest actual)

pub check_freshness : EtacFile → FreshnessContext → FreshnessStatus
check_freshness file context = after (check_format file) (
    after (check_compiler_id context.expected_compiler_id file) (
      after (check_number builtin_count_mismatch context.expected_builtin_count file.builtin_count)
        (after (check_number source_hash_mismatch context.expected_source_hash file.source_hash) (
          after (check_manifest context.expected_manifest_hash file.package_metadata)
            (check_dependencies context.expected_dependency_hashes file.dependency_hashes)))))
