-- ===== src/Serializer/Artifact/Freshness/Agrees.antt =====
-- A fresh artifact is one that agrees with all that is expected of it.
use eta.Prelude.{
  ℕ, ◌≡◌, refl, ◌↔◌, Bool, true, false, not, if◌then◌else◌, Bool-cases, inl, inr, List, [], ◌∷◌,
  Option, some, none, arith,
}
use eta.Serializer.Stream.{Text}
use eta.Serializer.Artifact.{EtacFile, PackageMetadata, DependencyHashEntry}
use eta.Serializer.Artifact.Read.{same_bytes, supported}
use eta.Serializer.Artifact.Freshness.{
  FreshnessContext, FreshnessStatus, fresh, unsupported_format, builtin_count_mismatch,
  source_hash_mismatch, after, check_format, check_compiler_id, check_number, check_manifest,
  find_dependency, same_hash, check_dependencies, check_freshness,
}

-- What is expected of a number, if anything, holds of it.
abbrev pub Agrees : Option ℕ → ℕ → Type 0
Agrees none actual = Unit
Agrees (some expected) actual = actual ≡ expected

abbrev pub CompilerAgrees : Option (List ℕ) → EtacFile → Type 0
CompilerAgrees none file = Unit
CompilerAgrees (some expected) file = (file.has_compiler_id ≡ true) × (file.compiler_id ≡ expected)

abbrev pub ManifestAgrees : Option ℕ → Option PackageMetadata → Type 0
ManifestAgrees none meta = Unit
ManifestAgrees (some expected) none = ⊥
ManifestAgrees (some expected) (some meta) = meta.manifest_hash ≡ expected

-- The first entry of a name is the one that counts.
pub data Recorded (name : Text) (hash : ℕ) : List DependencyHashEntry → Type 0 where
  first :
      {entry : DependencyHashEntry} {rest : List DependencyHashEntry}
      → entry.dependency ≡ name
      → entry.etac_hash ≡ hash
      → Recorded name hash (entry ∷ rest)
  later :
      {entry : DependencyHashEntry} {rest : List DependencyHashEntry}
      → (entry.dependency ≡ name → ⊥)
      → Recorded name hash rest
      → Recorded name hash (entry ∷ rest)

abbrev pub DependenciesAgree : List DependencyHashEntry → List DependencyHashEntry → Type 0
DependenciesAgree [] actual = Unit
DependenciesAgree (expected ∷ rest) actual =
    Recorded expected.dependency expected.etac_hash actual × DependenciesAgree rest actual

pub record IsFresh (file : EtacFile) (context : FreshnessContext) : Type 0 where
  pub format : supported file.format_version ≡ true
  pub compiler_id : CompilerAgrees context.expected_compiler_id file
  pub builtin_count : Agrees context.expected_builtin_count file.builtin_count
  pub source_hash : Agrees context.expected_source_hash file.source_hash
  pub manifest : ManifestAgrees context.expected_manifest_hash file.package_metadata
  pub dependencies : DependenciesAgree context.expected_dependency_hashes file.dependency_hashes

pub same_bytes_iff : (xs ys : List ℕ) → (same_bytes xs ys ≡ true) ↔ (xs ≡ ys)
same_bytes_iff [] [] = ground arith
same_bytes_iff [] (b ∷ ys) = ground arith
same_bytes_iff (a ∷ xs) [] = ground arith
same_bytes_iff (a ∷ xs) (b ∷ ys) = ground (arith, same_bytes_iff xs ys)

after_iff : (s t : FreshnessStatus) → (after s t ≡ fresh) ↔ ((s ≡ fresh) × (t ≡ fresh))
after_iff s t = ground arith

check_number_iff :
    (s : FreshnessStatus) (e : Option ℕ) (n : ℕ)
    → (s ≡ fresh → ⊥)
    → (check_number s e n ≡ fresh) ↔ Agrees e n
unfolding check_number
check_number_iff s none n h = (λ e. tt, λ e. refl)
check_number_iff s (some x) n h = ground (arith, h)

check_compiler_id_iff :
    (e : Option (List ℕ)) (file : EtacFile)
    → (check_compiler_id e file ≡ fresh) ↔ CompilerAgrees e file
unfolding check_compiler_id
check_compiler_id_iff none file = (λ e. tt, λ e. refl)
check_compiler_id_iff (some x) file = ground (arith, same_bytes_iff file.compiler_id x)

check_manifest_iff :
    (e : Option ℕ) (meta : Option PackageMetadata)
    → (check_manifest e meta ≡ fresh) ↔ ManifestAgrees e meta
unfolding check_manifest
check_manifest_iff none meta = (λ e. tt, λ e. refl)
check_manifest_iff (some x) none = (λ e. cc, λ e. absurd e)
check_manifest_iff (some x) (some meta) = ground arith

-- What an inhabitant says of the first entry.
Recorded-first :
    {name : Text} {hash : ℕ} {entry : DependencyHashEntry} {rest : List DependencyHashEntry}
    → Recorded name hash (entry ∷ rest)
    → entry.dependency ≡ name
    → entry.etac_hash ≡ hash
Recorded-first (first e h) p = h
Recorded-first (later n r) p = absurd (n p)

Recorded-later :
    {name : Text} {hash : ℕ} {entry : DependencyHashEntry} {rest : List DependencyHashEntry}
    → Recorded name hash (entry ∷ rest)
    → (entry.dependency ≡ name → ⊥)
    → Recorded name hash rest
Recorded-later (first e h) p = absurd (p e)
Recorded-later (later n r) p = r

Recorded-iff :
    (name : Text) (hash : ℕ) (actual : List DependencyHashEntry)
    → (same_hash hash (find_dependency name actual) ≡ fresh) ↔ Recorded name hash actual
unfolding find_dependency
Recorded-iff name hash [] = (λ e. cc, λ r. elim r [ ])
Recorded-iff name hash (entry ∷ rest) = elim (Bool-cases (same_bytes entry.dependency name)) [
  | inl e ↦
      let p = (same_bytes_iff entry.dependency name).0 e in
      rw e (λ h. first p (ground arith), λ r. let q = Recorded-first r p in ground arith)
  | inr e ↦
      let p : entry.dependency ≡ name → ⊥ =
        λ q. cc (e, (same_bytes_iff entry.dependency name).1 q) in
      let ih = Recorded-iff name hash rest in
      rw e (λ h. later p (ih.0 h), λ r. ih.1 (Recorded-later r p))
]

check_dependencies_iff :
    (expected actual : List DependencyHashEntry)
    → (check_dependencies expected actual ≡ fresh) ↔ DependenciesAgree expected actual
unfolding check_dependencies
check_dependencies_iff [] actual = (λ e. tt, λ e. refl)
check_dependencies_iff (e ∷ rest) actual =
    let here = Recorded-iff e.dependency e.etac_hash actual in
    let ih = check_dependencies_iff rest actual in
    let both =
      after_iff (same_hash e.etac_hash (find_dependency e.dependency actual))
        (check_dependencies rest actual) in
    (λ h. (here.0 (both.0 h).0, ih.0 (both.0 h).1), λ d. both.1 (here.1 d.0, ih.1 d.1))

check_format_iff :
    (file : EtacFile) → (check_format file ≡ fresh) ↔ (supported file.format_version ≡ true)
unfolding check_format
check_format_iff file = decided (supported file.format_version)
  where
    decided : (b : Bool) → ((if not b then unsupported_format else fresh) ≡ fresh) ↔ (b ≡ true)
    decided true = (λ h. refl, λ h. refl)
    decided false = (λ h. cc, λ h. cc)

module _ {P Q : Type 0} (s t : FreshnessStatus) (p : (s ≡ fresh) ↔ P) (q : (t ≡ fresh) ↔ Q) where
  after_both : (after s t ≡ fresh) ↔ (P × Q)
  after_both = (
    λ h. let b = (after_iff s t).0 h in (p.0 b.0, q.0 b.1),
    λ h. (after_iff s t).1 (p.1 h.0, q.1 h.1),
  )

-- An artifact is fresh exactly if its format is supported and all that the context expects agrees:
-- the compiler, the number of builtins, the hashes of the source and of the manifest, and for each
-- dependency the first hash recorded under its name.
pub check_freshness_iff :
    (file : EtacFile) (context : FreshnessContext)
    → (check_freshness file context ≡ fresh) ↔ IsFresh file context
unfolding check_freshness
check_freshness_iff file c =
    let tests = after_both (check_format file) _ (check_format_iff file) (
      after_both (check_compiler_id c.expected_compiler_id file) _
        (check_compiler_id_iff c.expected_compiler_id file)
        (after_both
          (check_number builtin_count_mismatch c.expected_builtin_count file.builtin_count) _
          (check_number_iff builtin_count_mismatch c.expected_builtin_count file.builtin_count
            (λ e. cc))
          (after_both (check_number source_hash_mismatch c.expected_source_hash file.source_hash) _
            (check_number_iff source_hash_mismatch c.expected_source_hash file.source_hash
              (λ e. cc))
            (after_both (check_manifest c.expected_manifest_hash file.package_metadata)
              (check_dependencies c.expected_dependency_hashes file.dependency_hashes)
              (check_manifest_iff c.expected_manifest_hash file.package_metadata)
              (check_dependencies_iff c.expected_dependency_hashes file.dependency_hashes))))) in
    (
      λ h.
          let f = tests.0 h in
          record {
            format = f.0;
            compiler_id = f.1.0;
            builtin_count = f.1.1.0;
            source_hash = f.1.1.1.0;
            manifest = f.1.1.1.1.0;
            dependencies = f.1.1.1.1.1;
          },
      λ f. tests.1 (
        f.format,
        (f.compiler_id, (f.builtin_count, (f.source_hash, (f.manifest, f.dependencies)))),
      ),
    )
