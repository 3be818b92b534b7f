-- ===== src/Serializer/Artifact/Deserialize/RoundTrip.antt =====
-- What `serialize` writes, `deserialize` reads.
use eta.Prelude.{
  ℕ, suc, ◌^◌, ◌<◌, ◌≤◌, ◌≡◌, ◌∙◌, ◌⊎◌, Bool, true, List, ◌++◌, length, length-append, All, Option,
  some, arith,
}
use mathlib.Core.List.{append_assoc}
use eta.Serializer.Stream.{
  Text, ok, ◌>>=◌, write_u16, write_u32, write_u64, write_str, write_each, read_str, read_times,
}
use eta.Serializer.Stream.RoundTrip.{read_u32-Trips, read_str-Trips, read_times-Trips}
use eta.Serializer.Memory.{Memory, IsLawful}
use eta.Serializer.Constants.{read_constant}
use eta.Serializer.Artifact.{
  ModuleEntry, PackageMetadata, DependencyHashEntry, BytecodeFunction, EtacFile,
}
use eta.Serializer.Artifact.Write.{
  magic, current_version, header_flags, package_bytes, dependency_bytes, write_list, write_module,
  serialize,
}
use eta.Serializer.Artifact.Read.{read_module}
use eta.Serializer.Artifact.Verify.{verify_all}
use eta.Serializer.Artifact.Deserialize.{read_file, read_function, verified, deserialize}
use eta.Serializer.Artifact.Deserialize.Limits.{
  EachOf, IsShort, InModule, InPackage, InDependencies,
}
use eta.Serializer.Artifact.Deserialize.Parts.{read_list-Trips, read_module-Trips, u32_small}
use eta.Serializer.Artifact.Deserialize.Head.{header_flags_lem, read_header_lem}
use eta.Serializer.Artifact.Deserialize.Table.{
  Table, functions, table_bytes, table_cost, InEntry, ShowsTable, Reloaded, TableBack, write_table,
  read_table, verify_all-Reloaded, deep_enough,
}

-- The arguments of `serialize` beside the function table.
pub record Contents : Type 0 where
  pub modules : List ModuleEntry
  pub source_hash : ℕ
  pub imports : List Text
  pub num_builtins : ℕ
  pub package_metadata : Option PackageMetadata
  pub dependency_hashes : List DependencyHashEntry
  pub compiler_id : List ℕ

pub record InContents (c : Contents) : Type 0 where
  pub modules : EachOf InModule c.modules
  pub source_hash : c.source_hash < 2 ^ 64
  pub imports : EachOf IsShort c.imports
  pub num_builtins : c.num_builtins < 2 ^ 32
  pub package_metadata : InPackage c.package_metadata
  pub dependency_hashes : InDependencies c.dependency_hashes
  pub compiler_id : length c.compiler_id ≡ 16

-- The file that comes back, its functions being `registry`.
abbrev pub file_of : Bool → Contents → List BytecodeFunction → EtacFile
file_of debug c registry = record {
  format_version = current_version;
  flags = header_flags debug c.package_metadata c.dependency_hashes;
  source_hash = c.source_hash;
  builtin_count = c.num_builtins;
  has_compiler_id = true;
  compiler_id = c.compiler_id;
  package_metadata = c.package_metadata;
  dependency_hashes = c.dependency_hashes;
  imports = c.imports;
  modules = c.modules;
  registry = registry;
}

module _ (debug : Bool) (c : Contents) (n : ℕ) where
  abbrev preamble : List ℕ
  preamble =
      magic
      ++ (write_u16 current_version
          ++ (write_u16 (header_flags debug c.package_metadata c.dependency_hashes)
              ++ (write_u64 c.source_hash
                  ++ (write_u32 c.num_builtins
                      ++ (c.compiler_id
                          ++ (package_bytes c.package_metadata
                              ++ (dependency_bytes c.dependency_hashes
                                  ++ (write_u32 (length c.modules)
                                      ++ (write_u32 n
                                          ++ (write_list write_str c.imports
                                              ++ write_each write_module c.modules))))))))))

module _ (memory : Memory) (lawful : IsLawful memory) (debug : Bool) (c : Contents)
    (table : Table) where
  open memory use {State}
  open lawful use {room}

  serialize_lem :
      (fuel : ℕ) (m : State)
      → InContents c
      → length (functions table) < 2 ^ 32
      → All (InEntry debug fuel) table
      → ShowsTable memory m table
      → serialize memory fuel m debug c.modules
          (functions table)
          c.source_hash
          c.imports
          c.num_builtins
          c.package_metadata
          c.dependency_hashes
          c.compiler_id
        ≡ some (preamble debug c (length (functions table)) ++ table_bytes debug table)
  unfolding serialize
  serialize_lem fuel m h n ht s = rw (
    write_table memory fuel m debug table ht s,
    u32_small (length c.modules) h.modules.0,
    u32_small (length (functions table)) n,
  )

  read_file_lem :
      (fuel expected : ℕ) (m m' : State) (rest : List ℕ) (funcs' : List BytecodeFunction)
      → InContents c
      → length (functions table) < 2 ^ 32
      → (expected ≡ 0) ⊎ (expected ≡ c.num_builtins)
      → read_times
          (read_function (read_constant memory fuel) debug)
          (length (functions table))
          m
          (table_bytes debug table ++ rest)
        ≡ ok (funcs', m', rest)
      → verify_all funcs' ≡ ok tt
      → read_file
          (read_constant memory fuel)
          expected
          m
          ((preamble debug c (length (functions table)) ++ table_bytes debug table) ++ rest)
        ≡ ok (file_of debug c funcs', m', rest)
  unfolding read_file
  read_file_lem fuel expected m m' rest funcs' h n he e v =
      let body =
        write_u32 (length c.modules)
        ++ (write_u32 (length (functions table))
            ++ (write_list write_str c.imports
                ++ (write_each write_module c.modules ++ (table_bytes debug table ++ rest)))) in
      let header =
        read_header_lem debug c.package_metadata c.dependency_hashes c.source_hash c.num_builtins
          expected c.compiler_id m body h.source_hash h.num_builtins h.compiler_id
          h.package_metadata h.dependency_hashes he in
      simp append_assoc (
        rw (
          simp append_assoc at header,
          ◌>>=◌,
          read_u32-Trips (length c.modules) h.modules.0 m _,
          read_u32-Trips (length (functions table)) n m _,
          read_list-Trips read_str write_str IsShort read_str-Trips c.imports h.imports m _,
          read_times-Trips (read_module current_version) write_module InModule read_module-Trips
              c.modules h.modules.1 m _,
          (header_flags_lem debug c.package_metadata c.dependency_hashes).0,
          e,
          v,
          verified,
        ))

  module _ (fuel : ℕ) (m : State) (h : InContents c) (n : length (functions table) < 2 ^ 32)
      (entries : All (InEntry debug fuel) table) (shown : ShowsTable memory m table)
      (valid : verify_all (functions table) ≡ ok tt) (m2 : State) (r : table_cost table ≤ room m2)
      (expected : ℕ) (he : (expected ≡ 0) ⊎ (expected ≡ c.num_builtins)) (rest : List ℕ) where
    bytes : List ℕ
    bytes = preamble debug c (length (functions table)) ++ table_bytes debug table

    loaded :
        TableBack memory lawful (suc (length (bytes ++ rest))) debug table m2 rest
        → (funcs' : List BytecodeFunction) × (m' : State) × (deserialize memory expected m2
              (bytes ++ rest)
            ≡ ok (file_of debug c funcs', m', rest))
          × Reloaded memory m' debug table funcs'
    unfolding deserialize bytes
    loaded (funcs', m', e, back, grows) = (
      funcs',
      m',
      read_file_lem (suc (length (bytes ++ rest))) expected m2 m' rest funcs' h n he e
          (verify_all-Reloaded memory m m' debug table funcs' shown back ∙ valid),
      back,
    )

    -- An artifact whose fields are in range, whose constants are data, and whose code passes the
    -- check is written, and read again in a machine with room for it, whatever that machine has
    -- stored and whatever follows in the stream: every part of the header and of the module table
    -- comes back as it was, and each function too, its constants as words for the same data and its
    -- spans without their offsets.
    pub deserialize-serialize :
        (bytes' : List ℕ) × (funcs' : List BytecodeFunction) × (m' : State) × (serialize memory fuel
            m debug c.modules
            (functions table)
            c.source_hash
            c.imports
            c.num_builtins
            c.package_metadata
            c.dependency_hashes
            c.compiler_id
          ≡ some bytes')
        × (deserialize memory expected m2 (bytes' ++ rest) ≡ ok (file_of debug c funcs', m', rest))
        × Reloaded memory m' debug table funcs'
    unfolding bytes
    deserialize-serialize =
        let k = suc (length (bytes ++ rest)) in
        let deep = deep_enough debug fuel table k entries (
          omega (
            arith,
            length-append {0} (bytes) rest,
            length-append {0} (preamble debug c (length (functions table)))
                (table_bytes debug table),
          )) in
        let (funcs', m', e, back) =
          loaded (read_table memory lawful k debug table m2 rest deep r) in
        (bytes, funcs', m', serialize_lem fuel m h n entries shown, e, back)
