-- ===== src/Linker/Link.antt =====
-- eta/core/src/eta/reader/module_linker.cpp, `link`. A clause that names the module it stands in is a
-- cycle, so the source of an import is never the table that is being filled. On an error the tables
-- are not given back.
pub mod Commit
pub mod Origins
pub mod Steps
pub mod Imported
pub mod Correct
use eta.Prelude.{
  Bool, true, false, ◌&&◌, if◌then◌else◌, List, [], ◌∷◌, ◌++◌, map, Option, none, some, Text,
  text_eq, contains, lookup_text,
}
use eta.Linker.{
  LinkResult, ok, unexpected, stuck, ◌>>=◌, unknown_module, export_of_unknown_name,
  conflicting_import, ImportOrigin, linked, ModuleTable, ImportSpec, Pending, insert, emplace,
  Names, import_names,
}
use eta.Linker.Order.{find_order}

abbrev pub Modules : Type 0
Modules = List (Text × ModuleTable)

abbrev pub or_origin : Option ImportOrigin → ImportOrigin → ImportOrigin
or_origin none origin = origin
or_origin (some transitive) origin = transitive

-- `canonical_origin`
abbrev pub origin_of : ModuleTable → Text → ImportOrigin
origin_of src remote =
    or_origin (lookup_text remote src.import_origins)
      (record { from_module = src.name; remote_name = remote })

abbrev pub same_origin : ImportOrigin → ImportOrigin → Bool
same_origin a b = text_eq a.from_module b.from_module && text_eq a.remote_name b.remote_name

unfoldable pub add_origin :
    ModuleTable → Text → ImportOrigin → Option ImportOrigin → LinkResult ModuleTable
unfolding emplace
add_origin tgt local origin none = ok (record tgt {
  visible = insert local tgt.visible;
  import_origins = emplace local origin tgt.import_origins;
})
add_origin tgt local origin (some prev) =
    if same_origin prev origin then ok tgt else unexpected conflicting_import

unfoldable pub commit_name : ModuleTable → ModuleTable → Text → Text → LinkResult ModuleTable
unfolding add_origin
commit_name src tgt local remote =
    if contains local tgt.defined
    then unexpected conflicting_import
    else add_origin tgt local (origin_of src remote) (lookup_text local tgt.import_origins)

unfoldable pub commit : ModuleTable → Names → ModuleTable → LinkResult ModuleTable
commit src [] tgt = ok tgt
commit src ((local, remote) ∷ m) tgt = commit_name src tgt local remote >>= commit src m

unfoldable pub import_from : ImportSpec → ModuleTable → Option ModuleTable → LinkResult ModuleTable
import_from spec tgt none = unexpected unknown_module
import_from spec tgt (some src) = import_names src.exports spec >>= λ m. commit src m tgt

unfoldable pub import_all : Modules → List ImportSpec → ModuleTable → LinkResult ModuleTable
import_all modules [] tgt = ok tgt
import_all modules (spec ∷ specs) tgt =
    import_from spec tgt (lookup_text spec.module_ modules) >>= import_all modules specs

abbrev pub insert_all : List Text → List Text → List Text
insert_all [] visible = visible
insert_all (d ∷ ds) visible = insert_all ds (insert d visible)

abbrev pub finish : ModuleTable → ModuleTable
finish tgt = record tgt { visible = insert_all tgt.defined tgt.visible; state = linked }

abbrev pub specs_of : Option (List ImportSpec) → List ImportSpec
specs_of none = []
specs_of (some specs) = specs

-- The table of a name, in its place.
unfoldable pub replace_table : Text → ModuleTable → Modules → Modules
replace_table name t [] = []
replace_table name t ((k, u) ∷ ms) =
    let rest = replace_table name t ms in if text_eq k name then (k, t) ∷ ms else (k, u) ∷ rest

unfoldable pub link_table : Pending → Modules → Text → Option ModuleTable → LinkResult Modules
link_table pending modules name none = ok modules
link_table pending modules name (some tgt) = do
  t ← import_all modules (specs_of (lookup_text name pending)) tgt
  ok (replace_table name (finish t) modules)

-- The loop over `topo_order`, whose last name is the first of the list.
unfoldable pub link_each : Pending → Modules → List Text → LinkResult Modules
link_each pending modules [] = ok modules
link_each pending modules (name ∷ earlier) = do
  ms ← link_each pending modules earlier
  link_table pending ms name (lookup_text name ms)

unfoldable pub check_exports : List Text → List Text → LinkResult (Unit {0})
check_exports [] visible = ok tt
check_exports (ex ∷ exs) visible =
    if contains ex visible then check_exports exs visible else unexpected export_of_unknown_name

unfoldable pub validate_exports : Modules → LinkResult (Unit {0})
validate_exports [] = ok tt
validate_exports ((name, mt) ∷ ms) =
    check_exports mt.export_spans mt.visible >>= λ _. validate_exports ms

-- The tables afterwards.
unfoldable pub link : Pending → Modules → LinkResult Modules
link pending modules = do
  d ← find_order pending (map (λ m. m.0) modules)
  ms ← link_each pending modules d.topo_order
  _ ← validate_exports ms
  ok ms
