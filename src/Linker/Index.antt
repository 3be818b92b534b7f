-- ===== src/Linker/Index.antt =====
-- eta/core/src/eta/reader/module_linker.cpp, `index_modules`, `index_compiled_module_exports`,
-- `scan_module_body` and the parsing of import clauses. Spans are left out of the forms.
pub mod Indexed
use eta.Prelude.{
  ℕ, Bool, true, false, not, ◌&&◌, if◌then◌else◌, List, [], ◌∷◌, ◌++◌, length, leb, ltb, ◌==◌,
  Option, none, some, Text, text_eq, contains, lookup_text,
}
use eta.Linker.{
  LinkResult, ok, unexpected, stuck, ◌>>=◌, unknown_module, duplicate_module, indexed, ModuleTable,
  Kind, plain, only, except, rename, prefix_, ImportSpec, Pending, insert, emplace,
}
use eta.Linker.Link.{Modules}

-- `parser::SExpr`, as far as the linker looks: a list, a symbol, any other datum, or no datum at all.
mutual
  pub data Sexpr : Type 0 where
    list : Sexprs → Sexpr
    symbol : Text → Sexpr
    atom null : Sexpr

  pub data Sexprs : Type 0 where
    end : Sexprs
    item : Sexpr → Sexprs → Sexprs

abbrev pub keyword_module : Text
keyword_module = b'm' ∷ b'o' ∷ b'd' ∷ b'u' ∷ b'l' ∷ b'e' ∷ []

abbrev pub keyword_define : Text
keyword_define = b'd' ∷ b'e' ∷ b'f' ∷ b'i' ∷ b'n' ∷ b'e' ∷ []

abbrev pub keyword_export : Text
keyword_export = b'e' ∷ b'x' ∷ b'p' ∷ b'o' ∷ b'r' ∷ b't' ∷ []

abbrev pub keyword_import : Text
keyword_import = b'i' ∷ b'm' ∷ b'p' ∷ b'o' ∷ b'r' ∷ b't' ∷ []

abbrev pub keyword_only : Text
keyword_only = b'o' ∷ b'n' ∷ b'l' ∷ b'y' ∷ []

abbrev pub keyword_except : Text
keyword_except = b'e' ∷ b'x' ∷ b'c' ∷ b'e' ∷ b'p' ∷ b't' ∷ []

abbrev pub keyword_rename : Text
keyword_rename = b'r' ∷ b'e' ∷ b'n' ∷ b'a' ∷ b'm' ∷ b'e' ∷ []

abbrev pub keyword_prefix : Text
keyword_prefix = b'p' ∷ b'r' ∷ b'e' ∷ b'f' ∷ b'i' ∷ b'x' ∷ []

-- The symbols of a list: `for (...) if (auto s = as_symbol(...))`.
abbrev pub symbols_of : Sexprs → List Text
symbols_of end = []
symbols_of (item (symbol s) es) = s ∷ symbols_of es
symbols_of (item (list xs) es) = symbols_of es
symbols_of (item atom es) = symbols_of es
symbols_of (item null es) = symbols_of es

abbrev pub rename_pair : Sexpr → List (Text × Text)
rename_pair (list (item (symbol old) (item (symbol new) end))) = (old, new) ∷ []
rename_pair _ = []

abbrev pub rename_pairs : Sexprs → List (Text × Text)
rename_pairs end = []
rename_pairs (item e es) = rename_pair e ++ rename_pairs es

abbrev pub spec_of : Kind → Text → ImportSpec
spec_of kind m = record { kind = kind; module_ = m; ids = []; renames = []; prefix = [] }

-- `(prefix mod pfx)`, of exactly three elements
abbrev pub prefix_clause : Sexprs → LinkResult ImportSpec
prefix_clause (item (symbol m) (item (symbol pfx) end)) =
    ok (record (spec_of prefix_ m) { prefix = pfx })
prefix_clause _ = unexpected unknown_module

-- A clause that names a module before its arguments.
abbrev pub with_module : (Text → Sexprs → ImportSpec) → Sexprs → LinkResult ImportSpec
with_module f (item (symbol m) es) = ok (f m es)
with_module f _ = unexpected unknown_module

-- A list of a single symbol is taken for the name of a module.
abbrev pub lone_symbol : Text → Sexprs → LinkResult ImportSpec
lone_symbol head end = ok (spec_of plain head)
lone_symbol head (item e es) = unexpected unknown_module

unfoldable pub parse_list_clause : Text → Sexprs → LinkResult ImportSpec
parse_list_clause head es =
    if text_eq head keyword_only
    then with_module (λ m ids. record (spec_of only m) { ids = symbols_of ids }) es
    else if text_eq head keyword_except
    then with_module (λ m ids. record (spec_of except m) { ids = symbols_of ids }) es
    else if text_eq head keyword_rename
    then with_module (λ m ps. record (spec_of rename m) { renames = rename_pairs ps }) es
    else if text_eq head keyword_prefix
    then prefix_clause es
    else lone_symbol head es

unfoldable pub parse_import_clause : Sexpr → LinkResult ImportSpec
unfolding parse_list_clause
parse_import_clause (symbol m) = ok (spec_of plain m)
parse_import_clause (list (item (symbol head) es)) = parse_list_clause head es
parse_import_clause _ = unexpected unknown_module

-- The clauses of an import form; an absent datum is passed over.
unfoldable pub parse_import_form : Sexprs → LinkResult (List ImportSpec)
parse_import_form end = ok []
parse_import_form (item null es) = parse_import_form es
parse_import_form (item e es) = do
  spec ← parse_import_clause e
  specs ← parse_import_form es
  ok (spec ∷ specs)

-- `insert` of each
abbrev pub insert_each : List Text → List Text → List Text
insert_each [] xs = xs
insert_each (n ∷ ns) xs = insert_each ns (insert n xs)

-- `if (l->elems.size() >= 3 && as_symbol(l->elems[1])) mt.defined.insert(s->name);`
abbrev pub add_define : Sexprs → ModuleTable → ModuleTable
add_define (item (symbol s) (item e es)) mt = record mt { defined = insert s mt.defined }
add_define _ mt = mt

-- A table and the import clauses that come with it.
abbrev pub Scanned : Type 0
Scanned = ModuleTable × List ImportSpec

-- One form of the body.
unfoldable pub scan_form : Text → Sexprs → Scanned → LinkResult Scanned
unfolding parse_import_form
scan_form kw es (mt, specs) =
    if text_eq kw keyword_define
    then ok (add_define es mt, specs)
    else if text_eq kw keyword_export
    then ok (
      record mt {
        exports = insert_each (symbols_of es) mt.exports;
        export_spans = insert_each (symbols_of es) mt.export_spans;
      },
      specs,
    )
    else if text_eq kw keyword_import
    then (do new ← parse_import_form es; ok (mt, specs ++ new))
    else ok (mt, specs)

-- What is not a list with a symbol at its head is ignored.
unfoldable pub scan_body_form : Sexpr → Scanned → LinkResult Scanned
unfolding scan_form
scan_body_form (list (item (symbol kw) es)) s = scan_form kw es s
scan_body_form _ s = ok s

unfoldable pub scan_module_body : Sexprs → Scanned → LinkResult Scanned
scan_module_body end s = ok s
scan_module_body (item e es) s = scan_body_form e s >>= scan_module_body es

-- `modules_` and `pending_`
pub record ModuleLinker : Type 0 where
  pub modules : Modules
  pub pending : Pending

abbrev pub new_table : Text → ModuleTable
new_table name = record {
  name = name;
  defined = [];
  exports = [];
  visible = [];
  export_spans = [];
  import_origins = [];
  state = indexed;
}

abbrev pub is_taken : Option ModuleTable → Bool
is_taken none = false
is_taken (some t) = true

unfoldable pub ensure_unique_module_name : Text → ModuleLinker → LinkResult (Unit {0})
ensure_unique_module_name name linker =
    if is_taken (lookup_text name linker.modules) then unexpected duplicate_module else ok tt

-- `modules_.emplace(name, std::move(mt))`, and the clauses that were pushed under the name
abbrev pub add_module : Text → ModuleLinker → Scanned → ModuleLinker
add_module name linker (mt, specs) = record {
  modules = (name, mt) ∷ linker.modules;
  pending = (name, specs) ∷ linker.pending;
}

unfoldable pub index_module : Sexpr → Sexprs → ModuleLinker → LinkResult ModuleLinker
unfolding scan_module_body ensure_unique_module_name
index_module (symbol name) body linker = do
  _ ← ensure_unique_module_name name linker
  s ← scan_module_body body (new_table name, [])
  ok (add_module name linker s)
index_module _ body linker = unexpected unknown_module

-- What is not a module form is ignored.
unfoldable pub index_form : Sexpr → ModuleLinker → LinkResult ModuleLinker
unfolding index_module
index_form (list (item (symbol kw) (item name body))) linker =
    if text_eq kw keyword_module then index_module name body linker else ok linker
index_form _ linker = ok linker

unfoldable pub index_forms : List Sexpr → ModuleLinker → LinkResult ModuleLinker
index_forms [] linker = ok linker
index_forms (f ∷ forms) linker = index_form f linker >>= index_forms forms

unfoldable pub index_modules : List Sexpr → LinkResult ModuleLinker
unfolding index_forms
index_modules forms = index_forms forms (record { modules = []; pending = [] })

abbrev pub nonempty_names : List Text → List Text
nonempty_names [] = []
nonempty_names ([] ∷ ns) = nonempty_names ns
nonempty_names ((b ∷ n) ∷ ns) = (b ∷ n) ∷ nonempty_names ns

pub index_compiled_module_exports : Text → List Text → ModuleLinker → LinkResult ModuleLinker
unfolding ensure_unique_module_name
index_compiled_module_exports name exports linker = do
  _ ← ensure_unique_module_name name linker
  ok (record linker {
    modules =
        (name, record (new_table name) { exports = insert_each (nonempty_names exports) [] })
        ∷ linker.modules;
  })
