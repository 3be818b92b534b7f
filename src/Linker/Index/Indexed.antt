-- ===== src/Linker/Index/Indexed.antt =====
-- Indexing makes a blank table for each module, under the name of the module.
use eta.Prelude.{
  ◌≡◌, refl, sym, ap, ◌∙◌, Bool, true, false, Bool-cases, inl, inr, if◌then◌else◌, List, [], ◌∷◌,
  Text, text_eq, text_eq_iff, lookup_text,
}
use eta.Linker.{LinkResult, ModuleTable, ImportSpec}
use eta.Linker.Gives.{Gives, Gives->>=, Gives-map}
use eta.Linker.Link.{Modules, link}
use eta.Linker.Link.Origins.{Tables, IsIndexed}
use eta.Linker.Link.Correct.{Result, link_lem}
use eta.Linker.Index.{
  Sexpr, Sexprs, list, symbol, null, end, item, prefix_clause, with_module, lone_symbol,
  parse_list_clause, parse_import_clause, parse_import_form, add_define, Scanned, scan_form,
  scan_body_form, scan_module_body, ModuleLinker, new_table, is_taken, ensure_unique_module_name,
  index_module, index_form, index_forms, index_modules, index_compiled_module_exports,
  keyword_module, keyword_define, keyword_export, keyword_import, keyword_only, keyword_except,
  keyword_rename, keyword_prefix,
}

-- The result is there, or an error.
abbrev Ends : {A : Type 0} → LinkResult A → Type 0
Ends r = Gives (λ _. Unit) r

if-Gives :
    {A : Type 0} (P : A → Type 0) (b : Bool) (r s : LinkResult A)
    → Gives P r
    → Gives P s
    → Gives P (if b then r else s)
if-Gives P true r s h k = h
if-Gives P false r s h k = k

with_module-Ends : (f : Text → Sexprs → ImportSpec) (es : Sexprs) → Ends (with_module f es)
with_module-Ends f (item (symbol m) es) = tt
with_module-Ends f _ = tt

prefix_clause-Ends : (es : Sexprs) → Ends (prefix_clause es)
prefix_clause-Ends (item (symbol m) (item (symbol pfx) end)) = tt
prefix_clause-Ends _ = tt

lone_symbol-Ends : (head : Text) (es : Sexprs) → Ends (lone_symbol head es)
lone_symbol-Ends head end = tt
lone_symbol-Ends head (item e es) = tt

parse_list_clause-Ends : (head : Text) (es : Sexprs) → Ends (parse_list_clause head es)
unfolding parse_list_clause
parse_list_clause-Ends head es =
    if-Gives (λ _. Unit) (text_eq head keyword_only) _ _ (with_module-Ends _ es)
      (if-Gives (λ _. Unit) (text_eq head keyword_except) _ _ (with_module-Ends _ es)
        (if-Gives (λ _. Unit) (text_eq head keyword_rename) _ _ (with_module-Ends _ es)
          (if-Gives (λ _. Unit) (text_eq head keyword_prefix) _ _ (prefix_clause-Ends es)
            (lone_symbol-Ends head es))))

parse_import_clause-Ends : (e : Sexpr) → Ends (parse_import_clause e)
unfolding parse_import_clause
parse_import_clause-Ends (symbol m) = tt
parse_import_clause-Ends (list (item (symbol head) es)) = parse_list_clause-Ends head es
parse_import_clause-Ends _ = tt

parse_import_form-Ends : (es : Sexprs) → Ends (parse_import_form es)
unfolding parse_import_form
parse_import_form-Ends end = tt
parse_import_form-Ends (item null es) = parse_import_form-Ends es
parse_import_form-Ends (item e es) =
    Gives->>= (λ _. Unit) (λ _. Unit) (parse_import_clause e) _ (parse_import_clause-Ends e)
      λ _ _.
        Gives->>= (λ _. Unit) (λ _. Unit) (parse_import_form es) _ (parse_import_form-Ends es)
          λ _ _. tt

-- A table that only gathers definitions and exports.
record Blank (name : Text) (t : ModuleTable) : Type 0 where
  named : t.name ≡ name
  visible : t.visible ≡ []
  import_origins : t.import_origins ≡ []

abbrev BlankScan : Text → Scanned → Type 0
BlankScan name s = Blank name s.0

add_define-Blank :
    (name : Text) (es : Sexprs) (t : ModuleTable) → Blank name t → Blank name (add_define es t)
add_define-Blank name (item (symbol s) (item e es)) t b = record {
  named = b.named;
  visible = b.visible;
  import_origins = b.import_origins;
}
add_define-Blank name _ t b = b

module _ (name : Text) where
  scan_form-Blank :
      (kw : Text) (es : Sexprs) (s : Scanned)
      → BlankScan name s
      → Gives (BlankScan name) (scan_form kw es s)
  unfolding scan_form
  scan_form-Blank kw es (t, specs) b =
      if-Gives (BlankScan name) (text_eq kw keyword_define) _ _ (add_define-Blank name es t b) (
        if-Gives (BlankScan name) (text_eq kw keyword_export) _ _
          (record { named = b.named; visible = b.visible; import_origins = b.import_origins })
          (if-Gives (BlankScan name) (text_eq kw keyword_import) _ _
            (Gives->>= (λ _. Unit) (BlankScan name) (parse_import_form es) _
              (parse_import_form-Ends es) λ _ _. b)
            b))

  scan_module_body-Blank :
      (es : Sexprs) (s : Scanned)
      → BlankScan name s
      → Gives (BlankScan name) (scan_module_body es s)
  unfolding scan_module_body scan_body_form
  scan_module_body-Blank end s b = b
  scan_module_body-Blank (item (list (item (symbol kw) fs)) es) s b =
      Gives->>= (BlankScan name) (BlankScan name) (scan_form kw fs s) (scan_module_body es)
        (scan_form-Blank kw fs s b) (scan_module_body-Blank es)
  scan_module_body-Blank (item _ es) s b = scan_module_body-Blank es s b

Tables-add :
    (name : Text) (t : ModuleTable) (ms : Modules)
    → Blank name t
    → Tables [] ms
    → Tables [] ((name, t) ∷ ms)
Tables-add name t ms b tables = record {
  named = λ n u e. elim (Bool-cases (text_eq name n)) [
    | inl p ↦
        let same : t ≡ u = cc (rw p at e) in
        ap (λ x. x.name) (sym same) ∙ (b.named ∙ (text_eq_iff name n).0 p)
    | inr p ↦ tables.named n u (rw p at e)
  ];
  after = λ n u e k. cc;
  before = λ n u e k. elim (Bool-cases (text_eq name n)) [
    | inl p ↦
        let same : t ≡ u = cc (rw p at e) in
        let blank : IsIndexed t = record {
          visible = b.visible;
          import_origins = b.import_origins;
        } in
        rw same at blank
    | inr p ↦ tables.before n u (rw p at e) k
  ];
}

abbrev pub AllIndexed : ModuleLinker → Type 0
AllIndexed linker = Tables [] linker.modules

ensure_unique-Ends :
    (name : Text) (linker : ModuleLinker) → Ends (ensure_unique_module_name name linker)
unfolding ensure_unique_module_name
ensure_unique-Ends name linker =
    if-Gives (λ _. Unit) (is_taken (lookup_text name linker.modules)) _ _ tt tt

new_table-Blank : (name : Text) → Blank name (new_table name)
new_table-Blank name = record { named = refl; visible = refl; import_origins = refl }

index_module-AllIndexed :
    (name : Sexpr) (body : Sexprs) (linker : ModuleLinker)
    → AllIndexed linker
    → Gives AllIndexed (index_module name body linker)
unfolding index_module
index_module-AllIndexed (symbol name) body linker h =
    Gives->>= (λ _. Unit) AllIndexed (ensure_unique_module_name name linker) _
      (ensure_unique-Ends name linker)
      λ _ _.
        Gives->>= (BlankScan name) AllIndexed (scan_module_body body (new_table name, [])) _
          (scan_module_body-Blank name body (new_table name, []) (new_table-Blank name))
          λ s b. Tables-add name (s.0) linker.modules b h
index_module-AllIndexed _ body linker h = tt

index_form-AllIndexed :
    (f : Sexpr) (linker : ModuleLinker) → AllIndexed linker → Gives AllIndexed (index_form f linker)
unfolding index_form
index_form-AllIndexed (list (item (symbol kw) (item name body))) linker h =
    if-Gives AllIndexed (text_eq kw keyword_module) _ _ (index_module-AllIndexed name body linker h)
      h
index_form-AllIndexed _ linker h = h

index_forms-AllIndexed :
    (forms : List Sexpr) (linker : ModuleLinker)
    → AllIndexed linker
    → Gives AllIndexed (index_forms forms linker)
unfolding index_forms
index_forms-AllIndexed [] linker h = h
index_forms-AllIndexed (f ∷ forms) linker h =
    Gives->>= AllIndexed AllIndexed (index_form f linker) (index_forms forms)
      (index_form-AllIndexed f linker h) (index_forms-AllIndexed forms)

pub index_modules-AllIndexed : (forms : List Sexpr) → Gives AllIndexed (index_modules forms)
unfolding index_modules
index_modules-AllIndexed forms =
    index_forms-AllIndexed forms (record { modules = []; pending = [] })
      (record { named = λ n t e. cc; after = λ n t e k. cc; before = λ n t e k. cc })

-- A compiled module is indexed under its name as well.
pub index_compiled-AllIndexed :
    (name : Text) (exports : List Text) (linker : ModuleLinker)
    → AllIndexed linker
    → Gives AllIndexed (index_compiled_module_exports name exports linker)
unfolding index_compiled_module_exports
index_compiled-AllIndexed name exports linker h =
    Gives->>= (λ _. Unit) AllIndexed (ensure_unique_module_name name linker) _
      (ensure_unique-Ends name linker)
      λ _ _.
        Tables-add name _ linker.modules
          (record { named = refl; visible = refl; import_origins = refl }) h

-- Indexing any forms and then linking what they declare always ends: with an error, or with every
-- module linked after all that it imports. Their definitions and exports stay. What is visible in
-- a module is what it defines or imports, and nothing is both; every name that one of its clauses
-- selects is there, with its origin; the origin of an imported name is a linked module that
-- exports the name and does not import it itself, through any chain of re-exports; and every name
-- with an entry among the export spans of a module is visible in it.
pub link-index_modules :
    (forms : List Sexpr)
    → Gives
        (λ l. Gives (Result l.pending l.modules) (link l.pending l.modules))
        (index_modules forms)
link-index_modules forms =
    Gives-map AllIndexed _ (index_modules forms) (index_modules-AllIndexed forms)
      λ l h. link_lem l.pending l.modules h
