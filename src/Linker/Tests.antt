-- ===== src/Linker/Tests.antt =====
-- Three modules: `a` defines and exports `x`, `b` passes it on, and `c` imports it from both, from `b`
-- under another name.
use eta.Prelude.{◌≡◌, refl, List, [], ◌∷◌, Option, some, none, Text, lookup_text}
use eta.Linker.{
  LinkResult, ok, unexpected, circular_dependency, ◌>>=◌, ImportOrigin, ModuleTable, ImportSpec,
  rename, Kind, emplace, erase, all_exports, ensure_exported, ensure_renames, rename_to, rename_one,
  apply_renames, names_of_kind, import_names,
}
use eta.Linker.Gives.{Gives}
use eta.Linker.Order.{find_order, visit_each, visit_state, visit}
use eta.Linker.Order.Acyclic.{Found, find_order_lem}
use eta.Linker.Imports.Select.{Selected, selects, import_names_lem}
use eta.Linker.Link.{
  link, link_each, link_table, import_all, import_from, commit, commit_name, add_origin,
  replace_table, validate_exports, check_exports,
}
use eta.Linker.Link.Correct.{Result}
use eta.Linker.Index.{
  Sexpr, Sexprs, list, symbol, end, item, index_modules, index_forms, index_form, index_module,
  ensure_unique_module_name, scan_module_body, scan_body_form, scan_form, parse_import_form,
  parse_import_clause, parse_list_clause, keyword_module, keyword_define, keyword_export,
  keyword_import, keyword_rename,
}
use eta.Linker.Index.Indexed.{link-index_modules}

abbrev a : Text
a = b'a' ∷ []

abbrev b : Text
b = b'b' ∷ []

abbrev c : Text
c = b'c' ∷ []

abbrev x : Text
x = b'x' ∷ []

abbrev y : Text
y = b'y' ∷ []

abbrev form : Text → Sexprs → Sexpr
form head es = list (item (symbol head) es)

abbrev one : Sexpr → Sexprs
one e = item e end

abbrev two : Sexpr → Sexpr → Sexprs
two e f = item e (item f end)

abbrev module_a : Sexpr
module_a = form keyword_module (
    item (symbol a) (
      two (form keyword_define (two (symbol x) (symbol y))) (form keyword_export (one (symbol x)))))

abbrev module_b : Sexpr
module_b = form keyword_module (
    item (symbol b)
      (two (form keyword_import (one (symbol a))) (form keyword_export (one (symbol x)))))

abbrev renamed_b : Sexpr
renamed_b = form keyword_rename (two (symbol b) (list (two (symbol x) (symbol y))))

abbrev module_c : Sexpr
module_c =
    form keyword_module (item (symbol c) (one (form keyword_import (two (symbol a) renamed_b))))

abbrev program : List Sexpr
program = module_c ∷ module_b ∷ module_a ∷ []

-- The module that `y` of `c` comes from, after linking.
abbrev origin_in_c : LinkResult (Option Text)
origin_in_c = do
  l ← index_modules program
  ms ← link l.pending l.modules
  ok (from_table (lookup_text c ms))
  where
    from_origin : Option ImportOrigin → Option Text
    from_origin none = none
    from_origin (some o) = some o.from_module

    from_table : Option ModuleTable → Option Text
    from_table none = none
    from_table (some t) = from_origin (lookup_text y t.import_origins)

origin_in_c-is_a : origin_in_c ≡ ok (some a)
unfolding index_modules index_forms index_form index_module ensure_unique_module_name
    scan_module_body scan_body_form scan_form parse_import_form parse_import_clause
    parse_list_clause link find_order visit_each visit_state visit link_each link_table import_all
    import_from import_names names_of_kind all_exports ensure_renames ensure_exported apply_renames
    rename_one rename_to emplace erase commit commit_name add_origin replace_table validate_exports
    check_exports
origin_in_c-is_a = refl

-- `a` and `b` import each other.
abbrev plain_spec : Text → ImportSpec
plain_spec m = record { kind = Kind.plain; module_ = m; ids = []; renames = []; prefix = [] }

abbrev in_circle : List (Text × List ImportSpec)
in_circle = (a, plain_spec b ∷ []) ∷ (b, plain_spec a ∷ []) ∷ []

in_circle-is_found : find_order in_circle (a ∷ b ∷ []) ≡ unexpected circular_dependency
unfolding find_order visit_each visit_state visit
in_circle-is_found = refl

find_order_lem_example : Found in_circle (a ∷ b ∷ []) (find_order in_circle (a ∷ b ∷ []))
find_order_lem_example = find_order_lem in_circle (a ∷ b ∷ [])

abbrev x_as_y : ImportSpec
x_as_y = record { kind = rename; module_ = a; ids = []; renames = (x, y) ∷ []; prefix = [] }

import_names_lem_example :
    Gives (Selected (selects (x ∷ []) x_as_y rename)) (import_names (x ∷ []) x_as_y)
import_names_lem_example = import_names_lem (x ∷ []) x_as_y

link-index_modules_example :
    Gives
      (λ l. Gives (Result l.pending l.modules) (link l.pending l.modules))
      (index_modules program)
link-index_modules_example = link-index_modules program
