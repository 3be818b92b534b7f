-- ===== src/Linker/Link/Correct.antt =====
-- What linking promises.
use eta.Prelude.{
  ◌≡◌, refl, true, Bool-cases, inl, inr, List, [], ◌∷◌, All, some, Text, text_eq, text_eq_iff,
  contains, lookup_text,
}
use eta.Linker.{LinkResult, ok, unexpected, stuck, ◌>>=◌, ModuleTable, Pending}
use eta.Linker.Gives.{Gives, Gives->>=, Gives-map, Gives-both}
use eta.Linker.Order.{CycleDetector, imported_modules, find_order}
use eta.Linker.Order.Visits.{Ordered}
use eta.Linker.Order.Acyclic.{Found, find_order_lem}
use eta.Linker.Link.{Modules, link_each, check_exports, validate_exports, link}
use eta.Linker.Link.Origins.{IsLinked, Tables}
use eta.Linker.Link.Imported.{Imported, clauses, Honoured, link_each-Honoured}
use eta.Linker.Link.Steps.{SameModules, names_of, lookup-names_of, Since, link_each-Since}

abbrev pub ExportsVisible : ModuleTable → Type 0
ExportsVisible t = All (λ ex. contains ex t.visible ≡ true) t.export_spans

check_exports-All :
    (exs visible : List Text)
    → Gives (λ _. All (λ ex. contains ex visible ≡ true) exs) (check_exports exs visible)
unfolding check_exports
check_exports-All [] visible = tt
check_exports-All (ex ∷ exs) visible = elim (Bool-cases (contains ex visible)) [
  | inl e ↦
      rw e
        (Gives-map _ _ (check_exports exs visible) (check_exports-All exs visible) λ _ h. (refl, h))
  | inr e ↦ rw e tt
]

abbrev EachVisible : Modules → Type 0
EachVisible ms = (n : Text) (t : ModuleTable) → lookup_text n ms ≡ some t → ExportsVisible t

validate_exports-EachVisible : (ms : Modules) → Gives (λ _. EachVisible ms) (validate_exports ms)
unfolding validate_exports
validate_exports-EachVisible [] = λ n t h. cc
validate_exports-EachVisible ((k, mt) ∷ ms) =
    Gives->>= (λ _. ExportsVisible mt) (λ _. EachVisible ((k, mt) ∷ ms))
      (check_exports mt.export_spans mt.visible) _ (check_exports-All mt.export_spans mt.visible)
      λ _ here. with_first (validate_exports ms) here (validate_exports-EachVisible ms)
  where
    with_first :
        (r : LinkResult (Unit {0}))
        → ExportsVisible mt
        → Gives (λ _. EachVisible ms) r
        → Gives (λ _. EachVisible ((k, mt) ∷ ms)) r
    with_first (ok _) here h = λ n t e. elim (Bool-cases (text_eq k n)) [
      | inl p ↦ let same : mt ≡ t = cc (rw p at e) in rw same at here
      | inr p ↦ h n t (rw p at e)
    ]
    with_first (unexpected x) here h = tt
    with_first stuck here h = h

-- The tables after linking. In some order with each module after all that it imports, every table is
-- linked.
pub record Result (pending : Pending) (modules ms : Modules) : Type 0 where
  pub order : List Text
  pub ordered : Ordered (imported_modules pending) order
  pub names : names_of ms ≡ names_of modules
  pub same : SameModules modules ms
  pub linked_ : (n : Text) (t : ModuleTable) → lookup_text n ms ≡ some t → IsLinked ms order t
  pub imports :
      (n : Text) (t : ModuleTable)
      → lookup_text n ms ≡ some t
      → All (Imported ms t) (clauses pending n)
  pub exports : (n : Text) (t : ModuleTable) → lookup_text n ms ≡ some t → ExportsVisible t

module _ (pending : Pending) (modules : Modules) (indexed : Tables [] modules) where
  validated :
      (order : List Text)
      → Ordered (imported_modules pending) order
      → All (λ n. contains n order ≡ true) (names_of modules)
      → (ms : Modules) → Since pending modules indexed order ms × Honoured pending order ms
      → Gives (Result pending modules) (validate_exports ms >>= λ _. ok ms)
  validated order o all ms ((tables, names, same), honoured) =
      Gives->>= (λ _. EachVisible ms) (Result pending modules) (validate_exports ms) _
        (validate_exports-EachVisible ms)
        λ _ visible. record {
          order = order;
          ordered = o;
          names = names;
          same = same;
          linked_ = λ n t e. tables.after n t e (listed n t e);
          imports = λ n t e. honoured n t (listed n t e) e;
          exports = visible;
        }
    where
      each_of :
          (ns : List Text)
          → All (λ n. contains n order ≡ true) ns
          → (n : Text) → contains n ns ≡ true
          → contains n order ≡ true
      each_of [] a n h = cc
      each_of (m ∷ ns) a n h = elim (Bool-cases (text_eq m n)) [
        | inl p ↦ rw ((text_eq_iff m n).0 p) at (a.0)
        | inr p ↦ each_of ns a.1 n (rw p at h)
      ]

      listed : (n : Text) (t : ModuleTable) → lookup_text n ms ≡ some t → contains n order ≡ true
      listed n t e = each_of (names_of modules) all n (rw names at (lookup-names_of n t ms e))

  -- Linking tables that were indexed, each under its own name, always ends: with an error, or with
  -- every module linked after all that it imports. The definitions and exports of the modules
  -- stay. What is visible in a module is what it defines or imports, and nothing is both; every
  -- name that one of its clauses selects is there, with its origin; the origin of an imported name
  -- is a linked module that exports the name and does not import it itself, through any chain of
  -- re-exports; and every name that a module exports is visible in it.
  pub link_lem : Gives (Result pending modules) (link pending modules)
  unfolding link
  link_lem =
      in_order (find_order pending (names_of modules)) (find_order_lem pending (names_of modules))
    where
      in_order :
          (r : LinkResult CycleDetector)
          → Found pending (names_of modules) r
          → Gives (Result pending modules) (
              r >>= λ d.
              link_each pending modules d.topo_order >>= λ ms. validate_exports ms >>= λ _. ok ms)
      in_order (ok d) (o, all, _) =
          Gives->>= _ (Result pending modules) (link_each pending modules d.topo_order) _
            (Gives-both (Since pending modules indexed d.topo_order) (Honoured pending d.topo_order)
              (link_each pending modules d.topo_order)
              (link_each-Since pending modules indexed d.topo_order o)
              (link_each-Honoured pending modules d.topo_order o))
            (validated d.topo_order o all)
      in_order (unexpected e) w = tt
      in_order stuck w = w
