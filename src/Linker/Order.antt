-- ===== src/Linker/Order.antt =====
-- eta/core/src/eta/reader/module_linker.cpp, `CycleDetector`: the order in which modules are linked.
pub mod Visits
pub mod Ends
pub mod Acyclic
use eta.Prelude.{
  ℕ, zero, suc, if◌then◌else◌, List, [], ◌∷◌, ◌++◌, map, length, Option, none, some, Text, text_eq,
  lookup_text,
}
use eta.Linker.{LinkResult, ok, unexpected, stuck, ◌>>=◌, circular_dependency, Pending, ImportSpec}

pub data State : Type 0 where
  unvisited visiting visited : State

-- `states` maps what it has no entry for to `unvisited`. Of `path` and `topo_order` the last element
-- comes first.
pub record CycleDetector : Type 0 where
  pub states : Text → State
  pub path : List Text
  pub topo_order : List Text

abbrev pub set_state : (Text → State) → Text → State → Text → State
set_state states name v n = if text_eq name n then v else states n

abbrev pub open_ : Text → CycleDetector → CycleDetector
open_ name d = record d { states = set_state d.states name visiting; path = name ∷ d.path }

abbrev pub pop_back : List Text → List Text
pop_back [] = []
pop_back (n ∷ path) = path

abbrev pub close : Text → CycleDetector → CycleDetector
close name d = record {
  states = set_state d.states name visited;
  path = pop_back d.path;
  topo_order = name ∷ d.topo_order;
}

-- The modules that the pending clauses of a module name, and none if there is no entry.
abbrev pub modules_of : Option (List ImportSpec) → List Text
modules_of none = []
modules_of (some specs) = map (λ spec. spec.module_) specs

abbrev pub imported_modules : Pending → Text → List Text
imported_modules pending name = modules_of (lookup_text name pending)

-- Visit each in turn, until an error.
unfoldable pub visit_each :
    (Text → CycleDetector → LinkResult CycleDetector)
    → List Text
    → CycleDetector
    → LinkResult CycleDetector
visit_each v [] d = ok d
visit_each v (name ∷ names) d = v name d >>= visit_each v names

module _ (imports : Text → List Text) where
  -- What is done in each state; `v` is the recursive call.
  unfoldable pub visit_state :
      (Text → CycleDetector → LinkResult CycleDetector)
      → Text
      → CycleDetector
      → State
      → LinkResult CycleDetector
  unfolding visit_each
  visit_state v name d visiting = unexpected circular_dependency
  visit_state v name d visited = ok d
  visit_state v name d unvisited = do
    d' ← visit_each v (imports name) (open_ name d)
    ok (close name d')

  unfoldable pub visit : ℕ → Text → CycleDetector → LinkResult CycleDetector
  visit zero name d = stuck
  visit (suc fuel) name d = visit_state (visit fuel) name d (d.states name)

abbrev pub nothing_visited : CycleDetector
nothing_visited = record { states = λ n. unvisited; path = []; topo_order = [] }

-- Every module that is named, by its own entry or in a clause.
abbrev pub all_imported : Pending → List Text
all_imported [] = []
all_imported ((target, specs) ∷ pending) = map (λ spec. spec.module_) specs ++ all_imported pending

-- The first loop of `link`. Each level of the recursion opens another module.
unfoldable pub find_order : Pending → List Text → LinkResult CycleDetector
unfolding visit
find_order pending names =
    visit_each (visit (imported_modules pending) (suc (length (names ++ all_imported pending))))
      names nothing_visited
