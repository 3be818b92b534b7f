-- ===== src/Linker.antt =====
-- eta/core/src/eta/reader/module_linker.h and module_linker.cpp: the tables of the modules and what
-- an import brings in. Spans and the texts of errors are left out, so a map from names to spans is
-- the list of its names. The iteration order of the hash maps is not specified: a map is a list
-- here, and the theorems hold of any.
pub mod Gives
pub mod Index
pub mod Order
pub mod Link
pub mod Imports
mod Tests
use eta.Prelude.{
  Bool, true, false, not, ◌&&◌, ◌||◌, if◌then◌else◌, List, [], ◌∷◌, ◌++◌, map, Option, none, some,
  Text, text_eq, contains, lookup_text,
}

pub data LinkError : Type 0 where
  unknown_module export_of_unknown_name conflicting_import name_not_exported : LinkError
  duplicate_module circular_dependency : LinkError

-- `LinkResult<A>`. `stuck` is no value of the source: a recursion ran out of fuel.
pub data LinkResult {ℓ} (A : Type ℓ) : Type ℓ where
  ok : A → LinkResult A
  unexpected : LinkError → LinkResult A
  stuck : LinkResult A

infixl 5 ◌>>=◌
abbrev pub ◌>>=◌ {ℓ κ} :
    {A : Type ℓ} {B : Type κ} → LinkResult A → (A → LinkResult B) → LinkResult B
ok a >>= f = f a
unexpected e >>= f = unexpected e
stuck >>= f = stuck

pub record ImportOrigin : Type 0 where
  pub from_module : Text
  pub remote_name : Text

pub data ModuleState : Type 0 where
  indexed linked : ModuleState

pub record ModuleTable : Type 0 where
  pub name : Text
  pub defined : List Text
  pub exports : List Text
  pub visible : List Text
  pub export_spans : List Text
  pub import_origins : List (Text × ImportOrigin)
  pub state : ModuleState

pub data Kind : Type 0 where
  plain only except rename prefix_ : Kind

pub record ImportSpec : Type 0 where
  pub kind : Kind
  pub module_ : Text
  pub ids : List Text
  pub renames : List (Text × Text)
  pub prefix : Text

-- Each target with its import clauses, `pending_`.
abbrev pub Pending : Type 0
Pending = List (Text × List ImportSpec)

-- `insert` on a set
abbrev pub insert : Text → List Text → List Text
insert n xs = if contains n xs then xs else xs ++ n ∷ []

module _ {A : Type 0} where
  -- `emplace` keeps what a key has.
  pub emplace : Text → A → List (Text × A) → List (Text × A)
  emplace n a m = elim (lookup_text n m) [ some b ↦ m | none ↦ (n, a) ∷ m ]

  pub erase : Text → List (Text × A) → List (Text × A)
  erase n [] = []
  erase n ((k, a) ∷ m) = let rest = erase n m in if text_eq k n then rest else (k, a) ∷ rest

-- Local names with the names that they have in the source.
abbrev pub Names : Type 0
Names = List (Text × Text)

-- `for (const auto& ex : src.exports) map.emplace(ex, ex)`
pub all_exports : List Text → Names
unfolding emplace
all_exports [] = []
all_exports (ex ∷ exs) = emplace ex ex (all_exports exs)

pub ensure_exported : Text → List Text → LinkResult (Unit {0})
ensure_exported n exports = if contains n exports then ok tt else unexpected name_not_exported

-- `case Only`
pub keep_only : List Text → List Text → LinkResult Names
unfolding ensure_exported emplace
keep_only exports [] = ok []
keep_only exports (id ∷ ids) = do
  _ ← ensure_exported id exports
  filtered ← keep_only exports ids
  ok (emplace id id filtered)

-- `case Except`
pub drop_all : List Text → Names → Names
drop_all [] m = m
drop_all (id ∷ ids) m = drop_all ids (erase id m)

-- The first loop of `case Rename`
pub ensure_renames : List Text → List (Text × Text) → LinkResult (Unit {0})
ensure_renames exports [] = ok tt
ensure_renames exports ((old, new) ∷ renames) = do
  _ ← ensure_exported old exports
  ensure_renames exports renames

pub rename_to : Text → Text → Text → Names → LinkResult Names
rename_to old new remote m =
    let rest = erase old m in
    elim (lookup_text new rest) [
      | some _ ↦ unexpected conflicting_import
      | none ↦ ok (emplace new remote rest)
    ]

-- One round of the second loop
pub rename_one : Text → Text → Names → LinkResult Names
unfolding rename_to
rename_one old new m = elim (lookup_text old m) [
  | none ↦ unexpected name_not_exported
  | some remote ↦ rename_to old new remote m
]

pub apply_renames : List (Text × Text) → Names → LinkResult Names
apply_renames [] m = ok m
apply_renames ((old, new) ∷ renames) m = rename_one old new m >>= apply_renames renames

-- `case Prefix`
pub add_prefix : Text → Names → Names
unfolding emplace
add_prefix prefix [] = []
add_prefix prefix ((local, remote) ∷ m) = emplace (prefix ++ local) remote (add_prefix prefix m)

-- `switch (pi.spec.kind)`
pub names_of_kind : List Text → ImportSpec → Kind → LinkResult Names
unfolding all_exports keep_only drop_all ensure_renames apply_renames add_prefix
names_of_kind exports spec plain = ok (all_exports exports)
names_of_kind exports spec only = keep_only exports spec.ids
names_of_kind exports spec except = ok (drop_all spec.ids (all_exports exports))
names_of_kind exports spec rename = do
  _ ← ensure_renames exports spec.renames
  apply_renames spec.renames (all_exports exports)
names_of_kind exports spec prefix_ = ok (add_prefix spec.prefix (all_exports exports))

-- What an import clause brings in from a module with these exports.
pub import_names : List Text → ImportSpec → LinkResult Names
unfolding names_of_kind
import_names exports spec = names_of_kind exports spec spec.kind
