-- ===== src/Ir/Specialise.antt =====
-- eta/core/src/eta/semantics/passes/primitive_specialisation.h.
pub mod Runs
use eta.Prelude.{
  ℕ, suc, ◌==◌, ◌≡◌, refl, sym, ap, ◌∙◌, Bool, true, false, not, ◌&&◌, ◌||◌, if◌then◌else◌, List,
  [], ◌∷◌, ◌++◌, map, Bool-cases, inl, inr, Option, none, some, Option-cases, arith,
}
use eta.Ir.{Address, Text, PrimitiveKind, Literal, Node, Nodes, NodeData, Post, Span, visit}
use eta.Ir.PrimitiveKind.{car, cdr, add, sub, mul, div, eq, cons}
use eta.Ir.Bindings.{
  BindingInfo, ModuleSemantics, is_global, eq_text, plus, minus, times, slash, equals, car_name,
  cdr_name, cons_name,
}
use eta.Ir.Callee.{callee_global}
use eta.Ir.Node.{node}
use eta.Ir.Nodes.{none_left, more}
use eta.Ir.NodeData.{
  variable, constant, quote_, if_, begin, set_, lambda, call, primitive_call, dynamic_wind, values,
  call_with_values, call_cc, apply, raise, guard, make_logic_var, unify, deref_logic_var,
  trail_mark, unwind_trail, copy_term,
}
use eta.Ir.Meaning.{Meaning, Den, Keeps, denote, denote_all, denote_data, denote-visit, push}

pub record SlotEntry : Type 0 where
  pub slot : ℕ
  pub kind : PrimitiveKind

-- `std::unordered_map<uint32_t, core::PrimitiveKind>`
abbrev pub SlotMap : Type 0
SlotMap = List SlotEntry

pub find : ℕ → SlotMap → Option PrimitiveKind
find k [] = none
find k (e ∷ es) = if e.slot == k then some e.kind else find k es

-- `emplace` leaves an entry that is there alone.
pub emplace : ℕ → PrimitiveKind → SlotMap → SlotMap
unfolding find
emplace k kind m = elim (find k m) [
  | none ↦ m ++ record { slot = k; kind = kind } ∷ []
  | some old ↦ m
]

unfoldable pub unary_primitive_from_name : Text → Option PrimitiveKind
unary_primitive_from_name name =
    if eq_text name car_name then some car else if eq_text name cdr_name then some cdr else none

unfoldable pub binary_primitive_from_name : Text → Option PrimitiveKind
binary_primitive_from_name name =
    if eq_text name plus
    then some add
    else if eq_text name minus
    then some sub
    else if eq_text name times
    then some mul
    else if eq_text name slash
    then some div
    else if eq_text name equals
    then some eq
    else if eq_text name cons_name
    then some cons
    else none

pub record Specialiser : Type 0 where
  pub unary_primitive_slots : SlotMap
  pub binary_primitive_slots : SlotMap

-- One turn of the loop of `index_builtin_primitive_slots`.
pub index_binding : BindingInfo → Specialiser → Specialiser
unfolding emplace unary_primitive_from_name binary_primitive_from_name
index_binding b x =
    if not (is_global b)
    then x
    else if b.mutable_flag
    then x
    else elim (unary_primitive_from_name b.name) [
      | some unary ↦ record x {
        unary_primitive_slots = emplace b.slot unary x.unary_primitive_slots;
      }
      | none ↦ elim (binary_primitive_from_name b.name) [
        | some binary ↦ record x {
          binary_primitive_slots = emplace b.slot binary x.binary_primitive_slots;
        }
        | none ↦ x
      ]
    ]

pub index_builtin_primitive_slots : List BindingInfo → Specialiser → Specialiser
unfolding index_binding
index_builtin_primitive_slots [] x = x
index_builtin_primitive_slots (b ∷ bs) x = index_builtin_primitive_slots bs (index_binding b x)

-- `Specialiser{mod}`
pub specialiser : List BindingInfo → Specialiser
unfolding index_builtin_primitive_slots
specialiser bs =
    index_builtin_primitive_slots bs
      (record { unary_primitive_slots = []; binary_primitive_slots = [] })

pub primitive_map_for_arity : {D : Type 0} → Specialiser → Nodes D → Option SlotMap
primitive_map_for_arity x none_left = none
primitive_map_for_arity x (more a none_left) = some x.unary_primitive_slots
primitive_map_for_arity x (more a (more b none_left)) = some x.binary_primitive_slots
primitive_map_for_arity x (more a (more b (more c ns))) = none

-- What `post_visit` makes of a call of the global `id`.
pub lower_call : {D : Type 0} → Specialiser → Node D → ℕ → Nodes D → Span → Node D
unfolding primitive_map_for_arity find
lower_call x n id args s = elim (primitive_map_for_arity x args) [
  | none ↦ n
  | some slot_map ↦ elim (find id slot_map) [
    | none ↦ n
    | some kind ↦ node (primitive_call kind args) s false
  ]
]

pub post_visit : {D : Type 0} → Specialiser → Post D
unfolding lower_call
post_visit x (node (call callee args) s t) ctx = elim (callee_global callee) [
  | none ↦ node (call callee args) s t
  | some id ↦ lower_call x (node (call callee args) s t) id args s
]
post_visit x n ctx = n

unfoldable pub run : {D : Type 0} → ModuleSemantics D → ModuleSemantics D
unfolding specialiser
run m = record m {
  toplevel_inits = map (λ n. visit (post_visit (specialiser m.bindings)) n false) m.toplevel_inits;
}
