-- ===== src/Ir/Fold.antt =====
-- eta/core/src/eta/semantics/passes/constant_folding.h. The arithmetic of doubles is the machine's.
-- `int64_t` results are exact here: a result out of range is undefined in the source.
pub mod Agrees
use eta.Prelude.{
  ℕ, ◌==◌, Bool, true, false, not, ◌&&◌, if◌then◌else◌, List, [], ◌∷◌, map, Option, none, some, ℤ,
  pos, ◌+ℤ◌, ◌-ℤ◌,
}
use eta.Numeric.{Doubles, ◌*ℤ◌, quot, divides, is_zero}
use eta.Ir.{Literal, Node, Nodes, NodeData, Post, Span, visit, data_of}
use eta.Ir.Literal.{int64, double}
use eta.Ir.Bindings.{BindingInfo, ModuleSemantics, is_global, eq_text, plus, minus, times, slash}
use eta.Ir.Callee.{callee_global}
use eta.Ir.Node.{node}
use eta.Ir.Nodes.{none_left, more}
use eta.Ir.NodeData.{call, constant}
use eta.Ir.{Text}

pub record NumVal : Type 0 where
  pub is_int : Bool
  pub i : ℤ
  pub d : ℕ

unfoldable pub to_numeric : Doubles → Literal → Option NumVal
to_numeric x (int64 n) = some (record { is_int = true; i = n; d = x.of_int64 n })
to_numeric x (double n) = some (record { is_int = false; i = pos 0; d = n })
to_numeric x _ = none

unfoldable pub make_result : NumVal → NumVal → ℤ → ℕ → Literal
make_result a b i_result d_result = if a.is_int && b.is_int then int64 i_result else double d_result

unfoldable pub fold_add : Doubles → NumVal → NumVal → Option Literal
unfolding make_result
fold_add x a b = some (make_result a b (a.i +ℤ b.i) (x.add_double a.d b.d))

pub fold_sub : Doubles → NumVal → NumVal → Option Literal
unfolding make_result
fold_sub x a b = some (make_result a b (a.i -ℤ b.i) (x.sub_double a.d b.d))

pub fold_mul : Doubles → NumVal → NumVal → Option Literal
unfolding make_result
fold_mul x a b = some (make_result a b (a.i *ℤ b.i) (x.mul_double a.d b.d))

pub fold_div : Doubles → NumVal → NumVal → Option Literal
fold_div x a b =
    if x.equals_zero b.d
    then none
    else if a.is_int && b.is_int && not (is_zero b.i) && divides b.i a.i
    then some (int64 (quot a.i b.i))
    else some (double (x.div_double a.d b.d))

-- The search of `post_visit` for the name of a global.
unfoldable pub op_name_of : ℕ → List BindingInfo → Text
op_name_of id [] = []
op_name_of id (b ∷ bs) = if is_global b && b.slot == id then b.name else op_name_of id bs

unfoldable pub fold_named : Doubles → Text → NumVal → NumVal → Option Literal
unfolding fold_add fold_sub fold_mul fold_div
fold_named x op_name a b =
    if eq_text op_name plus
    then fold_add x a b
    else if eq_text op_name minus
    then fold_sub x a b
    else if eq_text op_name times
    then fold_mul x a b
    else if eq_text op_name slash
    then fold_div x a b
    else none

-- Both arguments as constants, when there are two of them and they are.
unfoldable pub constant_pair : {D : Type 0} → Nodes D → Option (Literal × Literal)
constant_pair (more (node (constant l) s t) (more (node (constant r) s2 t2) none_left)) =
    some (l, r)
constant_pair _ = none

-- What `post_visit` makes of a call of the global `id` with two constants.
unfoldable pub fold_call :
    {D : Type 0} → Doubles → List BindingInfo → Node D → ℕ → Literal → Literal → Span → Node D
unfolding to_numeric fold_named op_name_of
fold_call x bs n id l r s = elim (to_numeric x l) [
  | none ↦ n
  | some a ↦ elim (to_numeric x r) [
    | none ↦ n
    | some b ↦ elim (fold_named x (op_name_of id bs) a b) [
      | none ↦ n
      | some result ↦ node (constant result) s false
    ]
  ]
]

unfoldable pub post_visit : {D : Type 0} → Doubles → List BindingInfo → Post D
unfolding fold_call constant_pair
post_visit x bs (node (call callee args) s t) ctx = elim (callee_global callee) [
  | none ↦ node (call callee args) s t
  | some id ↦ elim (constant_pair args) [
    | none ↦ node (call callee args) s t
    | some p ↦ fold_call x bs (node (call callee args) s t) id p.0 p.1 s
  ]
]
post_visit x bs n ctx = n

unfoldable pub run : {D : Type 0} → Doubles → ModuleSemantics D → ModuleSemantics D
run x m = record m {
  toplevel_inits = map (λ n. visit (post_visit x m.bindings) n false) m.toplevel_inits;
}
