-- ===== src/Ir/Callee.antt =====
-- The start of `post_visit` in semantics/passes/constant_folding.h and primitive_specialisation.h:
-- is the callee a global variable, and which?
use eta.Prelude.{ℕ, ◌≡◌, ap, Option, none, some}
use eta.Ir.{Address, Node}
use eta.Ir.Address.{global}
use eta.Ir.Node.{node}
use eta.Ir.NodeData.{
  variable, constant, quote_, if_, begin, set_, lambda, call, primitive_call, dynamic_wind, values,
  call_with_values, call_cc, apply, raise, guard, make_logic_var, unify, deref_logic_var,
  trail_mark, unwind_trail, copy_term,
}
use eta.Ir.Meaning.{Meaning, denote, denote_data, push}

unfoldable pub callee_global : {D : Type 0} → Node D → Option ℕ
callee_global (node (variable (global id)) s t) = some id
callee_global _ = none

pub callee_global-denote :
    {D : Type 0} (m : Meaning D) (n : Node D) (id : ℕ)
    → callee_global n ≡ some id
    → denote m n ≡ push (m.read (global id))
unfolding callee_global denote denote_data
callee_global-denote m (node (variable Address.monostate) s t) id h = absurd cc
callee_global-denote m (node (variable (Address.local l)) s t) id h = absurd cc
callee_global-denote m (node (variable (Address.upval l)) s t) id h = absurd cc
callee_global-denote m (node (variable (global g)) s t) id h =
    let same : g ≡ id = cc in ap (λ i. push (m.read (global i))) same
callee_global-denote m (node (constant l) s t) id h = absurd cc
callee_global-denote m (node (quote_ q) s t) id h = absurd cc
callee_global-denote m (node (if_ a b c) s t) id h = absurd cc
callee_global-denote m (node (begin ns) s t) id h = absurd cc
callee_global-denote m (node (set_ a b) s t) id h = absurd cc
callee_global-denote m (node (lambda f b) s t) id h = absurd cc
callee_global-denote m (node (call c ns) s t) id h = absurd cc
callee_global-denote m (node (primitive_call k ns) s t) id h = absurd cc
callee_global-denote m (node (dynamic_wind a b c) s t) id h = absurd cc
callee_global-denote m (node (values ns) s t) id h = absurd cc
callee_global-denote m (node (call_with_values a b) s t) id h = absurd cc
callee_global-denote m (node (call_cc a) s t) id h = absurd cc
callee_global-denote m (node (apply p ns) s t) id h = absurd cc
callee_global-denote m (node (raise g a) s t) id h = absurd cc
callee_global-denote m (node (guard g a) s t) id h = absurd cc
callee_global-denote m (node make_logic_var s t) id h = absurd cc
callee_global-denote m (node (unify a b) s t) id h = absurd cc
callee_global-denote m (node (deref_logic_var a) s t) id h = absurd cc
callee_global-denote m (node trail_mark s t) id h = absurd cc
callee_global-denote m (node (unwind_trail a) s t) id h = absurd cc
callee_global-denote m (node (copy_term a) s t) id h = absurd cc
