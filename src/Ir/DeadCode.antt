-- ===== src/Ir/DeadCode.antt =====
-- eta/core/src/eta/semantics/passes/dead_code_elimination.h.
use eta.Prelude.{◌≡◌, refl, ap, ◌∙◌, Bool, true, false, if◌then◌else◌, Bool-cases, inl, inr, map}
use eta.Ir.{Literal, Node, Nodes, Post, Span, visit}
use eta.Ir.Bindings.{ModuleSemantics}
use eta.Ir.Node.{node}
use eta.Ir.Nodes.{none_left, more}
use eta.Ir.NodeData.{
  variable, constant, quote_, if_, begin, set_, lambda, call, primitive_call, dynamic_wind, values,
  call_with_values, call_cc, apply, raise, guard, make_logic_var, unify, deref_logic_var,
  trail_mark, unwind_trail, copy_term,
}
use eta.Ir.Meaning.{
  Meaning, Keeps, denote, denote_all, denote_data, denote-visit, sequence, sequence_from, push,
  after,
}

pub is_pure : {D : Type 0} → Node D → Bool
is_pure (node (constant l) s t) = true
is_pure (node (variable a) s t) = true
is_pure (node (quote_ q) s t) = true
is_pure _ = false

-- The loop of `post_visit` from an element and those after it on: the last is kept in any case.
pub kept_from : {D : Type 0} → Node D → Nodes D → Nodes D
kept_from n none_left = more n none_left
kept_from n (more o ns) = let rest = kept_from o ns in if is_pure n then rest else more n rest

pub kept : {D : Type 0} → Nodes D → Nodes D
unfolding kept_from
kept none_left = none_left
kept (more n ns) = kept_from n ns

-- What `post_visit` makes of what it keeps.
pub simplify : {D : Type 0} → Span → Bool → Nodes D → Node D
simplify s t none_left = node (constant Literal.nothing) s false
simplify s t (more n none_left) = n
simplify s t (more n (more o ns)) = node (begin (more n (more o ns))) s t

pub post_visit : {D : Type 0} → Post D
post_visit (node (begin exprs) s t) ctx = simplify s t (kept exprs)
post_visit n ctx = n

unfoldable pub run : {D : Type 0} → ModuleSemantics D → ModuleSemantics D
run m = record m { toplevel_inits = map (λ n. visit post_visit n false) m.toplevel_inits }

-- A pure node only pushes a value.
push-is_pure :
    {D : Type 0} (m : Meaning D) (n : Node D)
    → is_pure n ≡ true
    → (f : m.State → m.Value) × (denote m n ≡ push f)
unfolding is_pure denote denote_data
push-is_pure m (node (variable a) s t) h = (m.read a, refl)
push-is_pure m (node (constant l) s t) h = ((λ s. m.value_of l), refl)
push-is_pure m (node (quote_ q) s t) h = ((λ s. m.datum q), refl)
push-is_pure m (node (if_ a b c) s t) h = absurd cc
push-is_pure m (node (begin ns) s t) h = absurd cc
push-is_pure m (node (set_ a b) s t) h = absurd cc
push-is_pure m (node (lambda f b) s t) h = absurd cc
push-is_pure m (node (call c ns) s t) h = absurd cc
push-is_pure m (node (primitive_call k ns) s t) h = absurd cc
push-is_pure m (node (dynamic_wind a b c) s t) h = absurd cc
push-is_pure m (node (values ns) s t) h = absurd cc
push-is_pure m (node (call_with_values a b) s t) h = absurd cc
push-is_pure m (node (call_cc a) s t) h = absurd cc
push-is_pure m (node (apply p ns) s t) h = absurd cc
push-is_pure m (node (raise g a) s t) h = absurd cc
push-is_pure m (node (guard g a) s t) h = absurd cc
push-is_pure m (node make_logic_var s t) h = absurd cc
push-is_pure m (node (unify a b) s t) h = absurd cc
push-is_pure m (node (deref_logic_var a) s t) h = absurd cc
push-is_pure m (node trail_mark s t) h = absurd cc
push-is_pure m (node (unwind_trail a) s t) h = absurd cc
push-is_pure m (node (copy_term a) s t) h = absurd cc

-- What the loop keeps is not empty and runs as what it was given.
kept_from-denote :
    {D : Type 0} (m : Meaning D) (n : Node D) (ns : Nodes D)
    → (o : Node D) × (os : Nodes D) × (kept_from n ns ≡ more o os)
      × (sequence_from (denote m o) (denote_all m os)
          ≡ sequence_from (denote m n) (denote_all m ns))
unfolding kept_from denote_all
kept_from-denote m n none_left = (n, none_left, refl, refl)
kept_from-denote m n (more x ns) =
    let (o, os, e, same) = kept_from-denote m x ns in
    elim (Bool-cases (is_pure n)) [
      | inl pure ↦
          let (f, pushes) = push-is_pure m n pure in (o, os, rw pure e, same ∙ rw pushes refl)
      | inr impure ↦ (n, kept_from x ns, rw impure refl, rw e (ap (after (denote m n)) same))
    ]

simplify-denote :
    {D : Type 0} (m : Meaning D) (s : Span) (t : Bool) (ns : Nodes D)
    → denote m (simplify s t ns) ≡ sequence m (denote_all m ns)
unfolding simplify denote denote_data denote_all
simplify-denote m s t none_left = refl
simplify-denote m s t (more n none_left) = refl
simplify-denote m s t (more n (more o ns)) = refl

kept-denote :
    {D : Type 0} (m : Meaning D) (ns : Nodes D)
    → sequence m (denote_all m (kept ns)) ≡ sequence m (denote_all m ns)
unfolding kept denote_all
kept-denote m none_left = refl
kept-denote m (more n ns) = let (o, os, e, same) = kept_from-denote m n ns in rw e same

post_visit-Keeps : {D : Type 0} (m : Meaning D) → Keeps m post_visit
unfolding post_visit denote denote_data
post_visit-Keeps m (node (variable a) s t) ctx = refl
post_visit-Keeps m (node (constant l) s t) ctx = refl
post_visit-Keeps m (node (quote_ q) s t) ctx = refl
post_visit-Keeps m (node (if_ a b c) s t) ctx = refl
post_visit-Keeps m (node (begin ns) s t) ctx = simplify-denote m s t (kept ns) ∙ kept-denote m ns
post_visit-Keeps m (node (set_ a b) s t) ctx = refl
post_visit-Keeps m (node (lambda f b) s t) ctx = refl
post_visit-Keeps m (node (call c ns) s t) ctx = refl
post_visit-Keeps m (node (primitive_call k ns) s t) ctx = refl
post_visit-Keeps m (node (dynamic_wind a b c) s t) ctx = refl
post_visit-Keeps m (node (values ns) s t) ctx = refl
post_visit-Keeps m (node (call_with_values a b) s t) ctx = refl
post_visit-Keeps m (node (call_cc a) s t) ctx = refl
post_visit-Keeps m (node (apply p ns) s t) ctx = refl
post_visit-Keeps m (node (raise g a) s t) ctx = refl
post_visit-Keeps m (node (guard g a) s t) ctx = refl
post_visit-Keeps m (node make_logic_var s t) ctx = refl
post_visit-Keeps m (node (unify a b) s t) ctx = refl
post_visit-Keeps m (node (deref_logic_var a) s t) ctx = refl
post_visit-Keeps m (node trail_mark s t) ctx = refl
post_visit-Keeps m (node (unwind_trail a) s t) ctx = refl
post_visit-Keeps m (node (copy_term a) s t) ctx = refl

-- Dropping the pure expressions that are not last in a sequence, everywhere in a tree, never
-- changes what the tree does: its value, its effects, whether it raises or ends. This holds for
-- any meaning of the other nodes in which reading a variable succeeds.
pub denote-eliminate :
    {D : Type 0} (m : Meaning D) (n : Node D) (ctx : Bool)
    → denote m (visit post_visit n ctx) ≡ denote m n
denote-eliminate m n ctx = denote-visit m post_visit (post_visit-Keeps m) n ctx
