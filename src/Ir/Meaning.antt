-- ===== src/Ir/Meaning.antt =====
-- A meaning of the nodes of semantics/core_ir.h against which the passes are judged. It is in
-- continuation-passing style, so that a node may raise, jump, diverge or change the state. Only
-- the three kinds a pass drops (constants, variables, quotes) and `Begin` are fixed: a value pushed
-- with no other effect, and a sequence that pops every value but the last. It differs from the source:
-- in semantics/emitter.cpp a sequence also patches the closures that its leading run of assignments
-- of lambdas makes, and in runtime/vm/vm.cpp to read a global may fail. Every other kind is any function of the meanings of its parts.
use eta.Prelude.{◌≡◌, refl, ap, ◌∙◌, Bool, true, false, List, [], ◌∷◌}
use mathlib.Core.Path.{ap₂}
use eta.Ir.{
  Text, Address, Literal, PrimitiveKind, Frame, Node, Nodes, NodeData, Post, visit, visit_all,
  visit_last, visit_data,
}
use eta.Ir.Node.{node}
use eta.Ir.Nodes.{none_left, more}
use eta.Ir.NodeData.{
  variable, constant, quote_, if_, begin, set_, lambda, call, primitive_call, dynamic_wind, values,
  call_with_values, call_cc, apply, raise, guard, make_logic_var, unify, deref_logic_var,
  trail_mark, unwind_trail, copy_term,
}

-- What a node does from a state: it hands a value and a state to the rest of the run.
abbrev pub Run : Type 0 → Type 0 → Type 0 → Type 0
Run State Value Result = State → (Value → State → Result) → Result

pub record Meaning (D : Type 0) : Type 1 where
  pub State : Type 0
  pub Value : Type 0
  pub Result : Type 0
  pub read : Address → State → Value
  pub value_of : Literal → Value
  pub datum : D → Value
  pub run_if : (a b c : Run State Value Result) → Run State Value Result
  pub run_set : Address → Run State Value Result → Run State Value Result
  pub run_lambda : Frame → Run State Value Result → Run State Value Result
  pub run_call : Run State Value Result → List (Run State Value Result) → Run State Value Result
  pub run_primitive : PrimitiveKind → List (Run State Value Result) → Run State Value Result
  pub run_wind : (a b c : Run State Value Result) → Run State Value Result
  pub run_values : List (Run State Value Result) → Run State Value Result
  pub run_with_values : (a b : Run State Value Result) → Run State Value Result
  pub run_cc : Run State Value Result → Run State Value Result
  pub run_apply : Run State Value Result → List (Run State Value Result) → Run State Value Result
  pub run_raise : Text → Run State Value Result → Run State Value Result
  pub run_guard : Text → Run State Value Result → Run State Value Result
  pub run_logic_var : Run State Value Result
  pub run_unify : (a b : Run State Value Result) → Run State Value Result
  pub run_deref : Run State Value Result → Run State Value Result
  pub run_mark : Run State Value Result
  pub run_unwind : Run State Value Result → Run State Value Result
  pub run_copy : Run State Value Result → Run State Value Result

abbrev pub Den : {D : Type 0} → Meaning D → Type 0
Den m = Run m.State m.Value m.Result

abbrev pub push : {S V R : Type 0} → (S → V) → Run S V R
push f s k = k (f s) s

-- Runs `d` for its effects, then `e`.
abbrev pub after : {S V R : Type 0} → Run S V R → Run S V R → Run S V R
after d e = λ s k. d s (λ v s2. e s2 k)

-- One after the other; the value of the last is the value of all.
abbrev pub sequence_from : {S V R : Type 0} → Run S V R → List (Run S V R) → Run S V R
sequence_from d [] = d
sequence_from d (e ∷ es) = after d (sequence_from e es)

abbrev pub sequence : {D : Type 0} (m : Meaning D) → List (Den m) → Den m
sequence m [] = push (λ s. m.value_of Literal.nothing)
sequence m (d ∷ ds) = sequence_from d ds

unfoldable mutual
  pub denote : {D : Type 0} (m : Meaning D) → Node D → Den m
  denote m (node d s t) = denote_data m d

  pub denote_all : {D : Type 0} (m : Meaning D) → Nodes D → List (Den m)
  denote_all m none_left = []
  denote_all m (more n ns) = denote m n ∷ denote_all m ns

  pub denote_data : {D : Type 0} (m : Meaning D) → NodeData D → Den m
  denote_data m (variable a) = push (m.read a)
  denote_data m (constant l) = push (λ s. m.value_of l)
  denote_data m (quote_ q) = push (λ s. m.datum q)
  denote_data m (if_ a b c) = m.run_if (denote m a) (denote m b) (denote m c)
  denote_data m (begin exprs) = sequence m (denote_all m exprs)
  denote_data m (set_ target value) = m.run_set target (denote m value)
  denote_data m (lambda f body) = m.run_lambda f (denote m body)
  denote_data m (call callee args) = m.run_call (denote m callee) (denote_all m args)
  denote_data m (primitive_call kind args) = m.run_primitive kind (denote_all m args)
  denote_data m (dynamic_wind a b c) = m.run_wind (denote m a) (denote m b) (denote m c)
  denote_data m (values exprs) = m.run_values (denote_all m exprs)
  denote_data m (call_with_values a b) = m.run_with_values (denote m a) (denote m b)
  denote_data m (call_cc a) = m.run_cc (denote m a)
  denote_data m (apply proc args) = m.run_apply (denote m proc) (denote_all m args)
  denote_data m (raise tag a) = m.run_raise tag (denote m a)
  denote_data m (guard tag a) = m.run_guard tag (denote m a)
  denote_data m make_logic_var = m.run_logic_var
  denote_data m (unify a b) = m.run_unify (denote m a) (denote m b)
  denote_data m (deref_logic_var a) = m.run_deref (denote m a)
  denote_data m trail_mark = m.run_mark
  denote_data m (unwind_trail a) = m.run_unwind (denote m a)
  denote_data m (copy_term a) = m.run_copy (denote m a)

-- A `post_visit` that keeps the meaning of every node it is given.
abbrev pub Keeps : {D : Type 0} → Meaning D → Post D → Type 0
Keeps {D} m post = (n : Node D) (ctx : Bool) → denote m (post n ctx) ≡ denote m n

ap3 :
    {A B C D : Type 0} (f : A → B → C → D) {a a2 : A} {b b2 : B} {c c2 : C}
    → a ≡ a2
    → b ≡ b2
    → c ≡ c2
    → f a b c ≡ f a2 b2 c2
ap3 f p q r = λ i. f (p i) (q i) (r i)

-- What every step keeps, the walk keeps.
mutual
  unfolding denote denote_all denote_data visit visit_all visit_last visit_data

  pub denote-visit :
      {D : Type 0} (m : Meaning D) (post : Post D)
      → Keeps m post
      → (n : Node D) (ctx : Bool) → denote m (visit post n ctx) ≡ denote m n
  denote-visit m post h (node d s t) ctx = h _ ctx ∙ denote_data-visit m post h d ctx

  pub denote_all-visit :
      {D : Type 0} (m : Meaning D) (post : Post D)
      → Keeps m post
      → (ns : Nodes D) → denote_all m (visit_all post ns) ≡ denote_all m ns
  denote_all-visit m post h none_left = refl
  denote_all-visit m post h (more n ns) =
      ap₂ ◌∷◌ (denote-visit m post h n false) (denote_all-visit m post h ns)

  pub denote_all-visit_last :
      {D : Type 0} (m : Meaning D) (post : Post D)
      → Keeps m post
      → (ns : Nodes D) (ctx : Bool) → denote_all m (visit_last post ns ctx) ≡ denote_all m ns
  denote_all-visit_last m post h none_left ctx = refl
  denote_all-visit_last m post h (more n none_left) ctx =
      ap (λ d. d ∷ []) (denote-visit m post h n ctx)
  denote_all-visit_last m post h (more n (more o ns)) ctx =
      ap₂ ◌∷◌ (denote-visit m post h n false) (denote_all-visit_last m post h (more o ns) ctx)

  pub denote_data-visit :
      {D : Type 0} (m : Meaning D) (post : Post D)
      → Keeps m post
      → (d : NodeData D) (ctx : Bool) → denote_data m (visit_data post d ctx) ≡ denote_data m d
  denote_data-visit m post h (variable a) ctx = refl
  denote_data-visit m post h (constant l) ctx = refl
  denote_data-visit m post h (quote_ q) ctx = refl
  denote_data-visit m post h (if_ a b c) ctx =
      ap3 m.run_if (denote-visit m post h a false) (denote-visit m post h b ctx)
        (denote-visit m post h c ctx)
  denote_data-visit m post h (begin exprs) ctx =
      ap (sequence m) (denote_all-visit_last m post h exprs ctx)
  denote_data-visit m post h (set_ target a) ctx =
      ap (m.run_set target) (denote-visit m post h a false)
  denote_data-visit m post h (lambda f a) ctx = ap (m.run_lambda f) (denote-visit m post h a true)
  denote_data-visit m post h (call callee args) ctx =
      ap₂ m.run_call (denote-visit m post h callee false) (denote_all-visit m post h args)
  denote_data-visit m post h (primitive_call kind args) ctx =
      ap (m.run_primitive kind) (denote_all-visit m post h args)
  denote_data-visit m post h (dynamic_wind a b c) ctx =
      ap3 m.run_wind (denote-visit m post h a false) (denote-visit m post h b false)
        (denote-visit m post h c false)
  denote_data-visit m post h (values exprs) ctx = ap m.run_values (denote_all-visit m post h exprs)
  denote_data-visit m post h (call_with_values a b) ctx =
      ap₂ m.run_with_values (denote-visit m post h a false) (denote-visit m post h b false)
  denote_data-visit m post h (call_cc a) ctx = ap m.run_cc (denote-visit m post h a false)
  denote_data-visit m post h (apply proc args) ctx =
      ap₂ m.run_apply (denote-visit m post h proc false) (denote_all-visit m post h args)
  denote_data-visit m post h (raise tag a) ctx =
      ap (m.run_raise tag) (denote-visit m post h a false)
  denote_data-visit m post h (guard tag a) ctx = ap (m.run_guard tag) (denote-visit m post h a ctx)
  denote_data-visit m post h make_logic_var ctx = refl
  denote_data-visit m post h (unify a b) ctx =
      ap₂ m.run_unify (denote-visit m post h a false) (denote-visit m post h b false)
  denote_data-visit m post h (deref_logic_var a) ctx =
      ap m.run_deref (denote-visit m post h a false)
  denote_data-visit m post h trail_mark ctx = refl
  denote_data-visit m post h (unwind_trail a) ctx = ap m.run_unwind (denote-visit m post h a false)
  denote_data-visit m post h (copy_term a) ctx = refl
