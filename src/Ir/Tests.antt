-- ===== src/Ir/Tests.antt =====
-- Runs of the theorems on the passes over the intermediate representation at small trees.
use eta.Ir.Fold
use eta.Ir.{visit_all, visit_last, visit_data}
use eta.Ir.Callee.{callee_global}
use eta.Prelude.{◌+ℤ◌}
use eta.Prelude.{
  ℕ, zero, ◌+◌, ◌==◌, ◌≡◌, refl, ap, true, false, if◌then◌else◌, List, [], ◌∷◌, pos, negsuc,
  pos_part, neg_part,
}
use eta.Numeric.{Doubles, OpCode, binary_arithmetic, quot}
use eta.Ir.{Address, Literal, PrimitiveKind, Node, Span, visit}
use eta.Ir.Node.{node}
use eta.Ir.Nodes.{none_left, more}
use eta.Ir.NodeData.{variable, constant, begin, set_, call}
use eta.Ir.Bindings.{BindingInfo, BindingKind, ModuleSemantics, plus, eq_text}
use eta.Ir.Meaning.{Meaning, Run, denote, push, after}
use eta.Ir.DeadCode
use eta.Ir.Specialise
use eta.Ir.Specialise.Runs.{AllHoldBuiltins, denote-specialise}
use eta.Ir.Fold.Agrees.{folded, value_of, AgreesWith, folded-binary_arithmetic}
use eta.Ir.Pipeline.{denote_inits, denote_inits-run, DeadCode-Preserves, Specialise-Preserves}
use eta.Ir.Pipeline

abbrev nowhere : Span
nowhere = record {
  file_id = 0;
  start = record { offset = 0; line = 1; column = 1 };
  end_ = record { offset = 0; line = 1; column = 1 };
}

-- Runs the arguments in order and collects their values.
abbrev run_args : List (Run ℕ ℕ (ℕ × ℕ)) → List ℕ → ℕ → (List ℕ → ℕ → ℕ × ℕ) → ℕ × ℕ
run_args [] vs s k = k vs s
run_args (d ∷ ds) vs s k = d s (λ v s2. run_args ds (v ∷ vs) s2 k)

abbrev sum : List ℕ → ℕ
sum [] = 0
sum (v ∷ vs) = v + sum vs

-- What calling a value does: 43 is the code of the sum, and every other value is a constant.
abbrev apply_code : ℕ → List ℕ → ℕ
apply_code code vs = if code == 43 then sum vs else code

abbrev primitive_code : PrimitiveKind → ℕ
primitive_code PrimitiveKind.add = 43
primitive_code _ = 0

abbrev number_of : Literal → ℕ
number_of (Literal.int64 n) = pos_part n
number_of _ = 0

-- The state is one global, the global 1; the global 0 holds the sum.
abbrev read_address : Address → ℕ → ℕ
read_address (Address.global zero) s = 43
read_address _ s = s

abbrev counting : Meaning Unit
counting = record {
  State = ℕ;
  Value = ℕ;
  Result = ℕ × ℕ;
  read = read_address;
  value_of = number_of;
  datum = λ q. 0;
  run_if = λ a b c s k. a s (λ v s2. if v == 0 then c s2 k else b s2 k);
  run_set = λ a d s k. d s (λ v s2. k v v);
  run_lambda = λ f d. push (λ s. 0);
  run_call = λ f ds s k. f s (λ v s2. run_args ds [] s2 (λ vs s3. k (apply_code v vs) s3));
  run_primitive =
      λ kind ds s k. run_args ds [] s (λ vs s3. k (apply_code (primitive_code kind) vs) s3);
  run_wind = λ a b c. after a (after b c);
  run_values = λ ds s k. run_args ds [] s (λ vs s3. k (sum vs) s3);
  run_with_values = λ a b. after a b;
  run_cc = λ d. d;
  run_apply = λ f ds. f;
  run_raise = λ tag d s k. d s (λ v s2. (v, s2));
  run_guard = λ tag d. d;
  run_logic_var = push (λ s. 0);
  run_unify = λ a b. after a b;
  run_deref = λ d. d;
  run_mark = push (λ s. 0);
  run_unwind = λ d. d;
  run_copy = λ d. d;
}

abbrev number : ℕ → Node Unit
number n = node (constant (Literal.int64 (pos n))) nowhere false

-- (begin 1 (set! g 5) g 2)
abbrev sequence_node : Node Unit
sequence_node =
    node
      (begin (
        more (number 1) (
          more (node (set_ (Address.global 1) (number 5)) nowhere false)
            (more (node (variable (Address.global 1)) nowhere false) (more (number 2) none_left)))))
      nowhere true

denote-eliminate_test :
    denote counting (visit DeadCode.post_visit sequence_node true) ≡ denote counting sequence_node
denote-eliminate_test = DeadCode.denote-eliminate counting sequence_node true

-- (+ 1 2)
abbrev sum_node : Node Unit
sum_node =
    node
      (call (node (variable (Address.global 0)) nowhere false)
        (more (number 1) (more (number 2) none_left)))
      nowhere false

abbrev sum_binding : BindingInfo
sum_binding = record {
  kind = BindingKind.global;
  name = plus;
  mutable_flag = false;
  slot = 0;
  def_span = nowhere;
}

sum_binding-holds : AllHoldBuiltins counting (sum_binding ∷ [])
unfolding eq_text Specialise.unary_primitive_from_name Specialise.binary_primitive_from_name
sum_binding-holds = (
  λ global fixed. (
    (λ k e. absurd cc),
    (λ k e a b.
        let is_add : PrimitiveKind.add ≡ k = cc in
        ap (λ p. counting.run_primitive p (a ∷ b ∷ [])) is_add),
  ),
  tt,
)

denote-specialise_test :
    denote counting
      (visit (Specialise.post_visit (Specialise.specialiser (sum_binding ∷ []))) sum_node false)
    ≡ denote counting sum_node
denote-specialise_test =
    denote-specialise counting (sum_binding ∷ []) sum_node false sum_binding-holds

abbrev program : ModuleSemantics Unit
program = record { bindings = sum_binding ∷ []; toplevel_inits = sum_node ∷ sequence_node ∷ [] }

denote_inits-run_test :
    denote_inits counting (Pipeline.run (Specialise.run ∷ DeadCode.run ∷ []) program)
    ≡ denote_inits counting program
denote_inits-run_test =
    denote_inits-run counting (sum_binding ∷ []) (Specialise.run ∷ DeadCode.run ∷ []) program
      (
        Specialise-Preserves counting (sum_binding ∷ []) sum_binding-holds,
        (DeadCode-Preserves counting (sum_binding ∷ []), tt),
      )
      refl

-- Doubles that are natural numbers.
abbrev whole : Doubles
whole = record {
  add_double = λ a b. a + b;
  sub_double = λ a b. a;
  mul_double = λ a b. a;
  div_double = λ a b. a;
  of_int64 = λ a. pos_part a + neg_part a;
  equals_zero = λ a. a == 0;
}

folded-binary_arithmetic_example :
    AgreesWith (folded whole OpCode.div (Literal.int64 (pos 12)) (Literal.int64 (negsuc 2))) (
      binary_arithmetic whole OpCode.div
        (value_of (Literal.int64 (pos 12)))
        (value_of (Literal.int64 (negsuc 2))))
unfolding quot
folded-binary_arithmetic_example =
    folded-binary_arithmetic whole OpCode.div (Literal.int64 (pos 12)) (Literal.int64 (negsuc 2))
      (λ a. refl) refl

-- A pipeline with one pass more, over two modules.
run_all_test :
    Pipeline.run_all (Pipeline.add_pass [] DeadCode.run) (program ∷ program ∷ [])
    ≡ DeadCode.run program ∷ DeadCode.run program ∷ []
unfolding Pipeline.run_all Pipeline.add_pass Pipeline.run
run_all_test = refl

-- (+ 1 2) is folded to 3.
fold_test : (Fold.run whole program).toplevel_inits ≡ number 3 ∷ sequence_node ∷ []
unfolding Fold.run Fold.post_visit Fold.fold_call Fold.fold_named Fold.fold_add Fold.make_result
    Fold.to_numeric Fold.op_name_of Fold.constant_pair callee_global visit visit_all visit_last
    visit_data eq_text ◌+ℤ◌
fold_test = refl
