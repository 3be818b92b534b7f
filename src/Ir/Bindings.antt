-- ===== src/Ir/Bindings.antt =====
-- The bindings of a module (`BindingInfo` and `ModuleSemantics` of
-- eta/core/src/eta/semantics/semantic_analyzer.h), as far as the passes read them, and the names of
-- the builtins.
use eta.Prelude.{ℕ, ◌==◌, Bool, true, false, ◌&&◌, List, [], ◌∷◌}
use eta.Ir.{Text, Span, Node}

pub data BindingKind : Type 0 where
  param local global import : BindingKind

pub record BindingInfo : Type 0 where
  pub kind : BindingKind
  pub name : Text
  pub mutable_flag : Bool
  pub slot : ℕ
  pub def_span : Span

pub record ModuleSemantics (D : Type 0) : Type 0 where
  pub bindings : List BindingInfo
  pub toplevel_inits : List (Node D)

abbrev pub is_global : BindingInfo → Bool
is_global b = elim b.kind [ BindingKind.global ↦ true | _ ↦ false ]

unfoldable pub eq_text : Text → Text → Bool
eq_text [] [] = true
eq_text [] (d ∷ ds) = false
eq_text (c ∷ cs) [] = false
eq_text (c ∷ cs) (d ∷ ds) = c == d && eq_text cs ds

-- "+", "-", "*", "/" and "="
abbrev pub plus : Text
plus = 43 ∷ []

abbrev pub minus : Text
minus = 45 ∷ []

abbrev pub times : Text
times = 42 ∷ []

abbrev pub slash : Text
slash = 47 ∷ []

abbrev pub equals : Text
equals = 61 ∷ []

-- "car", "cdr" and "cons"
abbrev pub car_name : Text
car_name = 99 ∷ 97 ∷ 114 ∷ []

abbrev pub cdr_name : Text
cdr_name = 99 ∷ 100 ∷ 114 ∷ []

abbrev pub cons_name : Text
cons_name = 99 ∷ 111 ∷ 110 ∷ 115 ∷ []
