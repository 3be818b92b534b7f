-- ===== src/Ir.antt =====
-- eta/core/src/eta/semantics/core_ir.h and ir_visitor.h: the nodes of the intermediate
-- representation and the walk over them that the passes share. Texts are lists of bytes, a double
-- is its bit pattern, and `D` is the type of a quoted datum, which no pass looks at. No child of a
-- node is null, as the analyser builds them.
pub mod Meaning
pub mod Bindings
pub mod Callee
pub mod DeadCode
pub mod Fold
pub mod Specialise
pub mod Pipeline
mod Tests
use eta.Prelude.{ℕ, Bool, true, false, ◌&&◌, List, [], ◌∷◌, ℤ, Option}

abbrev pub Text : Type 0
Text = List ℕ

pub record Position : Type 0 where
  pub offset : ℕ
  pub line : ℕ
  pub column : ℕ

pub record Span : Type 0 where
  pub file_id : ℕ
  pub start : Position
  pub end_ : Position

pub data Address : Type 0 where
  monostate : Address
  local : ℕ → Address
  upval : ℕ → Address
  global : ℕ → Address

pub data Literal : Type 0 where
  nothing : Literal
  boolean : Bool → Literal
  char32 : ℕ → Literal
  string : Text → Literal
  int64 : ℤ → Literal
  double : ℕ → Literal

pub data PrimitiveKind : Type 0 where
  cons car cdr add sub mul div eq : PrimitiveKind

pub record Arity : Type 0 where
  pub required : ℕ
  pub optional : ℕ
  pub has_rest : Bool

-- What a `Lambda` holds next to its body.
pub record Frame : Type 0 where
  pub params : List ℕ
  pub rest : Option ℕ
  pub locals : List ℕ
  pub upvals : List ℕ
  pub upval_sources : List Address
  pub arity : Arity
  pub stack_size : ℕ

mutual
  pub data Node (D : Type 0) : Type 0 where
    node : NodeData D → Span → Bool → Node D

  pub data Nodes (D : Type 0) : Type 0 where
    none_left : Nodes D
    more : Node D → Nodes D → Nodes D

  pub data NodeData (D : Type 0) : Type 0 where
    variable : Address → NodeData D
    constant : Literal → NodeData D
    quote_ : D → NodeData D
    if_ : Node D → Node D → Node D → NodeData D
    begin : Nodes D → NodeData D
    set_ : Address → Node D → NodeData D
    lambda : Frame → Node D → NodeData D
    call : Node D → Nodes D → NodeData D
    primitive_call : PrimitiveKind → Nodes D → NodeData D
    dynamic_wind : Node D → Node D → Node D → NodeData D
    values : Nodes D → NodeData D
    call_with_values : Node D → Node D → NodeData D
    call_cc : Node D → NodeData D
    apply : Node D → Nodes D → NodeData D
    raise : Text → Node D → NodeData D
    guard : Text → Node D → NodeData D
    make_logic_var : NodeData D
    unify : Node D → Node D → NodeData D
    deref_logic_var : Node D → NodeData D
    trail_mark : NodeData D
    unwind_trail : Node D → NodeData D
    copy_term : Node D → NodeData D

abbrev pub data_of : {D : Type 0} → Node D → NodeData D
data_of (node d s t) = d

-- `post_visit` of a pass, from the node and its context.
abbrev pub Post : Type 0 → Type 0
Post D = Node D → Bool → Node D

-- `IRVisitor::visit`: children first, then `post_visit`. No pass has a `pre_visit`.
mutual
  pub visit : {D : Type 0} → Post D → Node D → Bool → Node D
  visit post (node d s t) ctx = post (node (visit_data post d ctx) s t) ctx

  -- The loop that visits every element out of tail position.
  pub visit_all : {D : Type 0} → Post D → Nodes D → Nodes D
  visit_all post none_left = none_left
  visit_all post (more n ns) = more (visit post n false) (visit_all post ns)

  -- The loop over a `Begin`: the last element is visited in its context.
  pub visit_last : {D : Type 0} → Post D → Nodes D → Bool → Nodes D
  visit_last post none_left ctx = none_left
  visit_last post (more n none_left) ctx = more (visit post n ctx) none_left
  visit_last post (more n (more m ns)) ctx =
      more (visit post n false) (visit_last post (more m ns) ctx)

  pub visit_data : {D : Type 0} → Post D → NodeData D → Bool → NodeData D
  visit_data post (variable a) ctx = variable a
  visit_data post (constant l) ctx = constant l
  visit_data post (quote_ q) ctx = quote_ q
  visit_data post (if_ test conseq alt) ctx =
      if_ (visit post test false) (visit post conseq ctx) (visit post alt ctx)
  visit_data post (begin exprs) ctx = begin (visit_last post exprs ctx)
  visit_data post (set_ target value) ctx = set_ target (visit post value false)
  visit_data post (lambda f body) ctx = lambda f (visit post body true)
  visit_data post (call callee args) ctx = call (visit post callee false) (visit_all post args)
  visit_data post (primitive_call kind args) ctx = primitive_call kind (visit_all post args)
  visit_data post (dynamic_wind before body after) ctx =
      dynamic_wind (visit post before false) (visit post body false) (visit post after false)
  visit_data post (values exprs) ctx = values (visit_all post exprs)
  visit_data post (call_with_values producer consumer) ctx =
      call_with_values (visit post producer false) (visit post consumer false)
  visit_data post (call_cc consumer) ctx = call_cc (visit post consumer false)
  visit_data post (apply proc args) ctx = apply (visit post proc false) (visit_all post args)
  visit_data post (raise tag value) ctx = raise tag (visit post value false)
  visit_data post (guard tag body) ctx = guard tag (visit post body ctx)
  visit_data post make_logic_var ctx = make_logic_var
  visit_data post (unify a b) ctx = unify (visit post a false) (visit post b false)
  visit_data post (deref_logic_var lvar) ctx = deref_logic_var (visit post lvar false)
  visit_data post trail_mark ctx = trail_mark
  visit_data post (unwind_trail mark) ctx = unwind_trail (visit post mark false)
  -- No case of the walk names `CopyTerm`, so its child is left alone.
  visit_data post (copy_term term) ctx = copy_term term
