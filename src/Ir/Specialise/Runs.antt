-- ===== src/Ir/Specialise/Runs.antt =====
-- What primitive_specialisation.h lowers runs as it did before.
use eta.Prelude.{
  ℕ, ◌≡◌, refl, sym, ap, ◌∙◌, Bool, true, false, List, [], ◌∷◌, ◌++◌, ◌⊎◌, inl, inr, Bool-cases,
  some, Option-cases, arith,
}
use eta.Ir.{Address, PrimitiveKind, Node, Nodes, Span, visit}
use eta.Ir.Bindings.{BindingInfo, is_global}
use eta.Ir.Callee.{callee_global, callee_global-denote}
use eta.Ir.Node.{node}
use eta.Ir.Nodes.{none_left, more}
use eta.Ir.NodeData.{
  variable, constant, quote_, if_, begin, set_, lambda, call, primitive_call, dynamic_wind, values,
  call_with_values, call_cc, apply, raise, guard, make_logic_var, unify, deref_logic_var,
  trail_mark, unwind_trail, copy_term,
}
use eta.Ir.Meaning.{Meaning, Den, Keeps, denote, denote_all, denote_data, denote-visit, push}
use eta.Ir.Specialise.{
  SlotMap, Specialiser, find, emplace, unary_primitive_from_name, binary_primitive_from_name,
  index_binding, index_builtin_primitive_slots, specialiser, primitive_map_for_arity, lower_call,
  post_visit,
}

-- Calling what the global `id` holds with one argument, or two, is running the primitive.
abbrev pub RunsUnary : {D : Type 0} → Meaning D → ℕ → PrimitiveKind → Type 0
RunsUnary m id k =
    (a : Den m)
    → m.run_call (push (m.read (Address.global id))) (a ∷ []) ≡ m.run_primitive k (a ∷ [])

abbrev pub RunsBinary : {D : Type 0} → Meaning D → ℕ → PrimitiveKind → Type 0
RunsBinary m id k =
    (a b : Den m)
    → m.run_call (push (m.read (Address.global id))) (a ∷ b ∷ []) ≡ m.run_primitive k (a ∷ b ∷ [])

-- A binding that is global, never assigned and named for a builtin holds that builtin.
abbrev pub HoldsBuiltin : {D : Type 0} → Meaning D → BindingInfo → Type 0
HoldsBuiltin m b =
    is_global b ≡ true
    → b.mutable_flag ≡ false
    → ((k : PrimitiveKind) → unary_primitive_from_name b.name ≡ some k → RunsUnary m b.slot k)
      × ((k : PrimitiveKind) → binary_primitive_from_name b.name ≡ some k → RunsBinary m b.slot k)

abbrev pub AllHoldBuiltins : {D : Type 0} → Meaning D → List BindingInfo → Type 0
AllHoldBuiltins m [] = Unit
AllHoldBuiltins m (b ∷ bs) = HoldsBuiltin m b × AllHoldBuiltins m bs

-- Every entry of the two maps is a primitive of its slot.
record IsSound {D : Type 0} (m : Meaning D) (x : Specialiser) : Type 0 where
  unary : (id : ℕ) (k : PrimitiveKind) → find id x.unary_primitive_slots ≡ some k → RunsUnary m id k
  binary :
      (id : ℕ) (k : PrimitiveKind) → find id x.binary_primitive_slots ≡ some k → RunsBinary m id k

find-append :
    (id s : ℕ) (k q : PrimitiveKind) (x : SlotMap)
    → find id (x ++ record { slot = s; kind = k } ∷ []) ≡ some q
    → (find id x ≡ some q) ⊎ ((s ≡ id) × (k ≡ q))
unfolding find
find-append id s k q [] h = ground arith
find-append id s k q (e ∷ es) h = ground (arith, find-append id s k q es)

emplace-append :
    (s : ℕ) (k : PrimitiveKind) (x : SlotMap)
    → (emplace s k x ≡ x) ⊎ (emplace s k x ≡ x ++ record { slot = s; kind = k } ∷ [])
unfolding emplace
emplace-append s k x = elim (Option-cases (find s x)) [
  | inl e ↦ inr (rw (e, emplace) refl)
  | inr p ↦ inl (rw (p.1, emplace) refl)
]

find-emplace :
    (id s : ℕ) (k q : PrimitiveKind) (x : SlotMap)
    → find id (emplace s k x) ≡ some q
    → (find id x ≡ some q) ⊎ ((s ≡ id) × (k ≡ q))
find-emplace id s k q x h = elim (emplace-append s k x) [
  | inl same ↦ inl (ap (find id) (sym same) ∙ h)
  | inr grown ↦ find-append id s k q x (ap (find id) (sym grown) ∙ h)
]

emplace-unary :
    {D : Type 0} (m : Meaning D) (s : ℕ) (k : PrimitiveKind) (x : SlotMap)
    → ((id : ℕ) (q : PrimitiveKind) → find id x ≡ some q → RunsUnary m id q)
    → RunsUnary m s k
    → (id : ℕ) (q : PrimitiveKind) → find id (emplace s k x) ≡ some q
    → RunsUnary m id q
emplace-unary m s k x old new id q h a = elim (find-emplace id s k q x h) [
  | inl found ↦ old id q found a
  | inr (at, kind) ↦
      ap (λ i. m.run_call (push (m.read (Address.global i))) (a ∷ [])) (sym at)
      ∙ new a
      ∙ ap (λ p. m.run_primitive p (a ∷ [])) kind
]

emplace-binary :
    {D : Type 0} (m : Meaning D) (s : ℕ) (k : PrimitiveKind) (x : SlotMap)
    → ((id : ℕ) (q : PrimitiveKind) → find id x ≡ some q → RunsBinary m id q)
    → RunsBinary m s k
    → (id : ℕ) (q : PrimitiveKind) → find id (emplace s k x) ≡ some q
    → RunsBinary m id q
emplace-binary m s k x old new id q h a b = elim (find-emplace id s k q x h) [
  | inl found ↦ old id q found a b
  | inr (at, kind) ↦
      ap (λ i. m.run_call (push (m.read (Address.global i))) (a ∷ b ∷ [])) (sym at)
      ∙ new a b
      ∙ ap (λ p. m.run_primitive p (a ∷ b ∷ [])) kind
]

index_binding-IsSound :
    {D : Type 0} (m : Meaning D) (b : BindingInfo) (x : Specialiser)
    → HoldsBuiltin m b
    → IsSound m x
    → IsSound m (index_binding b x)
unfolding index_binding
index_binding-IsSound m b x holds sound = elim (Bool-cases (is_global b)) [
  | inr other ↦ rw other sound
  | inl global ↦ elim (Bool-cases b.mutable_flag) [
    | inl assigned ↦ rw (global, assigned) sound
    | inr fixed ↦ elim (Option-cases (unary_primitive_from_name b.name)) [
      | inr (k, e) ↦
          rw (global, fixed, e)
            (record {
              unary =
                  emplace-unary m b.slot k x.unary_primitive_slots sound.unary
                    ((holds global fixed).0 k e);
              binary = sound.binary;
            })
      | inl no_unary ↦ elim (Option-cases (binary_primitive_from_name b.name)) [
        | inl no_binary ↦ rw (global, fixed, no_unary, no_binary) sound
        | inr (k, e) ↦
            rw (global, fixed, no_unary, e)
              (record {
                unary = sound.unary;
                binary =
                    emplace-binary m b.slot k x.binary_primitive_slots sound.binary
                      ((holds global fixed).1 k e);
              })
      ]
    ]
  ]
]

index-IsSound :
    {D : Type 0} (m : Meaning D) (bs : List BindingInfo) (x : Specialiser)
    → AllHoldBuiltins m bs
    → IsSound m x
    → IsSound m (index_builtin_primitive_slots bs x)
unfolding index_builtin_primitive_slots
index-IsSound m [] x holds sound = sound
index-IsSound m (b ∷ bs) x holds sound =
    index-IsSound m bs (index_binding b x) holds.1 (index_binding-IsSound m b x holds.0 sound)

specialiser-IsSound :
    {D : Type 0} (m : Meaning D) (bs : List BindingInfo)
    → AllHoldBuiltins m bs
    → IsSound m (specialiser bs)
unfolding specialiser find
specialiser-IsSound m bs holds =
    index-IsSound m bs (record { unary_primitive_slots = []; binary_primitive_slots = [] }) holds
      (record { unary = λ id k h. absurd cc; binary = λ id k h. absurd cc })

lower_call-denote :
    {D : Type 0} (m : Meaning D) (x : Specialiser) (n : Node D) (id : ℕ) (args : Nodes D) (s : Span)
    → IsSound m x
    → denote m n ≡ m.run_call (push (m.read (Address.global id))) (denote_all m args)
    → denote m (lower_call x n id args s) ≡ denote m n
unfolding lower_call denote denote_all denote_data primitive_map_for_arity
lower_call-denote m x n id none_left s sound runs = refl
lower_call-denote m x n id (more a none_left) s sound runs =
    elim (Option-cases (find id x.unary_primitive_slots)) [
      | inl missing ↦ rw (missing, lower_call) refl
      | inr (k, found) ↦
          rw (found, lower_call) (sym (sound.unary id k found (denote m a)) ∙ sym runs)
    ]
lower_call-denote m x n id (more a (more b none_left)) s sound runs =
    elim (Option-cases (find id x.binary_primitive_slots)) [
      | inl missing ↦ rw (missing, lower_call) refl
      | inr (k, found) ↦
          rw (found, lower_call)
            (sym (sound.binary id k found (denote m a) (denote m b)) ∙ sym runs)
    ]
lower_call-denote m x n id (more a (more b (more c ns))) s sound runs = refl

post_visit-Keeps :
    {D : Type 0} (m : Meaning D) (x : Specialiser) → IsSound m x → Keeps m (post_visit x)
unfolding post_visit denote denote_data
post_visit-Keeps m x sound (node (variable a) s t) ctx = refl
post_visit-Keeps m x sound (node (constant l) s t) ctx = refl
post_visit-Keeps m x sound (node (quote_ q) s t) ctx = refl
post_visit-Keeps m x sound (node (if_ a b c) s t) ctx = refl
post_visit-Keeps m x sound (node (begin ns) s t) ctx = refl
post_visit-Keeps m x sound (node (set_ a b) s t) ctx = refl
post_visit-Keeps m x sound (node (lambda f b) s t) ctx = refl
post_visit-Keeps m x sound (node (call c ns) s t) ctx = elim (Option-cases (callee_global c)) [
  | inl other ↦ rw (other, post_visit) refl
  | inr (id, is_id) ↦
      rw (is_id, post_visit)
        (lower_call-denote m x (node (call c ns) s t) id ns s sound
          (ap (λ d. m.run_call d (denote_all m ns)) (callee_global-denote m c id is_id)))
]
post_visit-Keeps m x sound (node (primitive_call k ns) s t) ctx = refl
post_visit-Keeps m x sound (node (dynamic_wind a b c) s t) ctx = refl
post_visit-Keeps m x sound (node (values ns) s t) ctx = refl
post_visit-Keeps m x sound (node (call_with_values a b) s t) ctx = refl
post_visit-Keeps m x sound (node (call_cc a) s t) ctx = refl
post_visit-Keeps m x sound (node (apply p ns) s t) ctx = refl
post_visit-Keeps m x sound (node (raise g a) s t) ctx = refl
post_visit-Keeps m x sound (node (guard g a) s t) ctx = refl
post_visit-Keeps m x sound (node make_logic_var s t) ctx = refl
post_visit-Keeps m x sound (node (unify a b) s t) ctx = refl
post_visit-Keeps m x sound (node (deref_logic_var a) s t) ctx = refl
post_visit-Keeps m x sound (node trail_mark s t) ctx = refl
post_visit-Keeps m x sound (node (unwind_trail a) s t) ctx = refl
post_visit-Keeps m x sound (node (copy_term a) s t) ctx = refl

-- If each global that is never assigned and named for a builtin holds that builtin, lowering calls
-- to primitives, everywhere in a tree, does not change what the tree does.
pub denote-specialise :
    {D : Type 0} (m : Meaning D) (bs : List BindingInfo) (n : Node D) (ctx : Bool)
    → AllHoldBuiltins m bs
    → denote m (visit (post_visit (specialiser bs)) n ctx) ≡ denote m n
denote-specialise m bs n ctx holds =
    denote-visit m (post_visit (specialiser bs))
      (post_visit-Keeps m (specialiser bs) (specialiser-IsSound m bs holds)) n ctx
