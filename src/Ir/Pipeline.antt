-- ===== src/Ir/Pipeline.antt =====
-- eta/core/src/eta/semantics/optimization_pipeline.h: passes in the order of registration.
use eta.Prelude.{ℕ, ◌==◌, Bool, ◌≡◌, refl, ◌∙◌, List, [], ◌∷◌, ◌++◌, map, length, false}
use mathlib.Core.Path.{ap₂}
use eta.Ir.{Node, visit}
use eta.Ir.Bindings.{BindingInfo, ModuleSemantics}
use eta.Ir.Meaning.{Meaning, Den, denote}
use eta.Ir.DeadCode
use eta.Ir.Specialise
use eta.Ir.Specialise.Runs.{AllHoldBuiltins, denote-specialise}

abbrev pub Pass : Type 0 → Type 0
Pass D = ModuleSemantics D → ModuleSemantics D

unfoldable pub add_pass : {D : Type 0} → List (Pass D) → Pass D → List (Pass D)
add_pass passes pass = passes ++ pass ∷ []

unfoldable pub run : {D : Type 0} → List (Pass D) → ModuleSemantics D → ModuleSemantics D
run [] m = m
run (pass ∷ passes) m = run passes (pass m)

unfoldable pub run_all :
    {D : Type 0} → List (Pass D) → List (ModuleSemantics D) → List (ModuleSemantics D)
run_all passes mods = map (run passes) mods

abbrev pub size : {D : Type 0} → List (Pass D) → ℕ
size passes = length passes

abbrev pub empty : {D : Type 0} → List (Pass D) → Bool
empty passes = length passes == 0

-- What the top-level expressions of a module do, in order.
abbrev pub denote_inits : {D : Type 0} (m : Meaning D) → ModuleSemantics D → List (Den m)
denote_inits m sem = map (denote m) sem.toplevel_inits

-- For modules with bindings `bs` the pass changes neither what the expressions do nor the bindings.
abbrev pub Preserves : {D : Type 0} → Meaning D → List BindingInfo → Pass D → Type 0
Preserves {D} m bs pass =
    (sem : ModuleSemantics D)
    → sem.bindings ≡ bs
    → (denote_inits m (pass sem) ≡ denote_inits m sem) × ((pass sem).bindings ≡ bs)

abbrev pub AllPreserve : {D : Type 0} → Meaning D → List BindingInfo → List (Pass D) → Type 0
AllPreserve m bs [] = Unit
AllPreserve m bs (pass ∷ passes) = Preserves m bs pass × AllPreserve m bs passes

map-denote :
    {D : Type 0} (m : Meaning D) (f : Node D → Node D) (ns : List (Node D))
    → ((n : Node D) → denote m (f n) ≡ denote m n)
    → map (denote m) (map f ns) ≡ map (denote m) ns
map-denote m f [] h = refl
map-denote m f (n ∷ ns) h = ap₂ ◌∷◌ (h n) (map-denote m f ns h)

-- Dead-code elimination changes nothing that the expressions of any module do.
pub DeadCode-Preserves :
    {D : Type 0} (m : Meaning D) (bs : List BindingInfo) → Preserves m bs DeadCode.run
unfolding DeadCode.run
DeadCode-Preserves m bs sem e = (
  map-denote m (λ n. visit DeadCode.post_visit n false) sem.toplevel_inits
      (λ n. DeadCode.denote-eliminate m n false),
  e,
)

pub Specialise-Preserves :
    {D : Type 0} (m : Meaning D) (bs : List BindingInfo)
    → AllHoldBuiltins m bs
    → Preserves m bs Specialise.run
unfolding Specialise.run
Specialise-Preserves m bs holds sem e = (
  map-denote m (λ n. visit (Specialise.post_visit (Specialise.specialiser sem.bindings)) n false)
      sem.toplevel_inits (λ n. denote-specialise m sem.bindings n false (rw e holds)),
  e,
)

-- A pipeline of passes that each preserve what a module does preserves it too, whatever the order
-- and number of the passes.
pub denote_inits-run :
    {D : Type 0} (m : Meaning D) (bs : List BindingInfo) (passes : List (Pass D))
    (sem : ModuleSemantics D)
    → AllPreserve m bs passes
    → sem.bindings ≡ bs
    → denote_inits m (run passes sem) ≡ denote_inits m sem
unfolding run
denote_inits-run m bs [] sem all e = refl
denote_inits-run m bs (pass ∷ passes) sem all e =
    let (same, kept) = all.0 sem e in denote_inits-run m bs passes (pass sem) all.1 kept ∙ same
