-- ===== src/Linker/Link/Origins.antt =====
-- Every name that a linked module imports comes from the module that its origin names.
use eta.Prelude.{
  ◌≡◌, ◌⊎◌, refl, ap, ◌∙◌, Bool, true, false, ◌||◌, Bool-cases, Option-cases, inl, inr,
  if◌then◌else◌, List, [], ◌∷◌, map, some, none, arith, Text, text_eq, text_eq_iff, contains,
  contains-first, contains-later, differs, lookup_text,
}
use eta.Linker.{ImportOrigin, linked, ModuleTable, ImportSpec, insert}
use eta.Linker.Imports.{contains-insert}
use eta.Linker.Link.{Modules, origin_of, import_from, import_all, insert_all, replace_table}
use eta.Linker.Link.Commit.{
  has_origin, Filling, SameModule-refl, Fills, Fills->>=, import_from-Fills,
}

-- The origin's module has been linked, exports the name, and does not itself import it.
pub record Canonical (ms : Modules) (linked_ : List Text) (o : ImportOrigin) : Type 0 where
  pub is_linked : contains o.from_module linked_ ≡ true
  pub source : ModuleTable
  pub found : lookup_text o.from_module ms ≡ some source
  pub exported : contains o.remote_name source.exports ≡ true
  pub own : lookup_text o.remote_name source.import_origins ≡ none

pub record IsLinked (ms : Modules) (linked_ : List Text) (t : ModuleTable) : Type 0 where
  pub state : t.state ≡ linked
  pub visible :
      (l : Text)
      → contains l t.visible ≡ (contains l t.defined || has_origin (lookup_text l t.import_origins))
  pub origins :
      (l : Text) (o : ImportOrigin)
      → lookup_text l t.import_origins ≡ some o
      → (contains l t.defined ≡ false) × Canonical ms linked_ o

pub record IsIndexed (t : ModuleTable) : Type 0 where
  pub visible : t.visible ≡ []
  pub import_origins : t.import_origins ≡ []

-- The tables when the modules of a list have been linked.
pub record Tables (linked_ : List Text) (ms : Modules) : Type 0 where
  pub named : (n : Text) (t : ModuleTable) → lookup_text n ms ≡ some t → t.name ≡ n
  pub after :
      (n : Text) (t : ModuleTable)
      → lookup_text n ms ≡ some t
      → contains n linked_ ≡ true
      → IsLinked ms linked_ t
  pub before :
      (n : Text) (t : ModuleTable)
      → lookup_text n ms ≡ some t
      → contains n linked_ ≡ false
      → IsIndexed t

pub lookup-replace_table :
    (l n : Text) (t u : ModuleTable) (ms : Modules)
    → lookup_text n ms ≡ some u
    → lookup_text l (replace_table n t ms) ≡ (if text_eq n l then some t else lookup_text l ms)
unfolding replace_table
lookup-replace_table l n t u [] h = cc
lookup-replace_table l n t u ((k, v) ∷ ms) h = elim (Bool-cases (text_eq k n)) [
  | inl e ↦ ground (arith, e, text_eq_iff k n, text_eq_iff k l, text_eq_iff n l)
  | inr e ↦
      let ih = lookup-replace_table l n t u ms (rw e at h) in
      ground (arith, e, ih, text_eq_iff k n, text_eq_iff k l, text_eq_iff n l)
]

pub contains-insert_all :
    (l : Text) (ds visible : List Text)
    → contains l (insert_all ds visible) ≡ (contains l ds || contains l visible)
contains-insert_all l [] visible = refl
contains-insert_all l (d ∷ ds) visible =
    rw (contains-insert_all l ds (insert d visible), contains-insert l d visible)
      (swap (contains l ds) (text_eq d l) (contains l visible))
  where
    swap : (a b c : Bool) → (a || (b || c)) ≡ ((b || a) || c)
    swap a b c = ground arith

module _ (linked_ : List Text) (ms : Modules) (tables : Tables linked_ ms) where
  origin_of-Canonical :
      (n : Text) (src : ModuleTable)
      → lookup_text n ms ≡ some src
      → contains n linked_ ≡ true
      → (r : Text) → contains r src.exports ≡ true
      → Canonical ms linked_ (origin_of src r)
  origin_of-Canonical n src h l r x = elim (Option-cases (lookup_text r src.import_origins)) [
    | inl e ↦ rw e (record {
      is_linked = ap (λ m. contains m linked_) (tables.named n src h) ∙ l;
      source = src;
      found = ap (λ m. lookup_text m ms) (tables.named n src h) ∙ h;
      exported = x;
      own = e;
    })
    | inr (o, e) ↦ rw e (((tables.after n src h l).origins r o e).1)
  ]

  pub import_all-Fills :
      (specs : List ImportSpec) (t : ModuleTable)
      → Filling (Canonical ms linked_) t
      → ((b : Text)
          → contains b (map (λ spec. spec.module_) specs) ≡ true
          → contains b linked_ ≡ true)
      → Fills (Canonical ms linked_) t (import_all ms specs t)
  unfolding import_all import_from
  import_all-Fills [] t f h = (f, SameModule-refl t)
  import_all-Fills (spec ∷ specs) t f h =
      Fills->>= (Canonical ms linked_) t (import_from spec t (lookup_text spec.module_ ms))
        (import_all ms specs) (one (Option-cases (lookup_text spec.module_ ms)))
        (λ t' f'. import_all-Fills specs t' f' (λ b k. h b (contains-later b spec.module_ _ k)))
    where
      one :
          (lookup_text spec.module_ ms ≡ none)
            ⊎ ((src : ModuleTable) × (lookup_text spec.module_ ms ≡ some src))
          → Fills (Canonical ms linked_) t (import_from spec t (lookup_text spec.module_ ms))
      one (inl e) = rw e tt
      one (inr (src, e)) = rw e (
          import_from-Fills (Canonical ms linked_) src
            (origin_of-Canonical spec.module_ src e
              (h spec.module_ (contains-first spec.module_ _)))
            spec t f)

pub Canonical-later :
    (linked_ : List Text) (ms ms' : Modules) (n : Text)
    → contains n linked_ ≡ false
    → ((m : Text) → text_eq n m ≡ false → lookup_text m ms' ≡ lookup_text m ms)
    → (o : ImportOrigin) → Canonical ms linked_ o
    → Canonical ms' (n ∷ linked_) o
Canonical-later linked_ ms ms' n h same o c = record {
  is_linked = contains-later o.from_module n linked_ c.is_linked;
  source = c.source;
  found = same o.from_module (differs n o.from_module linked_ h c.is_linked) ∙ c.found;
  exported = c.exported;
  own = c.own;
}
