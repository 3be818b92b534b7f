-- ===== src/Linker/Link/Imported.antt =====
-- Nothing that a clause selects is forgotten.
use eta.Prelude.{
  ◌≡◌, refl, sym, ◌∙◌, ap, true, false, Bool-cases, inl, inr, List, [], ◌∷◌, map, All, Option, some,
  none, arith, Text, text_eq, text_eq_iff, text_eq_self, contains, contains-first, contains-later,
  differs, lookup_text,
}
use eta.Linker.{ImportOrigin, ModuleTable, ImportSpec, Pending, Names, import_names}
use eta.Linker.Gives.{Gives, Gives->>=, Gives-map}
use eta.Linker.Imports.{lookup-emplace}
use eta.Linker.Imports.Select.{Selected, selects, import_names_lem}
use eta.Linker.Order.{imported_modules}
use eta.Linker.Order.Visits.{Ordered}
use eta.Linker.Order.Acyclic.{imports-in}
use eta.Linker.Link.Origins.{lookup-replace_table}
use eta.Linker.Link.Steps.{specs-modules}
use eta.Linker.Link.{
  Modules, origin_of, same_origin, add_origin, commit_name, commit, import_from, import_all, finish,
  specs_of, link_table, link_each,
}

abbrev Kept : ModuleTable → ModuleTable → Type 0
Kept t t' =
    (l : Text) (o : ImportOrigin)
    → lookup_text l t.import_origins ≡ some o
    → lookup_text l t'.import_origins ≡ some o

-- Each name that the clause selects is in the table, with its origin.
pub record Imported (ms : Modules) (t : ModuleTable) (spec : ImportSpec) : Type 0 where
  pub source : ModuleTable
  pub found : lookup_text spec.module_ ms ≡ some source
  pub selected :
      (l r : Text)
      → selects source.exports spec spec.kind l ≡ some r
      → lookup_text l t.import_origins ≡ some (origin_of source r)

same_origin-lem : (a b : ImportOrigin) → same_origin a b ≡ true → a ≡ b
same_origin-lem a b h =
    let p : a.from_module ≡ b.from_module =
      ground (arith, h, text_eq_iff a.from_module b.from_module) in
    let q : a.remote_name ≡ b.remote_name =
      ground (arith, h, text_eq_iff a.remote_name b.remote_name) in
    λ i. record { from_module = p i; remote_name = q i }

add_origin-Kept :
    (t : ModuleTable) (l : Text) (origin : ImportOrigin) (o : Option ImportOrigin)
    → lookup_text l t.import_origins ≡ o
    → Gives
        (λ t'. Kept t t' × (lookup_text l t'.import_origins ≡ some origin))
        (add_origin t l origin o)
unfolding add_origin
add_origin-Kept t l origin none e = (
  λ k o h.
      rw (lookup-emplace k l origin t.import_origins e) (ground (arith, h, e, text_eq_iff l k)),
  rw (lookup-emplace l l origin t.import_origins e, text_eq_self l) refl,
)
add_origin-Kept t l origin (some prev) e = elim (Bool-cases (same_origin prev origin)) [
  | inl p ↦ rw p ((λ k o h. h), e ∙ ap some (same_origin-lem prev origin p))
  | inr p ↦ rw p tt
]

module _ (src : ModuleTable) where
  commit_name-Kept :
      (t : ModuleTable) (l r : Text)
      → Gives
          (λ t'. Kept t t' × (lookup_text l t'.import_origins ≡ some (origin_of src r)))
          (commit_name src t l r)
  unfolding commit_name
  commit_name-Kept t l r = elim (Bool-cases (contains l t.defined)) [
    | inl d ↦ rw d tt
    | inr d ↦ rw d (add_origin-Kept t l (origin_of src r) _ refl)
  ]

  commit-Kept :
      (m : Names) (t : ModuleTable)
      → Gives
          (λ t'.
            Kept t t'
            × ((l r : Text)
                → lookup_text l m ≡ some r
                → lookup_text l t'.import_origins ≡ some (origin_of src r)))
          (commit src m t)
  unfolding commit
  commit-Kept [] t = (λ l o h. h, λ l r h. cc)
  commit-Kept ((k, s) ∷ m) t =
      Gives->>= _ _ (commit_name src t k s) (commit src m) (commit_name-Kept t k s) λ u h.
        Gives-map _ _ (commit src m u) (commit-Kept m u) λ t' g. (
          λ l o e. g.0 l o (h.0 l o e),
          λ l r e. elim (Bool-cases (text_eq k l)) [
            | inl p ↦
                let same : s ≡ r = cc (rw p at e) in
                rw (sym ((text_eq_iff k l).0 p), sym same) (g.0 k (origin_of src s) h.1)
            | inr p ↦ g.1 l r (rw p at e)
          ],
        )

  import_from-Kept :
      (spec : ImportSpec) (t : ModuleTable)
      → Gives
          (λ t'.
            Kept t t'
            × ((l r : Text)
                → selects src.exports spec spec.kind l ≡ some r
                → lookup_text l t'.import_origins ≡ some (origin_of src r)))
          (import_from spec t (some src))
  unfolding import_from
  import_from-Kept spec t =
      Gives->>= (Selected (selects src.exports spec spec.kind)) _ (import_names src.exports spec) _
        (import_names_lem src.exports spec)
        λ m h.
          Gives-map _ _ (commit src m t) (commit-Kept m t) λ t' g. (g.0, λ l r e. g.1 l r (h l ∙ e))

Imported-Kept :
    (ms : Modules) (t t' : ModuleTable) (spec : ImportSpec)
    → Kept t t'
    → Imported ms t spec
    → Imported ms t' spec
Imported-Kept ms t t' spec k i = record {
  source = i.source;
  found = i.found;
  selected = λ l r e. k l (origin_of i.source r) (i.selected l r e);
}

import_one-Imported :
    (ms : Modules) (spec : ImportSpec) (t : ModuleTable) (o : Option ModuleTable)
    → lookup_text spec.module_ ms ≡ o
    → Gives (λ t'. Kept t t' × Imported ms t' spec) (import_from spec t o)
unfolding import_from
import_one-Imported ms spec t none e = tt
import_one-Imported ms spec t (some src) e =
    Gives-map _ _ (import_from spec t (some src)) (import_from-Kept src spec t)
      λ t' g. (g.0, record { source = src; found = e; selected = g.1 })

import_all-Imported :
    (ms : Modules) (specs : List ImportSpec) (t : ModuleTable)
    → Gives (λ t'. Kept t t' × All (Imported ms t') specs) (import_all ms specs t)
unfolding import_all
import_all-Imported ms [] t = (λ l o h. h, tt)
import_all-Imported ms (spec ∷ specs) t =
    Gives->>= _ _ (import_from spec t (lookup_text spec.module_ ms)) (import_all ms specs)
      (import_one-Imported ms spec t (lookup_text spec.module_ ms) refl)
      λ u h.
        Gives-map _ _ (import_all ms specs u) (import_all-Imported ms specs u)
          λ t' g. (λ l o e. g.0 l o (h.0 l o e), (Imported-Kept ms u t' spec g.0 h.1, g.1))

Imported-later :
    (ms ms' : Modules) (t : ModuleTable) (specs : List ImportSpec)
    → ((b : Text)
        → contains b (map (λ spec. spec.module_) specs) ≡ true
        → lookup_text b ms' ≡ lookup_text b ms)
    → All (Imported ms t) specs
    → All (Imported ms' t) specs
Imported-later ms ms' t [] same h = tt
Imported-later ms ms' t (spec ∷ specs) same (i, h) = (
  record {
    source = i.source;
    found = same spec.module_ (contains-first spec.module_ _) ∙ i.found;
    selected = i.selected;
  },
  Imported-later ms ms' t specs (λ b k. same b (contains-later b spec.module_ _ k)) h,
)

module _ (pending : Pending) where
  abbrev pub clauses : Text → List ImportSpec
  clauses n = specs_of (lookup_text n pending)

  -- The clauses of the linked modules are honoured.
  abbrev pub Honoured : List Text → Modules → Type 0
  Honoured linked_ ms =
      (n : Text) (t : ModuleTable)
      → contains n linked_ ≡ true
      → lookup_text n ms ≡ some t
      → All (Imported ms t) (clauses n)

  -- Linking a module changes no other table, and honours its clauses.
  abbrev Step : Text → Modules → Modules → Type 0
  Step n ms ms' =
      ((m : Text) → text_eq n m ≡ false → lookup_text m ms' ≡ lookup_text m ms)
      × ((t : ModuleTable) → lookup_text n ms' ≡ some t → All (Imported ms t) (clauses n))

  link_table-Step :
      (n : Text) (ms : Modules) (o : Option ModuleTable)
      → lookup_text n ms ≡ o
      → Gives (Step n ms) (link_table pending ms n o)
  unfolding link_table
  link_table-Step n ms none e = (λ m p. refl, λ t h. cc (e, h))
  link_table-Step n ms (some tgt) e =
      Gives->>= _ (Step n ms) (import_all ms (clauses n) tgt) _
        (import_all-Imported ms (clauses n) tgt)
        λ t g. (
          λ m p. rw (lookup-replace_table m n (finish t) tgt ms e, p) refl,
          λ u h.
              let h' = rw (lookup-replace_table n n (finish t) tgt ms e, text_eq_self n) at h in
              let same : finish t ≡ u = cc h' in rw (sym same) (finished t (clauses n) g.1),
        )
    where
      finished :
          (t : ModuleTable) (specs : List ImportSpec)
          → All (Imported ms t) specs
          → All (Imported ms (finish t)) specs
      finished t [] h = tt
      finished t (spec ∷ specs) (i, h) =
          (record { source = i.source; found = i.found; selected = i.selected }, finished t specs h)

  Honoured-later :
      (n : Text) (linked_ : List Text) (ms ms' : Modules)
      → contains n linked_ ≡ false
      → ((b : Text) → contains b (imported_modules pending n) ≡ true → contains b linked_ ≡ true)
      → Ordered (imported_modules pending) linked_
      → Honoured linked_ ms
      → Step n ms ms'
      → Honoured (n ∷ linked_) ms'
  Honoured-later n linked_ ms ms' out imp o h (same, mine) m t k e =
      elim (Bool-cases (text_eq n m)) [
        | inl p ↦
            let q = (text_eq_iff n m).0 p in
            rw q at (
              Imported-later ms ms' t (clauses n)
                (λ b i. same b (
                  differs n b linked_ out
                    (imp b (rw (specs-modules (lookup_text n pending)) at i))))
                (mine t (ap (λ x. lookup_text x ms') q ∙ e)))
        | inr p ↦
            let inside : contains m linked_ ≡ true = rw p at k in
            Imported-later ms ms' t (clauses m)
              (λ b i. same b (
                differs n b linked_ out (
                  imports-in (imported_modules pending) m b linked_ o inside
                    (rw (specs-modules (lookup_text m pending)) at i))))
              (h m t inside (sym (same m p) ∙ e))
      ]

  pub link_each-Honoured :
      (modules : Modules) (order : List Text)
      → Ordered (imported_modules pending) order
      → Gives (Honoured order) (link_each pending modules order)
  unfolding link_each
  link_each-Honoured modules [] o = λ n t k e. cc
  link_each-Honoured modules (n ∷ earlier) (out, imp, o) =
      Gives->>= (Honoured earlier) _ (link_each pending modules earlier) _
        (link_each-Honoured modules earlier o)
        λ ms h.
          Gives-map (Step n ms) _ (link_table pending ms n (lookup_text n ms))
            (link_table-Step n ms (lookup_text n ms) refl)
            λ ms' s. Honoured-later n earlier ms ms' out imp o h s
