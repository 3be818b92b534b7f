-- ===== src/Linker/Link/Steps.antt =====
-- Linking a module, and all of them in order.
use eta.Prelude.{
  ◌≡◌, refl, sym, ap, ◌∙◌, true, false, Bool-cases, inl, inr, List, [], ◌∷◌, map, Option, some,
  none, arith, Text, text_eq, text_eq_iff, text_eq_self, contains, lookup_text,
}
use eta.Linker.{
  LinkResult, ok, unexpected, stuck, ◌>>=◌, ImportOrigin, ModuleTable, ImportSpec, Pending,
}
use eta.Linker.Gives.{Gives, Gives->>=}
use eta.Linker.Order.{imported_modules, modules_of}
use eta.Linker.Order.Visits.{Ordered}
use eta.Linker.Link.{Modules, import_all, finish, specs_of, replace_table, link_table, link_each}
use eta.Linker.Link.Commit.{Filling, SameModule, SameModule-refl, SameModule-trans, Fills}
use eta.Linker.Link.Origins.{
  Canonical, IsLinked, IsIndexed, Tables, lookup-replace_table, contains-insert_all,
  Canonical-later, import_all-Fills,
}

indexed-Filling :
    (IsGood : ImportOrigin → Type 0) (t : ModuleTable) → IsIndexed t → Filling IsGood t
indexed-Filling IsGood t h = record {
  origins = λ l o e. cc (rw h.import_origins at e);
  visible = λ l. rw (h.visible, h.import_origins) refl;
}

pub specs-modules :
    (o : Option (List ImportSpec)) → map (λ spec. spec.module_) (specs_of o) ≡ modules_of o
specs-modules none = refl
specs-modules (some specs) = refl

module _ (linked_ : List Text) (ms ms' : Modules) (n : Text) (h : contains n linked_ ≡ false)
    (same : (m : Text) → text_eq n m ≡ false → lookup_text m ms' ≡ lookup_text m ms) where
  IsLinked-later : (t : ModuleTable) → IsLinked ms linked_ t → IsLinked ms' (n ∷ linked_) t
  IsLinked-later t l = record {
    state = l.state;
    visible = l.visible;
    origins =
        λ k o e. let p = l.origins k o e in (p.0, Canonical-later linked_ ms ms' n h same o p.1);
  }

  finish-IsLinked :
      (t : ModuleTable) → Filling (Canonical ms linked_) t → IsLinked ms' (n ∷ linked_) (finish t)
  finish-IsLinked t f = record {
    state = refl;
    visible = λ l. rw (contains-insert_all l t.defined t.visible, f.visible l) refl;
    origins =
        λ k o e. let p = f.origins k o e in (p.0, Canonical-later linked_ ms ms' n h same o p.1);
  }

  -- Every other table stays, and the one of the name is as it should be.
  Tables-later :
      Tables linked_ ms
      → ((t : ModuleTable)
          → lookup_text n ms' ≡ some t
          → (t.name ≡ n) × IsLinked ms' (n ∷ linked_) t)
      → Tables (n ∷ linked_) ms'
  Tables-later tables mine = record {
    named = λ m t e. elim (Bool-cases (text_eq n m)) [
      | inl p ↦ let q = (text_eq_iff n m).0 p in (mine t (ap (λ x. lookup_text x ms') q ∙ e)).0 ∙ q
      | inr p ↦ tables.named m t (sym (same m p) ∙ e)
    ];
    after = λ m t e k. elim (Bool-cases (text_eq n m)) [
      | inl p ↦ (mine t (ap (λ x. lookup_text x ms') ((text_eq_iff n m).0 p) ∙ e)).1
      | inr p ↦ IsLinked-later t (tables.after m t (sym (same m p) ∙ e) (rw p at k))
    ];
    before = λ m t e k. elim (Bool-cases (text_eq n m)) [
      | inl p ↦ cc (rw p at k)
      | inr p ↦ tables.before m t (sym (same m p) ∙ e) (rw p at k)
    ];
  }

abbrev pub names_of : Modules → List Text
names_of ms = map (λ m. m.0) ms

names_of-replace_table :
    (n : Text) (t : ModuleTable) (ms : Modules) → names_of (replace_table n t ms) ≡ names_of ms
unfolding replace_table
names_of-replace_table n t [] = refl
names_of-replace_table n t ((k, u) ∷ ms) = elim (Bool-cases (text_eq k n)) [
  | inl e ↦ rw e refl
  | inr e ↦ rw (e, names_of-replace_table n t ms) refl
]

pub lookup-names_of :
    (n : Text) (t : ModuleTable) (ms : Modules)
    → lookup_text n ms ≡ some t
    → contains n (names_of ms) ≡ true
lookup-names_of n t [] h = cc
lookup-names_of n t ((k, u) ∷ ms) h = ground (arith, h, lookup-names_of n t ms)

-- Linking leaves the definitions and the exports of every module alone.
abbrev pub SameModules : Modules → Modules → Type 0
SameModules ms ms' =
    (n : Text) (t : ModuleTable)
    → lookup_text n ms ≡ some t
    → (u : ModuleTable) × (lookup_text n ms' ≡ some u) × SameModule t u

SameModules-refl : (ms : Modules) → SameModules ms ms
SameModules-refl ms n t e = (t, e, SameModule-refl t)

SameModules-trans : (a b c : Modules) → SameModules a b → SameModules b c → SameModules a c
SameModules-trans a b c h k n t e =
    let (u, e', s) = h n t e in let (v, e'', s') = k n u e' in (v, e'', SameModule-trans s s')

SameModules-replace :
    (n : Text) (tgt t : ModuleTable) (ms : Modules)
    → lookup_text n ms ≡ some tgt
    → SameModule tgt t
    → SameModules ms (replace_table n t ms)
SameModules-replace n tgt t ms e same m u h = elim (Bool-cases (text_eq n m)) [
  | inl p ↦
      let q = (text_eq_iff n m).0 p in
      let old : tgt ≡ u = cc (rw (sym q) at h, e) in
      (t, rw (lookup-replace_table m n t tgt ms e, p) refl, rw old at same)
  | inr p ↦ (u, rw (lookup-replace_table m n t tgt ms e, p) h, SameModule-refl u)
]

module _ (pending : Pending) (linked_ : List Text) (ms : Modules) (tables : Tables linked_ ms) where
  abbrev Next : Text → Modules → Type 0
  Next n ms' = Tables (n ∷ linked_) ms' × (names_of ms' ≡ names_of ms) × SameModules ms ms'

  module _ (n : Text) (h : contains n linked_ ≡ false) (tgt : ModuleTable)
      (e : lookup_text n ms ≡ some tgt) where
    replaced :
        (r : LinkResult ModuleTable)
        → Fills (Canonical ms linked_) tgt r
        → Gives (Next n) (r >>= λ t. ok (replace_table n (finish t) ms))
    replaced (ok t) (f, same) =
        let others : (m : Text)
            → text_eq n m ≡ false
            → lookup_text m (replace_table n (finish t) ms) ≡ lookup_text m ms =
          λ m p. rw (lookup-replace_table m n (finish t) tgt ms e, p) refl in
        (
          Tables-later linked_ ms (replace_table n (finish t) ms) n h others tables λ u k.
              let k' = rw (lookup-replace_table n n (finish t) tgt ms e, text_eq_self n) at k in
              let same_table : finish t ≡ u = cc k' in
              rw (sym same_table) (
                same.name ∙ tables.named n tgt e,
                finish-IsLinked linked_ ms (replace_table n (finish t) ms) n h others t f,
              ),
          names_of-replace_table n (finish t) ms,
          SameModules-replace n tgt (finish t) ms e (record {
            name = same.name;
            defined = same.defined;
            exports = same.exports;
            export_spans = same.export_spans;
          }),
        )
    replaced (unexpected x) f = tt
    replaced stuck f = f

  link_table-Next :
      (n : Text)
      → contains n linked_ ≡ false
      → ((b : Text) → contains b (imported_modules pending n) ≡ true → contains b linked_ ≡ true)
      → (o : Option ModuleTable) → lookup_text n ms ≡ o
      → Gives (Next n) (link_table pending ms n o)
  unfolding link_table
  link_table-Next n h imp none e = (
    Tables-later linked_ ms ms n h (λ m p. refl) tables (λ t e'. cc (e, e')),
    refl,
    SameModules-refl ms,
  )
  link_table-Next n h imp (some tgt) e =
      replaced n h tgt e (import_all ms (specs_of (lookup_text n pending)) tgt) (
        import_all-Fills linked_ ms tables (specs_of (lookup_text n pending)) tgt
          (indexed-Filling (Canonical ms linked_) tgt (tables.before n tgt e h))
          (λ b k. imp b (rw (specs-modules (lookup_text n pending)) at k)))

module _ (pending : Pending) (modules : Modules) (indexed : Tables [] modules) where
  abbrev pub Since : List Text → Modules → Type 0
  Since linked_ ms = Tables linked_ ms × (names_of ms ≡ names_of modules) × SameModules modules ms

  pub link_each-Since :
      (order : List Text)
      → Ordered (imported_modules pending) order
      → Gives (Since order) (link_each pending modules order)
  unfolding link_each
  link_each-Since [] o = (indexed, refl, SameModules-refl modules)
  link_each-Since (n ∷ earlier) (o, imp, os) =
      Gives->>= (Since earlier) (Since (n ∷ earlier)) (link_each pending modules earlier) _
        (link_each-Since earlier os)
        λ ms h.
          next ms h (link_table pending ms n (lookup_text n ms))
            (link_table-Next pending earlier ms h.0 n o imp (lookup_text n ms) refl)
    where
      next :
          (ms : Modules) (h : Since earlier ms) (r : LinkResult Modules)
          → Gives (Next pending earlier ms h.0 n) r
          → Gives (Since (n ∷ earlier)) r
      next ms h (ok ms') w = (w.0, w.1 ∙ h.1, SameModules-trans modules ms ms' h.2 w.2)
      next ms h (unexpected e) w = tt
      next ms h stuck w = w
