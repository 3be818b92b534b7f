-- ===== src/Linker/Link/Commit.antt =====
-- What committing an import does to the table of a module. `known` says which origins are good ones.
use eta.Prelude.{
  ◌≡◌, refl, ◌∙◌, Bool, true, false, Bool-cases, inl, inr, ◌||◌, if◌then◌else◌, [], ◌∷◌, Option,
  some, none, Text, text_eq, text_eq_iff, contains, lookup_text,
}
use eta.Linker.{
  LinkResult, ok, unexpected, stuck, ◌>>=◌, ImportOrigin, ModuleTable, ImportSpec, Names,
  import_names,
}
use eta.Linker.Imports.{
  lookup-emplace, contains-insert, FromExports, NamesExported, import_names-NamesExported,
}
use eta.Linker.Link.{origin_of, same_origin, add_origin, commit_name, commit, import_from}

abbrev pub has_origin : Option ImportOrigin → Bool
has_origin none = false
has_origin (some o) = true

-- What an import leaves alone.
pub record SameModule (t t' : ModuleTable) : Type 0 where
  pub name : t'.name ≡ t.name
  pub defined : t'.defined ≡ t.defined
  pub exports : t'.exports ≡ t.exports
  pub export_spans : t'.export_spans ≡ t.export_spans

pub SameModule-refl : (t : ModuleTable) → SameModule t t
SameModule-refl t = record { name = refl; defined = refl; exports = refl; export_spans = refl }

pub SameModule-trans : {t u v : ModuleTable} → SameModule t u → SameModule u v → SameModule t v
SameModule-trans a b = record {
  name = b.name ∙ a.name;
  defined = b.defined ∙ a.defined;
  exports = b.exports ∙ a.exports;
  export_spans = b.export_spans ∙ a.export_spans;
}

module _ (IsGood : ImportOrigin → Type 0) where
  -- A table while its imports are read.
  pub record Filling (t : ModuleTable) : Type 0 where
    pub origins :
        (l : Text) (o : ImportOrigin)
        → lookup_text l t.import_origins ≡ some o
        → (contains l t.defined ≡ false) × IsGood o
    pub visible : (l : Text) → contains l t.visible ≡ has_origin (lookup_text l t.import_origins)

  abbrev pub Fills : ModuleTable → LinkResult ModuleTable → Type 0
  Fills t (ok t') = Filling t' × SameModule t t'
  Fills t (unexpected e) = Unit
  Fills t stuck = ⊥

  pub Fills->>= :
      (t : ModuleTable) (r : LinkResult ModuleTable) (f : ModuleTable → LinkResult ModuleTable)
      → Fills t r
      → ((t' : ModuleTable) → Filling t' → Fills t' (f t'))
      → Fills t (r >>= f)
  Fills->>= t (ok t') f h k = then_ (f t') h.1 (k t' h.0)
    where
      then_ : (r : LinkResult ModuleTable) → SameModule t t' → Fills t' r → Fills t r
      then_ (ok u) same w = (w.0, SameModule-trans same w.1)
      then_ (unexpected e) same w = tt
      then_ stuck same w = w
  Fills->>= t (unexpected e) f h k = tt
  Fills->>= t stuck f h k = h

  either :
      (b : Bool) (origin : ImportOrigin) (o : Option ImportOrigin)
      → (b || has_origin o) ≡ has_origin (if b then some origin else o)
  either true origin o = refl
  either false origin o = refl

  add_origin-Fills :
      (t : ModuleTable) (l : Text) (origin : ImportOrigin) (o : Option ImportOrigin)
      → Filling t
      → contains l t.defined ≡ false
      → IsGood origin
      → lookup_text l t.import_origins ≡ o
      → Fills t (add_origin t l origin o)
  unfolding add_origin
  add_origin-Fills t l origin none f d g e = (
    record {
      origins = λ k o h.
          let h' = rw (lookup-emplace k l origin t.import_origins e) at h in
          elim (Bool-cases (text_eq l k)) [
            | inl p ↦
                let same : origin ≡ o = cc (rw p at h') in
                (rw ((text_eq_iff l k).0 p) at d, rw same at g)
            | inr p ↦ f.origins k o (rw p at h')
          ];
      visible = λ k.
          rw
            (
              contains-insert k l t.visible,
              f.visible k,
              lookup-emplace k l origin t.import_origins e,
            )
            (either (text_eq l k) origin (lookup_text k t.import_origins));
    },
    record { name = refl; defined = refl; exports = refl; export_spans = refl },
  )
  add_origin-Fills t l origin (some prev) f d g e = elim (Bool-cases (same_origin prev origin)) [
    | inl p ↦ rw p (f, SameModule-refl t)
    | inr p ↦ rw p tt
  ]

  module _ (src : ModuleTable)
      (good : (r : Text) → contains r src.exports ≡ true → IsGood (origin_of src r)) where
    commit_name-Fills :
        (t : ModuleTable) (l r : Text)
        → Filling t
        → contains r src.exports ≡ true
        → Fills t (commit_name src t l r)
    unfolding commit_name
    commit_name-Fills t l r f h = elim (Bool-cases (contains l t.defined)) [
      | inl d ↦ rw d tt
      | inr d ↦ rw d (add_origin-Fills t l (origin_of src r) _ f d (good r h) refl)
    ]

    pub commit-Fills :
        (m : Names) (t : ModuleTable)
        → Filling t
        → FromExports src.exports m
        → Fills t (commit src m t)
    unfolding commit
    commit-Fills [] t f h = (f, SameModule-refl t)
    commit-Fills ((l, r) ∷ m) t f h =
        Fills->>= t (commit_name src t l r) (commit src m) (commit_name-Fills t l r f h.0)
          (λ t' f'. commit-Fills m t' f' h.1)

    committed :
        (r : LinkResult Names) (t : ModuleTable)
        → Filling t
        → NamesExported src.exports r
        → Fills t (r >>= λ m. commit src m t)
    committed (ok m) t f h = commit-Fills m t f h
    committed (unexpected e) t f h = tt
    committed stuck t f h = h

    pub import_from-Fills :
        (spec : ImportSpec) (t : ModuleTable) → Filling t → Fills t (import_from spec t (some src))
    unfolding import_from
    import_from-Fills spec t f =
        committed (import_names src.exports spec) t f (import_names-NamesExported src.exports spec)
