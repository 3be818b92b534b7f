-- ===== src/Linker/Imports.antt =====
-- What an import clause brings in.
pub mod Select
use eta.Prelude.{
  ◌≡◌, ◌⊎◌, refl, sym, Bool, ◌||◌, if◌then◌else◌, true, false, Bool-cases, Option-cases, inl, inr,
  List, [], ◌∷◌, ◌++◌, All, Option, some, none, arith, Text, text_eq, text_eq_iff, contains,
  contains-first, contains-later, lookup_text,
}
use eta.Linker.{
  LinkResult, ok, unexpected, stuck, ◌>>=◌, Kind, plain, only, except, rename, prefix_, ImportSpec,
  insert, emplace, erase, Names, all_exports, ensure_exported, keep_only, drop_all, ensure_renames,
  rename_to, rename_one, apply_renames, add_prefix, names_of_kind, import_names,
}

pub lookup-emplace :
    {A : Type 0} (l k : Text) (a : A) (m : List (Text × A))
    → lookup_text k m ≡ none
    → lookup_text l (emplace k a m) ≡ (if text_eq k l then some a else lookup_text l m)
unfolding emplace
lookup-emplace l k a m h = rw (emplace, h) refl

pub contains-insert :
    (l k : Text) (xs : List Text) → contains l (insert k xs) ≡ (text_eq k l || contains l xs)
contains-insert l k xs = elim (Bool-cases (contains k xs)) [
  | inl e ↦ rw e (inside (Bool-cases (text_eq k l)) e)
  | inr e ↦ rw e (at_end xs)
]
  where
    inside :
        (text_eq k l ≡ true) ⊎ (text_eq k l ≡ false)
        → contains k xs ≡ true
        → contains l xs ≡ (text_eq k l || contains l xs)
    inside (inl p) e = let q = (text_eq_iff k l).0 p in rw (p, sym q) e
    inside (inr p) e = rw p refl

    at_end : (ys : List Text) → contains l (ys ++ k ∷ []) ≡ (text_eq k l || contains l ys)
    at_end [] = refl
    at_end (y ∷ ys) = ground (arith, at_end ys)

module _ (exports : List Text) where
  -- Every name comes from one that is exported.
  abbrev pub FromExports : Names → Type 0
  FromExports = All (λ p. contains p.1 exports ≡ true)

  FromExports-emplace :
      (l r : Text) (m : Names)
      → contains r exports ≡ true
      → FromExports m
      → FromExports (emplace l r m)
  unfolding emplace
  FromExports-emplace l r m h f = elim (Option-cases (lookup_text l m)) [
    | inl e ↦ rw (emplace, e) (h, f)
    | inr (a, e) ↦ rw (emplace, e) f
  ]

  FromExports-erase : (l : Text) (m : Names) → FromExports m → FromExports (erase l m)
  unfolding erase
  FromExports-erase l [] f = tt
  FromExports-erase l ((k, r) ∷ m) f = elim (Bool-cases (text_eq k l)) [
    | inl e ↦ rw e (FromExports-erase l m f.1)
    | inr e ↦ rw e (f.0, FromExports-erase l m f.1)
  ]

  FromExports-lookup :
      (l r : Text) (m : Names)
      → FromExports m
      → lookup_text l m ≡ some r
      → contains r exports ≡ true
  FromExports-lookup l r [] f h = cc
  FromExports-lookup l r ((k, s) ∷ m) f h = ground (arith, f, FromExports-lookup l r m f.1, h)

  FromExports-of_each :
      (exs : List Text) → All (λ ex. contains ex exports ≡ true) exs → FromExports (all_exports exs)
  unfolding all_exports
  FromExports-of_each [] h = tt
  FromExports-of_each (ex ∷ exs) h =
      FromExports-emplace ex ex (all_exports exs) h.0 (FromExports-of_each exs h.1)

  FromExports-drop_all :
      (ids : List Text) (m : Names) → FromExports m → FromExports (drop_all ids m)
  unfolding drop_all
  FromExports-drop_all [] m f = f
  FromExports-drop_all (id ∷ ids) m f =
      FromExports-drop_all ids (erase id m) (FromExports-erase id m f)

  FromExports-add_prefix :
      (prefix : Text) (m : Names) → FromExports m → FromExports (add_prefix prefix m)
  unfolding add_prefix
  FromExports-add_prefix prefix [] f = tt
  FromExports-add_prefix prefix ((l, r) ∷ m) f =
      FromExports-emplace (prefix ++ l) r (add_prefix prefix m) f.0
        (FromExports-add_prefix prefix m f.1)

  abbrev pub NamesExported : LinkResult Names → Type 0
  NamesExported (ok m) = FromExports m
  NamesExported (unexpected e) = Unit
  NamesExported stuck = ⊥

  NamesExported->>= :
      (r : LinkResult Names) (f : Names → LinkResult Names)
      → NamesExported r
      → ((m : Names) → FromExports m → NamesExported (f m))
      → NamesExported (r >>= f)
  NamesExported->>= (ok m) f h k = k m h
  NamesExported->>= (unexpected e) f h k = tt
  NamesExported->>= stuck f h k = h

  exported_then :
      (n : Text) (r : LinkResult Names)
      → (contains n exports ≡ true → NamesExported r)
      → NamesExported (ensure_exported n exports >>= λ _. r)
  unfolding ensure_exported
  exported_then n r h = elim (Bool-cases (contains n exports)) [
    | inl e ↦ rw e (h e)
    | inr e ↦ rw e tt
  ]

  keep_only-NamesExported : (ids : List Text) → NamesExported (keep_only exports ids)
  unfolding keep_only
  keep_only-NamesExported [] = tt
  keep_only-NamesExported (id ∷ ids) = exported_then id _ λ h.
      NamesExported->>= (keep_only exports ids) _ (keep_only-NamesExported ids)
        λ m f. FromExports-emplace id id m h f

  rename_one-NamesExported :
      (old new : Text) (m : Names) → FromExports m → NamesExported (rename_one old new m)
  unfolding rename_one rename_to
  rename_one-NamesExported old new m f = elim (Option-cases (lookup_text old m)) [
    | inl e ↦ rw (rename_one, e) tt
    | inr (remote, e) ↦ elim (Option-cases (lookup_text new (erase old m))) [
      | inl e' ↦
          rw (rename_one, e, rename_to, e')
            (FromExports-emplace new remote (erase old m) (FromExports-lookup old remote m f e)
              (FromExports-erase old m f))
      | inr (_, e') ↦ rw (rename_one, e, rename_to, e') tt
    ]
  ]

  apply_renames-NamesExported :
      (renames : List (Text × Text)) (m : Names)
      → FromExports m
      → NamesExported (apply_renames renames m)
  unfolding apply_renames
  apply_renames-NamesExported [] m f = f
  apply_renames-NamesExported ((old, new) ∷ renames) m f =
      NamesExported->>= (rename_one old new m) (apply_renames renames)
        (rename_one-NamesExported old new m f) (apply_renames-NamesExported renames)

  renames_then :
      (renames : List (Text × Text)) (r : LinkResult Names)
      → NamesExported r
      → NamesExported (ensure_renames exports renames >>= λ _. r)
  unfolding ensure_renames ensure_exported
  renames_then [] r h = h
  renames_then ((old, new) ∷ renames) r h = elim (Bool-cases (contains old exports)) [
    | inl e ↦ rw e (renames_then renames r h)
    | inr e ↦ rw e tt
  ]

module _ (exports : List Text) where
  each_exported :
      (seen : List Text)
      → ((n : Text) → contains n seen ≡ true → contains n exports ≡ true)
      → All (λ ex. contains ex exports ≡ true) seen
  each_exported [] h = tt
  each_exported (n ∷ seen) h =
      (h n (contains-first n seen), each_exported seen λ m k. h m (contains-later m n seen k))

  FromExports-exports : FromExports exports (all_exports exports)
  FromExports-exports = FromExports-of_each exports exports (each_exported exports λ n h. h)

  pub import_names-NamesExported :
      (spec : ImportSpec) → NamesExported exports (import_names exports spec)
  unfolding import_names names_of_kind
  import_names-NamesExported spec = by_kind spec.kind
    where
      by_kind : (kind : Kind) → NamesExported exports (names_of_kind exports spec kind)
      by_kind plain = FromExports-exports
      by_kind only = keep_only-NamesExported exports spec.ids
      by_kind except =
          FromExports-drop_all exports spec.ids (all_exports exports) FromExports-exports
      by_kind rename = renames_then exports spec.renames _ (
          apply_renames-NamesExported exports spec.renames (all_exports exports)
            FromExports-exports)
      by_kind prefix_ =
          FromExports-add_prefix exports spec.prefix (all_exports exports) FromExports-exports
