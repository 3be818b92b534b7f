-- ===== src/Linker/Imports/Select.antt =====
-- The names that a clause brings in, as functions from local names to the names in the source.
use eta.Prelude.{
  ◌≡◌, refl, sym, ◌∙◌, ◌==◌, true, Bool-cases, Option-cases, inl, inr, if◌then◌else◌, List, [], ◌∷◌,
  ◌++◌, Option, some, none, arith, Text, text_eq, text_eq_iff, text_eq_self, contains, lookup_text,
}
use eta.Linker.{
  LinkResult, ◌>>=◌, Kind, plain, only, except, rename, prefix_, ImportSpec, emplace, erase, Names,
  all_exports, ensure_exported, keep_only, drop_all, ensure_renames, rename_to, rename_one,
  apply_renames, add_prefix, names_of_kind, import_names,
}
use eta.Linker.Gives.{Gives, Gives->>=}
use eta.Linker.Imports.{lookup-emplace}

abbrev pub Selection : Type 0
Selection = Text → Option Text

abbrev pub themselves : List Text → Selection
themselves ns l = if contains l ns then some l else none

abbrev pub without : List Text → Selection → Selection
without ns f l = if contains l ns then none else f l

-- Each new name stands for what the old one did, and the old one for nothing.
abbrev pub renamed : List (Text × Text) → Selection → Selection
renamed [] f = f
renamed ((old, new) ∷ renames) f =
    renamed renames (λ l. if text_eq new l then f old else if text_eq old l then none else f l)

abbrev pub strip_prefix : Text → Text → Option Text
strip_prefix [] l = some l
strip_prefix (a ∷ p) [] = none
strip_prefix (a ∷ p) (b ∷ l) = if a == b then strip_prefix p l else none

abbrev pub at_stripped : Option Text → Selection → Option Text
at_stripped none f = none
at_stripped (some l) f = f l

-- What a clause selects from the exports of a module.
abbrev pub selects : List Text → ImportSpec → Kind → Selection
selects exports spec plain = themselves exports
selects exports spec only = themselves spec.ids
selects exports spec except = without spec.ids (themselves exports)
selects exports spec rename = renamed spec.renames (themselves exports)
selects exports spec prefix_ = λ l. at_stripped (strip_prefix spec.prefix l) (themselves exports)

-- The names are selected as the function says.
abbrev pub Selected : Selection → Names → Type 0
Selected f m = (l : Text) → lookup_text l m ≡ f l

lookup-erase :
    (l k : Text) (m : Names)
    → lookup_text l (erase k m) ≡ (if text_eq k l then none else lookup_text l m)
unfolding erase
lookup-erase l k [] = ground arith
lookup-erase l k ((j, r) ∷ m) =
    ground (arith, lookup-erase l k m, text_eq_iff j k, text_eq_iff j l, text_eq_iff k l)

-- A name that stands for itself, put among names that do.
emplace-Selected :
    (n : Text) (ns : List Text) (m : Names)
    → Selected (themselves ns) m
    → Selected (themselves (n ∷ ns)) (emplace n n m)
unfolding emplace
emplace-Selected n ns m h l = elim (Option-cases (lookup_text n m)) [
  | inl e ↦ rw (lookup-emplace l n n m e, h l) (ground (arith, text_eq_iff n l))
  | inr (a, e) ↦ rw (emplace, e) (ground (arith, h l, h n, e, text_eq_iff n l))
]

all_exports-Selected : (ns : List Text) → Selected (themselves ns) (all_exports ns)
unfolding all_exports
all_exports-Selected [] = λ l. refl
all_exports-Selected (n ∷ ns) = emplace-Selected n ns (all_exports ns) (all_exports-Selected ns)

keep_only-Selected :
    (exports ids : List Text) → Gives (Selected (themselves ids)) (keep_only exports ids)
unfolding keep_only ensure_exported
keep_only-Selected exports [] = λ l. refl
keep_only-Selected exports (id ∷ ids) = elim (Bool-cases (contains id exports)) [
  | inl e ↦ rw e (
      Gives->>= (Selected (themselves ids)) (Selected (themselves (id ∷ ids)))
        (keep_only exports ids) _ (keep_only-Selected exports ids)
        λ m h. emplace-Selected id ids m h)
  | inr e ↦ rw e tt
]

drop_all-Selected :
    (ids : List Text) (f : Selection) (m : Names)
    → Selected f m
    → Selected (without ids f) (drop_all ids m)
unfolding drop_all
drop_all-Selected [] f m h l = h l
drop_all-Selected (id ∷ ids) f m h l =
    let rest =
      drop_all-Selected ids (λ k. if text_eq id k then none else f k) (erase id m)
        (λ k. rw (lookup-erase k id m, h k) refl) l in
    ground (arith, rest)

rename_one-Selected :
    (old new : Text) (f : Selection) (m : Names)
    → Selected f m
    → Gives
        (Selected (λ l. if text_eq new l then f old else if text_eq old l then none else f l))
        (rename_one old new m)
unfolding rename_one rename_to
rename_one-Selected old new f m h = elim (Option-cases (lookup_text old m)) [
  | inl e ↦ rw (rename_one, e) tt
  | inr (remote, e) ↦ elim (Option-cases (lookup_text new (erase old m))) [
    | inl e' ↦
        rw (rename_one, e, rename_to, e')
          λ l.
            let q : f old ≡ some remote = sym (h old) ∙ e in
            rw (lookup-emplace l new remote (erase old m) e', lookup-erase l old m, h l, q) refl
    | inr (_, e') ↦ rw (rename_one, e, rename_to, e') tt
  ]
]

apply_renames-Selected :
    (renames : List (Text × Text)) (f : Selection) (m : Names)
    → Selected f m
    → Gives (Selected (renamed renames f)) (apply_renames renames m)
unfolding apply_renames
apply_renames-Selected [] f m h = h
apply_renames-Selected ((old, new) ∷ renames) f m h =
    Gives->>= (Selected (λ l. if text_eq new l then f old else if text_eq old l then none else f l))
      _ (rename_one old new m) (apply_renames renames) (rename_one-Selected old new f m h)
      (apply_renames-Selected renames _)

strip_prefix-append : (p l : Text) → strip_prefix p (p ++ l) ≡ some l
strip_prefix-append [] l = refl
strip_prefix-append (a ∷ p) l = ground (arith, strip_prefix-append p l)

strip_prefix_iff : (p l k : Text) → strip_prefix p l ≡ some k → l ≡ p ++ k
strip_prefix_iff [] l k h = cc
strip_prefix_iff (a ∷ p) [] k h = cc
strip_prefix_iff (a ∷ p) (b ∷ l) k h = ground (arith, h, strip_prefix_iff p l k)

-- The first of the names is selected under its prefixed form.
prefix_first :
    (p n : Text) (ns : List Text) (l : Text) (o : Option Text)
    → strip_prefix p l ≡ o
    → (if text_eq (p ++ n) l then some n else at_stripped o (themselves ns))
      ≡ at_stripped o (themselves (n ∷ ns))
prefix_first p n ns l none e = elim (Bool-cases (text_eq (p ++ n) l)) [
  | inl q ↦
      let same = (text_eq_iff (p ++ n) l).0 q in cc (rw (sym same, strip_prefix-append p n) at e)
  | inr q ↦ rw q refl
]
prefix_first p n ns l (some k) e =
    let there = strip_prefix_iff p l k e in
    elim (Bool-cases (text_eq (p ++ n) l)) [
      | inl q ↦
          let same = (text_eq_iff (p ++ n) l).0 q in
          let mine = rw (sym same, strip_prefix-append p n) at e in
          ground (arith, q, mine, text_eq_iff n k)
      | inr q ↦ ground (arith, q, there, text_eq_iff n k, text_eq_self (p ++ n))
    ]

known_again :
    (n : Text) (ns : List Text) (o : Option Text)
    → contains n ns ≡ true
    → at_stripped o (themselves ns) ≡ at_stripped o (themselves (n ∷ ns))
known_again n ns none h = refl
known_again n ns (some k) h = ground (arith, h, text_eq_iff n k)

add_prefix-Selected :
    (p : Text) (ns : List Text)
    → Selected (λ l. at_stripped (strip_prefix p l) (themselves ns)) (add_prefix p (all_exports ns))
unfolding add_prefix all_exports
add_prefix-Selected p [] l = nothing (strip_prefix p l)
  where
    nothing : (o : Option Text) → none ≡ at_stripped o (themselves [])
    nothing none = refl
    nothing (some k) = refl
add_prefix-Selected p (n ∷ ns) l =
    let known = all_exports-Selected ns n in
    elim (Option-cases (lookup_text n (all_exports ns))) [
      | inl e ↦
          let absent : lookup_text (p ++ n) (add_prefix p (all_exports ns)) ≡ none =
            add_prefix-Selected p ns (p ++ n) ∙ (rw (strip_prefix-append p n) (sym known ∙ e)) in
          rw (emplace, e)
            (rw
              (
                lookup-emplace l (p ++ n) n (add_prefix p (all_exports ns)) absent,
                add_prefix-Selected p ns l,
              )
              (prefix_first p n ns l (strip_prefix p l) refl))
      | inr (a, e) ↦
          rw (emplace, e)
            (rw (add_prefix-Selected p ns l)
              (known_again n ns (strip_prefix p l) (ground (arith, known, e))))
    ]

renames_then_Selected :
    (exports : List Text) (renames : List (Text × Text)) (f : Selection) (r : LinkResult Names)
    → Gives (Selected f) r
    → Gives (Selected f) (ensure_renames exports renames >>= λ _. r)
unfolding ensure_renames ensure_exported
renames_then_Selected exports [] f r h = h
renames_then_Selected exports ((old, new) ∷ renames) f r h =
    elim (Bool-cases (contains old exports)) [
      | inl e ↦ rw e (renames_then_Selected exports renames f r h)
      | inr e ↦ rw e tt
    ]

-- An import clause of any kind, if it is accepted, brings in exactly the names that it selects: all
-- exports, the listed ones, all but the listed ones, all with some renamed one after the other, or all
-- behind a prefix.
pub import_names_lem :
    (exports : List Text) (spec : ImportSpec)
    → Gives (Selected (selects exports spec spec.kind)) (import_names exports spec)
unfolding import_names names_of_kind
import_names_lem exports spec = by_kind spec.kind
  where
    by_kind :
        (kind : Kind)
        → Gives (Selected (selects exports spec kind)) (names_of_kind exports spec kind)
    by_kind plain = all_exports-Selected exports
    by_kind only = keep_only-Selected exports spec.ids
    by_kind except =
        drop_all-Selected spec.ids (themselves exports) (all_exports exports)
          (all_exports-Selected exports)
    by_kind rename = renames_then_Selected exports spec.renames _ _ (
        apply_renames-Selected spec.renames (themselves exports) (all_exports exports)
          (all_exports-Selected exports))
    by_kind prefix_ = add_prefix-Selected spec.prefix exports
