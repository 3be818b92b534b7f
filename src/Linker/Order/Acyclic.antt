-- ===== src/Linker/Order/Acyclic.antt =====
-- The order that the visits find: it exists exactly if no module needs itself.
use eta.Prelude.{
  suc, ◌<◌, ◌≤◌, ◌≡◌, ◌⊎◌, sym, true, Bool-cases, inl, inr, if◌then◌else◌, List, [], ◌∷◌, ◌++◌,
  length, All, arith, Text, text_eq, text_eq_iff, contains, contains-first, differs, contains-later,
}
use eta.Linker.{LinkResult, ok, unexpected, stuck, circular_dependency, Pending}
use eta.Linker.Order.{
  CycleDetector, nothing_visited, imported_modules, all_imported, find_order, visit_each, visit,
  unvisited,
}
use eta.Linker.Order.Visits.{Needs, direct, through, Ordered, Visits}
use eta.Linker.Order.Ends.{unseen, visit_lem, visit_each_lem}

abbrev rest_after : Text → List Text → List Text
rest_after n [] = []
rest_after n (x ∷ xs) = if text_eq x n then xs else rest_after n xs

rest_after-lt :
    (n : Text) (xs : List Text) → contains n xs ≡ true → length (rest_after n xs) < length xs
rest_after-lt n [] h = cc
rest_after-lt n (x ∷ xs) h = elim (Bool-cases (text_eq x n)) [
  | inl e ↦ rw e (omega arith)
  | inr e ↦ let l = rest_after-lt n xs (rw e at h) in rw e (omega arith)
]

module _ (imports : Text → List Text) where
  abbrev Later : Text → Text → List Text → Type 0
  Later a b xs = (contains b xs ≡ true) × (length (rest_after b xs) < length (rest_after a xs))

  import-Later :
      (a b : Text) (xs : List Text)
      → Ordered imports xs
      → contains a xs ≡ true
      → contains b (imports a) ≡ true
      → Later a b xs
  import-Later a b [] o h i = cc
  import-Later a b (x ∷ xs) o h i = elim (Bool-cases (text_eq x a)) [
    | inl e ↦
        let p = (text_eq_iff x a).0 e in
        let k = o.1 b (rw (sym p) at i) in
        let l = rest_after-lt b xs k in (contains-later b x xs k, rw (e, differs x b xs o.0 k) l)
    | inr e ↦
        let (k, l) = import-Later a b xs o.2 (rw e at h) i in
        (contains-later b x xs k, rw (e, differs x b xs o.0 k) l)
  ]

  pub imports-in :
      (a b : Text) (xs : List Text)
      → Ordered imports xs
      → contains a xs ≡ true
      → contains b (imports a) ≡ true
      → contains b xs ≡ true
  imports-in a b xs o h i = (import-Later a b xs o h i).0

  Needs-Later :
      {a b : Text} (xs : List Text)
      → Ordered imports xs
      → Needs imports a b
      → contains a xs ≡ true
      → Later a b xs
  Needs-Later xs o (direct i) h = import-Later _ _ xs o h i
  Needs-Later xs o (through m n) h =
      let (k, l) = Needs-Later xs o m h in let (k', l') = Needs-Later xs o n k in (k', omega arith)

  pub not-Needs :
      (n : Text) (xs : List Text)
      → Ordered imports xs
      → contains n xs ≡ true
      → Needs imports n n
      → ⊥
  not-Needs n xs o h c = let p = Needs-Later xs o c h in omega arith

unseen-le : (ns : List Text) → unseen (λ n. unvisited) ns ≤ length ns
unfolding unseen
unseen-le [] = omega arith
unseen-le (n ∷ ns) = omega (arith, unseen-le ns)

contains-append :
    (n : Text) (xs ys : List Text)
    → (contains n xs ≡ true) ⊎ (contains n ys ≡ true)
    → contains n (xs ++ ys) ≡ true
contains-append n [] ys (inr h) = h
contains-append n [] ys (inl h) = cc
contains-append n (x ∷ xs) ys h = ground (arith, contains-append n xs ys, h)

imported-all :
    (pending : Pending) (n b : Text)
    → contains b (imported_modules pending n) ≡ true
    → contains b (all_imported pending) ≡ true
imported-all [] n b h = cc
imported-all ((target, specs) ∷ pending) n b h = elim (Bool-cases (text_eq target n)) [
  | inl e ↦ contains-append b _ (all_imported pending) (inl (rw e at h))
  | inr e ↦ contains-append b _ (all_imported pending) (inr (imported-all pending n b (rw e at h)))
]

each_of :
    {P : Text → Type 0} (ns : List Text) → ((n : Text) → contains n ns ≡ true → P n) → All P ns
each_of [] h = tt
each_of (n ∷ ns) h = (h n (contains-first n ns), each_of ns (λ m k. h m (contains-later m n ns k)))

-- What the first loop of `link` answers.
abbrev pub Found : Pending → List Text → LinkResult CycleDetector → Type 0
Found pending names (ok d) =
    Ordered (imported_modules pending) d.topo_order
    × All (λ n. contains n d.topo_order ≡ true) names
    × All (λ n. Needs (imported_modules pending) n n → ⊥) names
Found pending names (unexpected e) =
    (e ≡ circular_dependency) × ((n : Text) × Needs (imported_modules pending) n n)
Found pending names stuck = ⊥

module _ (pending : Pending) (names : List Text) where
  found :
      (r : LinkResult CycleDetector)
      → Visits (imported_modules pending) names nothing_visited r
      → Found pending names r
  found (ok d) (a, h) = (
    a.good.ordered,
    each_of names h,
    each_of names λ n k. not-Needs (imported_modules pending) n d.topo_order a.good.ordered (h n k),
  )
  found (unexpected e) w = w
  found stuck w = w

  -- The visits always end. They give an order in which every module comes after all that it imports,
  -- and once, with all of the modules in it and none that needs itself; or they report a circular
  -- dependency, and then some module does import itself, perhaps through others.
  pub find_order_lem : Found pending names (find_order pending names)
  unfolding find_order
  find_order_lem =
      let universe = names ++ all_imported pending in
      let imports = imported_modules pending in
      let closed : (n b : Text) → contains b (imports n) ≡ true → contains b universe ≡ true =
        λ n b h.
          contains-append b names (all_imported pending) (inr (imported-all pending n b h)) in
      let small = unseen-le universe in
      let fuel = suc (length universe) in
      found (visit_each (visit imports fuel) names nothing_visited) (
        visit_each_lem imports universe closed fuel (visit imports fuel)
          (visit_lem imports universe closed fuel) names nothing_visited
          (record {
            done = λ n. (λ h. cc, λ h. cc);
            active = λ n. (λ h. cc, λ h. cc);
            ordered = tt;
            chained = tt;
          })
          (λ n h. tt) (λ n h. contains-append n names (all_imported pending) (inl h)) (omega arith))
