-- ===== src/Linker/Order/Visits.antt =====
-- What a visit does, with the modules it may come to listed in `universe`.
use eta.Prelude.{
  ◌≡◌, ◌↔◌, ◌⊎◌, inl, inr, refl, sym, ◌∙◌, true, false, Bool-cases, List, [], ◌∷◌, arith, Text,
  text_eq, text_eq_iff, text_eq_self, contains,
}
use eta.Linker.{LinkResult, ok, unexpected, stuck, circular_dependency}
use eta.Linker.Order.{unvisited, visiting, visited, CycleDetector, open_, close}

module _ (imports : Text → List Text) where
  -- `a` imports `b`, itself or through other modules.
  pub data Needs : Text → Text → Type 0 where
    direct : {a b : Text} → contains b (imports a) ≡ true → Needs a b
    through : {a b c : Text} → Needs a b → Needs b c → Needs a c

  -- Each module comes after all that it imports, and once.
  abbrev pub Ordered : List Text → Type 0
  Ordered [] = Unit
  Ordered (n ∷ ns) =
      (contains n ns ≡ false)
      × ((b : Text) → contains b (imports n) ≡ true → contains b ns ≡ true)
      × Ordered ns

  -- Each module on the path is imported by the one below it.
  abbrev pub Chained : List Text → Type 0
  Chained [] = Unit
  Chained (n ∷ []) = Unit
  Chained (n ∷ m ∷ ns) = (contains n (imports m) ≡ true) × Chained (m ∷ ns)

  pub record Good (d : CycleDetector) : Type 0 where
    pub done : (n : Text) → (d.states n ≡ visited) ↔ (contains n d.topo_order ≡ true)
    pub active : (n : Text) → (d.states n ≡ visiting) ↔ (contains n d.path ≡ true)
    pub ordered : Ordered d.topo_order
    pub chained : Chained d.path

  pub record Advances (d d' : CycleDetector) : Type 0 where
    pub good : Good d'
    pub path : d'.path ≡ d.path
    pub seen : (n : Text) → d'.states n ≡ unvisited → d.states n ≡ unvisited
    pub kept : (n : Text) → contains n d.topo_order ≡ true → contains n d'.topo_order ≡ true

  -- A visit reaches all of `names`, or finds a module that needs itself.
  abbrev pub Visits : List Text → CycleDetector → LinkResult CycleDetector → Type 0
  Visits names d (ok d') =
      Advances d d' × ((n : Text) → contains n names ≡ true → contains n d'.topo_order ≡ true)
  Visits names d (unexpected e) = (e ≡ circular_dependency) × ((n : Text) × Needs n n)
  Visits names d stuck = ⊥

  path-Needs :
      (p n : Text) (ps : List Text)
      → Chained (p ∷ ps)
      → contains n (p ∷ ps) ≡ true
      → (p ≡ n) ⊎ Needs n p
  path-Needs p n [] c h = inl (ground (arith, text_eq_iff p n))
  path-Needs p n (q ∷ ps) c h = elim (Bool-cases (text_eq p n)) [
    | inl e ↦ inl ((text_eq_iff p n).0 e)
    | inr e ↦ elim (path-Needs q n ps c.1 (rw e at h)) [
      | inl f ↦ inr (rw (sym f) (direct c.0))
      | inr f ↦ inr (through f (direct c.0))
    ]
  ]

  pub cycle :
      (name : Text) (path : List Text)
      → Chained (name ∷ path)
      → contains name path ≡ true
      → Needs name name
  cycle name [] c h = cc
  cycle name (q ∷ ps) c h = elim (path-Needs q name ps c.1 h) [
    | inl f ↦ rw f at (direct c.0)
    | inr f ↦ through f (direct c.0)
  ]

  pub open-Good :
      (name : Text) (d : CycleDetector)
      → Good d
      → Chained (name ∷ d.path)
      → d.states name ≡ unvisited
      → Good (open_ name d)
  open-Good name d g c u = record {
    done = λ n. ground (arith, g.done n, g.active n, text_eq_iff name n, u);
    active = λ n. ground (arith, g.active n, text_eq_iff name n);
    ordered = g.ordered;
    chained = c;
  }

  pub close-Advances :
      (name : Text) (d d' : CycleDetector)
      → Good d
      → Chained d.path
      → d.states name ≡ unvisited
      → Visits (imports name) (open_ name d) (ok d')
      → Visits (name ∷ []) d (ok (close name d'))
  close-Advances name d d' g c u (a, all) = (
    record {
      good = record {
        done = λ n. ground (arith, a.good.done n, text_eq_iff name n);
        active = λ n.
            let below = rw a.path at (a.good.active n) in
            ground (arith, below, g.active n, text_eq_iff name n, u);
        ordered =
            let mine = rw a.path at (a.good.active name) in
            (ground (arith, mine, a.good.done name, text_eq_self name), all, a.good.ordered);
        chained = rw a.path c;
      };
      path = rw a.path;
      seen = λ n h. ground (arith, h, a.seen n, text_eq_iff name n);
      kept = λ n h. ground (arith, a.kept n h);
    },
    λ n h. ground (arith, h),
  )

  pub then_Visits :
      (n : Text) (ns : List Text) (d d' : CycleDetector) (r : LinkResult CycleDetector)
      → Visits (n ∷ []) d (ok d')
      → Visits ns d' r
      → Visits (n ∷ ns) d r
  then_Visits n ns d d' (ok d2) (a, h) (b, k) = (
    record {
      good = b.good;
      path = b.path ∙ a.path;
      seen = λ m e. a.seen m (b.seen m e);
      kept = λ m e. b.kept m (a.kept m e);
    },
    λ m e. elim (Bool-cases (text_eq n m)) [
      | inl f ↦ b.kept m (h m (rw f))
      | inr f ↦ k m (rw f at e)
    ],
  )
  then_Visits n ns d d' (unexpected e) v w = w
  then_Visits n ns d d' stuck v w = w

  pub none_Visits : (d : CycleDetector) → Good d → Visits [] d (ok d)
  none_Visits d g = (record { good = g; path = refl; seen = λ n h. h; kept = λ n h. h }, λ n h. cc)
