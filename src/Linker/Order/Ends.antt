-- ===== src/Linker/Order/Ends.antt =====
-- A visit ends: each level opens a module that was not visited.
use eta.Prelude.{
  ℕ, zero, suc, ◌+◌, ◌<◌, ◌≤◌, ◌≡◌, refl, true, Bool-cases, inl, inr, List, [], ◌∷◌, arith, Text,
  text_eq, text_eq_iff, contains, contains-first, contains-later,
}
use eta.Linker.{LinkResult, ok, unexpected, stuck, ◌>>=◌}
use eta.Linker.Order.{
  State, unvisited, visiting, visited, CycleDetector, set_state, open_, close, visit_each,
  visit_state, visit,
}
use eta.Linker.Order.Visits.{
  Good, Chained, Advances, Visits, cycle, open-Good, close-Advances, then_Visits, none_Visits,
}

abbrev pub to_go : State → ℕ
to_go unvisited = 1
to_go visiting = 0
to_go visited = 0

-- How many of the modules are not visited.
unfoldable pub unseen : (Text → State) → List Text → ℕ
unseen states [] = 0
unseen states (n ∷ ns) = to_go (states n) + unseen states ns

to_go_mono : (s t : State) → (t ≡ unvisited → s ≡ unvisited) → to_go t ≤ to_go s
to_go_mono s t h = ground (arith, h)

unseen_mono :
    (s t : Text → State) (ns : List Text)
    → ((n : Text) → t n ≡ unvisited → s n ≡ unvisited)
    → unseen t ns ≤ unseen s ns
unfolding unseen
unseen_mono s t [] h = omega arith
unseen_mono s t (n ∷ ns) h = omega (arith, to_go_mono (s n) (t n) (h n), unseen_mono s t ns h)

opened-seen :
    (name : Text) (s : Text → State) (n : Text)
    → set_state s name visiting n ≡ unvisited
    → s n ≡ unvisited
opened-seen name s n h = ground (arith, h)

unseen-open :
    (name : Text) (s : Text → State) (ns : List Text)
    → contains name ns ≡ true
    → s name ≡ unvisited
    → unseen (set_state s name visiting) ns < unseen s ns
unfolding unseen
unseen-open name s [] h u = cc
unseen-open name s (n ∷ ns) h u = elim (Bool-cases (text_eq n name)) [
  | inl e ↦
      let p = (text_eq_iff n name).0 e in
      let rest = unseen_mono s (set_state s name visiting) ns (opened-seen name s) in
      let here : to_go (s n) ≡ 1 = rw (p, u) in
      let there : to_go (set_state s name visiting n) ≡ 0 = ground (arith, text_eq_iff name n, p) in
      omega arith
  | inr e ↦
      let rest = unseen-open name s ns (rw e at h) u in
      let here = to_go_mono (s n) (set_state s name visiting n) (opened-seen name s n) in
      omega arith
]

module _ (imports : Text → List Text) (universe : List Text)
    (closed : (n b : Text) → contains b (imports n) ≡ true → contains b universe ≡ true) where
  abbrev Meets : ℕ → (Text → CycleDetector → LinkResult CycleDetector) → Type 0
  Meets k v =
      (name : Text) (d : CycleDetector)
      → Good imports d
      → Chained imports (name ∷ d.path)
      → contains name universe ≡ true
      → unseen d.states universe < k
      → Visits imports (name ∷ []) d (v name d)

  module _ (k : ℕ) (v : Text → CycleDetector → LinkResult CycleDetector) (spec : Meets k v) where
    pub visit_each_lem :
        (names : List Text) (d : CycleDetector)
        → Good imports d
        → ((n : Text) → contains n names ≡ true → Chained imports (n ∷ d.path))
        → ((n : Text) → contains n names ≡ true → contains n universe ≡ true)
        → unseen d.states universe < k
        → Visits imports names d (visit_each v names d)
    unfolding visit_each
    visit_each_lem [] d g c m l = none_Visits imports d g
    visit_each_lem (n ∷ names) d g c m l =
        after (v n d)
          (λ d' a.
            visit_each_lem names d' a.good (λ m' h. rw a.path (c m' (contains-later m' n names h)))
              (λ m' h. m m' (contains-later m' n names h)) (fewer d' a))
          (spec n d g (c n (contains-first n names)) (m n (contains-first n names)) l)
      where
        fewer : (d' : CycleDetector) → Advances imports d d' → unseen d'.states universe < k
        fewer d' a = let less = unseen_mono d.states d'.states universe a.seen in omega arith

        after :
            (r : LinkResult CycleDetector)
            → ((d' : CycleDetector)
                → Advances imports d d'
                → Visits imports names d' (visit_each v names d'))
            → Visits imports (n ∷ []) d r
            → Visits imports (n ∷ names) d (r >>= visit_each v names)
        after (ok d') rest w =
            then_Visits imports n names d d' (visit_each v names d') w (rest d' w.0)
        after (unexpected e) rest w = w
        after stuck rest w = w

  module _ (k : ℕ) (name : Text) (d : CycleDetector) (g : Good imports d)
      (c : Chained imports (name ∷ d.path)) where
    closed_up :
        (r : LinkResult CycleDetector)
        → d.states name ≡ unvisited
        → Visits imports (imports name) (open_ name d) r
        → Visits imports (name ∷ []) d (r >>= λ d'. ok (close name d'))
    closed_up (ok d') u w = close-Advances imports name d d' g g.chained u w
    closed_up (unexpected e) u w = w
    closed_up stuck u w = w

    visit_state_lem :
        (state : State)
        → d.states name ≡ state
        → (state ≡ unvisited
            → Visits imports
                (imports name)
                (open_ name d)
                (visit_each (visit imports k) (imports name) (open_ name d)))
        → Visits imports (name ∷ []) d (visit_state imports (visit imports k) name d state)
    unfolding visit_state
    visit_state_lem visiting e rest =
        (refl, (name, cycle imports name d.path c ((g.active name).0 e)))
    visit_state_lem visited e rest =
        ((none_Visits imports d g).0, λ n h. ground (arith, h, text_eq_iff name n, g.done name, e))
    visit_state_lem unvisited e rest =
        closed_up (visit_each (visit imports k) (imports name) (open_ name d)) e (rest refl)

  pub visit_lem : (k : ℕ) → Meets k (visit imports k)
  unfolding visit
  visit_lem zero name d g c m l = absurd (omega arith)
  visit_lem (suc k) name d g c m l = visit_state_lem k name d g c (d.states name) refl λ u.
      let fewer = unseen-open name d.states universe m u in
      visit_each_lem k (visit imports k) (visit_lem k) (imports name) (open_ name d)
        (open-Good imports name d g c u) (λ n h. (h, c)) (λ n h. closed name n h) (omega arith)
