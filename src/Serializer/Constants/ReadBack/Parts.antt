-- ===== src/Serializer/Constants/ReadBack/Parts.antt =====
-- Reading a list or a vector, from reading its parts.
use eta.Prelude.{
  ℕ, suc, ◌+◌, ◌^◌, ◌≤◌, ◌<◌, ◌≡◌, refl, ◌∙◌, false, List, [], ◌∷◌, ◌++◌, some, none, arith, ltb,
}
use mathlib.Core.List.{append_assoc}
use eta.NanBox.{LispVal, Tag, box}
use eta.Serializer.Stream.{ok, ◌>>=◌, write_u8, write_u32, read_times}
use eta.Serializer.Stream.RoundTrip.{read_u8-Trips, read_u32-Trips}
use eta.Serializer.Memory.{Memory, IsLawful, Grows, Grows-trans}
use eta.Serializer.Constants.{
  read_constant, read_tagged, read_cons, read_vector, stored, max_vec_len,
}
use eta.Serializer.Constants.Codes.{ct_heap_cons, ct_heap_vec}
use eta.Serializer.Constants.Datum.{
  Datum, Data, nil, string, symbol, cons, vector, end, item, count, format, format_data, cost,
  cost_data, Shows, ShowsEach,
}

in_limit : (n : ℕ) → n ≤ max_vec_len → ltb max_vec_len n ≡ false
in_limit n h = ground arith

module _ (memory : Memory) where
  open memory use {State}

  mutual
    unfolding Shows ShowsEach

    -- What a word stands for, it stands for when more has been stored.
    pub Shows-Grows :
        (d : Datum) {m m' : State} (v : LispVal)
        → Grows memory m m'
        → Shows memory m v d
        → Shows memory m' v d
    Shows-Grows (string t) v g (id, e, l, h) = (id, e, l, g.strings id t h)
    Shows-Grows (symbol t) v g (id, e, l, h) = (id, e, l, g.strings id t h)
    Shows-Grows (cons a d) v g (id, car, cdr, e, l, h, sa, sd) = (
      id,
      car,
      cdr,
      e,
      l,
      g.conses id (car, cdr) h,
      Shows-Grows a car g sa,
      Shows-Grows d cdr g sd,
    )
    Shows-Grows (vector ds) v g (id, es, e, l, gc, gv, each) =
        let kept = g.vectors id es gc gv in
        (id, es, e, l, kept.0, kept.1, ShowsEach-Grows ds es g each)
    Shows-Grows nil v g s = s
    Shows-Grows _ v g s = s

    pub ShowsEach-Grows :
        (ds : Data) {m m' : State} (vs : List LispVal)
        → Grows memory m m'
        → ShowsEach memory m vs ds
        → ShowsEach memory m' vs ds
    ShowsEach-Grows end [] g s = s
    ShowsEach-Grows end (v ∷ vs) g s = s
    ShowsEach-Grows (item d ds) [] g s = s
    ShowsEach-Grows (item d ds) (v ∷ vs) g s = (Shows-Grows d v g s.0, ShowsEach-Grows ds vs g s.1)

  pub read_head :
      (fuel t : ℕ) (m : State) (s : List ℕ)
      → t < 2 ^ 8
      → read_constant memory (suc fuel) m (write_u8 t ++ s)
        ≡ read_tagged memory (read_constant memory fuel) t m s
  unfolding read_constant
  read_head fuel t m s h = rw (read_u8-Trips t h m s, ◌>>=◌)

  pub read_body :
      (fuel t : ℕ) (body : List ℕ) (m : State) (rest : List ℕ)
      → t < 2 ^ 8
      → read_constant memory (suc fuel) m ((write_u8 t ++ body) ++ rest)
        ≡ read_tagged memory (read_constant memory fuel) t m (body ++ rest)
  read_body fuel t body m rest h =
      rw (append_assoc (write_u8 t) body rest) (read_head fuel t m (body ++ rest) h)

  module _ (lawful : IsLawful memory) where
    open lawful use {room, intern_lem, make_cons_lem, make_vector_lem}

    -- Reading `d` at the front succeeds, with a word that stands for it.
    abbrev pub ReadsBack : ℕ → Datum → State → List ℕ → Type 0
    ReadsBack fuel d m rest =
        (v : LispVal) × (m' : State) × (read_constant memory fuel m (format d ++ rest)
          ≡ ok (v, m', rest))
        × Shows memory m' v d
        × Grows memory m m'
        × (room m ≤ room m' + cost d)

    abbrev pub ReadsEachBack : ℕ → Data → State → List ℕ → Type 0
    ReadsEachBack fuel ds m rest =
        (vs : List LispVal) × (m' : State) × (read_times (read_constant memory fuel) (count ds) m
            (format_data ds ++ rest)
          ≡ ok (vs, m', rest))
        × ShowsEach memory m' vs ds
        × Grows memory m m'
        × (room m ≤ room m' + cost_data ds)

    module _ (fuel : ℕ) (a d : Datum) (m : State) (rest : List ℕ) where
      allocated_cons :
          (car : LispVal) (m1 : State)
          → read_constant memory fuel m (format a ++ (format d ++ rest))
            ≡ ok (car, m1, format d ++ rest)
          → Shows memory m1 car a
          → Grows memory m m1
          → room m ≤ room m1 + cost a
          → (cdr : LispVal) (m2 : State)
          → read_constant memory fuel m1 (format d ++ rest) ≡ ok (cdr, m2, rest)
          → Shows memory m2 cdr d
          → Grows memory m1 m2
          → room m1 ≤ room m2 + cost d
          → (id : ℕ) × (m3 : State) × (memory.make_cons m2 car cdr
              ≡ some (box Tag.heap_object id, m3))
            × (id < 2 ^ 47)
            × (memory.get_cons m3 id ≡ some (car, cdr))
            × Grows memory m2 m3
            × (room m2 ≤ room m3 + 1)
          → ReadsBack (suc fuel) (cons a d) m rest
      unfolding Shows format cost read_tagged read_cons
      allocated_cons car m1 e1 s1 g1 r1 cdr m2 e2 s2 g2 r2 (id, m3, e3, l, g, g3, r3) = (
        box Tag.heap_object id,
        m3,
        read_body fuel ct_heap_cons (format a ++ format d) m rest (omega arith)
            ∙ rw (append_assoc (format a) (format d) rest, e1, ◌>>=◌, e2, e3, stored),
        (
          id,
          car,
          cdr,
          refl,
          l,
          g,
          Shows-Grows a car (Grows-trans memory g2 g3) s1,
          Shows-Grows d cdr g3 s2,
        ),
        Grows-trans memory g1 (Grows-trans memory g2 g3),
        omega arith,
      )

      second_read :
          suc (cost a + cost d) ≤ room m
          → (car : LispVal) (m1 : State)
          → read_constant memory fuel m (format a ++ (format d ++ rest))
            ≡ ok (car, m1, format d ++ rest)
          → Shows memory m1 car a
          → Grows memory m m1
          → room m ≤ room m1 + cost a
          → ReadsBack fuel d m1 rest
          → ReadsBack (suc fuel) (cons a d) m rest
      second_read r car m1 e1 s1 g1 r1 (cdr, m2, e2, s2, g2, r2) =
          allocated_cons car m1 e1 s1 g1 r1 cdr m2 e2 s2 g2 r2
            (make_cons_lem m2 car cdr (omega arith))

      pub cons_back :
          suc (cost a + cost d) ≤ room m
          → ReadsBack fuel a m (format d ++ rest)
          → ((m1 : State) → room m ≤ room m1 + cost a → ReadsBack fuel d m1 rest)
          → ReadsBack (suc fuel) (cons a d) m rest
      cons_back r (car, m1, e1, s1, g1, r1) next = second_read r car m1 e1 s1 g1 r1 (next m1 r1)

    module _ (fuel : ℕ) (ds : Data) (m : State) (rest : List ℕ)
        (limit : count ds ≤ max_vec_len) where
      allocated_vector :
          (vs : List LispVal) (m1 : State)
          → read_times (read_constant memory fuel) (count ds) m (format_data ds ++ rest)
            ≡ ok (vs, m1, rest)
          → ShowsEach memory m1 vs ds
          → Grows memory m m1
          → room m ≤ room m1 + cost_data ds
          → (id : ℕ) × (m2 : State) × (memory.make_vector m1 vs ≡ some (box Tag.heap_object id, m2))
            × (id < 2 ^ 47)
            × (memory.get_cons m2 id ≡ none)
            × (memory.get_vector m2 id ≡ some vs)
            × Grows memory m1 m2
            × (room m1 ≤ room m2 + 1)
          → ReadsBack (suc fuel) (vector ds) m rest
      unfolding Shows format cost read_tagged read_vector
      allocated_vector vs m1 e1 s1 g1 r1 (id, m2, e2, l, gc, gv, g2, r2) = (
        box Tag.heap_object id,
        m2,
        read_body fuel ct_heap_vec (write_u32 (count ds) ++ format_data ds) m rest (omega arith)
            ∙ rw (
              append_assoc (write_u32 (count ds)) (format_data ds) rest,
              read_u32-Trips (count ds) (omega arith) m (format_data ds ++ rest),
              ◌>>=◌,
              in_limit (count ds) limit,
              e1,
              e2,
              stored,
            ),
        (id, vs, refl, l, gc, gv, ShowsEach-Grows ds vs g2 s1),
        Grows-trans memory g1 g2,
        omega arith,
      )

      pub vector_back :
          suc (cost_data ds) ≤ room m
          → ReadsEachBack fuel ds m rest
          → ReadsBack (suc fuel) (vector ds) m rest
      vector_back r (vs, m1, e1, s1, g1, r1) =
          allocated_vector vs m1 e1 s1 g1 r1 (make_vector_lem m1 vs (omega arith))

    module _ (fuel : ℕ) (d : Datum) (ds : Data) (m : State) (rest : List ℕ) where
      later_items :
          (v : LispVal) (m1 : State)
          → read_constant memory fuel m (format d ++ (format_data ds ++ rest))
            ≡ ok (v, m1, format_data ds ++ rest)
          → Shows memory m1 v d
          → Grows memory m m1
          → room m ≤ room m1 + cost d
          → ReadsEachBack fuel ds m1 rest
          → ReadsEachBack fuel (item d ds) m rest
      unfolding ShowsEach format_data cost_data read_times
      later_items v m1 e1 s1 g1 r1 (vs, m2, e2, s2, g2, r2) = (
        v ∷ vs,
        m2,
        rw (append_assoc (format d) (format_data ds) rest, e1, ◌>>=◌, e2),
        (Shows-Grows d v g2 s1, s2),
        Grows-trans memory g1 g2,
        omega arith,
      )

      pub item_back :
          ReadsBack fuel d m (format_data ds ++ rest)
          → ((m1 : State) → room m ≤ room m1 + cost d → ReadsEachBack fuel ds m1 rest)
          → ReadsEachBack fuel (item d ds) m rest
      item_back (v, m1, e1, s1, g1, r1) next = later_items v m1 e1 s1 g1 r1 (next m1 r1)
