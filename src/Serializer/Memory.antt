-- ===== src/Serializer/Memory.antt =====
-- What the serializer uses of the heap and the intern table, as an interface, and what it relies
-- on: what was stored is found again, and storing more takes nothing away. The source keeps the
-- values that it reads in a frame of roots meanwhile; a collection is taken to drop nothing that
-- the interface shows.
pub mod Growing
use eta.Prelude.{ℕ, ◌+◌, ◌<◌, ◌^◌, ◌≤◌, ◌≡◌, List, Option, none, some}
use eta.NanBox.{LispVal, Tag, box}
use eta.Serializer.Stream.{Text}

pub record Memory : Type 1 where
  pub State : Type 0
  pub get_string : State → ℕ → Option Text
  pub intern : State → Text → Option (ℕ × State)
  pub get_cons : State → ℕ → Option (LispVal × LispVal)
  pub get_vector : State → ℕ → Option (List LispVal)
  pub make_cons : State → LispVal → LispVal → Option (LispVal × State)
  pub make_vector : State → List LispVal → Option (LispVal × State)

module _ (memory : Memory) where
  open memory use {State, get_string, intern, get_cons, get_vector, make_cons, make_vector}

  -- Nothing that the earlier state holds is gone.
  pub record Grows (m m' : State) : Type 0 where
    pub strings : (id : ℕ) (t : Text) → get_string m id ≡ some t → get_string m' id ≡ some t
    pub conses : (id : ℕ) (c : LispVal × LispVal) → get_cons m id ≡ some c → get_cons m' id ≡ some c
    pub vectors :
        (id : ℕ) (es : List LispVal)
        → get_cons m id ≡ none
        → get_vector m id ≡ some es
        → (get_cons m' id ≡ none) × (get_vector m' id ≡ some es)

  pub Grows-refl : (m : State) → Grows m m
  Grows-refl m = record {
    strings = λ id t h. h;
    conses = λ id c h. h;
    vectors = λ id es g h. (g, h);
  }

  pub Grows-trans : {m n o : State} → Grows m n → Grows n o → Grows m o
  Grows-trans g h = record {
    strings = λ id t e. h.strings id t (g.strings id t e);
    conses = λ id c e. h.conses id c (g.conses id c e);
    vectors = λ id es e f. let p = g.vectors id es e f in h.vectors id es p.0 p.1;
  }

  -- With room for one more object or string each operation succeeds, and its result is there.
  pub record IsLawful : Type 0 where
    pub room : State → ℕ
    pub intern_lem :
        (m : State) (t : Text)
        → 1 ≤ room m
        → (id : ℕ) × (m' : State) × (intern m t ≡ some (id, m'))
          × (id < 2 ^ 47)
          × (get_string m' id ≡ some t)
          × Grows m m'
          × (room m ≤ room m' + 1)
    pub make_cons_lem :
        (m : State) (car cdr : LispVal)
        → 1 ≤ room m
        → (id : ℕ) × (m' : State) × (make_cons m car cdr ≡ some (box Tag.heap_object id, m'))
          × (id < 2 ^ 47)
          × (get_cons m' id ≡ some (car, cdr))
          × Grows m m'
          × (room m ≤ room m' + 1)
    pub make_vector_lem :
        (m : State) (es : List LispVal)
        → 1 ≤ room m
        → (id : ℕ) × (m' : State) × (make_vector m es ≡ some (box Tag.heap_object id, m'))
          × (id < 2 ^ 47)
          × (get_cons m' id ≡ none)
          × (get_vector m' id ≡ some es)
          × Grows m m'
          × (room m ≤ room m' + 1)
