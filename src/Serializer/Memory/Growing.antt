-- ===== src/Serializer/Memory/Growing.antt =====
-- An instance of the interface: the intern table beside a heap that only grows. It shows that what
-- the serializer relies on can be met.
use eta.Prelude.{
  ℕ, zero, suc, ◌-◌, ◌^◌, ◌<◌, ◌≡◌, refl, min, List, [], ◌∷◌, ◌++◌, length, length-append,
  get_elem?, ◌↔◌, Option, some, none, arith,
}
use eta.NanBox.{LispVal, Tag, box}
use eta.InternTable.{InternTable, empty_table, intern, get_string, ok, unexpected, Expected}
use eta.InternTable.Maps.{Text, find_text}
use eta.InternTable.Threads.{IsValid}
use eta.InternTable.Alone.{Interned, intern_lem, empty_table-IsValid, get_string_iff}
use mathlib.Core.Logic.{dite, dif_pos}
use native.Mathlib.Decide.{dec_lt}
use native.Mathlib.Bridge.{le_prop}
use eta.Serializer.Memory.{Memory, IsLawful, Grows}

pub data Object : Type 0 where
  cons : LispVal → LispVal → Object
  vector : List LispVal → Object

pub record Growing : Type 0 where
  pub table : InternTable
  pub valid : IsValid table
  pub objects : List Object

abbrev pub nothing_stored : Growing
nothing_stored = record { table = empty_table; valid = empty_table-IsValid; objects = [] }

abbrev pub text_of : Expected Text → Option Text
text_of (ok t) = some t
text_of (unexpected e) = none

abbrev pub as_cons : Option Object → Option (LispVal × LispVal)
as_cons (some (cons car cdr)) = some (car, cdr)
as_cons (some (vector es)) = none
as_cons none = none

abbrev pub as_vector : Option Object → Option (List LispVal)
as_vector (some (vector es)) = some es
as_vector (some (cons car cdr)) = none
as_vector none = none

abbrev pub store : Growing → Object → Growing
store g o = record g { objects = g.objects ++ (o ∷ []) }

-- There are 2 ^ 47 ids of either kind.
abbrev pub ids : ℕ
ids = 2 ^ 47

pub interned :
    (g : Growing) (s : Text)
    → g.table.next_id < ids
    → (id : ℕ) × (t' : InternTable) × (intern s g.table ≡ (t', ok id)) × Interned s g.table t' id
interned g s h = intern_lem g.table g.valid s (omega arith)

abbrev pub growing : Memory
growing = record {
  State = Growing;
  get_string = λ g id. text_of (get_string id g.table);
  intern = λ g s.
      dite (dec_lt g.table.next_id ids)
        (λ h. let r = interned g s h in some (r.0, record g { table = r.1; valid = r.3.valid }))
        (λ _. none);
  get_cons = λ g id. as_cons (get_elem? g.objects id);
  get_vector = λ g id. as_vector (get_elem? g.objects id);
  make_cons = λ g car cdr.
      dite (dec_lt (length g.objects) ids)
        (λ h. some (box Tag.heap_object (length g.objects), store g (cons car cdr))) (λ _. none);
  make_vector = λ g es.
      dite (dec_lt (length g.objects) ids)
        (λ h. some (box Tag.heap_object (length g.objects), store g (vector es))) (λ _. none);
}

get_elem?-append :
    (xs ys : List Object) (i : ℕ) (x : Object)
    → get_elem? xs i ≡ some x
    → get_elem? (xs ++ ys) i ≡ some x
get_elem?-append [] ys i x h = cc
get_elem?-append (y ∷ xs) ys zero x h = h
get_elem?-append (y ∷ xs) ys (suc i) x h = get_elem?-append xs ys i x h

get_elem?-length : (xs : List Object) (x : Object) → get_elem? (xs ++ (x ∷ [])) (length xs) ≡ some x
get_elem?-length [] x = refl
get_elem?-length (y ∷ xs) x = get_elem?-length xs x

kept_cons :
    (o o' : Option Object) (c : LispVal × LispVal)
    → ((x : Object) → o ≡ some x → o' ≡ some x)
    → as_cons o ≡ some c
    → as_cons o' ≡ some c
kept_cons (some (cons a d)) o' c k h = rw (k (cons a d) refl) h
kept_cons (some (vector es)) o' c k h = cc
kept_cons none o' c k h = cc

kept_vector :
    (o o' : Option Object) (es : List LispVal)
    → ((x : Object) → o ≡ some x → o' ≡ some x)
    → as_vector o ≡ some es
    → (as_cons o' ≡ none) × (as_vector o' ≡ some es)
kept_vector (some (cons a d)) o' es k h = cc
kept_vector (some (vector xs)) o' es k h = rw (k (vector xs) refl) (refl, h)
kept_vector none o' es k h = cc

store-Grows : (g : Growing) (o : Object) → Grows growing g (store g o)
store-Grows g o = record {
  strings = λ id t h. h;
  conses = λ id c h.
      kept_cons (get_elem? g.objects id) _ c (λ x. get_elem?-append g.objects (o ∷ []) id x) h;
  vectors = λ id es _ h.
      kept_vector (get_elem? g.objects id) _ es (λ x. get_elem?-append g.objects (o ∷ []) id x) h;
}

abbrev pub growing_room : Growing → ℕ
growing_room g = min (ids - g.table.next_id) (ids - length g.objects)

text_of_iff : (e : Expected Text) (s : Text) → (text_of e ≡ some s) ↔ (e ≡ ok s)
text_of_iff (ok t) s = (λ h. cc, λ h. cc)
text_of_iff (unexpected e) s = (λ h. cc, λ h. cc)

strings_kept :
    (t t' : InternTable)
    → ((j : ℕ) (r : Text) → find_text j t.id_to_str ≡ some r → find_text j t'.id_to_str ≡ some r)
    → (id : ℕ) (s : Text) → text_of (get_string id t) ≡ some s
    → text_of (get_string id t') ≡ some s
strings_kept t t' k id s h = (text_of_iff (get_string id t') s).1 (
    (get_string_iff t' id s).1
      (k id s ((get_string_iff t id s).0 ((text_of_iff (get_string id t) s).0 h))))

interned-Grows :
    (g : Growing) (t' : InternTable) (v : IsValid t')
    → ((j : ℕ) (r : Text)
        → find_text j g.table.id_to_str ≡ some r
        → find_text j t'.id_to_str ≡ some r)
    → Grows growing g (record g { table = t'; valid = v })
interned-Grows g t' v k = record {
  strings = strings_kept g.table t' k;
  conses = λ id c h. h;
  vectors = λ id es h h'. (h, h');
}

pub growing-IsLawful : IsLawful growing
growing-IsLawful = record {
  room = growing_room;
  intern_lem = λ g s r.
      let l : g.table.next_id < ids = omega arith in
      let i = interned g s l in
      let t' = i.1 in
      let facts = i.3 in
      (
        i.0,
        record g { table = t'; valid = facts.valid },
        dif_pos (dec_lt g.table.next_id ids) le_prop l _ _,
        facts.in_range,
        (text_of_iff (get_string i.0 t') s).1
            ((get_string_iff t' i.0 s).1 (facts.valid.known s i.0 facts.is_known)),
        interned-Grows g t' facts.valid facts.kept,
        let c = facts.count in omega arith,
      );
  make_cons_lem = λ g car cdr r.
      let l : length g.objects < ids = omega arith in
      (
        length g.objects,
        store g (cons car cdr),
        dif_pos (dec_lt (length g.objects) ids) le_prop l _ _,
        l,
        rw (get_elem?-length g.objects (cons car cdr)),
        store-Grows g (cons car cdr),
        omega (arith, length-append {0} g.objects (cons car cdr ∷ [])),
      );
  make_vector_lem = λ g es r.
      let l : length g.objects < ids = omega arith in
      (
        length g.objects,
        store g (vector es),
        dif_pos (dec_lt (length g.objects) ids) le_prop l _ _,
        l,
        rw (get_elem?-length g.objects (vector es)),
        rw (get_elem?-length g.objects (vector es)),
        store-Grows g (vector es),
        omega (arith, length-append {0} g.objects (vector es ∷ [])),
      );
}

pub room_lem : (g : Growing) → growing-IsLawful.room g ≡ growing_room g
unfolding growing-IsLawful
room_lem g = refl
