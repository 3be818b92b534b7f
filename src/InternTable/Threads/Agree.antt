-- ===== src/InternTable/Threads/Agree.antt =====
-- Whatever the threads' steps are and in whatever order, all that they answer fits together.
use eta.Prelude.{
  ℕ, suc, ◌+◌, ◌%◌, ◌^◌, ◌<◌, ◌≤◌, ◌≡◌, ◌≢◌, ◌↔◌, ◌⊎◌, refl, sym, ◌∙◌, ◌==◌, ==_iff, ltb,
  if◌then◌else◌, Bool, true, false, Bool-cases, inl, inr, Option, some, none, arith,
}
use eta.NanBox.{payload_mask}
use eta.InternTable.{
  InternTable, Call, looking, missed, numbered, named, collided, returned, failed, step, look,
  take_id, claim, get_string, ok,
}
use eta.InternTable.Maps.{Text, find_id, find_text}
use eta.InternTable.Threads.{owned, Fine, IsValid, Sound, State, Step, advance, Reach, start, next}
use eta.InternTable.Threads.Steps.{
  counted, counted-IsValid, counted-Fine, fresh_id, owned-lt, own_text, absent-Unclaimed,
  with_text-IsValid, with_text-Fine, own_id, with_id-IsValid, with_id-Fine, without_text-IsValid,
  without_text-Fine,
}

-- A step of one call, as the others see it.
record Moves (t : InternTable) (c : Call) (t' : InternTable) (c' : Call) : Type 0 where
  count : t'.next_id ≤ t.next_id + 1
  valid : IsValid t'
  fine : Fine t' c'
  spares : (d : Call) → ((a : ℕ) → owned c ≡ some a → owned d ≡ some a → ⊥) → Fine t d → Fine t' d
  owns : (a : ℕ) → owned c' ≡ some a → (owned c ≡ some a) ⊎ (t.next_id ≤ a)

module _ (t : InternTable) (valid : IsValid t) where
  -- A step that changes no table.
  stays :
      (c c' : Call) → Fine t c' → ((a : ℕ) → owned c' ≡ some a → owned c ≡ some a) → Moves t c t c'
  stays c c' f o = record {
    count = omega arith;
    valid = valid;
    fine = f;
    spares = λ d n g. g;
    owns = λ a h. inl (o a h);
  }

  look-Moves :
      (s : Text) (o : Option ℕ)
      → find_id s t.str_to_id ≡ o
      → Moves t (looking s) (look t s o).0 (look t s o).1
  unfolding look
  look-Moves s none e = stays (looking s) (missed s) tt (λ a h. h)
  look-Moves s (some id) e = stays (looking s) (returned s id) e (λ a h. h)

  numbered_next :
      (s : Text) (b : Bool)
      → Moves t (missed s) (counted t valid) (if b then failed s else numbered s t.next_id)
  numbered_next s true = record {
    count = omega arith;
    valid = counted-IsValid t valid;
    fine = tt;
    spares = λ d n. counted-Fine t valid d;
    owns = λ a h. cc;
  }
  numbered_next s false = record {
    count = omega arith;
    valid = counted-IsValid t valid;
    fine = (omega arith, fresh_id t valid);
    spares = λ d n. counted-Fine t valid d;
    owns = λ a h. inr (ground arith);
  }

  take_id-Moves :
      (s : Text) → t.next_id + 1 < 2 ^ 64 → Moves t (missed s) (take_id t s).0 (take_id t s).1
  unfolding take_id
  take_id-Moves s h =
      let e : (t.next_id + 1) % 2 ^ 64 ≡ t.next_id + 1 = omega arith in
      rw e (numbered_next s (ltb payload_mask t.next_id))

  claim-Moves :
      (s : Text) (id : ℕ) (o : Option ℕ)
      → Fine t (named s id)
      → find_id s t.str_to_id ≡ o
      → Moves t (named s id) (claim t s id o).0 (claim t s id o).1
  unfolding claim
  claim-Moves s id (some result) f e =
      stays (named s id) (collided s id result) (f.0, f.1, f.2, e) (λ a h. h)
  claim-Moves s id none f e = record {
    count = omega arith;
    valid = with_id-IsValid t valid s id f.0 f.1 e;
    fine = own_id t valid s id f.0 f.1 e;
    spares = λ d n. with_id-Fine t valid s id f.0 f.1 e d (n id refl);
    owns = λ a h. cc;
  }

  step-Moves : (c : Call) → Fine t c → t.next_id + 1 < 2 ^ 64 → Moves t c (step t c).0 (step t c).1
  unfolding step
  step-Moves (looking s) f h = look-Moves s (find_id s t.str_to_id) refl
  step-Moves (missed s) f h = take_id-Moves s h
  step-Moves (numbered s id) f h = record {
    count = omega arith;
    valid = with_text-IsValid t valid s id f.0 f.1;
    fine = (f.0, own_text t valid s id f.0 f.1, absent-Unclaimed t valid s id f.0 f.1);
    spares = λ d n. with_text-Fine t valid s id f.0 f.1 d (n id refl);
    owns = λ a h. inl h;
  }
  step-Moves (named s id) f h = claim-Moves s id (find_id s t.str_to_id) f refl
  step-Moves (collided s id result) f h = record {
    count = omega arith;
    valid = without_text-IsValid t valid s id f.0 f.2;
    fine = f.3;
    spares = λ d n. without_text-Fine t valid s id f.0 f.2 d (n id refl);
    owns = λ a h. cc;
  }
  step-Moves (returned s id) f h = stays (returned s id) (returned s id) f (λ a h. h)
  step-Moves (failed s) f h = stays (failed s) (failed s) tt (λ a h. h)

-- What a call owns after its step, no other call owns.
moved-apart :
    {s : State} {n : ℕ} (i k a : ℕ) {t' : InternTable} {c' : Call}
    → Sound n s
    → Moves s.table (s.calls i) t' c'
    → i ≢ k
    → owned c' ≡ some a
    → owned (s.calls k) ≡ some a
    → ⊥
moved-apart {s} i k a sound moves ne p q = elim (moves.owns a p) [
  | inl o ↦ sound.apart i k a ne o q
  | inr l ↦
      absurd (let lt = owned-lt s.table sound.valid (s.calls k) a (sound.fine k) q in omega arith)
]

-- One more step keeps all in order, as long as the counter does not wrap.
Step-Sound : {s s' : State} {n : ℕ} → Step s s' → n + 1 < 2 ^ 64 → Sound n s → Sound (suc n) s'
Step-Sound {n} (advance s i) h sound =
    let moves =
      step-Moves s.table sound.valid (s.calls i) (sound.fine i)
        (let c = sound.count in omega arith) in
    record {
      count = let c = sound.count in let m = moves.count in omega arith;
      valid = moves.valid;
      fine = λ j. elim (Bool-cases (i == j)) [
        | inl e ↦ rw e moves.fine
        | inr e ↦ rw e (
            moves.spares (s.calls j)
              (λ a p q. sound.apart i j a (λ x. cc (e, (==_iff i j).1 x)) p q) (sound.fine j))
      ];
      apart = λ j k a ne p q. elim (Bool-cases (i == j)) [
        | inl e ↦ elim (Bool-cases (i == k)) [
          | inl e' ↦ ne (sym ((==_iff i j).0 e) ∙ (==_iff i k).0 e')
          | inr e' ↦
              moved-apart i k a sound moves (λ x. cc (e', (==_iff i k).1 x)) (rw e at p)
                (rw e' at q)
        ]
        | inr e ↦ elim (Bool-cases (i == k)) [
          | inl e' ↦
              moved-apart i j a sound moves (λ x. cc (e, (==_iff i j).1 x)) (rw e' at q) (rw e at p)
          | inr e' ↦ sound.apart j k a ne (rw e at p) (rw e' at q)
        ]
      ];
    }

Reach-Sound : {texts : ℕ → Text} {n : ℕ} {s : State} → Reach texts n s → n < 2 ^ 64 → Sound n s
unfolding find_id find_text
Reach-Sound start h = record {
  count = omega arith;
  valid = record { known = λ s id e. cc; below = λ id s e. cc };
  fine = λ i. tt;
  apart = λ i j a n p q. cc;
}
Reach-Sound (next r st) h = Step-Sound st (omega arith) (Reach-Sound r (omega arith))

-- The text that a call was given.
abbrev text_of : Call → Text
text_of (looking s) = s
text_of (missed s) = s
text_of (numbered s id) = s
text_of (named s id) = s
text_of (collided s id result) = s
text_of (returned s id) = s
text_of (failed s) = s

text_of-step : (t : InternTable) (c : Call) → text_of (step t c).1 ≡ text_of c
unfolding step look take_id claim
text_of-step t (looking s) = ground arith
text_of-step t (missed s) = ground arith
text_of-step t (numbered s id) = refl
text_of-step t (named s id) = ground arith
text_of-step t (collided s id result) = refl
text_of-step t (returned s id) = refl
text_of-step t (failed s) = refl

text_of-calls :
    {texts : ℕ → Text} {n : ℕ} {s : State}
    → Reach texts n s
    → (i : ℕ) → text_of (s.calls i) ≡ texts i
text_of-calls start i = refl
text_of-calls (next r (advance s k)) i = elim (Bool-cases (k == i)) [
  | inl e ↦ rw e (text_of-step s.table (s.calls k) ∙ rw (← (==_iff k i).0 e) (text_of-calls r k))
  | inr e ↦ rw e (text_of-calls r i)
]

-- Whatever calls run at once and however their steps interleave, in fewer than 2 ^ 64 of them: two
-- calls that have returned answer the same id exactly if they were given the same text, and the text
-- that a call was given is what its id stands for.
pub interned_once :
    {texts : ℕ → Text} {n : ℕ} {s : State}
    → Reach texts n s
    → n < 2 ^ 64
    → (i j : ℕ) (u v : Text) (a b : ℕ) → s.calls i ≡ returned u a
    → s.calls j ≡ returned v b
    → ((a ≡ b) ↔ (texts i ≡ texts j)) × (get_string a s.table ≡ ok (texts i))
unfolding get_string
interned_once {texts} {s} r h i j u v a b p q =
    let sound = Reach-Sound r h in
    let known = sound.valid.known in
    let fi = sound.fine i in
    let fj = sound.fine j in
    let x = rw p at fi in
    let y = rw q at fj in
    let gi = text_of-calls r i in
    let gj = text_of-calls r j in
    let eu : u ≡ texts i = rw p at gi in
    let ev : v ≡ texts j = rw q at gj in
    (
      (λ e. cc (known u a x, known v b y, e, eu, ev), λ e. cc (x, y, e, eu, ev)),
      rw (known u a x, eu),
    )
