-- ===== src/InternTable/Alone.antt =====
-- A call of `intern` with nothing in between.
use eta.Prelude.{
  ℕ, ◌+◌, ◌%◌, ◌^◌, ◌<◌, ◌≤◌, ◌≡◌, ◌↔◌, ltb, false, inl, inr, some, none, Option-cases, arith,
}
use eta.NanBox.{payload_mask}
use eta.InternTable.{
  InternTable, empty_table, step, look, take_id, claim, intern, get_id, get_string, ok,
}
use eta.InternTable.Maps.{Text, find_id, find_text, find_text-put_text}
use eta.InternTable.Threads.{IsValid}
use eta.InternTable.Threads.Steps.{
  counted, counted-IsValid, fresh_id, with_text, own_text, with_text-IsValid, with_id, own_id,
  with_id-IsValid,
}

-- What a call leaves and answers.
pub record Interned (s : Text) (t t' : InternTable) (id : ℕ) : Type 0 where
  pub valid : IsValid t'
  pub in_range : id < 2 ^ 47
  pub is_known : find_id s t'.str_to_id ≡ some id
  pub kept :
      (j : ℕ) (r : Text) → find_text j t.id_to_str ≡ some r → find_text j t'.id_to_str ≡ some r
  pub count : t'.next_id ≤ t.next_id + 1

module _ (t : InternTable) (valid : IsValid t) (s : Text) (room : t.next_id ≤ payload_mask) where
  intern_known :
      (id : ℕ) → find_id s t.str_to_id ≡ some id → (intern s t ≡ (t, ok id)) × Interned s t t id
  unfolding intern step look
  intern_known id e = (
    rw e,
    record {
      valid = valid;
      in_range = let l = valid.below id s (valid.known s id e) in omega arith;
      is_known = e;
      kept = λ j r h. h;
      count = omega arith;
    },
  )

  abbrev named_table : InternTable
  named_table = with_text (counted t valid) (counted-IsValid t valid) s t.next_id (omega arith)

  abbrev new_table : InternTable
  new_table =
      with_id named_table
        (with_text-IsValid (counted t valid) (counted-IsValid t valid) s t.next_id (omega arith)
          (fresh_id t valid))
        s t.next_id (omega arith)

  intern_new :
      find_id s t.str_to_id ≡ none
      → (intern s t ≡ (new_table, ok t.next_id)) × Interned s t new_table t.next_id
  unfolding intern step look take_id claim
  intern_new e =
      let small : (t.next_id + 1) % 2 ^ 64 ≡ t.next_id + 1 = omega arith in
      let inside : ltb payload_mask t.next_id ≡ false = ground arith in
      let c-valid = counted-IsValid t valid in
      let fresh = fresh_id t valid in
      let l : t.next_id < t.next_id + 1 = omega arith in
      let text = own_text (counted t valid) c-valid s t.next_id l fresh in
      let n-valid = with_text-IsValid (counted t valid) c-valid s t.next_id l fresh in
      (
        rw (e, small, inside, e),
        record {
          valid = with_id-IsValid named_table n-valid s t.next_id l text e;
          in_range = omega arith;
          is_known = own_id named_table n-valid s t.next_id l text e;
          kept = λ j r h.
              rw (find_text-put_text j t.next_id s t.id_to_str fresh)
                (ground (arith, valid.below j r h));
          count = omega arith;
        },
      )

  -- With an id left, a call succeeds: the text is known by the id that it answers, the maps agree,
  -- and every id stands for what it stood for.
  pub intern_lem : (id : ℕ) × (t' : InternTable) × (intern s t ≡ (t', ok id)) × Interned s t t' id
  intern_lem = elim (Option-cases (find_id s t.str_to_id)) [
    | inl e ↦ let r = intern_new e in (t.next_id, new_table, r.0, r.1)
    | inr (id, e) ↦ let r = intern_known id e in (id, t, r.0, r.1)
  ]

pub empty_table-IsValid : IsValid empty_table
unfolding find_id find_text
empty_table-IsValid = record { known = λ s id e. cc; below = λ id s e. cc }

pub get_string_iff :
    (t : InternTable) (id : ℕ) (s : Text)
    → (get_string id t ≡ ok s) ↔ (find_text id t.id_to_str ≡ some s)
unfolding get_string
get_string_iff t id s = ground arith

pub get_id_iff :
    (t : InternTable) (s : Text) (id : ℕ) → (get_id s t ≡ ok id) ↔ (find_id s t.str_to_id ≡ some id)
unfolding get_id
get_id_iff t s id = ground arith
