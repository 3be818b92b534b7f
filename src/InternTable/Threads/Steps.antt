-- ===== src/InternTable/Threads/Steps.antt =====
-- What each step of a call does to the maps and to the other calls.
use eta.Prelude.{
  text_eq, text_eq_iff, ℕ, ◌+◌, ◌<◌, ◌≡◌, ap, sym, ◌∙◌, ◌==◌, ==_iff, Bool-cases, inl, inr, some,
  none, arith, Option-cases,
}
use eta.InternTable.{
  InternTable, Call, looking, missed, numbered, named, collided, returned, failed,
}
use eta.InternTable.Maps.{
  Text, find_id, find_text, put_id, put_text, drop_text, find_id-put_id, find_text-put_text,
  find_text-drop_text,
}
use eta.InternTable.Threads.{owned, Fine, Unclaimed, IsValid}

module _ (t : InternTable) (valid : IsValid t) where
  open valid use {known, below}

  -- Taking an id.
  abbrev pub counted : InternTable
  counted = record t { next_id = t.next_id + 1 }

  pub counted-IsValid : IsValid counted
  counted-IsValid = record { known = known; below = λ id s h. let l = below id s h in omega arith }

  pub counted-Fine : (c : Call) → Fine t c → Fine counted c
  counted-Fine (looking s) f = tt
  counted-Fine (missed s) f = tt
  counted-Fine (numbered s id) f = (omega arith, f.1)
  counted-Fine (named s id) f = (omega arith, f.1, f.2)
  counted-Fine (collided s id result) f = (omega arith, f.1, f.2, f.3)
  counted-Fine (returned s id) f = f
  counted-Fine (failed s) f = tt

  pub fresh_id : find_text t.next_id t.id_to_str ≡ none
  fresh_id = elim (Option-cases (find_text t.next_id t.id_to_str)) [
    | inl e ↦ e
    | inr (s, e) ↦ absurd (let l = below t.next_id s e in omega arith)
  ]

  -- A call that owns an id is below the counter.
  pub owned-lt : (c : Call) (a : ℕ) → Fine t c → owned c ≡ some a → a < t.next_id
  owned-lt (looking s) a f h = absurd (cc)
  owned-lt (missed s) a f h = absurd (cc)
  owned-lt (numbered s id) a f h = ground arith
  owned-lt (named s id) a f h = ground arith
  owned-lt (collided s id result) a f h = ground arith
  owned-lt (returned s id) a f h = absurd (cc)
  owned-lt (failed s) a f h = absurd (cc)

  module _ (s : Text) (id : ℕ) (l : id < t.next_id) where
    -- Naming an id.
    abbrev pub with_text : InternTable
    with_text = record t { id_to_str = put_text id s t.id_to_str }

    module _ (absent : find_text id t.id_to_str ≡ none) where
      other_text :
          (j : ℕ) → (j ≡ id → ⊥) → find_text j with_text.id_to_str ≡ find_text j t.id_to_str
      other_text j h =
          rw (find_text-put_text j id s t.id_to_str absent) (ground (arith, ==_iff id j))

      pub own_text : find_text id with_text.id_to_str ≡ some s
      own_text = rw (find_text-put_text id id s t.id_to_str absent) (ground (arith, ==_iff id id))

      pub absent-Unclaimed : Unclaimed t id
      absent-Unclaimed r h = cc (known r id h, absent)

      pub with_text-IsValid : IsValid with_text
      with_text-IsValid = record {
        known = λ r j h. other_text j (λ e. absent-Unclaimed r (rw (← e) h)) ∙ known r j h;
        below = λ j r h. elim (Bool-cases (j == id)) [
          | inl e ↦ rw ((==_iff j id).0 e) l
          | inr e ↦ below j r (sym (other_text j (λ q. cc (e, (==_iff j id).1 q))) ∙ h)
        ];
      }

      pub with_text-Fine : (c : Call) → (owned c ≡ some id → ⊥) → Fine t c → Fine with_text c
      with_text-Fine (looking r) n f = tt
      with_text-Fine (missed r) n f = tt
      with_text-Fine (numbered r j) n f = (f.0, other_text j (λ e. n (ap some e)) ∙ f.1)
      with_text-Fine (named r j) n f = (f.0, other_text j (λ e. n (ap some e)) ∙ f.1, f.2)
      with_text-Fine (collided r j result) n f =
          (f.0, other_text j (λ e. n (ap some e)) ∙ f.1, f.2, f.3)
      with_text-Fine (returned r j) n f = f
      with_text-Fine (failed r) n f = tt

    -- Making an id known.
    abbrev pub with_id : InternTable
    with_id = record t { str_to_id = put_id s id t.str_to_id }

    module _ (named_s : find_text id t.id_to_str ≡ some s)
        (unknown : find_id s t.str_to_id ≡ none) where
      pub own_id : find_id s with_id.str_to_id ≡ some id
      own_id = rw (find_id-put_id s s id t.str_to_id) (ground (arith, text_eq_iff s s))

      kept_id :
          (r : Text) (j : ℕ) → find_id r t.str_to_id ≡ some j → find_id r with_id.str_to_id ≡ some j
      kept_id r j h = elim (Bool-cases (text_eq s r)) [
        | inl e ↦ cc (h, unknown, ap (λ x. find_id x t.str_to_id) ((text_eq_iff s r).0 e))
        | inr e ↦ rw (find_id-put_id r s id t.str_to_id, e) h
      ]

      other_id :
          (r : Text) (j : ℕ)
          → (j ≡ id → ⊥)
          → find_id r with_id.str_to_id ≡ some j
          → find_id r t.str_to_id ≡ some j
      other_id r j n h = let h' = rw (find_id-put_id r s id t.str_to_id) at h in ground (arith, n)

      pub with_id-IsValid : IsValid with_id
      with_id-IsValid = record {
        known = λ r j h. elim (Bool-cases (text_eq s r)) [
          | inl e ↦
              let h' = rw (find_id-put_id r s id t.str_to_id, e) at h in
              cc (h', named_s, (text_eq_iff s r).0 e)
          | inr e ↦ known r j (rw (find_id-put_id r s id t.str_to_id, e) at h)
        ];
        below = below;
      }

      pub with_id-Fine : (c : Call) → (owned c ≡ some id → ⊥) → Fine t c → Fine with_id c
      with_id-Fine (looking r) n f = tt
      with_id-Fine (missed r) n f = tt
      with_id-Fine (numbered r j) n f = f
      with_id-Fine (named r j) n f = (f.0, f.1, λ q h. f.2 q (other_id q j (λ e. n (ap some e)) h))
      with_id-Fine (collided r j result) n f =
          (f.0, f.1, λ q h. f.2 q (other_id q j (λ e. n (ap some e)) h), kept_id r result f.3)
      with_id-Fine (returned r j) n f = kept_id r j f
      with_id-Fine (failed r) n f = tt

    -- Giving an id up.
    abbrev pub without_text : InternTable
    without_text = record t { id_to_str = drop_text id t.id_to_str }

    module _ (unclaimed : Unclaimed t id) where
      kept_text :
          (j : ℕ) → (j ≡ id → ⊥) → find_text j without_text.id_to_str ≡ find_text j t.id_to_str
      kept_text j h = rw (find_text-drop_text j id t.id_to_str) (ground (arith, ==_iff id j))

      pub without_text-IsValid : IsValid without_text
      without_text-IsValid = record {
        known = λ r j h. kept_text j (λ e. unclaimed r (rw (← e) h)) ∙ known r j h;
        below = λ j r h. elim (Bool-cases (j == id)) [
          | inl e ↦ rw ((==_iff j id).0 e) l
          | inr e ↦ below j r (sym (kept_text j (λ q. cc (e, (==_iff j id).1 q))) ∙ h)
        ];
      }

      pub without_text-Fine : (c : Call) → (owned c ≡ some id → ⊥) → Fine t c → Fine without_text c
      without_text-Fine (looking r) n f = tt
      without_text-Fine (missed r) n f = tt
      without_text-Fine (numbered r j) n f = (f.0, kept_text j (λ e. n (ap some e)) ∙ f.1)
      without_text-Fine (named r j) n f = (f.0, kept_text j (λ e. n (ap some e)) ∙ f.1, f.2)
      without_text-Fine (collided r j result) n f =
          (f.0, kept_text j (λ e. n (ap some e)) ∙ f.1, f.2, f.3)
      without_text-Fine (returned r j) n f = f
      without_text-Fine (failed r) n f = tt
