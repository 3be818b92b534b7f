-- ===== src/Serializer/Stream/Ends.antt =====
-- Every reader ends, and leaves no more of the stream than there was.
use eta.Prelude.{
  ℕ, zero, suc, ◌-◌, ◌≤◌, ◌<◌, ◌≡◌, refl, Bool, true, false, if◌then◌else◌, List, [], ◌∷◌, length,
  arith,
}
use eta.Serializer.Stream.{
  Result, ok, unexpected, stuck, SerializerError, truncated, Reader, ◌>>=◌, done, fail, refuse_if,
  read_bytes, word_of_bytes, read_word, read_u8, read_u16, read_u32, read_u64, read_i64, read_f64,
  read_str, read_times,
}

-- An error, or success with at most `n` bytes left; never out of fuel.
abbrev pub Within : {M A : Type 0} → ℕ → Result (A × M × List ℕ) → Type 0
Within n (ok (a, m, s)) = length s ≤ n
Within n (unexpected e) = Unit
Within n stuck = ⊥

-- The reader ends on each stream of fewer than `k` bytes.
pub record EndsBelow {M A : Type 0} (k : ℕ) (r : Reader M A) : Type 0 where
  pub ends : (m : M) (s : List ℕ) → length s < k → Within (length s) (r m s)

pub Within-mono :
    {M A : Type 0} (x : Result (A × M × List ℕ)) (n n' : ℕ) → n ≤ n' → Within n x → Within n' x
Within-mono (ok (a, m, s)) n n' h w = omega arith
Within-mono (unexpected e) n n' h w = tt
Within-mono stuck n n' h w = w

pub Within->>= :
    {M A B : Type 0} (r : Reader M A) (f : A → Reader M B) (m : M) (s : List ℕ) (n n' : ℕ)
    → Within n (r m s)
    → ((a : A) (m' : M) (s' : List ℕ) → length s' ≤ n → Within n' (f a m' s'))
    → Within n' ((r >>= f) m s)
Within->>= {M} {A} {B} r f m s n n' w k =
    (elim (r m s)
        as (λ x.
          Within n x
          → Within {M = M} {A = B} n' (elim x [
            | ok (a, m', s') ↦ f a m' s'
            | unexpected e ↦ unexpected e
            | stuck ↦ stuck
          ])) [ ok (a, m', s') ↦ λ w. k a m' s' w | unexpected e ↦ λ w. tt | stuck ↦ λ w. w ])
      w

module _ {M : Type 0} (k : ℕ) where
  pub EndsBelow->>= :
      {A B : Type 0} (r : Reader M A) (f : A → Reader M B)
      → EndsBelow k r
      → ((a : A) → EndsBelow k (f a))
      → EndsBelow k (r >>= f)
  EndsBelow->>= r f h g = record {
    ends = λ m s l. Within->>= r f m s (length s) (length s) (h.ends m s l) (λ a m' s' l'.
        Within-mono (f a m' s') (length s') (length s) l' ((g a).ends m' s' (omega arith)));
  }

  pub EndsBelow-done : {A : Type 0} (a : A) → EndsBelow k (done {M = M} a)
  EndsBelow-done a = record { ends = λ m s l. omega arith }

  pub EndsBelow-fail : {A : Type 0} (e : SerializerError) → EndsBelow k (fail {M = M} {A = A} e)
  EndsBelow-fail e = record { ends = λ m s l. tt }

  pub EndsBelow-refuse_if : (b : Bool) (e : SerializerError) → EndsBelow k (refuse_if {M = M} b e)
  EndsBelow-refuse_if true e = record { ends = λ m s l. tt }
  EndsBelow-refuse_if false e = record { ends = λ m s l. omega arith }

  pub EndsBelow-if :
      {A : Type 0} (b : Bool) {x y : Reader M A}
      → EndsBelow k x
      → EndsBelow k y
      → EndsBelow k (if b then x else y)
  EndsBelow-if true h g = h
  EndsBelow-if false h g = g

-- What is read is gone from the stream.
read_bytes-takes :
    {M : Type 0} (n : ℕ) (m : M) (s : List ℕ) → Within (length s - n) (read_bytes n m s)
unfolding read_bytes
read_bytes-takes zero m s = omega arith
read_bytes-takes (suc n) m [] = tt
read_bytes-takes (suc n) m (b ∷ s) =
    Within->>= (read_bytes n) (λ bs. done (b ∷ bs)) m s (length s - n) (suc (length s) - suc n)
      (read_bytes-takes n m s) (λ bs m' s' l. omega arith)

pub read_u8-takes :
    {M : Type 0} (m : M) (b : ℕ) (s : List ℕ) → Within (length s) (read_u8 m (b ∷ s))
unfolding read_u8 read_word
read_u8-takes m b s =
    Within->>= (read_bytes 1) (λ bs. done (word_of_bytes bs)) m (b ∷ s) (suc (length s) - 1)
      (length s) (read_bytes-takes 1 m (b ∷ s)) (λ bs m' s' l. omega arith)

pub read_u8-nothing : {M : Type 0} (m : M) → read_u8 m [] ≡ unexpected truncated
unfolding read_u8 read_word read_bytes
read_u8-nothing m = refl

module _ {M : Type 0} (k : ℕ) where
  pub EndsBelow-read_bytes : (n : ℕ) → EndsBelow k (read_bytes {M = M} n)
  EndsBelow-read_bytes n = record {
    ends = λ m s l.
        Within-mono (read_bytes n m s) (length s - n) (length s) (omega arith)
          (read_bytes-takes n m s);
  }

  EndsBelow-read_word : (n : ℕ) → EndsBelow k (read_word {M = M} n)
  unfolding read_word
  EndsBelow-read_word n =
      EndsBelow->>= k (read_bytes n) _ (EndsBelow-read_bytes n)
        (λ bs. EndsBelow-done k (word_of_bytes bs))

  pub EndsBelow-read_u8 : EndsBelow k (read_u8 {M = M})
  unfolding read_u8
  EndsBelow-read_u8 = EndsBelow-read_word 1

  pub EndsBelow-read_u16 : EndsBelow k (read_u16 {M = M})
  unfolding read_u16
  EndsBelow-read_u16 = EndsBelow-read_word 2

  pub EndsBelow-read_u32 : EndsBelow k (read_u32 {M = M})
  unfolding read_u32
  EndsBelow-read_u32 = EndsBelow-read_word 4

  pub EndsBelow-read_u64 : EndsBelow k (read_u64 {M = M})
  unfolding read_u64
  EndsBelow-read_u64 = EndsBelow-read_word 8

  pub EndsBelow-read_i64 : EndsBelow k (read_i64 {M = M})
  unfolding read_i64
  EndsBelow-read_i64 = search (EndsBelow->>=, EndsBelow-done, EndsBelow-read_u64)

  pub EndsBelow-read_f64 : EndsBelow k (read_f64 {M = M})
  unfolding read_f64
  EndsBelow-read_f64 = EndsBelow-read_u64

  pub EndsBelow-read_str : EndsBelow k (read_str {M = M})
  unfolding read_str
  EndsBelow-read_str =
      search (EndsBelow->>=, EndsBelow-refuse_if, EndsBelow-read_u32, EndsBelow-read_bytes)

  pub EndsBelow-read_times :
      {A : Type 0} (r : Reader M A) (n : ℕ) → EndsBelow k r → EndsBelow k (read_times r n)
  unfolding read_times
  EndsBelow-read_times r zero h = EndsBelow-done k []
  EndsBelow-read_times r (suc n) h =
      search (EndsBelow->>=, EndsBelow-done, h, EndsBelow-read_times r n h)
