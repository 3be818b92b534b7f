-- ===== src/Serializer/Constants/Ends.antt =====
-- `read_constant` ends.
use eta.Prelude.{ℕ, zero, suc, ◌<◌, List, [], ◌∷◌, length, ltb, Option, arith}
use eta.NanBox as NanBox
use eta.NanBox.{LispVal, Expected}
use eta.Serializer.Stream.{
  Reader, ◌>>=◌, read_u8, read_u32, read_times, refuse_if, corrupt_constant,
}
use eta.Serializer.Stream.Ends.{
  EndsBelow, Within, Within->>=, Within-mono, EndsBelow->>=, EndsBelow-done, EndsBelow-fail,
  EndsBelow-refuse_if, EndsBelow-if, EndsBelow-read_u32, EndsBelow-read_u64, EndsBelow-read_i64,
  EndsBelow-read_f64, EndsBelow-read_str, EndsBelow-read_times, read_u8-takes, read_u8-nothing,
}
use eta.Serializer.Memory.{Memory}
use eta.Serializer.Constants.{
  read_constant, read_tagged, read_cons, read_vector, encoded, stored, max_vec_len,
}

module _ (memory : Memory) (k : ℕ) where
  open memory use {State}

  EndsBelow-encoded : {A : Type 0} (e : Expected A) → EndsBelow k (encoded memory e)
  EndsBelow-encoded (NanBox.ok a) = EndsBelow-done k a
  EndsBelow-encoded (NanBox.unexpected e) = EndsBelow-fail k _

  EndsBelow-stored : {A : Type 0} (op : State → Option (A × State)) → EndsBelow k (stored memory op)
  EndsBelow-stored op = record { ends = λ m s l. ground arith }

  module _ (read : Reader State LispVal) (h : EndsBelow k read) where
    EndsBelow-read_cons : EndsBelow k (read_cons memory read)
    unfolding read_cons
    EndsBelow-read_cons = search (EndsBelow->>=, h, EndsBelow-stored)

    EndsBelow-read_vector : EndsBelow k (read_vector memory read)
    unfolding read_vector
    EndsBelow-read_vector = EndsBelow->>= k read_u32 _ (EndsBelow-read_u32 k) λ len.
        EndsBelow->>= k (refuse_if (ltb max_vec_len len) corrupt_constant) _
          (EndsBelow-refuse_if k (ltb max_vec_len len) corrupt_constant)
          λ _.
            EndsBelow->>= k (read_times read len) _ (EndsBelow-read_times k read len h)
              λ elements. EndsBelow-stored (λ m. memory.make_vector m elements)

    EndsBelow-read_tagged : (t : ℕ) → EndsBelow k (read_tagged memory read t)
    unfolding read_tagged
    EndsBelow-read_tagged t =
        search
          (
            EndsBelow-if, EndsBelow->>=, EndsBelow-done, EndsBelow-fail, EndsBelow-encoded,
            EndsBelow-stored, EndsBelow-read_u32, EndsBelow-read_u64, EndsBelow-read_i64,
            EndsBelow-read_f64, EndsBelow-read_str, EndsBelow-read_cons, EndsBelow-read_vector,
          )
          depth 24 fits 4000

module _ (memory : Memory) where
  open memory use {State}

  -- The recursion takes no more fuel than there are bytes.
  pub EndsBelow-read_constant : (fuel : ℕ) → EndsBelow fuel (read_constant memory fuel)
  unfolding read_constant
  EndsBelow-read_constant zero = record { ends = λ m s l. absurd (omega arith) }
  EndsBelow-read_constant (suc fuel) = record { ends = ends fuel (EndsBelow-read_constant fuel) }
    where
      ends :
          (fuel : ℕ)
          → EndsBelow fuel (read_constant memory fuel)
          → (m : State) (s : List ℕ) → length s < suc fuel
          → Within (length s) (read_constant memory (suc fuel) m s)
      ends fuel h m [] l = rw (read_u8-nothing m, ◌>>=◌) tt
      ends fuel h m (b ∷ s) l =
          Within->>= read_u8 (read_tagged memory (read_constant memory fuel)) m (b ∷ s) (length s)
            (suc (length s)) (read_u8-takes m b s)
            λ t m' s' l'.
              Within-mono (read_tagged memory (read_constant memory fuel) t m' s') (length s')
                (suc (length s)) (omega arith)
                ((EndsBelow-read_tagged memory fuel (read_constant memory fuel) h t).ends m' s'
                  (omega arith))
