-- ===== src/Serializer/Stream/RoundTrip.antt =====
-- What the stream helpers write, they read.
use eta.Prelude.{
  ℕ, zero, suc, ◌/◌, ◌%◌, ◌^◌, ◌≤◌, ◌<◌, ◌≡◌, refl, pos, negsuc, All, ltb, false, List, [], ◌∷◌,
  ◌++◌, length, ℤ, to_u64, to_i64-to_u64, IsInt64, arith,
}
use mathlib.Core.List.{append_assoc}
use native.Mathlib.Nat.{pow-suc}
use eta.Serializer.Stream.{
  ok, ◌>>=◌, Reader, le_bytes, write_u8, write_u16, write_u32, write_u64, write_i64, write_f64,
  write_str, read_bytes, word_of_bytes, read_word, read_u8, read_u16, read_u32, read_u64, read_i64,
  read_f64, read_str, read_times, write_each, max_string_len,
}

-- The reader takes what was written off the front of any stream, and leaves the memory alone.
abbrev pub Trips : {M A : Type 0} → Reader M A → (A → List ℕ) → (A → Type 0) → Type 0
Trips {M = M} {A} r w P =
    (a : A) → P a → (m : M) (rest : List ℕ) → r m (w a ++ rest) ≡ ok (a, m, rest)

to_u64-lt : (v : ℤ) → to_u64 v < 2 ^ 64
to_u64-lt (pos n) = omega arith
to_u64-lt (negsuc n) = omega arith

module _ {M : Type 0} where
  pub read_bytes_lem :
      (bs : List ℕ) (m : M) (rest : List ℕ)
      → read_bytes (length bs) m (bs ++ rest) ≡ ok (bs, m, rest)
  unfolding read_bytes
  read_bytes_lem [] m rest = refl
  read_bytes_lem (b ∷ bs) m rest = rw (read_bytes_lem bs m rest)

  read_bytes-le_bytes :
      (k v : ℕ) (m : M) (rest : List ℕ)
      → read_bytes k m (le_bytes k v ++ rest) ≡ ok (le_bytes k v, m, rest)
  unfolding read_bytes le_bytes
  read_bytes-le_bytes zero v m rest = refl
  read_bytes-le_bytes (suc k) v m rest = rw (read_bytes-le_bytes k (v / 256) m rest)

word_of_bytes-le_bytes : (k v : ℕ) → v < 256 ^ k → word_of_bytes (le_bytes k v) ≡ v
unfolding word_of_bytes le_bytes
word_of_bytes-le_bytes zero v h = omega arith
word_of_bytes-le_bytes (suc k) v h =
    omega (arith, pow-suc 256 k, word_of_bytes-le_bytes k (v / 256) (omega (arith, pow-suc 256 k)))

module _ {M : Type 0} where
  read_word-Trips : (k : ℕ) → Trips {M = M} (read_word k) (le_bytes k) (λ v. v < 256 ^ k)
  unfolding read_word
  read_word-Trips k v h m rest =
      rw (read_word, read_bytes-le_bytes k v m rest, ◌>>=◌, word_of_bytes-le_bytes k v h)

  pub read_u8-Trips : Trips {M = M} read_u8 write_u8 (λ v. v < 2 ^ 8)
  unfolding read_u8 write_u8
  read_u8-Trips = read_word-Trips 1

  pub read_u16-Trips : Trips {M = M} read_u16 write_u16 (λ v. v < 2 ^ 16)
  unfolding read_u16 write_u16
  read_u16-Trips = read_word-Trips 2

  pub read_u32-Trips : Trips {M = M} read_u32 write_u32 (λ v. v < 2 ^ 32)
  unfolding read_u32 write_u32
  read_u32-Trips = read_word-Trips 4

  pub read_u64-Trips : Trips {M = M} read_u64 write_u64 (λ v. v < 2 ^ 64)
  unfolding read_u64 write_u64
  read_u64-Trips = read_word-Trips 8

  pub read_i64-Trips : Trips {M = M} read_i64 write_i64 IsInt64
  unfolding read_i64 write_i64
  read_i64-Trips v h m rest =
      rw (read_i64, read_u64-Trips (to_u64 v) (to_u64-lt v) m rest, ◌>>=◌, to_i64-to_u64 v h)

  pub read_f64-Trips : Trips {M = M} read_f64 write_f64 (λ v. v < 2 ^ 64)
  unfolding read_f64 write_f64
  read_f64-Trips = read_u64-Trips

  pub read_str-Trips : Trips {M = M} read_str write_str (λ s. length s ≤ max_string_len)
  unfolding read_str write_str
  read_str-Trips s h m rest =
      let e : length s % 2 ^ 32 ≡ length s = omega arith in
      let f : ltb max_string_len (length s) ≡ false = ground arith in
      rw (
        append_assoc (write_u32 (length s % 2 ^ 32)) s rest,
        e,
        read_u32-Trips (length s) (omega arith) m (s ++ rest),
        ◌>>=◌,
        f,
        read_bytes_lem s m rest,
      )

  -- A loop of readers takes what the loop of writers wrote.
  pub read_times-Trips :
      {A : Type 0} (r : Reader M A) (w : A → List ℕ) (P : A → Type 0)
      → Trips r w P
      → (xs : List A) → All P xs
      → (m : M) (rest : List ℕ)
      → read_times r (length xs) m (write_each w xs ++ rest) ≡ ok (xs, m, rest)
  unfolding read_times write_each
  read_times-Trips r w P t [] h m rest = refl
  read_times-Trips r w P t (a ∷ xs) h m rest = rw (
    append_assoc (w a) (write_each w xs) rest,
    t a h.0 m (write_each w xs ++ rest),
    ◌>>=◌,
    read_times-Trips r w P t xs h.1 m rest,
  )

pub length-write_u8 : (v : ℕ) → length (write_u8 v) ≡ 1
unfolding write_u8 le_bytes
length-write_u8 v = refl
