-- ===== src/Serializer/Stream.antt =====
-- eta/core/src/eta/runtime/vm/bytecode_serializer.cpp, the binary input and output helpers. A
-- stream is the list of its bytes; a reader also carries the memory of the machine, which it mostly
-- leaves alone.
pub mod RoundTrip
pub mod Ends
use eta.Prelude.{
  ℕ, zero, suc, ◌+◌, ◌*◌, ◌/◌, ◌%◌, ◌^◌, ltb, Bool, if◌then◌else◌, List, [], ◌∷◌, ◌++◌, length, ℤ,
  to_u64, to_i64, Option, none, some,
}

pub data SerializerError : Type 0 where
  bad_magic version_mismatch truncated corrupt_constant hash_mismatch io_error : SerializerError
  builtin_count_mismatch invalid_bytecode : SerializerError

-- `std::expected<A, SerializerError>`. `stuck` is no value of the source: a recursion ran out of
-- fuel.
pub data Result {ℓ} (A : Type ℓ) : Type ℓ where
  ok : A → Result A
  unexpected : SerializerError → Result A
  stuck : Result A

-- A string as its bytes.
abbrev pub Text : Type 0
Text = List ℕ

-- A reader takes the memory and the rest of the stream.
abbrev pub Reader : Type 0 → Type 0 → Type 0
Reader M A = M → List ℕ → Result (A × M × List ℕ)

infixl 5 ◌>>=◌ ◌>>◌
abbrev pub ◌>>=◌ : {M A B : Type 0} → Reader M A → (A → Reader M B) → Reader M B
◌>>=◌ r f m s = elim (r m s) [
  | ok (a, m', s') ↦ f a m' s'
  | unexpected e ↦ unexpected e
  | stuck ↦ stuck
]

abbrev pub ◌>>◌ : {M B : Type 0} → Reader M (Unit {0}) → Reader M B → Reader M B
r >> k = r >>= λ _. k

abbrev pub done : {M A : Type 0} → A → Reader M A
done a m s = ok (a, m, s)

abbrev pub fail : {M A : Type 0} → SerializerError → Reader M A
fail e m s = unexpected e

-- `if (test) return std::unexpected(e);`
abbrev pub refuse_if : {M : Type 0} → Bool → SerializerError → Reader M (Unit {0})
refuse_if test e = if test then fail e else done tt

-- `k` bytes of a word, the least significant first, whatever the byte order of the host.
pub le_bytes : ℕ → ℕ → List ℕ
le_bytes zero v = []
le_bytes (suc k) v = v % 256 ∷ le_bytes k (v / 256)

pub write_u8 : ℕ → List ℕ
write_u8 = le_bytes 1

pub write_u16 : ℕ → List ℕ
write_u16 = le_bytes 2

pub write_u32 : ℕ → List ℕ
write_u32 = le_bytes 4

pub write_u64 : ℕ → List ℕ
write_u64 = le_bytes 8

pub write_i64 : ℤ → List ℕ
write_i64 v = write_u64 (to_u64 v)

-- A double is its bit pattern.
pub write_f64 : ℕ → List ℕ
write_f64 = write_u64

pub write_str : Text → List ℕ
write_str s = write_u32 (length s % 2 ^ 32) ++ s

-- `for (const auto& a : xs)` around a writer
module _ {A : Type 0} (w : A → List ℕ) where
  unfoldable pub write_each : List A → List ℕ
  write_each [] = []
  write_each (a ∷ xs) = w a ++ write_each xs

pub word_of_bytes : List ℕ → ℕ
word_of_bytes [] = 0
word_of_bytes (b ∷ bs) = b + 256 * word_of_bytes bs

abbrev pub max_string_len : ℕ
max_string_len = 64 * 1024

-- Where a helper of the source answers `false`, its callers report `Truncated`.
module _ {M : Type 0} where
  -- `is.read` of `k` bytes; a stream that ends before is no longer good.
  pub read_bytes : ℕ → Reader M (List ℕ)
  read_bytes zero m s = ok ([], m, s)
  read_bytes (suc k) m [] = unexpected truncated
  read_bytes (suc k) m (b ∷ s) = (read_bytes k >>= λ bs. done (b ∷ bs)) m s

  pub read_word : ℕ → Reader M ℕ
  read_word k = do bs ← read_bytes k; done (word_of_bytes bs)

  pub read_u8 : Reader M ℕ
  read_u8 = read_word 1

  pub read_u16 : Reader M ℕ
  read_u16 = read_word 2

  pub read_u32 : Reader M ℕ
  read_u32 = read_word 4

  pub read_u64 : Reader M ℕ
  read_u64 = read_word 8

  pub read_i64 : Reader M ℤ
  read_i64 = do v ← read_u64; done (to_i64 v)

  pub read_f64 : Reader M ℕ
  read_f64 = read_u64

  pub read_str : Reader M Text
  read_str = do len ← read_u32; refuse_if (ltb max_string_len len) truncated; read_bytes len

  -- `for (i = 0; i < n; ++i)` around a reader
  unfoldable pub read_times : {A : Type 0} → Reader M A → ℕ → Reader M (List A)
  read_times r zero = done []
  read_times r (suc n) = do a ← r; rest ← read_times r n; done (a ∷ rest)
