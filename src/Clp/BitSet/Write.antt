-- ===== src/Clp/BitSet/Write.antt =====
-- `bits[off / W] |= 1ull << (off % W)`, and words of ones.
use eta.Prelude.{
  ℕ, zero, suc, ◌-◌, ◌*◌, ◌%◌, ◌/◌, ◌^◌, ◌<◌, ◌≡◌, refl, false, arith, ◌||◌, ◌==◌, if◌then◌else◌,
  List, [], ◌∷◌, length, bit-lt, bit-zero, two_pow_mono, bit_or, bit_or-lt, bit-bit_or,
  bit_one_shifted, get_or, set, replicate, length-set,
}
use eta.Clp.BitSet.{has, has-nil, has-cons}

unfoldable pub set_offset : List ℕ → ℕ → List ℕ
set_offset bits off =
    set bits (off / 64) (bit_or (get_or bits (off / 64) 0) (1 * 2 ^ (off % 64) % 2 ^ 64))

pub get_or-set :
    (xs : List ℕ) (i j v : ℕ)
    → i < length xs
    → get_or (set xs i v) j 0 ≡ (if i == j then v else get_or xs j 0)
get_or-set [] i j v h = absurd (omega arith)
get_or-set (x ∷ xs) zero zero v h = refl
get_or-set (x ∷ xs) zero (suc j) v h = ground arith
get_or-set (x ∷ xs) (suc i) zero v h = ground arith
get_or-set (x ∷ xs) (suc i) (suc j) v h = ground (arith, get_or-set xs i j v)

one_digit : (k : ℕ) → k < 64 → 1 * 2 ^ k % 2 ^ 64 ≡ 2 ^ k
one_digit k h = ground (arith, two_pow_mono k 63 (omega arith))

same_place : (m n : ℕ) → (m == n) ≡ (if n / 64 == m / 64 then m % 64 == n % 64 else false)
same_place m n = ground arith

-- After the write the offset is in the set, and nothing else has changed.
pub has-set_offset :
    (ws : List ℕ) (n m : ℕ) → n < 64 * length ws → has (set_offset ws n) m ≡ (has ws m || m == n)
unfolding has set_offset
has-set_offset ws n m h = ground (
  arith,
  get_or-set ws (n / 64) (m / 64) (bit_or (get_or ws (n / 64) 0) (1 * 2 ^ (n % 64) % 2 ^ 64)),
  one_digit (n % 64),
  bit-bit_or (get_or ws (n / 64) 0) (2 ^ (n % 64)) (m % 64),
  bit_one_shifted (n % 64) (m % 64),
  bit-lt (get_or ws (m / 64) 0) (m % 64),
  same_place m n,
)

pub length-set_offset : (ws : List ℕ) (n : ℕ) → length (set_offset ws n) ≡ length ws
unfolding set_offset
length-set_offset ws n = length-set ws (n / 64) _

-- Every word fits 64 digits.
abbrev pub AreWords : List ℕ → Type 0
AreWords [] = Unit
AreWords (w ∷ ws) = (w < 2 ^ 64) × AreWords ws

pub set-AreWords : (ws : List ℕ) (i v : ℕ) → v < 2 ^ 64 → AreWords ws → AreWords (set ws i v)
set-AreWords [] i v h a = tt
set-AreWords (w ∷ ws) zero v h a = (h, a.1)
set-AreWords (w ∷ ws) (suc i) v h a = (a.0, set-AreWords ws i v h a.1)

pub get_or-AreWords : (ws : List ℕ) (i : ℕ) → AreWords ws → get_or ws i 0 < 2 ^ 64
get_or-AreWords [] i a = omega arith
get_or-AreWords (w ∷ ws) zero a = a.0
get_or-AreWords (w ∷ ws) (suc i) a = get_or-AreWords ws i a.1

pub set_offset-AreWords : (ws : List ℕ) (n : ℕ) → AreWords ws → AreWords (set_offset ws n)
unfolding set_offset
set_offset-AreWords ws n a =
    set-AreWords ws (n / 64) _
      (bit_or-lt 64 (get_or ws (n / 64) 0) (1 * 2 ^ (n % 64) % 2 ^ 64)
        (get_or-AreWords ws (n / 64) a) (omega arith))
      a

pub replicate-AreWords : (k w : ℕ) → w < 2 ^ 64 → AreWords (replicate k w)
replicate-AreWords zero w h = tt
replicate-AreWords (suc k) w h = (h, replicate-AreWords k w h)

pub has-replicate_zero : (k n : ℕ) → has (replicate k 0) n ≡ false
has-replicate_zero zero n = has-nil n
has-replicate_zero (suc k) n =
    ground (arith, has-cons 0 (replicate k 0) n, bit-zero n, has-replicate_zero k (n - 64))
