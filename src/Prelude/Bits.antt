-- ===== src/Prelude/Bits.antt =====
-- `&` and `|` on machine words, digit by digit. `bit x i` is digit `i` of `x`.
use Prim.Native.Nat.{
  ℕ, zero, suc, ◌+◌, ◌-◌, ◌*◌, ◌/◌, ◌%◌, ◌^◌, ◌≤◌, ◌<◌, min, max, bit_and, bit_or, digits,
  bit_and-bitwise, bit_or-bitwise,
}
use mathlib.Core.Path.{◌≡◌, refl, ap, ◌∙◌}
use native.Mathlib.Nat.{pow-suc, one-le-pow, div-div-eq-div-mul}
use native.Mathlib.Omega.{arith}
use eta.Prelude.Tests.{◌==◌, ltb, if◌then◌else◌}

abbrev pub bit : ℕ → ℕ → ℕ
bit x zero = x % 2
bit x (suc i) = bit (x / 2) i

-- The native operations are stated by a recursion on fuel that starts at the first argument.
module _ (z : ℕ → ℕ) (f : ℕ → ℕ → ℕ) where
  enough_fuel : (n m a b : ℕ) → a ≤ n → a ≤ m → digits z f n a b ≡ digits z f m a b
  enough_fuel zero zero a b p q = refl
  enough_fuel zero (suc m) zero b p q = refl
  enough_fuel (suc n) zero zero b p q = refl
  enough_fuel (suc n) (suc m) zero b p q = refl
  enough_fuel zero _ (suc a) b p q = absurd (omega arith)
  enough_fuel (suc n) zero (suc a) b p q = absurd (omega arith)
  enough_fuel (suc n) (suc m) (suc a) b p q =
      ap (λ t. t * 2 + f (suc a % 2) (b % 2))
        (enough_fuel n m (suc a / 2) (b / 2) (omega arith) (omega arith))

pub bit_or_halves : (a b : ℕ) → bit_or a b ≡ bit_or (a / 2) (b / 2) * 2 + max (a % 2) (b % 2)
bit_or_halves zero b = omega (arith, bit_or-bitwise 0 b, bit_or-bitwise 0 (b / 2))
bit_or_halves (suc a) b = omega (
  arith,
  bit_or-bitwise (suc a) b,
  bit_or-bitwise (suc a / 2) (b / 2),
  enough_fuel (λ y. y) max a (suc a / 2) (suc a / 2) (b / 2) (omega arith) (omega arith),
)

pub bit_and_halves : (a b : ℕ) → bit_and a b ≡ bit_and (a / 2) (b / 2) * 2 + min (a % 2) (b % 2)
bit_and_halves zero b = omega (arith, bit_and-bitwise 0 b, bit_and-bitwise 0 (b / 2))
bit_and_halves (suc a) b = omega (
  arith,
  bit_and-bitwise (suc a) b,
  bit_and-bitwise (suc a / 2) (b / 2),
  enough_fuel (λ y. 0) min a (suc a / 2) (suc a / 2) (b / 2) (omega arith) (omega arith),
)

pub bit-lt : (x i : ℕ) → bit x i < 2
bit-lt x zero = omega arith
bit-lt x (suc i) = bit-lt (x / 2) i

pub bit-bit_or : (x y i : ℕ) → bit (bit_or x y) i ≡ max (bit x i) (bit y i)
bit-bit_or x y zero = omega (arith, bit_or_halves x y)
bit-bit_or x y (suc i) = ap (λ t. bit t i) (halved x y) ∙ bit-bit_or (x / 2) (y / 2) i
  where
    halved : (x y : ℕ) → bit_or x y / 2 ≡ bit_or (x / 2) (y / 2)
    halved x y = omega (arith, bit_or_halves x y)

pub bit-bit_and : (x y i : ℕ) → bit (bit_and x y) i ≡ min (bit x i) (bit y i)
bit-bit_and x y zero = omega (arith, bit_and_halves x y)
bit-bit_and x y (suc i) = ap (λ t. bit t i) (halved x y) ∙ bit-bit_and (x / 2) (y / 2) i
  where
    halved : (x y : ℕ) → bit_and x y / 2 ≡ bit_and (x / 2) (y / 2)
    halved x y = omega (arith, bit_and_halves x y)

double_power : (q k : ℕ) → q * 2 ^ suc k ≡ 2 * (q * 2 ^ k)
double_power q k = omega (arith, ap (λ (t : ℕ). q * t) (pow-suc 2 k))

pub two_pow_pos : (k : ℕ) → 1 ≤ 2 ^ k
two_pow_pos k = one-le-pow k 2 (omega arith)

zero-bit_or : (y : ℕ) → bit_or 0 y ≡ y
zero-bit_or y = bit_or-bitwise 0 y

zero-bit_and : (y : ℕ) → bit_and 0 y ≡ 0
zero-bit_and y = bit_and-bitwise 0 y

-- Only the digits below a bound can be set: the digits determine the number.
pub eq_of_bits : (k x y : ℕ) → x < 2 ^ k → y < 2 ^ k → ((i : ℕ) → bit x i ≡ bit y i) → x ≡ y
eq_of_bits zero x y hx hy h = omega arith
eq_of_bits (suc k) x y hx hy h = omega (
  arith,
  h 0,
  eq_of_bits k (x / 2) (y / 2) (omega (arith, pow-suc 2 k)) (omega (arith, pow-suc 2 k))
      (λ i. h (suc i)),
)

pub bit_or-lt : (k x y : ℕ) → x < 2 ^ k → y < 2 ^ k → bit_or x y < 2 ^ k
bit_or-lt zero x y hx hy = rw (small x hx, small y hy) (omega (arith, zero-bit_or 0))
  where
    small : (z : ℕ) → z < 2 ^ 0 → z ≡ 0
    small z h = omega arith
bit_or-lt (suc k) x y hx hy = omega (
  arith,
  pow-suc 2 k,
  bit_or_halves x y,
  bit_or-lt k (x / 2) (y / 2) (omega (arith, pow-suc 2 k)) (omega (arith, pow-suc 2 k)),
)

halved_fuel : (n x : ℕ) → x ≤ n → (bit_or x 0 ≡ x) × (bit_and x 0 ≡ 0)
halved_fuel n zero h = (refl, refl)
halved_fuel zero (suc x) h = absurd (omega arith)
halved_fuel (suc n) (suc x) h = omega (
  arith,
  bit_or_halves (suc x) 0,
  bit_and_halves (suc x) 0,
  halved_fuel n (suc x / 2) (omega arith),
)

pub bit_or-zero : (x : ℕ) → bit_or x 0 ≡ x
bit_or-zero x = (halved_fuel x x (omega arith)).0

pub bit_and-zero : (x : ℕ) → bit_and x 0 ≡ 0
bit_and-zero x = (halved_fuel x x (omega arith)).1

-- `(q << k) | r` is a sum where `r` has `k` digits.
pub bit_or_shifted : (k q r : ℕ) → r < 2 ^ k → bit_or (q * 2 ^ k) r ≡ q * 2 ^ k + r
bit_or_shifted zero q r h = ground (arith, bit_or-zero q)
bit_or_shifted (suc k) q r h = ground (
  arith,
  bit_or_halves (q * 2 ^ suc k) r,
  double_power q k,
  bit_or_shifted k q (r / 2) (omega (arith, pow-suc 2 k)),
)

pub bit_or_shifted_right : (k q r : ℕ) → r < 2 ^ k → bit_or r (q * 2 ^ k) ≡ q * 2 ^ k + r
bit_or_shifted_right zero q r h =
    let e : r ≡ 0 = omega arith in rw e (ground (arith, zero-bit_or (q * 2 ^ 0)))
bit_or_shifted_right (suc k) q r h = ground (
  arith,
  bit_or_halves r (q * 2 ^ suc k),
  double_power q k,
  bit_or_shifted_right k q (r / 2) (omega (arith, pow-suc 2 k)),
)

-- `&` with a mask that has no digit below `k` reads the upper part.
pub bit_and_upper :
    (k q r m : ℕ) → r < 2 ^ k → bit_and (q * 2 ^ k + r) (m * 2 ^ k) ≡ bit_and q m * 2 ^ k
bit_and_upper zero q r m h = let e : r ≡ 0 = omega arith in rw e (ground (arith, bit_and-zero q))
bit_and_upper (suc k) q r m h = ground (
  arith,
  bit_and_halves (q * 2 ^ suc k + r) (m * 2 ^ suc k),
  double_power q k,
  double_power m k,
  double_power (bit_and q m) k,
  bit_and_upper k q (r / 2) m (omega (arith, pow-suc 2 k)),
)

bit_and_fields : (k q r : ℕ) → r < 2 ^ k → bit_and (q * 2 ^ k + r) (2 ^ k - 1) ≡ r
bit_and_fields zero q r h = ground (arith, bit_and-zero (q * 2 ^ 0 + r))
bit_and_fields (suc k) q r h = ground (
  arith,
  bit_and_halves (q * 2 ^ suc k + r) (2 ^ suc k - 1),
  double_power q k,
  pow-suc 2 k,
  two_pow_pos k,
  bit_and_fields k q (r / 2) (omega (arith, pow-suc 2 k)),
)

-- `&` with the mask of the low `k` digits is the remainder.
pub bit_and_low : (k x : ℕ) → bit_and x (2 ^ k - 1) ≡ x % 2 ^ k
bit_and_low k x = ground (arith, two_pow_pos k, bit_and_fields k (x / 2 ^ k) (x % 2 ^ k))

pub bit-zero : (i : ℕ) → bit 0 i ≡ 0
bit-zero zero = refl
bit-zero (suc i) = bit-zero i

-- The word `1 << k` has one digit.
pub bit_one_shifted : (k i : ℕ) → bit (2 ^ k) i ≡ (if i == k then 1 else 0)
bit_one_shifted zero zero = refl
bit_one_shifted zero (suc i) = ground (arith, bit-zero i)
bit_one_shifted (suc k) zero = ground (arith, pow-suc 2 k)
bit_one_shifted (suc k) (suc i) =
    let e : 2 ^ suc k / 2 ≡ 2 ^ k = omega (arith, pow-suc 2 k) in
    rw e (ground (arith, bit_one_shifted k i))

-- Digit `i` is what `(x >> i) & 1` reads.
pub bit_by_shift : (i x : ℕ) → x / 2 ^ i % 2 ≡ bit x i
bit_by_shift zero x = omega arith
bit_by_shift (suc i) x =
    ground (arith, pow-suc 2 i, div-div-eq-div-mul x 2 (2 ^ i), bit_by_shift i (x / 2))

pub two_pow_mono : (k m : ℕ) → k ≤ m → 2 ^ k ≤ 2 ^ m
two_pow_mono zero m h = two_pow_pos m
two_pow_mono (suc k) zero h = absurd (omega arith)
two_pow_mono (suc k) (suc m) h =
    omega (arith, pow-suc 2 k, pow-suc 2 m, two_pow_mono k m (omega arith))

-- The mask of the low `k` digits.
pub bit_ones : (k i : ℕ) → bit (2 ^ k - 1) i ≡ (if ltb i k then 1 else 0)
bit_ones zero i = rw (bit-zero i) (ground arith)
bit_ones (suc k) zero = ground (arith, pow-suc 2 k, two_pow_pos k)
bit_ones (suc k) (suc i) =
    let e : (2 ^ suc k - 1) / 2 ≡ 2 ^ k - 1 = omega (arith, pow-suc 2 k, two_pow_pos k) in
    rw e (ground (arith, bit_ones k i))
