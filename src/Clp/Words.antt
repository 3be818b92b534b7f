-- ===== src/Clp/Words.antt =====
-- The operations of `<bit>` that runtime/clp/domain.h uses on 64-bit words, and its loop over the
-- digits of a word.
use eta.Prelude.{
  ℕ, zero, suc, ◌+◌, ◌-◌, ◌*◌, ◌/◌, ◌%◌, ◌^◌, ◌≤◌, ◌<◌, ◌≡◌, refl, ap, ◌∙◌, sym, true, false, arith,
  ◌==◌, if◌then◌else◌, bit, bit_and, bit_and_halves, Bool-cases, inl, inr,
}
use native.Mathlib.Nat.{pow-suc}

-- `std::countr_zero` on words of `k` digits; it is `k` at 0.
unfoldable pub countr_zero : ℕ → ℕ → ℕ
countr_zero zero w = 0
countr_zero (suc k) w = if w % 2 == 1 then 0 else suc (countr_zero k (w / 2))

-- `std::countl_zero` on words of `k` digits.
unfoldable pub countl_zero : ℕ → ℕ → ℕ
countl_zero zero w = 0
countl_zero (suc k) w = if bit w k == 1 then 0 else suc (countl_zero k w)

-- `std::popcount` on words of `k` digits.
unfoldable pub popcount : ℕ → ℕ → ℕ
popcount zero w = 0
popcount (suc k) w = w % 2 + popcount k (w / 2)

-- `while (w) { b = countr_zero(w); w &= w - 1; f(b); }` with fuel for the rounds.
unfoldable pub each_set_digit {ℓ} : {S : Type ℓ} → ℕ → ℕ → (ℕ → S → S) → ℕ → S → S
each_set_digit k zero f w s = s
each_set_digit k (suc fuel) f w s = elim (w == 0) [
  | true ↦ s
  | false ↦ each_set_digit k fuel f (bit_and w (w - 1)) (f (countr_zero k w) s)
]

-- The same, digit by digit from the lowest.
unfoldable pub each_digit {ℓ} : {S : Type ℓ} → ℕ → (ℕ → S → S) → ℕ → S → S
each_digit zero f w s = s
each_digit (suc k) f w s = each_digit k (λ b. f (suc b)) (w / 2) (if w % 2 == 1 then f 0 s else s)

bit_and_self_fuel : (n q : ℕ) → q ≤ n → bit_and q q ≡ q
bit_and_self_fuel n zero h = refl
bit_and_self_fuel zero (suc q) h = absurd (omega arith)
bit_and_self_fuel (suc n) (suc q) h =
    omega (arith, bit_and_halves (suc q) (suc q), bit_and_self_fuel n (suc q / 2) (omega arith))

bit_and_self : (q : ℕ) → bit_and q q ≡ q
bit_and_self q = bit_and_self_fuel q q (omega arith)

clear_odd : (q : ℕ) → bit_and (2 * q + 1) (2 * q + 1 - 1) ≡ 2 * q
clear_odd q =
    let half : (2 * q + 1 - 1) / 2 ≡ q = omega arith in
    let same : (2 * q + 1) / 2 ≡ q = omega arith in
    bit_and_halves (2 * q + 1) (2 * q + 1 - 1) ∙ rw (half, same, bit_and_self q) (omega arith)

clear_even : (q : ℕ) → 0 < q → bit_and (2 * q) (2 * q - 1) ≡ 2 * bit_and q (q - 1)
clear_even q h =
    let half : (2 * q - 1) / 2 ≡ q - 1 = omega arith in
    let same : 2 * q / 2 ≡ q = omega arith in
    bit_and_halves (2 * q) (2 * q - 1) ∙ rw (half, same) (omega arith)

each_set_digit-zero {ℓ} :
    {S : Type ℓ} (k fuel : ℕ) (f : ℕ → S → S) (s : S) → each_set_digit k fuel f 0 s ≡ s
unfolding each_set_digit
each_set_digit-zero k zero f s = refl
each_set_digit-zero k (suc fuel) f s = refl

each_set_digit_step {ℓ} :
    {S : Type ℓ} (k fuel : ℕ) (f : ℕ → S → S) (w : ℕ) (s : S)
    → 0 < w
    → each_set_digit k (suc fuel) f w s
      ≡ each_set_digit k fuel f (bit_and w (w - 1)) (f (countr_zero k w) s)
unfolding each_set_digit
each_set_digit_step k fuel f w s h =
    let e : (w == 0) ≡ false = ground arith in rw (e, each_set_digit) refl

each_set_digit_even {ℓ} :
    {S : Type ℓ} (k fuel : ℕ) (f : ℕ → S → S) (q : ℕ) (s : S)
    → each_set_digit (suc k) fuel f (2 * q) s ≡ each_set_digit k fuel (λ b. f (suc b)) q s
unfolding each_set_digit countr_zero
each_set_digit_even k zero f q s = refl
each_set_digit_even k (suc fuel) f zero s = refl
each_set_digit_even k (suc fuel) f (suc q) s =
    let half : 2 * suc q / 2 ≡ suc q = omega arith in
    let even : countr_zero (suc k) (2 * suc q) ≡ suc (countr_zero k (suc q)) = ground arith in
    rw
      (
        each_set_digit_step (suc k) fuel f (2 * suc q) s (omega arith),
        each_set_digit_step k fuel (λ b. f (suc b)) (suc q) s (omega arith),
        even,
        clear_even (suc q) (omega arith),
      )
      (each_set_digit_even k fuel f (bit_and (suc q) (suc q - 1)) _)

each_set_digit_odd {ℓ} :
    {S : Type ℓ} (k fuel : ℕ) (f : ℕ → S → S) (q : ℕ) (s : S)
    → each_set_digit (suc k) (suc fuel) f (2 * q + 1) s
      ≡ each_set_digit k fuel (λ b. f (suc b)) q (f 0 s)
unfolding countr_zero
each_set_digit_odd k fuel f q s =
    let odd : countr_zero (suc k) (2 * q + 1) ≡ 0 = ground arith in
    rw (each_set_digit_step (suc k) fuel f (2 * q + 1) s (omega arith), odd, clear_odd q)
      (each_set_digit_even k fuel f q (f 0 s))

each_set_digit_of_even {ℓ} :
    {S : Type ℓ} (k fuel : ℕ) (f : ℕ → S → S) (w : ℕ) (s : S)
    → 2 * (w / 2) ≡ w
    → each_set_digit (suc k) fuel f w s ≡ each_set_digit k fuel (λ b. f (suc b)) (w / 2) s
each_set_digit_of_even k fuel f w s e =
    ap (λ t. each_set_digit (suc k) fuel f t s) (sym e) ∙ each_set_digit_even k fuel f (w / 2) s

each_set_digit_of_odd {ℓ} :
    {S : Type ℓ} (k fuel : ℕ) (f : ℕ → S → S) (w : ℕ) (s : S)
    → 2 * (w / 2) + 1 ≡ w
    → each_set_digit (suc k) (suc fuel) f w s
      ≡ each_set_digit k fuel (λ b. f (suc b)) (w / 2) (f 0 s)
each_set_digit_of_odd k fuel f w s e =
    ap (λ t. each_set_digit (suc k) (suc fuel) f t s) (sym e)
    ∙ each_set_digit_odd k fuel f (w / 2) s

-- The loop visits each digit that is set once, from the lowest up, and as many rounds as digits
-- are enough for it to end.
pub each_set_digit-each_digit {ℓ} :
    {S : Type ℓ} (k fuel : ℕ) (f : ℕ → S → S) (w : ℕ) (s : S)
    → w < 2 ^ k
    → k ≤ fuel
    → each_set_digit k fuel f w s ≡ each_digit k f w s
unfolding each_digit
each_set_digit-each_digit zero fuel f w s h e =
    let z : w ≡ 0 = omega arith in rw z (each_set_digit-zero 0 fuel f s)
each_set_digit-each_digit (suc k) zero f w s h e = absurd (omega arith)
each_set_digit-each_digit (suc k) (suc fuel) f w s h e = elim (Bool-cases (w % 2 == 1)) [
  | inl odd ↦
      rw (odd, each_digit)
        (each_set_digit_of_odd k fuel f w s (ground arith)
          ∙ each_set_digit-each_digit k fuel (λ b. f (suc b)) (w / 2) (f 0 s)
              (omega (arith, pow-suc 2 k)) (omega arith))
  | inr even ↦
      rw (even, each_digit)
        (each_set_digit_of_even k (suc fuel) f w s (ground arith)
          ∙ each_set_digit-each_digit k (suc fuel) (λ b. f (suc b)) (w / 2) s
              (omega (arith, pow-suc 2 k)) (omega arith))
]
