-- ===== src/Clp/BitSet/Ends.antt =====
-- The least and the greatest member of a bit-set, as `min` and `max` of runtime/clp/domain.h find
-- them: by the words from either end, and `countr_zero` or `countl_zero` in the word found.
use native.Mathlib.Nat.{pow-suc}
use eta.Prelude.{
  ℕ, zero, suc, ◌+◌, ◌-◌, ◌*◌, ◌%◌, ◌/◌, ◌^◌, ◌≤◌, ◌<◌, ◌≡◌, refl, ◌∙◌, true, arith, tests, ◌==◌,
  if◌then◌else◌, List, [], ◌∷◌, Bool-cases, inl, inr, bit, bit-zero, get_or, ltb, leb,
}
use eta.Clp.Words.{countr_zero, countl_zero}
use eta.Clp.BitSet.{has, has-nil, has-cons}
use eta.Clp.BitSet.Write.{AreWords, get_or-AreWords}

countr_zero_lem :
    (k w i : ℕ)
    → i < k
    → bit w i ≡ 1
    → (bit w (countr_zero k w) ≡ 1) × (countr_zero k w ≤ i) × (countr_zero k w < k)
unfolding countr_zero
countr_zero_lem zero w i h b = absurd (omega arith)
countr_zero_lem (suc k) w zero h b = ground arith
countr_zero_lem (suc k) w (suc i) h b = ground (arith, countr_zero_lem k (w / 2) i)

countl_zero_lem :
    (k w i : ℕ)
    → i < k
    → bit w i ≡ 1
    → (bit w (k - 1 - countl_zero k w) ≡ 1) × (i ≤ k - 1 - countl_zero k w) × (countl_zero k w < k)
unfolding countl_zero
countl_zero_lem zero w i h b = absurd (omega arith)
countl_zero_lem (suc k) w i h b = elim (Bool-cases (bit w k == 1)) [
  | inl on ↦
      let e : countl_zero (suc k) w ≡ 0 = rw on refl in
      let t : suc k - 1 - 0 ≡ k = omega arith in rw (e, t) (ground arith)
  | inr off ↦
      let e : countl_zero (suc k) w ≡ suc (countl_zero k w) = rw off refl in
      let other : i < k = ground arith in
      let below = countl_zero_lem k w i other b in
      let t : suc k - 1 - suc (countl_zero k w) ≡ k - 1 - countl_zero k w = omega arith in
      rw (e, t) (ground arith)
]

unfoldable pub min_offset : List ℕ → ℕ
min_offset [] = 0
min_offset (w ∷ ws) = if w == 0 then 64 + min_offset ws else countr_zero 64 w

-- Over the words below index `i`.
unfoldable pub max_offset : List ℕ → ℕ → ℕ
max_offset ws zero = 0
max_offset ws (suc i) =
    if get_or ws i 0 == 0
    then max_offset ws i
    else i * 64 + (64 - 1 - countl_zero 64 (get_or ws i 0))

has_low : (w : ℕ) (ws : List ℕ) (n : ℕ) → n < 64 → has (w ∷ ws) n ≡ (bit w n == 1)
has_low w ws n h = has-cons w ws n ∙ ground arith

has_rest : (w : ℕ) (ws : List ℕ) (n : ℕ) → has (w ∷ ws) (64 + n) ≡ has ws n
has_rest w ws n =
    let e : 64 + n - 64 ≡ n = omega arith in has-cons w ws (64 + n) ∙ rw e (ground arith)

pub has_zero_word :
    (ws : List ℕ) (n : ℕ) → has (0 ∷ ws) n ≡ true → (64 ≤ n) × (has ws (n - 64) ≡ true)
has_zero_word ws n h = ground (arith, has-cons 0 ws n, bit-zero n)

nonzero_digit : (k w : ℕ) → 0 < w → w < 2 ^ k → (i : ℕ) × (i < k) × (bit w i ≡ 1)
nonzero_digit zero w p h = absurd (omega arith)
nonzero_digit (suc k) w p h = elim (Bool-cases (w % 2 == 1)) [
  | inl odd ↦ (0, omega arith, ground arith)
  | inr even ↦
      let (i, small, on) = nonzero_digit k (w / 2) (ground arith) (omega (arith, pow-suc 2 k)) in
      (suc i, omega arith, on)
]

low_word :
    (w : ℕ) (ws : List ℕ) (i : ℕ)
    → i < 64
    → bit w i ≡ 1
    → (has (w ∷ ws) (countr_zero 64 w) ≡ true) × (countr_zero 64 w ≤ i)
low_word w ws i small on =
    let found = countr_zero_lem 64 w i small on in
    (has_low w ws (countr_zero 64 w) found.2 ∙ ground (arith, found.0), found.1)

full_word :
    (w : ℕ) (ws : List ℕ) (n : ℕ)
    → 0 < w
    → w < 2 ^ 64
    → has (w ∷ ws) n ≡ true
    → (has (w ∷ ws) (countr_zero 64 w) ≡ true) × (countr_zero 64 w ≤ n)
full_word w ws n p f h = elim (Bool-cases (ltb n 64)) [
  | inl small ↦
      let n<64 : n < 64 = omega (tests, small) in
      low_word w ws n n<64 (ground (arith, has_low w ws n n<64))
  | inr big ↦
      let (i, small, on) = nonzero_digit 64 w p f in
      let found = low_word w ws i small on in (found.0, ground (arith, found.1))
]

-- A member at all: then `min_offset` is one, and none is less.
pub min_offset_lem :
    (ws : List ℕ) (n : ℕ)
    → AreWords ws
    → has ws n ≡ true
    → (has ws (min_offset ws) ≡ true) × (min_offset ws ≤ n)
unfolding min_offset
min_offset_lem [] n a h = absurd (ground (arith, has-nil n))
min_offset_lem (w ∷ ws) n a h = elim (Bool-cases (w == 0)) [
  | inl blank ↦
      let z : w ≡ 0 = ground arith in
      let later = has_zero_word ws n (rw z at h) in
      let rest = min_offset_lem ws (n - 64) a.1 later.1 in
      rw (z, min_offset) (has_rest 0 ws (min_offset ws) ∙ rest.0, omega arith)
  | inr full ↦ rw (full, min_offset) (full_word w ws n (ground arith) a.0 h)
]

has_at : (ws : List ℕ) (i j : ℕ) → j < 64 → has ws (i * 64 + j) ≡ (bit (get_or ws i 0) j == 1)
unfolding has
has_at ws i j h =
    let q : (i * 64 + j) / 64 ≡ i = omega arith in
    let r : (i * 64 + j) % 64 ≡ j = omega arith in rw (q, r) refl

top_word :
    (ws : List ℕ) (i j : ℕ)
    → j < 64
    → bit (get_or ws i 0) j ≡ 1
    → (has ws (i * 64 + (64 - 1 - countl_zero 64 (get_or ws i 0))) ≡ true)
      × (j ≤ 64 - 1 - countl_zero 64 (get_or ws i 0))
top_word ws i j small on =
    let found = countl_zero_lem 64 (get_or ws i 0) j small on in
    (has_at ws i _ (omega (arith, found.2)) ∙ ground (arith, found.0), found.1)

last_word :
    (ws : List ℕ) (i n : ℕ)
    → AreWords ws
    → 0 < get_or ws i 0
    → n < 64 * suc i
    → has ws n ≡ true
    → (has ws (i * 64 + (64 - 1 - countl_zero 64 (get_or ws i 0))) ≡ true)
      × (n ≤ i * 64 + (64 - 1 - countl_zero 64 (get_or ws i 0)))
last_word ws i n a p s h = elim (Bool-cases (leb (i * 64) n)) [
  | inl here ↦
      let le : i * 64 ≤ n = omega (tests, here) in
      let e : i * 64 + (n - i * 64) ≡ n = omega arith in
      let member : has ws (i * 64 + (n - i * 64)) ≡ true = rw e h in
      let on : bit (get_or ws i 0) (n - i * 64) ≡ 1 =
        ground (arith, has_at ws i (n - i * 64) (omega arith)) in
      let found = top_word ws i (n - i * 64) (omega arith) on in (found.0, omega (arith, found.1))
  | inr before ↦
      let lt : n < i * 64 = ground arith in
      let (j, small, on) = nonzero_digit 64 (get_or ws i 0) p (get_or-AreWords ws i a) in
      let found = top_word ws i j small on in (found.0, omega (arith, found.1))
]

pub lower_word :
    (ws : List ℕ) (i n : ℕ) → get_or ws i 0 ≡ 0 → n < 64 * suc i → has ws n ≡ true → n < 64 * i
lower_word ws i n z s h =
    let whole : n / 64 * 64 + n % 64 ≡ n = omega arith in
    let member : has ws (n / 64 * 64 + n % 64) ≡ true = rw whole h in
    ground (arith, has_at ws (n / 64) (n % 64) (omega arith), bit-zero (n % 64))

-- A member below word `i`: then `max_offset` is one, and none below word `i` is greater.
pub max_offset_lem :
    (ws : List ℕ) (i n : ℕ)
    → AreWords ws
    → n < 64 * i
    → has ws n ≡ true
    → (has ws (max_offset ws i) ≡ true) × (n ≤ max_offset ws i)
unfolding max_offset
max_offset_lem ws zero n a s h = absurd (omega arith)
max_offset_lem ws (suc i) n a s h = elim (Bool-cases (get_or ws i 0 == 0)) [
  | inl blank ↦
      let z : get_or ws i 0 ≡ 0 = ground arith in
      rw (blank, max_offset) (max_offset_lem ws i n a (lower_word ws i n z s h) h)
  | inr full ↦ rw (full, max_offset) (last_word ws i n a (ground arith) s h)
]

-- A word that is not zero holds a member of its 64 offsets.
pub word_member :
    (ws : List ℕ) (i : ℕ)
    → AreWords ws
    → 0 < get_or ws i 0
    → (j : ℕ) × (j < 64) × (has ws (i * 64 + j) ≡ true)
word_member ws i a p =
    let (j, small, on) = nonzero_digit 64 (get_or ws i 0) p (get_or-AreWords ws i a) in
    (j, small, has_at ws i j small ∙ ground arith)
