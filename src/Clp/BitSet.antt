-- ===== src/Clp/BitSet.antt =====
-- A list of 64-bit words as a set of offsets, which is how runtime/clp/domain.h stores a domain.
pub mod Order
pub mod Write
pub mod Ends
use native.Mathlib.Nat.{pow-suc}
use eta.Prelude.{
  ℕ, zero, suc, ◌+◌, ◌-◌, ◌*◌, ◌/◌, ◌%◌, ◌^◌, ◌≤◌, ◌<◌, ◌≡◌, refl, ap, ◌∙◌, sym, Bool, true, false,
  arith, tests, ◌||◌, ◌==◌, ltb, if◌then◌else◌, bit, bit-lt, bit-zero, List, [], ◌∷◌, ◌++◌, map,
  Bool-cases, inl, inr, get_or,
}
use eta.Clp.Words.{each_digit, countr_zero, countl_zero, popcount}

-- A callback applied to the elements of a list in order.
abbrev pub visit {ℓ κ} : {A : Type ℓ} {S : Type κ} → (A → S → S) → List A → S → S
visit f [] s = s
visit f (x ∷ xs) s = visit f xs (f x s)

pub visit-append {ℓ κ} :
    {A : Type ℓ} {S : Type κ} (f : A → S → S) (xs ys : List A) (s : S)
    → visit f (xs ++ ys) s ≡ visit f ys (visit f xs s)
visit-append f [] ys s = refl
visit-append f (x ∷ xs) ys s = visit-append f xs ys (f x s)

pub visit-map {ℓ κ μ} :
    {A : Type ℓ} {B : Type κ} {S : Type μ} (f : B → S → S) (g : A → B) (xs : List A) (s : S)
    → visit f (map g xs) s ≡ visit (λ a. f (g a)) xs s
visit-map f g [] s = refl
visit-map f g (x ∷ xs) s = visit-map f g xs (f (g x) s)

-- The digits of a word that are set, in ascending order.
unfoldable pub set_digits : ℕ → ℕ → List ℕ
set_digits zero w = []
set_digits (suc k) w =
    let rest = map suc (set_digits k (w / 2)) in if w % 2 == 1 then 0 ∷ rest else rest

pub each_digit-visit {ℓ} :
    {S : Type ℓ} (k : ℕ) (f : ℕ → S → S) (w : ℕ) (s : S)
    → each_digit k f w s ≡ visit f (set_digits k w) s
unfolding each_digit set_digits
each_digit-visit zero f w s = refl
each_digit-visit (suc k) f w s = elim (Bool-cases (w % 2 == 1)) [
  | inl odd ↦ rw odd (
      each_digit-visit k (λ b. f (suc b)) (w / 2) (f 0 s)
      ∙ sym (visit-map f suc (set_digits k (w / 2)) (f 0 s)))
  | inr even ↦ rw even (
      each_digit-visit k (λ b. f (suc b)) (w / 2) s
      ∙ sym (visit-map f suc (set_digits k (w / 2)) s))
]

abbrev pub elem : ℕ → List ℕ → Bool
elem n [] = false
elem n (x ∷ xs) = n == x || elem n xs

pub elem-append : (n : ℕ) (xs ys : List ℕ) → elem n (xs ++ ys) ≡ (elem n xs || elem n ys)
elem-append n [] ys = refl
elem-append n (x ∷ xs) ys = ground (arith, elem-append n xs ys)

pub elem-map_add :
    (k n : ℕ) (xs : List ℕ)
    → elem n (map (λ m. k + m) xs) ≡ (if ltb n k then false else elem (n - k) xs)
elem-map_add k n [] = ground arith
elem-map_add k n (x ∷ xs) = ground (arith, elem-map_add k n xs)

elem-map-suc :
    (n : ℕ) (xs : List ℕ) → elem n (map suc xs) ≡ (if n == 0 then false else elem (n - 1) xs)
elem-map-suc n [] = ground arith
elem-map-suc n (x ∷ xs) = ground (arith, elem-map-suc n xs)

pub elem-set_digits : (k n w : ℕ) → n < k → elem n (set_digits k w) ≡ (bit w n == 1)
unfolding set_digits
elem-set_digits zero n w h = absurd (omega arith)
elem-set_digits (suc k) zero w h = ground (arith, elem-map-suc 0 (set_digits k (w / 2)))
elem-set_digits (suc k) (suc n) w h =
    ground (arith, elem-map-suc (suc n) (set_digits k (w / 2)), elem-set_digits k n (w / 2))

pub elem-set_digits_above : (k n w : ℕ) → k ≤ n → elem n (set_digits k w) ≡ false
unfolding set_digits
elem-set_digits_above zero n w h = refl
elem-set_digits_above (suc k) zero w h = absurd (omega arith)
elem-set_digits_above (suc k) (suc n) w h =
    ground (arith, elem-map-suc (suc n) (set_digits k (w / 2)), elem-set_digits_above k n (w / 2))

-- Is offset `n` in the set?
unfoldable pub has : List ℕ → ℕ → Bool
has ws n = bit (get_or ws (n / 64) 0) (n % 64) == 1

pub has-nil : (n : ℕ) → has [] n ≡ false
unfolding has
has-nil n = rw (bit-zero (n % 64)) refl

pub has-cons :
    (w : ℕ) (ws : List ℕ) (n : ℕ)
    → has (w ∷ ws) n ≡ (if ltb n 64 then bit w n == 1 else has ws (n - 64))
unfolding has
has-cons w ws n = elim (Bool-cases (ltb n 64)) [
  | inl low ↦
      let q : n / 64 ≡ 0 = omega (tests, low) in
      let r : n % 64 ≡ n = omega (tests, low) in rw (low, q, r) refl
  | inr high ↦
      let q : n / 64 ≡ suc ((n - 64) / 64) = ground arith in
      let r : n % 64 ≡ (n - 64) % 64 = ground arith in rw (high, q, r) refl
]

-- All members in ascending order.
unfoldable pub offsets : List ℕ → List ℕ
offsets [] = []
offsets (w ∷ ws) = set_digits 64 w ++ map (λ n. 64 + n) (offsets ws)

pub elem-offsets : (n : ℕ) (ws : List ℕ) → elem n (offsets ws) ≡ has ws n
unfolding offsets
elem-offsets n [] = sym (has-nil n)
elem-offsets n (w ∷ ws) = ground (
  arith,
  elem-append n (set_digits 64 w) (map (λ n. 64 + n) (offsets ws)),
  elem-map_add 64 n (offsets ws),
  elem-set_digits 64 n w,
  elem-set_digits_above 64 n w,
  elem-offsets (n - 64) ws,
  has-cons w ws n,
)
