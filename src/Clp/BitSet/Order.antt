-- ===== src/Clp/BitSet/Order.antt =====
-- The members of a bit-set stand in ascending order, and a list in ascending order is determined
-- by its members.
use mathlib.Core.Path.{ap₂}
use eta.Prelude.{
  ℕ, zero, suc, ◌+◌, ◌%◌, ◌/◌, ◌≤◌, ◌<◌, ◌≡◌, refl, true, arith, ◌==◌, List, [], ◌∷◌, ◌++◌, map,
  length, length-append, length-map, Bool-cases, inl, inr,
}
use eta.Clp.Words.{popcount}
use eta.Clp.BitSet.{set_digits, offsets, elem}

abbrev pub AllAbove : ℕ → List ℕ → Type 0
AllAbove n [] = Unit
AllAbove n (x ∷ xs) = (n < x) × AllAbove n xs

abbrev pub AllBelow : ℕ → List ℕ → Type 0
AllBelow n [] = Unit
AllBelow n (x ∷ xs) = (x < n) × AllBelow n xs

abbrev pub Ascending : List ℕ → Type 0
Ascending [] = Unit
Ascending (x ∷ xs) = AllAbove x xs × Ascending xs

AllAbove-weaken : {m n : ℕ} (xs : List ℕ) → m ≤ n → AllAbove n xs → AllAbove m xs
AllAbove-weaken [] h a = tt
AllAbove-weaken (x ∷ xs) h a = (omega arith, AllAbove-weaken xs h a.1)

elem-AllAbove : (n m : ℕ) (xs : List ℕ) → AllAbove n xs → elem m xs ≡ true → n < m
elem-AllAbove n m [] a h = cc
elem-AllAbove n m (x ∷ xs) a h = ground (arith, elem-AllAbove n m xs a.1)

drop_head :
    (x n : ℕ) (xs ys : List ℕ)
    → AllAbove x xs
    → AllAbove x ys
    → elem n (x ∷ xs) ≡ elem n (x ∷ ys)
    → elem n xs ≡ elem n ys
drop_head x n xs ys a b h = ground (arith, elem-AllAbove x n xs a, elem-AllAbove x n ys b)

pub Ascending-ext :
    (xs ys : List ℕ) → Ascending xs → Ascending ys → ((n : ℕ) → elem n xs ≡ elem n ys) → xs ≡ ys
Ascending-ext [] [] a b h = refl
Ascending-ext [] (y ∷ ys) a b h = ground (arith, h y)
Ascending-ext (x ∷ xs) [] a b h = ground (arith, h x)
Ascending-ext (x ∷ xs) (y ∷ ys) a b h =
    let heads : x ≡ y =
      ground (arith, h x, h y, elem-AllAbove y x ys b.0, elem-AllAbove x y xs a.0) in
    ap₂ ◌∷◌ heads (
      Ascending-ext xs ys a.1 b.1
        (λ n. drop_head x n xs ys a.0 (rw heads b.0) (rw (← heads) at (h n))))

pub Ascending-map_add : (k : ℕ) (xs : List ℕ) → Ascending xs → Ascending (map (λ m. k + m) xs)
Ascending-map_add k [] a = tt
Ascending-map_add k (x ∷ xs) a = (above xs a.0, Ascending-map_add k xs a.1)
  where
    above : (ys : List ℕ) → AllAbove x ys → AllAbove (k + x) (map (λ m. k + m) ys)
    above [] h = tt
    above (y ∷ ys) h = (omega arith, above ys h.1)

Ascending-map-suc : (xs : List ℕ) → Ascending xs → Ascending (map suc xs) × AllAbove 0 (map suc xs)
Ascending-map-suc [] a = (tt, tt)
Ascending-map-suc (x ∷ xs) a =
    let rest = Ascending-map-suc xs a.1 in ((above xs a.0, rest.0), (omega arith, rest.1))
  where
    above : (ys : List ℕ) → AllAbove x ys → AllAbove (suc x) (map suc ys)
    above [] h = tt
    above (y ∷ ys) h = (omega arith, above ys h.1)

AllBelow-map-suc : (k : ℕ) (xs : List ℕ) → AllBelow k xs → AllBelow (suc k) (map suc xs)
AllBelow-map-suc k [] h = tt
AllBelow-map-suc k (x ∷ xs) h = (omega arith, AllBelow-map-suc k xs h.1)

pub set_digits-Ascending : (k w : ℕ) → Ascending (set_digits k w) × AllBelow k (set_digits k w)
unfolding set_digits
set_digits-Ascending zero w = (tt, tt)
set_digits-Ascending (suc k) w =
    let (up, below) = set_digits-Ascending k (w / 2) in
    let (up', positive) = Ascending-map-suc (set_digits k (w / 2)) up in
    let below' = AllBelow-map-suc k (set_digits k (w / 2)) below in
    elim (Bool-cases (w % 2 == 1)) [
      | inl odd ↦ rw odd ((positive, up'), (omega arith, below'))
      | inr even ↦ rw even (up', below')
    ]

Ascending-append :
    (n : ℕ) (xs ys : List ℕ)
    → Ascending xs
    → AllBelow n xs
    → Ascending (map (λ m. n + m) ys)
    → Ascending (xs ++ map (λ m. n + m) ys)
Ascending-append n [] ys a b c = c
Ascending-append n (x ∷ xs) ys a b c = (all_above xs a.0, Ascending-append n xs ys a.1 b.1 c)
  where
    later : (zs : List ℕ) → AllAbove x (map (λ m. n + m) zs)
    later [] = tt
    later (z ∷ zs) = (omega arith, later zs)

    all_above : (zs : List ℕ) → AllAbove x zs → AllAbove x (zs ++ map (λ m. n + m) ys)
    all_above [] h = later ys
    all_above (z ∷ zs) h = (h.0, all_above zs h.1)

pub offsets-Ascending : (ws : List ℕ) → Ascending (offsets ws)
unfolding offsets
offsets-Ascending [] = tt
offsets-Ascending (w ∷ ws) =
    let (up, below) = set_digits-Ascending 64 w in
    Ascending-append 64 (set_digits 64 w) (offsets ws) up below
      (Ascending-map_add 64 (offsets ws) (offsets-Ascending ws))

-- `recount`: the sum of the population counts.
unfoldable pub total_popcount : List ℕ → ℕ
total_popcount [] = 0
total_popcount (w ∷ ws) = popcount 64 w + total_popcount ws

popcount-length : (k w : ℕ) → popcount k w ≡ length (set_digits k w)
unfolding popcount set_digits
popcount-length zero w = refl
popcount-length (suc k) w =
    ground (arith, popcount-length k (w / 2), length-map (set_digits k (w / 2)) suc)

pub total_popcount-length : (ws : List ℕ) → total_popcount ws ≡ length (offsets ws)
unfolding total_popcount offsets
total_popcount-length [] = refl
total_popcount-length (w ∷ ws) = omega (
  arith,
  popcount-length 64 w,
  total_popcount-length ws,
  length-append (set_digits 64 w) (map (λ n. 64 + n) (offsets ws)),
  length-map (offsets ws) (λ n. 64 + n),
)
