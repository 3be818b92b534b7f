-- ===== src/Linker/Gives.antt =====
-- What a result holds if there is one; a recursion that ran out of fuel has none.
use eta.Prelude.{◌≡◌}
use eta.Linker.{LinkResult, ok, unexpected, stuck, ◌>>=◌}

abbrev pub Gives {ℓ} : {A : Type ℓ} → (A → Type 0) → LinkResult A → Type 0
Gives P (ok a) = P a
Gives P (unexpected e) = Unit
Gives P stuck = ⊥

module _ {ℓ κ} {A : Type ℓ} {B : Type κ} (P : A → Type 0) (Q : B → Type 0) where
  pub Gives->>= :
      (r : LinkResult A) (f : A → LinkResult B)
      → Gives P r
      → ((a : A) → P a → Gives Q (f a))
      → Gives Q (r >>= f)
  Gives->>= (ok a) f h k = k a h
  Gives->>= (unexpected e) f h k = tt
  Gives->>= stuck f h k = h

-- A result that was computed holds what its kind does.
pub given {ℓ} :
    {A : Type ℓ} (P : A → Type 0) (r : LinkResult A) {a : A} → Gives P r → r ≡ ok a → P a
given P r {a = a} h e = rw e at h

pub Gives-map {ℓ} :
    {A : Type ℓ} (P Q : A → Type 0) (r : LinkResult A)
    → Gives P r
    → ((a : A) → P a → Q a)
    → Gives Q r
Gives-map P Q (ok a) h k = k a h
Gives-map P Q (unexpected e) h k = tt
Gives-map P Q stuck h k = h

pub Gives-both {ℓ} :
    {A : Type ℓ} (P Q : A → Type 0) (r : LinkResult A)
    → Gives P r
    → Gives Q r
    → Gives (λ a. P a × Q a) r
Gives-both P Q (ok a) h k = (h, k)
Gives-both P Q (unexpected e) h k = tt
Gives-both P Q stuck h k = h
