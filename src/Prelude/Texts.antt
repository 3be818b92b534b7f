-- ===== src/Prelude/Texts.antt =====
-- Strings as their bytes, and sets and maps of them as lists.
use Prim.Native.Nat.{ℕ}
use mathlib.Core.Path.{◌≡◌, refl}
use mathlib.Core.Logic.{◌↔◌, inl, inr}
use mathlib.Core.Bool.{Bool, true, false, ◌&&◌, ◌||◌}
use mathlib.Core.List.{List, [], ◌∷◌}
use mathlib.Core.Option.{Option, none, some}
use native.Mathlib.Omega.{arith}
use eta.Prelude.Tests.{◌==◌, if◌then◌else◌, Bool-cases}

abbrev pub Text : Type 0
Text = List ℕ

abbrev pub text_eq : Text → Text → Bool
text_eq [] [] = true
text_eq [] (b ∷ t) = false
text_eq (a ∷ s) [] = false
text_eq (a ∷ s) (b ∷ t) = (a == b) && text_eq s t

pub text_eq_iff : (s t : Text) → (text_eq s t ≡ true) ↔ (s ≡ t)
text_eq_iff [] [] = ground arith
text_eq_iff [] (b ∷ t) = ground arith
text_eq_iff (a ∷ s) [] = ground arith
text_eq_iff (a ∷ s) (b ∷ t) = ground (arith, text_eq_iff s t)

pub text_eq_self : (s : Text) → text_eq s s ≡ true
text_eq_self s = (text_eq_iff s s).1 refl

abbrev pub contains : Text → List Text → Bool
contains n [] = false
contains n (x ∷ xs) = text_eq x n || contains n xs

module _ {ℓ} {A : Type ℓ} where
  -- The first entry of a key.
  abbrev pub lookup_text : Text → List (Text × A) → Option A
  lookup_text n [] = none
  lookup_text n ((k, a) ∷ m) = if text_eq k n then some a else lookup_text n m

pub contains-first : (n : Text) (xs : List Text) → contains n (n ∷ xs) ≡ true
contains-first n xs = ground (arith, text_eq_self n)

pub contains-later :
    (n x : Text) (xs : List Text) → contains n xs ≡ true → contains n (x ∷ xs) ≡ true
contains-later n x xs h = ground (arith, h)

-- What is in a list is not what is absent from it.
pub differs :
    (x b : Text) (xs : List Text)
    → contains x xs ≡ false
    → contains b xs ≡ true
    → text_eq x b ≡ false
differs x b xs h k = elim (Bool-cases (text_eq x b)) [
  | inl e ↦ let p = (text_eq_iff x b).0 e in cc (rw p at h, k)
  | inr e ↦ e
]
