-- ===== src/Numeric/Overflow.antt =====
-- The overflow tests of runtime/overflow.h, and what they guard in runtime/vm/vm.cpp.
use eta.Prelude.{
  ℕ, ◌+◌, ◌*◌, ◌-◌, ◌/◌, ◌^◌, ◌<◌, ◌==◌, ◌≡◌, ap, ◌∙◌, zero, suc, not, ◌&&◌, ◌||◌, ℤ, pos, negsuc,
  sub_ℕ, ltb, ◌+ℤ◌, ◌-ℤ◌, IsInt64, arith,
}
use native.Mathlib.Nat.{div-lt_iff_lt-mul}
use eta.Numeric.{
  ◌*ℤ◌, quot, fits_int64, add_overflow, sub_overflow, mul_overflow, add_overflow_by_bounds,
  sub_overflow_by_bounds, mul_overflow_by_bounds,
}

-- The test by bounds for a sum answers what the compiler's builtin answers.
pub add_overflow_by_bounds_lem :
    (a b : ℤ) → IsInt64 a → IsInt64 b → add_overflow_by_bounds a b ≡ add_overflow a b
unfolding add_overflow_by_bounds ◌+ℤ◌ ◌-ℤ◌
add_overflow_by_bounds_lem (pos a) (pos b) h k = ground arith
add_overflow_by_bounds_lem (pos a) (negsuc b) h k = ground arith
add_overflow_by_bounds_lem (negsuc a) (pos b) h k = ground arith
add_overflow_by_bounds_lem (negsuc a) (negsuc b) h k = ground arith

-- The test by bounds for a difference answers what the compiler's builtin answers.
pub sub_overflow_by_bounds_lem :
    (a b : ℤ) → IsInt64 a → IsInt64 b → sub_overflow_by_bounds a b ≡ sub_overflow a b
unfolding sub_overflow_by_bounds ◌+ℤ◌ ◌-ℤ◌
sub_overflow_by_bounds_lem (pos a) (pos b) h k = ground arith
sub_overflow_by_bounds_lem (pos a) (negsuc b) h k = ground arith
sub_overflow_by_bounds_lem (negsuc a) (pos b) h k = ground arith
sub_overflow_by_bounds_lem (negsuc a) (negsuc b) h k = ground arith

-- For a product, the quotient of the bound stands in for the product.
product_above : (m n k : ℕ) → 0 < n → ltb (m / n) k ≡ ltb m (k * n)
product_above m n k p = ground (arith, div-lt_iff_lt-mul {k = n} {x = m} {y = k} p)

fits-above : (p : ℕ) → fits_int64 (sub_ℕ p 0) ≡ not (ltb (2 ^ 63 - 1) p)
fits-above p = ground arith

fits-below : (p : ℕ) → fits_int64 (sub_ℕ 0 p) ≡ not (ltb (2 ^ 63) p)
fits-below p = ground arith

-- The products and quotients, by the signs.
times_pp : (a b : ℕ) → pos a *ℤ pos b ≡ sub_ℕ (a * b) 0
unfolding ◌*ℤ◌
times_pp a b = ap (λ p. sub_ℕ p (a * 0 + 0 * b)) (omega arith) ∙ ap (sub_ℕ (a * b)) (omega arith)

times_pn : (a b : ℕ) → pos a *ℤ negsuc b ≡ sub_ℕ 0 (a * suc b)
unfolding ◌*ℤ◌
times_pn a b = ap (λ p. sub_ℕ p (a * suc b + 0 * 0)) (omega arith) ∙ ap (sub_ℕ 0) (omega arith)

times_np : (a b : ℕ) → negsuc a *ℤ pos b ≡ sub_ℕ 0 (suc a * b)
unfolding ◌*ℤ◌
times_np a b = ap (λ p. sub_ℕ p (0 * 0 + suc a * b)) (omega arith) ∙ ap (sub_ℕ 0) (omega arith)

times_nn : (a b : ℕ) → negsuc a *ℤ negsuc b ≡ sub_ℕ (suc a * suc b) 0
unfolding ◌*ℤ◌
times_nn a b =
    ap (λ p. sub_ℕ p (0 * suc b + suc a * 0)) (omega arith)
    ∙ ap (sub_ℕ (suc a * suc b)) (omega arith)

quot_pp : (m b : ℕ) → 0 < b → quot (pos m) (pos b) ≡ pos (m / b)
unfolding quot
quot_pp m b h = ground arith

quot_pn : (m b : ℕ) → quot (pos m) (negsuc b) ≡ sub_ℕ 0 (m / suc b)
unfolding quot
quot_pn m b = ground arith

quot_np : (m b : ℕ) → 0 < b → quot (negsuc m) (pos b) ≡ sub_ℕ 0 (suc m / b)
unfolding quot
quot_np m b h = ground arith

bounds_pp :
    (a b : ℕ)
    → mul_overflow_by_bounds (pos a) (pos b) ≡ (not (a == 0 || b == 0) && ltb ((2 ^ 63 - 1) / b) a)
unfolding mul_overflow_by_bounds
bounds_pp a b = ground (arith, quot_pp (2 ^ 63 - 1) b)

bounds_pn :
    (a b : ℕ)
    → mul_overflow_by_bounds (pos a) (negsuc b) ≡ (not (a == 0) && ltb (2 ^ 63 / a) (suc b))
unfolding mul_overflow_by_bounds
bounds_pn a b = ground (arith, quot_np (2 ^ 63 - 1) a)

bounds_np :
    (a b : ℕ)
    → mul_overflow_by_bounds (negsuc a) (pos b) ≡ (not (b == 0) && ltb (2 ^ 63 / b) (suc a))
unfolding mul_overflow_by_bounds
bounds_np a b = ground (arith, quot_np (2 ^ 63 - 1) b)

bounds_nn :
    (a b : ℕ) → mul_overflow_by_bounds (negsuc a) (negsuc b) ≡ ltb ((2 ^ 63 - 1) / suc b) (suc a)
unfolding mul_overflow_by_bounds
bounds_nn a b = ground (arith, quot_pn (2 ^ 63 - 1) b)

product_test : (m a b : ℕ) → (not (b == 0 || a == 0) && ltb (m / b) a) ≡ ltb m (a * b)
product_test m zero b = ground arith
product_test m (suc a) zero = ground arith
product_test m (suc a) (suc b) = ground (arith, product_above m (suc b) (suc a))

-- The test by bounds for a product answers what the compiler's builtin answers.
pub mul_overflow_by_bounds_lem : (a b : ℤ) → mul_overflow_by_bounds a b ≡ mul_overflow a b
mul_overflow_by_bounds_lem (pos a) (pos b) =
    rw (bounds_pp a b, times_pp a b, fits-above (a * b))
      (ground (arith, product_test (2 ^ 63 - 1) a b))
mul_overflow_by_bounds_lem (pos a) (negsuc b) =
    rw (bounds_pn a b, times_pn a b, fits-below (a * suc b))
      (ground (arith, product_test (2 ^ 63) (suc b) a))
mul_overflow_by_bounds_lem (negsuc a) (pos b) =
    rw (bounds_np a b, times_np a b, fits-below (suc a * b))
      (ground (arith, product_test (2 ^ 63) (suc a) b))
mul_overflow_by_bounds_lem (negsuc a) (negsuc b) =
    rw (bounds_nn a b, times_nn a b, fits-above (suc a * suc b))
      (ground (arith, product_test (2 ^ 63 - 1) (suc a) (suc b)))
