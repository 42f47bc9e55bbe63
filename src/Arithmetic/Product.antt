-- ===== src/Arithmetic/Product.antt =====
-- The signed product of include/mclo/numeric/detail/overflowing_intrinsics.hpp.
use mclo.Common.{
  ℕ, zero, suc, ◌+◌, ◌-◌, ◌*◌, ◌%◌, ◌<◌, ◌≡◌, none, some, true, false, ltb, if◌then◌else◌, ℤ, pos,
  negsuc, diff, arith, Bool-cases, inl, inr, sym, subst, Bool, ap, ◌∙◌,
}
use native.Mathlib.Nat.{mod-eq_of_lt, div-lt_iff_lt-mul, add-mul}
use mclo.Arithmetic.{checked}
use mclo.Arithmetic.Signed
use mclo.Arithmetic.Signed.{InRange, in_range, product, magnitude, mul_magnitudes, to_signed}

module _ (half : ℕ) where
  -- A product that is not negative.
  positive :
      (l r : ℕ)
      → 0 < half
      → 0 < r
      → (ltb (l * r) half ≡ true → mul_magnitudes half false l r ≡ (pos (l * r), false))
        × (ltb (l * r) half ≡ false → (mul_magnitudes half false l r).1 ≡ true)
  unfolding mul_magnitudes
  positive l r some_value some_r =
      let test = div-lt_iff_lt-mul {k = r} {x = half - 1} {y = l} some_r in
      (
        λ t. ground (arith, t, test.0, mod-eq_of_lt {n = l * r} {m = half + half}),
        λ f. ground (arith, f, test.1),
      )

  -- A product that is negative.
  negative :
      (l r p : ℕ)
      → suc p ≡ l * r
      → 0 < half
      → 0 < r
      → (ltb p half ≡ true → mul_magnitudes half true l r ≡ (negsuc p, false))
        × (ltb p half ≡ false → (mul_magnitudes half true l r).1 ≡ true)
  unfolding mul_magnitudes
  negative l r p e some_value some_r =
      let test = div-lt_iff_lt-mul {k = r} {x = half} {y = l} some_r in
      (
        λ t.
            let below : p < half = ground (arith, t) in
            let low : l * r % (half + half) ≡ suc p =
              omega
                (arith, e, mod-eq_of_lt {n = l * r} {m = half + half} (omega (arith, e, below))) in
            let back : (half + half - l * r % (half + half)) % (half + half) ≡ half + half - suc p =
              ap (λ q. (half + half - q) % (half + half)) low
              ∙ mod-eq_of_lt {n = half + half - suc p} {m = half + half} (omega arith) in
            ground (arith, t, e, test.0, back),
        λ f. ground (arith, f, e, test.1),
      )

  magnitude-negsuc : (n : ℕ) → n < half → magnitude half (negsuc n) ≡ n + 1
  magnitude-negsuc n lt =
      let e : half + half - (half + half - 1 - n) ≡ n + 1 = omega arith in
      ground (arith, e, mod-eq_of_lt {n = n + 1} {m = half + half})

  -- The product of two values that are not zero.
  mul-pos-negsuc :
      (m n : ℕ)
      → n < half
      → Signed.mul half (pos (suc m)) (negsuc n) ≡ mul_magnitudes half true (suc m) (n + 1)
  unfolding Signed.mul
  mul-pos-negsuc m n lt = ground (arith, magnitude-negsuc n lt)

  mul-negsuc-pos :
      (m n : ℕ)
      → m < half
      → Signed.mul half (negsuc m) (pos (suc n)) ≡ mul_magnitudes half true (m + 1) (suc n)
  unfolding Signed.mul
  mul-negsuc-pos m n lt = ground (arith, magnitude-negsuc m lt)

  mul-negsuc :
      (m n : ℕ)
      → m < half
      → n < half
      → Signed.mul half (negsuc m) (negsuc n) ≡ mul_magnitudes half false (m + 1) (n + 1)
  unfolding Signed.mul
  mul-negsuc m n lt lt' = ground (arith, magnitude-negsuc m lt, magnitude-negsuc n lt')

  mul-pos :
      (m n : ℕ)
      → Signed.mul half (pos (suc m)) (pos (suc n)) ≡ mul_magnitudes half false (suc m) (suc n)
  unfolding Signed.mul
  mul-pos m n = ground arith

  mul-zero : (m : ℕ) → Signed.mul half (negsuc m) (pos 0) ≡ (pos 0, false)
  unfolding Signed.mul
  mul-zero m = ground arith

  -- What the code returns is the exact product, if that is a value of the type; otherwise it is flagged.
  unfoldable pub IsExact : ℤ × Bool → ℤ → Type 0
  IsExact r z = (in_range half z ≡ true → r ≡ (z, false)) × (in_range half z ≡ false → r.1 ≡ true)

  pub mul-IsExact :
      (x y : ℤ) → InRange half x → InRange half y → IsExact (Signed.mul half x y) (product half x y)
  unfolding IsExact Signed.mul
  mul-IsExact (pos zero) (pos n) p q = (λ t. ground arith, λ f. absurd (ground (arith, f, p)))
  mul-IsExact (pos zero) (negsuc n) p q = (λ t. ground arith, λ f. absurd (ground (arith, f, p)))
  mul-IsExact (pos (suc m)) (pos zero) p q = (λ t. ground arith, λ f. absurd (ground (arith, f, p)))
  mul-IsExact (pos (suc m)) (pos (suc n)) p q =
      subst (λ r. IsExact r (pos (suc m * suc n))) (sym (mul-pos m n))
        (positive (suc m) (suc n) (omega arith) (omega arith))
  mul-IsExact (pos (suc m)) (negsuc n) p q =
      let k = m * (n + 1) + n in
      let e : suc k ≡ suc m * (n + 1) = omega (arith, add-mul m 1 (n + 1)) in
      let d : negsuc k ≡ diff 0 (suc m * (n + 1)) = ground (arith, e) in
      subst (IsExact (Signed.mul half (pos (suc m)) (negsuc n))) d (
        subst (λ r. IsExact r (negsuc k)) (sym (mul-pos-negsuc m n q))
          (negative (suc m) (n + 1) k e (omega arith) (omega arith)))
  mul-IsExact (negsuc m) (pos zero) p q =
      (λ t. ground (arith, mul-zero m), λ f. absurd (ground (arith, f, q)))
  mul-IsExact (negsuc m) (pos (suc n)) p q =
      let k = m * suc n + n in
      let e : suc k ≡ (m + 1) * suc n = omega (arith, add-mul m 1 (suc n)) in
      let d : negsuc k ≡ diff 0 ((m + 1) * suc n) = ground (arith, e) in
      subst (IsExact (Signed.mul half (negsuc m) (pos (suc n)))) d (
        subst (λ r. IsExact r (negsuc k)) (sym (mul-negsuc-pos m n p))
          (negative (m + 1) (suc n) k e (omega arith) (omega arith)))
  mul-IsExact (negsuc m) (negsuc n) p q =
      subst (λ r. IsExact r (pos ((m + 1) * (n + 1)))) (sym (mul-negsuc m n p q))
        (positive (m + 1) (n + 1) (omega arith) (omega arith))

  pub mul-checked_signed :
      (x y : ℤ)
      → InRange half x
      → InRange half y
      → checked (Signed.mul half x y)
        ≡ (if in_range half (product half x y) then some (product half x y) else none)
  unfolding checked IsExact
  mul-checked_signed x y p q =
      let e = mul-IsExact x y p q in
      elim (Bool-cases (in_range half (product half x y))) [
        | inl t ↦ (let r = e.0 t in ground (arith, t, r))
        | inr f ↦ (let r = e.1 f in ground (arith, f, r))
      ]
