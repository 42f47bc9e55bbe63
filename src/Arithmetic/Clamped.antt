-- ===== src/Arithmetic/Clamped.antt =====
-- The saturating operations of include/mclo/numeric/saturated_math.hpp against exact arithmetic.
use mclo.Common.{
  ℕ, zero, suc, ◌+◌, ◌-◌, ◌*◌, ◌<◌, ◌≡◌, if◌then◌else◌, min, ℤ, pos, negsuc, ◌+ℤ◌, ◌-ℤ◌, lt_int,
  arith, ◌≢◌, diff, ltb, Bool-cases, inl, inr, true, false,
}
use native.Mathlib.Nat.{
  mod-eq_of_lt, div-lt_iff_lt-mul, mul_comm, div-le_self, div-lt_self, div-one,
}
use mclo.Arithmetic.{add, sub, mul, saturating_add, saturating_sub, saturating_mul}
use mclo.Arithmetic.Signed
use mclo.Arithmetic.Signed.{InRange, in_range, lowest, highest, product, quotient}
use mclo.Arithmetic.Product.{IsExact, mul-IsExact}
use mclo.Arithmetic.Exact.{mod-once}

-- The value of a signed type that is nearest to an integer.
unfoldable pub nearest : ℕ → ℤ → ℤ
nearest half z =
    if lt_int z (lowest half)
    then lowest half
    else if lt_int (highest half) z
    then highest half
    else z

mul-min : (values x y : ℕ) → 0 < values → saturating_mul values x y ≡ min (x * y) (values - 1)
unfolding saturating_mul mul
mul-min values zero y some_value = ground arith
mul-min values (suc x) zero some_value = ground arith
mul-min values (suc x) (suc y) some_value =
    let test = div-lt_iff_lt-mul {k = suc x} {x = values - 1} {y = suc y} (omega arith) in
    ground (
      arith,
      test.0,
      test.1,
      mul_comm (suc x) (suc y),
      mod-eq_of_lt {n = suc x * suc y} {m = values},
    )

-- On values of an unsigned type the saturating operations return the value of the type that is
-- nearest to the exact result.
pub saturating_lem :
    (values x y : ℕ)
    → x < values
    → y < values
    → (saturating_add values x y ≡ min (x + y) (values - 1))
      × (saturating_sub values x y ≡ x - y)
      × (saturating_mul values x y ≡ min (x * y) (values - 1))
unfolding saturating_add saturating_sub add sub
saturating_lem values x y in_x in_y = (
  ground (arith, mod-once (x + y) values),
  ground (arith, mod-once (x + (values - y)) values),
  mul-min values x y (omega arith),
)

module _ (half : ℕ) where
  add-nearest :
      (x y : ℤ)
      → InRange half x
      → InRange half y
      → Signed.saturating_add half x y ≡ nearest half (x +ℤ y)
  unfolding Signed.saturating_add Signed.add nearest
  add-nearest (pos m) (pos n) p q = ground (arith, mod-once (m + n) (half + half))
  add-nearest (pos m) (negsuc n) p q =
      ground (arith, mod-once (m + (half + half - 1 - n)) (half + half))
  add-nearest (negsuc m) (pos n) p q =
      ground (arith, mod-once (half + half - 1 - m + n) (half + half))
  add-nearest (negsuc m) (negsuc n) p q =
      ground (arith, mod-once (half + half - 1 - m + (half + half - 1 - n)) (half + half))

  sub-nearest :
      (x y : ℤ)
      → InRange half x
      → InRange half y
      → Signed.saturating_sub half x y ≡ nearest half (x -ℤ y)
  unfolding Signed.saturating_sub Signed.sub nearest
  sub-nearest (pos m) (pos n) p q = ground (arith, mod-once (m + (half + half - n)) (half + half))
  sub-nearest (pos m) (negsuc n) p q =
      ground (arith, mod-once (m + (half + half - (half + half - 1 - n))) (half + half))
  sub-nearest (negsuc m) (pos n) p q =
      ground (arith, mod-once (half + half - 1 - m + (half + half - n)) (half + half))
  sub-nearest (negsuc m) (negsuc n) p q =
      let e : half + half - (half + half - 1 - n) ≡ n + 1 = omega arith in
      rw e (ground (arith, mod-once (half + half - 1 - m + (n + 1)) (half + half)))

  div-nearest :
      (x y : ℤ)
      → InRange half x
      → InRange half y
      → y ≢ pos 0
      → Signed.saturating_div half x y ≡ nearest half (quotient half x y)
  unfolding Signed.saturating_div Signed.div nearest
  div-nearest (pos m) (pos n) p q ne = ground (arith, div-le_self m n)
  div-nearest (pos m) (negsuc n) p q ne = ground (arith, div-le_self m (n + 1))
  div-nearest (negsuc m) (pos n) p q ne = ground (arith, div-le_self (m + 1) n)
  div-nearest (negsuc m) (negsuc zero) p q ne = ground (arith, div-one (m + 1))
  div-nearest (negsuc m) (negsuc (suc n)) p q ne =
      ground (arith, div-lt_self {n = m + 1} {k = suc n + 1} (omega arith) (omega arith))

  nearest-in : (z : ℤ) → in_range half z ≡ true → nearest half z ≡ z
  unfolding nearest
  nearest-in (pos n) t = ground (arith, t)
  nearest-in (negsuc n) t = ground (arith, t)

  nearest-above : (n : ℕ) → 0 < half → ltb n half ≡ false → nearest half (pos n) ≡ highest half
  unfolding nearest
  nearest-above n some_value f = ground (arith, f)

  nearest-below :
      (n : ℕ) → 0 < half → in_range half (diff 0 n) ≡ false → nearest half (diff 0 n) ≡ lowest half
  unfolding nearest
  nearest-below zero some_value f = absurd (ground (arith, f))
  nearest-below (suc n) some_value f = ground (arith, f)

  -- A product that is no value of the type has the sign that the code tests for.
  mul-beyond :
      (x y : ℤ)
      → InRange half x
      → InRange half y
      → in_range half (product half x y) ≡ false
      → (Signed.mul half x y).1 ≡ true
      → Signed.saturating_mul half x y ≡ nearest half (product half x y)
  unfolding Signed.saturating_mul
  mul-beyond (pos zero) (pos n) p q f e = absurd (ground (arith, f, p))
  mul-beyond (pos (suc m)) (pos zero) p q f e = absurd (ground (arith, f, p))
  mul-beyond (pos (suc m)) (pos (suc n)) p q f e =
      ground (arith, e, nearest-above (suc m * suc n) (omega arith) f)
  mul-beyond (pos m) (negsuc n) p q f e =
      ground (arith, e, nearest-below (m * (n + 1)) (omega arith) f)
  mul-beyond (negsuc m) (pos n) p q f e =
      ground (arith, e, nearest-below ((m + 1) * n) (omega arith) f)
  mul-beyond (negsuc m) (negsuc n) p q f e =
      ground (arith, e, nearest-above ((m + 1) * (n + 1)) (omega arith) f)

  mul-nearest :
      (x y : ℤ)
      → InRange half x
      → InRange half y
      → Signed.saturating_mul half x y ≡ nearest half (product half x y)
  unfolding Signed.saturating_mul IsExact
  mul-nearest x y p q =
      let e = mul-IsExact half x y p q in
      elim (Bool-cases (in_range half (product half x y))) [
        | inl t ↦ (let r = e.0 t in ground (arith, r, nearest-in (product half x y) t))
        | inr f ↦ mul-beyond x y p q f (e.1 f)
      ]

-- On all values of a signed type the saturating sum, difference and product are the value of the type that is
-- nearest to the exact result; so is the saturating quotient, for a divisor other than zero.
pub saturating_signed_lem :
    (half : ℕ) (x y : ℤ)
    → InRange half x
    → InRange half y
    → (Signed.saturating_add half x y ≡ nearest half (x +ℤ y))
      × (Signed.saturating_sub half x y ≡ nearest half (x -ℤ y))
      × (Signed.saturating_mul half x y ≡ nearest half (product half x y))
      × (y ≢ pos 0 → Signed.saturating_div half x y ≡ nearest half (quotient half x y))
saturating_signed_lem half x y p q = (
  add-nearest half x y p q,
  sub-nearest half x y p q,
  mul-nearest half x y p q,
  div-nearest half x y p q,
)
