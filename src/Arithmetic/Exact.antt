-- ===== src/Arithmetic/Exact.antt =====
-- The checked operations of include/mclo/numeric/checked_math.hpp against exact arithmetic.
use mclo.Common.{
  ℕ, zero, suc, ◌+◌, ◌-◌, ◌*◌, ◌%◌, ◌<◌, ◌≡◌, none, some, ltb, leb, if◌then◌else◌, ℤ, pos, negsuc,
  ◌+ℤ◌, ◌-ℤ◌, arith, ◌≢◌, Bool-cases, inl, inr,
}
use native.Mathlib.Nat.{
  mod-eq_of_lt, mod-eq-sub-mod, div-lt_iff_lt-mul, mul_comm, div-le_self, div-lt_self, div-one,
}
use mclo.Arithmetic.{add, sub, mul, checked}
use mclo.Arithmetic.Signed
use mclo.Arithmetic.Signed.{InRange, in_range, product}
use mclo.Arithmetic.Product.{mul-checked_signed}

-- A remainder of a number below twice the divisor.
pub mod-once : (n m : ℕ) → n < m + m → n % m ≡ (if ltb n m then n else n - m)
mod-once n m lt = elim (Bool-cases (ltb n m)) [
  | inl e ↦ ground (arith, mod-eq_of_lt {n = n} {m = m} (ground arith))
  | inr e ↦ ground (
    arith,
    mod-eq-sub-mod {n = n} {m = m} (ground arith),
    mod-eq_of_lt {n = n - m} {m = m} (ground arith),
  )
]

module _ (values x y : ℕ) (in_x : x < values) (in_y : y < values) where
  add-checked : checked (add values x y) ≡ (if ltb (x + y) values then some (x + y) else none)
  unfolding add checked
  add-checked = ground (arith, mod-once (x + y) values)

  sub-checked : checked (sub values x y) ≡ (if leb y x then some (x - y) else none)
  unfolding sub checked
  sub-checked = ground (arith, mod-once (x + (values - y)) values)

mul-checked :
    (values x y : ℕ)
    → 0 < values
    → checked (mul values x y) ≡ (if ltb (x * y) values then some (x * y) else none)
unfolding mul checked
mul-checked values zero y some_value = ground arith
mul-checked values (suc x) zero some_value = ground arith
mul-checked values (suc x) (suc y) some_value =
    let test = div-lt_iff_lt-mul {k = suc x} {x = values - 1} {y = suc y} (omega arith) in
    ground (
      arith,
      test.0,
      test.1,
      mul_comm (suc x) (suc y),
      mod-eq_of_lt {n = suc x * suc y} {m = values},
    )

module _ (half : ℕ) where
  add-checked_signed :
      (x y : ℤ)
      → InRange half x
      → InRange half y
      → checked (Signed.add half x y) ≡ (if in_range half (x +ℤ y) then some (x +ℤ y) else none)
  unfolding Signed.add checked
  add-checked_signed (pos m) (pos n) p q = ground (arith, mod-once (m + n) (half + half))
  add-checked_signed (pos m) (negsuc n) p q =
      ground (arith, mod-once (m + (half + half - 1 - n)) (half + half))
  add-checked_signed (negsuc m) (pos n) p q =
      ground (arith, mod-once (half + half - 1 - m + n) (half + half))
  add-checked_signed (negsuc m) (negsuc n) p q =
      ground (arith, mod-once (half + half - 1 - m + (half + half - 1 - n)) (half + half))

  sub-checked_signed :
      (x y : ℤ)
      → InRange half x
      → InRange half y
      → checked (Signed.sub half x y) ≡ (if in_range half (x -ℤ y) then some (x -ℤ y) else none)
  unfolding Signed.sub checked
  sub-checked_signed (pos m) (pos n) p q =
      ground (arith, mod-once (m + (half + half - n)) (half + half))
  sub-checked_signed (pos m) (negsuc n) p q =
      ground (arith, mod-once (m + (half + half - (half + half - 1 - n))) (half + half))
  sub-checked_signed (negsuc m) (pos n) p q =
      ground (arith, mod-once (half + half - 1 - m + (half + half - n)) (half + half))
  sub-checked_signed (negsuc m) (negsuc n) p q =
      ground (
        arith,
        mod-once (half + half - 1 - m + (half + half - (half + half - 1 - n))) (half + half),
      )

  div-checked_signed :
      (x y : ℤ)
      → InRange half x
      → InRange half y
      → y ≢ pos 0
      → checked (Signed.div half x y) ≡ (
          if in_range half (Signed.quotient half x y)
          then some (Signed.quotient half x y)
          else none)
  unfolding Signed.div checked
  div-checked_signed (pos m) (pos n) p q ne = ground (arith, div-le_self m n)
  div-checked_signed (pos m) (negsuc n) p q ne = ground (arith, div-le_self m (n + 1))
  div-checked_signed (negsuc m) (pos n) p q ne = ground (arith, div-le_self (m + 1) n)
  div-checked_signed (negsuc m) (negsuc zero) p q ne = ground (arith, div-one (m + 1))
  div-checked_signed (negsuc m) (negsuc (suc n)) p q ne =
      ground (arith, div-lt_self {n = m + 1} {k = suc n + 1} (omega arith) (omega arith))

-- On values of an unsigned type the checked operations return the exact result if it is a value of the
-- type, and nothing otherwise.
pub checked_lem :
    (values x y : ℕ)
    → x < values
    → y < values
    → (checked (add values x y) ≡ (if ltb (x + y) values then some (x + y) else none))
      × (checked (sub values x y) ≡ (if leb y x then some (x - y) else none))
      × (checked (mul values x y) ≡ (if ltb (x * y) values then some (x * y) else none))
checked_lem values x y in_x in_y = (
  add-checked values x y in_x in_y,
  sub-checked values x y in_x in_y,
  mul-checked values x y (omega arith),
)

-- On all values of a signed type the checked sum, difference and product are the exact result if it is a value of
-- the type, and nothing otherwise; so is the checked quotient, for a divisor other than zero.
pub checked_signed_lem :
    (half : ℕ) (x y : ℤ)
    → InRange half x
    → InRange half y
    → (checked (Signed.add half x y) ≡ (if in_range half (x +ℤ y) then some (x +ℤ y) else none))
      × (checked (Signed.sub half x y) ≡ (if in_range half (x -ℤ y) then some (x -ℤ y) else none))
      × (checked (Signed.mul half x y)
          ≡ (if in_range half (product half x y) then some (product half x y) else none))
      × (y ≢ pos 0
          → checked (Signed.div half x y) ≡ (
              if in_range half (Signed.quotient half x y)
              then some (Signed.quotient half x y)
              else none))
checked_signed_lem half x y p q = (
  add-checked_signed half x y p q,
  sub-checked_signed half x y p q,
  mul-checked_signed half x y p q,
  div-checked_signed half x y p q,
)
