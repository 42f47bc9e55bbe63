-- ===== src/Arithmetic/Signed.antt =====
-- The signed functions of include/mclo/numeric/detail/overflowing_intrinsics.hpp and
-- saturated_math.hpp.
use mclo.Common.{
  ℕ, ◌+◌, ◌-◌, ◌*◌, ◌/◌, ◌%◌, ◌<◌, Bool, true, false, not, ◌&&◌, ◌||◌, ltb, ◌==◌, if◌then◌else◌, ℤ,
  pos, negsuc, ◌+ℤ◌, lt_int, le_int, diff,
}

module _ (half : ℕ) where
  abbrev pub lowest : ℤ
  lowest = negsuc (half - 1)

  abbrev pub highest : ℤ
  highest = pos (half - 1)

  -- The values of the type.
  abbrev pub InRange : ℤ → Type 0
  InRange (pos n) = n < half
  InRange (negsuc n) = n < half

  abbrev pub in_range : ℤ → Bool
  in_range (pos n) = ltb n half
  in_range (negsuc n) = ltb n half

  -- The casts to and from the unsigned type of the same width.
  abbrev pub to_unsigned : ℤ → ℕ
  to_unsigned (pos n) = n
  to_unsigned (negsuc n) = half + half - 1 - n

  abbrev pub to_signed : ℕ → ℤ
  to_signed u = if ltb u half then pos u else negsuc (half + half - 1 - u)

  unfoldable pub add : ℤ → ℤ → ℤ × Bool
  add x y =
      let result = to_signed ((to_unsigned x + to_unsigned y) % (half + half)) in
      (
        result,
        (lt_int (pos 0) x && (lt_int (pos 0) y && le_int result (pos 0)))
            || (lt_int x (pos 0) && (lt_int y (pos 0) && le_int (pos 0) result)),
      )

  unfoldable pub sub : ℤ → ℤ → ℤ × Bool
  sub x y =
      let result = to_signed ((to_unsigned x + (half + half - to_unsigned y)) % (half + half)) in
      (
        result,
        (lt_int (pos 0) y && lt_int x (lowest +ℤ y))
            || (lt_int y (pos 0) && lt_int (highest +ℤ y) x),
      )

  abbrev pub same : ℤ → ℤ → Bool
  same x y = le_int x y && le_int y x

  -- The cast of the absolute value to the unsigned type.
  abbrev pub magnitude : ℤ → ℕ
  magnitude x =
      if lt_int x (pos 0) then (half + half - to_unsigned x) % (half + half) else to_unsigned x

  -- The product from the absolute values, which are not zero, and whether it is negative.
  unfoldable pub mul_magnitudes : Bool → ℕ → ℕ → ℤ × Bool
  mul_magnitudes negative left right =
      let result = left * right % (half + half) in
      if negative
      then (to_signed ((half + half - result) % (half + half)), ltb (half / right) left)
      else (to_signed result, ltb ((half - 1) / right) left)

  unfoldable pub mul : ℤ → ℤ → ℤ × Bool
  mul x y =
      let negative =
        (lt_int x (pos 0) && not (lt_int y (pos 0)))
        || (not (lt_int x (pos 0)) && lt_int y (pos 0)) in
      if same x (pos 0) || same y (pos 0)
      then (pos 0, false)
      else if magnitude x == 0 || magnitude y == 0
      then (pos 0, false)
      else mul_magnitudes negative (magnitude x) (magnitude y)

  -- The product of the integers.
  abbrev pub product : ℤ → ℤ → ℤ
  product (pos m) (pos n) = pos (m * n)
  product (pos m) (negsuc n) = diff 0 (m * (n + 1))
  product (negsuc m) (pos n) = diff 0 ((m + 1) * n)
  product (negsuc m) (negsuc n) = pos ((m + 1) * (n + 1))

  -- The quotient of the language, rounded towards zero.
  abbrev pub quotient : ℤ → ℤ → ℤ
  quotient (pos m) (pos n) = pos (m / n)
  quotient (pos m) (negsuc n) = diff 0 (m / (n + 1))
  quotient (negsuc m) (pos n) = diff 0 ((m + 1) / n)
  quotient (negsuc m) (negsuc n) = pos ((m + 1) / (n + 1))

  unfoldable pub div : ℤ → ℤ → ℤ × Bool
  div x y = if same x lowest && same y (negsuc 0) then (pos 0, true) else (quotient x y, false)

  unfoldable pub saturating_add : ℤ → ℤ → ℤ
  saturating_add x y =
      let r = add x y in if not r.1 then r.0 else if lt_int (pos 0) x then highest else lowest

  unfoldable pub saturating_sub : ℤ → ℤ → ℤ
  saturating_sub x y =
      let r = sub x y in if not r.1 then r.0 else if le_int (pos 0) x then highest else lowest

  unfoldable pub saturating_div : ℤ → ℤ → ℤ
  saturating_div x y =
      let r = div x y in
      if not r.1 then r.0 else if same x lowest && same y (negsuc 0) then highest else quotient x y

  unfoldable pub saturating_mul : ℤ → ℤ → ℤ
  saturating_mul x y =
      let r = mul x y in
      if not r.1
      then r.0
      else if (lt_int (pos 0) x && lt_int (pos 0) y) || (lt_int x (pos 0) && lt_int y (pos 0))
      then highest
      else lowest
