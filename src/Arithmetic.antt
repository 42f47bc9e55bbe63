-- ===== src/Arithmetic.antt =====
-- include/mclo/numeric/detail/overflowing_intrinsics.hpp, overflowing_math.hpp, checked_math.hpp and
-- saturated_math.hpp: arithmetic that reports, refuses or clamps an overflow.
--
-- The functions written out in C++, which end in `_manual`, are modelled, and not the intrinsics that
-- some compilers put in their place. An unsigned type is told by its number of values, a signed one by
-- half of that, `half`: its values are the integers from -half to half - 1. A result is a value and
-- whether it overflowed; where the code leaves the value alone it is 0, as overflowing_math.hpp sets it.
pub mod Signed
pub mod Product
pub mod Exact
pub mod Clamped
mod Tests
use mclo.Common.{
  ℕ, ◌+◌, ◌-◌, ◌*◌, ◌/◌, ◌%◌, Option, none, some, Bool, true, false, ◌&&◌, ◌||◌, not, ltb, leb,
  ◌==◌, if◌then◌else◌,
}

module _ (values : ℕ) where
  unfoldable pub add : ℕ → ℕ → ℕ × Bool
  add x y = let result = (x + y) % values in (result, ltb result x)

  unfoldable pub sub : ℕ → ℕ → ℕ × Bool
  sub x y = ((x + (values - y)) % values, ltb x y)

  unfoldable pub mul : ℕ → ℕ → ℕ × Bool
  mul x y =
      if x == 0 || y == 0
      then (0, false)
      else if ltb ((values - 1) / x) y
      then (0, true)
      else (x * y % values, false)

  unfoldable pub div : ℕ → ℕ → ℕ × Bool
  div x y = (x / y, false)

  -- `saturating_add` and the like.
  unfoldable pub saturating_add : ℕ → ℕ → ℕ
  saturating_add x y = let r = add x y in if not r.1 then r.0 else values - 1

  unfoldable pub saturating_sub : ℕ → ℕ → ℕ
  saturating_sub x y = let r = sub x y in if not r.1 then r.0 else 0

  unfoldable pub saturating_mul : ℕ → ℕ → ℕ
  saturating_mul x y = let r = mul x y in if not r.1 then r.0 else values - 1

-- `checked_add` and the like, on the result of the operation.
unfoldable pub checked {ℓ} : {A : Type ℓ} → A × Bool → Option A
checked r = if not r.1 then some r.0 else none
