-- ===== src/Common/Int.antt =====
-- Integers over the native numbers, as far as the models of signed arithmetic use them.
use mclo.Common.Tests.{leb, ltb, if◌then◌else◌}
use Prim.Native.Nat.{ℕ, ◌+◌, ◌-◌}
use mathlib.Core.Bool.{Bool}

-- `negsuc n` is -(n + 1).
pub data ℤ : Type 0 where
  pos : ℕ → ℤ
  negsuc : ℕ → ℤ

-- The difference of two numbers.
abbrev pub diff : ℕ → ℕ → ℤ
diff a b = if leb b a then pos (a - b) else negsuc (b - a - 1)

abbrev pub up : ℤ → ℕ
up (pos n) = n
up (negsuc n) = 0

abbrev pub down : ℤ → ℕ
down (pos n) = 0
down (negsuc n) = n + 1

infixl 65 ◌+ℤ◌ ◌-ℤ◌
abbrev pub ◌+ℤ◌ : ℤ → ℤ → ℤ
x +ℤ y = diff (up x + up y) (down x + down y)

abbrev pub ◌-ℤ◌ : ℤ → ℤ → ℤ
x -ℤ y = diff (up x + down y) (down x + up y)

-- The tests of the order.
abbrev pub lt_int : ℤ → ℤ → Bool
lt_int x y = ltb (up x + down y) (up y + down x)

abbrev pub le_int : ℤ → ℤ → Bool
le_int x y = leb (up x + down y) (up y + down x)
