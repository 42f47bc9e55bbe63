-- ===== src/Common/Bits.antt =====
-- Binary digits: the union of a number with a shorter one below it, and the cut by a mask.
use Prim.Native.Nat.{
  ℕ, zero, suc, ◌+◌, ◌-◌, ◌*◌, ◌/◌, ◌%◌, ◌^◌, ◌≤◌, ◌<◌, min, max, digits, bit_or, bit_and,
  bit_or-bitwise, bit_and-bitwise,
}
use mathlib.Core.Path.{◌≡◌, refl, sym, ap, ◌∙◌}
use native.Mathlib.Nat.{
  pow-zero, pow-suc, mul_assoc, one-le-pow, mod-add-div', add-mul-mod_self_right, mod-eq_of_lt,
  mod-lt,
}
use native.Mathlib.Omega.{arith}

abbrev or_digits : ℕ → ℕ → ℕ → ℕ
or_digits n a b = digits (λ y. y) max n a b

abbrev and_digits : ℕ → ℕ → ℕ → ℕ
and_digits n a b = digits (λ y. zero) min n a b

or_digits-none : (n b : ℕ) → or_digits n 0 b ≡ b
or_digits-none zero b = refl
or_digits-none (suc n) b = refl

or_digits-zero : (n a : ℕ) → a ≤ n → or_digits n a 0 ≡ a
or_digits-zero zero a le = omega arith
or_digits-zero (suc n) zero le = refl
or_digits-zero (suc n) (suc a) le =
    let rest = or_digits-zero n (suc a / 2) (omega arith) in omega (arith, rest)

or_digits-low : (k n c a b : ℕ) → c ≡ a * 2 ^ k → c ≤ n → b < 2 ^ k → or_digits n c b ≡ c + b
or_digits-low zero n c a b e le lt =
    let b_zero : b ≡ 0 = omega (arith, pow-zero 2) in
    rw b_zero (or_digits-zero n c le ∙ omega arith)
or_digits-low (suc k) n zero a b e le lt = or_digits-none n b ∙ omega arith
or_digits-low (suc k) zero (suc c) a b e le lt = absurd (omega arith)
or_digits-low (suc k) (suc n) (suc c) a b e le lt =
    let twice : suc c ≡ a * 2 ^ k * 2 =
      e ∙ ap (λ p. a * p) (pow-suc 2 k) ∙ sym (mul_assoc a (2 ^ k) 2) in
    let rest =
      or_digits-low k n (suc c / 2) a (b / 2) (omega (arith, twice)) (omega arith)
        (omega (arith, pow-suc 2 k)) in
    omega (arith, rest, twice)

-- A number whose lowest `k` digits are zero, and a number of `k` digits.
pub bit_or-low : (k a b : ℕ) → b < 2 ^ k → bit_or (a * 2 ^ k) b ≡ a * 2 ^ k + b
bit_or-low k a b lt =
    bit_or-bitwise (a * 2 ^ k) b ∙ or_digits-low k (a * 2 ^ k) (a * 2 ^ k) a b refl (omega arith) lt

and_digits-none : (n b : ℕ) → and_digits n 0 b ≡ 0
and_digits-none zero b = refl
and_digits-none (suc n) b = refl

and_digits-zero : (n a : ℕ) → and_digits n a 0 ≡ 0
and_digits-zero zero a = refl
and_digits-zero (suc n) zero = refl
and_digits-zero (suc n) (suc a) = let rest = and_digits-zero n (suc a / 2) in omega (arith, rest)

mask-half : (p : ℕ) → 0 < p → ((p * 2 - 1) / 2 ≡ p - 1) × ((p * 2 - 1) % 2 ≡ 1)
mask-half p some_p = (omega arith, omega arith)

pub mod-double : (x p : ℕ) → 0 < p → x % (p * 2) ≡ x / 2 % p * 2 + x % 2
mod-double x p some_p =
    let low = x / 2 % p * 2 + x % 2 in
    let whole : x ≡ low + x / 2 / p * (p * 2) =
      omega (arith, mod-add-div' (x / 2) p, mul_assoc (x / 2 / p) p 2) in
    ap (λ y. y % (p * 2)) whole
    ∙ add-mul-mod_self_right low (x / 2 / p) (p * 2)
    ∙ mod-eq_of_lt {n = low} {m = p * 2} (omega (arith, mod-lt (x / 2) some_p))

and_digits-mask : (k n a : ℕ) → a ≤ n → and_digits n a (2 ^ k - 1) ≡ a % 2 ^ k
and_digits-mask zero n a le = and_digits-zero n a ∙ omega arith
and_digits-mask (suc k) n zero le = and_digits-none n (2 ^ suc k - 1) ∙ omega arith
and_digits-mask (suc k) zero (suc a) le = absurd (omega arith)
and_digits-mask (suc k) (suc n) (suc a) le =
    let rest = and_digits-mask k n (suc a / 2) (omega arith) in
    let some_p = one-le-pow k 2 (omega arith) in
    let half = mask-half (2 ^ k) some_p in
    let half_rest : and_digits n (suc a / 2) ((2 ^ k * 2 - 1) / 2) ≡ suc a / 2 % 2 ^ k =
      ap (and_digits n (suc a / 2)) half.0 ∙ rest in
    rw (pow-suc 2 k) (omega (arith, half_rest, mod-double (suc a) (2 ^ k) some_p, half.1))

-- The lowest `k` digits of a number.
pub bit_and-mask : (k a : ℕ) → bit_and a (2 ^ k - 1) ≡ a % 2 ^ k
bit_and-mask k a = bit_and-bitwise a (2 ^ k - 1) ∙ and_digits-mask k a a (omega arith)
