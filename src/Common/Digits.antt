-- ===== src/Common/Digits.antt =====
-- The binary digits of a number by their positions, and the operations on words.
use Prim.Native.Nat.{
  ℕ, zero, suc, ◌+◌, ◌-◌, ◌*◌, ◌/◌, ◌%◌, ◌^◌, ◌≤◌, ◌<◌, min, max, digits, differ, bit_or, bit_and,
  bit_xor, bit_or-bitwise, bit_and-bitwise, bit_xor-bitwise,
}
use mathlib.Core.Path.{◌≡◌, refl, sym, ap, ◌∙◌}
use mathlib.Core.Bool.{Bool, true, false, not, ◌&&◌, ◌||◌}
use native.Mathlib.Nat.{pow-zero, pow-suc, mul_assoc, one-le-pow, div-div-eq-div-mul, mul_comm}
use native.Mathlib.Omega.{arith}
use mathlib.Core.Logic.{inl, inr}
use mclo.Common.Tests.{Bool-cases, ◌==◌, ltb, leb}
use mclo.Common.Bits.{mod-double}

abbrev pub test_bit : ℕ → ℕ → Bool
test_bit a zero = a % 2 == 1
test_bit a (suc i) = test_bit (a / 2) i

abbrev pub xor : Bool → Bool → Bool
xor true b = not b
xor false b = b

pub test_bit-zero : (i : ℕ) → test_bit 0 i ≡ false
test_bit-zero zero = refl
test_bit-zero (suc i) = test_bit-zero i

module _ (z : ℕ → ℕ) (f : ℕ → ℕ → ℕ) (g : Bool → Bool → Bool)
    (start : (b i : ℕ) → test_bit (z b) i ≡ g false (test_bit b i))
    (digit : (x y : ℕ) → x < 2 → y < 2 → ((f x y == 1) ≡ g (x == 1) (y == 1)) × (f x y < 2)) where
  test_bit-digits :
      (n a b i : ℕ) → a ≤ n → test_bit (digits z f n a b) i ≡ g (test_bit a i) (test_bit b i)
  test_bit-digits zero a b i le =
      (let z_a : a ≡ 0 = omega arith in
        rw z_a (start b i ∙ ap (λ t. g t (test_bit b i)) (sym (test_bit-zero i))))
  test_bit-digits (suc n) zero b i le =
      start b i ∙ ap (λ t. g t (test_bit b i)) (sym (test_bit-zero i))
  test_bit-digits (suc n) (suc a) b zero le =
      let d = digit (suc a % 2) (b % 2) (omega arith) (omega arith) in
      ap (λ n. n == 1) (omega (arith, d.1)) ∙ d.0
  test_bit-digits (suc n) (suc a) b (suc i) le =
      let d = digit (suc a % 2) (b % 2) (omega arith) (omega arith) in
      let rest = test_bit-digits n (suc a / 2) (b / 2) i (omega arith) in
      ap (λ n. test_bit n i) (omega (arith, d.1)) ∙ rest

twice : (a k : ℕ) → a * 2 ^ suc k ≡ a * 2 ^ k * 2
twice a k = ap (λ p. a * p) (pow-suc 2 k) ∙ sym (mul_assoc a (2 ^ k) 2)

pub test_bit-shift : (k a i : ℕ) → test_bit (a * 2 ^ k) i ≡ (leb k i && test_bit a (i - k))
test_bit-shift zero a i =
    let same : a * 1 ≡ a = omega arith in
    let here : i - 0 ≡ i = omega arith in
    ap (λ n. test_bit n i) same ∙ sym (ap (test_bit a) here) ∙ ground arith
test_bit-shift (suc k) a zero = ground (arith, twice a k)
test_bit-shift (suc k) a (suc i) = ap (λ n. test_bit n i) half ∙ test_bit-shift k a i ∙ ground arith
  where
    half : a * 2 ^ suc k / 2 ≡ a * 2 ^ k
    half = omega (arith, twice a k)

pub test_bit-mod : (k a i : ℕ) → test_bit (a % 2 ^ k) i ≡ (ltb i k && test_bit a i)
test_bit-mod zero a i = ap (λ n. test_bit n i) (omega arith) ∙ test_bit-zero i ∙ ground arith
test_bit-mod (suc k) a zero =
    ground (arith, pow-suc 2 k, mod-double a (2 ^ k) (one-le-pow k 2 (omega arith)))
test_bit-mod (suc k) a (suc i) =
    ap (λ n. test_bit n i) half ∙ test_bit-mod k (a / 2) i ∙ ground arith
  where
    half : a % 2 ^ suc k / 2 ≡ a / 2 % 2 ^ k
    half =
        ap (λ p. a % p / 2) (pow-suc 2 k)
        ∙ ap (λ n. n / 2) (mod-double a (2 ^ k) (one-le-pow k 2 (omega arith)))
        ∙ omega arith

pub test_bit-drop : (k a i : ℕ) → test_bit (a / 2 ^ k) i ≡ test_bit a (i + k)
test_bit-drop zero a i =
    let same : a / 1 ≡ a = omega arith in
    let here : i ≡ i + 0 = omega arith in ap (λ n. test_bit n i) same ∙ ap (test_bit a) here
test_bit-drop (suc k) a i =
    ap (λ n. test_bit n i) half ∙ test_bit-drop k (a / 2) i ∙ ap (test_bit a) here
  where
    here : suc (i + k) ≡ i + suc k
    here = omega arith

    half : a / 2 ^ suc k ≡ a / 2 / 2 ^ k
    half = ap (λ p. a / p) (pow-suc 2 k ∙ mul_comm (2 ^ k) 2) ∙ sym (div-div-eq-div-mul a 2 (2 ^ k))

pub test_bit-ones : (k i : ℕ) → test_bit (2 ^ k - 1) i ≡ ltb i k
test_bit-ones zero i = test_bit-zero i ∙ ground arith
test_bit-ones (suc k) zero = ground (arith, pow-suc 2 k, one-le-pow k 2 (omega arith))
test_bit-ones (suc k) (suc i) =
    ap (λ n. test_bit n i) (omega (arith, pow-suc 2 k, one-le-pow k 2 (omega arith)))
    ∙ test_bit-ones k i
    ∙ ground arith

pub test_bit-complement :
    (k a i : ℕ) → a < 2 ^ k → test_bit (2 ^ k - 1 - a) i ≡ (ltb i k && not (test_bit a i))
test_bit-complement zero a i lt =
    ap (λ n. test_bit n i) (omega arith) ∙ test_bit-zero i ∙ ground arith
test_bit-complement (suc k) a zero lt = ground (arith, pow-suc 2 k, one-le-pow k 2 (omega arith))
test_bit-complement (suc k) a (suc i) lt =
    ap (λ n. test_bit n i) half
    ∙ test_bit-complement k (a / 2) i (omega (arith, pow-suc 2 k))
    ∙ ground arith
  where
    half : (2 ^ suc k - 1 - a) / 2 ≡ 2 ^ k - 1 - a / 2
    half = omega (arith, pow-suc 2 k)

pub test_bit-above : (k a i : ℕ) → a < 2 ^ k → k ≤ i → test_bit a i ≡ false
test_bit-above zero a i lt le = ap (λ n. test_bit n i) (omega (arith, pow-zero 2)) ∙ test_bit-zero i
test_bit-above (suc k) a zero lt le = absurd (omega arith)
test_bit-above (suc k) a (suc i) lt le =
    test_bit-above k (a / 2) i (omega (arith, pow-suc 2 k)) (omega arith)

pub test_bit-one : (k i : ℕ) → test_bit (2 ^ k) i ≡ (i == k)
test_bit-one zero zero = ground arith
test_bit-one zero (suc i) = test_bit-zero i ∙ ground arith
test_bit-one (suc k) zero = ground (arith, pow-suc 2 k)
test_bit-one (suc k) (suc i) =
    ap (λ n. test_bit n i) (omega (arith, pow-suc 2 k)) ∙ test_bit-one k i ∙ ground arith

-- Numbers with the same digits are equal.
pub test_bit-ext :
    (k a b : ℕ) → a < 2 ^ k → b < 2 ^ k → ((i : ℕ) → i < k → test_bit a i ≡ test_bit b i) → a ≡ b
test_bit-ext zero a b la lb same = omega (arith, pow-zero 2)
test_bit-ext (suc k) a b la lb same =
    let rest =
      test_bit-ext k (a / 2) (b / 2) (omega (arith, pow-suc 2 k)) (omega (arith, pow-suc 2 k))
        (λ i lt. same (suc i) (omega arith)) in
    ground (arith, rest, same 0 (omega arith))

digit_or : (x y : ℕ) → x < 2 → y < 2 → ((max x y == 1) ≡ ((x == 1) || (y == 1))) × (max x y < 2)
digit_or x y lx ly = (ground arith, ground arith)

digit_and : (x y : ℕ) → x < 2 → y < 2 → ((min x y == 1) ≡ ((x == 1) && (y == 1))) × (min x y < 2)
digit_and x y lx ly = (ground arith, ground arith)

digit_xor :
    (x y : ℕ) → x < 2 → y < 2 → ((differ x y == 1) ≡ xor (x == 1) (y == 1)) × (differ x y < 2)
digit_xor zero y lx ly = (refl, ly)
digit_xor (suc x) zero lx ly = (ground arith, lx)
digit_xor (suc zero) (suc zero) lx ly = (refl, omega arith)
digit_xor (suc (suc x)) (suc y) lx ly = absurd (omega arith)
digit_xor (suc zero) (suc (suc y)) lx ly = absurd (omega arith)

pub test_bit-bit_or : (a b i : ℕ) → test_bit (bit_or a b) i ≡ (test_bit a i || test_bit b i)
test_bit-bit_or a b i =
    ap (λ n. test_bit n i) (bit_or-bitwise a b)
    ∙ test_bit-digits (λ y. y) max ◌||◌ (λ c j. refl) digit_or a a b i (omega arith)

pub test_bit-bit_and : (a b i : ℕ) → test_bit (bit_and a b) i ≡ (test_bit a i && test_bit b i)
test_bit-bit_and a b i =
    ap (λ n. test_bit n i) (bit_and-bitwise a b)
    ∙ test_bit-digits (λ y. zero) min ◌&&◌ (λ c j. test_bit-zero j) digit_and a a b i (omega arith)

pub test_bit-bit_xor : (a b i : ℕ) → test_bit (bit_xor a b) i ≡ xor (test_bit a i) (test_bit b i)
test_bit-bit_xor a b i =
    ap (λ n. test_bit n i) (bit_xor-bitwise a b)
    ∙ test_bit-digits (λ y. y) differ xor (λ c j. refl) digit_xor a a b i (omega arith)

-- A number whose digits from some position on are zero is bounded.
pub test_bit-bound :
    (k n a : ℕ) → a < 2 ^ n → ((i : ℕ) → k ≤ i → i < n → test_bit a i ≡ false) → a < 2 ^ k
test_bit-bound k zero a lt none = omega (arith, pow-zero 2, one-le-pow k 2 (omega arith))
test_bit-bound zero (suc n) a lt none =
    let a_zero =
      test_bit-ext (suc n) a 0 lt (one-le-pow (suc n) 2 (omega arith))
        (λ i j. none i (omega arith) j ∙ sym (test_bit-zero i)) in
    omega (arith, a_zero, pow-zero 2)
test_bit-bound (suc k) (suc n) a lt none =
    let rest =
      test_bit-bound k n (a / 2) (omega (arith, pow-suc 2 n))
        (λ i le j. none (suc i) (omega arith) (omega arith)) in
    omega (arith, rest, pow-suc 2 k)

lt-pow : (a : ℕ) → a < 2 ^ a
lt-pow zero = omega (arith, pow-zero 2)
lt-pow (suc a) = omega (arith, pow-suc 2 a, lt-pow a)

-- A number is as short as the place from which its digits are zero.
pub test_bit-lt : (k a : ℕ) → ((i : ℕ) → k ≤ i → test_bit a i ≡ false) → a < 2 ^ k
test_bit-lt k a none = test_bit-bound k a a (lt-pow a) (λ i le lt. none i le)

pub bit_or-lt : (k a b : ℕ) → a < 2 ^ k → b < 2 ^ k → bit_or a b < 2 ^ k
bit_or-lt k a b la lb =
    test_bit-lt k (bit_or a b)
      (λ i le. ground (arith, test_bit-bit_or a b i, test_bit-above k a i, test_bit-above k b i))

pub bit_and-lt : (k a b : ℕ) → a < 2 ^ k → bit_and a b < 2 ^ k
bit_and-lt k a b la =
    test_bit-lt k (bit_and a b)
      (λ i le. ground (arith, test_bit-bit_and a b i, test_bit-above k a i))

pub bit_xor-lt : (k a b : ℕ) → a < 2 ^ k → b < 2 ^ k → bit_xor a b < 2 ^ k
bit_xor-lt k a b la lb =
    test_bit-lt k (bit_xor a b)
      (λ i le. ground (arith, test_bit-bit_xor a b i, test_bit-above k a i, test_bit-above k b i))

-- The digit at a position, tested with a mask.
pub test_bit-masked : (a k : ℕ) → not (bit_and a (2 ^ k) == 0) ≡ test_bit a k
test_bit-masked a k = elim (Bool-cases (test_bit a k)) [
  | inl t ↦ ground (arith, test_bit-bit_and a (2 ^ k) k, test_bit-one k k, test_bit-zero k)
  | inr f ↦
      (let small =
          test_bit-lt 0 (bit_and a (2 ^ k))
            (λ i le. ground (arith, test_bit-bit_and a (2 ^ k) i, test_bit-one k i)) in
        ground (arith, small))
]

-- Taking away the lowest set digit: of an odd number, and of an even one that is not zero.
pub bit_and-odd : (x : ℕ) → (x % 2 == 1) ≡ true → bit_and x (x - 1) ≡ x / 2 * 2
bit_and-odd x odd =
    test_bit-ext (suc x) (bit_and x (x - 1)) (x / 2 * 2)
      (bit_and-lt (suc x) x (x - 1) (omega (arith, lt-pow x, pow-suc 2 x)))
      (omega (arith, lt-pow x, pow-suc 2 x)) (λ i lt. test_bit-bit_and x (x - 1) i ∙ digits_of i)
  where
    digits_of : (i : ℕ) → (test_bit x i && test_bit (x - 1) i) ≡ test_bit (x / 2 * 2) i
    digits_of zero = ground arith
    digits_of (suc i) =
        let a : (x - 1) / 2 ≡ x / 2 = ground arith in
        let b : x / 2 * 2 / 2 ≡ x / 2 = omega arith in
        ground (arith, ap (λ n. test_bit n i) a, ap (λ n. test_bit n i) b)

pub bit_and-even :
    (x : ℕ) → 0 < x → (x % 2 == 1) ≡ false → bit_and x (x - 1) ≡ bit_and (x / 2) (x / 2 - 1) * 2
bit_and-even x some_x even =
    test_bit-ext (suc x) (bit_and x (x - 1)) (bit_and (x / 2) (x / 2 - 1) * 2)
      (bit_and-lt (suc x) x (x - 1) (omega (arith, lt-pow x, pow-suc 2 x)))
      (omega (arith, bit_and-lt x (x / 2) (x / 2 - 1) (omega (arith, lt-pow x)), pow-suc 2 x))
      (λ i lt. test_bit-bit_and x (x - 1) i ∙ digits_of i)
  where
    digits_of :
        (i : ℕ)
        → (test_bit x i && test_bit (x - 1) i) ≡ test_bit (bit_and (x / 2) (x / 2 - 1) * 2) i
    digits_of zero = ground arith
    digits_of (suc i) =
        let a : (x - 1) / 2 ≡ x / 2 - 1 = ground arith in
        let b : bit_and (x / 2) (x / 2 - 1) * 2 / 2 ≡ bit_and (x / 2) (x / 2 - 1) = omega arith in
        ground (
          arith,
          ap (λ n. test_bit n i) a,
          ap (λ n. test_bit n i) b,
          test_bit-bit_and (x / 2) (x / 2 - 1) i,
        )
