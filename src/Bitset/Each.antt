-- ===== src/Bitset/Each.antt =====
-- `for_each_set` and `count` of include/mclo/container/detail/bitset_base.hpp.
use Prim.Native.Nat.{bit_and}
use native.Mathlib.Nat.{pow-suc, pow-zero}
use mclo.Common.{
  ℕ, zero, suc, ◌+◌, ◌-◌, ◌*◌, ◌/◌, ◌%◌, ◌^◌, ◌≤◌, ◌<◌, ◌≡◌, refl, ap, ◌∙◌, subst, inl, inr, some,
  List, [], ◌∷◌, ◌++◌, true, ◌&&◌, ltb, leb, ◌==◌, if◌then◌else◌, length, length-append, get_or,
  Bool-cases, test_bit, test_bit-zero, bit_and-lt, bit_and-odd, bit_and-even, has, has-append,
  arith,
}
use mclo.Bitset.{
  Bitset, countr_zero, popcount, count_words, count, word_positions, positions_from, for_each_set,
}
use mclo.Bitset.Words.{member, IsBitset}
use mclo.Bitset.Find.{from_page, from_page-head, from_page-tail}

-- The positions of the set digits of a number, counted from a base.
abbrev digits_of : ℕ → ℕ → ℕ → List ℕ
digits_of zero base x = []
digits_of (suc n) base x =
    if x % 2 == 1 then base ∷ digits_of n (base + 1) (x / 2) else digits_of n (base + 1) (x / 2)

digits_of-zero : (n base : ℕ) → digits_of n base 0 ≡ []
digits_of-zero zero base = refl
digits_of-zero (suc n) base = digits_of-zero n (base + 1)

-- The lowest digit comes first, and the others are those of the number without it.
digits_of-lowest :
    (n base x : ℕ)
    → x < 2 ^ n
    → 0 < x
    → digits_of n base x ≡ (base + countr_zero n x) ∷ digits_of n base (bit_and x (x - 1))
unfolding countr_zero
digits_of-lowest zero base x lt some_x = absurd (omega (arith, lt, pow-zero 2))
digits_of-lowest (suc n) base x lt some_x = elim (Bool-cases (x % 2 == 1)) [
  | inl t ↦
      (let e = bit_and-odd x t in
        let h : bit_and x (x - 1) / 2 ≡ x / 2 = omega (arith, e) in
        let z : base + 0 ≡ base = omega arith in
        ground (arith, t, e, ap (digits_of n (base + 1)) h, z))
  | inr f ↦
      (let e = bit_and-even x some_x f in
        let h : bit_and x (x - 1) / 2 ≡ bit_and (x / 2) (x / 2 - 1) = omega (arith, e) in
        let rest =
          digits_of-lowest n (base + 1) (x / 2) (omega (arith, pow-suc 2 n)) (ground arith) in
        ground (arith, f, e, ap (digits_of n (base + 1)) h, rest))
]

popcount-length : (n base x : ℕ) → popcount n x ≡ length (digits_of n base x)
unfolding popcount
popcount-length zero base x = refl
popcount-length (suc n) base x = ground (arith, popcount-length n (base + 1) (x / 2))

length-digits_of : (n base x : ℕ) → length (digits_of n base x) ≤ n
length-digits_of zero base x = omega arith
length-digits_of (suc n) base x = ground (arith, length-digits_of n (base + 1) (x / 2))

word_positions_lem :
    (w fuel base x : ℕ)
    → x < 2 ^ w
    → length (digits_of w base x) ≤ fuel
    → word_positions w fuel base x ≡ some (digits_of w base x)
unfolding word_positions
word_positions_lem w zero base x lt le = elim (Bool-cases (x == 0)) [
  | inl t ↦
      (let z : x ≡ 0 = ground arith in
        ground (arith, ap (digits_of w base) z, digits_of-zero w base))
  | inr f ↦ absurd (ground (arith, ap length (digits_of-lowest w base x lt (ground arith)), le))
]
word_positions_lem w (suc fuel) base x lt le = elim (Bool-cases (x == 0)) [
  | inl t ↦
      (let z : x ≡ 0 = ground arith in
        ground (arith, ap (digits_of w base) z, digits_of-zero w base))
  | inr f ↦
      (let e = digits_of-lowest w base x lt (ground arith) in
        let rest =
          word_positions_lem w fuel base (bit_and x (x - 1)) (bit_and-lt w x (x - 1) lt)
            (omega (arith, le, ap length e)) in
        ground (arith, f, e, rest))
]

-- Numbers in order, from a bound on.
abbrev pub Ascending : ℕ → List ℕ → Type 0
Ascending from [] = Unit
Ascending from (x ∷ xs) = (from ≤ x) × Ascending (suc x) xs

Ascending-weaken : (n m : ℕ) (xs : List ℕ) → n ≤ m → Ascending m xs → Ascending n xs
Ascending-weaken n m [] le a = tt
Ascending-weaken n m (x ∷ xs) le a = (omega (arith, a.0), a.1)

digits_of-Ascending : (n base x : ℕ) → Ascending base (digits_of n base x)
digits_of-Ascending zero base x = tt
digits_of-Ascending (suc n) base x =
    let rest = digits_of-Ascending n (base + 1) (x / 2) in
    let e : base + 1 ≡ suc base = omega arith in
    elim (Bool-cases (x % 2 == 1)) [
      | inl t ↦ rw t (omega arith, subst (λ m. Ascending m (digits_of n (base + 1) (x / 2))) e rest)
      | inr f ↦
          rw f
            (Ascending-weaken base (base + 1) (digits_of n (base + 1) (x / 2)) (omega arith) rest)
    ]

has-digits_of :
    (n base x i : ℕ)
    → has i (digits_of n base x) ≡ (leb base i && (ltb i (base + n) && test_bit x (i - base)))
has-digits_of zero base x i = ground arith
has-digits_of (suc n) base x i =
    let rest = has-digits_of n (base + 1) (x / 2) i in
    elim (Bool-cases (i == base)) [
      | inl t ↦ (let e : i - base ≡ 0 = ground arith in ground (arith, rest, ap (test_bit x) e))
      | inr f ↦
          (let e : leb base i ≡ true → i - base ≡ suc (i - (base + 1)) = λ l. ground arith in
            ground (arith, rest, ap (test_bit x) {x = i - base} {y = suc (i - (base + 1))}, e))
    ]

Ascending-append :
    (n m : ℕ) (xs ys : List ℕ)
    → n ≤ m
    → Ascending n xs
    → ((a : ℕ) → has a xs ≡ true → a < m)
    → Ascending m ys
    → Ascending n (xs ++ ys)
Ascending-append n m [] ys le a below b = Ascending-weaken n m ys le b
Ascending-append n m (x ∷ xs) ys le a below b = (
  a.0,
  Ascending-append (suc x) m xs ys (below x (ground arith)) a.1 (λ y i. below y (ground arith)) b,
)

positions_from_lem :
    (w page : ℕ) (c : List ℕ)
    → 0 < w
    → ((p : ℕ) → get_or c p 0 < 2 ^ w)
    → (r : List ℕ) × (positions_from w page c ≡ some r)
      × (count_words w c ≡ length r)
      × Ascending (page * w) r
      × ((i : ℕ) → has i r ≡ (leb (page * w) i && from_page w page c i))
unfolding positions_from count_words
positions_from_lem w page [] pw small =
    ([], refl, refl, tt, λ i. ground (arith, test_bit-zero ((i - page * w) % w)))
positions_from_lem w page (x ∷ c) pw small =
    let base = page * w in
    let here = digits_of w base x in
    let h = word_positions_lem w w base x (small 0) (length-digits_of w base x) in
    let rest = positions_from_lem w (page + 1) c pw (λ p. small (suc p)) in
    let next : (page + 1) * w ≡ base + w = omega arith in
    let inside : (a : ℕ) → has a here ≡ true → a < base + w =
      λ a e. ground (arith, has-digits_of w base x a) in
    (
      here ++ rest.0,
      ground (arith, h, rest.1),
      ground (arith, popcount-length w base x, rest.2, length-append here rest.0),
      Ascending-append base (base + w) here rest.0 (omega arith) (digits_of-Ascending w base x)
          inside (subst (λ n. Ascending n rest.0) next rest.3),
      λ i. ground (
        arith,
        has-append i here rest.0,
        has-digits_of w base x i,
        rest.4 i,
        next,
        from_page-head w page x c i,
        from_page-tail w page x c i pw,
      ),
    )

-- `for_each_set` on a valid set passes the positions that are in it, each once and in ascending order, and
-- `count` is their number.
pub for_each_set_lem :
    (w : ℕ) (s : Bitset)
    → IsBitset w s
    → (r : List ℕ) × (for_each_set w s ≡ some r)
      × (count w s ≡ length r)
      × Ascending 0 r
      × ((i : ℕ) → has i r ≡ member w s.container i)
unfolding for_each_set count
for_each_set_lem w s v =
    let r = positions_from_lem w 0 s.container v.some_bits v.bounded in
    let zero_base : 0 * w ≡ 0 = omega arith in
    let e : (i : ℕ) → i - 0 * w ≡ i = λ i. omega arith in
    (
      r.0,
      r.1,
      r.2,
      subst (λ n. Ascending n r.0) zero_base r.3,
      λ i. r.4 i ∙ ground (arith, zero_base, ap (member w s.container) (e i)),
    )
