-- ===== src/Bitset/Raise.antt =====
-- The two loops of `<<=` in include/mclo/container/detail/bitset_base.hpp.
use Prim.Native.Nat.{bit_or}
use native.Mathlib.Nat.{mod-lt, one-le-pow, add-mul, div-le_self, mul-le-mul_right}
use mathlib.Core.Path.{ap₂}
use mclo.Common.{
  ℕ, zero, suc, ◌+◌, ◌-◌, ◌*◌, ◌/◌, ◌%◌, ◌^◌, ◌≤◌, ◌<◌, ◌≡◌, refl, sym, ap, ◌∙◌, inl, inr, List,
  ◌&&◌, ltb, leb, ◌==◌, if◌then◌else◌, length, get_or, set, Bool-cases, get_or-set, length-set,
  test_bit, test_bit-zero, test_bit-shift, test_bit-mod, test_bit-drop, test_bit-bit_or,
  test_bit-above, bit_or-lt, arith,
}
use mclo.Bitset.{raise_words, raise_bits}
use mclo.Bitset.Words.{member, place, member-place, get_or-out}

pub length-raise_words : (i by : ℕ) (c : List ℕ) → length (raise_words i by c) ≡ length c
unfolding raise_words
length-raise_words zero by c = refl
length-raise_words (suc i) by c =
    let x = if leb by i then get_or c (i - by) 0 else 0 in
    length-raise_words i by (set c i x) ∙ length-set c i x

get_or-raise_words :
    (i by : ℕ) (c : List ℕ) (p : ℕ)
    → i ≤ length c
    → get_or (raise_words i by c) p 0
      ≡ (if ltb p i then (if leb by p then get_or c (p - by) 0 else 0) else get_or c p 0)
unfolding raise_words
get_or-raise_words zero by c p le = ground arith
get_or-raise_words (suc i) by c p le =
    let x = if leb by i then get_or c (i - by) 0 else 0 in
    let rest = get_or-raise_words i by (set c i x) p (omega (arith, length-set c i x)) in
    let here = get_or-set c i p x 0 (omega arith) in
    let low = get_or-set c i (p - by) x 0 (omega arith) in
    rest ∙ ground (arith, here, low, ap (λ q. get_or c (q - by) 0) {x = i} {y = p})

pub length-raise_bits : (w i by : ℕ) (c : List ℕ) → length (raise_bits w i by c) ≡ length c
unfolding raise_bits
length-raise_bits w zero by c = length-set c 0 (get_or c 0 0 * 2 ^ by % 2 ^ w)
length-raise_bits w (suc i) by c =
    let x = bit_or (get_or c (suc i) 0 * 2 ^ by % 2 ^ w) (get_or c i 0 / 2 ^ (w - by)) in
    length-raise_bits w i by (set c (suc i) x) ∙ length-set c (suc i) x

-- The word at an index after the shift by bits.
abbrev raised : ℕ → ℕ → List ℕ → ℕ → ℕ
raised w by c zero = get_or c 0 0 * 2 ^ by % 2 ^ w
raised w by c (suc p) = bit_or (get_or c (suc p) 0 * 2 ^ by % 2 ^ w) (get_or c p 0 / 2 ^ (w - by))

get_or-set_above :
    (c : List ℕ) (i q x : ℕ) → i < length c → q < i → get_or (set c i x) q 0 ≡ get_or c q 0
get_or-set_above c i q x le lt = ground (arith, get_or-set c i q x 0)

raised-set :
    (w by : ℕ) (c : List ℕ) (i p x : ℕ)
    → suc i < length c
    → p ≤ i
    → raised w by (set c (suc i) x) p ≡ raised w by c p
raised-set w by c i zero x le lt =
    ap (λ y. y * 2 ^ by % 2 ^ w) (get_or-set_above c (suc i) 0 x le (omega arith))
raised-set w by c i (suc p) x le lt =
    ap₂ (λ y z. bit_or (y * 2 ^ by % 2 ^ w) (z / 2 ^ (w - by)))
      (get_or-set_above c (suc i) (suc p) x le (omega arith))
      (get_or-set_above c (suc i) p x le (omega arith))

get_or-raise_bits :
    (w i by : ℕ) (c : List ℕ) (p : ℕ)
    → i < length c
    → get_or (raise_bits w i by c) p 0 ≡ (if leb p i then raised w by c p else get_or c p 0)
unfolding raise_bits
get_or-raise_bits w zero by c zero le =
    ground (arith, get_or-set c 0 0 (get_or c 0 0 * 2 ^ by % 2 ^ w) 0)
get_or-raise_bits w zero by c (suc p) le =
    ground (arith, get_or-set c 0 (suc p) (get_or c 0 0 * 2 ^ by % 2 ^ w) 0)
get_or-raise_bits w (suc i) by c p le =
    let x = raised w by c (suc i) in
    let rest =
      get_or-raise_bits w i by (set c (suc i) x) p (omega (arith, length-set c (suc i) x)) in
    let same = raised-set w by c i p x le in
    let here = get_or-set c (suc i) p x 0 le in
    elim (Bool-cases (p == suc i)) [
      | inl t ↦
          (let e : p ≡ suc i = ground arith in rest ∙ ground (arith, here, ap (raised w by c) e))
      | inr f ↦ rest ∙ ground (arith, here, same)
    ]

module _ (w : ℕ) (pw : 0 < w) (c : List ℕ) (small : (p : ℕ) → get_or c p 0 < 2 ^ w) where
  -- Whole words up.
  pub raise_words-member :
      (by i : ℕ)
      → member w (raise_words (length c) by c) i
        ≡ (ltb (i / w) (length c) && (leb (by * w) i && member w c (i - by * w)))
  raise_words-member by i =
      let r = get_or-raise_words (length c) by c (i / w) (omega arith) in
      let p = place w i pw in
      let word = get_or (raise_words (length c) by c) (i / w) 0 in
      elim (Bool-cases (leb by (i / w))) [
        | inl t ↦
            (let q : i / w ≡ by + (i / w - by) = ground arith in
              let m : i / w * w ≡ by * w + (i / w - by) * w =
                ap (λ n. n * w) q ∙ add-mul by (i / w - by) w in
              let e : i - by * w ≡ (i / w - by) * w + i % w = omega (arith, p, m) in
              let v : member w c (i - by * w) ≡ test_bit (get_or c (i / w - by) 0) (i % w) =
                ap (member w c) e ∙ member-place w c (i / w - by) (i % w) p.1 in
              elim (Bool-cases (ltb (i / w) (length c))) [
                | inl l ↦
                    (let x : word ≡ get_or c (i / w - by) 0 = ground (arith, r, t, l) in
                      ap (λ n. test_bit n (i % w)) x ∙ ground (arith, v, l, p, m))
                | inr o ↦
                    (let x : word ≡ 0 = r ∙ ground (arith, o, get_or-out c (i / w)) in
                      ap (λ n. test_bit n (i % w)) x ∙ test_bit-zero (i % w) ∙ ground (arith, o))
              ])
        | inr f ↦
            (let far = mul-le-mul_right {m = i / w + 1} {n = by} w (ground arith) in
              let x : word ≡ 0 = r ∙ ground (arith, f, get_or-out c (i / w)) in
              ap (λ n. test_bit n (i % w)) x ∙ test_bit-zero (i % w) ∙ ground (arith, far, p))
      ]

  -- Bits up, by less than a word.
  module _ (by : ℕ) (some_bits : 0 < by) (lt : by < w) where
    raised-bit :
        (p j : ℕ)
        → j < w
        → test_bit (raised w by c p) j ≡ (leb by (p * w + j) && member w c (p * w + j - by))
    raised-bit zero j l =
        let x = get_or c 0 0 in
        let v : by ≤ j → member w c (0 * w + j - by) ≡ test_bit x (j - by) = λ le.
          let e : 0 * w + j - by ≡ 0 * w + (j - by) = omega arith in
          ap (member w c) e ∙ member-place w c 0 (j - by) (omega arith) in
        test_bit-mod w (x * 2 ^ by) j ∙ ground (arith, test_bit-shift by x j, v)
    raised-bit (suc p) j l =
        let x = get_or c (suc p) 0 in
        let y = get_or c p 0 in
        let m = test_bit-mod w (x * 2 ^ by) j in
        let n = test_bit-shift by x j in
        let k = test_bit-drop (w - by) y j in
        test_bit-bit_or (x * 2 ^ by % 2 ^ w) (y / 2 ^ (w - by)) j ∙ (elim (Bool-cases (leb by j)) [
          | inl t ↦
              (let e : suc p * w + j - by ≡ suc p * w + (j - by) = ground arith in
                let v = ap (member w c) e ∙ member-place w c (suc p) (j - by) (omega arith) in
                ground (arith, m, n, k, v, test_bit-above w y (j + (w - by)) (small p)))
          | inr f ↦
              (let e : suc p * w + j - by ≡ p * w + (j + (w - by)) = ground arith in
                let v = ap (member w c) e ∙ member-place w c p (j + (w - by)) (ground arith) in
                ground (arith, m, n, k, v))
        ])

    raised-small : (p : ℕ) → raised w by c p < 2 ^ w
    raised-small zero = mod-lt (get_or c 0 0 * 2 ^ by) (one-le-pow w 2 (omega arith))
    raised-small (suc p) =
        bit_or-lt w (get_or c (suc p) 0 * 2 ^ by % 2 ^ w) (get_or c p 0 / 2 ^ (w - by))
          (mod-lt (get_or c (suc p) 0 * 2 ^ by) (one-le-pow w 2 (omega arith)))
          (omega (arith, small p, div-le_self (get_or c p 0) (2 ^ (w - by))))

    pub raise_bits-member :
        (i : ℕ)
        → 0 < length c
        → member w (raise_bits w (length c - 1) by c) i
          ≡ (ltb (i / w) (length c) && (leb by i && member w c (i - by)))
    raise_bits-member i some_words =
        let r = get_or-raise_bits w (length c - 1) by c (i / w) (omega arith) in
        let p = place w i pw in
        let word = get_or (raise_bits w (length c - 1) by c) (i / w) 0 in
        elim (Bool-cases (ltb (i / w) (length c))) [
          | inl t ↦
              (let x : word ≡ raised w by c (i / w) = ground (arith, r) in
                ap (λ n. test_bit n (i % w)) x
                ∙ raised-bit (i / w) (i % w) p.1
                ∙ ap (λ n. leb by n && member w c (n - by)) (sym p.0)
                ∙ ground (arith, t))
          | inr f ↦
              (let x : word ≡ 0 = r ∙ ground (arith, f, get_or-out c (i / w)) in
                ap (λ n. test_bit n (i % w)) x ∙ test_bit-zero (i % w) ∙ ground (arith, f))
        ]

    pub raise_bits-small :
        (p : ℕ) → 0 < length c → get_or (raise_bits w (length c - 1) by c) p 0 < 2 ^ w
    raise_bits-small p some_words =
        ground (arith, get_or-raise_bits w (length c - 1) by c p, small p, raised-small p)

  pub raise_words-small : (by p : ℕ) → get_or (raise_words (length c) by c) p 0 < 2 ^ w
  raise_words-small by p = ground (
    arith,
    get_or-raise_words (length c) by c p,
    small p,
    small (p - by),
    one-le-pow w 2 (omega arith),
  )
