-- ===== src/Bitset/Sink.antt =====
-- The two loops of `>>=` in include/mclo/container/detail/bitset_base.hpp.
use Prim.Native.Nat.{bit_or}
use native.Mathlib.Nat.{mod-eq_of_lt, one-le-pow, add-mul-div_right, add-mul-mod_self_right}
use mathlib.Core.Path.{ap₂}
use mclo.Common.{
  ℕ, zero, suc, ◌+◌, ◌-◌, ◌*◌, ◌/◌, ◌%◌, ◌^◌, ◌≤◌, ◌<◌, ◌≡◌, refl, sym, ap, ◌∙◌, inl, inr, List,
  true, ltb, leb, ◌==◌, if◌then◌else◌, length, get_or, set, Bool-cases, get_or-set, length-set,
  test_bit, test_bit-zero, test_bit-shift, test_bit-mod, test_bit-drop, test_bit-bit_or,
  test_bit-above, test_bit-lt, arith,
}
use mclo.Bitset.{lower_words, lower_bits}
use mclo.Bitset.Words.{member, place, member-place, get_or-out}

pub length-lower_words : (n i by : ℕ) (c : List ℕ) → length (lower_words n i by c) ≡ length c
unfolding lower_words
length-lower_words zero i by c = refl
length-lower_words (suc n) i by c =
    let x = if leb by n then get_or c (i + by) 0 else 0 in
    length-lower_words n (i + 1) by (set c i x) ∙ length-set c i x

get_or-lower_words :
    (n i by : ℕ) (c : List ℕ) (p : ℕ)
    → i + n ≡ length c
    → get_or (lower_words n i by c) p 0 ≡ (if leb i p then get_or c (p + by) 0 else get_or c p 0)
unfolding lower_words
get_or-lower_words zero i by c p e = ground (arith, get_or-out c p, get_or-out c (p + by))
get_or-lower_words (suc n) i by c p e =
    let x = if leb by n then get_or c (i + by) 0 else 0 in
    let rest = get_or-lower_words n (i + 1) by (set c i x) p (omega (arith, e, length-set c i x)) in
    let here = get_or-set c i p x 0 (omega (arith, e)) in
    let far = get_or-set c i (p + by) x 0 (omega (arith, e)) in
    let out = get_or-out c (i + by) in
    elim (Bool-cases (i == p)) [
      | inl t ↦
          (let z : i ≡ p = ground arith in
            rest ∙ ground (arith, here, out, e, ap (λ q. get_or c (q + by) 0) z))
      | inr f ↦ rest ∙ ground (arith, here, far)
    ]

pub length-lower_bits : (w n i by : ℕ) (c : List ℕ) → length (lower_bits w n i by c) ≡ length c
unfolding lower_bits
length-lower_bits w zero i by c = length-set c i (get_or c i 0 / 2 ^ by)
length-lower_bits w (suc n) i by c =
    let x = bit_or (get_or c i 0 / 2 ^ by) (get_or c (i + 1) 0 * 2 ^ (w - by) % 2 ^ w) in
    length-lower_bits w n (i + 1) by (set c i x) ∙ length-set c i x

-- A word after the shift by bits, from the two words it comes from.
abbrev lowered : ℕ → ℕ → ℕ → ℕ → ℕ
lowered w by x y = bit_or (x / 2 ^ by) (y * 2 ^ (w - by) % 2 ^ w)

lowered-last : (w by x j : ℕ) → test_bit (lowered w by x 0) j ≡ test_bit (x / 2 ^ by) j
lowered-last w by x j =
    let z : 0 * 2 ^ (w - by) % 2 ^ w ≡ 0 =
      (let a : 0 * 2 ^ (w - by) ≡ 0 = omega arith in
        ap (λ n. n % 2 ^ w) a ∙ mod-eq_of_lt (one-le-pow w 2 (omega arith))) in
    test_bit-bit_or (x / 2 ^ by) (0 * 2 ^ (w - by) % 2 ^ w) j
    ∙ ground (arith, ap (λ n. test_bit n j) z, test_bit-zero j)

test_bit-lower_bits :
    (w n i by : ℕ) (c : List ℕ) (p j : ℕ)
    → i + n + 1 ≡ length c
    → test_bit (get_or (lower_bits w n i by c) p 0) j
      ≡ test_bit
          (if leb i p then lowered w by (get_or c p 0) (get_or c (p + 1) 0) else get_or c p 0)
          j
unfolding lower_bits
test_bit-lower_bits w zero i by c p j e =
    let x = get_or c i 0 / 2 ^ by in
    let here = get_or-set c i p x 0 (omega (arith, e)) in
    let last : i ≤ p → get_or c (p + 1) 0 ≡ 0 = λ le. get_or-out c (p + 1) (omega (arith, e)) in
    elim (Bool-cases (i == p)) [
      | inl t ↦
          (let z : i ≡ p = ground arith in
            let r : get_or (set c i x) p 0 ≡ get_or c p 0 / 2 ^ by =
              ground (arith, here, ap (λ q. get_or c q 0 / 2 ^ by) z) in
            ap (λ n. test_bit n j) r
            ∙ sym (lowered-last w by (get_or c p 0) j)
            ∙ ap (λ n. test_bit n j)
                (ap (lowered w by (get_or c p 0)) (sym (last (omega (arith, z)))) ∙ ground arith))
      | inr f ↦ (elim (Bool-cases (leb i p)) [
        | inl t ↦
            (let out : get_or c p 0 ≡ 0 = get_or-out c p (ground (arith, e)) in
              let r : get_or (set c i x) p 0 ≡ 0 = ground (arith, here, out) in
              let zero_bits =
                test_bit-zero j ∙ sym (test_bit-zero (j + by)) ∙ sym (test_bit-drop by 0 j) in
              ap (λ n. test_bit n j) r
              ∙ zero_bits
              ∙ sym (lowered-last w by 0 j)
              ∙ ap (λ n. test_bit n j)
                  (ap₂ (lowered w by) (sym out) (sym (last (ground arith))) ∙ ground arith))
        | inr o ↦ ap (λ n. test_bit n j) (ground (arith, here))
      ])
    ]
test_bit-lower_bits w (suc n) i by c p j e =
    let x = lowered w by (get_or c i 0) (get_or c (i + 1) 0) in
    let rest =
      test_bit-lower_bits w n (i + 1) by (set c i x) p j (omega (arith, e, length-set c i x)) in
    let here = get_or-set c i p x 0 (omega (arith, e)) in
    let next = get_or-set c i (p + 1) x 0 (omega (arith, e)) in
    rest
    ∙ ap (λ n. test_bit n j)
        (elim (Bool-cases (i == p)) [
          | inl t ↦
              (let z : i ≡ p = ground arith in
                ground (arith, here, ap (λ q. lowered w by (get_or c q 0) (get_or c (q + 1) 0)) z))
          | inr f ↦
              (let a : get_or (set c i x) p 0 ≡ get_or c p 0 = ground (arith, here) in
                let b : leb i p ≡ true → get_or (set c i x) (p + 1) 0 ≡ get_or c (p + 1) 0 =
                  λ t. ground (arith, next) in
                elim (Bool-cases (leb i p)) [
                  | inl t ↦ ground (arith, ap₂ (lowered w by) a (b t))
                  | inr o ↦ ground (arith, a)
                ])
        ])

module _ (w : ℕ) (pw : 0 < w) (c : List ℕ) (small : (p : ℕ) → get_or c p 0 < 2 ^ w) where
  pub lower_words-member :
      (by i : ℕ) → member w (lower_words (length c) 0 by c) i ≡ member w c (i + by * w)
  lower_words-member by i =
      let r : get_or (lower_words (length c) 0 by c) (i / w) 0 ≡ get_or c (i / w + by) 0 =
        get_or-lower_words (length c) 0 by c (i / w) (omega arith) ∙ ground arith in
      ap (λ n. test_bit n (i % w)) r
      ∙ ap₂ (λ p j. test_bit (get_or c p 0) j) (sym (add-mul-div_right i by pw))
          (sym (add-mul-mod_self_right i by w))

  pub lower_bits-member :
      (by i : ℕ)
      → 0 < by
      → by < w
      → 0 < length c
      → member w (lower_bits w (length c - 1) 0 by c) i ≡ member w c (i + by)
  lower_bits-member by i some_bits lt some_words =
      let p = i / w in
      let j = i % w in
      let l = place w i pw in
      let x = get_or c p 0 in
      let y = get_or c (p + 1) 0 in
      let m = test_bit-mod w (y * 2 ^ (w - by)) j in
      let n = test_bit-shift (w - by) y j in
      let k = test_bit-drop by x j in
      test_bit-lower_bits w (length c - 1) 0 by c p j (omega arith)
      ∙ ap (λ z. test_bit z j) {y = lowered w by x y} (ground arith)
      ∙ test_bit-bit_or (x / 2 ^ by) (y * 2 ^ (w - by) % 2 ^ w) j
      ∙ (elim (Bool-cases (ltb (j + by) w)) [
        | inl t ↦
            (let e : i + by ≡ p * w + (j + by) = omega (arith, l) in
              let v = ap (member w c) e ∙ member-place w c p (j + by) (ground arith) in
              ground (arith, m, n, k, v))
        | inr f ↦
            (let e : i + by ≡ (p + 1) * w + (j - (w - by)) = ground (arith, l) in
              let v =
                ap (member w c) e ∙ member-place w c (p + 1) (j - (w - by)) (ground (arith, l)) in
              ground (arith, m, n, k, v, l, test_bit-above w x (j + by) (small p)))
      ])

  pub lower_words-small : (by p : ℕ) → get_or (lower_words (length c) 0 by c) p 0 < 2 ^ w
  lower_words-small by p =
      ground (arith, get_or-lower_words (length c) 0 by c p, small p, small (p + by))

  pub lower_bits-small :
      (by p : ℕ) → 0 < length c → get_or (lower_bits w (length c - 1) 0 by c) p 0 < 2 ^ w
  lower_bits-small by p some_words =
      let x = get_or c p 0 in
      let y = get_or c (p + 1) 0 in
      test_bit-lt w (get_or (lower_bits w (length c - 1) 0 by c) p 0) (λ j le.
        test_bit-lower_bits w (length c - 1) 0 by c p j (omega arith)
        ∙ ap (λ z. test_bit z j) {y = lowered w by x y} (ground arith)
        ∙ test_bit-bit_or (x / 2 ^ by) (y * 2 ^ (w - by) % 2 ^ w) j
        ∙ ground (
          arith,
          test_bit-mod w (y * 2 ^ (w - by)) j,
          test_bit-drop by x j,
          test_bit-above w x (j + by) (small p),
        ))
