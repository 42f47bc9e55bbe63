-- ===== src/Bitset/Trim.antt =====
-- The trimming of the last word in bitset.hpp and dynamic_bitset.hpp under include/mclo/container.
use Prim.Native.Nat.{bit_and}
use mclo.Common.{
  ℕ, ◌-◌, ◌/◌, ◌%◌, ◌^◌, ◌<◌, ◌≡◌, sym, ap, ◌∙◌, subst, inl, inr, true, false, ◌&&◌, ltb, ◌==◌,
  if◌then◌else◌, length, get_or, set, Bool-cases, get_or-set, length-set, test_bit, test_bit-zero,
  test_bit-ones, test_bit-bit_and, bit_and-lt, arith,
}
use mclo.Bitset.{Bitset, num_values, last_mask, back, trim}
use mclo.Bitset.Words.{member, IsBitset, in_word, div_mono, get_or-out}

-- The words of a set before its last one is trimmed.
pub record HasWords (w : ℕ) (s : Bitset) : Type 0 where
  pub some_bits : 0 < w
  pub words : length s.container ≡ num_values w s.size
  pub bounded : (p : ℕ) → get_or s.container p 0 < 2 ^ w

module _ (w : ℕ) (s : Bitset) (v : HasWords w s) where
  abbrev last : ℕ
  last = length s.container - 1

  trim-whole : (s.size % w == 0) ≡ true → trim w s ≡ s
  unfolding trim
  trim-whole t = ground (arith, t)

  trim-part :
      (s.size % w == 0) ≡ false
      → trim w s
        ≡ record s { container = set s.container last (bit_and (back s.container) (last_mask w s)) }
  unfolding trim
  trim-part f = ground (arith, f)

  last-part : (s.size % w == 0) ≡ false → (last ≡ s.size / w) × (last < length s.container)
  unfolding num_values
  last-part f = (ground (arith, f, v.words), ground (arith, f, v.words))

  part-get_or :
      (f : (s.size % w == 0) ≡ false) (p : ℕ)
      → get_or (trim w s).container p 0
        ≡ (if last == p then bit_and (back s.container) (last_mask w s) else get_or s.container p 0)
  part-get_or f p =
      ap (λ u. get_or u.container p 0) (trim-part f)
      ∙ get_or-set s.container last p (bit_and (back s.container) (last_mask w s)) 0 (last-part f).1

  whole-member :
      (s.size % w == 0) ≡ true
      → (i : ℕ) → member w s.container i ≡ (ltb i s.size && member w s.container i)
  unfolding num_values
  whole-member t i =
      let out = get_or-out s.container (i / w) in
      elim (Bool-cases (ltb i s.size)) [
        | inl l ↦ ground (arith, l)
        | inr n ↦
            (let z : get_or s.container (i / w) 0 ≡ 0 =
                ground (arith, out, v.words, t, div_mono w s.size i v.some_bits) in
              ap (λ x. test_bit x (i % w)) z ∙ test_bit-zero (i % w) ∙ ground (arith, n))
      ]

  part-member :
      (s.size % w == 0) ≡ false
      → (i : ℕ) → member w (trim w s).container i ≡ (ltb i s.size && member w s.container i)
  unfolding num_values last_mask
  part-member f i =
      let here = part-get_or f (i / w) in
      let q = (last-part f).0 in
      elim (Bool-cases (last == i / w)) [
        | inl t ↦
            (let e : last ≡ i / w = ground arith in
              let r : get_or (trim w s).container (i / w) 0
                  ≡ bit_and (back s.container) (last_mask w s) =
                ground (arith, here, t) in
              let b : member w s.container i ≡ test_bit (back s.container) (i % w) =
                ap (λ p. test_bit (get_or s.container p 0) (i % w)) (sym e) in
              ap (λ x. test_bit x (i % w)) r
              ∙ test_bit-bit_and (back s.container) (last_mask w s) (i % w)
              ∙ ground (
                arith,
                b,
                test_bit-ones (s.size % w) (i % w),
                in_word w i s.size v.some_bits (sym e ∙ q),
              ))
        | inr n ↦
            (let r : get_or (trim w s).container (i / w) 0 ≡ get_or s.container (i / w) 0 =
                ground (arith, here, n) in
              ap (λ x. test_bit x (i % w)) r ∙ (elim (Bool-cases (ltb i s.size)) [
                | inl l ↦ ground (arith, l)
                | inr m ↦
                    (let z : get_or s.container (i / w) 0 ≡ 0 = ground (
                      arith,
                      get_or-out s.container (i / w),
                      v.words,
                      f,
                      q,
                      n,
                      div_mono w s.size i v.some_bits,
                    ) in
                      ap (λ x. test_bit x (i % w)) z ∙ test_bit-zero (i % w) ∙ ground (arith, m))
              ]))
      ]

  pub trim-member :
      (i : ℕ) → member w (trim w s).container i ≡ (ltb i s.size && member w s.container i)
  trim-member i = elim (Bool-cases (s.size % w == 0)) [
    | inl t ↦ ap (λ u. member w u.container i) (trim-whole t) ∙ whole-member t i
    | inr f ↦ part-member f i
  ]

  pub size-trim : (trim w s).size ≡ s.size
  size-trim = elim (Bool-cases (s.size % w == 0)) [
    | inl t ↦ ap (λ u. u.size) (trim-whole t)
    | inr f ↦ ap (λ u. u.size) (trim-part f)
  ]

  pub trim-IsBitset : IsBitset w (trim w s)
  trim-IsBitset = record {
    some_bits = v.some_bits;
    words = elim (Bool-cases (s.size % w == 0)) [
      | inl t ↦ subst (λ u. length u.container ≡ num_values w u.size) (sym (trim-whole t)) v.words
      | inr f ↦
          subst (λ u. length u.container ≡ num_values w u.size) (sym (trim-part f))
            (length-set s.container last (bit_and (back s.container) (last_mask w s)) ∙ v.words)
    ];
    bounded = λ p. elim (Bool-cases (s.size % w == 0)) [
      | inl t ↦ subst (λ u. get_or u.container p 0 < 2 ^ w) (sym (trim-whole t)) (v.bounded p)
      | inr f ↦ ground (
        arith,
        part-get_or f p,
        v.bounded p,
        bit_and-lt w (back s.container) (last_mask w s) (v.bounded last),
      )
    ];
    rest = λ i le. ground (arith, trim-member i, size-trim);
  }
