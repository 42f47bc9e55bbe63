-- ===== src/Bitset/Shift.antt =====
-- The operator `<<=` of include/mclo/container/detail/bitset_base.hpp.
use native.Mathlib.Nat.{mod-lt}
use mclo.Common.{
  ℕ, ◌-◌, ◌*◌, ◌/◌, ◌%◌, ◌^◌, ◌<◌, ◌≡◌, refl, ap, ◌∙◌, subst, inl, inr, some, List, ◌&&◌, ltb, leb,
  ◌==◌, if◌then◌else◌, length, get_or, Bool-cases, test_bit, test_bit-zero, arith,
}
use mclo.Bitset.{Bitset, trim, raise_words, raise_bits, shift_left}
use mclo.Bitset.Words.{member, IsBitset, place, get_or-out, div-num_values, div_mono}
use mclo.Bitset.Trim.{HasWords, trim-IsBitset, trim-member, size-trim}
use mclo.Bitset.Raise.{
  length-raise_words, length-raise_bits, raise_words-member, raise_words-small, raise_bits-member,
  raise_bits-small,
}

-- What words become when every position goes up.
record Raised (w : ℕ) (c : List ℕ) (by : ℕ) (d : List ℕ) : Type 0 where
  same_length : length d ≡ length c
  small : (p : ℕ) → get_or d p 0 < 2 ^ w
  moved : (i : ℕ) → member w d i ≡ (ltb (i / w) (length c) && (leb by i && member w c (i - by)))

unraised_lem : (w : ℕ) (c : List ℕ) → ((p : ℕ) → get_or c p 0 < 2 ^ w) → Raised w c 0 c
unraised_lem w c small = record {
  same_length = refl;
  small = small;
  moved = λ i.
      let e : i - 0 ≡ i = omega arith in
      elim (Bool-cases (ltb (i / w) (length c))) [
        | inl t ↦ ground (arith, t, ap (member w c) e)
        | inr f ↦
            ap (λ n. test_bit n (i % w)) (get_or-out c (i / w) (ground arith))
            ∙ test_bit-zero (i % w)
            ∙ ground (arith, f)
      ];
}

words-Raised :
    (w : ℕ) (c : List ℕ) (q : ℕ)
    → 0 < w
    → ((p : ℕ) → get_or c p 0 < 2 ^ w)
    → Raised w c (q * w) (if q == 0 then c else raise_words (length c) q c)
words-Raised w c q pw small = elim (Bool-cases (q == 0)) [
  | inl t ↦
      (let e : 0 ≡ q * w = (let z : q ≡ 0 = ground arith in rw z (omega arith)) in
        rw t (subst (λ n. Raised w c n c) e (unraised_lem w c small)))
  | inr f ↦ rw f (record {
    same_length = length-raise_words (length c) q c;
    small = raise_words-small w pw c small q;
    moved = raise_words-member w pw c small q;
  })
]

bits-Raised :
    (w : ℕ) (c : List ℕ) (r : ℕ)
    → 0 < w
    → r < w
    → 0 < length c
    → ((p : ℕ) → get_or c p 0 < 2 ^ w)
    → Raised w c r (if r == 0 then c else raise_bits w (length c - 1) r c)
bits-Raised w c r pw lt some_words small = elim (Bool-cases (r == 0)) [
  | inl t ↦
      (let e : 0 ≡ r = ground arith in
        rw t (subst (λ n. Raised w c n c) e (unraised_lem w c small)))
  | inr f ↦ rw f (record {
    same_length = length-raise_bits w (length c - 1) r c;
    small = λ p. raise_bits-small w pw c small r (ground arith) lt p some_words;
    moved = λ i. raise_bits-member w pw c small r (ground arith) lt i some_words;
  })
]

-- `<<=` on a valid set of a positive size is defined; it moves every position up by the amount and drops
-- those that reach the size, and the set stays valid.
pub shift_left_lem :
    (w : ℕ) (s : Bitset)
    → IsBitset w s
    → (pos : ℕ) → 0 < s.size
    → (t : Bitset) × (shift_left w s pos ≡ some t)
      × IsBitset w t
      × (t.size ≡ s.size)
      × ((i : ℕ)
          → member w t.container i
            ≡ (ltb i s.size && (leb pos i && member w s.container (i - pos))))
unfolding shift_left
shift_left_lem w s v pos some_size =
    let q = pos / w in
    let c = if q == 0 then s.container else raise_words (length s.container) q s.container in
    let d = if pos % w == 0 then c else raise_bits w (length c - 1) (pos % w) c in
    let u = record s { container = d } in
    let some_words : 0 < length s.container =
      omega (arith, v.words, div-num_values w 0 s.size v.some_bits some_size) in
    let x = words-Raised w s.container q v.some_bits v.bounded in
    let y =
      bits-Raised w c (pos % w) v.some_bits (mod-lt pos v.some_bits)
        (omega (arith, x.same_length, some_words)) x.small in
    let h : HasWords w u = record {
      some_bits = v.some_bits;
      words = y.same_length ∙ x.same_length ∙ v.words;
      bounded = y.small;
    } in
    (
      trim w u,
      ground (arith, x.same_length, some_words),
      trim-IsBitset w u h,
      size-trim w u h,
      λ i.
          let e : i - pos % w - q * w ≡ i - pos = omega (arith, place w pos v.some_bits) in
          trim-member w u h i
          ∙ ground (
            arith,
            y.moved i,
            x.moved (i - pos % w),
            ap (member w s.container) e,
            place w pos v.some_bits,
            div-num_values w i s.size v.some_bits,
            v.words,
            x.same_length,
            div_mono w (i - pos % w) i v.some_bits (omega arith),
          ),
    )
