-- ===== src/Bitset/Lower.antt =====
-- The operator `>>=` of include/mclo/container/detail/bitset_base.hpp.
use native.Mathlib.Nat.{mod-lt}
use mclo.Common.{
  ℕ, ◌+◌, ◌-◌, ◌*◌, ◌/◌, ◌%◌, ◌^◌, ◌<◌, ◌≡◌, refl, ap, ◌∙◌, inl, inr, some, List, ◌==◌,
  if◌then◌else◌, length, get_or, Bool-cases, arith,
}
use mclo.Bitset.{Bitset, lower_words, lower_bits, shift_right}
use mclo.Bitset.Words.{member, IsBitset, place, div-num_values}
use mclo.Bitset.Sink.{
  length-lower_words, length-lower_bits, lower_words-member, lower_words-small, lower_bits-member,
  lower_bits-small,
}

-- What words become when every position goes down.
record Lowered (w : ℕ) (c : List ℕ) (by : ℕ) (d : List ℕ) : Type 0 where
  same_length : length d ≡ length c
  small : (p : ℕ) → get_or d p 0 < 2 ^ w
  moved : (i : ℕ) → member w d i ≡ member w c (i + by)

unlowered_lem :
    (w : ℕ) (c : List ℕ) (by : ℕ) → 0 ≡ by → ((p : ℕ) → get_or c p 0 < 2 ^ w) → Lowered w c by c
unlowered_lem w c by e small = record {
  same_length = refl;
  small = small;
  moved = λ i. let z : i ≡ i + by = omega (arith, e) in ap (member w c) z;
}

words-Lowered :
    (w : ℕ) (c : List ℕ) (q : ℕ)
    → 0 < w
    → ((p : ℕ) → get_or c p 0 < 2 ^ w)
    → Lowered w c (q * w) (if q == 0 then c else lower_words (length c) 0 q c)
words-Lowered w c q pw small = elim (Bool-cases (q == 0)) [
  | inl t ↦
      (let e : 0 ≡ q * w = (let z : q ≡ 0 = ground arith in rw z (omega arith)) in
        rw t (unlowered_lem w c (q * w) e small))
  | inr f ↦ rw f (record {
    same_length = length-lower_words (length c) 0 q c;
    small = lower_words-small w pw c small q;
    moved = lower_words-member w pw c small q;
  })
]

bits-Lowered :
    (w : ℕ) (c : List ℕ) (r : ℕ)
    → 0 < w
    → r < w
    → 0 < length c
    → ((p : ℕ) → get_or c p 0 < 2 ^ w)
    → Lowered w c r (if r == 0 then c else lower_bits w (length c - 1) 0 r c)
bits-Lowered w c r pw lt some_words small = elim (Bool-cases (r == 0)) [
  | inl t ↦ rw t (unlowered_lem w c r (ground arith) small)
  | inr f ↦ rw f (record {
    same_length = length-lower_bits w (length c - 1) 0 r c;
    small = λ p. lower_bits-small w pw c small r p some_words;
    moved = λ i. lower_bits-member w pw c small r i (ground arith) lt some_words;
  })
]

-- `>>=` on a valid set of a positive size is defined; it moves every position down by the amount, drops
-- those below it, and the set stays valid.
pub shift_right_lem :
    (w : ℕ) (s : Bitset)
    → IsBitset w s
    → (pos : ℕ) → 0 < s.size
    → (t : Bitset) × (shift_right w s pos ≡ some t)
      × IsBitset w t
      × (t.size ≡ s.size)
      × ((i : ℕ) → member w t.container i ≡ member w s.container (i + pos))
unfolding shift_right
shift_right_lem w s v pos some_size =
    let q = pos / w in
    let c = if q == 0 then s.container else lower_words (length s.container) 0 q s.container in
    let d = if pos % w == 0 then c else lower_bits w (length c - 1) 0 (pos % w) c in
    let u = record s { container = d } in
    let some_words : 0 < length s.container =
      omega (arith, v.words, div-num_values w 0 s.size v.some_bits some_size) in
    let x = words-Lowered w s.container q v.some_bits v.bounded in
    let y =
      bits-Lowered w c (pos % w) v.some_bits (mod-lt pos v.some_bits)
        (omega (arith, x.same_length, some_words)) x.small in
    let e : (i : ℕ) → i + pos % w + q * w ≡ i + pos = λ i. omega (arith, place w pos v.some_bits) in
    let moved : (i : ℕ) → member w d i ≡ member w s.container (i + pos) =
      λ i. y.moved i ∙ x.moved (i + pos % w) ∙ ap (member w s.container) (e i) in
    (
      u,
      ground (arith, x.same_length, some_words),
      record {
        some_bits = v.some_bits;
        words = y.same_length ∙ x.same_length ∙ v.words;
        bounded = y.small;
        rest = λ i le. moved i ∙ v.rest (i + pos) (omega arith);
      },
      refl,
      moved,
    )
