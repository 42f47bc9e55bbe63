-- ===== src/Bitset/Combine.antt =====
-- The operators `&=`, `|=` and `^=` of include/mclo/container/detail/bitset_base.hpp.
use Prim.Native.Nat.{bit_or, bit_and, bit_xor}
use native.Mathlib.Nat.{one-le-pow}
use mathlib.Core.Path.{ap₂}
use mclo.Common.{
  ℕ, zero, suc, ◌/◌, ◌%◌, ◌^◌, ◌<◌, ◌≡◌, refl, sym, ap, ◌∙◌, inl, inr, List, [], ◌∷◌, Bool, false,
  ◌&&◌, ◌||◌, ltb, if◌then◌else◌, length, get_or, Bool-cases, test_bit, xor, test_bit-zero,
  test_bit-bit_or, test_bit-bit_and, test_bit-bit_xor, bit_or-lt, bit_and-lt, bit_xor-lt, arith,
}
use mclo.Bitset.{Bitset, num_values, combine, and_assign, or_assign, xor_assign}
use mclo.Bitset.Words.{member, IsBitset, get_or-out}

get_or-combine :
    (f : ℕ → ℕ → ℕ) (c d : List ℕ) (p : ℕ)
    → length c ≡ length d
    → get_or (combine f c d) p 0 ≡ (if ltb p (length c) then f (get_or c p 0) (get_or d p 0) else 0)
unfolding combine
get_or-combine f [] d p e = ground arith
get_or-combine f (x ∷ c) [] p e = absurd (ground arith)
get_or-combine f (x ∷ c) (y ∷ d) zero e = ground arith
get_or-combine f (x ∷ c) (y ∷ d) (suc p) e = ground (arith, get_or-combine f c d p)

length-combine : (f : ℕ → ℕ → ℕ) (c d : List ℕ) → length (combine f c d) ≡ length c
unfolding combine
length-combine f [] d = refl
length-combine f (x ∷ c) [] = refl
length-combine f (x ∷ c) (y ∷ d) = ap suc (length-combine f c d)

-- A word by word operation on two valid sets of the same size.
combine-member :
    (f : ℕ → ℕ → ℕ) (g : Bool → Bool → Bool)
    → ((x y j : ℕ) → test_bit (f x y) j ≡ g (test_bit x j) (test_bit y j))
    → (g false false ≡ false)
    → (w : ℕ) (s t : Bitset) → IsBitset w s
    → IsBitset w t
    → s.size ≡ t.size
    → (i : ℕ)
    → member w (combine f s.container t.container) i
      ≡ g (member w s.container i) (member w t.container i)
combine-member f g bits zeros w s t v u e i =
    let same : length s.container ≡ length t.container =
      v.words ∙ ap (num_values w) e ∙ sym u.words in
    let c = get_or-combine f s.container t.container (i / w) same in
    elim (Bool-cases (ltb (i / w) (length s.container))) [
      | inl l ↦
          (let r : get_or (combine f s.container t.container) (i / w) 0
                ≡ f (get_or s.container (i / w) 0) (get_or t.container (i / w) 0) =
              ground (arith, c, l) in
            ap (λ x. test_bit x (i % w)) r
            ∙ bits (get_or s.container (i / w) 0) (get_or t.container (i / w) 0) (i % w))
      | inr n ↦
          (let r : get_or (combine f s.container t.container) (i / w) 0 ≡ 0 =
              ground (arith, c, n) in
            let x : get_or s.container (i / w) 0 ≡ 0 =
              get_or-out s.container (i / w) (ground arith) in
            let y : get_or t.container (i / w) 0 ≡ 0 =
              get_or-out t.container (i / w) (ground (arith, same)) in
            let z = test_bit-zero (i % w) in
            ap (λ m. test_bit m (i % w)) r
            ∙ z
            ∙ sym zeros
            ∙ ap₂ g (sym z ∙ ap (λ m. test_bit m (i % w)) (sym x))
                (sym z ∙ ap (λ m. test_bit m (i % w)) (sym y)))
    ]

combine-IsBitset :
    (f : ℕ → ℕ → ℕ) (g : Bool → Bool → Bool)
    → ((x y j : ℕ) → test_bit (f x y) j ≡ g (test_bit x j) (test_bit y j))
    → (g false false ≡ false)
    → (w : ℕ) (s t : Bitset) → IsBitset w s
    → IsBitset w t
    → s.size ≡ t.size
    → ((x y : ℕ) → x < 2 ^ w → y < 2 ^ w → f x y < 2 ^ w)
    → IsBitset w (record s { container = combine f s.container t.container })
combine-IsBitset f g bits zeros w s t v u e fits = record {
  some_bits = v.some_bits;
  words = length-combine f s.container t.container ∙ v.words;
  bounded = λ p.
      let same : length s.container ≡ length t.container =
        v.words ∙ ap (num_values w) e ∙ sym u.words in
      ground (
        arith,
        get_or-combine f s.container t.container p same,
        v.bounded p,
        u.bounded p,
        fits (get_or s.container p 0) (get_or t.container p 0),
        one-le-pow w 2 (omega arith),
      );
  rest = λ i le.
      combine-member f g bits zeros w s t v u e i
      ∙ ap₂ g (v.rest i le) (u.rest i (omega (arith, e)))
      ∙ zeros;
}

-- `&=`, `|=` and `^=` of two valid sets of the same size are the intersection, the union and the symmetric
-- difference, and valid.
pub and_assign_lem :
    (w : ℕ) (s t : Bitset)
    → IsBitset w s
    → IsBitset w t
    → s.size ≡ t.size
    → IsBitset w (and_assign s t)
      × IsBitset w (or_assign s t)
      × IsBitset w (xor_assign s t)
      × ((i : ℕ)
          → (member w (and_assign s t).container i
              ≡ (member w s.container i && member w t.container i))
            × (member w (or_assign s t).container i
                ≡ (member w s.container i || member w t.container i))
            × (member w (xor_assign s t).container i
                ≡ xor (member w s.container i) (member w t.container i)))
unfolding and_assign or_assign xor_assign
and_assign_lem w s t v u e = (
  combine-IsBitset bit_and ◌&&◌ test_bit-bit_and refl w s t v u e
      (λ x y lx ly. bit_and-lt w x y lx),
  combine-IsBitset bit_or ◌||◌ test_bit-bit_or refl w s t v u e (bit_or-lt w),
  combine-IsBitset bit_xor xor test_bit-bit_xor refl w s t v u e (bit_xor-lt w),
  λ i. (
    combine-member bit_and ◌&&◌ test_bit-bit_and refl w s t v u e i,
    combine-member bit_or ◌||◌ test_bit-bit_or refl w s t v u e i,
    combine-member bit_xor xor test_bit-bit_xor refl w s t v u e i,
  ),
)
