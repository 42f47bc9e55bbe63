-- ===== src/Bitset/Set.antt =====
-- `test`, `set`, `reset`, `flip` and `test_set` of include/mclo/container/detail/bitset_base.hpp at one position.
use Prim.Native.Nat.{bit_or, bit_and, bit_xor}
use native.Mathlib.Nat.{pow-suc, one-le-pow, mod-lt, pow-le-pow_right}
use mclo.Common.{
  ℕ, suc, ◌*◌, ◌/◌, ◌%◌, ◌^◌, ◌<◌, ◌≡◌, refl, sym, ap, ◌∙◌, subst, inl, inr, some, Bool, true,
  false, not, ◌&&◌, ◌==◌, if◌then◌else◌, length, get_or, get_elem?, set, Bool-cases, get_or-set,
  length-set, get_elem?-eq-get_or, test_bit, test_bit-one, test_bit-complement, test_bit-bit_or,
  test_bit-bit_and, test_bit-bit_xor, test_bit-masked, bit_or-lt, bit_and-lt, bit_xor-lt, arith,
}
use mclo.Bitset.{Bitset, complement, test, set_internal, set_bit, test_set, flip_bit}
use mclo.Bitset.Words.{member, IsBitset, place, div-num_values}

-- Positions are the same if their words and their places are.
same_place : (w i n : ℕ) → 0 < w → (i == n) ≡ ((i / w == n / w) && (i % w == n % w))
same_place w i n pw = elim (Bool-cases (i / w == n / w)) [
  | inl t ↦
      (let q : i / w ≡ n / w = ground arith in
        ground (arith, place w i pw, place w n pw, ap (λ p. p * w) q))
  | inr f ↦ (elim (Bool-cases (i == n)) [
    | inl t ↦ (let e : i ≡ n = ground arith in absurd (ground (arith, ap (λ m. m / w) e)))
    | inr o ↦ ground arith
  ])
]

pub pow-mod-lt : (w pos : ℕ) → 0 < w → 2 ^ (pos % w) < 2 ^ w
pow-mod-lt w pos pw = omega (
  arith,
  one-le-pow (pos % w) 2 (omega arith),
  pow-suc 2 (pos % w),
  pow-le-pow_right {n = 2} (omega arith) {i = suc (pos % w)} {j = w} (mod-lt pos pw),
)

module _ (w : ℕ) (s : Bitset) (v : IsBitset w s) (pos : ℕ) (lt : pos < s.size) where
  abbrev pub word : ℕ
  word = get_or s.container (pos / w) 0

  in_container : pos / w < length s.container
  in_container = subst (λ n. pos / w < n) (sym v.words) (div-num_values w pos s.size v.some_bits lt)

  pub word-read : get_elem? s.container (pos / w) ≡ some word
  word-read = get_elem?-eq-get_or s.container (pos / w) 0 in_container

  -- The word of the position is written, with another bit there.
  module _ (x : ℕ) (b : Bool) (small : x < 2 ^ w)
      (bits : (j : ℕ) → j < w → test_bit x j ≡ (if j == pos % w then b else test_bit word j)) where
    abbrev written : Bitset
    written = record s { container = set s.container (pos / w) x }

    written-get_or :
        (p : ℕ)
        → get_or written.container p 0 ≡ (if pos / w == p then x else get_or s.container p 0)
    written-get_or p = get_or-set s.container (pos / w) p x 0 in_container

    pub written-member :
        (i : ℕ) → member w written.container i ≡ (if i == pos then b else member w s.container i)
    written-member i =
        let e = same_place w i pos v.some_bits in
        let l = place w i v.some_bits in
        elim (Bool-cases (pos / w == i / w)) [
          | inl t ↦
              (let q : pos / w ≡ i / w = ground arith in
                let r : get_or written.container (i / w) 0 ≡ x =
                  ground (arith, written-get_or (i / w)) in
                let o : word ≡ get_or s.container (i / w) 0 = ap (λ p. get_or s.container p 0) q in
                ap (λ y. test_bit y (i % w)) r ∙ bits (i % w) l.1 ∙ ground (arith, o, e))
          | inr f ↦
              (let r : get_or written.container (i / w) 0 ≡ get_or s.container (i / w) 0 =
                  ground (arith, written-get_or (i / w)) in
                ap (λ y. test_bit y (i % w)) r ∙ ground (arith, e))
        ]

    pub written-IsBitset : IsBitset w written
    written-IsBitset = record {
      some_bits = v.some_bits;
      words = length-set s.container (pos / w) x ∙ v.words;
      bounded = λ p. ground (arith, written-get_or p, v.bounded p);
      rest = λ i le. ground (arith, written-member i, v.rest i);
    }

-- A word with one bit set, reset or flipped.
abbrev pub changed : ℕ → ℕ → ℕ → Bool → ℕ
changed w x bit value = if value then bit_or x bit else bit_and x (complement w bit)

changed-lt : (w x bit : ℕ) (value : Bool) → x < 2 ^ w → bit < 2 ^ w → changed w x bit value < 2 ^ w
changed-lt w x bit true lx lb = bit_or-lt w x bit lx lb
changed-lt w x bit false lx lb = bit_and-lt w x (complement w bit) lx

test_bit-changed :
    (w x k : ℕ) (value : Bool)
    → 2 ^ k < 2 ^ w
    → (j : ℕ) → j < w
    → test_bit (changed w x (2 ^ k) value) j ≡ (if j == k then value else test_bit x j)
test_bit-changed w x k true lb j lt = ground (arith, test_bit-bit_or x (2 ^ k) j, test_bit-one k j)
test_bit-changed w x k false lb j lt = ground (
  arith,
  test_bit-bit_and x (complement w (2 ^ k)) j,
  test_bit-complement w (2 ^ k) j lb,
  test_bit-one k j,
)

-- Reading a bit of a valid set, and writing one with `set` or `test_set`, is defined below the size: the
-- old bit is read, the set stays valid and of the same size, and no other position changes.
pub change_lem :
    (w : ℕ) (s : Bitset)
    → IsBitset w s
    → (pos : ℕ) → pos < s.size
    → (value : Bool)
    → (test w s pos ≡ some (member w s.container pos))
      × ((t : Bitset) × (set_bit w s pos value ≡ some t)
          × (test_set w s pos value ≡ some (member w s.container pos, t))
          × IsBitset w t
          × (t.size ≡ s.size)
          × ((i : ℕ)
              → member w t.container i ≡ (if i == pos then value else member w s.container i)))
unfolding test set_bit set_internal test_set
change_lem w s v pos lt value =
    let x = word w s v pos lt in
    let k = pos % w in
    let small = pow-mod-lt w pos v.some_bits in
    let new = changed w x (2 ^ k) value in
    let fits = changed-lt w x (2 ^ k) value (v.bounded (pos / w)) small in
    let bits = test_bit-changed w x k value small in
    let read = word-read w s v pos lt in
    (
      ground (arith, test_bit-masked x k, read),
      (
        written w s v pos lt new value fits bits,
        ground (arith, read),
        ground (arith, read, test_bit-masked x k),
        written-IsBitset w s v pos lt new value fits bits,
        refl,
        written-member w s v pos lt new value fits bits,
      ),
    )

-- Flipping a bit of a valid set below the size turns it round and changes no other position.
pub flip_bit_lem :
    (w : ℕ) (s : Bitset)
    → IsBitset w s
    → (pos : ℕ) → pos < s.size
    → (t : Bitset) × (flip_bit w s pos ≡ some t)
      × IsBitset w t
      × (t.size ≡ s.size)
      × ((i : ℕ)
          → member w t.container i
            ≡ (if i == pos then not (member w s.container pos) else member w s.container i))
unfolding flip_bit
flip_bit_lem w s v pos lt =
    let x = word w s v pos lt in
    let k = pos % w in
    let small = pow-mod-lt w pos v.some_bits in
    let fits = bit_xor-lt w x (2 ^ k) (v.bounded (pos / w)) small in
    let value = not (member w s.container pos) in
    let bits : (j : ℕ)
        → j < w
        → test_bit (bit_xor x (2 ^ k)) j ≡ (if j == k then value else test_bit x j) =
      λ j l. elim (Bool-cases (j == k)) [
        | inl t ↦
            (let e : j ≡ k = ground arith in
              rw e (ground (arith, test_bit-bit_xor x (2 ^ k) k, test_bit-one k k)))
        | inr f ↦ ground (arith, test_bit-bit_xor x (2 ^ k) j, test_bit-one k j)
      ] in
    let new = bit_xor x (2 ^ k) in
    (
      written w s v pos lt new value fits bits,
      ground (arith, word-read w s v pos lt),
      written-IsBitset w s v pos lt new value fits bits,
      refl,
      written-member w s v pos lt new value fits bits,
    )
