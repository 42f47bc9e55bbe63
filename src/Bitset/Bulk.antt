-- ===== src/Bitset/Bulk.antt =====
-- `set`, `reset` and `flip` of all bits in include/mclo/container/detail/bitset_base.hpp.
use native.Mathlib.Nat.{one-le-pow}
use mclo.Common.{
  ℕ, zero, suc, ◌-◌, ◌/◌, ◌%◌, ◌^◌, ◌<◌, ◌≡◌, refl, ap, ◌∙◌, List, [], ◌∷◌, map, true, false, not,
  ◌&&◌, ltb, if◌then◌else◌, length, get_or, replicate, length-replicate, test_bit, test_bit-zero,
  test_bit-ones, test_bit-complement, arith,
}
use mclo.Bitset.{Bitset, complement, set_all, reset_all, flip_all}
use mclo.Bitset.Words.{member, IsBitset, place, div-num_values}
use mclo.Bitset.Trim.{HasWords, trim-IsBitset, trim-member, size-trim}

pub get_or-replicate : (n a p : ℕ) → get_or (replicate n a) p 0 ≡ (if ltb p n then a else 0)
get_or-replicate zero a p = ground arith
get_or-replicate (suc n) a zero = ground arith
get_or-replicate (suc n) a (suc p) = ground (arith, get_or-replicate n a p)

get_or-map :
    (w : ℕ) (c : List ℕ) (p : ℕ)
    → get_or (map (complement w) c) p 0
      ≡ (if ltb p (length c) then complement w (get_or c p 0) else 0)
get_or-map w [] p = ground arith
get_or-map w (x ∷ c) zero = ground arith
get_or-map w (x ∷ c) (suc p) = ground (arith, get_or-map w c p)

length-map : (w : ℕ) (c : List ℕ) → length (map (complement w) c) ≡ length c
length-map w [] = refl
length-map w (x ∷ c) = ap suc (length-map w c)

module _ (w : ℕ) (s : Bitset) (v : IsBitset w s) where
  abbrev full : Bitset
  full = record s { container = replicate (length s.container) (2 ^ w - 1) }

  abbrev turned : Bitset
  turned = record s { container = map (complement w) s.container }

  has-word : (i : ℕ) → i < s.size → ltb (i / w) (length s.container) ≡ true
  has-word i lt = ground (arith, div-num_values w i s.size v.some_bits lt, v.words)

  full-HasWords : HasWords w full
  full-HasWords = record {
    some_bits = v.some_bits;
    words = length-replicate (length s.container) (2 ^ w - 1) ∙ v.words;
    bounded = λ p.
        ground (
          arith,
          get_or-replicate (length s.container) (2 ^ w - 1) p,
          one-le-pow w 2 (omega arith),
        );
  }

  full-member : (i : ℕ) → i < s.size → member w full.container i ≡ true
  full-member i lt =
      let r : get_or full.container (i / w) 0 ≡ 2 ^ w - 1 =
        ground (arith, get_or-replicate (length s.container) (2 ^ w - 1) (i / w), has-word i) in
      ap (λ x. test_bit x (i % w)) r
      ∙ test_bit-ones w (i % w)
      ∙ ground (arith, place w i v.some_bits)

  empty-member : (i : ℕ) → member w (reset_all s).container i ≡ false
  unfolding reset_all
  empty-member i =
      let r : get_or (replicate (length s.container) 0) (i / w) 0 ≡ 0 =
        ground (arith, get_or-replicate (length s.container) 0 (i / w)) in
      ap (λ x. test_bit x (i % w)) r ∙ test_bit-zero (i % w)

  empty-IsBitset : IsBitset w (reset_all s)
  unfolding reset_all
  empty-IsBitset = record {
    some_bits = v.some_bits;
    words = length-replicate (length s.container) 0 ∙ v.words;
    bounded = λ p.
        ground (arith, get_or-replicate (length s.container) 0 p, one-le-pow w 2 (omega arith));
    rest = λ i le. empty-member i;
  }

  turned-HasWords : HasWords w turned
  turned-HasWords = record {
    some_bits = v.some_bits;
    words = length-map w s.container ∙ v.words;
    bounded = λ p. ground (arith, get_or-map w s.container p, v.bounded p);
  }

  turned-member : (i : ℕ) → i < s.size → member w turned.container i ≡ not (member w s.container i)
  turned-member i lt =
      let x = get_or s.container (i / w) 0 in
      let r : get_or turned.container (i / w) 0 ≡ complement w x =
        ground (arith, get_or-map w s.container (i / w), has-word i) in
      ap (λ y. test_bit y (i % w)) r
      ∙ test_bit-complement w x (i % w) (v.bounded (i / w))
      ∙ ground (arith, place w i v.some_bits)

-- Of a valid set `set` makes the set of all positions below the size, `reset` the empty set and `flip`
-- the set of the positions that were not in it; the size stays and the results are valid.
pub set_all_lem :
    (w : ℕ) (s : Bitset)
    → IsBitset w s
    → (IsBitset w (set_all w s)
        × ((set_all w s).size ≡ s.size)
        × ((i : ℕ) → member w (set_all w s).container i ≡ ltb i s.size))
      × (IsBitset w (reset_all s)
          × ((reset_all s).size ≡ s.size)
          × ((i : ℕ) → member w (reset_all s).container i ≡ false))
      × (IsBitset w (flip_all w s)
          × ((flip_all w s).size ≡ s.size)
          × ((i : ℕ)
              → member w (flip_all w s).container i
                ≡ (ltb i s.size && not (member w s.container i))))
unfolding set_all reset_all flip_all
set_all_lem w s v =
    let f = full-HasWords w s v in
    let t = turned-HasWords w s v in
    (
      (
        trim-IsBitset w (full w s v) f,
        size-trim w (full w s v) f,
        λ i. ground (arith, trim-member w (full w s v) f i, full-member w s v i),
      ),
      (empty-IsBitset w s v, refl, empty-member w s v),
      (
        trim-IsBitset w (turned w s v) t,
        size-trim w (turned w s v) t,
        λ i. ground (arith, trim-member w (turned w s v) t i, turned-member w s v i),
      ),
    )
