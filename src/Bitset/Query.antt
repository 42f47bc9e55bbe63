-- ===== src/Bitset/Query.antt =====
-- `any`, `operator==` and `resize` of include/mclo/container/detail/bitset_base.hpp and dynamic_bitset.hpp.
use native.Mathlib.Nat.{one-le-pow}
use mclo.Common.{
  ℕ, zero, suc, ◌+◌, ◌-◌, ◌*◌, ◌/◌, ◌%◌, ◌≤◌, ◌<◌, ◌≡◌, refl, sym, ap, ◌∙◌, inl, inr, List, [], ◌∷◌,
  ◌++◌, true, false, ◌&&◌, ltb, if◌then◌else◌, length, get_or, take, replicate, Bool-cases,
  length-append, length-take, length-replicate, get_or-append, get_or-take, test_bit, test_bit-zero,
  test_bit-ext, arith,
}
use mclo.Bitset.{Bitset, num_values, any_word, any, equal_words, equal, resize}
use mclo.Bitset.Words.{member, IsBitset, place, member-place, get_or-out, div-num_values, div_mono}
use mclo.Bitset.Bulk.{get_or-replicate}

-- Words that agree at every index.
equal_words_lem :
    (c d : List ℕ)
    → length c ≡ length d
    → ((p : ℕ) → get_or c p 0 ≡ get_or d p 0)
    → equal_words c d ≡ true
unfolding equal_words
equal_words_lem [] [] e same = refl
equal_words_lem [] (y ∷ d) e same = absurd (omega (arith, e))
equal_words_lem (x ∷ c) [] e same = absurd (omega (arith, e))
equal_words_lem (x ∷ c) (y ∷ d) e same =
    ground (arith, same 0, equal_words_lem c d (omega (arith, e)) (λ p. same (suc p)))

equal_words-get_or : (c d : List ℕ) → equal_words c d ≡ true → (p : ℕ) → get_or c p 0 ≡ get_or d p 0
unfolding equal_words
equal_words-get_or [] [] e p = refl
equal_words-get_or [] (y ∷ d) e p = absurd (ground arith)
equal_words-get_or (x ∷ c) [] e p = absurd (ground arith)
equal_words-get_or (x ∷ c) (y ∷ d) e zero = ground arith
equal_words-get_or (x ∷ c) (y ∷ d) e (suc p) = equal_words-get_or c d (ground arith) p

-- `operator==` holds of two valid sets just when they have the same size and the same positions.
pub equal_lem :
    (w : ℕ) (s t : Bitset)
    → IsBitset w s
    → IsBitset w t
    → (equal s t ≡ true
        → (s.size ≡ t.size) × ((i : ℕ) → member w s.container i ≡ member w t.container i))
      × (s.size ≡ t.size
          → ((i : ℕ) → member w s.container i ≡ member w t.container i)
          → equal s t ≡ true)
unfolding equal
equal_lem w s t v u = (
  λ e. (
    ground (arith, e),
    λ i.
        ap (λ x. test_bit x (i % w))
          (equal_words-get_or s.container t.container (ground (arith, e)) (i / w)),
  ),
  λ n same.
      let k : length s.container ≡ length t.container =
        v.words ∙ ap (num_values w) n ∙ sym u.words in
      let words = equal_words_lem s.container t.container k (λ p.
        test_bit-ext w (get_or s.container p 0) (get_or t.container p 0) (v.bounded p) (u.bounded p)
          (λ j lt.
            sym (member-place w s.container p j lt)
            ∙ same (p * w + j)
            ∙ member-place w t.container p j lt)) in
      ground (arith, words, n),
)

num_values_mono : (w n m : ℕ) → 0 < w → n ≤ m → num_values w n ≤ num_values w m
unfolding num_values
num_values_mono w n m pw le = ground (
  arith,
  div_mono w n m pw le,
  place w n pw,
  place w m pw,
  ap (λ q. q * w) {x = n / w} {y = m / w},
)

get_or-resized :
    (c : List ℕ) (k p : ℕ)
    → get_or (take k c ++ replicate (k - length c) 0) p 0 ≡ (if ltb p k then get_or c p 0 else 0)
get_or-resized c k p =
    let a = get_or-append (take k c) (replicate (k - length c) 0) 0 p in
    let l = length-take k c in
    let r = get_or-replicate (k - length c) 0 (p - length (take k c)) in
    a ∙ ground (arith, l, r, get_or-take k c 0 p, get_or-out c p)

-- `resize` keeps every bit of a valid set in the words that are left, also those from the new size on,
-- and adds none; the size is the new one, with as many words as it needs. A resize that does not shrink
-- the set keeps it valid.
pub resize_lem :
    (w : ℕ) (s : Bitset)
    → IsBitset w s
    → (n : ℕ)
    → ((i : ℕ)
        → member w (resize w s n).container i
          ≡ (ltb (i / w) (num_values w n) && member w s.container i))
      × ((resize w s n).size ≡ n)
      × (length (resize w s n).container ≡ num_values w n)
      × (s.size ≤ n
          → IsBitset w (resize w s n)
            × ((i : ℕ) → member w (resize w s n).container i ≡ member w s.container i))
unfolding resize
resize_lem w s v n =
    let k = num_values w n in
    let c = take k s.container ++ replicate (k - length s.container) 0 in
    let law : (i : ℕ) → member w c i ≡ (ltb (i / w) k && member w s.container i) = λ i.
      elim (Bool-cases (ltb (i / w) k)) [
        | inl t ↦
            ap (λ x. test_bit x (i % w)) {y = get_or s.container (i / w) 0}
              (get_or-resized s.container k (i / w) ∙ ground (arith, t))
            ∙ ground (arith, t)
        | inr f ↦
            ap (λ x. test_bit x (i % w)) {y = 0}
              (get_or-resized s.container k (i / w) ∙ ground (arith, f))
            ∙ test_bit-zero (i % w)
            ∙ ground (arith, f)
      ] in
    let words : length c ≡ k =
      length-append (take k s.container) (replicate (k - length s.container) 0)
      ∙ omega
          (arith, length-take k s.container, length-replicate {A = ℕ} (k - length s.container) 0) in
    (
      law,
      refl,
      words,
      λ le.
          let more = num_values_mono w s.size n v.some_bits le in
          let same : (i : ℕ) → member w c i ≡ member w s.container i =
            λ i. ground (arith, law i, v.rest i, div-num_values w i s.size v.some_bits, more) in
          (
            record {
              some_bits = v.some_bits;
              words = words;
              bounded = λ p. ground (
                arith,
                get_or-resized s.container k p,
                v.bounded p,
                one-le-pow w 2 (omega arith),
              );
              rest = λ i l. same i ∙ v.rest i (omega arith);
            },
            same,
          ),
    )

any_word_lem : (c : List ℕ) → any_word c ≡ false → (p : ℕ) → get_or c p 0 ≡ 0
unfolding any_word
any_word_lem [] e p = refl
any_word_lem (x ∷ c) e zero = ground arith
any_word_lem (x ∷ c) e (suc p) = any_word_lem c (ground arith) p

no_word : (c : List ℕ) → ((p : ℕ) → get_or c p 0 ≡ 0) → any_word c ≡ false
unfolding any_word
no_word [] zeros = refl
no_word (x ∷ c) zeros = ground (arith, zeros 0, no_word c (λ p. zeros (suc p)))

-- `any` of a valid set is false just when no position is in the set.
pub any_lem :
    (w : ℕ) (s : Bitset)
    → IsBitset w s
    → (any s ≡ false → (i : ℕ) → member w s.container i ≡ false)
      × (((i : ℕ) → member w s.container i ≡ false) → any s ≡ false)
unfolding any
any_lem w s v = (
  λ e i. ap (λ x. test_bit x (i % w)) (any_word_lem s.container e (i / w)) ∙ test_bit-zero (i % w),
  λ empty. no_word s.container (λ p.
      test_bit-ext w (get_or s.container p 0) 0 (v.bounded p) (one-le-pow w 2 (omega arith))
        (λ j lt.
          sym (member-place w s.container p j lt) ∙ empty (p * w + j) ∙ sym (test_bit-zero j))),
)
