-- ===== src/Bitset/Words.antt =====
-- What set the words of include/mclo/container/detail/bitset_base.hpp hold.
use native.Mathlib.Nat.{
  mod-lt, mod-add-div', add-mul-div_right, add-mul-mod_self_right, mul-le-mul_right, div-eq_of_lt,
  mod-eq_of_lt,
}
use mclo.Common.{
  ℕ, zero, suc, ◌+◌, ◌*◌, ◌/◌, ◌%◌, ◌^◌, ◌≤◌, ◌<◌, ◌≡◌, refl, sym, ap, ◌∙◌, List, [], ◌∷◌, Bool,
  false, ltb, length, get_or, test_bit, arith,
}
use mclo.Bitset.{Bitset, num_values}

-- Whether a position is in the set.
abbrev pub member : ℕ → List ℕ → ℕ → Bool
member w c i = test_bit (get_or c (i / w) 0) (i % w)

-- What every operation keeps: there are as many words as the size needs, they are words, and no bit from
-- the size on is set.
pub record IsBitset (w : ℕ) (s : Bitset) : Type 0 where
  pub some_bits : 0 < w
  pub words : length s.container ≡ num_values w s.size
  pub bounded : (p : ℕ) → get_or s.container p 0 < 2 ^ w
  pub rest : (i : ℕ) → s.size ≤ i → member w s.container i ≡ false

pub div-place : (w p j : ℕ) → j < w → (p * w + j) / w ≡ p
div-place w p j lt =
    let flat : (p * w + j) / w ≡ (j + p * w) / w = ap (λ n. n / w) (omega arith) in
    flat ∙ add-mul-div_right j p (omega arith) ∙ omega (arith, div-eq_of_lt lt)

pub mod-place : (w p j : ℕ) → j < w → (p * w + j) % w ≡ j
mod-place w p j lt =
    let flat : (p * w + j) % w ≡ (j + p * w) % w = ap (λ n. n % w) (omega arith) in
    flat ∙ add-mul-mod_self_right j p w ∙ mod-eq_of_lt lt

pub member-place :
    (w : ℕ) (c : List ℕ) (p j : ℕ) → j < w → member w c (p * w + j) ≡ test_bit (get_or c p 0) j
member-place w c p j lt =
    ap (λ n. test_bit (get_or c n 0) ((p * w + j) % w)) (div-place w p j lt)
    ∙ ap (test_bit (get_or c p 0)) (mod-place w p j lt)

-- Every position has its word and its place in it.
pub place : (w i : ℕ) → 0 < w → (i ≡ i / w * w + i % w) × (i % w < w)
place w i pw = (sym (mod-add-div' i w) ∙ omega arith, mod-lt i pw)

-- Positions are ordered as their words are, and in a word as their places are.
pub below_word : (w i n : ℕ) → 0 < w → i / w < n / w → i < n
below_word w i n pw lt = omega (arith, place w i pw, place w n pw, mul-le-mul_right w lt)

pub in_word : (w i n : ℕ) → 0 < w → i / w ≡ n / w → ltb i n ≡ ltb (i % w) (n % w)
in_word w i n pw e = ground (arith, place w i pw, place w n pw, ap (λ q. q * w) e)

pub div_mono : (w i n : ℕ) → 0 < w → i ≤ n → i / w ≤ n / w
div_mono w i n pw le = ground (arith, below_word w n i pw)

pub get_or-out : (c : List ℕ) (p : ℕ) → length c ≤ p → get_or c p 0 ≡ 0
get_or-out [] p le = refl
get_or-out (x ∷ c) zero le = absurd (omega arith)
get_or-out (x ∷ c) (suc p) le = get_or-out c p (omega arith)

-- A position of the set has a word.
pub div-num_values : (w i n : ℕ) → 0 < w → i < n → i / w < num_values w n
unfolding num_values
div-num_values w i n pw lt = ground (arith, div_mono w i n pw, in_word w i n pw)
