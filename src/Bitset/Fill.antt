-- ===== src/Bitset/Fill.antt =====
-- The loop that fills the words in include/mclo/container/detail/bitset_base.hpp.
use Prim.Native.Nat.{bit_or}
use native.Mathlib.Nat.{pow-suc, one-le-pow, pow-le-pow_right, mul-le-mul_right}
use mclo.Common.{
  ℕ, suc, ◌+◌, ◌-◌, ◌*◌, ◌/◌, ◌%◌, ◌^◌, ◌≤◌, ◌<◌, ◌≡◌, refl, sym, ap, ◌∙◌, subst, inl, inr, List,
  [], ◌∷◌, Bool, true, false, ◌&&◌, ltb, leb, ◌==◌, if◌then◌else◌, length, get_or, set, Bool-cases,
  length-set, get_or-set, get_or-cons, test_bit, test_bit-zero, test_bit-one, test_bit-above,
  test_bit-bit_or, bit_or-lt, arith,
}
use mclo.Bitset.{fill}
use mclo.Bitset.Words.{member, place}

-- The word with the next bit in it.
abbrev next_word : ℕ → ℕ → Bool → ℕ
next_word current index b = bit_or current (if b then 2 ^ index else 0)

test_bit-next_word :
    (current index : ℕ) (b : Bool) (j : ℕ)
    → current < 2 ^ index
    → test_bit (next_word current index b) j ≡ (if j == index then b else test_bit current j)
test_bit-next_word current index true j lt = ground (
  arith,
  test_bit-bit_or current (2 ^ index) j,
  test_bit-one index j,
  test_bit-above index current j lt,
)
test_bit-next_word current index false j lt =
    ground (arith, test_bit-bit_or current 0 j, test_bit-zero j, test_bit-above index current j lt)

next_word-lt :
    (current index : ℕ) (b : Bool) → current < 2 ^ index → next_word current index b < 2 ^ suc index
next_word-lt current index true lt =
    bit_or-lt (suc index) current (2 ^ index) (omega (arith, pow-suc 2 index, lt))
      (omega (arith, pow-suc 2 index, one-le-pow index 2 (omega arith)))
next_word-lt current index false lt =
    bit_or-lt (suc index) current 0 (omega (arith, pow-suc 2 index, lt))
      (one-le-pow (suc index) 2 (omega arith))

-- What the words hold once the bits are written from a place of a page on.
abbrev pub filled : ℕ → List Bool → ℕ → ℕ → ℕ → List ℕ → ℕ → Bool
filled w bs page index current c i =
    if ltb i (page * w)
    then member w c i
    else if ltb i (page * w + index)
    then test_bit current (i - page * w)
    else get_or bs (i - (page * w + index)) false

member-set :
    (w : ℕ) (c : List ℕ) (page x i : ℕ)
    → 0 < w
    → page < length c
    → member w (set c page x) i ≡ (
        if leb (page * w) i && ltb i (page * w + w)
        then test_bit x (i - page * w)
        else member w c i)
member-set w c page x i pw lt =
    let p = place w i pw in
    let r = get_or-set c page (i / w) x 0 lt in
    elim (Bool-cases (page == i / w)) [
      | inl t ↦
          (let e : page * w ≡ i / w * w = ap (λ n. n * w) (ground arith) in
            let o : i - page * w ≡ i % w = omega (arith, p, e) in
            ap (λ n. test_bit n (i % w)) {y = x} (ground (arith, r))
            ∙ ap (test_bit x) (sym o)
            ∙ ground (arith, p, e))
      | inr f ↦
          ap (λ n. test_bit n (i % w)) {y = get_or c (i / w) 0} (ground (arith, r))
          ∙ ground (
            arith,
            p,
            mul-le-mul_right {m = page + 1} {n = i / w} w,
            mul-le-mul_right {m = i / w + 1} {n = page} w,
          )
    ]

has_page : (w page m n : ℕ) → 0 < w → 0 < m → page * w + m ≤ n * w → page < n
has_page w page m n pw pm le = ground (arith, mul-le-mul_right {m = n} {n = page} w)

from_page : (w page i : ℕ) → 0 < w → page * w ≤ i → page ≤ i / w
from_page w page i pw le =
    ground (arith, place w i pw, mul-le-mul_right {m = i / w + 1} {n = page} w)

member-zero : (w : ℕ) (c : List ℕ) (i : ℕ) → get_or c (i / w) 0 ≡ 0 → member w c i ≡ false
member-zero w c i e = ap (λ n. test_bit n (i % w)) e ∙ test_bit-zero (i % w)

word-lt : (w index current : ℕ) → index ≤ w → current < 2 ^ index → current < 2 ^ w
word-lt w index current le lt =
    omega (arith, lt, pow-le-pow_right {n = 2} (omega arith) {i = index} {j = w} le)

-- What `fill` needs: room, and nothing set from the page on.
pub record CanFill (w : ℕ) (bs : List Bool) (page index current : ℕ) (c : List ℕ) : Type 0 where
  pub some_bits : 0 < w
  pub inside : index < w
  pub short : current < 2 ^ index
  pub room : page * w + index + length bs ≤ length c * w
  pub clear : (p : ℕ) → page ≤ p → get_or c p 0 ≡ 0
  pub bounded : (p : ℕ) → get_or c p 0 < 2 ^ w

pub record Filled (w : ℕ) (bs : List Bool) (page index current : ℕ) (c d : List ℕ) : Type 0 where
  pub same_length : length d ≡ length c
  pub bits : (i : ℕ) → member w d i ≡ filled w bs page index current c i
  pub words : (p : ℕ) → get_or d p 0 < 2 ^ w

fill-nil :
    (w page index current : ℕ) (c : List ℕ)
    → CanFill w [] page index current c
    → Filled w [] page index current c (if index == 0 then c else set c page current)
fill-nil w page index current c k =
    let zero_from = λ (i : ℕ) (le : page * w ≤ i).
      member-zero w c i (k.clear (i / w) (from_page w page i k.some_bits le)) in
    elim (Bool-cases (index == 0)) [
      | inl t ↦ rw t (record {
        same_length = refl;
        bits = λ i. ground (arith, zero_from i);
        words = k.bounded;
      })
      | inr f ↦
          (let at =
              has_page w page index (length c) k.some_bits (ground arith) (omega (arith, k.room)) in
            rw f (record {
              same_length = length-set c page current;
              bits = λ i. ground (
                arith,
                member-set w c page current i k.some_bits at,
                zero_from i,
                k.inside,
                test_bit-above index current (i - page * w) k.short,
              );
              words = λ p. ground (
                arith,
                get_or-set c page p current 0 at,
                k.bounded p,
                word-lt w index current (omega (arith, k.inside)) k.short,
              );
            }))
    ]

-- One bit more: the word is full, or it is not.
module _ (w : ℕ) (b : Bool) (bs : List Bool) (page index current : ℕ) (c : List ℕ)
    (k : CanFill w (b ∷ bs) page index current c) where
  abbrev next : ℕ
  next = next_word current index b

  next-lt : next < 2 ^ suc index
  next-lt = next_word-lt current index b k.short

  at : page < length c
  at =
      has_page w page (index + suc (length bs)) (length c) k.some_bits (omega arith)
        (omega (arith, k.room))

  next-word : next < 2 ^ w
  next-word = word-lt w (suc index) next (omega (arith, k.inside)) next-lt

  full-CanFill : suc index ≡ w → CanFill w bs (page + 1) 0 0 (set c page next)
  full-CanFill e = record {
    some_bits = k.some_bits;
    inside = k.some_bits;
    short = one-le-pow 0 2 (omega arith);
    room = omega (arith, k.room, e, ap (λ n. n * w) (length-set c page next));
    clear = λ p le. ground (arith, get_or-set c page p next 0 at, k.clear p);
    bounded = λ p. ground (arith, get_or-set c page p next 0 at, k.bounded p, next-word);
  }

  more-CanFill : suc index < w → CanFill w bs page (index + 1) next c
  more-CanFill lt =
      let e : suc index ≡ index + 1 = omega arith in
      record {
        some_bits = k.some_bits;
        inside = omega (arith, lt);
        short = subst (λ n. next < 2 ^ n) e next-lt;
        room = omega (arith, k.room);
        clear = k.clear;
        bounded = k.bounded;
      }

  full-Filled :
      (d : List ℕ)
      → suc index ≡ w
      → Filled w bs (page + 1) 0 0 (set c page next) d
      → Filled w (b ∷ bs) page index current c d
  full-Filled d e h = record {
    same_length = h.same_length ∙ length-set c page next;
    bits = λ i.
        let step : get_or (b ∷ bs) (i - (page * w + index)) false ≡ (
            if i - (page * w + index) == 0
            then b
            else get_or bs (i - (page * w + index) - 1) false) =
          get_or-cons b bs false (i - (page * w + index)) in
        let same : ltb i ((page + 1) * w) ≡ false
            → i - ((page + 1) * w + 0) ≡ i - (page * w + index) - 1 =
          λ n. ground (arith, e) in
        h.bits i
        ∙ ground (
          arith,
          e,
          step,
          member-set w c page next i k.some_bits at,
          test_bit-next_word current index b (i - page * w) k.short,
          ap (λ n. get_or bs n false) {x = i - ((page + 1) * w + 0)}
              {y = i - (page * w + index) - 1},
        );
    words = h.words;
  }

  more-Filled :
      (d : List ℕ)
      → Filled w bs page (index + 1) next c d
      → Filled w (b ∷ bs) page index current c d
  more-Filled d h = record {
    same_length = h.same_length;
    bits = λ i.
        let step : get_or (b ∷ bs) (i - (page * w + index)) false ≡ (
            if i - (page * w + index) == 0
            then b
            else get_or bs (i - (page * w + index) - 1) false) =
          get_or-cons b bs false (i - (page * w + index)) in
        h.bits i
        ∙ ground (
          arith,
          step,
          k.inside,
          test_bit-next_word current index b (i - page * w) k.short,
          ap (λ n. get_or bs n false) {x = i - (page * w + (index + 1))}
              {y = i - (page * w + index) - 1},
        );
    words = h.words;
  }

pub fill_lem :
    (w : ℕ) (bs : List Bool) (page index current : ℕ) (c : List ℕ)
    → CanFill w bs page index current c
    → Filled w bs page index current c (fill w bs page index current c)
unfolding fill
fill_lem w [] page index current c k = fill-nil w page index current c k
fill_lem w (b ∷ bs) page index current c k =
    let x = next_word current index b in
    elim (Bool-cases (index + 1 == w)) [
      | inl t ↦ rw t (
          full-Filled w b bs page index current c k (fill w bs (page + 1) 0 0 (set c page x))
            (ground arith)
            (fill_lem w bs (page + 1) 0 0 (set c page x)
              (full-CanFill w b bs page index current c k (ground arith))))
      | inr f ↦ rw f (
          more-Filled w b bs page index current c k (fill w bs page (index + 1) x c) (
            fill_lem w bs page (index + 1) x c
              (more-CanFill w b bs page index current c k (ground (arith, k.inside)))))
    ]
