-- ===== src/Bitset/Find.antt =====
-- `find_first_set` of include/mclo/container/detail/bitset_base.hpp.
use native.Mathlib.Nat.{add-mul-div_right, add-mul-mod_self_right, div-eq_of_lt, mod-eq_of_lt}
use mclo.Common.{
  ℕ, zero, suc, ◌+◌, ◌-◌, ◌*◌, ◌/◌, ◌%◌, ◌^◌, ◌≤◌, ◌<◌, ◌≡◌, refl, sym, ap, ◌∙◌, subst, inl, inr,
  Option, none, some, List, [], ◌∷◌, Bool, true, false, ltb, ◌==◌, get_or, drop, Bool-cases,
  test_bit, test_bit-zero, test_bit-drop, test_bit-above, arith,
}
use mclo.Bitset.{Bitset, countr_zero, set_from, find_first_set}
use mclo.Bitset.Words.{member, IsBitset, place}

-- The first position, from a start on, at which a test holds.
abbrev pub First : (ℕ → Bool) → ℕ → Option ℕ → Type 0
First test start none = (i : ℕ) → start ≤ i → test i ≡ false
First test start (some x) =
    (start ≤ x) × (test x ≡ true) × ((i : ℕ) → start ≤ i → i < x → test i ≡ false)

-- A number whose half has no bit below a place.
pub even_below :
    (x b : ℕ)
    → (x % 2 == 1) ≡ false
    → ((j : ℕ) → j < b → test_bit (x / 2) j ≡ false)
    → (j : ℕ) → j < suc b
    → test_bit x j ≡ false
even_below x b even rest zero lt = even
even_below x b even rest (suc j) lt = rest j (omega arith)

-- `countr_zero` is the place of the lowest bit, or the number of bits.
pub countr_zero_lem :
    (n x : ℕ)
    → (countr_zero n x ≤ n)
      × ((j : ℕ) → j < countr_zero n x → test_bit x j ≡ false)
      × (countr_zero n x < n → test_bit x (countr_zero n x) ≡ true)
unfolding countr_zero
countr_zero_lem zero x = (omega arith, λ j lt. absurd (omega arith), λ lt. absurd (omega arith))
countr_zero_lem (suc n) x =
    let rest = countr_zero_lem n (x / 2) in
    elim (Bool-cases (x % 2 == 1)) [
      | inl t ↦ (ground (arith, t), λ j lt. absurd (ground (arith, t)), λ lt. rw t t)
      | inr f ↦
          (let e : countr_zero (suc n) x ≡ suc (countr_zero n (x / 2)) = ground (arith, f) in
            (
              omega (arith, e, rest.0),
              λ j lt. even_below x (countr_zero n (x / 2)) f rest.1 j (omega (arith, e, lt)),
              λ lt. subst (λ b. test_bit x b ≡ true) (sym e) (rest.2 (omega (arith, e, lt))),
            ))
    ]

-- The positions in a list of words are those in the first word and those in the others.
pub member-head : (w x : ℕ) (c : List ℕ) (i : ℕ) → i < w → member w (x ∷ c) i ≡ test_bit x i
member-head w x c i lt =
    ap (λ q. test_bit (get_or (x ∷ c) q 0) (i % w)) (div-eq_of_lt lt)
    ∙ ap (test_bit x) (mod-eq_of_lt lt)

pub member-tail : (w x : ℕ) (c : List ℕ) (i : ℕ) → 0 < w → member w (x ∷ c) (w + i) ≡ member w c i
member-tail w x c i pw =
    let q : (w + i) / w ≡ suc (i / w) =
      ap (λ n. n / w) (omega arith) ∙ add-mul-div_right i 1 pw ∙ omega arith in
    let r : (w + i) % w ≡ i % w = ap (λ n. n % w) (omega arith) ∙ add-mul-mod_self_right i 1 w in
    ap (λ p. test_bit (get_or (x ∷ c) p 0) ((w + i) % w)) q ∙ ap (test_bit (get_or c (i / w) 0)) r

pub get_or-drop : (c : List ℕ) (q p : ℕ) → get_or (drop q c) p 0 ≡ get_or c (q + p) 0
get_or-drop c zero p = ap (λ n. get_or c n 0) (omega arith)
get_or-drop [] (suc q) p = refl
get_or-drop (x ∷ c) (suc q) p =
    let e : suc (q + p) ≡ suc q + p = omega arith in
    get_or-drop c q p ∙ ap (λ n. get_or (x ∷ c) n 0) e

pub member-drop :
    (w : ℕ) (c : List ℕ) (p i : ℕ) → 0 < w → member w (drop p c) i ≡ member w c (p * w + i)
member-drop w c zero i pw = let e : i ≡ 0 * w + i = omega arith in ap (member w c) e
member-drop w [] (suc p) i pw = test_bit-zero (i % w) ∙ sym (test_bit-zero ((suc p * w + i) % w))
member-drop w (x ∷ c) (suc p) i pw =
    let e : w + (p * w + i) ≡ suc p * w + i = omega arith in
    member-drop w c p i pw ∙ sym (member-tail w x c (p * w + i) pw) ∙ ap (member w (x ∷ c)) e

-- Positions counted from the start of a page.
abbrev pub from_page : ℕ → ℕ → List ℕ → ℕ → Bool
from_page w page c i = member w c (i - page * w)

pub from_page-head :
    (w page x : ℕ) (c : List ℕ) (i : ℕ)
    → page * w ≤ i
    → i < page * w + w
    → from_page w page (x ∷ c) i ≡ test_bit x (i - page * w)
from_page-head w page x c i le lt = member-head w x c (i - page * w) (omega arith)

pub from_page-tail :
    (w page x : ℕ) (c : List ℕ) (i : ℕ)
    → 0 < w
    → page * w + w ≤ i
    → from_page w page (x ∷ c) i ≡ from_page w (page + 1) c i
from_page-tail w page x c i pw le =
    let e : i - page * w ≡ w + (i - (page + 1) * w) = omega arith in
    ap (member w (x ∷ c)) e ∙ member-tail w x c (i - (page + 1) * w) pw

pub from_page-drop :
    (w : ℕ) (c : List ℕ) (q i : ℕ) → 0 < w → q * w ≤ i → from_page w q (drop q c) i ≡ member w c i
from_page-drop w c q i pw le =
    let e : q * w + (i - q * w) ≡ i = omega arith in
    member-drop w c q (i - q * w) pw ∙ ap (member w c) e

-- A search is carried over to an earlier start, if nothing stands in between, and to another test.
pub First-back :
    (p q : ℕ → Bool) (start next : ℕ) (r : Option ℕ)
    → start ≤ next
    → ((i : ℕ) → start ≤ i → i < next → p i ≡ false)
    → ((i : ℕ) → next ≤ i → p i ≡ q i)
    → First q next r
    → First p start r
First-back p q start next none le out same f = λ i l. elim (Bool-cases (ltb i next)) [
  | inl t ↦ out i l (ground arith)
  | inr n ↦ same i (ground arith) ∙ f i (ground arith)
]
First-back p q start next (some x) le out same f = (
  omega (arith, f.0),
  same x f.0 ∙ f.1,
  λ i l lt. elim (Bool-cases (ltb i next)) [
    | inl t ↦ out i l (ground arith)
    | inr n ↦ same i (ground arith) ∙ f.2 i (ground arith) lt
  ],
)

set_from_lem :
    (w page start : ℕ) (c : List ℕ)
    → 0 < w
    → start < w
    → ((p : ℕ) → get_or c p 0 < 2 ^ w)
    → First (from_page w page c) (page * w + start) (set_from w page start c)
unfolding set_from
set_from_lem w page start [] pw lt small = λ i le. test_bit-zero ((i - page * w) % w)
set_from_lem w page start (x ∷ c) pw lt small =
    let b = countr_zero w (x / 2 ^ start) in
    let z = countr_zero_lem w (x / 2 ^ start) in
    let bit : (i : ℕ)
        → page * w + start ≤ i
        → i < page * w + w
        → from_page w page (x ∷ c) i ≡ test_bit (x / 2 ^ start) (i - (page * w + start)) =
      λ i le l.
        let e : i - page * w ≡ i - (page * w + start) + start = omega arith in
        from_page-head w page x c i (omega arith) l
        ∙ ap (test_bit x) e
        ∙ sym (test_bit-drop start x (i - (page * w + start))) in
    let rest = set_from_lem w (page + 1) 0 c pw pw (λ p. small (suc p)) in
    elim (Bool-cases (b == w)) [
      | inl t ↦ rw t (
          First-back (from_page w page (x ∷ c)) (from_page w (page + 1) c) (page * w + start)
            ((page + 1) * w + 0) (set_from w (page + 1) 0 c) (omega arith)
            (λ i le l. bit i le (omega arith) ∙ z.1 (i - (page * w + start)) (ground arith))
            (λ i le. from_page-tail w page x c i pw (omega arith)) rest)
      | inr f ↦
          (let one = z.2 (ground (arith, z.0)) in
            let high = test_bit-above w x (b + start) (small 0) in
            let e : page * w + start + b - (page * w + start) ≡ b = omega arith in
            let inside : b + start < w = ground (arith, one, high, test_bit-drop start x b) in
            rw f (
              omega arith,
              bit (page * w + start + b) (omega arith) (omega (arith, inside))
                  ∙ ap (test_bit (x / 2 ^ start)) e
                  ∙ one,
              λ i le l.
                  bit i le (omega (arith, inside)) ∙ z.1 (i - (page * w + start)) (omega arith),
            ))
    ]

-- `find_first_set` finds the first position of a valid set from the start on, and npos if there is none.
pub find_first_set_lem :
    (w : ℕ) (s : Bitset)
    → IsBitset w s
    → (start : ℕ) → First (member w s.container) start (find_first_set w s start)
unfolding find_first_set
find_first_set_lem w s v start =
    let q = start / w in
    let c = drop q s.container in
    let p = place w start v.some_bits in
    let found =
      set_from_lem w q (start % w) c v.some_bits p.1
        (λ n. subst (λ x. x < 2 ^ w) (sym (get_or-drop s.container q n)) (v.bounded (q + n))) in
    First-back (member w s.container) (from_page w q c) start start (set_from w q (start % w) c)
      (omega arith) (λ i le l. absurd (omega arith))
      (λ i le. sym (from_page-drop w s.container q i v.some_bits (omega (arith, p.0))))
      (subst (λ n. First (from_page w q c) n (set_from w q (start % w) c)) (sym p.0) found)
