-- ===== src/Bitset/Pages.antt =====
-- The pages that `find_first_unset` of include/mclo/container/detail/bitset_base.hpp searches in full.
use Prim.Native.Nat.{bit_or}
use native.Mathlib.Nat.{mul-le-mul_right}
use mclo.Common.{
  ℕ, zero, suc, ◌+◌, ◌-◌, ◌*◌, ◌/◌, ◌%◌, ◌^◌, ◌≤◌, ◌<◌, ◌≡◌, refl, sym, ap, ◌∙◌, subst, inl, inr,
  Option, none, some, List, [], ◌∷◌, Bool, true, false, not, ◌||◌, ltb, ◌==◌, length, Bool-cases,
  test_bit, test_bit-ones, test_bit-bit_or, arith,
}
use mclo.Bitset.{countr_one, unset_from}
use mclo.Bitset.Find.{from_page, from_page-head, from_page-tail}

-- `countr_one` is the place of the lowest bit that is not set, or the number of bits.
pub countr_one_lem :
    (n x : ℕ)
    → (countr_one n x ≤ n)
      × ((j : ℕ) → j < countr_one n x → test_bit x j ≡ true)
      × (countr_one n x < n → test_bit x (countr_one n x) ≡ false)
unfolding countr_one
countr_one_lem zero x = (omega arith, λ j lt. absurd (omega arith), λ lt. absurd (omega arith))
countr_one_lem (suc n) x =
    let rest = countr_one_lem n (x / 2) in
    elim (Bool-cases (x % 2 == 1)) [
      | inl t ↦
          (let e : countr_one (suc n) x ≡ suc (countr_one n (x / 2)) = ground (arith, t) in
            (
              omega (arith, e, rest.0),
              λ j lt. odd_below x (countr_one n (x / 2)) t rest.1 j (omega (arith, e, lt)),
              λ lt. subst (λ b. test_bit x b ≡ false) (sym e) (rest.2 (omega (arith, e, lt))),
            ))
      | inr f ↦ (ground (arith, f), λ j lt. absurd (ground (arith, f)), λ lt. rw f f)
    ]
  where
    odd_below :
        (x b : ℕ)
        → (x % 2 == 1) ≡ true
        → ((j : ℕ) → j < b → test_bit (x / 2) j ≡ true)
        → (j : ℕ) → j < suc b
        → test_bit x j ≡ true
    odd_below x b odd rest zero lt = odd
    odd_below x b odd rest (suc j) lt = rest j (omega arith)

-- A search that ends before a position finds it or passes everything.
abbrev pub FirstBefore : (ℕ → Bool) → ℕ → ℕ → Option ℕ → Type 0
FirstBefore test start end none = (i : ℕ) → start ≤ i → i < end → test i ≡ false
FirstBefore test start end (some x) =
    (start ≤ x) × (x < end) × (test x ≡ true) × ((i : ℕ) → start ≤ i → i < x → test i ≡ false)

abbrev pub unset : ℕ → ℕ → List ℕ → ℕ → Bool
unset w page c i = not (from_page w page c i)

FirstBefore-back :
    (p q : ℕ → Bool) (start next end : ℕ) (r : Option ℕ)
    → start ≤ next
    → ((i : ℕ) → start ≤ i → i < next → p i ≡ false)
    → ((i : ℕ) → next ≤ i → p i ≡ q i)
    → FirstBefore q next end r
    → FirstBefore p start end r
FirstBefore-back p q start next end none le out same f = λ i l m. elim (Bool-cases (ltb i next)) [
  | inl t ↦ out i l (ground arith)
  | inr n ↦ same i (ground arith) ∙ f i (ground arith) m
]
FirstBefore-back p q start next end (some x) le out same f = (
  omega (arith, f.0),
  f.1,
  same x f.0 ∙ f.2,
  λ i l lt. elim (Bool-cases (ltb i next)) [
    | inl t ↦ out i l (ground arith)
    | inr n ↦ same i (ground arith) ∙ f.3 i (ground arith) lt
  ],
)

pub FirstBefore-cut :
    (p q : ℕ → Bool) (start end : ℕ) (r : Option ℕ)
    → ((i : ℕ) → start ≤ i → i < end → p i ≡ q i)
    → FirstBefore q start end r
    → FirstBefore p start end r
FirstBefore-cut p q start end none same f = λ i l m. same i l m ∙ f i l m
FirstBefore-cut p q start end (some x) same f =
    (f.0, f.1, same x f.0 f.1 ∙ f.2, λ i l m. same i l (omega (arith, f.1)) ∙ f.3 i l m)

-- The search in the first word, from a place on.
word_unset :
    (w page start x : ℕ) (c : List ℕ)
    → 0 < w
    → start < w
    → (i : ℕ) → page * w ≤ i
    → i < page * w + w
    → test_bit (bit_or x (2 ^ start - 1)) (i - page * w)
      ≡ (not (unset w page (x ∷ c) i) || ltb i (page * w + start))
word_unset w page start x c pw lt i le l = ground (
  arith,
  test_bit-bit_or x (2 ^ start - 1) (i - page * w),
  test_bit-ones start (i - page * w),
  from_page-head w page x c i le l,
)

pub unset_from_lem :
    (w n page start : ℕ) (c : List ℕ)
    → 0 < w
    → start < w
    → n ≤ length c
    → FirstBefore
        (unset w page c)
        (page * w + start)
        ((page + n) * w)
        (unset_from w n page (2 ^ start - 1) c).0
      × ((unset_from w n page (2 ^ start - 1) c).0 ≡ none
          → (n ≡ 0 → start ≡ 0)
          → (unset_from w n page (2 ^ start - 1) c).1 ≡ 0)
unfolding unset_from
unset_from_lem w zero page start c pw lt le =
    (λ i l m. absurd (omega arith), λ e o. let z : start ≡ 0 = o refl in rw z refl)
unset_from_lem w (suc n) page start [] pw lt le = absurd (omega arith)
unset_from_lem w (suc n) page start (x ∷ c) pw lt le =
    let b = countr_one w (bit_or x (2 ^ start - 1)) in
    let z = countr_one_lem w (bit_or x (2 ^ start - 1)) in
    let bit = word_unset w page start x c pw lt in
    let rest = unset_from_lem w n (page + 1) 0 c pw pw (omega arith) in
    let end : (page + 1 + n) * w ≡ (page + suc n) * w = ap (λ m. m * w) (omega arith) in
    elim (Bool-cases (b == w)) [
      | inl t ↦ rw t (
        subst
            (λ m.
              FirstBefore (unset w page (x ∷ c)) (page * w + start) m
                (unset_from w n (page + 1) 0 c).0)
            end
            (FirstBefore-back (unset w page (x ∷ c)) (unset w (page + 1) c) (page * w + start)
              ((page + 1) * w + 0) ((page + 1 + n) * w) (unset_from w n (page + 1) 0 c).0
              (omega arith) (λ i l m. ground (arith, bit i, z.1 (i - page * w)))
              (λ i l. ap not (from_page-tail w page x c i pw (omega arith))) rest.0),
        λ e o. rest.1 e (λ k. refl),
      )
      | inr f ↦
          (let below : b < w = ground (arith, z.0) in
            let here = z.2 below in
            let low = bit (page * w + b) (omega arith) (omega (arith, below)) in
            let e : page * w + b - page * w ≡ b = omega arith in
            let last : page * w + w ≤ (page + suc n) * w =
              omega (arith, mul-le-mul_right {m = page + 1} {n = page + suc n} w (omega arith)) in
            let r : test_bit (bit_or x (2 ^ start - 1)) (page * w + b - page * w) ≡ false =
              ap (test_bit (bit_or x (2 ^ start - 1))) e ∙ here in
            rw f (
              (
                ground (arith, r, low),
                omega (arith, below, last),
                ground (arith, r, low),
                λ i l m. ground (arith, bit i, z.1 (i - page * w)),
              ),
              λ g o. absurd (ground arith),
            ))
    ]
