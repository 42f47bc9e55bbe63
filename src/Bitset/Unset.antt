-- ===== src/Bitset/Unset.antt =====
-- `find_first_unset` of include/mclo/container/detail/bitset_base.hpp.
use Prim.Native.Nat.{bit_or}
use native.Mathlib.Nat.{mod-lt, mul-le-mul_right, one-le-pow, pow-suc}
use mclo.Common.{
  ℕ, suc, ◌+◌, ◌-◌, ◌*◌, ◌/◌, ◌%◌, ◌^◌, ◌≤◌, ◌<◌, ◌≡◌, refl, sym, ap, ◌∙◌, subst, inl, inr, Option,
  none, some, Bool, true, false, not, ◌&&◌, ◌||◌, ltb, ◌==◌, if◌then◌else◌, length, get_or, drop,
  Bool-cases, Option-cases, test_bit, test_bit-ones, test_bit-bit_or, test_bit-complement,
  length-drop, arith,
}
use mclo.Bitset.{
  Bitset, num_values, complement, back, last_mask, countr_one, unset_from, find_first_unset,
  unset_until,
}
use mclo.Bitset.Words.{member, IsBitset, place, div_mono, member-place}
use mclo.Bitset.Set.{pow-mod-lt}
use mclo.Bitset.Find.{First, from_page-drop}
use mclo.Bitset.Pages.{countr_one_lem, FirstBefore, unset, FirstBefore-cut, unset_from_lem}

-- What `find_first_unset` looks for: a position below the size that is not in the set.
abbrev pub is_unset : ℕ → Bitset → ℕ → Bool
is_unset w s i = ltb i s.size && not (member w s.container i)

module _ (w : ℕ) (s : Bitset) (v : IsBitset w s) (start : ℕ) (le : start ≤ s.size) where
  abbrev q : ℕ
  q = start / w

  abbrev end : ℕ
  end = s.size / w

  abbrev searched : Option ℕ × ℕ
  searched = unset_from w (end - q) q (2 ^ (start % w) - 1) (drop q s.container)

  q-end : q ≤ end
  q-end = div_mono w start s.size v.some_bits le

  end-length : end ≤ length s.container
  unfolding num_values
  end-length = ground (arith, v.words)

  pages :
      FirstBefore (is_unset w s) start (end * w) searched.0
      × (searched.0 ≡ none → (end - q ≡ 0 → start % w ≡ 0) → searched.1 ≡ 0)
  pages =
      let p = place w start v.some_bits in
      let c = drop q s.container in
      let found =
        unset_from_lem w (end - q) q (start % w) c v.some_bits p.1
          (omega (arith, length-drop q s.container, end-length)) in
      let e : (q + (end - q)) * w ≡ end * w = ap (λ m. m * w) (omega (arith, q-end)) in
      let f : FirstBefore (unset w q c) start (end * w) searched.0 =
        subst (λ m. FirstBefore (unset w q c) start m searched.0) e
          (subst (λ m. FirstBefore (unset w q c) m ((q + (end - q)) * w) searched.0) (sym p.0)
            found.0) in
      (
        FirstBefore-cut (is_unset w s) (unset w q c) start (end * w) searched.0
            (λ i l m. ground (
              arith,
              from_page-drop w s.container q i v.some_bits,
              p.0,
              place w s.size v.some_bits,
            ))
            f,
        found.1,
      )

  back-end : (s.size % w == 0) ≡ false → end ≡ length s.container - 1
  unfolding num_values
  back-end f = ground (arith, v.words)

  -- The mask that is left for the last word covers what lies before the start.
  mask_lem :
      searched.0 ≡ none
      → (k : ℕ) × (searched.1 ≡ 2 ^ k - 1) × ((j : ℕ) → j < w → ltb j k ≡ ltb (end * w + j) start)
  unfolding unset_from
  mask_lem e =
      let p = place w start v.some_bits in
      elim (Bool-cases (q == end)) [
        | inl t ↦ (
          start % w,
          (let z : end - q ≡ 0 = ground arith in rw z refl),
          λ j lt. ground (arith, p, t),
        )
        | inr f ↦ (
          0,
          pages.1 e (λ z. ground (arith, q-end)),
          λ j lt. ground (arith, p, q-end, mul-le-mul_right {m = q + 1} {n = end} w),
        )
      ]

  abbrev final : ℕ
  final = bit_or (bit_or (back s.container) searched.1) (complement w (last_mask w s))

  final-bit :
      searched.0 ≡ none
      → (s.size % w == 0) ≡ false
      → (j : ℕ) → j < w
      → test_bit final j ≡ (not (is_unset w s (end * w + j)) || ltb (end * w + j) start)
  unfolding last_mask
  final-bit e f j lt =
      let mask = mask_lem e in
      let x = back s.container in
      let size = place w s.size v.some_bits in
      let low =
        test_bit-complement w (last_mask w s) j (omega (arith, pow-mod-lt w s.size v.some_bits)) in
      let covered : test_bit searched.1 j ≡ ltb (end * w + j) start =
        ap (λ n. test_bit n j) mask.1 ∙ test_bit-ones mask.0 j ∙ mask.2 j lt in
      let here : member w s.container (end * w + j) ≡ test_bit x j =
        member-place w s.container end j lt
        ∙ ap (λ p. test_bit (get_or s.container p 0) j) (back-end f) in
      ground (
        arith,
        test_bit-bit_or (bit_or x searched.1) (complement w (last_mask w s)) j,
        test_bit-bit_or x searched.1 j,
        test_bit-ones (s.size % w) j,
        covered,
        here,
        low,
        size,
      )

  -- The end of the pages that are searched in full, as the code computes it.
  mask-zero : (last_mask w s == 0) ≡ (s.size % w == 0)
  unfolding last_mask
  mask-zero =
      let r = s.size % w in
      elim (Bool-cases (r == 0)) [
        | inl t ↦ (let z : r ≡ 0 = ground arith in rw z refl)
        | inr f ↦
            (let z : r ≡ suc (r - 1) = ground arith in
              ground
                (arith, ap (λ n. 2 ^ n) z, pow-suc 2 (r - 1), one-le-pow (r - 1) 2 (omega arith)))
      ]

  code_end : (if last_mask w s == 0 then length s.container else length s.container - 1) ≡ end
  unfolding num_values
  code_end = ground (arith, mask-zero, v.words)

  code : find_first_unset w s start ≡ unset_until w s start end
  unfolding find_first_unset
  code = ap (unset_until w s start) code_end

  -- Positions from the start on below the size stand in the pages, or in the last word.
  in_last :
      (i : ℕ)
      → i < s.size
      → end * w ≤ i
      → (i ≡ end * w + (i - end * w)) × (i - end * w < s.size % w)
  in_last i lt l = (omega arith, omega (arith, place w s.size v.some_bits))

  whole_lem : searched.0 ≡ none → (s.size % w == 0) ≡ true → First (is_unset w s) start none
  whole_lem n t i l =
      let f = subst (FirstBefore (is_unset w s) start (end * w)) n pages.0 in
      ground (arith, f i l, in_last i)

  last_lem :
      searched.0 ≡ none
      → (s.size % w == 0) ≡ false
      → First
          (is_unset w s)
          start
          (if countr_one w final == w then none else some (end * w + countr_one w final))
  last_lem n o =
      let f = subst (FirstBefore (is_unset w s) start (end * w)) n pages.0 in
      let z = countr_one_lem w final in
      let b = final-bit n o in
      let before : (i : ℕ) → start ≤ i → i < end * w + countr_one w final → is_unset w s i ≡ false =
        λ i l m. elim (Bool-cases (ltb i (end * w))) [
          | inl t ↦ f i l (ground arith)
          | inr c ↦
              (let e : end * w + (i - end * w) ≡ i = ground arith in
                ground (arith, ap (is_unset w s) e, z.1 (i - end * w), b (i - end * w), z.0))
        ] in
      elim (Bool-cases (countr_one w final == w)) [
        | inl t ↦ rw t (λ i l. ground (arith, before i l, in_last i, mod-lt s.size v.some_bits))
        | inr c ↦
            (let low = z.2 (ground (arith, z.0)) in
              let h = b (countr_one w final) (ground (arith, z.0)) in
              rw c (ground (arith, low, h), ground (arith, low, h), before))
      ]

-- `find_first_unset`, from a start up to the size of a valid set, finds the first position below the size
-- that is not in it, and npos if there is none.
pub find_first_unset_lem :
    (w : ℕ) (s : Bitset)
    → IsBitset w s
    → (start : ℕ) → start ≤ s.size
    → First (is_unset w s) start (find_first_unset w s start)
unfolding unset_until
find_first_unset_lem w s v start le =
    let r = searched w s v start le in
    let zero = mask-zero w s v start le in
    let c = code w s v start le in
    let b = countr_one w (final w s v start le) in
    elim (Option-cases r.0) [
      | inl n ↦ (elim (Bool-cases (s.size % w == 0)) [
        | inl t ↦
            (let e : find_first_unset w s start ≡ none = c ∙ ground (arith, n, zero, t) in
              subst (First (is_unset w s) start) (sym e) (whole_lem w s v start le n t))
        | inr f ↦
            (let e : find_first_unset w s start
                  ≡ (if b == w then none else some (s.size / w * w + b)) =
                c ∙ ground (arith, n, zero, f) in
              subst (First (is_unset w s) start) (sym e) (last_lem w s v start le n f))
      ])
      | inr j ↦
          (let f =
              subst (FirstBefore (is_unset w s) start (s.size / w * w)) j.1
                (pages w s v start le).0 in
            let e : find_first_unset w s start ≡ some j.0 = c ∙ ground (arith, j.1) in
            let g : First (is_unset w s) start (some j.0) = (f.0, f.2, f.3) in
            subst (First (is_unset w s) start) (sym e) g)
    ]
