-- ===== src/Bitset/Text.antt =====
-- The construction from a range in include/mclo/container/detail/bitset_base.hpp.
use native.Mathlib.Nat.{one-le-pow}
use mclo.Common.{
  ℕ, zero, suc, ◌+◌, ◌-◌, ◌*◌, ◌%◌, ◌≤◌, ◌<◌, ◌≡◌, refl, ap, ◌∙◌, inl, inr, List, [], ◌∷◌, Bool,
  false, ◌&&◌, ltb, ◌==◌, length, get_or, take, Bool-cases, length-take, length-replicate,
  replicate, get_or-take, arith,
}
use mclo.Bitset.{Bitset, num_values, fill, init_from_range}
use mclo.Bitset.Bulk.{get_or-replicate}
use mclo.Bitset.Words.{member, IsBitset, place}
use mclo.Bitset.Fill.{fill_lem}

num_values-room : (w n : ℕ) → 0 < w → n ≤ num_values w n * w
unfolding num_values
num_values-room w n pw = elim (Bool-cases (n % w == 0)) [
  | inl t ↦ rw t (ground (arith, place w n pw))
  | inr f ↦ rw f (omega (arith, place w n pw))
]

-- A set constructed from a range is valid and holds the positions of the elements that are true, as far as
-- they are below the size.
pub init_from_range_lem :
    (w n : ℕ) (bs : List Bool)
    → 0 < w
    → (s : Bitset) × (init_from_range w
          (record { size = n; container = replicate (num_values w n) 0 })
          bs
        ≡ s)
      × IsBitset w s
      × (s.size ≡ n)
      × ((i : ℕ) → member w s.container i ≡ (ltb i n && get_or bs i false))
unfolding init_from_range
init_from_range_lem w n bs pw =
    let c : List ℕ = replicate (num_values w n) 0 in
    let zeros : (p : ℕ) → get_or c p 0 ≡ 0 =
      λ p. ground (arith, get_or-replicate (num_values w n) 0 p) in
    let l = length-replicate {A = ℕ} (num_values w n) 0 in
    let h = fill_lem w (take n bs) 0 0 0 c (record {
      some_bits = pw;
      inside = pw;
      short = one-le-pow 0 2 (omega arith);
      room = omega (arith, length-take n bs, num_values-room w n pw, ap (λ k. k * w) l);
      clear = λ p le. zeros p;
      bounded = λ p. omega (arith, zeros p, one-le-pow w 2 (omega arith));
    }) in
    let e : (i : ℕ) → i - (0 * w + 0) ≡ i = λ i. omega arith in
    let bits : (i : ℕ) → member w (fill w (take n bs) 0 0 0 c) i ≡ (ltb i n && get_or bs i false) =
      λ i.
        h.bits i
        ∙ ground (
          arith,
          ap (λ k. get_or (take n bs) k false) (e i),
          get_or-take n bs false i,
          get_or-beyond i,
        ) in
    (
      record { size = n; container = fill w (take n bs) 0 0 0 c },
      refl,
      record {
        some_bits = pw;
        words = h.same_length ∙ l;
        bounded = h.words;
        rest = λ i le. bits i ∙ ground arith;
      },
      refl,
      bits,
    )
  where
    get_or-short : (cs : List Bool) (i : ℕ) → length cs ≤ i → get_or cs i false ≡ false
    get_or-short [] i le = refl
    get_or-short (x ∷ cs) zero le = absurd (omega arith)
    get_or-short (x ∷ cs) (suc i) le = get_or-short cs i (omega arith)

    get_or-beyond : (i : ℕ) → n ≤ i → get_or (take n bs) i false ≡ false
    get_or-beyond i le = get_or-short (take n bs) i (omega (arith, length-take n bs))
