-- ===== src/SlotMapHandle/Packing.antt =====
-- The combined value of include/mclo/container/slot_map_handle.hpp.
use mclo.Common.{
  ℕ, zero, suc, ◌+◌, ◌-◌, ◌*◌, ◌/◌, ◌%◌, ◌^◌, ◌≤◌, ◌<◌, ◌≡◌, ◌⊎◌, inl, inr, refl, sym, some,
  Bool-cases, ltb, leb, ◌&&◌, ap, ◌∙◌, arith, bit_or-low, bit_and-mask,
}
use native.Mathlib.Nat.{
  mod-eq_of_lt, pow-zero, pow-suc, one-le-pow, pow-le-pow_right, mul-add-div_right, div-eq_of_lt,
  mul-add-mod_self_right, mul-le-mul_right, mul_assoc, mul_comm, add-mul,
}
use Prim.Native.Nat.{bit_or, bit_and}
use mclo.SlotMapHandle.{
  Bits, Handle, representation_bits, promoted_bits, sign_extended, get_combined, set_combined,
}

-- What the bit-fields hold.
pub record Fits (c : Bits) (h : Handle) : Type 0 where
  pub index : h.index < 2 ^ c.index_bits
  pub generation : h.generation < 2 ^ c.generation_bits

-- The shift stays in the type that the generation is promoted to: both fields together have at most 32
-- bits, or the generation alone has more.
pub record HasRoom (c : Bits) : Type 0 where
  pub some_generation : 0 < c.generation_bits
  pub room :
      (c.index_bits + c.generation_bits ≤ 32)
      ⊎ ((32 < c.generation_bits) × (c.index_bits + c.generation_bits ≤ 64))

pow-sum : (a b : ℕ) → 2 ^ (a + b) ≡ 2 ^ b * 2 ^ a
pow-sum a zero = let e : a + 0 ≡ a = omega arith in ap (λ n. 2 ^ n) e ∙ omega (arith, pow-zero 2)
pow-sum a (suc b) =
    let e : a + suc b ≡ suc (a + b) = omega arith in
    let rest = pow-sum a b in
    ap (λ n. 2 ^ n) e
    ∙ pow-suc 2 (a + b)
    ∙ ap (λ n. n * 2) rest
    ∙ omega (
      arith,
      mul_assoc (2 ^ b) (2 ^ a) 2,
      mul_assoc (2 ^ b) 2 (2 ^ a),
      mul_comm (2 ^ a) 2,
      pow-suc 2 b,
      ap (λ n. n * 2 ^ a) (pow-suc 2 b),
      ap (λ n. 2 ^ b * n) (mul_comm (2 ^ a) 2),
    )

module _ (c : Bits) (h : Handle) (f : Fits c h) where
  abbrev span : ℕ
  span = 2 ^ c.index_bits

  abbrev shifted : ℕ
  shifted = h.generation * span

  abbrev value : ℕ
  value = shifted + h.index

  below : shifted + span ≤ 2 ^ (c.index_bits + c.generation_bits)
  below = omega (
    arith,
    mul-le-mul_right {m = h.generation + 1} {n = 2 ^ c.generation_bits} span
        (omega (arith, f.generation)),
    add-mul h.generation 1 span,
    pow-sum c.index_bits c.generation_bits,
  )

  -- The sign does not touch the index, which is below it.
  or-extended :
      (k : ℕ) → c.index_bits ≤ 32 → bit_or (shifted + k * 2 ^ 32) h.index ≡ value + k * 2 ^ 32
  or-extended k le =
      let high = 2 ^ (32 - c.index_bits) in
      let thirty_two : 32 - c.index_bits + c.index_bits ≡ 32 = omega arith in
      let e : shifted + k * 2 ^ 32 ≡ (h.generation + k * high) * span = omega (
        arith,
        add-mul h.generation (k * high) span,
        mul_assoc k high span,
        mul_comm high span,
        ap (λ n. k * n)
            (sym (ap (λ n. 2 ^ n) thirty_two) ∙ pow-sum (32 - c.index_bits) c.index_bits),
      ) in
      ap (λ n. bit_or n h.index) e
      ∙ bit_or-low c.index_bits (h.generation + k * high) h.index f.index
      ∙ omega (arith, e)

  value-below : (n : ℕ) → c.index_bits + c.generation_bits ≤ n → value < 2 ^ n
  value-below n le =
      let wider =
        pow-le-pow_right {n = 2} (omega arith) {i = c.index_bits + c.generation_bits} {j = n} le in
      omega (arith, wider, below, f.index)

  to-representation :
      (k : ℕ)
      → c.index_bits + c.generation_bits ≤ 32
      → (value + k * 2 ^ 32) % 2 ^ representation_bits c ≡ value
  to-representation k le =
      let total = c.index_bits + c.generation_bits in
      elim (Bool-cases (leb total 8)) [
        | inl t ↦
            (let e : representation_bits c ≡ 8 = ground (arith, t) in
              let lt = value-below 8 (ground (arith, t)) in
              ap (λ n. (value + k * 2 ^ 32) % 2 ^ n) e ∙ omega (arith, lt))
        | inr u ↦ (elim (Bool-cases (leb total 16)) [
          | inl t ↦
              (let e : representation_bits c ≡ 16 = ground (arith, t, u) in
                let lt = value-below 16 (ground (arith, t)) in
                ap (λ n. (value + k * 2 ^ 32) % 2 ^ n) e ∙ omega (arith, lt))
          | inr v ↦
              (let e : representation_bits c ≡ 32 = ground (arith, u, v) in
                let lt = value-below 32 le in
                ap (λ n. (value + k * 2 ^ 32) % 2 ^ n) e ∙ omega (arith, lt))
        ])
      ]

  or-sign :
      c.index_bits + c.generation_bits ≤ 32
      → bit_or (sign_extended c shifted) h.index % 2 ^ representation_bits c ≡ value
  or-sign le = elim (Bool-cases (ltb c.generation_bits 32 && leb (2 ^ 31) shifted)) [
    | inl t ↦
        (let e : sign_extended c shifted ≡ shifted + 4294967295 * 2 ^ 32 = ground (arith, t) in
          ap (λ n. bit_or n h.index % 2 ^ representation_bits c) e
          ∙ ap (λ n. n % 2 ^ representation_bits c) (or-extended 4294967295 (omega arith))
          ∙ to-representation 4294967295 le)
    | inr u ↦
        (let e : sign_extended c shifted ≡ shifted + 0 * 2 ^ 32 = ground (arith, u) in
          ap (λ n. bit_or n h.index % 2 ^ representation_bits c) e
          ∙ ap (λ n. n % 2 ^ representation_bits c) (or-extended 0 (omega arith))
          ∙ to-representation 0 le)
  ]

  narrow :
      0 < c.generation_bits → c.index_bits + c.generation_bits ≤ 32 → get_combined c h ≡ some value
  unfolding get_combined
  narrow pos le =
      let whole : shifted % 2 ^ 32 ≡ shifted = omega (arith, value-below 32 le) in
      let width : promoted_bits c.generation_bits ≡ 32 = ground arith in
      let r = or-sign le in
      let rest : some
            (bit_or (sign_extended c (shifted % 2 ^ 32)) h.index % 2 ^ representation_bits c)
          ≡ some value =
        ap (λ n. some (bit_or (sign_extended c n) h.index % 2 ^ representation_bits c)) whole
        ∙ ap some r in
      ground (arith, width, rest)

  wide :
      32 < c.generation_bits → c.index_bits + c.generation_bits ≤ 64 → get_combined c h ≡ some value
  unfolding get_combined
  wide gt le =
      let lt = value-below 64 le in
      let whole : shifted % 2 ^ 64 ≡ shifted = omega (arith, lt) in
      let width : promoted_bits c.generation_bits ≡ 64 = ground arith in
      let bits : representation_bits c ≡ 64 = ground arith in
      let plain : sign_extended c shifted ≡ shifted = ground arith in
      let rest : some
            (bit_or (sign_extended c (shifted % 2 ^ 64)) h.index % 2 ^ representation_bits c)
          ≡ some value =
        ap (λ n. some (bit_or (sign_extended c n) h.index % 2 ^ representation_bits c)) whole
        ∙ ap (λ n. some (bit_or n h.index % 2 ^ representation_bits c)) plain
        ∙ ap (λ n. some (n % 2 ^ representation_bits c))
            (bit_or-low c.index_bits h.generation h.index f.index)
        ∙ ap (λ n. some (value % 2 ^ n)) bits
        ∙ ap some (omega (arith, lt)) in
      ground (arith, width, rest)

  index-eq : bit_and value (span - 1) % span ≡ h.index
  index-eq =
      let low = mod-eq_of_lt {n = h.index} {m = span} f.index in
      ap (λ v. v % span)
        (bit_and-mask c.index_bits value ∙ mul-add-mod_self_right h.generation span h.index ∙ low)
      ∙ low

  generation-eq : value / span % 2 ^ c.generation_bits ≡ h.generation
  generation-eq =
      let some_span = one-le-pow c.index_bits 2 (omega arith) in
      let above : value / span ≡ h.generation = omega (
        arith,
        mul-add-div_right {m = span} some_span h.generation h.index,
        div-eq_of_lt {n = h.index} {m = span} f.index,
      ) in
      ap (λ v. v % 2 ^ c.generation_bits) above
      ∙ mod-eq_of_lt {n = h.generation} {m = 2 ^ c.generation_bits} f.generation

  -- Where the shift stays in the type that the generation is promoted to, the combined value of a handle
  -- is defined and has the generation above the index, and setting a handle from it gives back the
  -- handle.
  pub set_combined-get_combined :
      HasRoom c
      → (v : ℕ) × (get_combined c h ≡ some v)
        × (v ≡ h.generation * 2 ^ c.index_bits + h.index)
        × (set_combined c v ≡ h)
  unfolding set_combined
  set_combined-get_combined r = (
    value,
    elim r.room [ inl le ↦ narrow r.some_generation le | inr e ↦ wide e.0 e.1 ],
    refl,
    ap (λ i. record { index = i; generation = value / span % 2 ^ c.generation_bits }) index-eq
        ∙ ap (λ g. record { index = h.index; generation = g }) generation-eq,
  )
