-- ===== src/Arena/Allocate.antt =====
-- `memory_arena::allocate` of source/allocator/arena_allocator.cpp on one request.
use mclo.Common.{
  ℕ, ◌+◌, ◌-◌, ◌*◌, ◌/◌, ◌%◌, ◌≤◌, ◌<◌, ◌≡◌, refl, ap, ◌∙◌, max, none, some, List, [], ◌∷◌, ◌⊎◌,
  inl, inr, arith, Bool-cases, ltb, true, zero, suc, ◌==◌, ◌^◌,
}
use native.Mathlib.Nat.{mod-add-div', one-le-pow, mod-lt, mul-mod_left}
use mclo.Arena.{
  Chunk, Arena, header_size, wrap, begin, end, is_power, is_alignment, align, allocate_chunk, grow,
  allocated, allocate_grown, allocate,
}
use mclo.Arena.Inv.{Block, Apart, IsFresh, AreSound, InSome, IsValid, IsTaken, IsApart}

-- Rounding up to a multiple.
pub round_up :
    (a n : ℕ)
    → 0 < a
    → (n ≤ (n + (a - 1)) / a * a)
      × ((n + (a - 1)) / a * a < n + a)
      × ((n + (a - 1)) / a * a % a ≡ 0)
round_up a n pos = (
  omega (arith, mod-add-div' (n + (a - 1)) a, mod-lt (n + (a - 1)) pos),
  omega (arith, mod-add-div' (n + (a - 1)) a, mod-lt (n + (a - 1)) pos),
  mul-mod_left ((n + (a - 1)) / a) a,
)

is_power-positive : (k n : ℕ) → is_power k n ≡ true → 0 < n
unfolding is_power
is_power-positive zero n e = absurd (ground arith)
is_power-positive (suc k) n e = elim (Bool-cases (n == 2 ^ k)) [
  | inl t ↦ (let some_power = one-le-pow k 2 (omega arith) in ground (arith, t, some_power))
  | inr f ↦ is_power-positive k n (ground (arith, e, f))
]

-- For an alignment that is a power of two, an aligned block fits, and has the size; or there is no room
-- for it.
pub align-cases :
    (alignment size ptr space : ℕ)
    → is_alignment alignment ≡ true
    → ((align alignment size ptr space ≡ some none) × (space < size + alignment))
      ⊎ ((p : ℕ) × (align alignment size ptr space ≡ some (some p))
          × (ptr ≤ p)
          × (p % alignment ≡ 0)
          × (p + size ≤ ptr + space))
unfolding align
align-cases alignment size ptr space power =
    let up = round_up alignment ptr (is_power-positive 64 alignment power) in
    let aligned = (ptr + (alignment - 1)) / alignment * alignment in
    elim (Bool-cases (ltb space (size + (aligned - ptr)))) [
      | inl e ↦ inl (ground (arith, power), ground (arith, up.1))
      | inr e ↦ inr (aligned, ground (arith, power), up.0, up.2, ground (arith, up.0))
    ]

-- A block in one of the chunks is apart from what lies in memory that is apart from all of them.
InSome-Apart :
    (q m : ℕ) (b d : Block) (cs : List Chunk)
    → IsFresh q m cs
    → AreSound cs
    → InSome b cs
    → q ≤ d.at
    → d.at + d.size ≤ q + m
    → IsApart b d
unfolding IsFresh AreSound InSome Apart IsApart
InSome-Apart q m b d [] f s i lo hi = absurd i
InSome-Apart q m b d (c ∷ cs) f s (inl i) lo hi = elim f.0 [
  | inl le ↦ inr (omega (arith, i.from_begin))
  | inr le ↦ inl (omega (arith, i.to_end, s.0))
]
InSome-Apart q m b d (c ∷ cs) f s (inr i) lo hi = InSome-Apart q m b d cs f.1 s.2 i lo hi

-- What a request for a block ends with, told by the block's address and the arena after it.
pub record Served (a : Arena) (c : Chunk) (cs : List Chunk) (size alignment p : ℕ) (a' : Arena)
    (c' : Chunk) (cs' : List Chunk) : Type 0 where
  pub valid : IsValid a' c' cs'
  pub aligned : p % alignment ≡ 0
  pub taken : IsTaken a' c' cs' (record { at = p; size = size })
  pub kept : (b : Block) → IsTaken a c cs b → IsTaken a' c' cs' b
  pub apart : (b : Block) → IsTaken a c cs b → IsApart b (record { at = p; size = size })

module _ (a : Arena) (c : Chunk) (cs : List Chunk) (v : IsValid a c cs) (size alignment : ℕ)
    (p : ℕ) where
  -- The block is cut from the current chunk.
  fits :
      a.current ≤ p
      → p % alignment ≡ 0
      → p + size ≤ end c
      → Served a c cs size alignment p (record a { current = p + size }) c cs
  unfolding IsTaken IsApart Apart AreSound
  fits lo al hi = record {
    valid = record {
      all = v.all;
      first = v.first;
      from_begin = omega (arith, v.from_begin);
      to_end = hi;
      sound = v.sound;
    };
    aligned = al;
    taken = inl (record { from_begin = omega (arith, v.from_begin); to_end = hi }, omega arith);
    kept = λ b t. elim t [ inl i ↦ inl (i.0, omega (arith, i.1)) | inr s ↦ inr s ];
    apart = λ b t. elim t [
      | inl i ↦ inl (omega (arith, i.1))
      | inr s ↦
          InSome-Apart c.address c.obtained b (record { at = p; size = size }) cs v.sound.1
            v.sound.2 s (omega (arith, v.from_begin)) (omega (arith, v.sound.0))
    ];
  }

  -- The block is cut from a new chunk.
  grows :
      (n : Chunk)
      → n.obtained ≡ header_size + n.size
      → IsFresh n.address n.obtained (c ∷ cs)
      → begin n ≤ p
      → p % alignment ≡ 0
      → p + size ≤ end n
      → Served a c cs size alignment p
          (record { current = p + size; current_chunk = some n; chunks = n ∷ a.chunks })
          n
          (c ∷ cs)
  unfolding IsTaken IsApart Apart AreSound InSome IsFresh
  grows n o f lo al hi = record {
    valid = record {
      all = ap (◌∷◌ n) v.all;
      first = refl;
      from_begin = omega arith;
      to_end = hi;
      sound = (o, f, v.sound);
    };
    aligned = al;
    taken = inl (record { from_begin = lo; to_end = hi }, omega arith);
    kept = λ b t. elim t [ inl i ↦ inr (inl i.0) | inr s ↦ inr (inr s) ];
    apart = λ b t.
        InSome-Apart n.address n.obtained b (record { at = p; size = size }) (c ∷ cs) f v.sound
          (elim t [ inl i ↦ inl i.0 | inr s ↦ inr s ]) (omega arith) (omega arith);
  }

-- What a chunk grown for a request has.
abbrev pub grown_size : Chunk → ℕ → ℕ → ℕ
grown_size c size alignment = max (size + alignment) (c.size * 2)

module _ (new_at : ℕ) (a : Arena) (c : Chunk) (cs : List Chunk) (v : IsValid a c cs)
    (size alignment : ℕ) (power : is_alignment alignment ≡ true)
    (small : header_size + grown_size c size alignment < 2 ^ 64)
    (fresh : IsFresh new_at (header_size + grown_size c size alignment) (c ∷ cs)) where
  abbrev fresh_chunk : Chunk
  fresh_chunk = record {
    address = new_at;
    obtained = header_size + grown_size c size alignment;
    size = grown_size c size alignment;
  }

  grow-eq : grow new_at a (max (wrap (size + alignment)) (wrap (c.size * 2))) ≡ record {
    current = begin fresh_chunk;
    current_chunk = some fresh_chunk;
    chunks = fresh_chunk ∷ a.chunks;
  }
  unfolding grow allocate_chunk
  grow-eq =
      let exact : max (wrap (size + alignment)) (wrap (c.size * 2)) ≡ grown_size c size alignment =
        omega arith in
      let whole : wrap (header_size + grown_size c size alignment)
          ≡ header_size + grown_size c size alignment =
        omega arith in
      ap
        (λ s. record {
          current = new_at + header_size;
          current_chunk =
              some (record { address = new_at; obtained = wrap (header_size + s); size = s });
          chunks =
              record { address = new_at; obtained = wrap (header_size + s); size = s } ∷ a.chunks;
        })
        exact
      ∙ ap
          (λ o. record {
            current = new_at + header_size;
            current_chunk =
                some
                  (record { address = new_at; obtained = o; size = grown_size c size alignment });
            chunks =
                record { address = new_at; obtained = o; size = grown_size c size alignment }
                ∷ a.chunks;
          })
          whole

  -- A request whose alignment is a power of two is served, if the sizes do not overflow and `operator new`
  -- returns memory apart from the chunks: the block is aligned and lies in the current chunk, the arena
  -- stays valid, and every block handed out before stays so and is apart from it.
  pub allocate_lem :
      (p : ℕ) × (a' : Arena) × (c' : Chunk) × (cs' : List Chunk) × (allocate new_at a size alignment
        ≡ some (allocated p a'))
      × Served a c cs size alignment p a' c' cs'
  unfolding allocate allocate_grown
  allocate_lem = elim (align-cases alignment size a.current (end c - a.current) power) [
    | inr (p, e, lo, al, hi) ↦ (
      p,
      record a { current = p + size },
      c,
      cs,
      ground (arith, v.first, e),
      fits a c cs v size alignment p lo al (omega (arith, v.to_end)),
    )
    | inl (e, lt) ↦
        elim (align-cases alignment size (begin fresh_chunk) (end fresh_chunk - begin fresh_chunk)
          power) [
            | inl (e', lt') ↦ absurd (omega (arith, lt'))
            | inr (p, e', lo, al, hi) ↦ (
              p,
              record {
                current = p + size;
                current_chunk = some fresh_chunk;
                chunks = fresh_chunk ∷ a.chunks;
              },
              fresh_chunk,
              c ∷ cs,
              ground (arith, v.first, e, e', grow-eq),
              grows a c cs v size alignment p fresh_chunk refl fresh lo al (omega arith),
            )
          ]
  ]
