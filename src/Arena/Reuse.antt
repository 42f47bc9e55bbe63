-- ===== src/Arena/Reuse.antt =====
-- `reset`, `reset_consolidate` and `release` of source/allocator/arena_allocator.cpp, and what is used
-- again after them.
use mclo.Common.{ℕ, ◌+◌, ◌^◌, ◌<◌, ◌≡◌, refl, ap, ◌∙◌, none, some, List, [], ◌∷◌, inr, arith}
use mclo.Arena.{
  Chunk, Arena, header_size, begin, empty, allocate_chunk, grow, with_size, allocate, reset,
  reset_consolidate, release, total_size,
}
use mclo.Arena.Inv.{Block, IsFresh, AreSound, InSome, IsValid, IsTaken}
use mclo.Arena.Steps.{Runs, ApartFromAll, runs_lem}

-- What the chunks have together.
unfoldable pub capacity : List Chunk → ℕ
capacity [] = 0
capacity (c ∷ cs) = c.size + capacity cs

total_size_lem : (cs : List Chunk) → capacity cs < 2 ^ 64 → total_size cs ≡ capacity cs
unfolding total_size capacity
total_size_lem [] h = refl
total_size_lem (c ∷ cs) h = let rest = total_size_lem cs (omega arith) in omega arith

-- An arena constructed with a size is valid.
pub with_size-IsValid :
    (new_at size : ℕ)
    → header_size + size < 2 ^ 64
    → IsValid (with_size new_at size) (allocate_chunk new_at size) []
unfolding with_size grow allocate_chunk AreSound IsFresh
with_size-IsValid new_at size small = record {
  all = refl;
  first = refl;
  from_begin = omega arith;
  to_end = omega arith;
  sound = (omega arith, tt, tt);
}

-- A released arena, or one constructed without a size, cannot be used: `allocate` and `reset` are
-- undefined on it.
pub release_lem :
    (a : Arena) (new_at size alignment : ℕ)
    → (allocate new_at (release a) size alignment ≡ none)
      × (reset (release a) ≡ none)
      × (release a ≡ empty)
unfolding allocate reset release
release_lem a new_at size alignment = (refl, refl, refl)

module _ (a : Arena) (c : Chunk) (cs : List Chunk) (v : IsValid a c cs) where
  abbrev rewound : Arena
  rewound = record a { current = begin c; current_chunk = some c }

  reset-eq : reset a ≡ some rewound
  unfolding reset
  reset-eq = ground (arith, v.all)

  rewound-IsValid : IsValid rewound c cs
  rewound-IsValid = record {
    all = v.all;
    first = refl;
    from_begin = omega arith;
    to_end = omega (arith, v.from_begin, v.to_end);
    sound = v.sound;
  }

  -- Resetting a valid arena is defined and leaves a valid one that starts again in its newest chunk. The
  -- other chunks are not used again: whatever is requested afterwards is apart from every block in them.
  pub reset_lem :
      (a' : Arena) × (reset a ≡ some a')
      × IsValid a' c cs
      × (a'.current ≡ begin c)
      × ((bs : List Block) (last : Arena) (b : Block)
          → Runs a' bs last
          → InSome b cs
          → ApartFromAll b bs)
  unfolding IsTaken
  reset_lem = (
    rewound,
    reset-eq,
    rewound-IsValid,
    refl,
    λ bs last b r i. ((runs_lem c cs rewound-IsValid r).4 b (inr i)).0,
  )

  -- Consolidating leaves a valid arena with one chunk, which has as much as all chunks had together.
  pub reset_consolidate_lem :
      (new_at : ℕ)
      → header_size + capacity (c ∷ cs) < 2 ^ 64
      → (c' : Chunk) × IsValid (reset_consolidate new_at a) c' []
        × (c'.size ≡ capacity (c ∷ cs))
        × (c'.address ≡ new_at)
        × ((reset_consolidate new_at a).current ≡ begin c')
  unfolding reset_consolidate allocate_chunk AreSound IsFresh
  reset_consolidate_lem new_at small =
      let total : total_size a.chunks ≡ capacity (c ∷ cs) =
        ap total_size v.all ∙ total_size_lem (c ∷ cs) (omega arith) in
      (
        allocate_chunk new_at (total_size a.chunks),
        record {
          all = refl;
          first = refl;
          from_begin = omega arith;
          to_end = omega arith;
          sound = (omega arith, tt, tt);
        },
        total,
        refl,
        refl,
      )
