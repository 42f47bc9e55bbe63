-- ===== src/Arena/Inv.antt =====
-- When an arena of source/allocator/arena_allocator.cpp is well formed, and what it has handed out.
use mclo.Common.{ℕ, ◌+◌, ◌≤◌, ◌≡◌, some, List, [], ◌∷◌, ◌⊎◌}
use mclo.Arena.{Chunk, Arena, header_size, begin, end}

pub record Block : Type 0 where
  pub at : ℕ
  pub size : ℕ

-- No byte is in both.
unfoldable pub Apart : ℕ → ℕ → ℕ → ℕ → Type 0
Apart p m q n = (p + m ≤ q) ⊎ (q + n ≤ p)

-- The memory of a chunk, given by its address and its length, is apart from that of each of the others.
unfoldable pub IsFresh : ℕ → ℕ → List Chunk → Type 0
IsFresh p m [] = Unit
IsFresh p m (c ∷ cs) = Apart p m c.address c.obtained × IsFresh p m cs

-- The chunks got the memory that their sizes say, apart from one another.
unfoldable pub AreSound : List Chunk → Type 0
AreSound [] = Unit
AreSound (c ∷ cs) =
    (c.obtained ≡ header_size + c.size) × IsFresh c.address c.obtained cs × AreSound cs

pub record IsIn (b : Block) (c : Chunk) : Type 0 where
  pub from_begin : begin c ≤ b.at
  pub to_end : b.at + b.size ≤ end c

unfoldable pub InSome : Block → List Chunk → Type 0
InSome b [] = ⊥
InSome b (c ∷ cs) = IsIn b c ⊎ InSome b cs

-- The current chunk is the first one, and the current address is in it.
pub record IsValid (a : Arena) (c : Chunk) (cs : List Chunk) : Type 0 where
  pub all : a.chunks ≡ c ∷ cs
  pub first : a.current_chunk ≡ some c
  pub from_begin : begin c ≤ a.current
  pub to_end : a.current ≤ end c
  pub sound : AreSound (c ∷ cs)

-- A block that the arena will not hand out again: in the current chunk before the current address, or
-- in another chunk.
unfoldable pub IsTaken : Arena → Chunk → List Chunk → Block → Type 0
IsTaken a c cs b = (IsIn b c × (b.at + b.size ≤ a.current)) ⊎ InSome b cs

unfoldable pub IsApart : Block → Block → Type 0
IsApart b d = Apart b.at b.size d.at d.size
