-- ===== src/Arena.antt =====
-- include/mclo/allocator/arena_allocator.hpp and source/allocator/arena_allocator.cpp: the memory arena.
--
-- Addresses are numbers, and the null pointer is zero or `none`. A chunk is the address that
-- `operator new` returned for it, what was asked of `operator new`, and its m_size. The m_next pointers
-- are the order of the list of chunks. What `operator new` will return, if it is called, is an argument.
-- `none` is undefined behaviour: a member of a chunk through a null pointer, or an alignment that is not
-- a power of two.
pub mod Inv
pub mod Allocate
pub mod Steps
pub mod Reuse
mod Tests
use mclo.Common.{
  ℕ, ◌+◌, ◌-◌, ◌*◌, ◌/◌, ◌%◌, ◌^◌, max, zero, suc, Bool, true, false, ◌==◌, ◌||◌, Option, none,
  some, List, [], ◌∷◌, ltb, if◌then◌else◌, ◌>>=◌,
}

pub record Chunk : Type 0 where
  pub address : ℕ
  pub obtained : ℕ
  pub size : ℕ

pub record Arena : Type 0 where
  pub current : ℕ
  pub current_chunk : Option Chunk
  pub chunks : List Chunk

-- `sizeof( chunk )`: a pointer and a `std::size_t`.
abbrev pub header_size : ℕ
header_size = 16

-- What `std::size_t` holds of a number.
abbrev pub wrap : ℕ → ℕ
wrap n = n % 2 ^ 64

abbrev pub begin : Chunk → ℕ
begin c = c.address + header_size

abbrev pub end : Chunk → ℕ
end c = begin c + c.size

-- The constructor without arguments.
abbrev pub empty : Arena
empty = record { current = 0; current_chunk = none; chunks = [] }

unfoldable pub is_power : ℕ → ℕ → Bool
is_power zero n = false
is_power (suc k) n = n == 2 ^ k || is_power k n

-- An alignment is one of the powers of two that a `std::size_t` holds.
abbrev pub is_alignment : ℕ → Bool
is_alignment n = is_power 64 n

-- `std::align`: the first aligned address, if the size fits behind it; undefined unless the alignment is a
-- power of two.
unfoldable pub align : ℕ → ℕ → ℕ → ℕ → Option (Option ℕ)
align alignment size ptr space =
    let aligned = (ptr + (alignment - 1)) / alignment * alignment in
    if is_alignment alignment
    then some (if ltb space (size + (aligned - ptr)) then none else some aligned)
    else none

-- `operator new` returns `new_at`.
unfoldable pub allocate_chunk : ℕ → ℕ → Chunk
allocate_chunk new_at size = record {
  address = new_at;
  obtained = wrap (header_size + size);
  size = size;
}

unfoldable pub grow : ℕ → Arena → ℕ → Arena
unfolding allocate_chunk
grow new_at a size =
    let new_chunk = allocate_chunk new_at size in
    record {
      current = begin new_chunk;
      current_chunk = some new_chunk;
      chunks = new_chunk ∷ a.chunks;
    }

-- The constructor with a size.
unfoldable pub with_size : ℕ → ℕ → Arena
with_size new_at size = grow new_at empty size

pub data Allocated : Type 0 where
  allocated : ℕ → Arena → Allocated
  bad_alloc : Arena → Allocated

-- The second attempt, after the arena has grown.
unfoldable pub allocate_grown : Arena → ℕ → ℕ → Option Allocated
allocate_grown a size alignment = do
  c ← a.current_chunk
  found ← align alignment size a.current (end c - a.current)
  some (elim found [
    | none ↦ bad_alloc a
    | some ptr ↦ allocated ptr (record a { current = ptr + size })
  ])

unfoldable pub allocate : ℕ → Arena → ℕ → ℕ → Option Allocated
allocate new_at a size alignment = do
  c ← a.current_chunk
  found ← align alignment size a.current (end c - a.current)
  elim found [
    | none ↦
        allocate_grown (grow new_at a (max (wrap (size + alignment)) (wrap (c.size * 2)))) size
          alignment
    | some ptr ↦ some (allocated ptr (record a { current = ptr + size }))
  ]

unfoldable pub reset : Arena → Option Arena
reset a = elim a.chunks [
  | [] ↦ none
  | c ∷ cs ↦ some (record a { current = begin c; current_chunk = some c })
]

pub total_size : List Chunk → ℕ
total_size [] = 0
total_size (c ∷ cs) = wrap (c.size + total_size cs)

-- The chunks are given back before the new one is allocated.
unfoldable pub reset_consolidate : ℕ → Arena → Arena
unfolding allocate_chunk total_size
reset_consolidate new_at a =
    let c = allocate_chunk new_at (total_size a.chunks) in
    record { current = begin c; current_chunk = some c; chunks = c ∷ [] }

unfoldable pub release : Arena → Arena
release a = empty

-- The moves: the target, and the source after it.
pub move_construct : Arena → Arena × Arena
move_construct other = (other, empty)

-- What the target had is released first, and it keeps nothing of it.
pub move_assign : Arena → Arena → Arena × Arena
move_assign a other = (other, empty)
