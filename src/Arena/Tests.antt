-- ===== src/Arena/Tests.antt =====
-- source/allocator/arena_allocator.cpp at concrete arenas, and the theorems at them.
use mclo.Common.{
  ℕ, ◌+◌, ◌*◌, ◌^◌, ◌<◌, ◌≡◌, refl, subst, max, true, none, some, List, [], ◌∷◌, inr, arith,
}
use mclo.Arena.{
  Chunk, Arena, begin, is_power, is_alignment, align, allocated, allocate, reset, reset_consolidate,
}
use mclo.Arena.Inv.{Block, IsFresh, AreSound, InSome, IsValid, IsTaken, Apart}
use mclo.Arena.Allocate.{Served, allocate_lem}
use mclo.Arena.Steps.{Runs, done, request, AllApart, ApartFromAll, runs_lem}
use mclo.Arena.Reuse.{capacity, reset_lem, reset_consolidate_lem}

sixteen : is_alignment 16 ≡ true
unfolding is_power
sixteen = refl

-- No other alignment is defined.
twenty_four : align 24 8 4096 64 ≡ none
unfolding align is_power
twenty_four = refl

abbrev chunk : Chunk
chunk = record { address = 4096; obtained = 80; size = 64 }

-- A chunk of 64 bytes, 8 of which are handed out.
abbrev sample : Arena
sample = record { current = 4120; current_chunk = some chunk; chunks = chunk ∷ [] }

sample-IsValid : IsValid sample chunk []
unfolding AreSound IsFresh
sample-IsValid = record {
  all = refl;
  first = refl;
  from_begin = omega arith;
  to_end = omega arith;
  sound = (refl, tt, tt);
}

abbrev after : Arena
after = record sample { current = 4144 }

served : allocate 8192 sample 16 16 ≡ some (allocated 4128 after)
unfolding allocate align is_power
served = refl

far-IsFresh : (n : ℕ) → n < 2 ^ 64 → IsFresh 8192 n (chunk ∷ [])
unfolding IsFresh Apart
far-IsFresh n lt = (inr (omega arith), tt)

allocate_lem_example :
    (p : ℕ) × (a' : Arena) × (c' : Chunk) × (cs' : List Chunk) × (allocate 8192 sample 100 16
      ≡ some (allocated p a'))
    × Served sample chunk [] 100 16 p a' c' cs'
allocate_lem_example =
    allocate_lem 8192 sample chunk [] sample-IsValid 100 16 sixteen (omega arith)
      (far-IsFresh 144 (omega arith))

abbrev last : Arena
last = record sample { current = 4160 }

served_again : allocate 8192 after 16 16 ≡ some (allocated 4144 last)
unfolding allocate align is_power
served_again = refl

request-small : (c : Chunk) → some chunk ≡ some c → 16 + max (16 + 16) (c.size * 2) < 2 ^ 64
request-small c e =
    let same : chunk ≡ c = cc in
    subst (λ x. 16 + max (16 + 16) (x.size * 2) < 2 ^ 64) same (omega arith)

request-fresh :
    (c : Chunk) → some chunk ≡ some c → IsFresh 8192 (16 + max (16 + 16) (c.size * 2)) (chunk ∷ [])
request-fresh c e = far-IsFresh (16 + max (16 + 16) (c.size * 2)) (request-small c e)

abbrev blocks : List Block
blocks = record { at = 4128; size = 16 } ∷ record { at = 4144; size = 16 } ∷ []

sample-Runs : Runs sample blocks last
sample-Runs =
    request 8192 16 16 4128
      (record { aligned = sixteen; small = request-small; fresh = request-fresh }) served
      (request 8192 16 16 4144
        (record { aligned = sixteen; small = request-small; fresh = request-fresh }) served_again
        done)

runs_lem_example :
    (c' : Chunk) × (cs' : List Chunk) × IsValid last c' cs'
    × AllApart blocks
    × ((b : Block) → IsTaken sample chunk [] b → ApartFromAll b blocks × IsTaken last c' cs' b)
runs_lem_example = runs_lem chunk [] sample-IsValid sample-Runs

abbrev newer : Chunk
newer = record { address = 8192; obtained = 144; size = 128 }

-- The arena after it has grown once.
abbrev grown_once : Arena
grown_once = record { current = 8250; current_chunk = some newer; chunks = newer ∷ chunk ∷ [] }

grown_once-IsValid : IsValid grown_once newer (chunk ∷ [])
unfolding AreSound IsFresh Apart
grown_once-IsValid = record {
  all = refl;
  first = refl;
  from_begin = omega arith;
  to_end = omega arith;
  sound = (refl, (inr (omega arith), tt), (refl, tt, tt));
}

reset_lem_example :
    (a' : Arena) × (reset grown_once ≡ some a')
    × IsValid a' newer (chunk ∷ [])
    × (a'.current ≡ 8208)
    × ((bs : List Block) (last : Arena) (b : Block)
        → Runs a' bs last
        → InSome b (chunk ∷ [])
        → ApartFromAll b bs)
reset_lem_example = reset_lem grown_once newer (chunk ∷ []) grown_once-IsValid

reset_consolidate_lem_example :
    (c' : Chunk) × IsValid (reset_consolidate 16384 grown_once) c' []
    × (c'.size ≡ 192)
    × (c'.address ≡ 16384)
    × ((reset_consolidate 16384 grown_once).current ≡ begin c')
unfolding capacity
reset_consolidate_lem_example =
    reset_consolidate_lem grown_once newer (chunk ∷ []) grown_once-IsValid 16384 (omega arith)
