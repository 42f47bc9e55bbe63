-- ===== src/CircularBuffer/Iterate.antt =====
-- What the iterators of include/mclo/container/circular_buffer.hpp do, by the place at which
-- they stand.
use mclo.Common.{
  ℕ, zero, suc, ◌+◌, ◌-◌, ◌<◌, ◌≤◌, ◌≡◌, none, some, List, arith, get_elem?, get_elem?-none, ◌==◌,
  if◌then◌else◌,
}
use mclo.Storage.{load}
use mclo.CircularBuffer.{CircularBuffer, increment, decrement, increment_by, decrement_by}
use mclo.CircularBuffer.Inv.{position, Holds}
use mclo.CircularBuffer.Iterator.{
  Iterator, begin, end, deref, next, prev, advance, retreat, contiguous_ptr,
}

module _ {A : Type 0} where
  -- The iterator at place `k` of a buffer.
  abbrev pub place : CircularBuffer A → ℕ → Iterator
  place b k = if k == b.size then none else some (position b.head b.data_end k)

module _ {A : Type 0} (b : CircularBuffer A) {xs : List A} (h : Holds b xs) where
  pub next_lem : (k : ℕ) → k < b.size → next b (place b k) ≡ some (place b (k + 1))
  unfolding next increment
  next_lem k lt = ground arith

  pub advance_lem :
      (k n : ℕ) → k + n ≤ b.size → k < b.size → advance b (place b k) n ≡ some (place b (k + n))
  unfolding advance increment_by
  advance_lem k zero le lt = ground arith
  advance_lem k (suc n) le lt = ground arith

  back_lem :
      (k n : ℕ) → k < b.size → k + n ≤ b.size → retreat b (place b (k + n)) n ≡ some (place b k)
  unfolding retreat decrement_by
  back_lem k zero lt le = ground arith
  back_lem k (suc n) lt le = ground arith

  pub contiguous_ptr_lem : (k : ℕ) → k ≤ b.size → contiguous_ptr b (place b k) ≡ k
  unfolding contiguous_ptr
  contiguous_ptr_lem k le = ground arith

  pub deref_lem : (k : ℕ) → k ≤ b.size → deref b (place b k) ≡ get_elem? xs k
  unfolding deref load
  deref_lem k le = ground (arith, h.reads k, get_elem?-none xs k)

  -- Iterators follow the held list: `begin` stands at place 0 and `end` behind the last element;
  -- from place `k`, in front of the end, going `n` places on within the buffer reaches place
  -- `k + n`, and going back as far returns; an increment goes one place on; the element there is
  -- the k-th; and differences of iterators are differences of places.
  pub iterators_lem :
      (k n : ℕ)
      → k < b.size
      → k + n ≤ b.size
      → (begin b ≡ place b 0)
        × (end b ≡ place b b.size)
        × (advance b (place b k) n ≡ some (place b (k + n)))
        × (retreat b (place b (k + n)) n ≡ some (place b k))
        × (next b (place b k) ≡ some (place b (k + 1)))
        × (deref b (place b k) ≡ get_elem? xs k)
        × (contiguous_ptr b (place b (k + n)) ≡ k + n)
  iterators_lem k n lt le = (
    ground arith,
    ground arith,
    advance_lem k n le lt,
    back_lem k n lt le,
    next_lem k lt,
    deref_lem k (omega arith),
    contiguous_ptr_lem (k + n) le,
  )

  -- A decrement from a place behind the first goes one place back, except where it stands at the
  -- start of the storage: there its assertion refuses it, although it is not at the first element.
  pub prev_lem :
      (k : ℕ)
      → 0 < k
      → k < b.size
      → prev b (place b k)
        ≡ (if position b.head b.data_end k == 0 then none else some (place b (k - 1)))
  unfolding prev decrement
  prev_lem k pos lt = ground arith
