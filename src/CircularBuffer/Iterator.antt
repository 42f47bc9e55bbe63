-- ===== src/CircularBuffer/Iterator.antt =====
-- `circular_buffer_iterator` of include/mclo/container/circular_buffer.hpp, and the two `erase`
-- methods that move elements through it. An iterator is its `m_ptr`, null behind the last element;
-- the buffer that it points to is the first argument of each operation.
-- The assertions of `erase` that a position is between begin() and end() are left out.
use mclo.Common.{
  ℕ, zero, suc, ◌+◌, ◌-◌, Option, none, some, not, ltb, ◌==◌, if◌then◌else◌, require, ◌>>=◌,
}
use mclo.Storage.{load, assign, destroy}
use mclo.CircularBuffer.{
  CircularBuffer, increment, decrement, increment_by, decrement_by, is_empty, pop_back,
}

abbrev pub Iterator : Type 0
Iterator = Option ℕ

module _ {A : Type 0} where
  abbrev pub begin : CircularBuffer A → Iterator
  begin b = if is_empty b then none else some b.head

  abbrev pub end : CircularBuffer A → Iterator
  end b = none

  -- An iterator that has reached the tail becomes null.
  abbrev at_tail : CircularBuffer A → ℕ → Iterator
  at_tail b p = if p == b.tail then none else some p

  -- `operator*`
  unfoldable pub deref : CircularBuffer A → Iterator → Option A
  deref b it = it >>= load b.cells

  -- `operator++`
  unfoldable pub next : CircularBuffer A → Iterator → Option Iterator
  next b it = do p ← it; some (at_tail b (increment b p))

  -- `operator--`, with its assertion that the pointer is not at `m_data`.
  unfoldable pub prev : CircularBuffer A → Iterator → Option Iterator
  prev b none = some (some (decrement b b.tail))
  prev b (some p) = require (not (p == 0)) (some (some (decrement b p)))

  -- `operator+=` and `operator-=` with an amount that is not negative; each calls the other with
  -- the opposite of a negative amount.
  unfoldable pub advance : CircularBuffer A → Iterator → ℕ → Option Iterator
  advance b it zero = some it
  advance b it (suc n) = do p ← it; some (at_tail b (increment_by b p (suc n)))

  unfoldable pub retreat : CircularBuffer A → Iterator → ℕ → Option Iterator
  retreat b it zero = some it
  retreat b none (suc n) = some (some (decrement_by b b.tail (suc n)))
  retreat b (some p) (suc n) = some (some (decrement_by b p (suc n)))

  -- Where the iterator would point if the elements stood at the start of the storage. Differences
  -- and comparisons of iterators are those of these offsets.
  unfoldable pub contiguous_ptr : CircularBuffer A → Iterator → ℕ
  contiguous_ptr b none = b.size
  contiguous_ptr b (some p) = if ltb p b.head then p + (b.data_end - b.head) else p - b.head

  -- `std::move` from a range of `n` elements to a destination.
  unfoldable pub move_range :
      ℕ → CircularBuffer A → Iterator → Iterator → Option (CircularBuffer A × Iterator)
  move_range zero b first dest = some (b, dest)
  move_range (suc n) b first dest = do
    x ← deref b first
    q ← dest
    cells ← assign b.cells q x
    first' ← next b first
    dest' ← next b dest
    move_range n (record b { cells = cells }) first' dest'

  -- The number of elements from an iterator to the end.
  abbrev to_end : CircularBuffer A → Iterator → ℕ
  to_end b it = contiguous_ptr b (end b) - contiguous_ptr b it

  -- `erase` of one position: what is left, and the iterator returned.
  unfoldable pub erase : CircularBuffer A → Iterator → Option (CircularBuffer A × Iterator)
  erase b pos = do
    first ← advance b pos 1
    (moved, _) ← move_range (to_end b first) b first pos
    b' ← pop_back moved
    some (b', pos)

  -- `std::destroy` over a range of `n` elements.
  unfoldable pub destroy_range : ℕ → CircularBuffer A → Iterator → Option (CircularBuffer A)
  destroy_range zero b it = some b
  destroy_range (suc n) b it = do
    p ← it
    cells ← destroy b.cells p
    it' ← next b it
    destroy_range n (record b { cells = cells }) it'

  -- `erase` of a range.
  unfoldable pub erase_range :
      CircularBuffer A → Iterator → Iterator → Option (CircularBuffer A × Iterator)
  erase_range b first last =
      if contiguous_ptr b first == contiguous_ptr b last then some (b, first) else (do
        (moved, new_last) ← move_range (to_end b last) b last first
        let count = to_end moved new_last
        left ← destroy_range count moved new_last
        let tail = decrement_by left left.tail count
        some (record left { tail = tail; size = left.size - count }, first))
