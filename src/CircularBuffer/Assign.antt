-- ===== src/CircularBuffer/Assign.antt =====
-- Copying, moving, swapping and making contiguous: the rest of the operations of
-- include/mclo/container/circular_buffer.hpp.
use mclo.Common.{◌+◌, ◌-◌, Option, some, [], Bool, leb, if◌then◌else◌, ◌>>=◌}
use mclo.Storage.{destroy_n, move_n}
use mclo.CircularBuffer.{CircularBuffer, Span, empty, clear, resize, transfer, is_empty, full}

module _ {A : Type 0} where
  -- The copy constructor.
  unfoldable pub copy_construct : CircularBuffer A → Option (CircularBuffer A)
  copy_construct other = do
    b ← resize empty other.size
    cells ← transfer other b.cells
    some (record b { cells = cells })

  -- Copy assignment from another buffer, where the allocators are equal.
  unfoldable pub copy_assign : CircularBuffer A → CircularBuffer A → Option (CircularBuffer A)
  copy_assign b other = do
    cleared ← clear b
    resized ← resize cleared other.size
    cells ← transfer other resized.cells
    some (record resized { cells = cells })

  -- The move constructors: the new buffer and what is left of the old one.
  unfoldable pub move_construct : CircularBuffer A → CircularBuffer A × CircularBuffer A
  move_construct other = (other, empty)

  -- Move assignment from another buffer: `propagate` is the allocator's trait
  -- `propagate_on_container_move_assignment`, `equal` whether the allocators are equal.
  -- Where the trait holds, `m_head` and `m_tail` keep the address of the storage that was freed.
  unfoldable pub move_assign :
      Bool
      → Bool
      → CircularBuffer A
      → CircularBuffer A
      → Option (CircularBuffer A × CircularBuffer A)
  move_assign propagate equal b other = do
    cleared ← clear b
    if propagate
        then some (record cleared { cells = []; data_end = 0 }, other)
        else if equal
        then some (other, empty)
        else (do
          resized ← resize cleared other.size
          cells ← transfer other resized.cells
          other' ← clear other
          some (record resized { cells = cells }, other'))

  unfoldable pub swap : CircularBuffer A → CircularBuffer A → CircularBuffer A × CircularBuffer A
  swap b other = (other, b)

  unfoldable pub make_contiguous : CircularBuffer A → Option (Span × CircularBuffer A)
  unfolding move_n destroy_n
  make_contiguous b =
      if is_empty b
      then some (record { first = 0; last = 0 }, b)
      else if full b
      then some (record { first = 0; last = b.size }, record b { head = 0; tail = b.size })
      else if leb b.head b.tail
      then some (record { first = b.head; last = b.tail }, b)
      else (do
        let first_size = b.data_end - b.head
        moved ← move_n b.cells b.head first_size b.tail
        cells ← destroy_n moved b.head first_size
        let b' = record b { cells = cells; head = 0; tail = b.tail + first_size }
        some (record { first = 0; last = b.size }, b'))
