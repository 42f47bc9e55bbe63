-- ===== src/CircularBuffer.antt =====
-- include/mclo/container/circular_buffer.hpp: the ring buffer that overwrites when it is full.
--
-- A pointer into the storage is its offset from `m_data`, so `m_data` itself is 0. A cell of the
-- storage holds `none` where no object is alive. An operation that reads or writes outside the
-- storage, or uses an object that is not alive, is `none`: undefined behaviour.
pub mod Assign
pub mod Inv
pub mod Push
pub mod Spans
pub mod Resize
pub mod Clear
pub mod Copy
pub mod Pop
pub mod Iterator
pub mod Iterate
pub mod Erase
pub mod Contiguous
pub mod Run
mod Tests
use mclo.Common.{
  ℕ, ◌+◌, ◌-◌, Option, none, some, List, [], Bool, not, ◌&&◌, ltb, leb, ◌==◌, if◌then◌else◌,
  require, ◌>>=◌, min, replicate,
}
use mclo.Storage.{load, construct, assign, destroy, read_n, construct_all, destroy_n, move_n}

pub record CircularBuffer (A : Type 0) : Type 0 where
  pub cells : List (Option A)
  pub data_end : ℕ
  pub head : ℕ
  pub tail : ℕ
  pub size : ℕ

-- A `span`, by its two ends.
pub record Span : Type 0 where
  pub first : ℕ
  pub last : ℕ

-- What `at` returns, or throws.
pub data Checked (A : Type 0) : Type 0 where
  value : A → Checked A
  out_of_range : Checked A

module _ {A : Type 0} where
  abbrev pub capacity : CircularBuffer A → ℕ
  capacity b = b.data_end

  abbrev pub is_empty : CircularBuffer A → Bool
  is_empty b = b.size == 0

  abbrev pub full : CircularBuffer A → Bool
  full b = b.size == capacity b

  -- The four overloads that move a pointer round the storage.
  pub increment : CircularBuffer A → ℕ → ℕ
  increment b ptr = if ptr + 1 == b.data_end then 0 else ptr + 1

  pub decrement : CircularBuffer A → ℕ → ℕ
  decrement b ptr = (if ptr == 0 then b.data_end else ptr) - 1

  pub increment_by : CircularBuffer A → ℕ → ℕ → ℕ
  increment_by b ptr count =
      if ltb count (b.data_end - ptr) then ptr + count else ptr + count - b.data_end

  pub decrement_by : CircularBuffer A → ℕ → ℕ → ℕ
  decrement_by b ptr count = if ltb ptr count then ptr + b.data_end - count else ptr - count

  -- A default-constructed buffer: every pointer is null.
  pub empty : CircularBuffer A
  empty = record { cells = []; data_end = 0; head = 0; tail = 0; size = 0 }

  pub front : CircularBuffer A → Option A
  unfolding load
  front b = require (not (is_empty b)) (load b.cells b.head)

  -- `m_tail[ -1 ]`
  pub back : CircularBuffer A → Option A
  unfolding load
  back b = require (not (is_empty b)) (if b.tail == 0 then none else load b.cells (b.tail - 1))

  pub index : CircularBuffer A → ℕ → Option A
  unfolding load increment_by
  index b i = require (ltb i b.size) (load b.cells (increment_by b b.head i))

  pub at : CircularBuffer A → ℕ → Option (Checked A)
  unfolding index
  at b i = if leb b.size i then some out_of_range else (do x ← index b i; some (value x))

  pub as_contiguous : CircularBuffer A → Span × Span
  as_contiguous b =
      let wraps_around = leb b.tail b.head && not (is_empty b) in
      (
        record { first = b.head; last = if wraps_around then b.data_end else b.tail },
        record { first = 0; last = if wraps_around then b.tail else 0 },
      )

  -- Reading all that a span covers.
  pub read_span : List (Option A) → Span → Option (List A)
  unfolding read_n
  read_span cells s = read_n cells s.first (s.last - s.first)

  -- The position of the new element stands for the reference that is returned.
  pub emplace_back : CircularBuffer A → A → Option (ℕ × CircularBuffer A)
  unfolding construct assign increment
  emplace_back b x =
      if full b
      then (do
        cells ← assign b.cells b.tail x
        let tail = increment b b.tail
        some (b.tail, record b { cells = cells; head = tail; tail = tail }))
      else (do
        cells ← construct b.cells b.tail x
        some (b.tail, record b { cells = cells; tail = increment b b.tail; size = b.size + 1 }))

  pub pop_back : CircularBuffer A → Option (CircularBuffer A)
  unfolding destroy decrement
  pop_back b = require (not (is_empty b)) (do
    let tail = decrement b b.tail
    cells ← destroy b.cells tail
    some (record b { cells = cells; tail = tail; size = b.size - 1 }))

  pub emplace_front : CircularBuffer A → A → Option (ℕ × CircularBuffer A)
  unfolding construct assign decrement
  emplace_front b x =
      let head = decrement b b.head in
      if full b
      then (do
        cells ← assign b.cells head x
        some (head, record b { cells = cells; head = head; tail = head }))
      else (do
        cells ← construct b.cells head x
        some (head, record b { cells = cells; head = head; size = b.size + 1 }))

  pub pop_front : CircularBuffer A → Option (CircularBuffer A)
  unfolding destroy increment
  pop_front b = require (not (is_empty b)) (do
    cells ← destroy b.cells b.head
    some (record b { cells = cells; head = increment b b.head; size = b.size - 1 }))

  -- The storage is exchanged for `cells`; the old one is deallocated.
  pub set_data : List (Option A) → ℕ → ℕ → Option (CircularBuffer A)
  set_data cells new_size new_capacity = require (leb new_size new_capacity) (
      some (record {
        cells = cells;
        data_end = new_capacity;
        head = 0;
        tail = new_size;
        size = new_size;
      }))

  -- Constructing the elements of both spans from the start of a storage on.
  pub transfer : CircularBuffer A → List (Option A) → Option (List (Option A))
  transfer b cells =
      let (first_span, second_span) = as_contiguous b in
      do
        xs ← read_span b.cells first_span
        cells' ← construct_all cells 0 xs
        ys ← read_span b.cells second_span
        construct_all cells' (first_span.last - first_span.first) ys

  pub resize : CircularBuffer A → ℕ → Option (CircularBuffer A)
  resize b new_capacity = if new_capacity == capacity b then some b else (do
    let new_data = replicate new_capacity none
    cells ← (if is_empty b then some new_data else transfer b new_data)
    set_data cells (min new_capacity b.size) new_capacity)

  pub shrink_to_fit : CircularBuffer A → Option (CircularBuffer A)
  shrink_to_fit b = resize b b.size

  pub destroy_internal : CircularBuffer A → Option (List (Option A))
  destroy_internal b =
      let (first_span, second_span) = as_contiguous b in
      do
        cells ← destroy_n b.cells first_span.first (first_span.last - first_span.first)
        destroy_n cells second_span.first (second_span.last - second_span.first)

  pub clear : CircularBuffer A → Option (CircularBuffer A)
  clear b = do
    cells ← destroy_internal b
    some (record b { cells = cells; size = 0; head = 0; tail = 0 })

  -- The constructor from a capacity.
  pub with_capacity : ℕ → Option (CircularBuffer A)
  with_capacity n = resize empty n
