-- ===== src/CircularBuffer/Pop.antt =====
-- `pop_back`, `pop_front` and the element access of include/mclo/container/circular_buffer.hpp.
use mclo.Common.{
  ℕ, ◌+◌, ◌-◌, ◌≡◌, ◌≢◌, none, some, List, arith, set, length-set, get_elem?, get_elem?-set,
  get_elem?-drop, get_elem?-take, get_elem?-some, get_elem?-none, length-drop, length-take, length,
  if◌then◌else◌, ltb, ◌==◌,
}
use mathlib.Core.Option
use mclo.Deque
use mclo.CircularBuffer.{
  CircularBuffer, pop_back, pop_front, increment, decrement, front, back, index, at, value,
  out_of_range,
}
use mclo.CircularBuffer.Inv.{position, Holds}

module _ {A : Type 0} (b : CircularBuffer A) {xs : List A} (h : Holds b xs) where
  abbrev after_back : CircularBuffer A
  after_back = record b {
    cells = set b.cells (decrement b b.tail) none;
    tail = decrement b b.tail;
    size = b.size - 1;
  }

  after_back-Holds : b.size ≢ 0 → Holds after_back (Deque.pop_back xs)
  unfolding decrement
  after_back-Holds ne = record {
    ends = ground (arith, length-set b.cells (decrement b b.tail) none);
    head_in = ground arith;
    tail_in = ground arith;
    size_in = ground arith;
    counted = ground (arith, length-take (length xs - 1) xs);
    tail_at = ground arith;
    reads = λ i lt. ground (
      arith,
      h.reads i,
      get_elem?-set b.cells (decrement b b.tail) (position b.head b.data_end i) none,
      get_elem?-take (length xs - 1) xs i,
      get_elem?-none xs i,
    );
  }

  abbrev after_front : CircularBuffer A
  after_front = record b {
    cells = set b.cells b.head none;
    head = increment b b.head;
    size = b.size - 1;
  }

  after_front-Holds : b.size ≢ 0 → Holds after_front (Deque.pop_front xs)
  unfolding increment
  after_front-Holds ne = record {
    ends = ground (arith, length-set b.cells b.head none);
    head_in = ground arith;
    tail_in = ground arith;
    size_in = ground arith;
    counted = ground (arith, length-drop 1 xs);
    tail_at = ground arith;
    reads = λ i lt. ground (
      arith,
      h.reads i,
      h.reads (i + 1),
      h.reads 0,
      get_elem?-set b.cells b.head (position after_front.head b.data_end i) none,
      get_elem?-drop 1 xs i,
      get_elem?-none xs (i + 1),
    );
  }

  -- Popping at the back of a buffer that is not empty is defined, and leaves a buffer of the same
  -- capacity that holds all elements but the newest.
  pub pop_back_refines :
      b.size ≢ 0
      → (b' : CircularBuffer A) × (pop_back b ≡ some b')
        × Holds b' (Deque.pop_back xs)
        × (b'.data_end ≡ b.data_end)
  unfolding pop_back
  pop_back_refines ne = (
    after_back,
    ground (arith, h.reads (b.size - 1), get_elem?-some xs (b.size - 1)),
    after_back-Holds ne,
    ground arith,
  )

  -- Popping at the front of a buffer that is not empty is defined, and leaves a buffer of the same
  -- capacity that holds all elements but the oldest.
  pub pop_front_refines :
      b.size ≢ 0
      → (b' : CircularBuffer A) × (pop_front b ≡ some b')
        × Holds b' (Deque.pop_front xs)
        × (b'.data_end ≡ b.data_end)
  unfolding pop_front
  pop_front_refines ne = (
    after_front,
    ground (arith, h.reads 0, get_elem?-some xs 0),
    after_front-Holds ne,
    ground arith,
  )

  -- The operator [] reads the held list at its index, and is undefined outside it; `at` returns the
  -- same element, and throws outside; `front` reads the oldest element, and is undefined on an
  -- empty buffer.
  pub access_lem :
      (i : ℕ)
      → (index b i ≡ get_elem? xs i)
        × (at b i
            ≡ (if ltb i (length xs) then Option.map value (get_elem? xs i) else some out_of_range))
        × (front b ≡ get_elem? xs 0)
  unfolding index at front
  access_lem i = (
    ground (arith, h.reads i, get_elem?-none xs i, get_elem?-some xs i),
    ground (arith, h.reads i, get_elem?-some xs i),
    ground (arith, h.reads 0, get_elem?-none xs 0, get_elem?-some xs 0),
  )

  -- `back` reads the newest element, except where the tail stands at the start of the storage:
  -- there its behaviour is undefined, however many elements the buffer holds.
  pub back_lem : back b ≡ (if b.tail == 0 then none else get_elem? xs (b.size - 1))
  unfolding back
  back_lem = ground (arith, h.reads (b.size - 1), get_elem?-none xs 0)
