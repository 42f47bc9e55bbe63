-- ===== src/CircularBuffer/Push.antt =====
-- `emplace_back` and `emplace_front` of include/mclo/container/circular_buffer.hpp, which
-- `push_back` and `push_front` call.
use mclo.Common.{
  ◌+◌, ◌-◌, ◌≡◌, some, List, [], ◌∷◌, if◌then◌else◌, arith, set, length-set, length-append,
  get_elem?-set, get_elem?-snoc, get_elem?-cons, get_elem?-drop, get_elem?-take, get_elem?-some,
  length-drop, length-take, drop, take,
}
use mclo.Storage.{load}
use mclo.Deque
use mclo.CircularBuffer.{CircularBuffer, emplace_back, emplace_front, increment, decrement, full}
use mclo.CircularBuffer.Inv.{position, Holds}

module _ {A : Type 0} (b : CircularBuffer A) {xs : List A} (x : A) (h : Holds b xs) where
  -- The buffer that `emplace_back` leaves.
  abbrev after_back : CircularBuffer A
  after_back =
      if full b
      then record b {
        cells = set b.cells b.tail (some x);
        head = increment b b.tail;
        tail = increment b b.tail;
      }
      else record b {
        cells = set b.cells b.tail (some x);
        tail = increment b b.tail;
        size = b.size + 1;
      }

  after_back-Holds : Holds after_back (Deque.push_back b.data_end xs x)
  unfolding increment
  after_back-Holds = record {
    ends = ground (arith, length-set b.cells b.tail (some x));
    head_in = ground arith;
    tail_in = ground arith;
    size_in = ground arith;
    counted =
        ground
          (arith, length-drop 1 xs, length-append (drop 1 xs) (x ∷ []), length-append xs (x ∷ []));
    tail_at = ground arith;
    reads = λ i lt. ground (
      arith,
      h.reads i,
      h.reads (i + 1),
      get_elem?-set b.cells b.tail (position after_back.head after_back.data_end i) (some x),
      get_elem?-snoc xs x i,
      get_elem?-snoc (drop 1 xs) x i,
      length-drop 1 xs,
      get_elem?-drop 1 xs i,
    );
  }

  -- The buffer that `emplace_front` leaves.
  abbrev after_front : CircularBuffer A
  after_front =
      let head = decrement b b.head in
      let cells = set b.cells head (some x) in
      if full b
      then record b { cells = cells; head = head; tail = head }
      else record b { cells = cells; head = head; size = b.size + 1 }

  after_front-Holds : Holds after_front (Deque.push_front b.data_end xs x)
  unfolding decrement
  after_front-Holds = record {
    ends = ground (arith, length-set b.cells (decrement b b.head) (some x));
    head_in = ground arith;
    tail_in = ground arith;
    size_in = ground arith;
    counted = ground (arith, length-take (b.data_end - 1) xs);
    tail_at = ground arith;
    reads = λ i lt. ground (
      arith,
      h.reads (i - 1),
      get_elem?-set b.cells (decrement b b.head) (position after_front.head after_front.data_end i)
          (some x),
      get_elem?-cons x (take (b.data_end - 1) xs) i,
      get_elem?-cons x xs i,
      get_elem?-take (b.data_end - 1) xs (i - 1),
    );
  }

  emplace_back-eq : emplace_back b x ≡ some (b.tail, after_back)
  unfolding emplace_back
  emplace_back-eq = ground (arith, h.reads 0, get_elem?-some xs 0)

  emplace_front-eq : emplace_front b x ≡ some (after_front.head, after_front)
  unfolding emplace_front
  emplace_front-eq = ground (arith, h.reads (b.data_end - 1), get_elem?-some xs (b.data_end - 1))

  -- Pushing at the back of a buffer that holds a list is defined; the buffer left has the same
  -- capacity and holds the deque after its push, which drops the oldest element if it was full;
  -- and the new element is at the position returned.
  pub emplace_back_refines :
      (b' : CircularBuffer A) × (emplace_back b x ≡ some (b.tail, b'))
      × Holds b' (Deque.push_back b.data_end xs x)
      × (b'.data_end ≡ b.data_end)
      × (load b'.cells b.tail ≡ some x)
  unfolding load
  emplace_back_refines = (
    after_back,
    emplace_back-eq,
    after_back-Holds,
    ground arith,
    ground (arith, get_elem?-set b.cells b.tail b.tail (some x)),
  )

  -- Pushing at the front of a buffer that holds a list is defined; the buffer left has the same
  -- capacity, holds the deque after its push, which drops the newest element if it was full, and
  -- has the new element at its head, the position returned.
  pub emplace_front_refines :
      (b' : CircularBuffer A) × (emplace_front b x ≡ some (b'.head, b'))
      × Holds b' (Deque.push_front b.data_end xs x)
      × (b'.data_end ≡ b.data_end)
      × (load b'.cells b'.head ≡ some x)
  unfolding load decrement
  emplace_front_refines = (
    after_front,
    emplace_front-eq,
    after_front-Holds,
    ground arith,
    ground (arith, get_elem?-set b.cells (decrement b b.head) (decrement b b.head) (some x)),
  )
