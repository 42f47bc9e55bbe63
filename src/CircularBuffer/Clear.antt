-- ===== src/CircularBuffer/Clear.antt =====
-- `clear` of include/mclo/container/circular_buffer.hpp.
use mclo.Common.{
  ℕ, ◌+◌, ◌-◌, ◌<◌, ◌≡◌, ap, refl, none, some, Option, List, [], arith, get_elem?, get_elem?-some,
  get_elem?-none,
}
use mclo.Storage.{destroy_n}
use mclo.Storage.Laws.{wipe, length-wipe, get_elem?-wipe, destroy_n-eq}
use mclo.CircularBuffer.{CircularBuffer, clear, destroy_internal}
use mclo.CircularBuffer.Inv.{Holds}
use mclo.CircularBuffer.Spans.{front_part, as_contiguous-eq, front_span, rest_span}

module _ {A : Type 0} (b : CircularBuffer A) {xs : List A} (h : Holds b xs) where
  destroy_front :
      destroy_n b.cells b.head (front_part b h) ≡ some (wipe b.cells b.head (front_part b h))
  destroy_front =
      destroy_n-eq b.cells b.head (front_part b h)
        λ i lt. let (x, e) = get_elem?-some xs i (omega arith) in (x, ground (arith, h.reads i))

  abbrev wiped : List (Option A)
  wiped = wipe (wipe b.cells b.head (front_part b h)) 0 (b.size - (front_part b h))

  destroy_rest :
      destroy_n (wipe b.cells b.head (front_part b h)) 0 (b.size - (front_part b h)) ≡ some wiped
  destroy_rest =
      destroy_n-eq (wipe b.cells b.head (front_part b h)) 0 (b.size - (front_part b h)) λ i lt.
        let (x, e) = get_elem?-some xs ((front_part b h) + i) (omega arith) in
        (
          x,
          ground (
            arith,
            h.reads ((front_part b h) + i),
            get_elem?-wipe b.cells b.head (front_part b h) (0 + i),
            ap (get_elem? b.cells) {x = 0 + i} {y = i} (omega arith),
          ),
        )

  cleared-reads : (j : ℕ) → j < b.data_end → get_elem? wiped j ≡ some none
  cleared-reads j lt = ground (
    arith,
    length-wipe b.cells b.head (front_part b h),
    get_elem?-wipe (wipe b.cells b.head (front_part b h)) 0 (b.size - (front_part b h)) j,
    get_elem?-wipe b.cells b.head (front_part b h) j,
    h.reads (j - b.head),
    h.reads (j + b.data_end - b.head),
    get_elem?-none xs (j - b.head),
    get_elem?-none xs (j + b.data_end - b.head),
  )

  -- Clearing destroys every element and leaves a buffer of the same capacity that holds nothing.
  pub clear_refines :
      (b' : CircularBuffer A) × (clear b ≡ some b') × Holds b' [] × (b'.data_end ≡ b.data_end)
  unfolding clear destroy_internal
  clear_refines = (
    record b { cells = wiped; size = 0; head = 0; tail = 0 },
    rw (as_contiguous-eq b h) (rw ((front_span b h), (rest_span b h), destroy_front, destroy_rest)),
    record {
      ends = omega (
        arith,
        length-wipe (wipe b.cells b.head (front_part b h)) 0 (b.size - (front_part b h)),
        length-wipe b.cells b.head (front_part b h),
      );
      head_in = omega arith;
      tail_in = omega arith;
      size_in = omega arith;
      counted = refl;
      tail_at = ground arith;
      reads = λ i lt. ground (arith, cleared-reads i);
    },
    refl,
  )
