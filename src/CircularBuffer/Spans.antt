-- ===== src/CircularBuffer/Spans.antt =====
-- `as_contiguous`, and moving all elements to another storage, of include/mclo/container/circular_buffer.hpp.
use mclo.Common.{
  ℕ, ◌+◌, ◌-◌, ◌≡◌, ◌∙◌, sym, ap, subst, some, Option, List, ◌++◌, arith, get_elem?, get_elem?-drop,
  get_elem?-take, length-drop, length-take, length, take, drop, min, take-append-drop, ◌>>=◌,
}
use mclo.Storage.{read_n, construct_all}
use mclo.Storage.Laws.{construct_all-append, read_n-eq}
use mclo.CircularBuffer.{CircularBuffer, as_contiguous, read_span, transfer}
use mclo.CircularBuffer.Inv.{Holds}

module _ {A : Type 0} (b : CircularBuffer A) {xs : List A} (h : Holds b xs) where
  -- The number of elements that lie before the end of the storage.
  abbrev pub front_part : ℕ
  front_part = min b.size (b.data_end - b.head)

  pub as_contiguous-eq : as_contiguous b ≡ (
    record { first = b.head; last = b.head + front_part },
    record { first = 0; last = b.size - front_part },
  )
  unfolding as_contiguous
  as_contiguous-eq = ground arith

  pub front_span : b.head + front_part - b.head ≡ front_part
  front_span = omega arith

  pub rest_span : b.size - front_part - 0 ≡ b.size - front_part
  rest_span = omega arith

  read_front : read_n b.cells b.head front_part ≡ some (take front_part xs)
  read_front =
      subst (λ n. read_n b.cells b.head n ≡ some (take front_part xs))
        (omega (arith, length-take front_part xs))
        (read_n-eq b.cells b.head (take front_part xs) λ i lt.
          ground (arith, h.reads i, length-take front_part xs, get_elem?-take front_part xs i))

  read_rest : read_n b.cells 0 (b.size - front_part) ≡ some (drop front_part xs)
  read_rest =
      subst (λ n. read_n b.cells 0 n ≡ some (drop front_part xs))
        (omega (arith, length-drop front_part xs))
        (read_n-eq b.cells 0 (drop front_part xs) λ i lt. ground (
          arith,
          h.reads (front_part + i),
          ap (get_elem? b.cells) {x = 0 + i} {y = i} (omega arith),
          length-drop front_part xs,
          get_elem?-drop front_part xs i,
        ))

  -- The two spans of `as_contiguous` cover the held list, in order.
  pub as_contiguous_lem :
      (ys zs : List A) × (read_span b.cells (as_contiguous b).0 ≡ some ys)
      × (read_span b.cells (as_contiguous b).1 ≡ some zs)
      × (ys ++ zs ≡ xs)
  unfolding read_span
  as_contiguous_lem = (
    take front_part xs,
    drop front_part xs,
    rw as_contiguous-eq (ap (read_n b.cells b.head) (omega arith) ∙ read_front),
    rw as_contiguous-eq (ap (read_n b.cells 0) (omega arith) ∙ read_rest),
    take-append-drop front_part xs,
  )

  transfer_parts :
      (cells : List (Option A))
      → transfer b cells ≡ (
          construct_all cells 0 (take front_part xs) >>= λ cells'.
          construct_all cells' front_part (drop front_part xs))
  unfolding transfer read_span
  transfer_parts cells = rw as_contiguous-eq (rw (front_span, rest_span, read_front, read_rest))

  -- Both halves go to the start of the other storage, one behind the other.
  pub transfer-eq : (cells : List (Option A)) → transfer b cells ≡ construct_all cells 0 xs
  unfolding transfer read_span
  transfer-eq cells =
      let whole : take front_part xs ++ drop front_part xs ≡ xs = take-append-drop front_part xs in
      let cut : 0 + length (take front_part xs) ≡ front_part =
        omega (arith, length-take front_part xs) in
      rw as_contiguous-eq (
        rw (front_span, rest_span, read_front, read_rest)
          (subst
            (λ k.
              (construct_all cells 0 (take front_part xs) >>= λ cells'.
              construct_all cells' k (drop front_part xs))
              ≡ construct_all cells 0 xs)
            cut
            (sym (construct_all-append cells 0 (take front_part xs) (drop front_part xs))
              ∙ ap (construct_all cells 0) whole)))
