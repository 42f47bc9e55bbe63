-- ===== src/CircularBuffer/Contiguous.antt =====
-- `make_contiguous` of include/mclo/container/circular_buffer.hpp, in the cases that move nothing.
use mclo.Common.{
  ◌+◌, ◌-◌, ◌≡◌, ◌∙◌, ap, subst, some, List, ◌++◌, arith, length, take, drop, get_elem?,
  get_elem?-append, get_elem?-take, get_elem?-drop, length-take, length-drop, length-append,
}
use mclo.Storage.{read_n}
use mclo.Storage.Laws.{read_n-eq}
use mclo.CircularBuffer.{CircularBuffer, Span, read_span}
use mclo.CircularBuffer.Assign.{make_contiguous}
use mclo.CircularBuffer.Inv.{Holds}

module _ {A : Type 0} (b : CircularBuffer A) {xs : List A} (h : Holds b xs) where
  -- The elements in the order in which they lie in the storage of a full buffer.
  abbrev stored : List A
  stored = drop (b.data_end - b.head) xs ++ take (b.data_end - b.head) xs

  length-stored : b.size ≡ b.data_end → length stored ≡ b.size
  length-stored full = omega (
    arith,
    length-append (drop (b.data_end - b.head) xs) (take (b.data_end - b.head) xs),
    length-take (b.data_end - b.head) xs,
    length-drop (b.data_end - b.head) xs,
  )

  read_stored : b.size ≡ b.data_end → read_n b.cells 0 b.size ≡ some stored
  read_stored full =
      subst (λ n. read_n b.cells 0 n ≡ some stored) (length-stored full)
        (read_n-eq b.cells 0 stored λ i lt. ground (
          arith,
          length-stored full,
          ap (get_elem? b.cells) {x = 0 + i} {y = i} (omega arith),
          h.reads (i + b.data_end - b.head),
          h.reads (i - b.head),
          get_elem?-append (drop (b.data_end - b.head) xs) (take (b.data_end - b.head) xs) i,
          length-drop (b.data_end - b.head) xs,
          get_elem?-drop (b.data_end - b.head) xs i,
          get_elem?-take (b.data_end - b.head) xs (i - length (drop (b.data_end - b.head) xs)),
          ap (get_elem? xs) {x = b.data_end - b.head + i} {y = i + b.data_end - b.head},
          ap (get_elem? xs) {x = i - (b.size - (b.data_end - b.head))} {y = i - b.head},
        ))

  -- On a full buffer `make_contiguous` moves nothing: the span that it returns covers the elements
  -- in storage order, which is the list turned round at the end of the storage, and it leaves the
  -- tail one past the end of the storage.
  pub make_contiguous_full :
      b.size ≡ b.data_end
      → (s : Span) × (b' : CircularBuffer A) × (make_contiguous b ≡ some (s, b'))
        × (read_span b'.cells s
            ≡ some (drop (b.data_end - b.head) xs ++ take (b.data_end - b.head) xs))
        × (b'.tail ≡ b'.data_end)
  unfolding make_contiguous read_span
  make_contiguous_full full = (
    record { first = 0; last = b.size },
    record b { head = 0; tail = b.size },
    ground arith,
    ap (read_n b.cells 0) (omega arith) ∙ read_stored full,
    full,
  )
