-- ===== src/CircularBuffer/Erase.antt =====
-- `erase` of include/mclo/container/circular_buffer.hpp removes the element at its position.
use mclo.Common.{
  ℕ, zero, suc, ◌+◌, ◌-◌, ◌<◌, ◌≤◌, ◌≡◌, ◌∙◌, subst, refl, ap, none, some, List, ◌++◌, arith, set,
  length, take, drop, get_elem?, get_elem?-none, get_elem?-some, get_elem?-set, get_elem?_ext,
  get_elem?-append, get_elem?-take, get_elem?-drop, length-take, length-set, leb, ltb, ◌&&◌,
  if◌then◌else◌, inl, inr, Option-cases,
}
use mclo.Storage.{load, assign}
use mclo.CircularBuffer.{CircularBuffer}
use mclo.CircularBuffer.Inv.{position, Holds}
use mclo.CircularBuffer.Pop.{pop_back_refines}
use mclo.CircularBuffer.Iterator.{next, contiguous_ptr, move_range, erase, end}
use mclo.CircularBuffer.Iterate.{place, next_lem, advance_lem, contiguous_ptr_lem, deref_lem}

module _ {A : Type 0} where
  -- Elements `k + 1` to `k + n` moved one place down.
  shift : List A → ℕ → ℕ → List A
  shift xs k zero = xs
  shift xs k (suc n) = elim (get_elem? xs (k + 1)) [
    | none ↦ xs
    | some x ↦ shift (set xs k x) (k + 1) n
  ]

  get_elem?-shift :
      (xs : List A) (k n j : ℕ)
      → k + n < length xs
      → get_elem? (shift xs k n) j
        ≡ (if leb k j && ltb j (k + n) then get_elem? xs (j + 1) else get_elem? xs j)
  unfolding shift
  get_elem?-shift xs k zero j lt = ground arith
  get_elem?-shift xs k (suc n) j lt =
      let (x, e) = get_elem?-some xs (k + 1) (omega arith) in
      rw (e, shift)
        (ground (
          arith,
          length-set xs k x,
          get_elem?-shift (set xs k x) (k + 1) n j,
          get_elem?-set xs k j x,
          get_elem?-set xs k (j + 1) x,
        ))

  length-shift : (xs : List A) (k n : ℕ) → length (shift xs k n) ≡ length xs
  unfolding shift
  length-shift xs k zero = refl
  length-shift xs k (suc n) = elim (Option-cases (get_elem? xs (k + 1))) [
    | inl e ↦ rw (e, shift)
    | inr (x, e) ↦ rw (e, shift) (length-shift (set xs k x) (k + 1) n ∙ length-set xs k x)
  ]

  -- The shift up to the end, less the last element, is the list without its k-th element.
  take-shift :
      (xs : List A) (k : ℕ)
      → k < length xs
      → take (length (shift xs k (length xs - (k + 1))) - 1) (shift xs k (length xs - (k + 1)))
        ≡ take k xs ++ drop (k + 1) xs
  take-shift xs k lt =
      let n = length xs - (k + 1) in
      get_elem?_ext _ _ λ j. ground (
        arith,
        length-shift xs k n,
        get_elem?-take (length (shift xs k n) - 1) (shift xs k n) j,
        get_elem?-shift xs k n j,
        get_elem?-append (take k xs) (drop (k + 1) xs) j,
        get_elem?-take k xs j,
        length-take k xs,
        get_elem?-drop (k + 1) xs (j - length (take k xs)),
        ap (get_elem? xs) {x = k + 1 + (j - k)} {y = j + 1},
        get_elem?-none xs (j + 1),
      )

  -- Assigning to the cell of the k-th element sets it.
  set-Holds :
      (b : CircularBuffer A) {xs : List A} (k : ℕ) (x : A)
      → Holds b xs
      → k < b.size
      → Holds
          (record b { cells = set b.cells (position b.head b.data_end k) (some x) })
          (set xs k x)
  set-Holds b {xs} k x h lt = record {
    ends = omega (arith, length-set b.cells (position b.head b.data_end k) (some x), h.ends);
    head_in = h.head_in;
    tail_in = h.tail_in;
    size_in = h.size_in;
    counted = omega (arith, length-set xs k x, h.counted);
    tail_at = h.tail_at;
    reads = λ i below. ground (
      arith,
      h.reads i,
      get_elem?-set b.cells (position b.head b.data_end k) (position b.head b.data_end i) (some x),
      get_elem?-set xs k i x,
    );
  }

  assign_lem :
      (b : CircularBuffer A) {xs : List A} (k : ℕ) (x : A)
      → Holds b xs
      → k < b.size
      → assign b.cells (position b.head b.data_end k) x
        ≡ some (set b.cells (position b.head b.data_end k) (some x))
  unfolding assign load
  assign_lem b {xs} k x h lt = ground (arith, h.reads k, get_elem?-some xs k)

  end_lem : (b : CircularBuffer A) → contiguous_ptr b (end b) ≡ b.size
  unfolding contiguous_ptr
  end_lem b = refl

  -- Moving the elements from place `k + 1` on one place down.
  move_range-shift :
      (n k : ℕ) (b : CircularBuffer A) (xs : List A)
      → Holds b xs
      → k + 1 + n ≤ b.size
      → (b' : CircularBuffer A) × (move_range n b (place b (k + 1)) (place b k)
          ≡ some (b', place b (k + n)))
        × Holds b' (shift xs k n)
        × (b'.size ≡ b.size)
        × (b'.head ≡ b.head)
        × (b'.data_end ≡ b.data_end)
  unfolding move_range shift
  move_range-shift zero k b xs h le =
      (b, ap (λ j. some (b, place b j)) (omega arith), h, refl, refl, refl)
  move_range-shift (suc n) k b xs h le =
      let (x, e) = get_elem?-some xs (k + 1) (omega (arith, h.counted)) in
      let p = position b.head b.data_end k in
      let b₁ = record b { cells = set b.cells p (some x) } in
      let h₁ = set-Holds b k x h (omega arith) in
      let at_k : place b k ≡ some p = ground arith in
      let next_k : next b (some p) ≡ some (place b (k + 1)) =
        rw at_k at (next_lem b h k (omega arith)) in
      let (b', moved, h', s, hd, de) =
        move_range-shift n (k + 1) b₁ (set xs k x) h₁ (omega arith) in
      (
        b',
        rw
            (
              deref_lem b h (k + 1) (omega arith),
              e,
              at_k,
              assign_lem b k x h (omega arith),
              next_lem b h (k + 1) (omega arith),
              next_k,
            )
            (moved ∙ ap (λ j. some (b', place b j)) (omega arith)),
        rw (e, shift) h',
        s,
        hd,
        de,
      )

  -- Erasing at place `k` leaves the list without its k-th element, in the same capacity, and returns
  -- the pointer that it was given, never the null one of the end iterator, even if no element is
  -- left at that place.
  pub erase_refines :
      (b : CircularBuffer A) {xs : List A} (k : ℕ)
      → Holds b xs
      → k < b.size
      → (b' : CircularBuffer A) × (erase b (place b k)
          ≡ some (b', some (position b.head b.data_end k)))
        × Holds b' (take k xs ++ drop (k + 1) xs)
        × (b'.data_end ≡ b.data_end)
  unfolding erase
  erase_refines b {xs} k h lt =
      let n = length xs - (k + 1) in
      let left : contiguous_ptr b (end b) - contiguous_ptr b (place b (k + 1)) ≡ n =
        omega (arith, contiguous_ptr_lem b h (k + 1) (omega arith), end_lem b) in
      let (moved, me, mh, ms, _, md) = move_range-shift n k b xs h (omega (arith, h.counted)) in
      let (b', pe, ph, pd) = pop_back_refines moved mh (omega arith) in
      (
        b',
        rw (advance_lem b h k 1 (omega arith) lt, left, me, pe) (ground arith),
        subst (Holds b') (take-shift xs k (omega (arith, h.counted))) ph,
        pd ∙ md,
      )
