-- ===== src/CircularBuffer/Copy.antt =====
-- Copying and moving of include/mclo/container/circular_buffer.hpp.
use mclo.Common.{
  ℕ, ◌-◌, ◌<◌, ◌≡◌, ◌≢◌, ◌∙◌, ap, refl, none, some, Option, List, [], Bool, true, false, arith,
  get_elem?, length-replicate, length, replicate,
}
use mclo.Storage.Laws.{write_all, get_elem?-write_all, construct_all-eq}
use mclo.CircularBuffer.{CircularBuffer, transfer, resize, empty, capacity, set_data}
use mclo.CircularBuffer.Assign.{copy_construct, copy_assign, move_assign}
use mclo.CircularBuffer.Inv.{Holds}
use mclo.CircularBuffer.Spans.{transfer-eq}
use mclo.CircularBuffer.Clear.{clear_refines}
use mclo.CircularBuffer.Resize.{blank, resize-empty}

module _ {A : Type 0} (b : CircularBuffer A) {xs : List A} (h : Holds b xs) where
  -- What both ways to copy leave: the elements are in the storage, and the size is 0.
  abbrev copied : CircularBuffer A
  copied = record (blank A b.size) { cells = write_all (replicate b.size none) 0 xs }

  transfer_blank : transfer b (replicate b.size none) ≡ some copied.cells
  transfer_blank =
      transfer-eq b h (replicate b.size none)
      ∙ construct_all-eq (replicate b.size none) 0 xs
          (omega (arith, length-replicate {A = Option A} b.size none, h.counted))

  -- A copy has room for the elements and constructs each of them in its storage, in order, but its
  -- size is 0: whatever the original holds, the copy reports that it is empty.
  pub copy_construct_lem :
      (b' : CircularBuffer A) × (copy_construct b ≡ some b')
      × (b'.size ≡ 0)
      × (b'.data_end ≡ length xs)
      × ((i : ℕ) → i < length xs → get_elem? b'.cells i ≡ some (get_elem? xs i))
  unfolding copy_construct
  copy_construct_lem = (
    copied,
    rw (resize-empty A b.size, transfer_blank),
    refl,
    h.counted,
    λ i lt. ground (
      arith,
      get_elem?-write_all (replicate b.size none) 0 xs i,
      length-replicate {A = Option A} b.size none,
      ap (get_elem? xs) {x = i - 0} {y = i} (omega arith),
    ),
  )

  -- Copying over a buffer `a` that holds a list likewise leaves room for the elements, and size 0.
  pub copy_assign_lem :
      (a : CircularBuffer A) {ys : List A}
      → Holds a ys
      → a.data_end ≢ b.size
      → (a' : CircularBuffer A) × (copy_assign a b ≡ some a')
        × (a'.size ≡ 0)
        × (a'.data_end ≡ length xs)
  unfolding copy_assign resize set_data
  copy_assign_lem a ha ne =
      let (c, cleared, hc, ce) = clear_refines a ha in
      (copied, rw cleared (ground (arith, transfer_blank)), refl, h.counted)

  -- Move assignment over a buffer `a` that holds a list. Where the allocator propagates, as
  -- `std::allocator` does, the target ends with neither elements nor storage and the source keeps
  -- all that it had; where it does not and the allocators are equal, the target takes the source's
  -- state and the source is left as a default-constructed buffer.
  pub move_assign_lem :
      (a : CircularBuffer A) {ys : List A} (equal : Bool)
      → Holds a ys
      → (a' : CircularBuffer A) × (move_assign true equal a b ≡ some (a', b))
        × (a'.size ≡ 0)
        × (capacity a' ≡ 0)
        × (move_assign false true a b ≡ some (b, empty))
  unfolding move_assign
  move_assign_lem a equal ha =
      let (c, cleared, hc, ce) = clear_refines a ha in
      (record c { cells = []; data_end = 0 }, rw cleared, hc.counted, refl, rw cleared)
