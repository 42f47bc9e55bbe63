-- ===== src/CircularBuffer/Inv.antt =====
-- When a circular buffer holds a list: the representation invariant of
-- include/mclo/container/circular_buffer.hpp and its abstract value.
use mclo.Common.{ℕ, ◌+◌, ◌-◌, ◌≤◌, ◌<◌, ◌≡◌, some, List, ltb, if◌then◌else◌, length, get_elem?}
use mclo.CircularBuffer.{CircularBuffer}

-- The offset of the i-th element, where the first is at `head` and the storage ends at `last`.
abbrev pub position : ℕ → ℕ → ℕ → ℕ
position head last i = if ltb i (last - head) then head + i else head + i - last

module _ {A : Type 0} where
  -- `b` has storage and holds `xs`: the i-th cell from the head on holds the i-th element, and the
  -- cells behind them hold none.
  pub record Holds (b : CircularBuffer A) (xs : List A) : Type 0 where
    pub ends : b.data_end ≡ length b.cells
    pub head_in : b.head < b.data_end
    pub tail_in : b.tail < b.data_end
    pub size_in : b.size ≤ b.data_end
    pub counted : b.size ≡ length xs
    pub tail_at : b.tail ≡ position b.head b.data_end b.size
    pub reads :
        (i : ℕ)
        → i < b.data_end
        → get_elem? b.cells (position b.head b.data_end i) ≡ some (get_elem? xs i)
