-- ===== src/SlotMap.antt =====
-- include/mclo/container/dense_slot_map.hpp and slot_map_handle.hpp: a slot map that keeps its
-- values in one dense array and hands out handles with a generation.
--
-- The two arrays of `dense_slot_map_data` are lists of as many elements as `m_size` says. A handle
-- is written by the widths of its bit-fields. What is undefined, an access outside an array, is
-- `none`.
pub mod Capacity
pub mod Slots
pub mod Inv
pub mod Emplace
pub mod Erase
pub mod Forget
pub mod Chains
pub mod Guard
mod Tests
pub mod Clear
pub mod Reserve
use mclo.Common.{
  ℕ, ◌+◌, ◌-◌, ◌%◌, ◌^◌, Option, none, some, List, [], ◌∷◌, ◌++◌, Bool, true, false, not, ◌&&◌,
  ◌||◌, ltb, leb, ◌==◌, if◌then◌else◌, require, ◌>>=◌, length, get_elem?, set, take,
}
use mclo.SlotMapHandle.{Bits, Handle, max_size, index_field, generation_field}
use Capacity.{Growth, grown}

pub record SlotMap (A : Type 0) : Type 0 where
  pub values : List A
  pub reverse : List ℕ
  pub capacity : ℕ
  pub slots : List Handle
  pub free_head : ℕ
  pub free_tail : ℕ

-- What creating an entry ends with: the map and the handle to the entry, an exception because the
-- map is full, or one out of the growth of the slots, which leaves a map behind.
pub data Emplaced (A : Type 0) : Type 0 where
  emplaced : Handle → SlotMap A → Emplaced A
  too_big : Emplaced A
  slots_threw : SlotMap A → Emplaced A

module _ {A : Type 0} where
  pub empty : SlotMap A
  empty = record {
    values = [];
    reverse = [];
    capacity = 0;
    slots = [];
    free_head = 0;
    free_tail = 0;
  }

  abbrev pub size : SlotMap A → ℕ
  size m = length m.values

  abbrev pub slot_count : SlotMap A → ℕ
  slot_count m = length m.slots

  -- `dense_slot_map_data::pop_back`
  pub data_pop_back : SlotMap A → SlotMap A
  data_pop_back m = record m {
    values = take (size m - 1) m.values;
    reverse = take (size m - 1) m.reverse;
  }

  unfoldable pub is_valid : SlotMap A → Handle → Bool
  is_valid m h = elim (get_elem? m.slots h.index) [
    | none ↦ false
    | some s ↦ s.generation == h.generation
  ]

  -- The offset of the value; `none` is the null pointer.
  unfoldable pub lookup : SlotMap A → Handle → Option ℕ
  lookup m h = do
    s ← get_elem? m.slots h.index
    if s.generation == h.generation then some s.index else none

  -- The value behind the pointer.
  unfoldable pub found : SlotMap A → Handle → Option A
  unfolding lookup
  found m h = do d ← lookup m h; get_elem? m.values d

  -- The handle of the value at an offset.
  pub get_valid_handle_at : SlotMap A → ℕ → Option Handle
  get_valid_handle_at m d = do
    s ← get_elem? m.reverse d
    e ← get_elem? m.slots s
    some (record { index = s; generation = e.generation })

module _ {A : Type 0} (c : Bits) (growth : Growth) where
  -- `dense_slot_map_data::reserve`
  pub data_reserve : SlotMap A → ℕ → SlotMap A
  data_reserve m n =
      if leb n m.capacity then m else record m { capacity = grown growth (max_size c) m.capacity n }

  -- `dense_slot_map_data::emplace_back`
  pub data_emplace_back : SlotMap A → ℕ → A → SlotMap A
  unfolding data_reserve
  data_emplace_back m slot x =
      let r = data_reserve m (size m + 1) in
      record r { values = m.values ++ x ∷ []; reverse = m.reverse ++ slot ∷ [] }

  -- `guarded` tells which of the two guards is used, `throws` whether the growth of the slots, if
  -- there is one, throws.
  pub emplace_with_guard : Bool → Bool → SlotMap A → A → Option (Emplaced A)
  emplace_with_guard guarded throws m x =
      let slot_index = m.free_head in
      let filled = data_emplace_back m slot_index x in
      let needs_new_index = m.free_head == slot_count m in
      let mark_empty_free_list = needs_new_index || m.free_head == m.free_tail in
      let new_num_slots = if needs_new_index then slot_count m + 1 else slot_count m in
      let fresh : Handle = record { index = index_field c new_num_slots; generation = 0 } in
      if needs_new_index && throws
      then some (slots_threw (if guarded then data_pop_back filled else filled))
      else (do
        let slots = if needs_new_index then m.slots ++ fresh ∷ [] else m.slots
        handle ← get_elem? slots slot_index
        let data_index = size filled - 1
        let entry = record handle { index = index_field c data_index }
        let m' = record filled {
          slots = set slots slot_index entry;
          free_head = if mark_empty_free_list then new_num_slots else handle.index;
          free_tail = if mark_empty_free_list then new_num_slots else m.free_tail;
        }
        some (emplaced (record { index = slot_index; generation = handle.generation }) m'))

  pub emplace_and_get : Bool → SlotMap A → A → Option (Emplaced A)
  emplace_and_get throws m x =
      if leb (max_size c) (size m)
      then some too_big
      else emplace_with_guard (not (ltb (size m) m.capacity)) throws m x

module _ {A : Type 0} (c : Bits) where
  -- Moving the last value into the place of another, and pointing its slot there.
  pub fill_gap : SlotMap A → ℕ → ℕ → Option (SlotMap A)
  fill_gap m data_index last = if data_index == last then some m else (do
    x ← get_elem? m.values last
    _ ← get_elem? m.values data_index
    r ← get_elem? m.reverse last
    s ← get_elem? m.slots r
    some (record m {
      values = set m.values data_index x;
      reverse = set m.reverse data_index r;
      slots = set m.slots r (record s { index = index_field c data_index });
    }))

  pub erase_valid_handle : SlotMap A → Handle → Option (SlotMap A)
  unfolding fill_gap data_pop_back
  erase_valid_handle m h = do
    s ← get_elem? m.slots h.index
    let bumped = record s { generation = generation_field c (s.generation + 1) }
    let m₁ = record m { slots = set m.slots h.index bumped }
    m₂ ← fill_gap m₁ s.index (size m - 1)
    let m₃ = data_pop_back m₂
    if m.free_head == slot_count m
        then some (record m₃ { free_head = h.index; free_tail = h.index })
        else (do
          t ← get_elem? m₃.slots m.free_tail
          some (record m₃ {
            slots = set m₃.slots m.free_tail (record t { index = index_field c h.index });
            free_tail = h.index;
          }))

  pub erase : SlotMap A → Handle → Option (SlotMap A)
  erase m h = if is_valid m h then erase_valid_handle m h else some m

  -- `pop`: the value that is taken out, or none where the handle is not valid.
  pub pop : SlotMap A → Handle → Option (Option A × SlotMap A)
  pop m h = elim (lookup m h) [
    | none ↦ some (none, m)
    | some d ↦ (do x ← get_elem? m.values d; m' ← erase_valid_handle m h; some (some x, m'))
  ]

  -- `erase` at an iterator, which is an offset into the values: the offset of the next value.
  pub erase_at : SlotMap A → ℕ → Option (ℕ × SlotMap A)
  unfolding get_valid_handle_at
  erase_at m pos =
      if pos == size m
      then some (pos, m)
      else (do h ← get_valid_handle_at m pos; m' ← erase_valid_handle m h; some (pos, m'))
