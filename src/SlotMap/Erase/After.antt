-- ===== src/SlotMap/Erase/After.antt =====
-- The map that `erase_valid_handle` of include/mclo/container/dense_slot_map.hpp leaves: its arrays
-- and slots, one by one.
use mclo.Common.{
  ℕ, ◌+◌, ◌-◌, ◌≤◌, ◌<◌, ◌^◌, ◌≡◌, some, List, false, arith, not, ◌==◌, ◌&&◌, if◌then◌else◌, length,
  set, take, get_elem?, get_elem?-eq-get_or, get_or-set, get_or-take, length-set, length-take,
  get_elem?-set, get_elem?-take, get_elem?-some,
}
use native.Mathlib.Nat.{mod-eq_of_lt}
use mclo.SlotMapHandle.{Bits, Handle, index_field, generation_field}
use mclo.SlotMap.{SlotMap, size, slot_count, data_pop_back, fill_gap, erase_valid_handle}
use mclo.SlotMap.Inv.{IsValid, Refers, slot_at, number_at}

abbrev pub no_slot : Handle
no_slot = record { index = 0; generation = 0 }

module _ {A : Type 0} (c : Bits) (wide : 2 ≤ 2 ^ c.index_bits) (m : SlotMap A) {free : List ℕ}
    (h : Handle) (x : A) (v : IsValid c m free) (r : Refers m h)
    (last_is : get_elem? m.values (size m - 1) ≡ some x) where
  -- The value's offset, the last offset, and the slot of the last value.
  abbrev pub data_index : ℕ
  data_index = (slot_at m.slots h.index).index

  abbrev pub last : ℕ
  last = size m - 1

  abbrev pub last_slot : ℕ
  last_slot = number_at m.reverse last

  abbrev pub bumped_slots : List Handle
  bumped_slots = set m.slots h.index (record (slot_at m.slots h.index) {
    generation = generation_field c ((slot_at m.slots h.index).generation + 1);
  })

  abbrev pub filled_slots : List Handle
  filled_slots =
      if data_index == last
      then bumped_slots
      else set bumped_slots last_slot
          (record (slot_at bumped_slots last_slot) { index = index_field c data_index })

  abbrev pub filled_values : List A
  filled_values = if data_index == last then m.values else set m.values data_index x

  abbrev filled_reverse : List ℕ
  filled_reverse = if data_index == last then m.reverse else set m.reverse data_index last_slot

  abbrev final_slots : List Handle
  final_slots =
      if m.free_head == slot_count m
      then filled_slots
      else set filled_slots m.free_tail
          (record (slot_at filled_slots m.free_tail) { index = index_field c h.index })

  -- The map that is left.
  abbrev pub after : SlotMap A
  after = record m {
    values = take (length filled_values - 1) filled_values;
    reverse = take (length filled_values - 1) filled_reverse;
    slots = final_slots;
    free_head = if m.free_head == slot_count m then h.index else m.free_head;
    free_tail = h.index;
  }

  pub some-value : 0 < size m
  some-value = omega (arith, r.live.has_value)

  pub length-filled_values : length filled_values ≡ size m
  length-filled_values = ground (arith, length-set m.values data_index x)

  length-filled_reverse : length filled_reverse ≡ size m
  length-filled_reverse = ground (arith, length-set m.reverse data_index last_slot, v.paired)

  length-bumped : length bumped_slots ≡ slot_count m
  length-bumped = length-set m.slots h.index _

  length-filled : length filled_slots ≡ slot_count m
  length-filled = ground (
    arith,
    length-bumped,
    length-set bumped_slots last_slot
        (record (slot_at bumped_slots last_slot) { index = index_field c data_index }),
  )

  pub after-slots : slot_count after ≡ slot_count m
  after-slots = ground (
    arith,
    length-filled,
    length-set filled_slots m.free_tail
        (record (slot_at filled_slots m.free_tail) { index = index_field c h.index }),
  )

  pub after-size : size after + 1 ≡ size m
  after-size = omega (
    arith,
    length-take (length filled_values - 1) filled_values,
    length-filled_values,
    some-value,
  )

  pub after-paired : length after.reverse ≡ size after
  after-paired = omega (
    arith,
    length-take (length filled_values - 1) filled_values,
    length-take (length filled_values - 1) filled_reverse,
    length-filled_values,
    length-filled_reverse,
  )

  pub after-number :
      (i : ℕ)
      → i < size after
      → number_at after.reverse i ≡ (if data_index == i then last_slot else number_at m.reverse i)
  after-number i lt = ground (
    arith,
    after-size,
    length-filled_values,
    get_or-take (length filled_values - 1) filled_reverse 0 i,
    get_or-set m.reverse data_index i last_slot 0,
    v.paired,
    r.live.has_value,
  )

  pub after-value :
      (i : ℕ)
      → i < size after
      → get_elem? after.values i ≡ (if data_index == i then some x else get_elem? m.values i)
  after-value i lt = ground (
    arith,
    after-size,
    length-filled_values,
    get_elem?-take (length filled_values - 1) filled_values i,
    get_elem?-set m.values data_index i x,
    r.live.has_value,
  )

  pub last_slot-lt : last_slot < slot_count m
  last_slot-lt = v.live_in last (omega (arith, some-value))

  pub tail-lt : (m.free_head == slot_count m) ≡ false → m.free_tail < slot_count m
  tail-lt e = ground (arith, v.head_is, v.tail_is, v.free_in (length free - 1))

  fill_gap-eq :
      fill_gap c (record m { slots = bumped_slots }) data_index last
      ≡ some (record m { values = filled_values; reverse = filled_reverse; slots = filled_slots })
  unfolding fill_gap
  fill_gap-eq = ground (
    arith,
    last_is,
    get_elem?-some m.values data_index,
    get_elem?-eq-get_or m.reverse last 0,
    get_elem?-eq-get_or bumped_slots last_slot no_slot,
    length-bumped,
    last_slot-lt,
    r.live.has_value,
    v.paired,
  )

  pub erase-eq : erase_valid_handle c m h ≡ some after
  unfolding erase_valid_handle data_pop_back
  erase-eq =
      rw (get_elem?-eq-get_or m.slots h.index no_slot r.live.in_range, fill_gap-eq)
        (ground
          (arith, get_elem?-eq-get_or filled_slots m.free_tail no_slot, length-filled, tail-lt))

  -- Which slots carry what afterwards.
  pub bumped-at :
      (t : ℕ)
      → slot_at bumped_slots t ≡ (
          if h.index == t
          then record (slot_at m.slots h.index) {
            generation = generation_field c ((slot_at m.slots h.index).generation + 1);
          }
          else slot_at m.slots t)
  bumped-at t = get_or-set m.slots h.index t _ no_slot r.live.in_range

  fits-field : (n : ℕ) → n < slot_count m → index_field c n ≡ n
  fits-field n lt = mod-eq_of_lt (omega (arith, v.fits))

  index-field : index_field c data_index ≡ data_index
  index-field = mod-eq_of_lt (omega (arith, v.fits, v.sum, r.live.has_value))

  pub filled-at :
      (t : ℕ)
      → (slot_at filled_slots t).index ≡ (
          if not (data_index == last) && last_slot == t
          then data_index
          else (slot_at m.slots t).index)
  filled-at t = ground (
    arith,
    get_or-set bumped_slots last_slot t
        (record (slot_at bumped_slots last_slot) { index = index_field c data_index }) no_slot,
    length-bumped,
    last_slot-lt,
    bumped-at t,
    index-field,
  )

  pub after-index :
      (t : ℕ)
      → (slot_at after.slots t).index ≡ (
          if not (m.free_head == slot_count m) && m.free_tail == t
          then h.index
          else (slot_at filled_slots t).index)
  after-index t = ground (
    arith,
    get_or-set filled_slots m.free_tail t
        (record (slot_at filled_slots m.free_tail) { index = index_field c h.index }) no_slot,
    length-filled,
    tail-lt,
    fits-field h.index r.live.in_range,
  )

  filled-generation :
      (t : ℕ) → (slot_at filled_slots t).generation ≡ (slot_at bumped_slots t).generation
  filled-generation t = ground (
    arith,
    get_or-set bumped_slots last_slot t
        (record (slot_at bumped_slots last_slot) { index = index_field c data_index }) no_slot,
    length-bumped,
    last_slot-lt,
  )

  pub after-generation :
      (t : ℕ) → (slot_at after.slots t).generation ≡ (slot_at bumped_slots t).generation
  after-generation t = ground (
    arith,
    get_or-set filled_slots m.free_tail t
        (record (slot_at filled_slots m.free_tail) { index = index_field c h.index }) no_slot,
    length-filled,
    tail-lt,
    filled-generation t,
  )
