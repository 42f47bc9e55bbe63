-- ===== src/SlotMap/Forget.antt =====
-- `erase` and `pop` of include/mclo/container/dense_slot_map.hpp, by what handles find afterwards.
use mclo.Common.{
  ℕ, ◌+◌, ◌-◌, ◌≤◌, ◌^◌, ◌≡◌, ◌≢◌, none, some, List, [], ◌∷◌, ◌++◌, false, arith, get_elem?,
  get_elem?-some, get_elem?-eq-get_or,
}
use mclo.SlotMapHandle.{Bits, Handle}
use mclo.SlotMap.{SlotMap, size, erase_valid_handle, erase, pop, found, lookup, is_valid}
use mclo.SlotMap.Inv.{IsValid, Refers, slot_at, is_valid-Refers}
use mclo.SlotMap.Erase.{
  next_generation, left, left-IsValid, left-size, left-slots, left-generation, others-Refers,
  others-found, left_erases,
}

module _ {A : Type 0} (c : Bits) (wide : 2 ≤ 2 ^ c.index_bits) (counted : 2 ≤ 2 ^ c.generation_bits)
    (m : SlotMap A) {free : List ℕ} (h : Handle) (v : IsValid c m free) (r : Refers m h) where
  last_value : (x : A) × (get_elem? m.values (size m - 1) ≡ some x)
  last_value = get_elem?-some m.values (size m - 1) (omega (arith, r.live.has_value))

  abbrev gone : SlotMap A
  gone = left c wide m h last_value.0 v r last_value.1

  gone-eq : erase_valid_handle c m h ≡ some gone
  gone-eq = left_erases c wide m h last_value.0 v r last_value.1

  gone-generation : (slot_at gone.slots h.index).generation ≢ h.generation
  gone-generation = ground (
    arith,
    left-generation c wide m h last_value.0 v r last_value.1 h.index,
    next_generation c (slot_at m.slots h.index).generation counted,
    v.generations h.index,
    r.current,
    r.live.in_range,
  )

  gone-is_valid : is_valid gone h ≡ false
  unfolding is_valid
  gone-is_valid = ground (
    arith,
    get_elem?-eq-get_or gone.slots h.index (record { index = 0; generation = 0 }),
    gone-generation,
    left-slots c wide m h last_value.0 v r last_value.1,
    r.live.in_range,
  )

  gone-found : found gone h ≡ none
  unfolding found
  gone-found = ground (
    arith,
    get_elem?-eq-get_or gone.slots h.index (record { index = 0; generation = 0 }),
    gone-generation,
    left-slots c wide m h last_value.0 v r last_value.1,
    r.live.in_range,
  )

  erase-eq_gone : erase c m h ≡ some gone
  unfolding erase
  erase-eq_gone = rw (is_valid-Refers m h r) gone-eq

  -- Erasing by a handle to an entry leaves a valid map with one value less, whose free list ends in
  -- the handle's slot; the handle is valid no more and finds nothing. `pop` leaves the same map, and
  -- returns the value that the handle found.
  pub erase_lem :
      (m' : SlotMap A) × (erase c m h ≡ some m')
      × (pop c m h ≡ some (found m h, m'))
      × IsValid c m' (free ++ h.index ∷ [])
      × (is_valid m' h ≡ false)
      × (found m' h ≡ none)
      × (size m' + 1 ≡ size m)
  unfolding pop found lookup
  erase_lem = (
    gone,
    erase-eq_gone,
    ground (
      arith,
      get_elem?-eq-get_or m.slots h.index (record { index = 0; generation = 0 }),
      get_elem?-some m.values (slot_at m.slots h.index).index,
      r.current,
      r.live.in_range,
      r.live.has_value,
      gone-eq,
    ),
    left-IsValid c wide m h last_value.0 v r last_value.1,
    gone-is_valid,
    gone-found,
    left-size c wide m h last_value.0 v r last_value.1,
  )

  -- Erasing by a handle takes nothing from the handles to other entries, although a value has moved:
  -- each still refers to its entry and finds the value that it found.
  pub erase_keeps :
      (g : Handle)
      → Refers m g
      → g.index ≢ h.index
      → (m' : SlotMap A) × (erase c m h ≡ some m') × Refers m' g × (found m' g ≡ found m g)
  erase_keeps g q ne = (
    gone,
    erase-eq_gone,
    others-Refers c wide m h last_value.0 v r last_value.1 g q ne,
    others-found c wide m h last_value.0 v r last_value.1 g q ne,
  )

module _ {A : Type 0} (c : Bits) (m : SlotMap A) (h : Handle) where
  -- A handle that is not valid finds nothing; erasing or popping by it changes nothing.
  pub stale_lem :
      is_valid m h ≡ false
      → (found m h ≡ none) × (erase c m h ≡ some m) × (pop c m h ≡ some (none, m))
  unfolding is_valid found erase pop lookup
  stale_lem e = (ground arith, ground arith, ground arith)
