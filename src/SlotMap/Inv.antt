-- ===== src/SlotMap/Inv.antt =====
-- The invariant of include/mclo/container/dense_slot_map.hpp: every slot either belongs to a value,
-- which names it back, or is a link of the free list.
use mclo.Common.{
  ℕ, suc, ◌+◌, ◌-◌, ◌≤◌, ◌<◌, ◌^◌, ◌≡◌, ◌≢◌, List, ◌==◌, if◌then◌else◌, length, get_or, get_elem?,
  get_elem?-eq-get_or, arith, true,
}
use mclo.SlotMapHandle.{Bits, Handle, max_size}
use mclo.SlotMap.{found, is_valid, SlotMap, size, slot_count}

-- The slot of a number; one that is out of range does not matter.
abbrev pub slot_at : List Handle → ℕ → Handle
slot_at slots s = get_or slots s (record { index = 0; generation = 0 })

abbrev pub number_at : List ℕ → ℕ → ℕ
number_at xs i = get_or xs i 0

module _ {A : Type 0} where
  -- The slot belongs to a value.
  pub record IsLive (m : SlotMap A) (s : ℕ) : Type 0 where
    pub in_range : s < slot_count m
    pub has_value : (slot_at m.slots s).index < size m
    pub named_back : number_at m.reverse (slot_at m.slots s).index ≡ s

  -- `free` are the slots of the free list, from its head to its tail.
  pub record IsValid (c : Bits) (m : SlotMap A) (free : List ℕ) : Type 0 where
    pub paired : length m.reverse ≡ size m
    pub fits : slot_count m ≤ max_size c
    pub sum : size m + length free ≡ slot_count m
    pub live_in : (d : ℕ) → d < size m → number_at m.reverse d < slot_count m
    pub live_back : (d : ℕ) → d < size m → (slot_at m.slots (number_at m.reverse d)).index ≡ d
    pub free_in : (k : ℕ) → k < length free → number_at free k < slot_count m
    pub apart : (d k : ℕ) → d < size m → k < length free → number_at m.reverse d ≢ number_at free k
    pub distinct :
        (j k : ℕ) → j < length free → k < length free → number_at free j ≡ number_at free k → j ≡ k
    pub chain :
        (k : ℕ)
        → suc k < length free
        → (slot_at m.slots (number_at free k)).index ≡ number_at free (suc k)
    pub head_is : m.free_head ≡ (if length free == 0 then slot_count m else number_at free 0)
    pub tail_is :
        m.free_tail ≡ (if length free == 0 then slot_count m else number_at free (length free - 1))
    pub generations :
        (s : ℕ) → s < slot_count m → (slot_at m.slots s).generation < 2 ^ c.generation_bits

  -- A handle to an entry: its slot belongs to a value and has the handle's generation.
  pub record Refers (m : SlotMap A) (h : Handle) : Type 0 where
    pub live : IsLive m h.index
    pub current : (slot_at m.slots h.index).generation ≡ h.generation

  -- What a handle to an entry finds.
  pub found-Refers :
      (m : SlotMap A) (h : Handle)
      → Refers m h
      → found m h ≡ get_elem? m.values (slot_at m.slots h.index).index
  unfolding found
  found-Refers m h r =
      ground (arith, get_elem?-eq-get_or m.slots h.index (record { index = 0; generation = 0 }))

  pub is_valid-Refers : (m : SlotMap A) (h : Handle) → Refers m h → is_valid m h ≡ true
  unfolding is_valid
  is_valid-Refers m h r =
      ground (arith, get_elem?-eq-get_or m.slots h.index (record { index = 0; generation = 0 }))
