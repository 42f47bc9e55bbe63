-- ===== src/SlotMap/Reserve.antt =====
-- `reserve_slots` of include/mclo/container/dense_slot_map.hpp keeps the map valid.
use mclo.Common.{
  ℕ, suc, ◌+◌, ◌-◌, ◌≤◌, ◌<◌, ◌^◌, ◌≡◌, refl, ap, List, ◌∷◌, ◌++◌, arith, ◌==◌, ltb, if◌then◌else◌,
  get_elem?, length, length-append, get_or-append, get_or-cons,
}
use native.Mathlib.Nat.{mod-eq_of_lt, one-le-pow}
use mclo.SlotMapHandle.{Bits, Handle, max_size, index_field}
use mclo.SlotMap.{SlotMap, slot_count, found}
use mclo.SlotMap.Slots.{chained_back, reserve_slots, reserved}
use mclo.SlotMap.Inv.{IsValid, Refers, slot_at, number_at, found-Refers}
use mclo.SlotMap.Chains.{
  downwards, length-downwards, downwards-at, length-chained_back, chained_back-at,
}

abbrev no_slot : Handle
no_slot = record { index = 0; generation = 0 }

module _ {A : Type 0} (c : Bits) (wide : 2 ≤ 2 ^ c.index_bits) (m : SlotMap A) {free : List ℕ}
    (v : IsValid c m free) (amount : ℕ) (fits : amount ≤ max_size c)
    (more : slot_count m < amount) where
  abbrev new_slots : ℕ
  new_slots = amount - slot_count m

  abbrev first : Handle
  first = record { index = index_field c m.free_head; generation = 0 }

  abbrev extended : SlotMap A
  extended = record m {
    slots = m.slots ++ first ∷ chained_back c (amount - 1 - slot_count m) (slot_count m);
    free_head = amount - 1;
  }

  abbrev chain_at : List ℕ
  chain_at = downwards new_slots (slot_count m) ++ free

  extended-count : slot_count extended ≡ amount
  extended-count = omega (
    arith,
    length-append m.slots (first ∷ chained_back c (amount - 1 - slot_count m) (slot_count m)),
    length-chained_back c (amount - 1 - slot_count m) (slot_count m),
  )

  length-chain : length chain_at ≡ new_slots + length free
  length-chain = omega (
    arith,
    length-append (downwards new_slots (slot_count m)) free,
    length-downwards new_slots (slot_count m),
  )

  old-at : (s : ℕ) → s < slot_count m → slot_at extended.slots s ≡ slot_at m.slots s
  old-at s lt = ground (
    arith,
    get_or-append m.slots (first ∷ chained_back c (amount - 1 - slot_count m) (slot_count m))
        no_slot s,
  )

  abbrev chained : List Handle
  chained = chained_back c (amount - 1 - slot_count m) (slot_count m)

  new-at :
      (s : ℕ)
      → slot_count m ≤ s
      → slot_at extended.slots s
        ≡ (if s == slot_count m then first else slot_at chained (s - slot_count m - 1))
  new-at s le = ground (
    arith,
    get_or-append m.slots (first ∷ chained) no_slot s,
    get_or-cons first chained no_slot (s - slot_count m),
  )

  head-field : index_field c m.free_head ≡ m.free_head
  head-field = mod-eq_of_lt (ground (arith, v.head_is, v.free_in 0, v.fits))

  new-index :
      (s : ℕ)
      → slot_count m ≤ s
      → s < amount
      → (slot_at extended.slots s).index ≡ (if s == slot_count m then m.free_head else s - 1)
  new-index s le lt = ground (
    arith,
    new-at s,
    head-field,
    chained_back-at c (amount - 1 - slot_count m) (slot_count m) (s - slot_count m - 1),
    mod-eq_of_lt {n = slot_count m + (s - slot_count m - 1)} {m = 2 ^ c.index_bits},
  )

  new-generation :
      (s : ℕ) → slot_count m ≤ s → s < amount → (slot_at extended.slots s).generation ≡ 0
  new-generation s le lt = ground (
    arith,
    new-at s,
    chained_back-at c (amount - 1 - slot_count m) (slot_count m) (s - slot_count m - 1),
  )

  chain-number :
      (k : ℕ)
      → k < length chain_at
      → number_at chain_at k
        ≡ (if ltb k new_slots then amount - 1 - k else number_at free (k - new_slots))
  chain-number k lt = ground (
    arith,
    get_or-append (downwards new_slots (slot_count m)) free 0 k,
    length-downwards new_slots (slot_count m),
    downwards-at new_slots (slot_count m) k,
  )

  extended-IsValid : IsValid c extended chain_at
  extended-IsValid = record {
    paired = v.paired;
    fits = omega (arith, extended-count, fits);
    sum = omega (arith, extended-count, length-chain, v.sum);
    live_in = λ d lt. omega (arith, extended-count, v.live_in d lt);
    live_back = λ d lt. ground (arith, old-at (number_at m.reverse d), v.live_in d, v.live_back d);
    free_in = λ k lt.
        ground (arith, extended-count, length-chain, chain-number k lt, v.free_in (k - new_slots));
    apart = λ d k p q.
        ground (arith, length-chain, chain-number k q, v.live_in d, v.apart d (k - new_slots));
    distinct = λ j k p q e. ground (
      arith,
      length-chain,
      chain-number j p,
      chain-number k q,
      v.free_in (j - new_slots),
      v.free_in (k - new_slots),
      v.distinct (j - new_slots) (k - new_slots),
    );
    chain = λ k lt. ground (
      arith,
      length-chain,
      chain-number k,
      chain-number (suc k),
      new-index (amount - 1 - k),
      old-at (number_at free (k - new_slots)),
      v.head_is,
      v.free_in (k - new_slots),
      v.chain (k - new_slots),
      ap (number_at free) {x = suc (k - new_slots)} {y = suc k - new_slots},
      ap (number_at free) {x = 0} {y = suc k - new_slots},
    );
    head_is = ground (arith, length-chain, chain-number 0);
    tail_is = ground (
      arith,
      length-chain,
      chain-number (length chain_at - 1),
      v.tail_is,
      ap (number_at free) {x = length free - 1} {y = length chain_at - 1 - new_slots},
    );
    generations = λ s lt. ground (
      arith,
      extended-count,
      old-at s,
      new-generation s,
      v.generations s,
      one-le-pow c.generation_bits 2,
    );
  }

  extended-Refers : (h : Handle) → Refers m h → Refers extended h
  extended-Refers h r = record {
    live = record {
      in_range = omega (arith, extended-count, r.live.in_range);
      has_value = ground (arith, old-at h.index, r.live.in_range, r.live.has_value);
      named_back = ground (arith, old-at h.index, r.live.in_range, r.live.named_back);
    };
    current = ground (arith, old-at h.index, r.live.in_range, r.current);
  }

  -- Reserving more slots than there are, and no more than the map may have, leaves a valid map of
  -- that many slots and the same values, whose free list has the new slots in front, the newest first;
  -- every handle to an entry refers to it still, and finds the same.
  pub reserve_slots_lem :
      (m' : SlotMap A) × (reserve_slots c m amount ≡ reserved m')
      × IsValid c m' (downwards (amount - slot_count m) (slot_count m) ++ free)
      × (slot_count m' ≡ amount)
      × (m'.values ≡ m.values)
      × ((h : Handle) → Refers m h → Refers m' h × (found m' h ≡ found m h))
  unfolding reserve_slots
  reserve_slots_lem = (
    extended,
    ground arith,
    extended-IsValid,
    extended-count,
    refl,
    λ h r. (
      extended-Refers h r,
      rw (found-Refers extended h (extended-Refers h r), found-Refers m h r)
          (ap (λ s. get_elem? m.values s.index) (old-at h.index r.live.in_range)),
    ),
  )
