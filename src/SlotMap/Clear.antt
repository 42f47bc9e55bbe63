-- ===== src/SlotMap/Clear.antt =====
-- `clear` and `reset` of include/mclo/container/dense_slot_map.hpp keep the map valid, and `clear`
-- ends every handle.
use mclo.Common.{
  ℕ, suc, ◌+◌, ◌-◌, ◌≤◌, ◌<◌, ◌^◌, ◌≡◌, refl, none, some, List, [], false, arith, ◌==◌,
  if◌then◌else◌, get_elem?-eq-get_or, set, length-set, get_or-set,
}
use native.Mathlib.Nat.{mod-eq_of_lt, mod-lt, one-le-pow}
use mclo.SlotMapHandle.{Bits, Handle, index_field, generation_field}
use mclo.SlotMap.{SlotMap, size, slot_count, is_valid}
use mclo.SlotMap.Slots.{relink, clear, reset}
use mclo.SlotMap.Inv.{IsValid, Refers, slot_at}
use mclo.SlotMap.Chains.{upwards, length-upwards, upwards-at, length-relink, relink-at}
use mclo.SlotMap.Erase.{next_generation}

abbrev no_slot : Handle
no_slot = record { index = 0; generation = 0 }

module _ {A : Type 0} (c : Bits) (wide : 2 ≤ 2 ^ c.index_bits) (m : SlotMap A) {free : List ℕ}
    (v : IsValid c m free) where
  -- The slots that `clear` leaves.
  abbrev relinked : List Handle
  relinked = relink c 0 m.slots

  abbrev cleared_slots : List Handle
  cleared_slots =
      set relinked (slot_count m - 1)
        (record (slot_at relinked (slot_count m - 1)) { index = index_field c (slot_count m - 1) })

  abbrev cleared : SlotMap A
  cleared = record m {
    values = [];
    reverse = [];
    slots = cleared_slots;
    free_head = 0;
    free_tail = slot_count m - 1;
  }

  cleared-count : slot_count cleared ≡ slot_count m
  cleared-count = omega (
    arith,
    length-set relinked (slot_count m - 1)
        (record (slot_at relinked (slot_count m - 1)) { index = index_field c (slot_count m - 1) }),
    length-relink c 0 m.slots,
  )

  cleared-at :
      (i : ℕ)
      → i < slot_count m
      → ((slot_at cleared_slots i).index ≡ (if i == slot_count m - 1 then i else i + 1))
        × ((slot_at cleared_slots i).generation
            ≡ generation_field c ((slot_at m.slots i).generation + 1))
  cleared-at i lt =
      let (e, g) = relink-at c 0 m.slots i lt in
      let at_i =
        get_or-set relinked (slot_count m - 1) i
          (record (slot_at relinked (slot_count m - 1)) {
            index = index_field c (slot_count m - 1);
          })
          no_slot in
      (
        ground (
          arith,
          e,
          at_i,
          length-relink c 0 m.slots,
          v.fits,
          mod-eq_of_lt {n = 0 + i + 1} {m = 2 ^ c.index_bits},
          mod-eq_of_lt {n = slot_count m - 1} {m = 2 ^ c.index_bits},
        ),
        ground (arith, g, at_i, length-relink c 0 m.slots),
      )

  cleared-IsValid : 0 < slot_count m → IsValid c cleared (upwards (slot_count m) 0)
  cleared-IsValid pos = record {
    paired = refl;
    fits = omega (arith, cleared-count, v.fits);
    sum = omega (arith, cleared-count, length-upwards (slot_count m) 0);
    live_in = λ d lt. absurd (omega arith);
    live_back = λ d lt. absurd (omega arith);
    free_in = λ k lt.
        omega
          (arith, cleared-count, length-upwards (slot_count m) 0, upwards-at (slot_count m) 0 k);
    apart = λ d k lt. absurd (omega arith);
    distinct = λ j k p q e. omega (
      arith,
      length-upwards (slot_count m) 0,
      upwards-at (slot_count m) 0 j,
      upwards-at (slot_count m) 0 k,
    );
    chain = λ k lt. ground (
      arith,
      length-upwards (slot_count m) 0,
      upwards-at (slot_count m) 0 k,
      upwards-at (slot_count m) 0 (suc k),
      cleared-at k,
    );
    head_is = ground (arith, length-upwards (slot_count m) 0, upwards-at (slot_count m) 0 0);
    tail_is =
        ground
          (arith, length-upwards (slot_count m) 0, upwards-at (slot_count m) 0 (slot_count m - 1));
    generations = λ s lt. ground (
      arith,
      cleared-count,
      cleared-at s,
      mod-lt ((slot_at m.slots s).generation + 1) (one-le-pow c.generation_bits 2 (omega arith)),
    );
  }

  -- Clearing a valid map that has slots leaves a valid map with the same slots and no value, in which
  -- all slots are free, in order, and every handle to an entry of the old map is no longer valid.
  pub clear_lem :
      2 ≤ 2 ^ c.generation_bits
      → 0 < slot_count m
      → (m' : SlotMap A) × (clear c m ≡ some m')
        × IsValid c m' (upwards (slot_count m) 0)
        × (size m' ≡ 0)
        × (slot_count m' ≡ slot_count m)
        × ((h : Handle) → Refers m h → is_valid m' h ≡ false)
  unfolding clear is_valid
  clear_lem counted pos = (
    cleared,
    ground
        (arith, get_elem?-eq-get_or relinked (slot_count m - 1) no_slot, length-relink c 0 m.slots),
    cleared-IsValid pos,
    refl,
    cleared-count,
    λ h r. ground (
      arith,
      get_elem?-eq-get_or cleared_slots h.index no_slot,
      cleared-count,
      cleared-at h.index,
      next_generation c (slot_at m.slots h.index).generation counted,
      v.generations h.index,
      r.current,
      r.live.in_range,
    ),
  )

module _ {A : Type 0} (c : Bits) (m : SlotMap A) where
  -- Clearing a map without slots is undefined: it writes to the slot before the first.
  pub clear_no_slots : slot_count m ≡ 0 → clear c m ≡ none
  unfolding clear
  clear_no_slots e = ground arith

  -- Resetting any map leaves a valid one with no value, no slot and an empty free list.
  pub reset-IsValid : IsValid c (reset c m) [] × (slot_count (reset c m) ≡ 0)
  unfolding reset
  reset-IsValid = (
    record {
      paired = refl;
      fits = omega arith;
      sum = omega arith;
      live_in = λ d lt. absurd (omega arith);
      live_back = λ d lt. absurd (omega arith);
      free_in = λ k lt. absurd (omega arith);
      apart = λ d k p q. absurd (omega arith);
      distinct = λ j k p q e. absurd (omega arith);
      chain = λ k lt. absurd (omega arith);
      head_is = refl;
      tail_is = refl;
      generations = λ s lt. absurd (omega arith);
    },
    refl,
  )
