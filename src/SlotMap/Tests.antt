-- ===== src/SlotMap/Tests.antt =====
-- include/mclo/container/dense_slot_map.hpp at a concrete map, and the theorems at it.
use mclo.Common.{
  ℕ, zero, suc, ◌+◌, ◌*◌, ◌/◌, ◌<◌, ◌^◌, ◌≡◌, ◌≢◌, refl, none, some, [], ◌∷◌, true, false, arith,
}
use mclo.SlotMapHandle.{Bits, Handle}
use mclo.SlotMap.Capacity.{Growth}
use mclo.SlotMap.{
  SlotMap, emplaced, slots_threw, size, slot_count, emplace_and_get, erase, pop, found, is_valid,
}
use mclo.SlotMap.Slots.{clear, reserve_slots, reserved}
use mclo.SlotMap.Inv.{IsValid, Refers, slot_at, number_at}
use mclo.SlotMap.Emplace.{emplace_lem, emplace_keeps}
use mclo.SlotMap.Forget.{erase_lem, erase_keeps}
use mclo.SlotMap.Clear.{clear_lem}
use mclo.SlotMap.Reserve.{reserve_slots_lem}
use mclo.SlotMap.Guard.{emplace_throws}

abbrev widths : Bits
widths = record { index_bits = 24; generation_bits = 8 }

abbrev growth : Growth
growth = record { times_factor = λ n. n * 3 / 2; over_factor = λ n. n * 2 / 3 }

-- The value 10 in slot 2, the value 20 in slot 0, and slot 1 free.
abbrev sample : SlotMap ℕ
sample = record {
  values = 10 ∷ 20 ∷ [];
  reverse = 2 ∷ 0 ∷ [];
  capacity = 2;
  slots =
      record { index = 1; generation = 255 }
      ∷ record { index = 0; generation = 1 }
      ∷ record { index = 0; generation = 0 }
      ∷ [];
  free_head = 1;
  free_tail = 1;
}

abbrev first_handle : Handle
first_handle = record { index = 2; generation = 0 }

abbrev second_handle : Handle
second_handle = record { index = 0; generation = 255 }

sample-live_in : (d : ℕ) → d < 2 → number_at sample.reverse d < 3
sample-live_in zero lt = omega arith
sample-live_in (suc zero) lt = omega arith
sample-live_in (suc (suc d)) lt = absurd (omega arith)

sample-live_back : (d : ℕ) → d < 2 → (slot_at sample.slots (number_at sample.reverse d)).index ≡ d
sample-live_back zero lt = refl
sample-live_back (suc zero) lt = refl
sample-live_back (suc (suc d)) lt = absurd (omega arith)

sample-free_in : (k : ℕ) → k < 1 → number_at (1 ∷ []) k < 3
sample-free_in zero lt = omega arith
sample-free_in (suc k) lt = absurd (omega arith)

sample-apart : (d k : ℕ) → d < 2 → k < 1 → number_at sample.reverse d ≢ number_at (1 ∷ []) k
sample-apart d (suc k) p q = absurd (omega arith)
sample-apart zero zero p q = omega arith
sample-apart (suc zero) zero p q = omega arith
sample-apart (suc (suc d)) zero p q = absurd (omega arith)

sample-generations : (s : ℕ) → s < 3 → (slot_at sample.slots s).generation < 2 ^ 8
sample-generations zero lt = omega arith
sample-generations (suc zero) lt = omega arith
sample-generations (suc (suc zero)) lt = omega arith
sample-generations (suc (suc (suc s))) lt = absurd (omega arith)

sample-IsValid : IsValid widths sample (1 ∷ [])
sample-IsValid = record {
  paired = refl;
  fits = omega arith;
  sum = refl;
  live_in = sample-live_in;
  live_back = sample-live_back;
  free_in = sample-free_in;
  apart = sample-apart;
  distinct = λ j k p q e. omega arith;
  chain = λ k lt. absurd (omega arith);
  head_is = refl;
  tail_is = refl;
  generations = sample-generations;
}

first-Refers : Refers sample first_handle
first-Refers = record {
  live = record { in_range = omega arith; has_value = omega arith; named_back = refl };
  current = refl;
}

second-Refers : Refers sample second_handle
second-Refers = record {
  live = record { in_range = omega arith; has_value = omega arith; named_back = refl };
  current = refl;
}

sample_finds : (found sample first_handle ≡ some 10) × (found sample second_handle ≡ some 20)
unfolding found
sample_finds = (refl, refl)

emplace_lem_example :
    (h : Handle) × (m' : SlotMap ℕ) × (emplace_and_get widths growth false sample 30
      ≡ some (emplaced h m'))
    × IsValid widths m' []
    × Refers m' h
    × (found m' h ≡ some 30)
    × (size m' ≡ 3)
emplace_lem_example = emplace_lem widths (omega arith) growth sample 30 sample-IsValid (omega arith)

emplace_keeps_example :
    (h : Handle) × (m' : SlotMap ℕ) × (emplace_and_get widths growth false sample 30
      ≡ some (emplaced h m'))
    × Refers m' first_handle
    × (found m' first_handle ≡ found sample first_handle)
    × (2 ≢ h.index)
emplace_keeps_example =
    emplace_keeps widths (omega arith) growth sample 30 sample-IsValid (omega arith) first_handle
      first-Refers

erase_lem_example :
    (m' : SlotMap ℕ) × (erase widths sample second_handle ≡ some m')
    × (pop widths sample second_handle ≡ some (found sample second_handle, m'))
    × IsValid widths m' (1 ∷ 0 ∷ [])
    × (is_valid m' second_handle ≡ false)
    × (found m' second_handle ≡ none)
    × (size m' + 1 ≡ 2)
erase_lem_example =
    erase_lem widths (omega arith) (omega arith) sample second_handle sample-IsValid second-Refers

erase_keeps_example :
    (m' : SlotMap ℕ) × (erase widths sample first_handle ≡ some m')
    × Refers m' second_handle
    × (found m' second_handle ≡ found sample second_handle)
erase_keeps_example =
    erase_keeps widths (omega arith) (omega arith) sample first_handle sample-IsValid first-Refers
      second_handle second-Refers (omega arith)

clear_lem_example :
    (m' : SlotMap ℕ) × (clear widths sample ≡ some m')
    × IsValid widths m' (0 ∷ 1 ∷ 2 ∷ [])
    × (size m' ≡ 0)
    × (slot_count m' ≡ 3)
    × ((h : Handle) → Refers sample h → is_valid m' h ≡ false)
clear_lem_example = clear_lem widths (omega arith) sample sample-IsValid (omega arith) (omega arith)

abbrev no_slots : SlotMap ℕ
no_slots = record {
  values = [];
  reverse = [];
  capacity = 0;
  slots = [];
  free_head = 0;
  free_tail = 0;
}

reserve_slots_lem_example :
    (m' : SlotMap ℕ) × (reserve_slots widths sample 5 ≡ reserved m')
    × IsValid widths m' (4 ∷ 3 ∷ 1 ∷ [])
    × (slot_count m' ≡ 5)
    × (m'.values ≡ 10 ∷ 20 ∷ [])
    × ((h : Handle) → Refers sample h → Refers m' h × (found m' h ≡ found sample h))
reserve_slots_lem_example =
    reserve_slots_lem widths (omega arith) sample sample-IsValid 5 (omega arith) (omega arith)

-- One value, one slot, and room for two more values.
abbrev roomy : SlotMap ℕ
roomy = record {
  values = 7 ∷ [];
  reverse = 0 ∷ [];
  capacity = 3;
  slots = record { index = 0; generation = 0 } ∷ [];
  free_head = 1;
  free_tail = 1;
}

roomy-IsValid : IsValid widths roomy []
roomy-IsValid = record {
  paired = refl;
  fits = omega arith;
  sum = refl;
  live_in = roomy-live_in;
  live_back = roomy-live_back;
  free_in = λ k lt. absurd (omega arith);
  apart = λ d k p q. absurd (omega arith);
  distinct = λ j k p q e. absurd (omega arith);
  chain = λ k lt. absurd (omega arith);
  head_is = refl;
  tail_is = refl;
  generations = roomy-generations;
}
  where
    roomy-live_in : (d : ℕ) → d < 1 → number_at roomy.reverse d < 1
    roomy-live_in zero lt = omega arith
    roomy-live_in (suc d) lt = absurd (omega arith)

    roomy-live_back : (d : ℕ) → d < 1 → (slot_at roomy.slots (number_at roomy.reverse d)).index ≡ d
    roomy-live_back zero lt = refl
    roomy-live_back (suc d) lt = absurd (omega arith)

    roomy-generations : (s : ℕ) → s < 1 → (slot_at roomy.slots s).generation < 2 ^ 8
    roomy-generations zero lt = omega arith
    roomy-generations (suc s) lt = absurd (omega arith)

emplace_throws_example :
    (m' : SlotMap ℕ) × (emplace_and_get widths growth true roomy 8 ≡ some (slots_threw m'))
    × (m'.slots ≡ roomy.slots)
    × (m'.free_head ≡ 1)
    × (m'.free_tail ≡ 1)
    × (m'.values ≡ 7 ∷ 8 ∷ [])
emplace_throws_example = emplace_throws widths growth roomy 8 roomy-IsValid (omega arith)
