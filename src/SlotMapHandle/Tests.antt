-- ===== src/SlotMapHandle/Tests.antt =====
-- include/mclo/container/slot_map_handle.hpp at a handle of 24 and 8 bits.
use mclo.Common.{ℕ, ◌-◌, ◌*◌, ◌^◌, ◌≡◌, refl, none, some, inl, arith}
use mclo.SlotMapHandle.{Bits, Handle, get_combined, set_combined}
use mclo.SlotMapHandle.Packing.{set_combined-get_combined}

abbrev widths : Bits
widths = record { index_bits = 24; generation_bits = 8 }

abbrev handle : Handle
handle = record { index = 5; generation = 200 }

set_combined-get_combined_example :
    (v : ℕ) × (get_combined widths handle ≡ some v)
    × (v ≡ 3355443205)
    × (set_combined widths v ≡ handle)
set_combined-get_combined_example =
    set_combined-get_combined widths handle
      (record { index = omega arith; generation = omega arith })
      (record { some_generation = omega arith; room = inl (omega arith) })

-- The shift of a handle with 48 bits for the index is undefined.
shifted_out : get_combined (record { index_bits = 48; generation_bits = 16 }) handle ≡ none
unfolding get_combined
shifted_out = refl

-- In a handle of 20 and 20 bits the shifted generation 2048 is negative, and its sign fills the bits
-- above.
sign_shown :
    get_combined
      (record { index_bits = 20; generation_bits = 20 })
      (record { index = 0; generation = 2048 })
    ≡ some ((2 ^ 44 - 2048) * 2 ^ 20)
unfolding get_combined
sign_shown = refl
