-- ===== src/SlotMapHandle.antt =====
-- include/mclo/container/slot_map_handle.hpp: an index and a generation, packed into bit-fields.
pub mod Packing
mod Tests
use mclo.Common.{
  ℕ, ◌+◌, ◌-◌, ◌*◌, ◌/◌, ◌%◌, ◌^◌, Option, none, some, Bool, ◌&&◌, ltb, leb, ◌==◌, if◌then◌else◌,
}
use Prim.Native.Nat.{bit_or, bit_and}

-- The widths of the two bit-fields: `TotalBits - GenerationBits` and `GenerationBits`.
pub record Bits : Type 0 where
  pub index_bits : ℕ
  pub generation_bits : ℕ

pub record Handle : Type 0 where
  pub index : ℕ
  pub generation : ℕ

abbrev pub max_index : Bits → ℕ
max_index c = 2 ^ c.index_bits - 2

abbrev pub max_generation : Bits → ℕ
max_generation c = 2 ^ c.generation_bits - 1

-- The most objects that a slot map holds.
abbrev pub max_size : Bits → ℕ
max_size c = max_index c + 1

-- What a store into a bit-field keeps.
abbrev pub index_field : Bits → ℕ → ℕ
index_field c n = n % 2 ^ c.index_bits

abbrev pub generation_field : Bits → ℕ → ℕ
generation_field c n = n % 2 ^ c.generation_bits

-- A default-constructed handle.
abbrev pub null_handle : Bits → Handle
null_handle c = record { index = max_index c + 1; generation = max_generation c }

pub is_null : Bits → Handle → Bool
is_null c h = h.index == max_index c + 1

-- The width of `representation_type`.
abbrev pub representation_bits : Bits → ℕ
representation_bits c =
    let total = c.index_bits + c.generation_bits in
    if leb total 8 then 8 else if leb total 16 then 16 else if leb total 32 then 32 else 64

-- A bit-field of less than 32 bits is promoted to `int`, one of 32 bits to `unsigned int`, and a wider
-- one has its own type of 64 bits.
abbrev pub promoted_bits : ℕ → ℕ
promoted_bits field_bits = if leb field_bits 32 then 32 else 64

-- The shifted generation, converted to 64 bits: a negative `int` has its sign extended.
abbrev pub sign_extended : Bits → ℕ → ℕ
sign_extended c value =
    if ltb c.generation_bits 32 && leb (2 ^ 31) value then value + (2 ^ 64 - 2 ^ 32) else value

-- `( generation << index_bits ) | index`: the shift is one of the promoted type, where it is undefined
-- by the width or more, and the result is converted to the representation.
unfoldable pub get_combined : Bits → Handle → Option ℕ
get_combined c h =
    let width = promoted_bits c.generation_bits in
    if ltb c.index_bits width
    then some (
        bit_or (sign_extended c (h.generation * 2 ^ c.index_bits % 2 ^ width)) h.index
        % 2 ^ representation_bits c)
    else none

unfoldable pub set_combined : Bits → ℕ → Handle
set_combined c value = record {
  index = index_field c (bit_and value (2 ^ c.index_bits - 1));
  generation = generation_field c (value / 2 ^ c.index_bits);
}
