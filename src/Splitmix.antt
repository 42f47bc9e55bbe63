-- ===== src/Splitmix.antt =====
-- include/mclo/random/splitmix64.hpp, source/random/splitmix64.cpp and the function `avalanche_bits` of
-- include/mclo/random/seed_mixing.hpp: the splitmix64 generator. Its state is one number below 2^64.
pub mod Discard
mod Tests
use mclo.Common.{ℕ, ◌+◌, ◌*◌, ◌/◌, ◌%◌, ◌^◌}
use Prim.Native.Nat.{bit_xor}

abbrev pub offset : ℕ
offset = 0x9e3779b97f4a7c15

-- What a `std::uint64_t` holds of a number.
abbrev pub wrap : ℕ → ℕ
wrap n = n % 2 ^ 64

unfoldable pub avalanche_bits : ℕ → ℕ
avalanche_bits value =
    let first = wrap (bit_xor value (value / 2 ^ 30) * 0xbf58476d1ce4e5b9) in
    let second = wrap (bit_xor first (first / 2 ^ 27) * 0x94d049bb133111eb) in
    bit_xor second (second / 2 ^ 31)

-- The constructor.
unfoldable pub seed : ℕ → ℕ
seed value = value

-- `operator()`: the next value and the state after it.
unfoldable pub next : ℕ → ℕ × ℕ
unfolding avalanche_bits
next state = (avalanche_bits (wrap (state + offset)), wrap (state + offset))

unfoldable pub discard : ℕ → ℕ → ℕ
discard state count = wrap (state + wrap (count * offset))
