-- ===== src/Chacha.antt =====
-- include/mclo/random/chacha.hpp and source/random/chacha.cpp: the ChaCha generator.
--
-- The arrays are lists of 16 words, of 8 values and of 32 or 12 bytes, and are read and written within
-- their range. A word is a number below 2^32, a value one below 2^64. `rounds` is the template's
-- parameter, an even number.
pub mod Skip
pub mod Laws
pub mod Discard
mod Tests
use mclo.Common.{
  ℕ, zero, suc, ◌+◌, ◌-◌, ◌*◌, ◌/◌, ◌%◌, ◌^◌, List, [], ◌∷◌, Bool, true, false, ◌&&◌, ltb, leb,
  ◌==◌, if◌then◌else◌, get_or, set, drop, replicate,
}
use Prim.Native.Nat.{bit_or, bit_xor}

pub record Chacha : Type 0 where
  pub state : List ℕ
  pub keystream : List ℕ
  pub keystream_index : ℕ

abbrev pub keystream_max : ℕ
keystream_max = 8

-- A read of a word or a value in range.
abbrev pub word : List ℕ → ℕ → ℕ
word xs i = get_or xs i 0

-- `std::uint32_t` addition.
abbrev pub add_word : ℕ → ℕ → ℕ
add_word a b = (a + b) % 2 ^ 32

-- `std::rotl` on a `std::uint32_t`.
pub rotl : ℕ → ℕ → ℕ
rotl x n = bit_or (x * 2 ^ n % 2 ^ 32) (x / 2 ^ (32 - n))

-- Four bytes, the lowest first.
pub load_le32 : List ℕ → ℕ → ℕ
load_le32 bytes i =
    word bytes i
    + word bytes (i + 1) * 2 ^ 8
    + word bytes (i + 2) * 2 ^ 16
    + word bytes (i + 3) * 2 ^ 24

-- The words `a`, `b`, `c` and `d` of the array are mixed.
pub quarter_round : List ℕ → ℕ → ℕ → ℕ → ℕ → List ℕ
unfolding rotl
quarter_round xs i j k l =
    let a₁ = add_word (word xs i) (word xs j) in
    let d₁ = rotl (bit_xor (word xs l) a₁) 16 in
    let c₁ = add_word (word xs k) d₁ in
    let b₁ = rotl (bit_xor (word xs j) c₁) 12 in
    let a₂ = add_word a₁ b₁ in
    let d₂ = rotl (bit_xor d₁ a₂) 8 in
    let c₂ = add_word c₁ d₂ in
    let b₂ = rotl (bit_xor b₁ c₂) 7 in set (set (set (set xs i a₂) j b₂) k c₂) l d₂

-- One pass of the loop over the rounds: the columns, then the diagonals.
pub double_round : List ℕ → List ℕ
unfolding quarter_round
double_round xs =
    let column1 = quarter_round xs 0 4 8 12 in
    let column2 = quarter_round column1 1 5 9 13 in
    let column3 = quarter_round column2 2 6 10 14 in
    let column4 = quarter_round column3 3 7 11 15 in
    let diagonal1 = quarter_round column4 0 5 10 15 in
    let diagonal2 = quarter_round diagonal1 1 6 11 12 in
    let diagonal3 = quarter_round diagonal2 2 7 8 13 in quarter_round diagonal3 3 4 9 14

-- `n` passes.
pub mix_rounds : ℕ → List ℕ → List ℕ
unfolding double_round
mix_rounds zero local = local
mix_rounds (suc n) local = mix_rounds n (double_round local)

-- The mixed words, each with the word of the state added.
pub add_state : List ℕ → List ℕ → List ℕ
add_state [] state = []
add_state (x ∷ local) [] = x ∷ local
add_state (x ∷ local) (s ∷ state) = add_word x s ∷ add_state local state

-- The values from the words `2 * i` and `2 * i + 1` on, `n` of them.
unfoldable pub join_words : List ℕ → ℕ → ℕ → List ℕ
join_words local zero i = []
join_words local (suc n) i =
    bit_or (word local (2 * i)) (word local (2 * i + 1) * 2 ^ 32) ∷ join_words local n (i + 1)

-- The values that a state gives.
unfoldable pub block : ℕ → List ℕ → List ℕ
unfolding mix_rounds add_state join_words
block rounds state = join_words (add_state (mix_rounds (rounds / 2) state) state) keystream_max 0

-- What the counter becomes after `n` increments.
unfoldable pub advance_counter : ℕ → List ℕ → List ℕ
advance_counter n state = set state 12 (add_word (word state 12) n)

-- Loads `n` words from the bytes into the state, at `at`.
pub load_words : List ℕ → ℕ → ℕ → ℕ → List ℕ → List ℕ
unfolding load_le32
load_words bytes zero i at state = state
load_words bytes (suc n) i at state =
    load_words bytes n (i + 1) at (set state (at + i) (load_le32 bytes (4 * i)))

unfoldable pub seed : Chacha → List ℕ → List ℕ → Chacha
unfolding load_words
seed g key nonce = record g {
  state = load_words nonce 3 0 13 (set (load_words key 8 0 4 g.state) 12 0);
  keystream_index = keystream_max;
}

-- The constructor.
unfoldable pub seeded : List ℕ → List ℕ → Chacha
seeded key nonce =
    seed
      (record {
        state = 0x61707865 ∷ 0x3320646e ∷ 0x79622d32 ∷ 0x6b206574 ∷ replicate 12 0;
        keystream = replicate 8 0;
        keystream_index = 0;
      })
      key nonce

module _ (rounds : ℕ) where
  unfoldable pub generate_block : Chacha → Chacha
  generate_block g = record {
    state = advance_counter 1 g.state;
    keystream = block rounds g.state;
    keystream_index = 0;
  }

  -- The generator with a value left in its keystream.
  unfoldable pub refill : Chacha → Chacha
  refill g = if leb keystream_max g.keystream_index then generate_block g else g

  -- `operator()`: the next value and the generator after it.
  unfoldable pub next : Chacha → ℕ × Chacha
  next g = (
    word (refill g).keystream (refill g).keystream_index,
    record (refill g) { keystream_index = (refill g).keystream_index + 1 },
  )

  unfoldable pub discard : Chacha → ℕ → Chacha
  discard g count =
      let buffered = keystream_max - g.keystream_index in
      let rest = count - buffered in
      let moved = record g { state = advance_counter (rest / keystream_max % 2 ^ 32) g.state } in
      if ltb count buffered
      then record g { keystream_index = g.keystream_index + count }
      else if rest % keystream_max == 0
      then record moved { keystream_index = keystream_max }
      else record (generate_block moved) { keystream_index = rest % keystream_max }

unfoldable pub set_counter : Chacha → ℕ → Chacha
set_counter g n = record g { state = set g.state 12 n; keystream_index = keystream_max }

unfoldable pub get_counter : Chacha → ℕ
get_counter g = word g.state 12

-- Equality of two arrays or of two ranges.
unfoldable pub list_eq : List ℕ → List ℕ → Bool
list_eq [] [] = true
list_eq [] (y ∷ ys) = false
list_eq (x ∷ xs) [] = false
list_eq (x ∷ xs) (y ∷ ys) = x == y && list_eq xs ys

-- `operator==`.
unfoldable pub equal : Chacha → Chacha → Bool
unfolding list_eq
equal g h =
    list_eq g.state h.state
    && g.keystream_index == h.keystream_index
    && list_eq (drop g.keystream_index g.keystream) (drop g.keystream_index h.keystream)
