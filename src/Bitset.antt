-- ===== src/Bitset.antt =====
-- include/mclo/container/detail/bitset_base.hpp, bitset.hpp and dynamic_bitset.hpp: sets of bits in words.
--
-- A set is its size and the list of its words; `w` is bits_per_value, the number of bits in a word, so
-- that a word is a number below 2 ^ w. The fixed and the dynamic set differ in where the size is kept. `none`
-- as the result of an operation is a failed assertion, an access out of bounds or an exception, and as
-- the result of a search npos.
pub mod Words
pub mod Set
pub mod Trim
pub mod Bulk
pub mod Combine
pub mod Find
pub mod Pages
pub mod Unset
pub mod Raise
pub mod Shift
pub mod Sink
pub mod Lower
pub mod Query
pub mod Fill
pub mod Text
pub mod Each
pub mod Chars
mod Tests
use mclo.Common.{
  ℕ, zero, suc, ◌+◌, ◌-◌, ◌*◌, ◌/◌, ◌%◌, ◌^◌, min, Option, none, some, List, [], ◌∷◌, ◌++◌, map,
  Bool, true, false, not, ◌&&◌, ◌||◌, ltb, leb, ◌==◌, if◌then◌else◌, ◌>>=◌, ◌>>◌, require, length,
  get_elem?, get_or, set, take, drop, replicate,
}
use Prim.Native.Nat.{bit_or, bit_and, bit_xor}

pub record Bitset : Type 0 where
  pub size : ℕ
  pub container : List ℕ

-- `ceil_divide( num_bits, bits_per_value )`
unfoldable pub num_values : ℕ → ℕ → ℕ
num_values w n = if n % w == 0 then n / w else n / w + 1

-- `~value`
abbrev pub complement : ℕ → ℕ → ℕ
complement w x = 2 ^ w - 1 - x

unfoldable pub last_mask : ℕ → Bitset → ℕ
last_mask w s = 2 ^ (s.size % w) - 1

abbrev pub back : List ℕ → ℕ
back c = get_or c (length c - 1) 0

unfoldable pub trim : ℕ → Bitset → Bitset
trim w s = if s.size % w == 0 then s else record s {
  container = set s.container (length s.container - 1) (bit_and (back s.container) (last_mask w s));
}

unfoldable pub construct : ℕ → ℕ → List ℕ → Option Bitset
construct w n c =
    require (leb n (length c * w)) (some (trim w (record { size = n; container = c })))

-- The constructor of a `bitset` of one word from that word, which is not trimmed, and `to_mask`.
unfoldable pub from_value : ℕ → ℕ → Bitset
from_value n value = record { size = n; container = value ∷ [] }

unfoldable pub to_mask : Bitset → ℕ
to_mask s = get_or s.container 0 0

unfoldable pub resize : ℕ → Bitset → ℕ → Bitset
resize w s n =
    let k = num_values w n in
    record { size = n; container = take k s.container ++ replicate (k - length s.container) 0 }

unfoldable pub test : ℕ → Bitset → ℕ → Option Bool
test w s pos =
    require (ltb pos s.size)
      (do word ← get_elem? s.container (pos / w); some (not (bit_and word (2 ^ (pos % w)) == 0)))

-- A write to the word that holds a position.
abbrev pub change : ℕ → Bitset → ℕ → (ℕ → ℕ) → Option Bitset
change w s pos f = require (ltb pos s.size) (do
  word ← get_elem? s.container (pos / w)
  some (record s { container = set s.container (pos / w) (f word) }))

unfoldable pub set_internal : ℕ → Bool → Bitset → ℕ → Option Bitset
set_internal w value s pos =
    let bit_value = 2 ^ (pos % w) in
    change w s pos
      (λ word. if value then bit_or word bit_value else bit_and word (complement w bit_value))

unfoldable pub set_bit : ℕ → Bitset → ℕ → Bool → Option Bitset
set_bit w s pos value = if value then set_internal w true s pos else set_internal w false s pos

unfoldable pub test_set : ℕ → Bitset → ℕ → Bool → Option (Bool × Bitset)
test_set w s pos value = require (ltb pos s.size) (do
  word ← get_elem? s.container (pos / w)
  let bit_value = 2 ^ (pos % w)
  let old_value = not (bit_and word bit_value == 0)
  let new = if value then bit_or word bit_value else bit_and word (complement w bit_value)
  some (old_value, record s { container = set s.container (pos / w) new }))

unfoldable pub flip_bit : ℕ → Bitset → ℕ → Option Bitset
flip_bit w s pos = change w s pos (λ word. bit_xor word (2 ^ (pos % w)))

unfoldable pub all_full : ℕ → ℕ → List ℕ → Bool
all_full w zero c = true
all_full w (suc n) [] = true
all_full w (suc n) (x ∷ c) = if x == 2 ^ w - 1 then all_full w n c else false

unfoldable pub all : ℕ → Bitset → Bool
all w s =
    let m = last_mask w s in
    let end = if m == 0 then length s.container else length s.container - 1 in
    if all_full w end s.container then (if m == 0 then true else back s.container == m) else false

unfoldable pub any_word : List ℕ → Bool
any_word [] = false
any_word (x ∷ c) = if x == 0 then any_word c else true

unfoldable pub any : Bitset → Bool
any s = any_word s.container

-- `std::popcount` of a word of so many bits.
unfoldable pub popcount : ℕ → ℕ → ℕ
popcount zero x = 0
popcount (suc n) x = x % 2 + popcount n (x / 2)

unfoldable pub count_words : ℕ → List ℕ → ℕ
count_words w [] = 0
count_words w (x ∷ c) = popcount w x + count_words w c

unfoldable pub count : ℕ → Bitset → ℕ
count w s = count_words w s.container

unfoldable pub set_all : ℕ → Bitset → Bitset
set_all w s = trim w (record s { container = replicate (length s.container) (2 ^ w - 1) })

unfoldable pub reset_all : Bitset → Bitset
reset_all s = record s { container = replicate (length s.container) 0 }

unfoldable pub flip_all : ℕ → Bitset → Bitset
flip_all w s = trim w (record s { container = map (complement w) s.container })

-- `std::countr_zero` and `std::countr_one` of a word of so many bits.
unfoldable pub countr_zero : ℕ → ℕ → ℕ
countr_zero zero x = 0
countr_zero (suc n) x = let rest = countr_zero n (x / 2) in if x % 2 == 1 then 0 else rest + 1

unfoldable pub countr_one : ℕ → ℕ → ℕ
countr_one zero x = 0
countr_one (suc n) x = let rest = countr_one n (x / 2) in if x % 2 == 1 then rest + 1 else 0

-- The loop of `find_first_set` from a page on.
unfoldable pub set_from : ℕ → ℕ → ℕ → List ℕ → Option ℕ
set_from w page start_index [] = none
set_from w page start_index (x ∷ c) =
    let bit_index = countr_zero w (x / 2 ^ start_index) in
    let rest = set_from w (page + 1) 0 c in
    if bit_index == w then rest else some (page * w + start_index + bit_index)

unfoldable pub find_first_set : ℕ → Bitset → ℕ → Option ℕ
find_first_set w s start_pos =
    set_from w (start_pos / w) (start_pos % w) (drop (start_pos / w) s.container)

-- The loop of `find_first_unset`, for so many pages; the mask that is left when nothing is found.
unfoldable pub unset_from : ℕ → ℕ → ℕ → ℕ → List ℕ → Option ℕ × ℕ
unset_from w zero page mask c = (none, mask)
unset_from w (suc n) page mask [] = (none, mask)
unset_from w (suc n) page mask (x ∷ c) =
    let bit_index = countr_one w (bit_or x mask) in
    let rest = unset_from w n (page + 1) 0 c in
    if bit_index == w then rest else (some (page * w + bit_index), mask)

-- `find_first_unset` with the index of the last word, or the number of words if it is full.
unfoldable pub unset_until : ℕ → Bitset → ℕ → ℕ → Option ℕ
unset_until w s start_pos end =
    let m = last_mask w s in
    let page = start_pos / w in
    let r = unset_from w (end - page) page (2 ^ (start_pos % w) - 1) (drop page s.container) in
    let bit_index = countr_one w (bit_or (bit_or (back s.container) r.1) (complement w m)) in
    elim r.0 [
      | some found ↦ some found
      | none ↦ if m == 0 then none else if bit_index == w then none else some (end * w + bit_index)
    ]

unfoldable pub find_first_unset : ℕ → Bitset → ℕ → Option ℕ
find_first_unset w s start_pos =
    unset_until w s start_pos
      (if last_mask w s == 0 then length s.container else length s.container - 1)

-- The loop of `for_each_set` in one word: the positions that `func` gets, from `base` on.
unfoldable pub word_positions : ℕ → ℕ → ℕ → ℕ → Option (List ℕ)
word_positions w zero base value = if value == 0 then some [] else none
word_positions w (suc fuel) base value = if value == 0 then some [] else (do
  rest ← word_positions w fuel base (bit_and value (value - 1))
  some ((base + countr_zero w value) ∷ rest))

unfoldable pub positions_from : ℕ → ℕ → List ℕ → Option (List ℕ)
positions_from w page [] = some []
positions_from w page (x ∷ c) = do
  here ← word_positions w w (page * w) x
  rest ← positions_from w (page + 1) c
  some (here ++ rest)

unfoldable pub for_each_set : ℕ → Bitset → Option (List ℕ)
for_each_set w s = positions_from w 0 s.container

unfoldable pub equal_words : List ℕ → List ℕ → Bool
equal_words [] [] = true
equal_words [] (y ∷ d) = false
equal_words (x ∷ c) [] = false
equal_words (x ∷ c) (y ∷ d) = if x == y then equal_words c d else false

unfoldable pub equal : Bitset → Bitset → Bool
equal s t = equal_words s.container t.container && s.size == t.size

-- The loop of `&=`, `|=` and `^=`.
unfoldable pub combine : (ℕ → ℕ → ℕ) → List ℕ → List ℕ → List ℕ
combine f [] d = []
combine f (x ∷ c) [] = x ∷ c
combine f (x ∷ c) (y ∷ d) = f x y ∷ combine f c d

unfoldable pub and_assign : Bitset → Bitset → Bitset
and_assign s t = record s { container = combine bit_and s.container t.container }

unfoldable pub or_assign : Bitset → Bitset → Bitset
or_assign s t = record s { container = combine bit_or s.container t.container }

unfoldable pub xor_assign : Bitset → Bitset → Bitset
xor_assign s t = record s { container = combine bit_xor s.container t.container }

-- The loops of `<<=`, from the last word down.
unfoldable pub raise_words : ℕ → ℕ → List ℕ → List ℕ
raise_words zero by c = c
raise_words (suc i) by c = raise_words i by (set c i (if leb by i then get_or c (i - by) 0 else 0))

unfoldable pub raise_bits : ℕ → ℕ → ℕ → List ℕ → List ℕ
raise_bits w zero by c = set c 0 (get_or c 0 0 * 2 ^ by % 2 ^ w)
raise_bits w (suc i) by c =
    raise_bits w i by
      (set c (suc i) (bit_or (get_or c (suc i) 0 * 2 ^ by % 2 ^ w) (get_or c i 0 / 2 ^ (w - by))))

unfoldable pub shift_left : ℕ → Bitset → ℕ → Option Bitset
shift_left w s pos =
    let c =
      if pos / w == 0
      then s.container
      else raise_words (length s.container) (pos / w) s.container in
    if pos % w == 0
    then some (trim w (record s { container = c }))
    else require (not (length c == 0))
        (some (trim w (record s { container = raise_bits w (length c - 1) (pos % w) c })))

-- The loops of `>>=`, for so many words from an index on.
unfoldable pub lower_words : ℕ → ℕ → ℕ → List ℕ → List ℕ
lower_words zero i by c = c
lower_words (suc n) i by c =
    lower_words n (i + 1) by (set c i (if leb by n then get_or c (i + by) 0 else 0))

unfoldable pub lower_bits : ℕ → ℕ → ℕ → ℕ → List ℕ → List ℕ
lower_bits w zero i by c = set c i (get_or c i 0 / 2 ^ by)
lower_bits w (suc n) i by c =
    lower_bits w n (i + 1) by
      (set c i (bit_or (get_or c i 0 / 2 ^ by) (get_or c (i + 1) 0 * 2 ^ (w - by) % 2 ^ w)))

unfoldable pub shift_right : ℕ → Bitset → ℕ → Option Bitset
shift_right w s pos =
    let c =
      if pos / w == 0
      then s.container
      else lower_words (length s.container) 0 (pos / w) s.container in
    if pos % w == 0
    then some (record s { container = c })
    else require (not (length c == 0))
        (some (record s { container = lower_bits w (length c - 1) 0 (pos % w) c }))

-- The writes of `to_string`.
unfoldable pub mark : ℕ → ℕ → List ℕ → List ℕ → Option (List ℕ)
mark set_char n [] result = some result
mark set_char n (index ∷ rest) result =
    require (ltb index n) (mark set_char n rest (set result (n - 1 - index) set_char))

unfoldable pub to_string : ℕ → ℕ → ℕ → Bitset → Option (List ℕ)
to_string w unset_char set_char s = do
  positions ← for_each_set w s
  mark set_char s.size positions (replicate s.size unset_char)

-- The loop of `init_from_range` and of `init_from_string`, over the bits from the lowest on.
unfoldable pub fill : ℕ → List Bool → ℕ → ℕ → ℕ → List ℕ → List ℕ
fill w [] page index current c = if index == 0 then c else set c page current
fill w (b ∷ bs) page index current c =
    let next = bit_or current (if b then 2 ^ index else 0) in
    let full = fill w bs (page + 1) 0 0 (set c page next) in
    let more = fill w bs page (index + 1) next c in if index + 1 == w then full else more

unfoldable pub init_from_range : ℕ → Bitset → List Bool → Bitset
init_from_range w s bs = record s { container = fill w (take s.size bs) 0 0 0 s.container }

-- The bits of a string from its end on, if all characters are valid.
unfoldable pub read_bits : ℕ → ℕ → List ℕ → List Bool → Option (List Bool)
read_bits unset_char set_char [] bs = some bs
read_bits unset_char set_char (x ∷ str) bs =
    require (x == set_char || x == unset_char)
      (read_bits unset_char set_char str ((x == set_char) ∷ bs))

unfoldable pub init_from_string : ℕ → ℕ → ℕ → Bitset → List ℕ → Option Bitset
init_from_string w unset_char set_char s str = do
  beyond ← read_bits unset_char set_char (drop s.size str) []
  bs ← read_bits unset_char set_char (take s.size str) []
  some (record s { container = fill w bs 0 0 0 s.container })
