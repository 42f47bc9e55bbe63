-- ===== src/Bitset/Tests.antt =====
-- include/mclo/container/detail/bitset_base.hpp at concrete sets, and the theorems at them.
use mclo.Bitset.Each.{Ascending, for_each_set_lem}
use mclo.Bitset.Chars.{to_string-init_from_string}
use mclo.Common.{
  List, has, length, replicate, ◌≢◌, ℕ, zero, suc, ◌+◌, ◌-◌, ◌/◌, ◌%◌, ◌^◌, ◌≤◌, ◌<◌, ◌≡◌, refl, ap,
  ◌∙◌, some, [], ◌∷◌, true, false, not, ◌&&◌, ◌||◌, ltb, leb, ◌==◌, if◌then◌else◌, get_or, test_bit,
  test_bit-zero, test_bit-above, xor, inl, inr, Bool-cases, arith,
}
use mclo.Bitset.{
  Bitset, num_values, from_value, to_mask, test, set_bit, test_set, set_all, reset_all, flip_all,
  and_assign, or_assign, xor_assign, shift_left, shift_right, find_first_set, find_first_unset,
  resize, unset_until, for_each_set, count, to_string, init_from_string, equal, unset_from,
  last_mask, countr_one,
}
use mclo.Bitset.Words.{member, IsBitset}
use mclo.Bitset.Set.{change_lem}
use mclo.Bitset.Bulk.{set_all_lem}
use mclo.Bitset.Combine.{and_assign_lem}
use mclo.Bitset.Find.{First, find_first_set_lem}
use mclo.Bitset.Unset.{is_unset, find_first_unset_lem}
use mclo.Bitset.Shift.{shift_left_lem}
use mclo.Bitset.Lower.{shift_right_lem}
use mclo.Bitset.Query.{resize_lem}

-- The positions 0, 2, 7, 8 and 11 of 12, in words of 8 bits.
abbrev sample : Bitset
sample = record { size = 12; container = 133 ∷ 9 ∷ [] }

sample-small : (p : ℕ) → get_or sample.container p 0 < 2 ^ 8
sample-small zero = omega arith
sample-small (suc zero) = omega arith
sample-small (suc (suc p)) = omega arith

sample-rest : (i : ℕ) → 12 ≤ i → member 8 sample.container i ≡ false
sample-rest i le = elim (Bool-cases (i / 8 == 1)) [
  | inl t ↦
      (let e : i / 8 ≡ 1 = ground arith in
        ap (λ q. test_bit (get_or sample.container q 0) (i % 8)) e
        ∙ test_bit-above 4 9 (i % 8) (omega arith) (omega (arith, e)))
  | inr f ↦
      (let e : i / 8 ≡ suc (suc (i / 8 - 2)) = ground arith in
        ap (λ q. test_bit (get_or sample.container q 0) (i % 8)) e ∙ test_bit-zero (i % 8))
]

sample-IsBitset : IsBitset 8 sample
unfolding num_values
sample-IsBitset = record {
  some_bits = omega arith;
  words = refl;
  bounded = sample-small;
  rest = sample-rest;
}

change_lem_example :
    (test 8 sample 9 ≡ some false)
    × ((t : Bitset) × (set_bit 8 sample 9 true ≡ some t)
        × (test_set 8 sample 9 true ≡ some (false, t))
        × IsBitset 8 t
        × (t.size ≡ 12)
        × ((i : ℕ)
            → member 8 t.container i ≡ (if i == 9 then true else member 8 sample.container i)))
change_lem_example = change_lem 8 sample sample-IsBitset 9 (omega arith) true

set_all_lem_example :
    (IsBitset 8 (set_all 8 sample)
      × ((set_all 8 sample).size ≡ 12)
      × ((i : ℕ) → member 8 (set_all 8 sample).container i ≡ ltb i 12))
    × (IsBitset 8 (reset_all sample)
        × ((reset_all sample).size ≡ 12)
        × ((i : ℕ) → member 8 (reset_all sample).container i ≡ false))
    × (IsBitset 8 (flip_all 8 sample)
        × ((flip_all 8 sample).size ≡ 12)
        × ((i : ℕ)
            → member 8 (flip_all 8 sample).container i
              ≡ (ltb i 12 && not (member 8 sample.container i))))
set_all_lem_example = set_all_lem 8 sample sample-IsBitset

and_assign_lem_example :
    IsBitset 8 (and_assign sample sample)
    × IsBitset 8 (or_assign sample sample)
    × IsBitset 8 (xor_assign sample sample)
    × ((i : ℕ)
        → (member 8 (and_assign sample sample).container i
            ≡ (member 8 sample.container i && member 8 sample.container i))
          × (member 8 (or_assign sample sample).container i
              ≡ (member 8 sample.container i || member 8 sample.container i))
          × (member 8 (xor_assign sample sample).container i
              ≡ xor (member 8 sample.container i) (member 8 sample.container i)))
and_assign_lem_example = and_assign_lem 8 sample sample sample-IsBitset sample-IsBitset refl

find_first_set_lem_example : First (member 8 sample.container) 3 (find_first_set 8 sample 3)
find_first_set_lem_example = find_first_set_lem 8 sample sample-IsBitset 3

find_first_unset_lem_example : First (is_unset 8 sample) 7 (find_first_unset 8 sample 7)
find_first_unset_lem_example = find_first_unset_lem 8 sample sample-IsBitset 7 (omega arith)

shift_left_lem_example :
    (t : Bitset) × (shift_left 8 sample 9 ≡ some t)
    × IsBitset 8 t
    × (t.size ≡ 12)
    × ((i : ℕ)
        → member 8 t.container i ≡ (ltb i 12 && (leb 9 i && member 8 sample.container (i - 9))))
shift_left_lem_example = shift_left_lem 8 sample sample-IsBitset 9 (omega arith)

shift_right_lem_example :
    (t : Bitset) × (shift_right 8 sample 9 ≡ some t)
    × IsBitset 8 t
    × (t.size ≡ 12)
    × ((i : ℕ) → member 8 t.container i ≡ member 8 sample.container (i + 9))
shift_right_lem_example = shift_right_lem 8 sample sample-IsBitset 9 (omega arith)

resize_lem_example :
    ((i : ℕ)
      → member 8 (resize 8 sample 20).container i
        ≡ (ltb (i / 8) (num_values 8 20) && member 8 sample.container i))
    × ((resize 8 sample 20).size ≡ 20)
    × (length (resize 8 sample 20).container ≡ num_values 8 20)
    × (12 ≤ 20
        → IsBitset 8 (resize 8 sample 20)
          × ((i : ℕ) → member 8 (resize 8 sample 20).container i ≡ member 8 sample.container i))
resize_lem_example = resize_lem 8 sample sample-IsBitset 20

for_each_set_lem_example :
    (r : List ℕ) × (for_each_set 8 sample ≡ some r)
    × (count 8 sample ≡ length r)
    × Ascending 0 r
    × ((i : ℕ) → has i r ≡ member 8 sample.container i)
for_each_set_lem_example = for_each_set_lem 8 sample sample-IsBitset

abbrev zero_char : ℕ
zero_char = 48

two_chars : zero_char ≢ 49
two_chars e = absurd (omega (arith, e))

to_string-init_from_string_example :
    (str : List ℕ) × (t : Bitset) × (to_string 8 zero_char 49 sample ≡ some str)
    × (init_from_string 8 zero_char 49
          (record { size = 12; container = replicate (num_values 8 12) 0 })
          str
        ≡ some t)
    × IsBitset 8 t
    × (equal t sample ≡ true)
to_string-init_from_string_example =
    to_string-init_from_string 8 zero_char 49 sample sample-IsBitset two_chars

-- A set of 5 after a resize from 12 still has position 7.
shrunk : member 8 (resize 8 sample 5).container 7 ≡ true
unfolding resize num_values
shrunk = refl

-- From a start two words behind the last one `find_first_unset` goes back.
behind : find_first_unset 8 sample 26 ≡ some 10
unfolding find_first_unset unset_until unset_from last_mask countr_one
behind = refl

-- A set of 5 from a word of 8 bits has position 7.
untrimmed : member 8 (from_value 5 255).container 7 ≡ true
unfolding from_value
untrimmed = refl

mask_kept : to_mask (from_value 5 255) ≡ 255
unfolding from_value to_mask
mask_kept = refl
