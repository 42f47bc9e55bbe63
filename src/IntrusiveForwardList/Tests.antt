-- ===== src/IntrusiveForwardList/Tests.antt =====
-- include/mclo/container/intrusive_forward_list.hpp at concrete lists, and the theorems at them.
use mclo.Common.{
  ℕ, ◌*◌, ◌%◌, ◌≡◌, refl, none, some, [], ◌∷◌, Bool, true, false, ◌==◌, if◌then◌else◌, has, arith,
}
use mclo.IntrusiveForwardList.{
  Hooks, insert_range, insert_after, erase_range, splice_range, remove_if, unique, reverse, consume,
  clear,
}
use mclo.IntrusiveForwardList.Links.{IsList}
use mclo.IntrusiveForwardList.Insert.{insert_range_lem}
use mclo.IntrusiveForwardList.Erase.{erase_range_lem}
use mclo.IntrusiveForwardList.Remove.{remove_if_lem, unique_lem}
use mclo.IntrusiveForwardList.Reverse.{reverse_lem, consume_lem}
use mclo.IntrusiveForwardList.Splice.{splice_range_lem}

-- A list of the elements 1, 2, 3 at 10, one of 4, 5, 6 at 20, and an empty one at 30.
abbrev sample : Hooks
sample a =
    if a == 10
    then some 1
    else if a == 1
    then some 2
    else if a == 2
    then some 3
    else if a == 20
    then some 4
    else if a == 4
    then some 5
    else if a == 5
    then some 6
    else none

abbrev even : ℕ → Bool
even a = a % 2 == 0

first-IsList : IsList sample 10 (1 ∷ 2 ∷ 3 ∷ [])
first-IsList = record {
  links = (refl, (refl, (refl, refl)));
  distinct = (refl, (refl, (refl, (refl, tt))));
}

second-IsList : IsList sample 20 (4 ∷ 5 ∷ 6 ∷ [])
second-IsList = record {
  links = (refl, (refl, (refl, refl)));
  distinct = (refl, (refl, (refl, (refl, tt))));
}

apart : (a : ℕ) → has a (20 ∷ 4 ∷ 5 ∷ 6 ∷ []) ≡ true → has a (10 ∷ 1 ∷ 2 ∷ 3 ∷ []) ≡ false
apart a i = ground arith

new : (a : ℕ) → has a (7 ∷ 8 ∷ []) ≡ true → has a (10 ∷ 1 ∷ 2 ∷ 3 ∷ []) ≡ false
new a i = ground arith

insert_range_lem_example :
    (h' : Hooks) × (insert_range sample (some 1) (7 ∷ 8 ∷ []) ≡ some (some 8, h'))
    × IsList h' 10 (1 ∷ 7 ∷ 8 ∷ 2 ∷ 3 ∷ [])
    × ((a : ℕ) → has a (10 ∷ 1 ∷ 7 ∷ 8 ∷ 2 ∷ 3 ∷ []) ≡ false → h' a ≡ sample a)
    × (insert_after sample (some 1) 7 ≡ insert_range sample (some 1) (7 ∷ []))
insert_range_lem_example =
    insert_range_lem sample 10 (1 ∷ []) (2 ∷ 3 ∷ []) first-IsList 7 (8 ∷ []) (refl, (refl, tt)) new

erase_range_lem_example :
    (h' : Hooks) × (erase_range 2 sample (some 10) (some 2) ≡ some (some 2, h'))
    × IsList h' 10 (2 ∷ 3 ∷ [])
    × ((a : ℕ) → has a (1 ∷ []) ≡ true → h' a ≡ none)
    × ((a : ℕ) → has a (10 ∷ 1 ∷ 2 ∷ 3 ∷ []) ≡ false → h' a ≡ sample a)
    × (erase_range 2 sample (some 10) none ≡ none)
    × (erase_range 2 sample (some 10) (some 10) ≡ some (some 10, sample))
erase_range_lem_example =
    erase_range_lem sample 10 [] (1 ∷ []) 2 (3 ∷ []) first-IsList 2 (omega arith)

remove_if_lem_example :
    (h' : Hooks) × (remove_if even 4 sample 20 ≡ some (2, h'))
    × IsList h' 20 (5 ∷ [])
    × ((a : ℕ) → has a (4 ∷ 6 ∷ []) ≡ true → h' a ≡ none)
    × ((a : ℕ) → has a (20 ∷ 4 ∷ 5 ∷ 6 ∷ []) ≡ false → h' a ≡ sample a)
remove_if_lem_example = remove_if_lem even sample 20 (4 ∷ 5 ∷ 6 ∷ []) second-IsList 4 (omega arith)

unique_lem_example :
    (h' : Hooks) × (unique (λ a b. even (a * b)) 4 sample 10 ≡ some (1, h'))
    × IsList h' 10 (1 ∷ 3 ∷ [])
    × ((a : ℕ) → has a (2 ∷ []) ≡ true → h' a ≡ none)
    × ((a : ℕ) → has a (10 ∷ 1 ∷ 2 ∷ 3 ∷ []) ≡ false → h' a ≡ sample a)
unique_lem_example =
    unique_lem (λ a b. even (a * b)) sample 10 1 (2 ∷ 3 ∷ []) first-IsList 4 (omega arith)

reverse_lem_example :
    (h' : Hooks) × (reverse 3 sample 10 ≡ some h')
    × IsList h' 10 (3 ∷ 2 ∷ 1 ∷ [])
    × ((a : ℕ) → has a (10 ∷ 1 ∷ 2 ∷ 3 ∷ []) ≡ false → h' a ≡ sample a)
reverse_lem_example = reverse_lem sample 10 (1 ∷ 2 ∷ 3 ∷ []) first-IsList 3 (omega arith)

consume_lem_example :
    (h' : Hooks) × (consume 4 sample 10 ≡ some (1 ∷ 2 ∷ 3 ∷ [], h'))
    × (clear 4 sample 10 ≡ some h')
    × ((a : ℕ) → has a (10 ∷ 1 ∷ 2 ∷ 3 ∷ []) ≡ true → h' a ≡ none)
    × ((a : ℕ) → has a (10 ∷ 1 ∷ 2 ∷ 3 ∷ []) ≡ false → h' a ≡ sample a)
consume_lem_example = consume_lem sample 10 (1 ∷ 2 ∷ 3 ∷ []) first-IsList 4 (omega arith)

splice_range_lem_example :
    (h' : Hooks) × (splice_range 2 sample (some 4) (some 10) (some 3) ≡ some h')
    × IsList h' 20 (4 ∷ 1 ∷ 2 ∷ 5 ∷ 6 ∷ [])
    × IsList h' 10 (3 ∷ [])
    × ((a : ℕ)
        → has a (20 ∷ 4 ∷ 5 ∷ 6 ∷ []) ≡ false
        → has a (10 ∷ 1 ∷ 2 ∷ 3 ∷ []) ≡ false
        → h' a ≡ sample a)
    × (splice_range 2 sample (some 4) (some 10) (some 1) ≡ some sample)
    × (splice_range 2 sample (some 4) (some 10) (some 10) ≡ some sample)
splice_range_lem_example =
    splice_range_lem sample 20 (4 ∷ []) (5 ∷ 6 ∷ []) 10 [] 1 (2 ∷ []) (3 ∷ []) second-IsList
      first-IsList apart 2 (omega arith)
