-- ===== src/SlotMap/Guard.antt =====
-- When creating an entry fails in include/mclo/container/dense_slot_map.hpp: the map is full, or the
-- growth of the slots throws and one of the two guards runs.
use mclo.Common.{
  ℕ, zero, suc, ◌-◌, ◌≤◌, ◌<◌, ◌≡◌, refl, ap, some, List, [], ◌∷◌, ◌++◌, Bool, true, arith, ltb,
  if◌then◌else◌, length, take, length-append,
}
use mclo.SlotMapHandle.{Bits, max_size}
use mclo.SlotMap.Capacity.{Growth}
use mclo.SlotMap.{
  SlotMap, too_big, slots_threw, size, data_reserve, data_emplace_back, data_pop_back,
  emplace_with_guard, emplace_and_get,
}
use mclo.SlotMap.Inv.{IsValid}

take-snoc {ℓ} :
    {A : Type ℓ} (xs : List A) (n : ℕ) (x : A) → n ≡ length xs → take n (xs ++ x ∷ []) ≡ xs
take-snoc [] zero x e = refl
take-snoc [] (suc n) x e = absurd (omega arith)
take-snoc (y ∷ xs) zero x e = absurd (omega arith)
take-snoc (y ∷ xs) (suc n) x e = ap (◌∷◌ y) (take-snoc xs n x (omega arith))

module _ {A : Type 0} (c : Bits) (growth : Growth) (m : SlotMap A) (x : A) where
  -- A map with as many values as its handles can name refuses another, and is not touched.
  pub emplace_too_big :
      (throws : Bool) → max_size c ≤ size m → emplace_and_get c growth throws m x ≡ some too_big
  unfolding emplace_and_get
  emplace_too_big throws full = ground arith

  -- Where the free list is empty and growing the slots throws, the slots and the free list are as they
  -- were. The values are as they were if there was no spare capacity for them; if there was, the
  -- guard does nothing and the new value stays behind, with no slot.
  pub emplace_throws :
      IsValid c m []
      → size m < max_size c
      → (m' : SlotMap A) × (emplace_and_get c growth true m x ≡ some (slots_threw m'))
        × (m'.slots ≡ m.slots)
        × (m'.free_head ≡ m.free_head)
        × (m'.free_tail ≡ m.free_tail)
        × (m'.values ≡ (if ltb (size m) m.capacity then m.values ++ x ∷ [] else m.values))
  unfolding emplace_and_get emplace_with_guard data_emplace_back data_pop_back data_reserve
  emplace_throws v room = (
    (if ltb (size m) m.capacity
        then data_emplace_back c growth m m.free_head x
        else data_pop_back (data_emplace_back c growth m m.free_head x)),
    ground (arith, v.head_is),
    ground arith,
    ground arith,
    ground arith,
    ground (
      arith,
      length-append m.values (x ∷ []),
      take-snoc m.values (size (data_emplace_back c growth m m.free_head x) - 1) x,
    ),
  )
