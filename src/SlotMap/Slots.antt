-- ===== src/SlotMap/Slots.antt =====
-- The operations of include/mclo/container/dense_slot_map.hpp on all slots at once: `reserve_slots`,
-- `reserve`, `clear`, `reset`, `swap`, and the loop of `erase_if`.
use mclo.Common.{
  ℕ, zero, suc, ◌+◌, ◌-◌, Option, none, some, List, [], ◌∷◌, ◌++◌, Bool, ltb, ◌==◌, if◌then◌else◌,
  ◌>>=◌, get_elem?, set,
}
use mclo.SlotMapHandle.{Bits, Handle, max_size, index_field, generation_field}
use mclo.SlotMap.Capacity.{Growth}
use mclo.SlotMap.{SlotMap, size, slot_count, data_reserve, erase_at}

-- The slots numbered from `from` on, each chained to the next, with a new generation.
unfoldable pub relink : Bits → ℕ → List Handle → List Handle
relink c from [] = []
relink c from (h ∷ hs) =
    record { index = index_field c (from + 1); generation = generation_field c (h.generation + 1) }
    ∷ relink c (from + 1) hs

-- `n` new slots, chained backwards from `newest` on.
unfoldable pub chained_back : Bits → ℕ → ℕ → List Handle
chained_back c zero newest = []
chained_back c (suc n) newest =
    record { index = index_field c newest; generation = 0 } ∷ chained_back c n (newest + 1)

-- What reserving slots ends with.
pub data Reserved (A : Type 0) : Type 0 where
  reserved : SlotMap A → Reserved A
  too_big : Reserved A

module _ {A : Type 0} (c : Bits) where
  unfoldable pub clear : SlotMap A → Option (SlotMap A)
  clear m =
      let num_slots = slot_count m in
      let slots = relink c 0 m.slots in
      if num_slots == 0 then none else (do
        let last = num_slots - 1
        t ← get_elem? slots last
        some (record m {
          values = [];
          reverse = [];
          slots = set slots last (record t { index = index_field c last });
          free_head = 0;
          free_tail = last;
        }))

  unfoldable pub reset : SlotMap A → SlotMap A
  reset m = record m { values = []; reverse = []; slots = []; free_head = 0; free_tail = 0 }

  -- The first new slot points to the old head, every other one to the slot before it.
  unfoldable pub reserve_slots : SlotMap A → ℕ → Reserved A
  reserve_slots m amount =
      let old = slot_count m in
      let first : Handle = record { index = index_field c m.free_head; generation = 0 } in
      if ltb (max_size c) amount
      then too_big
      else if ltb old amount
      then reserved (record m {
        slots = m.slots ++ first ∷ chained_back c (amount - 1 - old) old;
        free_head = amount - 1;
      })
      else reserved m

  unfoldable pub reserve : Growth → SlotMap A → ℕ → Reserved A
  reserve growth m amount = elim (reserve_slots m amount) [
    | too_big ↦ too_big
    | reserved m' ↦ reserved (data_reserve c growth m' amount)
  ]

  pub swap : SlotMap A → SlotMap A → SlotMap A × SlotMap A
  swap m other = (other, m)

  -- The loop of `std::erase_if`, from an offset on, with `n` values not yet tested.
  unfoldable pub erase_loop : (A → Bool) → ℕ → ℕ → SlotMap A → Option (SlotMap A)
  erase_loop pred zero first m = some m
  erase_loop pred (suc n) first m = do
    x ← get_elem? m.values first
    let kept = erase_loop pred n (first + 1) m
    let erased = (do (next, m') ← erase_at c m first; erase_loop pred n next m')
    if pred x then erased else kept

  -- What is left, and how many values were erased.
  unfoldable pub erase_if : (A → Bool) → SlotMap A → Option (ℕ × SlotMap A)
  erase_if pred m = do m' ← erase_loop pred (size m) 0 m; some (size m - size m', m')
