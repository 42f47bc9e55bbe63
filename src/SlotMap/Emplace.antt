-- ===== src/SlotMap/Emplace.antt =====
-- `emplace_and_get` of include/mclo/container/dense_slot_map.hpp, which `emplace` and `insert` call.
mod After
use mclo.Common.{
  ℕ, suc, ◌+◌, ◌-◌, ◌≤◌, ◌<◌, ◌^◌, ◌≡◌, ◌≢◌, refl, ap, none, some, List, [], ◌∷◌, ◌++◌, Bool, true,
  false, arith, not, ltb, ◌==◌, ◌||◌, if◌then◌else◌, length, get_or, set, drop, get_elem?,
  get_elem?-eq-get_or, get_or-set, get_or-snoc, get_or-tail, length-append, length-set, length-drop,
  get_elem?-set, get_elem?-snoc,
}
use native.Mathlib.Nat.{mod-eq_of_lt, one-le-pow}
use mclo.SlotMapHandle.{Bits, Handle, max_size, index_field}
use mclo.SlotMap.Capacity.{Growth}
use mclo.SlotMap.{
  SlotMap, Emplaced, emplaced, size, slot_count, data_reserve, data_emplace_back,
  emplace_with_guard, emplace_and_get, found, lookup, is_valid,
}
use mclo.SlotMap.Inv.{IsLive, IsValid, Refers, slot_at, number_at, found-Refers}
use After

module _ {A : Type 0} (c : Bits) (wide : 2 ≤ 2 ^ c.index_bits) (growth : Growth) (m : SlotMap A)
    {free : List ℕ} (x : A) (v : IsValid c m free) (room : size m < max_size c) where
  abbrev after : SlotMap A
  after = After.after c wide growth m x v room

  abbrev handle : Handle
  handle = After.handle c wide growth m x v room

  handle-Refers : Refers after handle
  handle-Refers = record {
    live = record {
      in_range = ground (
        arith,
        (After.after-slots c wide growth m x v room),
        (After.head-lt c wide growth m x v room),
        (After.length-base c wide growth m x v room),
      );
      has_value = ground (
        arith,
        After.after-at c wide growth m x v room m.free_head,
        (After.after-size c wide growth m x v room),
        (After.size-field c wide growth m x v room),
      );
      named_back = ground (
        arith,
        After.after-at c wide growth m x v room m.free_head,
        (After.size-field c wide growth m x v room),
        After.after-number c wide growth m x v room (size m),
      );
    };
    current = ground (arith, After.after-at c wide growth m x v room m.free_head);
  }

  -- The free list holds no slot of an entry.
  head-ne : (g : Handle) → Refers m g → g.index ≢ m.free_head
  head-ne g r = ground (
    arith,
    v.apart (slot_at m.slots g.index).index 0,
    v.head_is,
    r.live.in_range,
    r.live.has_value,
    r.live.named_back,
  )

  kept : (g : Handle) → Refers m g → slot_at after.slots g.index ≡ slot_at m.slots g.index
  kept g r = ground (
    arith,
    After.after-at c wide growth m x v room g.index,
    After.base-at c wide growth m x v room g.index,
    head-ne g r,
    r.live.in_range,
  )

  kept-Refers : (g : Handle) → Refers m g → Refers after g
  kept-Refers g r = record {
    live = record {
      in_range = ground (arith, (After.after-slots c wide growth m x v room), r.live.in_range);
      has_value =
          ground (arith, kept g r, (After.after-size c wide growth m x v room), r.live.has_value);
      named_back = ground (
        arith,
        kept g r,
        r.live.has_value,
        r.live.named_back,
        After.after-number c wide growth m x v room (slot_at m.slots g.index).index,
      );
    };
    current = ground (arith, kept g r, r.current);
  }

  -- Creating an entry in a valid map that is not full returns a handle and a valid map with one
  -- value more, the free list without its first slot if it had one, in which the handle finds the
  -- new value.
  pub emplace_lem :
      (h : Handle) × (m' : SlotMap A) × (emplace_and_get c growth false m x ≡ some (emplaced h m'))
      × IsValid c m' (drop 1 free)
      × Refers m' h
      × (found m' h ≡ some x)
      × (size m' ≡ size m + 1)
  unfolding emplace_and_get
  emplace_lem = (
    handle,
    after,
    ground (arith, After.guard-eq c wide growth m x v room (not (ltb (size m) m.capacity))),
    (After.after-IsValid c wide growth m x v room),
    handle-Refers,
    rw
        (
          found-Refers after handle handle-Refers,
          After.after-at c wide growth m x v room m.free_head,
        )
        (ground
          (arith, (After.size-field c wide growth m x v room), get_elem?-snoc m.values x (size m))),
    (After.after-size c wide growth m x v room),
  )

  -- Creating an entry takes nothing from the handles to other entries: each still refers to its entry,
  -- finds the value that it found, and differs in its slot from the new handle.
  pub emplace_keeps :
      (g : Handle)
      → Refers m g
      → (h : Handle) × (m' : SlotMap A) × (emplace_and_get c growth false m x
          ≡ some (emplaced h m'))
        × Refers m' g
        × (found m' g ≡ found m g)
        × (g.index ≢ h.index)
  unfolding emplace_and_get
  emplace_keeps g r = (
    handle,
    after,
    ground (arith, After.guard-eq c wide growth m x v room (not (ltb (size m) m.capacity))),
    kept-Refers g r,
    rw (found-Refers after g (kept-Refers g r), found-Refers m g r, kept g r)
        (ground
          (arith, r.live.has_value, get_elem?-snoc m.values x (slot_at m.slots g.index).index)),
    head-ne g r,
  )
