-- ===== src/SlotMap/Emplace/After.antt =====
-- The map that `emplace_and_get_with_guard` of include/mclo/container/dense_slot_map.hpp leaves, and
-- that it is valid.
use mclo.Common.{
  ℕ, suc, ◌+◌, ◌-◌, ◌≤◌, ◌<◌, ◌^◌, ◌≡◌, ap, some, List, [], ◌∷◌, ◌++◌, Bool, false, arith, ◌==◌,
  ◌||◌, if◌then◌else◌, length, set, drop, get_elem?-eq-get_or, get_or-set, get_or-snoc, get_or-tail,
  length-append, length-set, length-drop,
}
use native.Mathlib.Nat.{mod-eq_of_lt, one-le-pow}
use mclo.SlotMapHandle.{Bits, Handle, max_size, index_field}
use mclo.SlotMap.Capacity.{Growth}
use mclo.SlotMap.{
  SlotMap, emplaced, size, slot_count, data_reserve, data_emplace_back, emplace_with_guard,
}
use mclo.SlotMap.Inv.{IsValid, slot_at, number_at}

module _ {A : Type 0} (c : Bits) (wide : 2 ≤ 2 ^ c.index_bits) (growth : Growth) (m : SlotMap A)
    {free : List ℕ} (x : A) (v : IsValid c m free) (room : size m < max_size c) where
  abbrev pub needs_new : Bool
  needs_new = m.free_head == slot_count m

  abbrev pub num_slots : ℕ
  num_slots = if needs_new then slot_count m + 1 else slot_count m

  abbrev pub fresh : Handle
  fresh = record { index = index_field c num_slots; generation = 0 }

  -- The slots among which the entry's is, before it is written.
  abbrev pub base : List Handle
  base = if needs_new then m.slots ++ fresh ∷ [] else m.slots

  abbrev pub old : Handle
  old = slot_at base m.free_head

  abbrev pub entry : Handle
  entry = record old { index = index_field c (size m) }

  abbrev pub handle : Handle
  handle = record { index = m.free_head; generation = old.generation }

  abbrev pub last_one : Bool
  last_one = needs_new || m.free_head == m.free_tail

  -- The map that is left.
  abbrev pub after : SlotMap A
  after = record (data_reserve c growth m (size m + 1)) {
    values = m.values ++ x ∷ [];
    reverse = m.reverse ++ m.free_head ∷ [];
    slots = set base m.free_head entry;
    free_head = if last_one then num_slots else old.index;
    free_tail = if last_one then num_slots else m.free_tail;
  }

  pub length-base : length base ≡ num_slots
  length-base = ground (arith, length-append m.slots (fresh ∷ []))

  pub head-lt : m.free_head < length base
  head-lt = ground (arith, length-base, v.free_in 0)

  pub base-at : (s : ℕ) → s < slot_count m → slot_at base s ≡ slot_at m.slots s
  base-at s lt = ground (arith, get_or-snoc m.slots fresh (record { index = 0; generation = 0 }) s)

  pub after-at :
      (s : ℕ) → slot_at after.slots s ≡ (if m.free_head == s then entry else slot_at base s)
  after-at s = get_or-set base m.free_head s entry (record { index = 0; generation = 0 }) head-lt

  pub size-field : index_field c (size m) ≡ size m
  size-field = mod-eq_of_lt (omega arith)

  pub after-size : size after ≡ size m + 1
  after-size = length-append m.values (x ∷ [])

  pub after-slots : slot_count after ≡ num_slots
  after-slots = omega (arith, length-set base m.free_head entry, length-base)

  pub after-number :
      (d : ℕ)
      → number_at after.reverse d ≡ (if d == size m then m.free_head else number_at m.reverse d)
  after-number d = rw (← v.paired) (get_or-snoc m.reverse m.free_head 0 d)

  tail-number : (k : ℕ) → number_at (drop 1 free) k ≡ number_at free (suc k)
  tail-number k = get_or-tail free 0 k

  pub after-IsValid : IsValid c after (drop 1 free)
  after-IsValid = record {
    paired = omega (arith, after-size, length-append m.reverse (m.free_head ∷ []), v.paired);
    fits = ground (arith, after-slots, v.free_in 0);
    sum = ground (arith, after-size, after-slots, length-drop 1 free, v.free_in 0);
    live_in = λ d lt.
        ground (arith, after-size, after-slots, after-number d, v.live_in d, head-lt, length-base);
    live_back = λ d lt. ground (
      arith,
      after-size,
      after-number d,
      after-at (number_at after.reverse d),
      base-at (number_at m.reverse d),
      v.live_in d,
      v.live_back d,
      v.apart d 0,
      size-field,
    );
    free_in =
        λ k lt. ground (arith, after-slots, tail-number k, length-drop 1 free, v.free_in (suc k));
    apart = λ d k p q. ground (
      arith,
      after-size,
      after-number d,
      tail-number k,
      length-drop 1 free,
      v.apart d (suc k),
      v.distinct 0 (suc k),
    );
    distinct = λ j k p q e.
        ground
          (arith, tail-number j, tail-number k, length-drop 1 free, v.distinct (suc j) (suc k));
    chain = λ k lt. ground (
      arith,
      tail-number k,
      tail-number (suc k),
      length-drop 1 free,
      after-at (number_at (drop 1 free) k),
      base-at (number_at free (suc k)),
      v.free_in (suc k),
      v.distinct 0 (suc k),
      v.chain (suc k),
    );
    head_is = ground (
      arith,
      after-slots,
      tail-number 0,
      length-drop 1 free,
      base-at m.free_head,
      v.free_in 0,
      v.chain 0,
      v.distinct 0 (length free - 1),
    );
    tail_is = ground (
      arith,
      after-slots,
      tail-number (length (drop 1 free) - 1),
      length-drop 1 free,
      v.free_in 0,
      v.distinct 0 (length free - 1),
      ap (number_at free) {x = suc (length free - 1 - 1)} {y = length free - 1},
    );
    generations = λ s lt. ground (
      arith,
      after-slots,
      after-at s,
      base-at s,
      base-at m.free_head,
      one-le-pow c.generation_bits 2,
      v.generations s,
      v.generations m.free_head,
      v.free_in 0,
      get_or-snoc m.slots fresh (record { index = 0; generation = 0 }) s,
    );
  }

  pub guard-eq :
      (guarded : Bool)
      → emplace_with_guard c growth guarded false m x ≡ some (emplaced handle after)
  unfolding emplace_with_guard data_emplace_back
  guard-eq guarded = ground (
    arith,
    after-size,
    head-lt,
    get_elem?-eq-get_or base m.free_head (record { index = 0; generation = 0 }),
  )
