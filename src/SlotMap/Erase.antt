-- ===== src/SlotMap/Erase.antt =====
-- `erase_valid_handle` of include/mclo/container/dense_slot_map.hpp, which `erase` and `pop` call.
mod After
use Prim.{Unit}
use mclo.Common.{
  ℕ, suc, ◌+◌, ◌-◌, ◌≤◌, ◌<◌, ◌^◌, ◌≡◌, ◌≢◌, refl, ap, none, some, List, [], ◌∷◌, ◌++◌, Bool, true,
  false, arith, inl, inr, Bool-cases, ◌%◌, not, ltb, ◌==◌, ◌&&◌, if◌then◌else◌, length, get_or, set,
  take, get_elem?, get_elem?-eq-get_or, get_or-set, get_or-snoc, get_or-take, length-append,
  length-set, length-take, get_elem?-set, get_elem?-take, get_elem?-some,
}
use native.Mathlib.Nat.{mod-eq-sub-mod, mod-eq_of_lt, one-le-pow, mod-lt}
use mclo.SlotMapHandle.{Bits, Handle, max_size, index_field, generation_field}
use mclo.SlotMap.{SlotMap, size, slot_count, erase_valid_handle, erase, found, is_valid}
use mclo.SlotMap.Inv.{IsLive, IsValid, Refers, slot_at, number_at, found-Refers, is_valid-Refers}
use After.{
  no_slot, data_index, last, last_slot, after, some-value, after-slots, after-size, after-paired,
  after-value, after-number, erase-eq, bumped_slots, filled_slots, filled_values,
  length-filled_values, bumped-at, filled-at, after-index, after-generation, last_slot-lt, tail-lt,
}

-- The next generation is another one, also where it wraps.
pub next_generation :
    (c : Bits) (g : ℕ)
    → 2 ≤ 2 ^ c.generation_bits
    → g < 2 ^ c.generation_bits
    → generation_field c (g + 1) ≢ g
next_generation c g wide lt e = elim (Bool-cases (g + 1 == 2 ^ c.generation_bits)) [
  | inl full ↦
      let m = 2 ^ c.generation_bits in
      ground (arith, mod-eq-sub-mod {n = g + 1} {m = m}, mod-eq_of_lt {n = g + 1 - m} {m = m})
  | inr below ↦ ground (arith, mod-eq_of_lt {n = g + 1} {m = 2 ^ c.generation_bits})
]

module _ {A : Type 0} (c : Bits) (wide : 2 ≤ 2 ^ c.index_bits) (m : SlotMap A) {free : List ℕ}
    (h : Handle) (x : A) (v : IsValid c m free) (r : Refers m h)
    (last_is : get_elem? m.values (size m - 1) ≡ some x) where
  abbrev pub left : SlotMap A
  left = after c wide m h x v r last_is

  free-at :
      (k : ℕ)
      → number_at (free ++ h.index ∷ []) k
        ≡ (if k == length free then h.index else number_at free k)
  free-at k = get_or-snoc free h.index 0 k

  length-free : length (free ++ h.index ∷ []) ≡ length free + 1
  length-free = length-append free (h.index ∷ [])

  pub left_erases : erase_valid_handle c m h ≡ some left
  left_erases = erase-eq c wide m h x v r last_is

  pub left-size : size left + 1 ≡ size m
  left-size = after-size c wide m h x v r last_is

  pub left-slots : slot_count left ≡ slot_count m
  left-slots = after-slots c wide m h x v r last_is

  left-number :
      (i : ℕ)
      → i < size left
      → number_at left.reverse i ≡ (
          if (slot_at m.slots h.index).index == i
          then number_at m.reverse (size m - 1)
          else number_at m.reverse i)
  left-number i lt = after-number c wide m h x v r last_is i lt

  -- The index of every slot afterwards.
  left-index :
      (t : ℕ)
      → (slot_at left.slots t).index ≡ (
          if not (m.free_head == slot_count m) && m.free_tail == t
          then h.index
          else if not ((slot_at m.slots h.index).index == size m - 1)
              && number_at m.reverse (size m - 1) == t
          then (slot_at m.slots h.index).index
          else (slot_at m.slots t).index)
  left-index t =
      ground (arith, after-index c wide m h x v r last_is t, filled-at c wide m h x v r last_is t)

  pub left-generation :
      (t : ℕ)
      → (slot_at left.slots t).generation ≡ (
          if h.index == t
          then generation_field c ((slot_at m.slots h.index).generation + 1)
          else (slot_at m.slots t).generation)
  left-generation t =
      ground
        (arith, after-generation c wide m h x v r last_is t, bumped-at c wide m h x v r last_is t)

  -- The slot of a value is not that of another.
  number-ne :
      (i j : ℕ) → i < size m → j < size m → number_at m.reverse i ≡ number_at m.reverse j → i ≡ j
  number-ne i j p q e = ground (arith, v.live_back i, v.live_back j)

  -- The slot of a value is not the tail of the free list.
  tail-ne : (i : ℕ) → i < size m → number_at m.reverse i ≢ m.free_tail
  tail-ne i lt = ground (arith, v.tail_is, v.live_in i, v.apart i (length free - 1))

  pub left-IsValid : IsValid c left (free ++ h.index ∷ [])
  left-IsValid = record {
    paired = after-paired c wide m h x v r last_is;
    fits = omega (arith, left-slots, v.fits);
    sum = omega (arith, left-slots, left-size, length-free, v.sum);
    live_in = λ d lt.
        ground
          (arith, left-slots, left-size, left-number d lt, v.live_in d, v.live_in (size m - 1));
    live_back = λ d lt. ground (
      arith,
      left-size,
      left-number d lt,
      left-index (number_at left.reverse d),
      v.live_back d,
      v.live_back (size m - 1),
      tail-ne d,
      tail-ne (size m - 1),
      number-ne d (size m - 1),
    );
    free_in =
        λ k lt. ground (arith, left-slots, free-at k, length-free, v.free_in k, r.live.in_range);
    apart = λ d k p q. ground (
      arith,
      left-size,
      left-number d p,
      free-at k,
      length-free,
      v.apart d k,
      v.apart (size m - 1) k,
      r.live.named_back,
      r.live.has_value,
      number-ne d (slot_at m.slots h.index).index,
      number-ne (size m - 1) (slot_at m.slots h.index).index,
    );
    distinct = λ j k p q e. ground (
      arith,
      free-at j,
      free-at k,
      length-free,
      v.distinct j k,
      v.apart (slot_at m.slots h.index).index j,
      v.apart (slot_at m.slots h.index).index k,
      r.live.named_back,
      r.live.has_value,
    );
    chain = λ k lt. ground (
      arith,
      free-at k,
      free-at (suc k),
      length-free,
      left-index (number_at free k),
      v.chain k,
      v.head_is,
      v.tail_is,
      v.free_in 0,
      v.distinct k (length free - 1),
      v.apart (size m - 1) k,
      left-size,
    );
    head_is = ground (arith, left-slots, free-at 0, length-free, v.head_is, v.free_in 0);
    tail_is = ground (arith, free-at (length free), length-free);
    generations = λ s lt. ground (
      arith,
      left-slots,
      left-generation s,
      v.generations s,
      mod-lt ((slot_at m.slots h.index).generation + 1)
          (one-le-pow c.generation_bits 2 (omega arith)),
    );
  }

  -- The values that stay, each at its place or, if it was the last, in the gap.
  left-value :
      (i : ℕ)
      → i < size left
      → get_elem? left.values i
        ≡ (if (slot_at m.slots h.index).index == i then some x else get_elem? m.values i)
  left-value i lt = after-value c wide m h x v r last_is i lt

  module _ (g : Handle) (q : Refers m g) (ne : g.index ≢ h.index) where
    others-index : (slot_at left.slots g.index).index ≡ (
        if (slot_at m.slots g.index).index == size m - 1
        then (slot_at m.slots h.index).index
        else (slot_at m.slots g.index).index)
    others-index = ground (
      arith,
      left-index g.index,
      tail-ne (slot_at m.slots g.index).index,
      number-ne (slot_at m.slots g.index).index (size m - 1),
      v.live_back (size m - 1),
      q.live.has_value,
      q.live.named_back,
      r.live.has_value,
      r.live.named_back,
    )

    pub others-Refers : Refers left g
    others-Refers = record {
      live = record {
        in_range = omega (arith, left-slots, q.live.in_range);
        has_value = ground (
          arith, others-index, left-size, q.live.has_value, q.live.named_back, r.live.has_value,
          r.live.named_back,
        );
        named_back = ground (
          arith,
          others-index,
          left-size,
          left-number (slot_at left.slots g.index).index,
          q.live.has_value,
          q.live.named_back,
          r.live.has_value,
          r.live.named_back,
        );
      };
      current = ground (arith, left-generation g.index, q.current);
    }

    pub others-found : found left g ≡ found m g
    others-found =
        rw (found-Refers left g others-Refers, found-Refers m g q)
          (ground (
            arith,
            others-index,
            left-size,
            left-value (slot_at left.slots g.index).index,
            last_is,
            q.live.has_value,
            q.live.named_back,
            r.live.has_value,
            r.live.named_back,
          ))
