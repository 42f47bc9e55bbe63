-- ===== src/WorkStealingDeque/Ring.antt =====
-- The ring storage of include/mclo/threading/work_stealing_deque.hpp.
use native.Mathlib.Nat.{mod-add-div', one-le-pow, pow-suc, mul-le-mul_right}
use mclo.Common.{
  ℕ, zero, suc, ◌+◌, ◌-◌, ◌*◌, ◌/◌, ◌%◌, ◌^◌, ◌≤◌, ◌<◌, ◌≡◌, refl, ap, ◌∙◌, subst, inl, inr, false,
  ◌==◌, Bool-cases, bit_and-mask, arith,
}
use mclo.WorkStealingDeque.{RingStorage, capacity, slot, load, store, copy_cells, resize}

-- Indices less than the capacity apart have different slots.
mod-apart : (c i j : ℕ) → 0 < c → i < j → j < i + c → (i % c == j % c) ≡ false
mod-apart c i j pc lt near = elim (Bool-cases (i % c == j % c)) [
  | inl t ↦ absurd (
      ground (
        arith,
        mod-add-div' i c,
        mod-add-div' j c,
        mul-le-mul_right {m = i / c + 1} {n = j / c} c,
        mul-le-mul_right {m = j / c} {n = i / c} c,
      ))
  | inr f ↦ f
]

slot-apart :
    (r : RingStorage) (i j : ℕ) → i < j → j < i + capacity r → (slot r i == slot r j) ≡ false
unfolding slot capacity
slot-apart r i j lt near = ground (
  arith,
  bit_and-mask r.bits i,
  bit_and-mask r.bits j,
  mod-apart (2 ^ r.bits) i j (one-le-pow r.bits 2 (omega arith)) lt near,
)

pub load-store_same : (r : RingStorage) (i v : ℕ) → load (store r i v) i ≡ v
unfolding load store slot
load-store_same r i v = ground arith

pub load-store_below :
    (r : RingStorage) (i j v : ℕ) → i < j → j < i + capacity r → load (store r j v) i ≡ load r i
unfolding load store slot
load-store_below r i j v lt near = ground (arith, slot-apart r i j lt near)

pub capacity-store : (r : RingStorage) (i v : ℕ) → capacity (store r i v) ≡ capacity r
unfolding capacity store
capacity-store r i v = refl

pub capacity-copy_cells :
    (r : RingStorage) (n i : ℕ) (new : RingStorage) → capacity (copy_cells r n i new) ≡ capacity new
unfolding copy_cells
capacity-copy_cells r zero i new = refl
capacity-copy_cells r (suc n) i new =
    capacity-copy_cells r n (i + 1) (store new i (load r i)) ∙ capacity-store new i (load r i)

copy_cells-below :
    (r : RingStorage) (n i : ℕ) (new : RingStorage) (j : ℕ)
    → j < i
    → i + n ≤ j + capacity new
    → load (copy_cells r n i new) j ≡ load new j
unfolding copy_cells
copy_cells-below r zero i new j lt le = refl
copy_cells-below r (suc n) i new j lt le =
    copy_cells-below r n (i + 1) (store new i (load r i)) j (omega arith)
      (omega (arith, capacity-store new i (load r i)))
    ∙ load-store_below new j i (load r i) lt (omega arith)

load-copy_cells :
    (r : RingStorage) (n i : ℕ) (new : RingStorage) (j : ℕ)
    → n ≤ capacity new
    → i ≤ j
    → j < i + n
    → load (copy_cells r n i new) j ≡ load r j
unfolding copy_cells
load-copy_cells r zero i new j le from lt = absurd (omega arith)
load-copy_cells r (suc n) i new j le from lt =
    let next = store new i (load r i) in
    let c = capacity-store new i (load r i) in
    elim (Bool-cases (i == j)) [
      | inl t ↦
          (let e : i ≡ j = ground arith in
            copy_cells-below r n (i + 1) next j (ground arith) (omega (arith, c, e))
            ∙ subst (λ k. load next k ≡ load r k) e (load-store_same new i (load r i)))
      | inr f ↦ load-copy_cells r n (i + 1) next j (omega (arith, c)) (ground arith) (omega arith)
    ]

doubled :
    (r : RingStorage) → capacity (record { bits = r.bits + 1; cells = λ j. 0 }) ≡ capacity r * 2
unfolding capacity
doubled r = let e : r.bits + 1 ≡ suc r.bits = omega arith in ap (λ n. 2 ^ n) e ∙ pow-suc 2 r.bits

-- The new ring has twice the cells and what the old one had between top and bottom.
pub load-resize :
    (r : RingStorage) (bottom top : ℕ)
    → bottom ≤ top + capacity r
    → (capacity (resize r bottom top) ≡ capacity r * 2)
      × ((j : ℕ) → top ≤ j → j < bottom → load (resize r bottom top) j ≡ load r j)
unfolding resize
load-resize r bottom top le =
    let new : RingStorage = record { bits = r.bits + 1; cells = λ j. 0 } in
    let twice : capacity new ≡ capacity r * 2 = doubled r in
    (
      capacity-copy_cells r (bottom - top) top new ∙ twice,
      λ j from lt.
          load-copy_cells r (bottom - top) top new j (omega (arith, twice, le)) from (omega arith),
    )

pub some-capacity : (r : RingStorage) → 0 < capacity r
unfolding capacity
some-capacity r = one-le-pow r.bits 2 (omega arith)
