-- ===== src/WorkStealingDeque/Inv.antt =====
-- What holds in every state of the deque of include/mclo/threading/work_stealing_deque.hpp.
use mclo.Common.{ℕ, ◌+◌, ◌-◌, ◌≤◌, ◌<◌, ◌≡◌, sym, ap, ◌∙◌, List, arith}
use mclo.WorkStealingDeque.{
  RingStorage, capacity, load, Owner, idle, pushing, storing, publishing, popping, racing,
  restoring, Thief, away, started, seen, reading, exchanging, State, current,
}
use mclo.WorkStealingDeque.Live.{count, live}

-- One past the last index that is in the deque.
abbrev pub end : Owner → ℕ → ℕ
end idle bottom = bottom - 1
end (pushing v b t) bottom = b
end (storing v b) bottom = b
end (publishing v b) bottom = b
end (popping old) bottom = old
end (racing old v) bottom = old
end (restoring old) bottom = old

-- What the owner knows of the members in the middle of a method.
abbrev pub OwnerKnows : Owner → ℕ → ℕ → RingStorage → Type 0
OwnerKnows idle top bottom r = 0 < bottom
OwnerKnows (pushing v b t) top bottom r = (bottom ≡ b + 1) × (t ≤ top) × (b ≤ t + capacity r)
OwnerKnows (storing v b) top bottom r = (bottom ≡ b + 1) × (b + 1 ≤ top + capacity r)
OwnerKnows (publishing v b) top bottom r =
    (bottom ≡ b + 1) × (b + 1 ≤ top + capacity r) × (load r b ≡ v)
OwnerKnows (popping old) top bottom r = bottom ≡ old
OwnerKnows (racing old v) top bottom r =
    (bottom ≡ old) × (old ≤ top + 1) × (0 < old) × (load r (old - 1) ≡ v)
OwnerKnows (restoring old) top bottom r = (bottom ≡ old) × (top ≡ old)

-- What a thief knows: its top is not ahead, and if nothing has been taken since, its index is in the deque
-- and its value the one there.
abbrev pub ThiefKnows : Thief → ℕ → ℕ → ℕ → (ℕ → RingStorage) → Type 0
ThiefKnows away top e k storages = Unit
ThiefKnows (started t) top e k storages = t ≤ top
ThiefKnows (seen t) top e k storages = (t ≤ top) × (top ≡ t → t < e)
ThiefKnows (reading t j) top e k storages =
    (t ≤ top) × (top ≡ t → t < e) × (j ≤ k) × (top ≡ t → load (storages j) t ≡ load (storages k) t)
ThiefKnows (exchanging t v) top e k storages =
    (t ≤ top) × (top ≡ t → t < e) × (top ≡ t → load (storages k) t ≡ v)

abbrev pub end_of : State → ℕ
end_of s = end s.owner s.m_bottom

-- The values in the deque, from the top on.
abbrev pub contents : State → List ℕ
contents s = live (load (current s)) s.m_top (end_of s - s.m_top)

pub record IsDeque (s : State) : Type 0 where
  pub ordered : s.m_top ≤ end_of s
  pub fits : end_of s ≤ s.m_top + capacity (current s)
  pub owner_knows : OwnerKnows s.owner s.m_top s.m_bottom (current s)
  pub thieves_know : (u : ℕ) → ThiefKnows (s.thieves u) s.m_top (end_of s) s.m_storage s.storages
  pub conserved : (v : ℕ) → count v s.pushed ≡ count v s.taken + count v (contents s)

-- What a thief knows stays true when top has moved on, or when the index at the top is still in the deque
-- and the storages have the same there.
pub ThiefKnows-keep :
    (th : Thief) (top e k top' e' k' : ℕ) (f g : ℕ → RingStorage)
    → ThiefKnows th top e k f
    → top ≤ top'
    → k ≤ k'
    → (top' ≡ top
        → (top < e → top < e')
          × (top < e → load (g k') top ≡ load (f k) top)
          × (top < e → (j : ℕ) → j ≤ k → load (g j) top ≡ load (f j) top))
    → ThiefKnows th top' e' k' g
ThiefKnows-keep away top e k top' e' k' f g h le more same = tt
ThiefKnows-keep (started t) top e k top' e' k' f g h le more same = omega (arith, h)
ThiefKnows-keep (seen t) top e k top' e' k' f g h le more same = (
  omega (arith, h.0),
  λ z.
      let q : top ≡ t = omega (arith, h.0) in
      let r : top' ≡ top = omega (arith, h.0) in
      omega (arith, q, (same r).0 (omega (arith, q, h.1 q))),
)
ThiefKnows-keep (reading t j) top e k top' e' k' f g h le more same = (
  omega (arith, h.0),
  λ z.
      let q : top ≡ t = omega (arith, h.0) in
      let r : top' ≡ top = omega (arith, h.0) in
      omega (arith, q, (same r).0 (omega (arith, q, h.1 q))),
  omega (arith, h.2),
  λ z.
      let q : top ≡ t = omega (arith, h.0) in
      let r : top' ≡ top = omega (arith, h.0) in
      let lt : top < e = omega (arith, q, h.1 q) in
      ap (load (g j)) (sym q)
      ∙ (same r).2 lt j h.2
      ∙ ap (load (f j)) q
      ∙ h.3 q
      ∙ ap (load (f k)) (sym q)
      ∙ sym ((same r).1 lt)
      ∙ ap (load (g k')) q,
)
ThiefKnows-keep (exchanging t v) top e k top' e' k' f g h le more same = (
  omega (arith, h.0),
  λ z.
      let q : top ≡ t = omega (arith, h.0) in
      let r : top' ≡ top = omega (arith, h.0) in
      omega (arith, q, (same r).0 (omega (arith, q, h.1 q))),
  λ z.
      let q : top ≡ t = omega (arith, h.0) in
      let r : top' ≡ top = omega (arith, h.0) in
      let lt : top < e = omega (arith, q, h.1 q) in
      ap (load (g k')) (sym q) ∙ (same r).1 lt ∙ ap (load (f k)) q ∙ h.2 q,
)
