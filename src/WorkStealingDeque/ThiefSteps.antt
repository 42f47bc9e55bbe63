-- ===== src/WorkStealingDeque/ThiefSteps.antt =====
-- The steps of `steal` in include/mclo/threading/work_stealing_deque.hpp.
use mclo.Common.{
  ℕ, suc, ◌+◌, ◌-◌, ◌≤◌, ◌<◌, ◌≡◌, refl, sym, ap, ◌∙◌, subst, inl, inr, true, false, ltb, ◌==◌,
  if◌then◌else◌, Bool-cases, ◌∷◌, arith,
}
use mclo.WorkStealingDeque.{
  RingStorage, load, Owner, idle, pushing, storing, publishing, popping, racing, restoring, Thief,
  away, started, seen, reading, exchanging, State, current, put_thief, thief_step,
}
use mclo.WorkStealingDeque.Live.{count, live}
use mclo.WorkStealingDeque.Inv.{
  end, end_of, contents, OwnerKnows, ThiefKnows, ThiefKnows-keep, IsDeque,
}

-- A step that only changes what a thief knows.
thinks :
    (s : State) (u : ℕ) (p : Thief)
    → IsDeque s
    → ThiefKnows p s.m_top (end_of s) s.m_storage s.storages
    → IsDeque (record s { thieves = put_thief s u p })
thinks s u p v k = record {
  ordered = v.ordered;
  fits = v.fits;
  owner_knows = v.owner_knows;
  thieves_know = λ w.
      elim (w == u)
        as (λ b.
          ThiefKnows (if b then p else s.thieves w) s.m_top (end_of s) s.m_storage s.storages) [
            | true ↦ k
            | false ↦ v.thieves_know w
          ];
  conserved = v.conserved;
}

-- No thief sees a bottom behind the end.
bottom-end :
    (o : Owner) (top bottom : ℕ) (r : RingStorage)
    → OwnerKnows o top bottom r
    → bottom ≤ end o bottom + 1
bottom-end idle top bottom r k = omega arith
bottom-end (pushing v b t) top bottom r k = omega (arith, k.0)
bottom-end (storing v b) top bottom r k = omega (arith, k.0)
bottom-end (publishing v b) top bottom r k = omega (arith, k.0)
bottom-end (popping old) top bottom r k = omega (arith, k)
bottom-end (racing old v) top bottom r k = omega (arith, k.0)
bottom-end (restoring old) top bottom r k = omega (arith, k.0)

-- The owner that sees top go on by one.
OwnerKnows-taken :
    (o : Owner) (top bottom : ℕ) (r : RingStorage)
    → OwnerKnows o top bottom r
    → top < end o bottom
    → OwnerKnows o (top + 1) bottom r
OwnerKnows-taken idle top bottom r k lt = k
OwnerKnows-taken (pushing v b t) top bottom r k lt = (k.0, omega (arith, k.1), k.2)
OwnerKnows-taken (storing v b) top bottom r k lt = (k.0, omega (arith, k.1))
OwnerKnows-taken (publishing v b) top bottom r k lt = (k.0, omega (arith, k.1), k.2)
OwnerKnows-taken (popping old) top bottom r k lt = k
OwnerKnows-taken (racing old v) top bottom r k lt = (k.0, omega (arith, k.1), k.2, k.3)
OwnerKnows-taken (restoring old) top bottom r k lt = absurd (omega (arith, k.1))

-- An exchange that succeeds takes the value at the top.
steals :
    (s : State) (u t x : ℕ)
    → IsDeque s
    → s.m_top ≡ t
    → t < end_of s
    → load (current s) t ≡ x
    → IsDeque (record s { m_top = t + 1; thieves = put_thief s u away; taken = x ∷ s.taken })
steals s u t x v e lt same = record {
  ordered = omega (arith, lt);
  fits = omega (arith, v.fits, e);
  owner_knows =
      OwnerKnows-taken s.owner t s.m_bottom (current s)
        (subst (λ n. OwnerKnows s.owner n s.m_bottom (current s)) e v.owner_knows) lt;
  thieves_know = λ w.
      elim (w == u)
        as (λ b.
          ThiefKnows (if b then away else s.thieves w) (t + 1) (end_of s) s.m_storage s.storages) [
            | true ↦ tt
            | false ↦
                ThiefKnows-keep (s.thieves w) s.m_top (end_of s) s.m_storage (t + 1) (end_of s)
                  s.m_storage s.storages s.storages (v.thieves_know w) (omega (arith, e))
                  (omega arith) (λ z. absurd (omega (arith, e)))
          ];
  conserved = λ y.
      let n : end_of s - t ≡ suc (end_of s - (t + 1)) = omega (arith, lt) in
      let c : contents s ≡ x ∷ live (load (current s)) (t + 1) (end_of s - (t + 1)) =
        ap (λ m. live (load (current s)) m (end_of s - m)) e
        ∙ ap (live (load (current s)) t) n
        ∙ ap (λ z. z ∷ live (load (current s)) (t + 1) (end_of s - (t + 1))) same in
      ground (arith, v.conserved y, ap (count y) c);
}

-- Every step of a thief keeps the deque right.
pub thief_step-IsDeque : (s : State) (u : ℕ) → IsDeque s → IsDeque (thief_step s u)
unfolding thief_step
thief_step-IsDeque s u v = by_place (s.thieves u) (v.thieves_know u)
  where
    by_place :
        (p : Thief)
        → ThiefKnows p s.m_top (end_of s) s.m_storage s.storages
        → IsDeque (elim p [
          | away ↦ record s { thieves = put_thief s u (started s.m_top) }
          | started top ↦ record s {
            thieves = put_thief s u (if ltb (top + 1) s.m_bottom then seen top else away);
          }
          | seen top ↦ record s { thieves = put_thief s u (reading top s.m_storage) }
          | reading top k ↦ record s {
            thieves = put_thief s u (exchanging top (load (s.storages k) top));
          }
          | exchanging top value ↦
              if s.m_top == top
              then record s {
                m_top = top + 1;
                thieves = put_thief s u away;
                taken = value ∷ s.taken;
              }
              else record s { thieves = put_thief s u away }
        ])
    by_place away k = thinks s u (started s.m_top) v (omega arith)
    by_place (started t) k = elim (Bool-cases (ltb (t + 1) s.m_bottom)) [
      | inl y ↦ rw y (
          thinks s u (seen t) v (
            k,
            λ z. ground (arith, bottom-end s.owner s.m_top s.m_bottom (current s) v.owner_knows),
          ))
      | inr n ↦ rw n (thinks s u away v tt)
    ]
    by_place (seen t) k = thinks s u (reading t s.m_storage) v (k.0, k.1, omega arith, λ z. refl)
    by_place (reading t j) k =
        thinks s u (exchanging t (load (s.storages j) t)) v (k.0, k.1, λ z. sym (k.3 z))
    by_place (exchanging t x) k = elim (Bool-cases (s.m_top == t)) [
      | inl y ↦ (let e : s.m_top ≡ t = ground arith in rw y (steals s u t x v e (k.1 e) (k.2 e)))
      | inr n ↦ rw n (thinks s u away v tt)
    ]
