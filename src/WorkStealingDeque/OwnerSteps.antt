-- ===== src/WorkStealingDeque/OwnerSteps.antt =====
-- The steps of `push` and `pop` in include/mclo/threading/work_stealing_deque.hpp.
use mclo.Common.{
  ℕ, ◌+◌, ◌-◌, ◌<◌, ◌≡◌, refl, sym, ap, ◌∙◌, subst, inl, inr, ltb, ◌==◌, Bool-cases, [], ◌∷◌, arith,
}
use mclo.WorkStealingDeque.{
  load, Owner, idle, pushing, storing, publishing, popping, racing, restoring, State, current,
  push_start, push_check, push_store, push_publish, pop_claim, pop_look, pop_exchange, pop_restore,
  Call, call_push, call_pop, owner_step,
}
use mclo.WorkStealingDeque.Live.{count, live, count-live_end}
use mclo.WorkStealingDeque.Inv.{end, end_of, OwnerKnows, ThiefKnows-keep, IsDeque}
use mclo.WorkStealingDeque.PushSteps.{
  goes, push_start-IsDeque, push_check-IsDeque, push_store-IsDeque, push_publish-IsDeque,
}

pop_claim-IsDeque : (s : State) → s.owner ≡ idle → IsDeque s → IsDeque (pop_claim s)
unfolding pop_claim
pop_claim-IsDeque s o v =
    goes s (popping (s.m_bottom - 1)) (s.m_bottom - 1) v (ap (λ p. end p s.m_bottom) (sym o)) refl

-- A value that is taken from the end.
pops :
    (s : State) (old : ℕ)
    → IsDeque s
    → end_of s ≡ old
    → s.m_bottom ≡ old
    → s.m_top + 1 < old
    → IsDeque (record s { owner = idle; taken = load (current s) (old - 1) ∷ s.taken })
pops s old v e m lt = record {
  ordered = omega (arith, m, lt);
  fits = omega (arith, v.fits, e, m);
  owner_knows = omega (arith, m, lt);
  thieves_know = λ u.
      ThiefKnows-keep (s.thieves u) s.m_top (end_of s) s.m_storage s.m_top (s.m_bottom - 1)
        s.m_storage s.storages s.storages (v.thieves_know u) (omega arith) (omega arith)
        (λ z. (λ l. omega (arith, m, lt), λ l. refl, λ l j le. refl));
  conserved = λ y.
      let f = load (current s) in
      let n : old - s.m_top ≡ old - 1 - s.m_top + 1 = omega (arith, lt) in
      let at : s.m_top + (old - 1 - s.m_top) ≡ old - 1 = omega (arith, lt) in
      let now = ap (λ b. count y (live f s.m_top (b - 1 - s.m_top))) m in
      let before =
        ap (λ b. count y (live f s.m_top (b - s.m_top))) e
        ∙ ap (λ k. count y (live f s.m_top k)) n
        ∙ count-live_end y f s.m_top (old - 1 - s.m_top)
        ∙ ap (λ i. count y (f i ∷ live f s.m_top (old - 1 - s.m_top))) at in
      ground (arith, v.conserved y, now, before);
}

pop_look-IsDeque :
    (s : State) (old : ℕ) → s.owner ≡ popping old → IsDeque s → IsDeque (pop_look s old)
unfolding pop_look
pop_look-IsDeque s old o v =
    let k = subst (λ p. OwnerKnows p s.m_top s.m_bottom (current s)) o v.owner_knows in
    let e : old ≡ end_of s = ap (λ p. end p s.m_bottom) (sym o) in
    let x = load (current s) (old - 1) in
    elim (Bool-cases (ltb s.m_top old)) [
      | inl y ↦ (elim (Bool-cases (s.m_top + 1 == old)) [
        | inl t ↦
            rw y (rw t (goes s (racing old x) s.m_bottom v e (k, ground arith, ground arith, refl)))
        | inr f ↦ rw y (rw f (pops s old v (sym e) k (ground arith)))
      ])
      | inr n ↦ rw n (goes s (restoring old) s.m_bottom v e (k, ground (arith, v.ordered, e)))
    ]

-- The last value is taken by an exchange.
pops_last :
    (s : State) (old x : ℕ)
    → IsDeque s
    → end_of s ≡ old
    → s.m_bottom ≡ old
    → s.m_top + 1 ≡ old
    → load (current s) (old - 1) ≡ x
    → IsDeque (record s { m_top = old; owner = restoring old; taken = x ∷ s.taken })
pops_last s old x v e m last same = record {
  ordered = omega arith;
  fits = omega arith;
  owner_knows = (m, refl);
  thieves_know = λ u.
      ThiefKnows-keep (s.thieves u) s.m_top (end_of s) s.m_storage old old s.m_storage s.storages
        s.storages (v.thieves_know u) (omega (arith, last)) (omega arith)
        (λ z. absurd (omega (arith, last)));
  conserved = λ y.
      let f = load (current s) in
      let one : end_of s - s.m_top ≡ 1 = omega (arith, e, last) in
      let none_left : old - old ≡ 0 = omega arith in
      let at : s.m_top ≡ old - 1 = omega (arith, last) in
      let before = ap (λ k. count y (live f s.m_top k)) one ∙ ap (λ i. count y (f i ∷ [])) at in
      let now = ap (λ k. count y (live f old k)) none_left in
      ground (arith, v.conserved y, now, before, same);
}

pop_exchange-IsDeque :
    (s : State) (old x : ℕ) → s.owner ≡ racing old x → IsDeque s → IsDeque (pop_exchange s old x)
unfolding pop_exchange
pop_exchange-IsDeque s old x o v =
    let k = subst (λ p. OwnerKnows p s.m_top s.m_bottom (current s)) o v.owner_knows in
    let e : old ≡ end_of s = ap (λ p. end p s.m_bottom) (sym o) in
    elim (Bool-cases (s.m_top + 1 == old)) [
      | inl t ↦ rw t (pops_last s old x v (sym e) k.0 (ground arith) k.3)
      | inr f ↦
          rw f (goes s (restoring old) s.m_bottom v e (k.0, ground (arith, v.ordered, e, k.1)))
    ]

pop_restore-IsDeque :
    (s : State) (old : ℕ) → s.owner ≡ restoring old → IsDeque s → IsDeque (pop_restore s old)
unfolding pop_restore
pop_restore-IsDeque s old o v =
    let e : old ≡ end_of s = ap (λ p. end p s.m_bottom) (sym o) in
    let l : old + 1 - 1 ≡ old = omega arith in goes s idle (old + 1) v (l ∙ e) (omega arith)

-- Every step of the owner keeps the deque right.
pub owner_step-IsDeque : (s : State) (c : Call) → IsDeque s → IsDeque (owner_step s c)
unfolding owner_step
owner_step-IsDeque s c v = by_place s.owner refl
  where
    by_call :
        (c : Call)
        → s.owner ≡ idle
        → IsDeque (elim c [ call_push value ↦ push_start s value | call_pop ↦ pop_claim s ])
    by_call (call_push x) o = push_start-IsDeque s x o v
    by_call call_pop o = pop_claim-IsDeque s o v

    by_place :
        (p : Owner)
        → s.owner ≡ p
        → IsDeque (elim p [
          | idle ↦ (elim c [ call_push value ↦ push_start s value | call_pop ↦ pop_claim s ])
          | pushing value bottom top ↦ push_check s value bottom top
          | storing value bottom ↦ push_store s value bottom
          | publishing value bottom ↦ push_publish s value bottom
          | popping old ↦ pop_look s old
          | racing old value ↦ pop_exchange s old value
          | restoring old ↦ pop_restore s old
        ])
    by_place idle o = by_call c o
    by_place (pushing x b t) o = push_check-IsDeque s x b t o v
    by_place (storing x b) o = push_store-IsDeque s x b o v
    by_place (publishing x b) o = push_publish-IsDeque s x b o v
    by_place (popping old) o = pop_look-IsDeque s old o v
    by_place (racing old x) o = pop_exchange-IsDeque s old x o v
    by_place (restoring old) o = pop_restore-IsDeque s old o v
