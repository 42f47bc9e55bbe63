-- ===== src/WorkStealingDeque/PushSteps.antt =====
-- The steps of `push` in include/mclo/threading/work_stealing_deque.hpp.
use mclo.Common.{
  ℕ, ◌+◌, ◌-◌, ◌≤◌, ◌<◌, ◌≡◌, refl, sym, ap, ◌∙◌, subst, inl, inr, ltb, ◌==◌, Bool-cases, arith,
}
use mclo.WorkStealingDeque.{
  RingStorage, capacity, load, store, resize, Owner, idle, pushing, storing, publishing, State,
  current, put_storage, push_start, push_check, push_store, push_publish,
}
use mclo.WorkStealingDeque.Ring.{
  load-store_same, load-store_below, capacity-store, load-resize, some-capacity,
}
use mclo.WorkStealingDeque.Live.{count, live, live-same, count-live_end}
use mclo.WorkStealingDeque.Inv.{end, end_of, OwnerKnows, ThiefKnows, ThiefKnows-keep, IsDeque}

-- A step after which the end, the storages and top are as before.
pub goes :
    (s : State) (o : Owner) (bottom : ℕ)
    → IsDeque s
    → end o bottom ≡ end_of s
    → OwnerKnows o s.m_top bottom (current s)
    → IsDeque (record s { owner = o; m_bottom = bottom })
goes s o bottom v e k = record {
  ordered = omega (arith, v.ordered, e);
  fits = omega (arith, v.fits, e);
  owner_knows = k;
  thieves_know = λ u.
      subst (λ n. ThiefKnows (s.thieves u) s.m_top n s.m_storage s.storages) (sym e)
        (v.thieves_know u);
  conserved = λ y.
      v.conserved y
      ∙ ap (λ n. count y s.taken + count y (live (load (current s)) s.m_top (n - s.m_top))) (sym e);
}

-- A step that changes the storages but nothing that is in the deque.
rewrites :
    (s : State) (k : ℕ) (g : ℕ → RingStorage) (o : Owner)
    → IsDeque s
    → end o s.m_bottom ≡ end_of s
    → s.m_storage ≤ k
    → capacity (current s) ≤ capacity (g k)
    → ((i : ℕ) → s.m_top ≤ i → i < end_of s → load (g k) i ≡ load (current s) i)
    → ((j i : ℕ)
        → j ≤ s.m_storage
        → s.m_top ≤ i
        → i < end_of s
        → load (g j) i ≡ load (s.storages j) i)
    → OwnerKnows o s.m_top s.m_bottom (g k)
    → IsDeque (record s { owner = o; m_storage = k; storages = g })
rewrites s k g o v e le more same others know = record {
  ordered = omega (arith, v.ordered, e);
  fits = omega (arith, v.fits, e, more);
  owner_knows = know;
  thieves_know = λ u.
      subst (λ n. ThiefKnows (s.thieves u) s.m_top n k g) (sym e)
        (ThiefKnows-keep (s.thieves u) s.m_top (end_of s) s.m_storage s.m_top (end_of s) k
          s.storages g (v.thieves_know u) (omega arith) le
          (λ z. (
            λ lt. lt,
            λ lt. same s.m_top (omega arith) lt,
            λ lt j l. others j s.m_top l (omega arith) lt,
          )));
  conserved = λ y.
      v.conserved y
      ∙ ap (λ c. count y s.taken + count y c)
          (sym (
            ap (λ n. live (load (g k)) s.m_top (n - s.m_top)) e
            ∙ live-same (load (current s)) (load (g k)) s.m_top (end_of s - s.m_top)
                (λ i from lt. same i from (omega arith))));
}

pub push_start-IsDeque : (s : State) (x : ℕ) → s.owner ≡ idle → IsDeque s → IsDeque (push_start s x)
unfolding push_start
push_start-IsDeque s x o v =
    let k : 0 < s.m_bottom =
      subst (λ p. OwnerKnows p s.m_top s.m_bottom (current s)) o v.owner_knows in
    let e : s.m_bottom - 1 ≡ end_of s = ap (λ p. end p s.m_bottom) (sym o) in
    goes s (pushing x (s.m_bottom - 1) s.m_top) s.m_bottom v e
      (omega (arith, k), omega arith, omega (arith, v.fits, e))

pub push_check-IsDeque :
    (s : State) (x b t : ℕ) → s.owner ≡ pushing x b t → IsDeque s → IsDeque (push_check s x b t)
unfolding push_check
push_check-IsDeque s x b t o v =
    let k = subst (λ p. OwnerKnows p s.m_top s.m_bottom (current s)) o v.owner_knows in
    let e : b ≡ end_of s = ap (λ p. end p s.m_bottom) (sym o) in
    let r = load-resize (current s) b t k.2 in
    let c = some-capacity (current s) in
    let g = put_storage s (s.m_storage + 1) (resize (current s) b t) in
    let new : g (s.m_storage + 1) ≡ resize (current s) b t = ground arith in
    let old : (j : ℕ) → j ≤ s.m_storage → g j ≡ s.storages j = λ j le. ground arith in
    elim (Bool-cases (ltb (capacity (current s) - 1) (b - t))) [
      | inl y ↦ rw y (
          rewrites s (s.m_storage + 1) g (storing x b) v e (omega arith)
            (omega (arith, ap capacity new, r.0))
            (λ i from lt. ap (λ q. load q i) new ∙ r.1 i (omega (arith, k.1)) (omega (arith, e)))
            (λ j i le from lt. ap (λ q. load q i) (old j le))
            (k.0, omega (arith, ap capacity new, r.0, e, v.fits, c)))
      | inr n ↦ rw n (goes s (storing x b) s.m_bottom v e (k.0, ground (arith, k.1, c)))
    ]

pub push_store-IsDeque :
    (s : State) (x b : ℕ) → s.owner ≡ storing x b → IsDeque s → IsDeque (push_store s x b)
unfolding push_store
push_store-IsDeque s x b o v =
    let k = subst (λ p. OwnerKnows p s.m_top s.m_bottom (current s)) o v.owner_knows in
    let e : b ≡ end_of s = ap (λ p. end p s.m_bottom) (sym o) in
    let r = store (current s) b x in
    let g = put_storage s s.m_storage r in
    let new : g s.m_storage ≡ r = ground arith in
    let c = capacity-store (current s) b x in
    let below : (i : ℕ) → s.m_top ≤ i → i < end_of s → load r i ≡ load (current s) i =
      λ i from lt. load-store_below (current s) i b x (omega (arith, e)) (omega (arith, k.1)) in
    rewrites s s.m_storage g (publishing x b) v e (omega arith) (omega (arith, ap capacity new, c))
      (λ i from lt. ap (λ q. load q i) new ∙ below i from lt)
      (λ j i le from lt. elim (Bool-cases (j == s.m_storage)) [
        | inl t ↦
            (let z : j ≡ s.m_storage = ground arith in
              let a : g j ≡ r = ground arith in
              ap (λ q. load q i) a ∙ below i from lt ∙ ap (λ m. load (s.storages m) i) (sym z))
        | inr f ↦ (let a : g j ≡ s.storages j = ground arith in ap (λ q. load q i) a)
      ])
      (
        k.0,
        omega (arith, k.1, ap capacity new, c),
        ap (λ q. load q b) new ∙ load-store_same (current s) b x,
      )

pub push_publish-IsDeque :
    (s : State) (x b : ℕ) → s.owner ≡ publishing x b → IsDeque s → IsDeque (push_publish s x b)
unfolding push_publish
push_publish-IsDeque s x b o v =
    let k = subst (λ p. OwnerKnows p s.m_top s.m_bottom (current s)) o v.owner_knows in
    let e : b ≡ end_of s = ap (λ p. end p s.m_bottom) (sym o) in
    let l : b + 2 - 1 ≡ b + 1 = omega arith in
    let f = load (current s) in
    record {
      ordered = omega (arith, v.ordered, e);
      fits = omega (arith, k.1);
      owner_knows = omega arith;
      thieves_know = λ u.
          ThiefKnows-keep (s.thieves u) s.m_top (end_of s) s.m_storage s.m_top (b + 2 - 1)
            s.m_storage s.storages s.storages (v.thieves_know u) (omega arith) (omega arith)
            (λ z. (λ lt. omega (arith, e), λ lt. refl, λ lt j le. refl));
      conserved = λ y.
          let n : b + 2 - 1 - s.m_top ≡ b - s.m_top + 1 = omega (arith, v.ordered, e) in
          let at : s.m_top + (b - s.m_top) ≡ b = omega (arith, v.ordered, e) in
          let value : f (s.m_top + (b - s.m_top)) ≡ x = ap f at ∙ k.2 in
          let now =
            ap (λ m. count y (live f s.m_top m)) n ∙ count-live_end y f s.m_top (b - s.m_top) in
          let before = ap (λ m. count y (live f s.m_top (m - s.m_top))) e in
          ground (arith, v.conserved y, now, before, value);
    }
