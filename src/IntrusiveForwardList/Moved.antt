-- ===== src/IntrusiveForwardList/Moved.antt =====
-- The hooks that `splice_after` writes in include/mclo/container/intrusive_forward_list.hpp.
use mclo.Common.{
  ℕ, zero, suc, ◌≤◌, ◌≡◌, refl, sym, ◌∙◌, Option, none, some, List, [], ◌∷◌, ◌++◌, true, false,
  ◌==◌, has, Distinct, has-append, Distinct-split, Distinct-join, Bool-cases, inl, inr, arith,
  length,
}
use mclo.IntrusiveForwardList.{Hooks, set_next, same, seek}
use mclo.IntrusiveForwardList.Insert.{Distinct-middle}
use mclo.IntrusiveForwardList.Links.{
  Links, IsList, last_of, first_of, Links-from, Links-split, Links-join, Links-first, Links-last,
  Links-relink, has-last_of,
}

pub same_refl : (o : Option ℕ) → same o o ≡ true
same_refl none = refl
same_refl (some p) = ground arith

pub same-first_of :
    (a : ℕ) (ws : List ℕ) → has a ws ≡ false → same (some a) (first_of ws none) ≡ false
same-first_of a [] o = refl
same-first_of a (w ∷ ws) o = ground arith

-- The search from the first of some elements stops at the last of them.
pub seek_lem :
    (fuel : ℕ) (h : Hooks) (m : ℕ) (ms : List ℕ) (stop : Option ℕ)
    → Links h m ms stop
    → ((a : ℕ) → has a ms ≡ true → same (some a) stop ≡ false)
    → length ms ≤ fuel
    → seek (suc fuel) h (some m) stop ≡ some (some (last_of m ms))
unfolding seek
seek_lem fuel h m [] stop k apart e = ground (arith, k, same_refl stop)
seek_lem zero h m (n ∷ ms) stop k apart e = absurd (ground arith)
seek_lem (suc fuel) h m (n ∷ ms) stop k apart e =
    ground (arith, k.0, apart n, seek_lem fuel h n ms stop k.1 (λ a i. apart a (ground arith)))

-- A list object `l` with a place in it, and one `other` with some elements to be moved there.
module _ (h : Hooks) (l : ℕ) (xs ys : List ℕ) (other : ℕ) (us : List ℕ) (m : ℕ) (ms ws : List ℕ)
    (is : IsList h l (xs ++ ys)) (js : IsList h other (us ++ (m ∷ (ms ++ ws))))
    (apart : (a : ℕ)
      → has a (l ∷ (xs ++ ys)) ≡ true
      → has a (other ∷ (us ++ (m ∷ (ms ++ ws)))) ≡ false) where
  abbrev place : ℕ
  place = last_of l xs

  abbrev before : ℕ
  before = last_of other us

  abbrev last : ℕ
  last = last_of m ms

  abbrev pub moved : Hooks
  moved =
      let h₁ = set_next h before (first_of ws none) in
      set_next (set_next h₁ last (h₁ place)) place (h before)

  to : Links h l xs (first_of ys none) × Links h place ys none
  to = Links-split h l xs ys none is.links

  to_apart : Distinct (l ∷ xs) × Distinct ys × ((a : ℕ) → has a ys ≡ true → has a (l ∷ xs) ≡ false)
  to_apart = Distinct-split (l ∷ xs) ys is.distinct

  pub from : Links h other us (some m) × Links h before (m ∷ (ms ++ ws)) none
  from = Links-split h other us (m ∷ (ms ++ ws)) none js.links

  from_apart :
      Distinct (other ∷ us)
      × Distinct (m ∷ (ms ++ ws))
      × ((a : ℕ) → has a (m ∷ (ms ++ ws)) ≡ true → has a (other ∷ us) ≡ false)
  from_apart = Distinct-split (other ∷ us) (m ∷ (ms ++ ws)) js.distinct

  pub within : Links h m ms (first_of ws none) × Links h last ws none
  within = Links-split h m ms ws none from.1.1

  within_apart :
      Distinct (m ∷ ms) × Distinct ws × ((a : ℕ) → has a ws ≡ true → has a (m ∷ ms) ≡ false)
  within_apart = Distinct-split (m ∷ ms) ws from_apart.1

  -- Where an address stands: in one of the five parts at most.
  in_to :
      (a : ℕ)
      → has a (l ∷ xs) ≡ true
      → (has a ys ≡ false)
        × (has a (other ∷ us) ≡ false)
        × (has a (m ∷ ms) ≡ false)
        × (has a ws ≡ false)
  in_to a i =
      let s = to_apart.2 a in
      let t = apart a in
      let e = has-append a xs ys in
      let f = has-append a us (m ∷ (ms ++ ws)) in
      let g = has-append a ms ws in
      (
        ground (arith, s, e),
        ground (arith, t, e, f),
        ground (arith, t, e, f, g),
        ground (arith, t, e, f, g),
      )

  pub in_from :
      (a : ℕ)
      → has a (other ∷ us) ≡ true
      → (has a (l ∷ (xs ++ ys)) ≡ false) × (has a (m ∷ ms) ≡ false) × (has a ws ≡ false)
  in_from a i =
      let s = from_apart.2 a in
      let f = has-append a us (m ∷ (ms ++ ws)) in
      let g = has-append a ms ws in
      (
        elim (Bool-cases (has a (l ∷ (xs ++ ys)))) [
          | inl j ↦ absurd (ground (arith, apart a, f))
          | inr n ↦ n
        ],
        ground (arith, s, g),
        ground (arith, s, g),
      )

  pub in_moved :
      (a : ℕ)
      → has a (m ∷ ms) ≡ true
      → (has a (l ∷ (xs ++ ys)) ≡ false) × (has a (other ∷ us) ≡ false) × (has a ws ≡ false)
  in_moved a i =
      let s = from_apart.2 a in
      let t = within_apart.2 a in
      let f = has-append a us (m ∷ (ms ++ ws)) in
      let g = has-append a ms ws in
      (
        elim (Bool-cases (has a (l ∷ (xs ++ ys)))) [
          | inl j ↦ absurd (ground (arith, apart a, f, g))
          | inr n ↦ n
        ],
        ground (arith, s, g),
        ground (arith, t),
      )

  has-place : has place (l ∷ xs) ≡ true
  has-place = has-last_of l xs

  has-before : has before (other ∷ us) ≡ true
  has-before = has-last_of other us

  has-last : has last (m ∷ ms) ≡ true
  has-last = has-last_of m ms

  moved-place : moved place ≡ some m
  unfolding set_next
  moved-place = ground (arith, Links-last h other us (some m) from.0)

  moved-last : moved last ≡ first_of ys none
  unfolding set_next
  moved-last =
      let n = in_to place has-place in
      ground (arith, has-last, has-before, n, Links-first h place ys none to.1)

  moved-before : moved before ≡ first_of ws none
  unfolding set_next
  moved-before =
      ground (arith, in_from before has-before, has-last, has-place, has-append before xs ys)

  moved-else :
      (a : ℕ) → (a == place) ≡ false → (a == before) ≡ false → (a == last) ≡ false → moved a ≡ h a
  unfolding set_next
  moved-else a i j k = ground arith

  pub to-IsList : IsList moved l (xs ++ (m ∷ (ms ++ ys)))
  to-IsList = record {
    links =
        Links-join moved l xs (m ∷ (ms ++ ys)) none
          (Links-relink h moved l xs (first_of ys none) (some m) to.0 to_apart.0
            (λ a i ne.
              let n = in_to a i in
              moved-else a (ground arith) (ground (arith, has-before)) (ground (arith, has-last)))
            moved-place)
          (
            moved-place,
            Links-join moved m ms ys none
                (Links-relink h moved m ms (first_of ws none) (first_of ys none) within.0
                  within_apart.0
                  (λ a i ne.
                    let n = in_moved a i in
                    moved-else a (ground (arith, has-place, has-append place xs ys))
                      (ground (arith, has-before)) (ground arith))
                  moved-last)
                (Links-from h moved place last ys none to.1
                  (moved-last ∙ sym (Links-first h place ys none to.1))
                  (λ a i.
                    moved-else a (ground (arith, has-place, to_apart.2 a))
                      (ground (arith, in_from before has-before, has-append before xs ys))
                      (ground (arith, in_moved last has-last, has-append last xs ys)))),
          );
    distinct =
        Distinct-middle (l ∷ xs) (m ∷ ms) ys is.distinct within_apart.0 (λ a i. (in_moved a i).0);
  }

  pub from-IsList : IsList moved other (us ++ ws)
  from-IsList = record {
    links =
        Links-join moved other us ws none
          (Links-relink h moved other us (some m) (first_of ws none) from.0 from_apart.0
            (λ a i ne.
              let n = in_from a i in
              moved-else a (ground (arith, has-place, has-append place xs ys)) (ground arith)
                (ground (arith, has-last)))
            moved-before)
          (Links-from h moved last before ws none within.1
            (moved-before ∙ sym (Links-first h last ws none within.1))
            (λ a i.
              moved-else a (ground (arith, has-place, in_to place has-place))
                (ground (arith, has-before, in_from before has-before))
                (ground (arith, has-last, in_moved last has-last))));
    distinct =
        Distinct-join (other ∷ us) ws from_apart.0 within_apart.1
          (λ a i. from_apart.2 a (ground (arith, has-append a ms ws)));
  }

  pub moved-frame :
      (a : ℕ)
      → has a (l ∷ (xs ++ ys)) ≡ false
      → has a (other ∷ (us ++ (m ∷ (ms ++ ws)))) ≡ false
      → moved a ≡ h a
  moved-frame a i j =
      moved-else a (ground (arith, has-place, has-append place xs ys))
        (ground (arith, has-before, has-append before us (m ∷ (ms ++ ws))))
        (ground (arith, has-last, has-append last us (m ∷ (ms ++ ws)), has-append last ms ws))
