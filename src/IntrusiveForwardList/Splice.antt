-- ===== src/IntrusiveForwardList/Splice.antt =====
-- `splice_after` of include/mclo/container/intrusive_forward_list.hpp.
use mclo.Common.{
  ℕ, zero, suc, ◌<◌, ◌≡◌, sym, subst, none, some, List, [], ◌∷◌, ◌++◌, true, false, has, arith,
  length,
}
use mathlib.Core.List.{append-nil}
use mclo.IntrusiveForwardList.{Hooks, same, splice_range, splice_all}
use mclo.IntrusiveForwardList.Links.{IsList, last_of, first_of, Links-last, has-last_of}
use mclo.IntrusiveForwardList.Moved.{
  same_refl, same-first_of, seek_lem, moved, from, within, in_from, in_moved, to-IsList,
  from-IsList, moved-frame,
}

-- Splicing the elements between two positions of one list behind a position of another, with more fuel
-- than there are elements after the first of them, moves them in their order: the first list has them at
-- that position, the other no longer, and no other hook is touched. Without elements between the
-- positions nothing is changed: where they are the same, and where the second is next to the first.
pub splice_range_lem :
    (h : Hooks) (l : ℕ) (xs ys : List ℕ) (other : ℕ) (us : List ℕ) (m : ℕ) (ms ws : List ℕ)
    → IsList h l (xs ++ ys)
    → IsList h other (us ++ (m ∷ (ms ++ ws)))
    → ((a : ℕ) → has a (l ∷ (xs ++ ys)) ≡ true → has a (other ∷ (us ++ (m ∷ (ms ++ ws)))) ≡ false)
    → (fuel : ℕ) → length ms < fuel
    → (h' : Hooks) × (splice_range fuel h
          (some (last_of l xs))
          (some (last_of other us))
          (first_of ws none)
        ≡ some h')
      × IsList h' l (xs ++ (m ∷ (ms ++ ys)))
      × IsList h' other (us ++ ws)
      × ((a : ℕ)
          → has a (l ∷ (xs ++ ys)) ≡ false
          → has a (other ∷ (us ++ (m ∷ (ms ++ ws)))) ≡ false
          → h' a ≡ h a)
      × (splice_range fuel h (some (last_of l xs)) (some (last_of other us)) (some m) ≡ some h)
      × (splice_range fuel h
            (some (last_of l xs))
            (some (last_of other us))
            (some (last_of other us))
          ≡ some h)
unfolding splice_range
splice_range_lem h l xs ys other us m ms ws is js apart zero e = absurd (ground arith)
splice_range_lem h l xs ys other us m ms ws is js apart (suc fuel) e =
    let b = last_of other us in
    let k = from h l xs ys other us m ms ws is js apart in
    let s = Links-last h other us (some m) k.0 in
    let out : (a : ℕ) → has a (m ∷ ms) ≡ true → same (some a) (first_of ws none) ≡ false =
      λ a i. same-first_of a ws (in_moved h l xs ys other us m ms ws is js apart a i).2 in
    let found =
      seek_lem fuel h m ms (first_of ws none) (within h l xs ys other us m ms ws is js apart).0
        (λ a i. out a (ground arith)) (ground arith) in
    let f = in_from h l xs ys other us m ms ws is js apart b (has-last_of other us) in
    (
      moved h l xs ys other us m ms ws is js apart,
      ground (arith, s, same-first_of b ws f.2, out m, found),
      to-IsList h l xs ys other us m ms ws is js apart,
      from-IsList h l xs ys other us m ms ws is js apart,
      moved-frame h l xs ys other us m ms ws is js apart,
      ground (arith, s, f.1, same_refl (some m)),
      ground (arith, same_refl (some b)),
    )

-- Splicing a whole list that is not empty moves all of it and leaves it empty; an empty one changes
-- nothing, and a list into itself is refused.
pub splice_all_lem :
    (h : Hooks) (l : ℕ) (xs ys : List ℕ) (other m : ℕ) (ms : List ℕ)
    → IsList h l (xs ++ ys)
    → IsList h other (m ∷ ms)
    → ((a : ℕ) → has a (l ∷ (xs ++ ys)) ≡ true → has a (other ∷ m ∷ ms) ≡ false)
    → (fuel : ℕ) → length ms < fuel
    → (h' : Hooks) × (splice_all fuel h l (some (last_of l xs)) other ≡ some h')
      × IsList h' l (xs ++ (m ∷ (ms ++ ys)))
      × IsList h' other []
      × (splice_all fuel h l (some (last_of l xs)) l ≡ none)
unfolding splice_all
splice_all_lem h l xs ys other m ms is js apart fuel e =
    let n : (ms ++ []) ≡ ms = append-nil ms in
    let r =
      splice_range_lem h l xs ys other [] m ms [] is
        (subst (λ ns. IsList h other (m ∷ ns)) (sym n) js)
        (subst (λ ns. (a : ℕ) → has a (l ∷ (xs ++ ys)) ≡ true → has a (other ∷ m ∷ ns) ≡ false)
          (sym n) apart)
        fuel e in
    (r.0, ground (arith, r.1, apart l), r.2, r.3, ground arith)
