-- ===== src/IntrusiveForwardList/Insert.antt =====
-- Insertion in include/mclo/container/intrusive_forward_list.hpp.
use mclo.Common.{
  ℕ, ◌≡◌, refl, sym, ap, subst, Option, none, some, List, [], ◌∷◌, ◌++◌, true, false, ◌==◌, has,
  Distinct, has-append, Distinct-split, Distinct-join, Bool-cases, inl, inr, arith,
}
use mclo.IntrusiveForwardList.{Hooks, set_next, insert_after, insert_range, link_range, push_front}
use mclo.IntrusiveForwardList.Links.{
  Links, IsList, last_of, first_of, Links-from, Links-split, Links-join, Links-first, Links-last,
  Links-relink, has-last_of,
}

-- A list stands apart from one put into it.
pub Distinct-middle :
    (xs vs ys : List ℕ)
    → Distinct (xs ++ ys)
    → Distinct vs
    → ((a : ℕ) → has a vs ≡ true → has a (xs ++ ys) ≡ false)
    → Distinct (xs ++ (vs ++ ys))
Distinct-middle xs vs ys d e apart =
    let s = Distinct-split xs ys d in
    Distinct-join xs (vs ++ ys) s.0
      (Distinct-join vs ys e s.1 (λ a i. elim (Bool-cases (has a vs)) [
        | inl v ↦ ground (arith, apart a, has-append a xs ys)
        | inr n ↦ n
      ]))
      (λ a i. ground (arith, s.2 a, apart a, has-append a xs ys, has-append a vs ys))

-- The hooks from the first new element on.
link_range-Links :
    (h : Hooks) (p : ℕ) (vs : List ℕ) (stop : Option ℕ)
    → Distinct (p ∷ vs)
    → Links (link_range h p vs stop).1 p vs stop
      × ((link_range h p vs stop).0 ≡ last_of p vs)
      × ((a : ℕ) → has a (p ∷ vs) ≡ false → (link_range h p vs stop).1 a ≡ h a)
unfolding link_range set_next
link_range-Links h p [] stop d = (ground arith, refl, λ a o. ground arith)
link_range-Links h p (v ∷ vs) stop d =
    let rest = link_range-Links (set_next h p (some v)) v vs stop d.1 in
    ((ground (arith, rest.2 p, d.0), rest.0), rest.1, λ a o. ground (arith, rest.2 a))

module _ (h : Hooks) (l : ℕ) (xs ys : List ℕ) (is : IsList h l (xs ++ ys)) (vs : List ℕ)
    (d : Distinct vs) (new : (a : ℕ) → has a vs ≡ true → has a (l ∷ (xs ++ ys)) ≡ false) where
  abbrev place : ℕ
  place = last_of l xs

  abbrev linked : Hooks
  linked = (link_range h place vs (h place)).1

  parts : Links h l xs (first_of ys none) × Links h place ys none
  parts = Links-split h l xs ys none is.links

  spread : Distinct (l ∷ xs) × Distinct ys × ((a : ℕ) → has a ys ≡ true → has a (l ∷ xs) ≡ false)
  spread = Distinct-split (l ∷ xs) ys is.distinct

  out : (a : ℕ) → has a vs ≡ true → has a (l ∷ xs) ≡ false
  out a i = ground (arith, new a i, has-append a xs ys)

  place-vs : Distinct (place ∷ vs)
  place-vs = (
    elim (Bool-cases (has place vs)) [
      | inl e ↦ absurd (ground (arith, out place e, has-last_of l xs))
      | inr e ↦ e
    ],
    d,
  )

  in_link :
      Links linked place vs (h place)
      × ((link_range h place vs (h place)).0 ≡ last_of place vs)
      × ((a : ℕ) → has a (place ∷ vs) ≡ false → linked a ≡ h a)
  in_link = link_range-Links h place vs (h place) place-vs

  linked-IsList : IsList linked l (xs ++ (vs ++ ys))
  linked-IsList = record {
    links =
        Links-join linked l xs (vs ++ ys) none
          (Links-relink h linked l xs (first_of ys none) (first_of (vs ++ ys) none) parts.0 spread.0
            (λ a i ne. in_link.2 a (ground (arith, out a)))
            (Links-first linked place (vs ++ ys) none chain))
          chain;
    distinct = Distinct-middle (l ∷ xs) vs ys is.distinct d new;
  }
    where
      chain : Links linked place (vs ++ ys) none
      chain =
          Links-join linked place vs ys none
            (subst (Links linked place vs) (Links-first h place ys none parts.1) in_link.0)
            (Links-from h linked place (last_of place vs) ys none parts.1
              (Links-last linked place vs (h place) in_link.0)
              (λ a i.
                in_link.2 a
                  (ground (arith, spread.2 a i, new a, has-last_of l xs, has-append a xs ys))))

  linked-frame : (a : ℕ) → has a (l ∷ (xs ++ (vs ++ ys))) ≡ false → linked a ≡ h a
  linked-frame a o =
      in_link.2 a
        (ground (arith, has-append a xs (vs ++ ys), has-append a vs ys, has-last_of-apart))
    where
      has-last_of-apart : has a (l ∷ xs) ≡ false → (a == place) ≡ false
      has-last_of-apart n = ground (arith, has-last_of l xs)

-- Inserting a range that is not empty behind an element, or before the first, puts it in between and
-- returns its last element; inserting one element does the same with it alone. The hooks outside the
-- list are left alone.
pub insert_range_lem :
    (h : Hooks) (l : ℕ) (xs ys : List ℕ)
    → IsList h l (xs ++ ys)
    → (v : ℕ) (vs : List ℕ) → Distinct (v ∷ vs)
    → ((a : ℕ) → has a (v ∷ vs) ≡ true → has a (l ∷ (xs ++ ys)) ≡ false)
    → (h' : Hooks) × (insert_range h (some (last_of l xs)) (v ∷ vs)
        ≡ some (some (last_of v vs), h'))
      × IsList h' l (xs ++ (v ∷ (vs ++ ys)))
      × ((a : ℕ) → has a (l ∷ (xs ++ (v ∷ (vs ++ ys)))) ≡ false → h' a ≡ h a)
      × (insert_after h (some (last_of l xs)) v ≡ insert_range h (some (last_of l xs)) (v ∷ []))
unfolding insert_range insert_after link_range
insert_range_lem h l xs ys is v vs d new = (
  linked h l xs ys is (v ∷ vs) d new,
  ap (λ (p : ℕ). some (some p, linked h l xs ys is (v ∷ vs) d new))
      (in_link h l xs ys is (v ∷ vs) d new).1,
  linked-IsList h l xs ys is (v ∷ vs) d new,
  linked-frame h l xs ys is (v ∷ vs) d new,
  refl,
)

-- Pushing an element at the front puts it before the list.
pub push_front_lem :
    (h : Hooks) (l : ℕ) (xs : List ℕ)
    → IsList h l xs
    → (v : ℕ) → has v (l ∷ xs) ≡ false
    → (h' : Hooks) × (push_front h l v ≡ some (some v, h'))
      × IsList h' l (v ∷ xs)
      × ((a : ℕ) → has a (l ∷ v ∷ xs) ≡ false → h' a ≡ h a)
unfolding push_front insert_range insert_after link_range
push_front_lem h l xs is v new =
    let r =
      insert_range_lem h l [] xs is v [] (refl, tt)
        (λ a i. let e : a ≡ v = ground arith in subst (λ b. has b (l ∷ xs) ≡ false) (sym e) new) in
    (r.0, r.1, r.2, r.3)
