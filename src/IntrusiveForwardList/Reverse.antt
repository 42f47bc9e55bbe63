-- ===== src/IntrusiveForwardList/Reverse.antt =====
-- `reverse`, `consume`, `clear` and the moves of include/mclo/container/intrusive_forward_list.hpp.
use mclo.Common.{
  ℕ, zero, suc, ◌≤◌, ◌<◌, ◌≡◌, ◌≢◌, refl, Option, none, some, List, [], ◌∷◌, ◌++◌, true, false,
  ◌||◌, has, Distinct, has-append, Bool-cases, inl, inr, arith, length,
}
use mathlib.Core.List.{reverse_aux}
use mathlib.Core.List as List
use mclo.IntrusiveForwardList.{
  Hooks, set_next, reverse_loop, reverse, consume_loop, consume, clear, move_construct, move_assign,
}
use mclo.IntrusiveForwardList.Links.{Links, IsList, first_of, Links-frame, Links-from, Links-first}

-- The hooks lead from the first of some addresses to the others, and end there.
abbrev Chain : Hooks → List ℕ → Type 0
Chain h [] = Unit
Chain h (z ∷ zs) = Links h z zs none

Chain-Links :
    (h : Hooks) (p : ℕ) (zs : List ℕ) → h p ≡ first_of zs none → Chain h zs → Links h p zs none
Chain-Links h p [] e c = e
Chain-Links h p (z ∷ zs) e c = (e, c)

Chain-frame :
    (h g : Hooks) (zs : List ℕ) → Chain h zs → ((a : ℕ) → has a zs ≡ true → g a ≡ h a) → Chain g zs
Chain-frame h g [] c same = tt
Chain-frame h g (z ∷ zs) c same = Links-frame h g z zs none c same

Chain-rest :
    (h g : Hooks) (x : ℕ) (xs : List ℕ)
    → Links h x xs none
    → ((a : ℕ) → has a xs ≡ true → g a ≡ h a)
    → Chain g xs
Chain-rest h g x [] k same = tt
Chain-rest h g x (y ∷ ys) k same = Links-frame h g y ys none k.1 same

has-reverse_aux : (a : ℕ) (ys zs : List ℕ) → has a (reverse_aux ys zs) ≡ (has a ys || has a zs)
has-reverse_aux a [] zs = refl
has-reverse_aux a (y ∷ ys) zs = ground (arith, has-reverse_aux a ys (y ∷ zs))

Distinct-reverse_aux :
    (ys zs : List ℕ)
    → Distinct ys
    → Distinct zs
    → ((a : ℕ) → has a ys ≡ true → has a zs ≡ false)
    → Distinct (reverse_aux ys zs)
Distinct-reverse_aux [] zs d e apart = e
Distinct-reverse_aux (y ∷ ys) zs d e apart =
    Distinct-reverse_aux ys (y ∷ zs) d.1 (ground (arith, apart y), e)
      (λ a i. ground (arith, apart a, d.0))

reverse_loop_lem :
    (fuel : ℕ) (h : Hooks) (l c : ℕ) (ys zs : List ℕ)
    → Links h c ys none
    → Chain h zs
    → Distinct (c ∷ ys)
    → ((a : ℕ) → has a (c ∷ ys) ≡ true → has a zs ≡ false)
    → has l (c ∷ ys) ≡ false
    → has l zs ≡ false
    → length ys ≤ fuel
    → (h' : Hooks) × (reverse_loop (suc fuel) h l (first_of zs none) c ≡ some h')
      × Links h' l (reverse_aux (c ∷ ys) zs) none
      × ((a : ℕ) → a ≢ l → has a (c ∷ ys) ≡ false → h' a ≡ h a)
unfolding reverse_loop set_next
reverse_loop_lem fuel h l c [] zs k s d apart o u e =
    let g = set_next (set_next h c (first_of zs none)) l (some c) in
    (
      g,
      ground (arith, k),
      (
        ground arith,
        Chain-Links g c zs (ground arith) (Chain-frame h g zs s (λ a i. ground (arith, apart a))),
      ),
      λ a n f. ground arith,
    )
reverse_loop_lem zero h l c (y ∷ ys) zs k s d apart o u e = absurd (ground arith)
reverse_loop_lem (suc fuel) h l c (y ∷ ys) zs k s d apart o u e =
    let h₁ = set_next h c (first_of zs none) in
    let r =
      reverse_loop_lem fuel h₁ l y ys (c ∷ zs)
        (Links-frame h h₁ y ys none k.1 (λ a i. ground (arith, d.0)))
        (Chain-Links h₁ c zs (ground arith)
          (Chain-frame h h₁ zs s (λ a i. ground (arith, apart a))))
        d.1 (λ a i. ground (arith, apart a, d.0)) (ground arith) (ground arith) (ground arith) in
    (r.0, ground (arith, r.1, k.0), r.2, λ a n f. ground (arith, r.3 a))

-- `reverse` with fuel for each element ends, reverses the list and touches no other hook.
pub reverse_lem :
    (h : Hooks) (l : ℕ) (xs : List ℕ)
    → IsList h l xs
    → (fuel : ℕ) → length xs ≤ fuel
    → (h' : Hooks) × (reverse fuel h l ≡ some h')
      × IsList h' l (List.reverse xs)
      × ((a : ℕ) → has a (l ∷ xs) ≡ false → h' a ≡ h a)
unfolding reverse
reverse_lem h l [] is fuel e = (h, ground (arith, is.links), is, λ a o. refl)
reverse_lem h l (x ∷ xs) is zero e = absurd (ground arith)
reverse_lem h l (x ∷ xs) is (suc fuel) e =
    let r =
      reverse_loop_lem fuel h l x xs [] is.links.1 tt is.distinct.1 (λ a i. refl) is.distinct.0 refl
        (ground arith) in
    (
      r.0,
      ground (arith, r.1, is.links.0),
      record {
        links = r.2;
        distinct = (
          ground (arith, has-reverse_aux l (x ∷ xs) [], is.distinct.0),
          Distinct-reverse_aux (x ∷ xs) [] is.distinct.1 tt (λ a i. refl),
        );
      },
      λ a o. ground (arith, r.3 a),
    )

consume_loop_lem :
    (fuel : ℕ) (h : Hooks) (head : Option ℕ) (xs : List ℕ)
    → head ≡ first_of xs none
    → Chain h xs
    → Distinct xs
    → length xs ≤ fuel
    → (h' : Hooks) × (consume_loop (suc fuel) h head ≡ some (xs, h'))
      × ((a : ℕ) → has a xs ≡ true → h' a ≡ none)
      × ((a : ℕ) → has a xs ≡ false → h' a ≡ h a)
unfolding consume_loop set_next
consume_loop_lem fuel h head [] i k d e = (h, ground (arith, i), λ a i. ground arith, λ a o. refl)
consume_loop_lem zero h head (x ∷ xs) i k d e = absurd (ground arith)
consume_loop_lem (suc fuel) h head (x ∷ xs) i k d e =
    let r =
      consume_loop_lem fuel (set_next h x none) (h x) xs (Links-first h x xs none k)
        (Chain-rest h (set_next h x none) x xs k (λ a i. ground (arith, d.0))) d.1 (ground arith) in
    (
      r.0,
      ground (arith, i, r.1),
      λ a o. ground (arith, r.2 a, r.3 a, d.0),
      λ a o. ground (arith, r.3 a),
    )

-- `consume` with more fuel than there are elements ends and hands out all elements in order; the list is empty
-- afterwards, the hooks of its elements are null and no other hook is touched. `clear` does the same.
pub consume_lem :
    (h : Hooks) (l : ℕ) (xs : List ℕ)
    → IsList h l xs
    → (fuel : ℕ) → length xs < fuel
    → (h' : Hooks) × (consume fuel h l ≡ some (xs, h'))
      × (clear fuel h l ≡ some h')
      × ((a : ℕ) → has a (l ∷ xs) ≡ true → h' a ≡ none)
      × ((a : ℕ) → has a (l ∷ xs) ≡ false → h' a ≡ h a)
unfolding consume clear set_next
consume_lem h l xs is zero e = absurd (ground arith)
consume_lem h l xs is (suc fuel) e =
    let r =
      consume_loop_lem fuel (set_next h l none) (h l) xs (Links-first h l xs none is.links)
        (Chain-rest h (set_next h l none) l xs is.links (λ a i. ground (arith, is.distinct.0)))
        is.distinct.1 (ground arith) in
    (
      r.0,
      r.1,
      ground (arith, r.1),
      λ a i. ground (arith, r.2 a, r.3 a, is.distinct.0),
      λ a o. ground (arith, r.3 a),
    )

-- Move assignment to another list empties the list it assigns to, with their hooks null, takes over the
-- elements and leaves the other list empty; to itself it changes nothing.
pub move_assign_moves :
    (h : Hooks) (l other : ℕ) (xs ys : List ℕ)
    → IsList h l xs
    → IsList h other ys
    → ((a : ℕ) → has a (other ∷ ys) ≡ true → has a (l ∷ xs) ≡ false)
    → (fuel : ℕ) → length xs < fuel
    → (move_assign fuel h l l ≡ some h)
      × ((h' : Hooks) × (move_assign fuel h l other ≡ some h')
          × IsList h' l ys
          × IsList h' other []
          × ((a : ℕ) → has a xs ≡ true → h' a ≡ none)
          × ((a : ℕ) → has a (l ∷ other ∷ (xs ++ ys)) ≡ false → h' a ≡ h a))
unfolding move_assign move_construct set_next
move_assign_moves h l other xs ys is js apart fuel e =
    let r = consume_lem h l xs is fuel e in
    let h' = move_construct r.0 l other in
    let keep : (a : ℕ) → has a (other ∷ ys) ≡ true → r.0 a ≡ h a = λ a i. r.4 a (apart a i) in
    (
      ground arith,
      (
        h',
        ground (arith, r.2, apart other),
        record {
          links =
              Links-from h h' other l ys none js.links (ground (arith, keep other))
                (λ a i. ground (arith, keep a, apart a, js.distinct.0));
          distinct = (
            elim (Bool-cases (has l ys)) [ inl i ↦ absurd (ground (arith, apart l)) | inr n ↦ n ],
            js.distinct.1,
          );
        },
        record { links = ground (arith, apart other); distinct = (refl, tt) },
        λ a i. ground (arith, r.3 a, apart a, is.distinct.0),
        λ a o. ground (arith, r.4 a, has-append a xs ys),
      ),
    )
