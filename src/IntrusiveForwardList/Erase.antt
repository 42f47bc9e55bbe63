-- ===== src/IntrusiveForwardList/Erase.antt =====
-- Erasing in include/mclo/container/intrusive_forward_list.hpp: `erase_after` and `pop_front`.
use mclo.Common.{
  ℕ, zero, suc, ◌≤◌, ◌<◌, ◌≡◌, refl, none, some, List, [], ◌∷◌, ◌++◌, true, false, ◌==◌, has,
  Distinct, has-append, Distinct-split, Distinct-join, arith, length,
}
use mclo.IntrusiveForwardList.{Hooks, set_next, erase_after, erase_loop, erase_range, pop_front}
use mclo.IntrusiveForwardList.Links.{
  Links, IsList, last_of, first_of, Links-from, Links-split, Links-join, Links-first, Links-last,
  Links-relink, has-last_of,
}

-- The hooks once the element `y` behind `p` is taken out.
abbrev pub without : Hooks → ℕ → ℕ → Hooks
without h p y = set_next (set_next h y none) p (h y)

module _ (h : Hooks) (l : ℕ) (xs : List ℕ) (y : ℕ) (ys : List ℕ)
    (is : IsList h l (xs ++ (y ∷ ys))) where
  abbrev place : ℕ
  place = last_of l xs

  parts : Links h l xs (some y) × Links h place (y ∷ ys) none
  parts = Links-split h l xs (y ∷ ys) none is.links

  spread :
      Distinct (l ∷ xs)
      × Distinct (y ∷ ys)
      × ((a : ℕ) → has a (y ∷ ys) ≡ true → has a (l ∷ xs) ≡ false)
  spread = Distinct-split (l ∷ xs) (y ∷ ys) is.distinct

  place-apart : (place == y) ≡ false
  place-apart = ground (arith, spread.2 y, has-last_of l xs)

  without-IsList : IsList (without h place y) l (xs ++ ys)
  unfolding set_next
  without-IsList = record {
    links =
        Links-join (without h place y) l xs ys none
          (Links-relink h (without h place y) l xs (some y) (first_of ys none) parts.0 spread.0
            (λ a i ne. ground (arith, spread.2 y))
            (ground (arith, Links-first h y ys none parts.1.1)))
          (Links-from h (without h place y) y place ys none parts.1.1 (ground arith)
            (λ a i. ground (arith, spread.1.0, spread.2 a, has-last_of l xs)));
    distinct = Distinct-join (l ∷ xs) ys spread.0 spread.1.1 (λ a i. spread.2 a (ground arith));
  }

  without-hook : without h place y y ≡ none
  unfolding set_next
  without-hook = ground (arith, place-apart)

  without-frame : (a : ℕ) → has a (l ∷ (xs ++ (y ∷ ys))) ≡ false → without h place y a ≡ h a
  unfolding set_next
  without-frame a o = ground (arith, has-append a xs (y ∷ ys), apart)
    where
      apart : has a (l ∷ xs) ≡ false → (a == place) ≡ false
      apart n = ground (arith, has-last_of l xs)

-- `erase_after` takes the element behind the position out of the list, returns it and leaves its hook
-- null and the hooks outside the list alone; behind the last element it changes nothing and returns null.
-- `pop_front` does the same at the front.
pub erase_after_lem :
    (h : Hooks) (l : ℕ) (xs : List ℕ) (y : ℕ) (ys : List ℕ)
    → IsList h l (xs ++ (y ∷ ys))
    → (h' : Hooks) × (erase_after h (some (last_of l xs)) ≡ some (some y, h'))
      × IsList h' l (xs ++ ys)
      × (h' y ≡ none)
      × ((a : ℕ) → has a (l ∷ (xs ++ (y ∷ ys))) ≡ false → h' a ≡ h a)
      × (erase_after h (some (last_of y ys)) ≡ some (none, h))
      × (pop_front h l ≡ erase_after h (some l))
unfolding erase_after pop_front
erase_after_lem h l xs y ys is = (
  without h (last_of l xs) y,
  ground (arith, (parts h l xs y ys is).1.0),
  without-IsList h l xs y ys is,
  without-hook h l xs y ys is,
  without-frame h l xs y ys is,
  ground (arith, Links-last h y ys none (parts h l xs y ys is).1.1),
  refl,
)

erase_loop_lem :
    (fuel : ℕ) (h : Hooks) (l : ℕ) (xs ys : List ℕ) (z : ℕ) (zs : List ℕ)
    → IsList h l (xs ++ (ys ++ (z ∷ zs)))
    → length ys ≤ fuel
    → (h' : Hooks) × (erase_loop (suc fuel) h (last_of l xs) z ≡ some h')
      × IsList h' l (xs ++ (z ∷ zs))
      × ((a : ℕ) → has a ys ≡ true → h' a ≡ none)
      × ((a : ℕ) → has a (l ∷ (xs ++ (ys ++ (z ∷ zs)))) ≡ false → h' a ≡ h a)
unfolding erase_loop
erase_loop_lem fuel h l xs [] z zs is e =
    (h, ground (arith, (parts h l xs z zs is).1.0), is, λ a i. ground arith, λ a o. refl)
erase_loop_lem zero h l xs (y ∷ ys) z zs is e = absurd (ground arith)
erase_loop_lem (suc fuel) h l xs (y ∷ ys) z zs is e =
    let p = last_of l xs in
    let s = spread h l xs y (ys ++ (z ∷ zs)) is in
    let r =
      erase_loop_lem fuel (without h p y) l xs ys z zs (without-IsList h l xs y (ys ++ (z ∷ zs)) is)
        (ground arith) in
    (
      r.0,
      ground
          (arith, r.1, (parts h l xs y (ys ++ (z ∷ zs)) is).1.0, s.1.0, has-append y ys (z ∷ zs)),
      r.2,
      λ a i. ground (
        arith,
        r.3 a,
        r.4 y,
        without-hook h l xs y (ys ++ (z ∷ zs)) is,
        s.1.0,
        s.2 y,
        has-append y xs (ys ++ (z ∷ zs)),
      ),
      λ a o. ground (
        arith,
        r.4 a,
        without-frame h l xs y (ys ++ (z ∷ zs)) is a,
        has-append a xs (y ∷ (ys ++ (z ∷ zs))),
        has-append a xs (ys ++ (z ∷ zs)),
      ),
    )

-- `erase_after` of a range, with a step of fuel for each element and one more, takes out what stands
-- between the two positions and returns the second; the hooks taken out are null and those outside the
-- list are left alone. Two positions that are the same change nothing, and an end of the list as the
-- second one is refused.
pub erase_range_lem :
    (h : Hooks) (l : ℕ) (xs ys : List ℕ) (z : ℕ) (zs : List ℕ)
    → IsList h l (xs ++ (ys ++ (z ∷ zs)))
    → (fuel : ℕ) → length ys < fuel
    → (h' : Hooks) × (erase_range fuel h (some (last_of l xs)) (some z) ≡ some (some z, h'))
      × IsList h' l (xs ++ (z ∷ zs))
      × ((a : ℕ) → has a ys ≡ true → h' a ≡ none)
      × ((a : ℕ) → has a (l ∷ (xs ++ (ys ++ (z ∷ zs)))) ≡ false → h' a ≡ h a)
      × (erase_range fuel h (some (last_of l xs)) none ≡ none)
      × (erase_range fuel h (some (last_of l xs)) (some (last_of l xs))
          ≡ some (some (last_of l xs), h))
unfolding erase_range
erase_range_lem h l xs ys z zs is zero e = absurd (ground arith)
erase_range_lem h l xs ys z zs is (suc fuel) e =
    let s = Distinct-split (l ∷ xs) (ys ++ (z ∷ zs)) is.distinct in
    let apart : (last_of l xs == z) ≡ false =
      ground (arith, s.2 z, has-append z ys (z ∷ zs), has-last_of l xs) in
    let r = erase_loop_lem fuel h l xs ys z zs is (ground arith) in
    (r.0, ground (arith, r.1, apart), r.2, r.3, r.4, refl, ground arith)
