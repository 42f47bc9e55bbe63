-- ===== src/IntrusiveForwardList/Remove.antt =====
-- Removal in include/mclo/container/intrusive_forward_list.hpp: `remove_if`, `unique`, `erase_after`.
use mclo.Common.{
  ℕ, zero, suc, ◌+◌, ◌≤◌, ◌<◌, ◌≡◌, refl, sym, ap, ◌∙◌, subst, Option, none, some, List, [], ◌∷◌,
  Bool, true, false, not, if◌then◌else◌, has, Distinct, Bool-cases, inl, inr, arith, length,
}
use mclo.IntrusiveForwardList.{Hooks, set_next, remove_loop, remove_if, unique_loop, unique}
use mclo.IntrusiveForwardList.Links.{Links, IsList, Links-from}

-- Each element that is not rejected for the kept one before it.
abbrev pub kept : (ℕ → ℕ → Bool) → ℕ → List ℕ → List ℕ
kept pred p [] = []
kept pred p (x ∷ xs) = if pred p x then kept pred p xs else x ∷ kept pred x xs

abbrev pub rejected : (ℕ → ℕ → Bool) → ℕ → List ℕ → List ℕ
rejected pred p [] = []
rejected pred p (x ∷ xs) = if pred p x then x ∷ rejected pred p xs else rejected pred x xs

-- The two loops are one.
loops :
    (pred : ℕ → Bool) (fuel : ℕ) (h : Hooks) (p : ℕ) (head : Option ℕ) (c : ℕ)
    → remove_loop pred fuel h p head c ≡ unique_loop (λ q x. pred x) fuel h p head c
unfolding remove_loop unique_loop
loops pred zero h p head c = refl
loops pred (suc fuel) h p none c = refl
loops pred (suc fuel) h p (some x) c =
    elim (pred x)
      as (λ b.
        (elim b [
          | true ↦ remove_loop pred fuel (set_next (set_next h x none) p (h x)) p (h x) (c + 1)
          | false ↦ remove_loop pred fuel h x (h x) c
        ])
        ≡ (elim b [
          | true ↦
              unique_loop (λ q y. pred y) fuel (set_next (set_next h x none) p (h x)) p (h x)
                (c + 1)
          | false ↦ unique_loop (λ q y. pred y) fuel h x (h x) c
        ])) [
          | true ↦ loops pred fuel (set_next (set_next h x none) p (h x)) p (h x) (c + 1)
          | false ↦ loops pred fuel h x (h x) c
        ]

has-kept :
    (pred : ℕ → ℕ → Bool) (p : ℕ) (xs : List ℕ) (a : ℕ)
    → has a xs ≡ false
    → has a (kept pred p xs) ≡ false
has-kept pred p [] a o = refl
has-kept pred p (x ∷ xs) a o = ground (arith, has-kept pred p xs a, has-kept pred x xs a)

has-rejected :
    (pred : ℕ → ℕ → Bool) (p : ℕ) (xs : List ℕ) (a : ℕ)
    → has a xs ≡ false
    → has a (rejected pred p xs) ≡ false
has-rejected pred p [] a o = refl
has-rejected pred p (x ∷ xs) a o =
    ground (arith, has-rejected pred p xs a, has-rejected pred x xs a)

Distinct-kept :
    (pred : ℕ → ℕ → Bool) (p : ℕ) (xs : List ℕ) → Distinct xs → Distinct (kept pred p xs)
Distinct-kept pred p [] d = tt
Distinct-kept pred p (x ∷ xs) d =
    elim (pred p x) as (λ b. Distinct (if b then kept pred p xs else x ∷ kept pred x xs)) [
      | true ↦ Distinct-kept pred p xs d.1
      | false ↦ (has-kept pred x xs x d.0, Distinct-kept pred x xs d.1)
    ]

-- What the loop leaves: the hooks lead through the kept elements, those of the rejected ones are null.
pub record Removed (pred : ℕ → ℕ → Bool) (p : ℕ) (xs : List ℕ) (h h' : Hooks) : Type 0 where
  pub links : Links h' p (kept pred p xs) none
  pub unhooked : (a : ℕ) → has a (rejected pred p xs) ≡ true → h' a ≡ none
  pub frame : (a : ℕ) → has a (p ∷ xs) ≡ false → h' a ≡ h a

unique_loop_lem :
    (pred : ℕ → ℕ → Bool) (fuel : ℕ) (h : Hooks) (p : ℕ) (xs : List ℕ) (c : ℕ)
    → Links h p xs none
    → Distinct (p ∷ xs)
    → length xs ≤ fuel
    → (h' : Hooks) × (unique_loop pred (suc fuel) h p (h p) c
        ≡ some (c + length (rejected pred p xs), h'))
      × Removed pred p xs h h'
unfolding unique_loop set_next
unique_loop_lem pred fuel h p [] c l d e = (
  h,
  ground (arith, l),
  record { links = l; unhooked = λ a i. ground arith; frame = λ a o. refl },
)
unique_loop_lem pred zero h p (x ∷ xs) c l d e = absurd (ground arith)
unique_loop_lem pred (suc fuel) h p (x ∷ xs) c l d e = elim (Bool-cases (pred p x)) [
  | inl t ↦
      (let h₁ = set_next (set_next h x none) p (h x) in
        let rest =
          unique_loop_lem pred fuel h₁ p xs (c + 1)
            (Links-from h h₁ x p xs none l.1 (ground arith) (λ a i. ground (arith, d.0, d.1)))
            (ground (arith, d.0), d.1.1) (ground arith) in
        (
          rest.0,
          ground (arith, rest.1, l.0),
          record {
            links =
                subst (λ b. Links rest.0 p (if b then kept pred p xs else x ∷ kept pred x xs) none)
                  (sym t) rest.2.links;
            unhooked = λ a i. ground (arith, rest.2.unhooked a, rest.2.frame x, d.0, d.1);
            frame = λ a o. ground (arith, rest.2.frame a);
          },
        ))
  | inr f ↦
      (let rest = unique_loop_lem pred fuel h x xs c l.1 d.1 (ground arith) in
        (
          rest.0,
          ground (arith, rest.1, l.0),
          record {
            links =
                subst (λ b. Links rest.0 p (if b then kept pred p xs else x ∷ kept pred x xs) none)
                  (sym f) (ground (arith, rest.2.frame p, d.0, l.0), rest.2.links);
            unhooked = λ a i. ground (arith, rest.2.unhooked a);
            frame = λ a o. ground (arith, rest.2.frame a);
          },
        ))
]

abbrev pub filter : (ℕ → Bool) → List ℕ → List ℕ
filter pred [] = []
filter pred (x ∷ xs) = if pred x then x ∷ filter pred xs else filter pred xs

kept-filter :
    (pred : ℕ → Bool) (p : ℕ) (xs : List ℕ)
    → kept (λ q x. pred x) p xs ≡ filter (λ x. not (pred x)) xs
kept-filter pred p [] = refl
kept-filter pred p (x ∷ xs) = ground (arith, kept-filter pred p xs, kept-filter pred x xs)

rejected-filter :
    (pred : ℕ → Bool) (p : ℕ) (xs : List ℕ) → rejected (λ q x. pred x) p xs ≡ filter pred xs
rejected-filter pred p [] = refl
rejected-filter pred p (x ∷ xs) =
    ground (arith, rejected-filter pred p xs, rejected-filter pred x xs)

-- `remove_if` with fuel for each element and one step more leaves the elements that the predicate does
-- not accept, in their order, returns the number of the others, whose hooks are null afterwards, and
-- touches no other hook.
pub remove_if_lem :
    (pred : ℕ → Bool) (h : Hooks) (l : ℕ) (xs : List ℕ)
    → IsList h l xs
    → (fuel : ℕ) → length xs < fuel
    → (h' : Hooks) × (remove_if pred fuel h l ≡ some (length (filter pred xs), h'))
      × IsList h' l (filter (λ x. not (pred x)) xs)
      × ((a : ℕ) → has a (filter pred xs) ≡ true → h' a ≡ none)
      × ((a : ℕ) → has a (l ∷ xs) ≡ false → h' a ≡ h a)
unfolding remove_if
remove_if_lem pred h l xs is zero e = absurd (ground arith)
remove_if_lem pred h l xs is (suc fuel) e =
    let by = (λ (q x : ℕ). pred x) in
    let r = unique_loop_lem by fuel h l xs 0 is.links is.distinct (ground arith) in
    let k = kept-filter pred l xs in
    let j = rejected-filter pred l xs in
    (
      r.0,
      ground (arith, loops pred (suc fuel) h l (h l) 0, r.1, j),
      record {
        links = subst (λ ys. Links r.0 l ys none) k r.2.links;
        distinct =
            subst (λ ys. Distinct (l ∷ ys)) k
              (has-kept by l xs l is.distinct.0, Distinct-kept by l xs is.distinct.1);
      },
      λ a i. r.2.unhooked a (ap (has a) j ∙ i),
      r.2.frame,
    )

-- `unique`, with as much fuel, keeps the first element and each one that the predicate does not accept
-- together with the kept one before it; of the others it returns the number, and their hooks are null
-- afterwards. It touches no hook outside the list.
pub unique_lem :
    (pred : ℕ → ℕ → Bool) (h : Hooks) (l x : ℕ) (xs : List ℕ)
    → IsList h l (x ∷ xs)
    → (fuel : ℕ) → length xs < fuel
    → (h' : Hooks) × (unique pred fuel h l ≡ some (length (rejected pred x xs), h'))
      × IsList h' l (x ∷ kept pred x xs)
      × ((a : ℕ) → has a (rejected pred x xs) ≡ true → h' a ≡ none)
      × ((a : ℕ) → has a (l ∷ x ∷ xs) ≡ false → h' a ≡ h a)
unfolding unique
unique_lem pred h l x xs is zero e = absurd (ground arith)
unique_lem pred h l x xs is (suc fuel) e =
    let r = unique_loop_lem pred fuel h x xs 0 is.links.1 is.distinct.1 (ground arith) in
    let apart = is.distinct.0 in
    (
      r.0,
      ground (arith, r.1, is.links.0),
      record {
        links = (ground (arith, r.2.frame l, is.links.0), r.2.links);
        distinct = (
          ground (arith, has-kept pred x xs l),
          (has-kept pred x xs x is.distinct.1.0, Distinct-kept pred x xs is.distinct.1.1),
        );
      },
      r.2.unhooked,
      λ a o. ground (arith, r.2.frame a),
    )
