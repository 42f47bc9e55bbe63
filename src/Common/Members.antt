-- ===== src/Common/Members.antt =====
-- Which numbers stand in a list, and lists in which none stands twice.
use Prim.Native.Nat.{ℕ}
use mathlib.Core.Path.{◌≡◌, refl}
use mathlib.Core.Bool.{Bool, true, false, ◌||◌}
use mathlib.Core.List.{List, [], ◌∷◌, ◌++◌}
use native.Mathlib.Omega.{arith}
use mclo.Common.Tests.{◌==◌}

abbrev pub has : ℕ → List ℕ → Bool
has a [] = false
has a (x ∷ xs) = a == x || has a xs

abbrev pub Distinct : List ℕ → Type 0
Distinct [] = Unit
Distinct (x ∷ xs) = (has x xs ≡ false) × Distinct xs

pub has-append : (a : ℕ) (xs ys : List ℕ) → has a (xs ++ ys) ≡ (has a xs || has a ys)
has-append a [] ys = refl
has-append a (x ∷ xs) ys = ground (arith, has-append a xs ys)

-- Two distinct lists with nothing in common make one, and the other way.
pub Distinct-split :
    (xs ys : List ℕ)
    → Distinct (xs ++ ys)
    → Distinct xs × Distinct ys × ((a : ℕ) → has a ys ≡ true → has a xs ≡ false)
Distinct-split [] ys d = (tt, d, λ a i. refl)
Distinct-split (x ∷ xs) ys d =
    let rest = Distinct-split xs ys d.1 in
    let e = has-append x xs ys in
    ((ground (arith, d.0, e), rest.0), rest.1, λ a i. ground (arith, d.0, e, rest.2 a))

pub Distinct-join :
    (xs ys : List ℕ)
    → Distinct xs
    → Distinct ys
    → ((a : ℕ) → has a ys ≡ true → has a xs ≡ false)
    → Distinct (xs ++ ys)
Distinct-join [] ys d e apart = e
Distinct-join (x ∷ xs) ys d e apart = (
  ground (arith, d.0, apart x, has-append x xs ys),
  Distinct-join xs ys d.1 e (λ a i. ground (arith, apart a)),
)
