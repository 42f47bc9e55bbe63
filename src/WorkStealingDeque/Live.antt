-- ===== src/WorkStealingDeque/Live.antt =====
-- How often a value stands in a list, and the values at a range of indices.
use mathlib.Core.Path.{ap₂}
use mclo.Common.{
  ℕ, zero, suc, ◌+◌, ◌≤◌, ◌<◌, ◌≡◌, refl, sym, ap, ◌∙◌, List, [], ◌∷◌, ◌==◌, if◌then◌else◌, arith,
}

abbrev pub count : ℕ → List ℕ → ℕ
count v [] = 0
count v (x ∷ xs) = if v == x then suc (count v xs) else count v xs

-- The values at so many indices from a start on.
abbrev pub live : (ℕ → ℕ) → ℕ → ℕ → List ℕ
live value from zero = []
live value from (suc n) = value from ∷ live value (from + 1) n

pub live-same :
    (f g : ℕ → ℕ) (from n : ℕ)
    → ((i : ℕ) → from ≤ i → i < from + n → g i ≡ f i)
    → live g from n ≡ live f from n
live-same f g from zero same = refl
live-same f g from (suc n) same =
    ap₂ ◌∷◌ (same from (omega arith) (omega arith))
      (live-same f g (from + 1) n (λ i le lt. same i (omega arith) (omega arith)))

-- One more at the end, and one less at the start.
pub count-live_end :
    (v : ℕ) (f : ℕ → ℕ) (from n : ℕ)
    → count v (live f from (n + 1)) ≡ count v (f (from + n) ∷ live f from n)
count-live_end v f from zero =
    (let e : from + 0 ≡ from = omega arith in ap (λ i. count v (f i ∷ [])) (sym e))
count-live_end v f from (suc n) =
    let rest = count-live_end v f (from + 1) n in
    let e : from + 1 + n ≡ from + suc n = omega arith in
    let l : n + 1 ≡ suc n = omega arith in
    ap (λ m. count v (live f from m)) {x = suc n + 1} {y = suc (n + 1)} (omega arith)
    ∙ ground (arith, rest, ap f e)
