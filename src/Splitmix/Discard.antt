-- ===== src/Splitmix/Discard.antt =====
-- `discard` of source/random/splitmix64.cpp against calls of `operator()`.
use mclo.Common.{ℕ, zero, suc, ◌+◌, ◌%◌, ◌^◌, ◌<◌, ◌≡◌, sym, ap, ◌∙◌, List, [], ◌∷◌, drop, arith}
use mclo.Splitmix.{next, discard, offset}

-- The next `n` values.
unfoldable pub outputs : ℕ → ℕ → List ℕ
outputs zero state = []
outputs (suc n) state = (next state).0 ∷ outputs n (next state).1

-- The state after `n` calls.
unfoldable pub skip : ℕ → ℕ → ℕ
skip zero state = state
skip (suc n) state = skip n (next state).1

discard-skip : (n state : ℕ) → state < 2 ^ 64 → discard state n ≡ skip n state
unfolding discard skip next
discard-skip zero state lt = omega arith
discard-skip (suc n) state lt =
    let rest = discard-skip n ((state + offset) % 2 ^ 64) (omega arith) in omega (arith, rest)

drop-outputs : (n k state : ℕ) → drop n (outputs (n + k) state) ≡ outputs k (skip n state)
unfolding outputs skip
drop-outputs zero k state = let e : 0 + k ≡ k = omega arith in ap (λ m. outputs m state) e
drop-outputs (suc n) k state =
    let e : suc n + k ≡ suc (n + k) = omega arith in
    ap (λ m. drop (suc n) (outputs m state)) e ∙ drop-outputs n k (next state).1

-- Discarding `n` values leaves the state that `n` calls leave, and the values that follow are those
-- from the `n`th on.
pub discard_skips :
    (n k state : ℕ)
    → state < 2 ^ 64
    → (discard state n ≡ skip n state)
      × (outputs k (discard state n) ≡ drop n (outputs (n + k) state))
discard_skips n k state lt = (
  discard-skip n state lt,
  ap (outputs k) (discard-skip n state lt) ∙ sym (drop-outputs n k state),
)
