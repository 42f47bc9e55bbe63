-- ===== src/SpinMutex/Progress.antt =====
-- No deadlock on the mutex of include/mclo/threading/spin_mutex.hpp.
use mclo.Common.{ℕ, ◌≤◌, some, ◌≡◌, ◌⊎◌, refl, sym, ap, ◌∙◌, ◌==◌, true, false, inl, inr, arith}
use mclo.SpinMutex.{
  Place, outside, exchanging, spinning, trying, holding, State, Call, call_lock, call_try_lock,
  call_unlock, proceed, move_to, lock_exchange, lock_load, unlock, advance, step, initial,
}
use mclo.SpinMutex.Steps.{Runs, Solo, rests, takes}
use mclo.SpinMutex.Inv.{is_holding, Held, Runs-Held}

-- A thread that is in `lock`.
abbrev pub IsWaiting : State → ℕ → Type 0
IsWaiting s t = (s.places t ≡ exchanging) ⊎ (s.places t ≡ spinning)

-- A thread that takes the lock by at most two steps of its own.
abbrev pub Takes : State → ℕ → Type 0
Takes s t = (n : ℕ) × (u : State) × Solo t n s u × (n ≤ 2) × (u.places t ≡ holding)

-- Where the lock is free, a thread in `lock` gets it by its own steps.
from_free : (s : State) (t : ℕ) → s.m_lock ≡ false → IsWaiting s t → Takes s t
unfolding step advance lock_exchange lock_load move_to
from_free s t f (inl e) = (
  1,
  move_to s true t holding,
  takes (ap (λ p. advance p proceed t s) e ∙ ground (arith, f)) rests,
  omega arith,
  ground arith,
)
from_free s t f (inr e) =
    let u = move_to s s.m_lock t exchanging in
    let here : u.places t ≡ exchanging = ground arith in
    (
      2,
      move_to u true t holding,
      takes (ap (λ p. advance p proceed t s) e ∙ ground (arith, f))
          (takes {s = u} (ap (λ p. advance p proceed t u) here ∙ ground (arith, f)) rests),
      omega arith,
      ground arith,
    )

is_holding-cases : (p : Place) → is_holding p ≡ true → p ≡ holding
is_holding-cases outside e = absurd (ground arith)
is_holding-cases exchanging e = absurd (ground arith)
is_holding-cases spinning e = absurd (ground arith)
is_holding-cases trying e = absurd (ground arith)
is_holding-cases holding e = refl

-- Where a thread holds the lock, its next call gives it back, and then the waiting one gets it.
abbrev pub Follows : State → ℕ → Type 0
Follows s t =
    (h : ℕ) × (s' : State) × (s.places h ≡ holding)
    × ((c : Call) (u : State) → step c h s ≡ some u → u ≡ s')
    × (step call_unlock h s ≡ some s')
    × Takes s' t

from_held : (s : State) (t : ℕ) → Held s → IsWaiting s t → Takes s t ⊎ Follows s t
unfolding step advance unlock move_to
from_held s t (inl f) w = inl (from_free s t f.0 w)
from_held s t (inr h) w =
    let place = is_holding-cases (s.places h.0) (ground (arith, h.2 h.0)) in
    let apart : (t == h.0) ≡ false = other w in
    inr (
      h.0,
      unlock s h.0,
      place,
      λ c u k. only c u (ap (λ p. advance p c h.0 s) (sym place) ∙ k),
      ap (λ p. advance p call_unlock h.0 s) place,
      from_free (unlock s h.0) t refl (kept apart w),
    )
  where
    other : IsWaiting s t → (t == h.0) ≡ false
    other (inl e) = sym (h.2 t) ∙ ap is_holding e
    other (inr e) = sym (h.2 t) ∙ ap is_holding e

    kept : (t == h.0) ≡ false → IsWaiting s t → IsWaiting (unlock s h.0) t
    kept a (inl e) = inl (ground (arith, a, e))
    kept a (inr e) = inr (ground (arith, a, e))

    only : (c : Call) (u : State) → advance holding c h.0 s ≡ some u → u ≡ unlock s h.0
    only call_unlock u k = cc
    only call_lock u k = absurd (ground arith)
    only call_try_lock u k = absurd (ground arith)
    only proceed u k = absurd (ground arith)

-- In every state that the threads can reach, a thread that is in `lock` gets the lock by at most two
-- steps of its own, unless another thread holds it; then the only step of the holder is to unlock, and
-- after it the waiting thread gets the lock by at most two steps of its own.
pub progress_lem :
    (s : State)
    → Runs initial s
    → (t : ℕ) → (s.places t ≡ exchanging) ⊎ (s.places t ≡ spinning)
    → ((n : ℕ) × (u : State) × Solo t n s u × (n ≤ 2) × (u.places t ≡ holding))
      ⊎ ((h : ℕ) × (s' : State) × (s.places h ≡ holding)
          × ((c : Call) (u : State) → step c h s ≡ some u → u ≡ s')
          × (step call_unlock h s ≡ some s')
          × ((n : ℕ) × (u : State) × Solo t n s' u × (n ≤ 2) × (u.places t ≡ holding)))
progress_lem s r t w = from_held s t (Runs-Held r (inl (refl, λ u. refl))) w
