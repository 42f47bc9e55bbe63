-- ===== src/SpinMutex/Tests.antt =====
-- include/mclo/threading/spin_mutex.hpp with two threads, and the theorems at them.
use mclo.Common.{ℕ, ◌≤◌, ◌≡◌, ◌⊎◌, some, refl, true, false, inr}
use mclo.SpinMutex.{
  exchanging, spinning, holding, State, Call, call_lock, call_unlock, proceed, move_to,
  lock_exchange, advance, step, initial,
}
use mclo.SpinMutex.Steps.{Runs, Solo, done, next}
use mclo.SpinMutex.Inv.{is_holding, exclusion_lem}
use mclo.SpinMutex.Progress.{progress_lem}

-- Thread 0 has the lock, and thread 1 waits for it.
abbrev called : State
called = move_to initial false 0 exchanging

abbrev taken : State
taken = move_to called true 0 holding

abbrev both : State
both = move_to taken true 1 exchanging

abbrev contended : State
contended = move_to both true 1 spinning

contended-Runs : Runs initial contended
unfolding step advance lock_exchange move_to
contended-Runs =
    next call_lock 0 refl (next proceed 0 refl (next call_lock 1 refl (next proceed 1 refl done)))

waits : contended.places 1 ≡ spinning
unfolding move_to
waits = refl

exclusion_lem_example :
    ((t u : ℕ)
      → is_holding (contended.places t) ≡ true
      → is_holding (contended.places u) ≡ true
      → t ≡ u)
    × ((t : ℕ) → is_holding (contended.places t) ≡ true → contended.m_lock ≡ true)
    × (contended.m_lock ≡ true → (t : ℕ) × (is_holding (contended.places t) ≡ true))
exclusion_lem_example = exclusion_lem contended contended-Runs

progress_lem_example :
    ((n : ℕ) × (u : State) × Solo 1 n contended u × (n ≤ 2) × (u.places 1 ≡ holding))
    ⊎ ((h : ℕ) × (s' : State) × (contended.places h ≡ holding)
        × ((c : Call) (u : State) → step c h contended ≡ some u → u ≡ s')
        × (step call_unlock h contended ≡ some s')
        × ((n : ℕ) × (u : State) × Solo 1 n s' u × (n ≤ 2) × (u.places 1 ≡ holding)))
progress_lem_example = progress_lem contended contended-Runs 1 (inr waits)
