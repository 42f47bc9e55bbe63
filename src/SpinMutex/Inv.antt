-- ===== src/SpinMutex/Inv.antt =====
-- The mutex of include/mclo/threading/spin_mutex.hpp excludes threads from each other.
use mclo.Common.{
  ℕ, ◌≡◌, ◌⊎◌, refl, ap, subst, ◌==◌, some, Bool, true, false, if◌then◌else◌, Bool-cases, inl, inr,
  arith,
}
use mclo.SpinMutex.{
  Place, outside, exchanging, spinning, trying, holding, State, Call, call_lock, call_try_lock,
  call_unlock, proceed, move_to, lock_exchange, lock_load, try_load, try_exchange, unlock, advance,
  step, initial,
}
use mclo.SpinMutex.Steps.{Runs, done, next}

abbrev pub is_holding : Place → Bool
is_holding outside = false
is_holding exchanging = false
is_holding spinning = false
is_holding trying = false
is_holding holding = true

-- Who holds the lock, if it is taken.
abbrev pub Held : State → Type 0
Held s =
    ((s.m_lock ≡ false) × ((t : ℕ) → is_holding (s.places t) ≡ false))
    ⊎ ((h : ℕ) × (s.m_lock ≡ true) × ((t : ℕ) → is_holding (s.places t) ≡ (t == h)))

-- A thread that does not hold the lock goes to another place where it does not.
stay :
    (s : State) (t : ℕ) (p : Place)
    → is_holding (s.places t) ≡ false
    → is_holding p ≡ false
    → Held s
    → Held (move_to s s.m_lock t p)
unfolding move_to
stay s t p o e (inl f) = inl (f.0, λ u. ground (arith, f.1 u))
stay s t p o e (inr h) = inr (h.0, h.1, λ u. ground (arith, h.2 u, h.2 t))

-- A thread that finds the lock free and takes it.
take : (s : State) (t : ℕ) → s.m_lock ≡ false → Held s → Held (move_to s true t holding)
unfolding move_to
take s t e (inl f) = inr (t, refl, λ u. ground (arith, f.1 u))
take s t e (inr h) = absurd (ground (arith, h.1))

-- A thread that holds the lock and gives it back.
give : (s : State) (t : ℕ) → is_holding (s.places t) ≡ true → Held s → Held (unlock s t)
unfolding unlock move_to
give s t e (inl f) = absurd (ground (arith, f.1 t))
give s t e (inr h) = inl (refl, λ u. ground (arith, h.2 u, h.2 t))

-- An exchange by a thread that does not hold the lock.
exchange-Held :
    (s : State) (t : ℕ) (p : Place)
    → is_holding (s.places t) ≡ false
    → is_holding p ≡ false
    → Held s
    → Held (if s.m_lock then move_to s true t p else move_to s true t holding)
exchange-Held s t p o e h = elim (Bool-cases s.m_lock) [
  | inl y ↦
      subst Held (ground (arith, y)) (subst (λ b. Held (move_to s b t p)) y (stay s t p o e h))
  | inr n ↦ subst Held (ground (arith, n)) (take s t n h)
]

-- A load that stays or goes on.
load-Held :
    (s : State) (t : ℕ) (p : Place)
    → is_holding (s.places t) ≡ false
    → is_holding p ≡ false
    → Held s
    → Held (if s.m_lock then s else move_to s s.m_lock t p)
load-Held s t p o e h = elim (Bool-cases s.m_lock) [
  | inl y ↦ subst Held (ground (arith, y)) h
  | inr n ↦ subst Held (ground (arith, n)) (stay s t p o e h)
]

advance-Held :
    (p : Place) (c : Call) (t : ℕ) (s u : State)
    → s.places t ≡ p
    → advance p c t s ≡ some u
    → Held s
    → Held u
unfolding advance lock_exchange lock_load try_load try_exchange
advance-Held outside call_lock t s u e k h =
    subst Held (cc) (stay s t exchanging (ap is_holding e) refl h)
advance-Held outside call_try_lock t s u e k h =
    subst Held (cc) (load-Held s t trying (ap is_holding e) refl h)
advance-Held outside call_unlock t s u e k h = absurd (ground arith)
advance-Held outside proceed t s u e k h = absurd (ground arith)
advance-Held exchanging proceed t s u e k h =
    subst Held (cc) (exchange-Held s t spinning (ap is_holding e) refl h)
advance-Held exchanging call_lock t s u e k h = absurd (ground arith)
advance-Held exchanging call_try_lock t s u e k h = absurd (ground arith)
advance-Held exchanging call_unlock t s u e k h = absurd (ground arith)
advance-Held spinning proceed t s u e k h =
    subst Held (cc) (load-Held s t exchanging (ap is_holding e) refl h)
advance-Held spinning call_lock t s u e k h = absurd (ground arith)
advance-Held spinning call_try_lock t s u e k h = absurd (ground arith)
advance-Held spinning call_unlock t s u e k h = absurd (ground arith)
advance-Held trying proceed t s u e k h =
    subst Held (cc) (exchange-Held s t outside (ap is_holding e) refl h)
advance-Held trying call_lock t s u e k h = absurd (ground arith)
advance-Held trying call_try_lock t s u e k h = absurd (ground arith)
advance-Held trying call_unlock t s u e k h = absurd (ground arith)
advance-Held holding call_unlock t s u e k h = subst Held (cc) (give s t (ap is_holding e) h)
advance-Held holding call_lock t s u e k h = absurd (ground arith)
advance-Held holding call_try_lock t s u e k h = absurd (ground arith)
advance-Held holding proceed t s u e k h = absurd (ground arith)

pub step-Held : (c : Call) (t : ℕ) (s u : State) → step c t s ≡ some u → Held s → Held u
unfolding step
step-Held c t s u k h = advance-Held (s.places t) c t s u refl k h

pub Runs-Held : {s u : State} → Runs s u → Held s → Held u
Runs-Held done h = h
Runs-Held (next c t k rest) h = Runs-Held rest (step-Held c t _ _ k h)

-- Whatever steps any threads take from the start, in any order, no two threads hold the lock, and m_lock
-- is set just when one does.
pub exclusion_lem :
    (s : State)
    → Runs initial s
    → ((t u : ℕ) → is_holding (s.places t) ≡ true → is_holding (s.places u) ≡ true → t ≡ u)
      × ((t : ℕ) → is_holding (s.places t) ≡ true → s.m_lock ≡ true)
      × (s.m_lock ≡ true → (t : ℕ) × (is_holding (s.places t) ≡ true))
exclusion_lem s r = by_Held s (Runs-Held r (inl (refl, λ t. refl)))
  where
    by_Held :
        (s : State)
        → Held s
        → ((t u : ℕ) → is_holding (s.places t) ≡ true → is_holding (s.places u) ≡ true → t ≡ u)
          × ((t : ℕ) → is_holding (s.places t) ≡ true → s.m_lock ≡ true)
          × (s.m_lock ≡ true → (t : ℕ) × (is_holding (s.places t) ≡ true))
    by_Held s (inl f) = (
      λ t u a b. absurd (ground (arith, f.1 t)),
      λ t a. absurd (ground (arith, f.1 t)),
      λ e. absurd (ground (arith, f.0)),
    )
    by_Held s (inr h) =
        (λ t u a b. ground (arith, h.2 t, h.2 u), λ t a. h.1, λ e. (h.0, ground (arith, h.2 h.0)))
