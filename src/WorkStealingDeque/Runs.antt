-- ===== src/WorkStealingDeque/Runs.antt =====
-- Runs of the owner and the thieves of include/mclo/threading/work_stealing_deque.hpp.
use mclo.Common.{ℕ, ◌+◌, ◌-◌, ◌≤◌, ◌≡◌, refl, ap, arith}
use mclo.WorkStealingDeque.{
  State, idle, Call, owner_step, thief_step, initial, load, current, capacity,
}
use mclo.WorkStealingDeque.Live.{count, live}
use mclo.WorkStealingDeque.Inv.{end, end_of, contents, IsDeque}
use mclo.WorkStealingDeque.OwnerSteps.{owner_step-IsDeque}
use mclo.WorkStealingDeque.ThiefSteps.{thief_step-IsDeque}

-- The states that steps of the owner and of any thieves lead to, in any order.
pub data Runs : State → State → Type 0 where
  done : {s : State} → Runs s s
  by_owner : {s last : State} (c : Call) → Runs (owner_step s c) last → Runs s last
  by_thief : {s last : State} (u : ℕ) → Runs (thief_step s u) last → Runs s last

initial-IsDeque : (bits : ℕ) → IsDeque (initial bits)
unfolding initial
initial-IsDeque bits = record {
  ordered = omega arith;
  fits = omega arith;
  owner_knows = omega arith;
  thieves_know = λ u. tt;
  conserved = λ v. refl;
}

Runs-IsDeque : {s last : State} → Runs s last → IsDeque s → IsDeque last
Runs-IsDeque done v = v
Runs-IsDeque (by_owner c rest) v = Runs-IsDeque rest (owner_step-IsDeque _ c v)
Runs-IsDeque (by_thief u rest) v = Runs-IsDeque rest (thief_step-IsDeque _ u v)

-- Whatever steps the owner and any thieves take on a new deque, in any order, every value that has been
-- pushed has been returned by `pop` or `steal` or is in the deque, as often as it was pushed: none is
-- lost, returned twice or made up. While the owner is in no method, the deque holds the indices from top
-- to bottom, and no more than its storage has cells.
pub conserved_lem :
    (bits : ℕ) (s : State)
    → Runs (initial bits) s
    → ((v : ℕ) → count v s.pushed ≡ count v s.taken + count v (contents s))
      × (s.owner ≡ idle
          → (contents s ≡ live (load (current s)) s.m_top (s.m_bottom - 1 - s.m_top))
            × (s.m_top ≤ s.m_bottom - 1)
            × (s.m_bottom - 1 ≤ s.m_top + capacity (current s)))
conserved_lem bits s r =
    let v = Runs-IsDeque r (initial-IsDeque bits) in
    (
      v.conserved,
      λ o.
          let e : end_of s ≡ s.m_bottom - 1 = ap (λ p. end p s.m_bottom) o in
          (
            ap (λ n. live (load (current s)) s.m_top (n - s.m_top)) e,
            omega (arith, v.ordered, e),
            omega (arith, v.fits, e),
          ),
    )
