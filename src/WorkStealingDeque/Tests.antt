-- ===== src/WorkStealingDeque/Tests.antt =====
-- include/mclo/threading/work_stealing_deque.hpp with a value that is pushed and stolen, and the theorem there.
use mclo.Common.{ℕ, ◌+◌, ◌-◌, ◌≤◌, ◌≡◌, refl, [], ◌∷◌}
use mclo.WorkStealingDeque.{
  State, idle, call_push, call_pop, owner_step, thief_step, initial, load, current, capacity,
  push_start, push_check, push_store, push_publish, pop_claim, pop_look, pop_restore, store, slot,
}
use mclo.WorkStealingDeque.Live.{count, live}
use mclo.WorkStealingDeque.Inv.{contents}
use mclo.WorkStealingDeque.Runs.{Runs, done, by_owner, by_thief, conserved_lem}

-- A push of a value, which takes four steps, and a call of `pop`.
abbrev push_of : ℕ → State → State
push_of value s =
    let go = call_push value in owner_step (owner_step (owner_step (owner_step s go) go) go) go

-- Two values are pushed; a thief goes up to its exchange, the owner pops, and the thief exchanges.
abbrev two_values : State
two_values = push_of 8 (push_of 7 (initial 1))

abbrev prepared : State
prepared = thief_step (thief_step (thief_step (thief_step two_values 0) 0) 0) 0

abbrev popped : State
popped = owner_step (owner_step prepared call_pop) call_pop

abbrev stolen : State
stolen = thief_step popped 0

stolen-Runs : Runs (initial 1) stolen
stolen-Runs =
    let a = call_push 7 in
    let b = call_push 8 in
    by_owner a (
      by_owner a (
        by_owner a (
          by_owner a (
            by_owner b (
              by_owner b (
                by_owner b (
                  by_owner b (
                    by_thief 0 (
                      by_thief 0 (
                        by_thief 0 (
                          by_thief 0
                            (by_owner call_pop (by_owner call_pop (by_thief 0 done))))))))))))))

conserved_lem_example :
    ((v : ℕ) → count v stolen.pushed ≡ count v stolen.taken + count v (contents stolen))
    × (stolen.owner ≡ idle
        → (contents stolen
            ≡ live (load (current stolen)) stolen.m_top (stolen.m_bottom - 1 - stolen.m_top))
          × (stolen.m_top ≤ stolen.m_bottom - 1)
          × (stolen.m_bottom - 1 ≤ stolen.m_top + capacity (current stolen)))
conserved_lem_example = conserved_lem 1 stolen stolen-Runs

both : stolen.taken ≡ 7 ∷ 8 ∷ []
unfolding owner_step thief_step initial push_start push_check push_store push_publish pop_claim
    pop_look pop_restore load store slot capacity
both = refl
