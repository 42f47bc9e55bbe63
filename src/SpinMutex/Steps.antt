-- ===== src/SpinMutex/Steps.antt =====
-- Runs of several threads on the mutex of include/mclo/threading/spin_mutex.hpp.
use mclo.Common.{ℕ, suc, ◌≡◌, some}
use mclo.SpinMutex.{State, Call, proceed, step}

-- The states that the steps of any threads lead to, in any order.
pub data Runs : State → State → Type 0 where
  done : {s : State} → Runs s s
  next : {s u last : State} (c : Call) (t : ℕ) → step c t s ≡ some u → Runs u last → Runs s last

-- The states that a number of accesses of one thread alone lead to, within the method it is in.
pub data Solo (t : ℕ) : ℕ → State → State → Type 0 where
  rests : {s : State} → Solo t 0 s s
  takes :
      {n : ℕ} {s u last : State}
      → step proceed t s ≡ some u
      → Solo t n u last
      → Solo t (suc n) s last
