-- ===== src/SpinMutex.antt =====
-- include/mclo/threading/spin_mutex.hpp: threads that share one spin mutex.
--
-- A step of a thread is one access to m_lock, or the call of a method before its first one. Accesses are
-- in one order, as the acquire and release operations on one atomic object are; thread_pause does nothing.
pub mod Steps
pub mod Inv
pub mod Progress
mod Tests
use mclo.Common.{ℕ, ◌==◌, Option, none, some, Bool, true, false, if◌then◌else◌}

-- Where a thread stands: outside, in `lock` before the exchange, in its inner loop, in `try_lock` between
-- the load and the exchange, or holding the lock.
pub data Place : Type 0 where
  outside : Place
  exchanging : Place
  spinning : Place
  trying : Place
  holding : Place

pub record State : Type 0 where
  pub m_lock : Bool
  pub places : ℕ → Place

unfoldable pub move_to : State → Bool → ℕ → Place → State
move_to s m_lock t p = record { m_lock = m_lock; places = λ u. if u == t then p else s.places u }

pub data Call : Type 0 where
  call_lock : Call
  call_try_lock : Call
  call_unlock : Call
  proceed : Call

-- `m_lock.exchange( true )` in `lock`, and the load in its inner loop.
unfoldable pub lock_exchange : State → ℕ → State
lock_exchange s t = if s.m_lock then move_to s true t spinning else move_to s true t holding

unfoldable pub lock_load : State → ℕ → State
lock_load s t = if s.m_lock then s else move_to s s.m_lock t exchanging

-- The load and the exchange of `try_lock`.
unfoldable pub try_load : State → ℕ → State
try_load s t = if s.m_lock then s else move_to s s.m_lock t trying

unfoldable pub try_exchange : State → ℕ → State
try_exchange s t = if s.m_lock then move_to s true t outside else move_to s true t holding

unfoldable pub unlock : State → ℕ → State
unlock s t = move_to s false t outside

-- A step of a thread: a call where it may call, or its next access.
unfoldable pub advance : Place → Call → ℕ → State → Option State
advance outside call_lock t s = some (move_to s s.m_lock t exchanging)
advance outside call_try_lock t s = some (try_load s t)
advance outside call_unlock t s = none
advance outside proceed t s = none
advance exchanging proceed t s = some (lock_exchange s t)
advance exchanging call_lock t s = none
advance exchanging call_try_lock t s = none
advance exchanging call_unlock t s = none
advance spinning proceed t s = some (lock_load s t)
advance spinning call_lock t s = none
advance spinning call_try_lock t s = none
advance spinning call_unlock t s = none
advance trying proceed t s = some (try_exchange s t)
advance trying call_lock t s = none
advance trying call_try_lock t s = none
advance trying call_unlock t s = none
advance holding call_unlock t s = some (unlock s t)
advance holding call_lock t s = none
advance holding call_try_lock t s = none
advance holding proceed t s = none

unfoldable pub step : Call → ℕ → State → Option State
step c t s = advance (s.places t) c t s

abbrev pub initial : State
initial = record { m_lock = false; places = λ t. outside }
