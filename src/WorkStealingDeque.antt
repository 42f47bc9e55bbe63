-- ===== src/WorkStealingDeque.antt =====
-- include/mclo/threading/work_stealing_deque.hpp: an owner and any number of thieves.
--
-- A step is one access to an atomic member, with the thread's own work up to the next one; accesses are in
-- one order. m_bottom stands for the member plus one, since `pop` on an empty deque takes it one below
-- the start. The storages that there have been are numbered, and m_storage is the number of the current
-- one. What has been pushed and what pop and steal have returned is kept with the state.
pub mod Ring
pub mod Live
pub mod Inv
pub mod PushSteps
pub mod OwnerSteps
pub mod ThiefSteps
pub mod Runs
mod Tests
use Prim.Native.Nat.{bit_and}
use mclo.Common.{
  ℕ, zero, suc, ◌+◌, ◌-◌, ◌*◌, ◌^◌, Option, none, some, List, [], ◌∷◌, Bool, true, false, ltb, leb,
  ◌==◌, if◌then◌else◌,
}

-- A ring of 2 ^ bits cells.
pub record RingStorage : Type 0 where
  pub bits : ℕ
  pub cells : ℕ → ℕ

unfoldable pub capacity : RingStorage → ℕ
capacity r = 2 ^ r.bits

unfoldable pub slot : RingStorage → ℕ → ℕ
slot r index = bit_and index (2 ^ r.bits - 1)

unfoldable pub load : RingStorage → ℕ → ℕ
load r index = r.cells (slot r index)

unfoldable pub store : RingStorage → ℕ → ℕ → RingStorage
store r index value = record r { cells = λ j. if j == slot r index then value else r.cells j }

-- The loop of `resize`.
unfoldable pub copy_cells : RingStorage → ℕ → ℕ → RingStorage → RingStorage
copy_cells r zero i new = new
copy_cells r (suc n) i new = copy_cells r n (i + 1) (store new i (load r i))

unfoldable pub resize : RingStorage → ℕ → ℕ → RingStorage
resize r bottom top = copy_cells r (bottom - top) top (record { bits = r.bits + 1; cells = λ j. 0 })

-- Where the owner stands: in `push` before and after the test of the size and before it publishes, in
-- `pop` after it has claimed the last index, before its exchange, and before it puts bottom back.
pub data Owner : Type 0 where
  idle : Owner
  pushing : ℕ → ℕ → ℕ → Owner
  storing : ℕ → ℕ → Owner
  publishing : ℕ → ℕ → Owner
  popping : ℕ → Owner
  racing : ℕ → ℕ → Owner
  restoring : ℕ → Owner

-- Where a thief stands in `steal`: with top, with bottom behind it, with the storage, with the value.
pub data Thief : Type 0 where
  away : Thief
  started : ℕ → Thief
  seen : ℕ → Thief
  reading : ℕ → ℕ → Thief
  exchanging : ℕ → ℕ → Thief

pub record State : Type 0 where
  pub m_top : ℕ
  pub m_bottom : ℕ
  pub m_storage : ℕ
  pub storages : ℕ → RingStorage
  pub owner : Owner
  pub thieves : ℕ → Thief
  pub pushed : List ℕ
  pub taken : List ℕ

abbrev pub current : State → RingStorage
current s = s.storages s.m_storage

-- A write to one of the storages.
abbrev pub put_storage : State → ℕ → RingStorage → ℕ → RingStorage
put_storage s k r j = if j == k then r else s.storages j

unfoldable pub push_start : State → ℕ → State
push_start s value = record s { owner = pushing value (s.m_bottom - 1) s.m_top }

unfoldable pub push_check : State → ℕ → ℕ → ℕ → State
push_check s value bottom top =
    if ltb (capacity (current s) - 1) (bottom - top)
    then record s {
      storages = put_storage s (s.m_storage + 1) (resize (current s) bottom top);
      m_storage = s.m_storage + 1;
      owner = storing value bottom;
    }
    else record s { owner = storing value bottom }

unfoldable pub push_store : State → ℕ → ℕ → State
push_store s value bottom = record s {
  storages = put_storage s s.m_storage (store (current s) bottom value);
  owner = publishing value bottom;
}

unfoldable pub push_publish : State → ℕ → ℕ → State
push_publish s value bottom = record s {
  m_bottom = bottom + 2;
  owner = idle;
  pushed = value ∷ s.pushed;
}

unfoldable pub pop_claim : State → State
pop_claim s = record s { m_bottom = s.m_bottom - 1; owner = popping (s.m_bottom - 1) }

unfoldable pub pop_look : State → ℕ → State
pop_look s old =
    let value = load (current s) (old - 1) in
    if ltb s.m_top old
    then (if s.m_top + 1 == old
        then record s { owner = racing old value }
        else record s { owner = idle; taken = value ∷ s.taken })
    else record s { owner = restoring old }

unfoldable pub pop_exchange : State → ℕ → ℕ → State
pop_exchange s old value =
    if s.m_top + 1 == old
    then record s { m_top = old; owner = restoring old; taken = value ∷ s.taken }
    else record s { owner = restoring old }

unfoldable pub pop_restore : State → ℕ → State
pop_restore s old = record s { m_bottom = old + 1; owner = idle }

pub data Call : Type 0 where
  call_push : ℕ → Call
  call_pop : Call

-- The next step of the owner, with what it calls where it is idle.
unfoldable pub owner_step : State → Call → State
owner_step s c = elim s.owner [
  | idle ↦ (elim c [ call_push value ↦ push_start s value | call_pop ↦ pop_claim s ])
  | pushing value bottom top ↦ push_check s value bottom top
  | storing value bottom ↦ push_store s value bottom
  | publishing value bottom ↦ push_publish s value bottom
  | popping old ↦ pop_look s old
  | racing old value ↦ pop_exchange s old value
  | restoring old ↦ pop_restore s old
]

abbrev pub put_thief : State → ℕ → Thief → ℕ → Thief
put_thief s u p v = if v == u then p else s.thieves v

-- The next step of a thief.
unfoldable pub thief_step : State → ℕ → State
thief_step s u = elim (s.thieves u) [
  | away ↦ record s { thieves = put_thief s u (started s.m_top) }
  | started top ↦ record s {
    thieves = put_thief s u (if ltb (top + 1) s.m_bottom then seen top else away);
  }
  | seen top ↦ record s { thieves = put_thief s u (reading top s.m_storage) }
  | reading top k ↦ record s { thieves = put_thief s u (exchanging top (load (s.storages k) top)) }
  | exchanging top value ↦
      if s.m_top == top
      then record s { m_top = top + 1; thieves = put_thief s u away; taken = value ∷ s.taken }
      else record s { thieves = put_thief s u away }
]

-- A new deque, with a storage of a power of two.
unfoldable pub initial : ℕ → State
initial bits = record {
  m_top = 0;
  m_bottom = 1;
  m_storage = 0;
  storages = λ k. record { bits = bits; cells = λ j. 0 };
  owner = idle;
  thieves = λ u. away;
  pushed = [];
  taken = [];
}
