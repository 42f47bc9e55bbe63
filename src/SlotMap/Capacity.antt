-- ===== src/SlotMap/Capacity.antt =====
-- `calculate_new_capacity` of include/mclo/container/dense_slot_map.hpp. The products and quotients
-- of a size by the growth factor 1.5f are computed in floating point by the machine: they are the
-- two functions of a `Growth`.
use mclo.Common.{ℕ, ◌-◌, ltb, if◌then◌else◌, max}

pub record Growth : Type 0 where
  pub times_factor : ℕ → ℕ
  pub over_factor : ℕ → ℕ

pub grown : Growth → ℕ → ℕ → ℕ → ℕ
grown growth max_capacity old_capacity new_size =
    if ltb (max_capacity - growth.over_factor old_capacity) old_capacity
    then max_capacity
    else max (growth.times_factor old_capacity) new_size
