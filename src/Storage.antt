-- ===== src/Storage.antt =====
-- Raw storage: cells that may hold an object, and the standard algorithms on them that the
-- containers of include/mclo/container/ call. Use of memory that holds no object, or lies outside
-- the storage, is `none`.
pub mod Laws
use mclo.Common.{
  ℕ, zero, suc, ◌+◌, Option, none, some, List, [], ◌∷◌, ltb, if◌then◌else◌, ◌>>=◌, ◌>>◌, length,
  get_elem?, set,
}

module _ {ℓ} {A : Type ℓ} where
  -- Reading an object.
  unfoldable pub load : List (Option A) → ℕ → Option A
  load cells p = get_elem? cells p >>= λ c. c

  -- Construction at an address: it must lie in the storage.
  unfoldable pub construct : List (Option A) → ℕ → A → Option (List (Option A))
  construct cells p x = if ltb p (length cells) then some (set cells p (some x)) else none

  -- Assignment to an object: it must be alive.
  unfoldable pub assign : List (Option A) → ℕ → A → Option (List (Option A))
  unfolding load
  assign cells p x = load cells p >> some (set cells p (some x))

  -- Destruction of an object: it must be alive.
  unfoldable pub destroy : List (Option A) → ℕ → Option (List (Option A))
  unfolding load
  destroy cells p = load cells p >> some (set cells p none)

  -- The objects of a range, by its start and length.
  unfoldable pub read_n : List (Option A) → ℕ → ℕ → Option (List A)
  unfolding load
  read_n cells p zero = some []
  read_n cells p (suc n) = do x ← load cells p; xs ← read_n cells (p + 1) n; some (x ∷ xs)

  -- `std::uninitialized_copy` and `std::uninitialized_move` to an address.
  unfoldable pub construct_all : List (Option A) → ℕ → List A → Option (List (Option A))
  unfolding construct
  construct_all cells p [] = some cells
  construct_all cells p (x ∷ xs) = do cells' ← construct cells p x; construct_all cells' (p + 1) xs

  -- `std::destroy_n`
  unfoldable pub destroy_n : List (Option A) → ℕ → ℕ → Option (List (Option A))
  unfolding destroy
  destroy_n cells p zero = some cells
  destroy_n cells p (suc n) = do cells' ← destroy cells p; destroy_n cells' (p + 1) n

  -- `std::uninitialized_move_n`, within one storage: a moved-from object stays alive.
  unfoldable pub move_n : List (Option A) → ℕ → ℕ → ℕ → Option (List (Option A))
  unfolding load construct
  move_n cells from zero to = some cells
  move_n cells from (suc n) to = do
    x ← load cells from
    cells' ← construct cells to x
    move_n cells' (from + 1) n (to + 1)
