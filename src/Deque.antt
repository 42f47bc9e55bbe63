-- ===== src/Deque.antt =====
-- A double-ended queue of bounded length, oldest first: what a circular buffer of capacity `cap`
-- promises. A push onto a full queue drops the element at the other end.
use mclo.Common.{
  ℕ, ◌-◌, Option, none, some, List, [], ◌∷◌, ◌++◌, ◌==◌, if◌then◌else◌, ◌>>=◌, length, take, drop,
}

module _ {ℓ} {A : Type ℓ} where
  abbrev pub push_back : ℕ → List A → A → List A
  push_back cap xs x = if length xs == cap then drop 1 xs ++ x ∷ [] else xs ++ x ∷ []

  abbrev pub push_front : ℕ → List A → A → List A
  push_front cap xs x = x ∷ (if length xs == cap then take (cap - 1) xs else xs)

  abbrev pub pop_back : List A → List A
  pop_back xs = take (length xs - 1) xs

  abbrev pub pop_front : List A → List A
  pop_front xs = drop 1 xs

-- The calls of a client.
pub data Op (A : Type 0) : Type 0 where
  push_last push_first : A → Op A
  pop_last pop_first reset : Op A

module _ {A : Type 0} where
  -- A pop of an empty queue is undefined.
  unfoldable pub step : ℕ → List A → Op A → Option (List A)
  step cap xs (push_last x) = some (push_back cap xs x)
  step cap xs (push_first x) = some (push_front cap xs x)
  step cap xs pop_last = if length xs == 0 then none else some (pop_back xs)
  step cap xs pop_first = if length xs == 0 then none else some (pop_front xs)
  step cap xs reset = some []

  unfoldable pub run : ℕ → List A → List (Op A) → Option (List A)
  run cap xs [] = some xs
  run cap xs (op ∷ ops) = step cap xs op >>= λ ys. run cap ys ops
