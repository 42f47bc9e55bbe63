-- ===== src/IntrusiveForwardList.antt =====
-- include/mclo/container/intrusive_forward_list.hpp: a singly linked list through hooks in its elements.
--
-- A hook is known by its address, a number, and the null pointer is `none`. The m_next members of all
-- hooks are one function. A list object is the address of its m_head, so that `before_begin` of it is
-- that address, and an iterator is a pointer. `none` as the result is undefined behaviour, a read through
-- a null pointer or a failed assertion, or a loop that has used up its fuel.
pub mod Links
pub mod Insert
pub mod Erase
pub mod Remove
pub mod Reverse
pub mod Moved
pub mod Splice
mod Tests
use mclo.Common.{
  ℕ, zero, suc, ◌+◌, Option, none, some, List, [], ◌∷◌, Bool, true, false, not, ◌==◌, if◌then◌else◌,
  ◌>>=◌, require,
}

abbrev pub Hooks : Type 0
Hooks = ℕ → Option ℕ

-- `p->m_next = q`
unfoldable pub set_next : Hooks → ℕ → Option ℕ → Hooks
set_next h p q a = if a == p then q else h a

abbrev pub same : Option ℕ → Option ℕ → Bool
same none none = true
same none (some q) = false
same (some p) none = false
same (some p) (some q) = p == q

-- A new list object, and its elements when there are none.
abbrev pub is_empty : Hooks → ℕ → Bool
is_empty h l = same (h l) none

unfoldable pub insert_after : Hooks → Option ℕ → ℕ → Option (Option ℕ × Hooks)
insert_after h pos value = do
  p ← pos
  some (some value, set_next (set_next h p (some value)) value (h p))

-- The loop of `insert_after` over a range, and the link to what followed.
unfoldable pub link_range : Hooks → ℕ → List ℕ → Option ℕ → ℕ × Hooks
link_range h p [] original_next = (p, set_next h p original_next)
link_range h p (v ∷ vs) original_next = link_range (set_next h p (some v)) v vs original_next

unfoldable pub insert_range : Hooks → Option ℕ → List ℕ → Option (Option ℕ × Hooks)
insert_range h pos [] = do p ← pos; some (pos, h)
insert_range h pos (v ∷ vs) = do
  p ← pos
  let r = link_range h p (v ∷ vs) (h p)
  some (some r.0, r.1)

unfoldable pub erase_after : Hooks → Option ℕ → Option (Option ℕ × Hooks)
erase_after h pos = do
  p ← pos
  some (elim (h p) [ none ↦ (none, h) | some q ↦ (some q, set_next (set_next h q none) p (h q)) ])

-- The loop of `erase_after` over a range.
unfoldable pub erase_loop : ℕ → Hooks → ℕ → ℕ → Option Hooks
erase_loop zero h p last = none
erase_loop (suc fuel) h p last =
    if same (h p) (some last)
    then some h
    else (do q ← h p; erase_loop fuel (set_next (set_next h q none) p (h q)) p last)

unfoldable pub erase_range : ℕ → Hooks → Option ℕ → Option ℕ → Option (Option ℕ × Hooks)
erase_range fuel h first last = do
  p ← first
  q ← last
  h' ← (if p == q then some h else erase_loop fuel h p q)
  some (last, h')

unfoldable pub push_front : Hooks → ℕ → ℕ → Option (Option ℕ × Hooks)
push_front h l value = insert_after h (some l) value

unfoldable pub pop_front : Hooks → ℕ → Option (Option ℕ × Hooks)
pop_front h l = erase_after h (some l)

-- `splice_after` of one element, the one behind `it`.
unfoldable pub splice_one : Hooks → Option ℕ → Option ℕ → Option Hooks
splice_one h pos it = do
  insert ← pos
  prev ← it
  if insert == prev then some h else if same (some insert) (h prev) then some h else (do
    first ← h prev
    let h₁ = set_next h prev (h first)
    let h₂ = set_next h₁ first (h₁ insert)
    some (set_next h₂ insert (some first)))

-- The loop that looks for the element before `last`: that element.
unfoldable pub seek : ℕ → Hooks → Option ℕ → Option ℕ → Option (Option ℕ)
seek zero h after last = none
seek (suc fuel) h after last = do
  p ← after
  if same (h p) last then some after else seek fuel h (h p) last

unfoldable pub splice_range : ℕ → Hooks → Option ℕ → Option ℕ → Option ℕ → Option Hooks
splice_range fuel h pos first last = if same first last then some h else (do
  before ← first
  let after = h before
  if same after last then some h else (do
    found ← seek fuel h after last
    prev_last ← found
    p ← pos
    let h₁ = set_next h before last
    let h₂ = set_next h₁ prev_last (h₁ p)
    some (set_next h₂ p after)))

-- `splice_after` of a whole list.
unfoldable pub splice_all : ℕ → Hooks → ℕ → Option ℕ → ℕ → Option Hooks
splice_all fuel h l pos other =
    require (not (l == other)) (do p ← pos; splice_range fuel h (some p) (some other) none)

-- The loop of `remove_if`; what is counted, and the hooks after it.
unfoldable pub remove_loop : (ℕ → Bool) → ℕ → Hooks → ℕ → Option ℕ → ℕ → Option (ℕ × Hooks)
remove_loop pred zero h before head count = none
remove_loop pred (suc fuel) h before head count = elim head [
  | none ↦ some (count, h)
  | some x ↦ (elim (pred x) [
    | true ↦
        remove_loop pred fuel (set_next (set_next h x none) before (h x)) before (h x) (count + 1)
    | false ↦ remove_loop pred fuel h x (h x) count
  ])
]

unfoldable pub remove_if : (ℕ → Bool) → ℕ → Hooks → ℕ → Option (ℕ × Hooks)
remove_if pred fuel h l = remove_loop pred fuel h l (h l) 0

-- The loop of `unique`.
unfoldable pub unique_loop : (ℕ → ℕ → Bool) → ℕ → Hooks → ℕ → Option ℕ → ℕ → Option (ℕ × Hooks)
unique_loop pred zero h head next count = none
unique_loop pred (suc fuel) h head next count = elim next [
  | none ↦ some (count, h)
  | some x ↦ (elim (pred head x) [
    | true ↦ unique_loop pred fuel (set_next (set_next h x none) head (h x)) head (h x) (count + 1)
    | false ↦ unique_loop pred fuel h x (h x) count
  ])
]

unfoldable pub unique : (ℕ → ℕ → Bool) → ℕ → Hooks → ℕ → Option (ℕ × Hooks)
unique pred fuel h l = elim (h l) [
  | none ↦ some (0, h)
  | some x ↦ unique_loop pred fuel h x (h x) 0
]

-- The loop of `reverse`.
unfoldable pub reverse_loop : ℕ → Hooks → ℕ → Option ℕ → ℕ → Option Hooks
reverse_loop zero h l prev current = none
reverse_loop (suc fuel) h l prev current = elim (h current) [
  | none ↦ some (set_next (set_next h current prev) l (some current))
  | some next ↦ reverse_loop fuel (set_next h current prev) l (some current) next
]

unfoldable pub reverse : ℕ → Hooks → ℕ → Option Hooks
reverse fuel h l = elim (h l) [ none ↦ some h | some x ↦ reverse_loop fuel h l none x ]

-- The loop of `consume`: the elements, in the order in which `func` gets them.
unfoldable pub consume_loop : ℕ → Hooks → Option ℕ → Option (List ℕ × Hooks)
consume_loop zero h head = none
consume_loop (suc fuel) h head = elim head [
  | none ↦ some ([], h)
  | some x ↦ (do (xs, h') ← consume_loop fuel (set_next h x none) (h x); some (x ∷ xs, h'))
]

unfoldable pub consume : ℕ → Hooks → ℕ → Option (List ℕ × Hooks)
consume fuel h l = consume_loop fuel (set_next h l none) (h l)

unfoldable pub clear : ℕ → Hooks → ℕ → Option Hooks
clear fuel h l = do (xs, h') ← consume fuel h l; some h'

unfoldable pub swap : Hooks → ℕ → ℕ → Hooks
swap h l other = set_next (set_next h l (h other)) other (h l)

unfoldable pub move_construct : Hooks → ℕ → ℕ → Hooks
move_construct h l other = set_next (set_next h other none) l (h other)

unfoldable pub move_assign : ℕ → Hooks → ℕ → ℕ → Option Hooks
move_assign fuel h l other =
    if l == other then some h else (do h' ← clear fuel h l; some (move_construct h' l other))

-- `assign` of a range.
unfoldable pub assign : ℕ → Hooks → ℕ → List ℕ → Option Hooks
assign fuel h l vs = do h₁ ← clear fuel h l; (p, h₂) ← insert_range h₁ (some l) vs; some h₂
