-- ===== src/CircularBuffer/Run.antt =====
-- Any sequence of calls of include/mclo/container/circular_buffer.hpp against the bounded deque.
use mclo.Common.{
  ℕ, ◌≡◌, refl, subst, none, some, Option, List, [], ◌∷◌, arith, ◌>>=◌, ◌==◌, inl, inr, Bool-cases,
  length,
}
use Prim.{Unit}
use mclo.Deque
use mclo.Deque.{Op, push_last, push_first, pop_last, pop_first, reset}
use mclo.CircularBuffer.{CircularBuffer, emplace_back, emplace_front, pop_back, pop_front, clear}
use mclo.CircularBuffer.Inv.{Holds}
use mclo.CircularBuffer.Push.{emplace_back_refines, emplace_front_refines}
use mclo.CircularBuffer.Pop.{pop_back_refines, pop_front_refines}
use mclo.CircularBuffer.Clear.{clear_refines}

module _ {A : Type 0} where
  -- One call, its returned reference dropped.
  unfoldable pub step : CircularBuffer A → Op A → Option (CircularBuffer A)
  step b (push_last x) = do (_, b') ← emplace_back b x; some b'
  step b (push_first x) = do (_, b') ← emplace_front b x; some b'
  step b pop_last = pop_back b
  step b pop_first = pop_front b
  step b reset = clear b

  unfoldable pub run : CircularBuffer A → List (Op A) → Option (CircularBuffer A)
  run b [] = some b
  run b (op ∷ ops) = step b op >>= λ b'. run b' ops

  -- Both are undefined, or the buffer has capacity `cap` and holds the list.
  abbrev pub Agrees : ℕ → Option (CircularBuffer A) → Option (List A) → Type 0
  Agrees cap none none = Unit
  Agrees cap none (some xs) = ⊥
  Agrees cap (some b) none = ⊥
  Agrees cap (some b) (some xs) = Holds b xs × (b.data_end ≡ cap)

  pop_empty : (b : CircularBuffer A) → b.size ≡ 0 → (pop_back b ≡ none) × (pop_front b ≡ none)
  unfolding pop_back pop_front
  pop_empty b e = (ground arith, ground arith)

  pub step_refines :
      (b : CircularBuffer A) (xs : List A) (op : Op A)
      → Holds b xs
      → Agrees b.data_end (step b op) (Deque.step b.data_end xs op)
  unfolding step Deque.step
  step_refines b xs (push_last x) h =
      let (b', e, hb, d, _) = emplace_back_refines b x h in rw e (hb, d)
  step_refines b xs (push_first x) h =
      let (b', e, hb, d, _) = emplace_front_refines b x h in rw e (hb, d)
  step_refines b xs pop_last h = elim (Bool-cases (length xs == 0)) [
    | inl e ↦ rw (e, (pop_empty b (ground arith)).0) tt
    | inr e ↦ let (b', p, hb, d) = pop_back_refines b h (ground arith) in rw (e, p) (hb, d)
  ]
  step_refines b xs pop_first h = elim (Bool-cases (length xs == 0)) [
    | inl e ↦ rw (e, (pop_empty b (ground arith)).1) tt
    | inr e ↦ let (b', p, hb, d) = pop_front_refines b h (ground arith) in rw (e, p) (hb, d)
  ]
  step_refines b xs reset h = let (b', e, hb, d) = clear_refines b h in rw e (hb, d)

  Agrees-bind :
      (cap : ℕ) (o : Option (CircularBuffer A)) (q : Option (List A))
      (f : CircularBuffer A → Option (CircularBuffer A)) (g : List A → Option (List A))
      → Agrees cap o q
      → ((b : CircularBuffer A) (xs : List A)
          → Holds b xs
          → b.data_end ≡ cap
          → Agrees cap (f b) (g xs))
      → Agrees cap (o >>= f) (q >>= g)
  Agrees-bind cap none none f g a k = tt
  Agrees-bind cap none (some xs) f g a k = absurd a
  Agrees-bind cap (some b) none f g a k = absurd a
  Agrees-bind cap (some b) (some xs) f g a k = k b xs a.0 a.1

  -- Every sequence of calls on a buffer that holds a list ends as the same calls on the bounded deque
  -- of that list: undefined exactly where the deque's are, at a pop of an empty queue, and otherwise
  -- with a buffer of the same capacity that holds the deque's list.
  pub run_refines :
      (ops : List (Op A)) (b : CircularBuffer A) (xs : List A)
      → Holds b xs
      → Agrees b.data_end (run b ops) (Deque.run b.data_end xs ops)
  unfolding run Deque.run
  run_refines [] b xs h = (h, refl)
  run_refines (op ∷ ops) b xs h =
      Agrees-bind b.data_end (step b op) (Deque.step b.data_end xs op) (λ c. run c ops) _
        (step_refines b xs op h)
        λ c ys hc e.
          subst (λ n. Agrees n (run c ops) (Deque.run n ys ops)) e (run_refines ops c ys hc)
