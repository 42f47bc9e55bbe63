-- ===== src/CircularBuffer/Tests.antt =====
-- Runs of include/mclo/container/circular_buffer.hpp on concrete buffers, and the theorems at them.
use mclo.Common.{ℕ, zero, suc, ◌<◌, ◌≡◌, refl, none, some, List, [], ◌∷◌, arith, get_elem?}
use mclo.Storage.{load}
use mclo.Deque
use mclo.Deque.{push_last, push_first, pop_last, pop_first, reset, Op}
use mclo.CircularBuffer.{CircularBuffer, emplace_back}
use mclo.CircularBuffer.Inv.{position, Holds}
use mclo.CircularBuffer.Push.{emplace_back_refines}
use mclo.CircularBuffer.Iterator.{erase}
use mclo.CircularBuffer.Erase.{erase_refines}
use mclo.CircularBuffer.Run.{run, Agrees, run_refines}

-- 8, then 9, round the end of a storage of three.
abbrev wrapped : CircularBuffer ℕ
wrapped = record { cells = some 9 ∷ none ∷ some 8 ∷ []; data_end = 3; head = 2; tail = 1; size = 2 }

wrapped-reads :
    (i : ℕ) → i < 3 → get_elem? wrapped.cells (position 2 3 i) ≡ some (get_elem? (8 ∷ 9 ∷ []) i)
wrapped-reads zero lt = refl
wrapped-reads (suc zero) lt = refl
wrapped-reads (suc (suc zero)) lt = refl
wrapped-reads (suc (suc (suc i))) lt = absurd (omega arith)

wrapped-Holds : Holds wrapped (8 ∷ 9 ∷ [])
wrapped-Holds = record {
  ends = refl;
  head_in = omega arith;
  tail_in = omega arith;
  size_in = omega arith;
  counted = refl;
  tail_at = refl;
  reads = wrapped-reads;
}

-- 7, 8 and 9 in a full storage, from offset 1.
abbrev turned : CircularBuffer ℕ
turned = record {
  cells = some 9 ∷ some 7 ∷ some 8 ∷ [];
  data_end = 3;
  head = 1;
  tail = 1;
  size = 3;
}

turned-reads :
    (i : ℕ) → i < 3 → get_elem? turned.cells (position 1 3 i) ≡ some (get_elem? (7 ∷ 8 ∷ 9 ∷ []) i)
turned-reads zero lt = refl
turned-reads (suc zero) lt = refl
turned-reads (suc (suc zero)) lt = refl
turned-reads (suc (suc (suc i))) lt = absurd (omega arith)

turned-Holds : Holds turned (7 ∷ 8 ∷ 9 ∷ [])
turned-Holds = record {
  ends = refl;
  head_in = omega arith;
  tail_in = omega arith;
  size_in = omega arith;
  counted = refl;
  tail_at = refl;
  reads = turned-reads;
}

abbrev calls : List (Op ℕ)
calls = push_last 1 ∷ push_last 2 ∷ pop_first ∷ push_first 5 ∷ pop_last ∷ []

deque_run : Deque.run 3 (8 ∷ 9 ∷ []) calls ≡ some (5 ∷ 1 ∷ [])
unfolding Deque.run Deque.step
deque_run = refl

run_refines_example : Agrees 3 (run wrapped calls) (Deque.run 3 (8 ∷ 9 ∷ []) calls)
run_refines_example = run_refines calls wrapped (8 ∷ 9 ∷ []) wrapped-Holds

emplace_back_refines_example :
    (b' : CircularBuffer ℕ) × (emplace_back turned 4 ≡ some (1, b'))
    × Holds b' (8 ∷ 9 ∷ 4 ∷ [])
    × (b'.data_end ≡ 3)
    × (load b'.cells 1 ≡ some 4)
emplace_back_refines_example = emplace_back_refines turned 4 turned-Holds

erase_refines_example :
    (b' : CircularBuffer ℕ) × (erase wrapped (some 2) ≡ some (b', some 2))
    × Holds b' (9 ∷ [])
    × (b'.data_end ≡ 3)
erase_refines_example = erase_refines wrapped 0 wrapped-Holds (omega arith)
