-- ===== src/SlotMap/Chains.antt =====
-- The chains of slots that `clear` and `reserve_slots` of
-- include/mclo/container/dense_slot_map.hpp write, read at an index.
use mclo.Common.{ℕ, zero, suc, ◌+◌, ◌<◌, ◌≡◌, refl, ap, ◌∙◌, List, [], ◌∷◌, arith, length}
use mclo.SlotMapHandle.{Bits, Handle, index_field, generation_field}
use mclo.SlotMap.Slots.{relink, chained_back}
use mclo.SlotMap.Inv.{slot_at, number_at}

-- Consecutive numbers, upwards from `from` and downwards to `low`.
abbrev pub upwards : ℕ → ℕ → List ℕ
upwards zero from = []
upwards (suc n) from = from ∷ upwards n (from + 1)

abbrev pub downwards : ℕ → ℕ → List ℕ
downwards zero low = []
downwards (suc n) low = (low + n) ∷ downwards n low

pub length-upwards : (n from : ℕ) → length (upwards n from) ≡ n
length-upwards zero from = refl
length-upwards (suc n) from = ap suc (length-upwards n (from + 1))

pub upwards-at : (n from k : ℕ) → k < n → number_at (upwards n from) k ≡ from + k
upwards-at zero from k lt = absurd (omega arith)
upwards-at (suc n) from zero lt = omega arith
upwards-at (suc n) from (suc k) lt = omega (arith, upwards-at n (from + 1) k)

pub length-downwards : (n low : ℕ) → length (downwards n low) ≡ n
length-downwards zero low = refl
length-downwards (suc n) low = ap suc (length-downwards n low)

pub downwards-at : (n low k : ℕ) → k < n → number_at (downwards n low) k + k + 1 ≡ low + n
downwards-at zero low k lt = absurd (omega arith)
downwards-at (suc n) low zero lt = omega arith
downwards-at (suc n) low (suc k) lt = omega (arith, downwards-at n low k)

pub length-relink : (c : Bits) (from : ℕ) (hs : List Handle) → length (relink c from hs) ≡ length hs
unfolding relink
length-relink c from [] = refl
length-relink c from (h ∷ hs) = ap suc (length-relink c (from + 1) hs)

pub relink-at :
    (c : Bits) (from : ℕ) (hs : List Handle) (i : ℕ)
    → i < length hs
    → ((slot_at (relink c from hs) i).index ≡ index_field c (from + i + 1))
      × ((slot_at (relink c from hs) i).generation
          ≡ generation_field c ((slot_at hs i).generation + 1))
unfolding relink
relink-at c from [] i lt = absurd (omega arith)
relink-at c from (h ∷ hs) zero lt = (ap (index_field c) (omega arith), refl)
relink-at c from (h ∷ hs) (suc i) lt =
    let (e, g) = relink-at c (from + 1) hs i (omega arith) in
    (e ∙ ap (index_field c) (omega arith), g)

pub length-chained_back : (c : Bits) (n newest : ℕ) → length (chained_back c n newest) ≡ n
unfolding chained_back
length-chained_back c zero newest = refl
length-chained_back c (suc n) newest = ap suc (length-chained_back c n (newest + 1))

pub chained_back-at :
    (c : Bits) (n newest i : ℕ)
    → i < n
    → ((slot_at (chained_back c n newest) i).index ≡ index_field c (newest + i))
      × ((slot_at (chained_back c n newest) i).generation ≡ 0)
unfolding chained_back
chained_back-at c zero newest i lt = absurd (omega arith)
chained_back-at c (suc n) newest zero lt = (ap (index_field c) (omega arith), refl)
chained_back-at c (suc n) newest (suc i) lt =
    let (e, g) = chained_back-at c n (newest + 1) i (omega arith) in
    (e ∙ ap (index_field c) (omega arith), g)
