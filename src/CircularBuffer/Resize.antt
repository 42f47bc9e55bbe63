-- ===== src/CircularBuffer/Resize.antt =====
-- The constructor from a capacity, `resize` and `shrink_to_fit` of include/mclo/container/circular_buffer.hpp.
use mclo.Common.{
  ℕ, zero, suc, ◌-◌, ◌<◌, ◌≤◌, ◌≡◌, ◌≢◌, inl, inr, Bool-cases, ◌==◌, ap, refl, none, some, Option,
  List, [], arith, get_elem?, get_elem?-none, get_elem?-replicate, length-replicate, length-zero,
  replicate,
}
use mclo.Storage.{load}
use mclo.Storage.Laws.{
  write_all, length-write_all, get_elem?-write_all, construct_all-eq, construct_all-none,
}
use mclo.CircularBuffer.{
  CircularBuffer, resize, shrink_to_fit, empty, with_capacity, emplace_back, set_data,
}
use mclo.CircularBuffer.Inv.{Holds}
use mclo.CircularBuffer.Spans.{transfer-eq}

-- A buffer with room for `n` elements that holds none.
abbrev pub blank : (A : Type 0) → ℕ → CircularBuffer A
blank A n = record { cells = replicate n none; data_end = n; head = 0; tail = 0; size = 0 }

pub resize-empty : (A : Type 0) (n : ℕ) → resize (empty {A = A}) n ≡ some (blank A n)
unfolding resize empty set_data
resize-empty A zero = refl
resize-empty A (suc n) = ground arith

-- The constructor from a capacity gives a buffer of that capacity that holds nothing.
pub with_capacity_refines :
    (A : Type 0) (n : ℕ)
    → 0 < n
    → (b : CircularBuffer A) × (with_capacity n ≡ some b) × Holds b [] × (b.data_end ≡ n)
unfolding with_capacity
with_capacity_refines A n pos = (
  blank A n,
  resize-empty A n,
  record {
    ends = omega (arith, length-replicate {A = Option A} n none);
    head_in = pos;
    tail_in = pos;
    size_in = omega arith;
    counted = refl;
    tail_at = ground arith;
    reads = λ i lt. ground (arith, get_elem?-replicate {A = Option A} n none i);
  },
  refl,
)

module _ {A : Type 0} (b : CircularBuffer A) {xs : List A} (h : Holds b xs) where
  -- The buffer on fresh storage for `n` elements, with `m_tail` just behind the elements.
  abbrev moved : ℕ → CircularBuffer A
  moved n = record {
    cells = write_all (replicate n none) 0 xs;
    data_end = n;
    head = 0;
    tail = b.size;
    size = b.size;
  }

  resize-eq : (n : ℕ) → b.size ≤ n → n ≢ b.data_end → resize b n ≡ some (moved n)
  unfolding resize set_data
  resize-eq n fits ne = ground (
    arith,
    transfer-eq b h (replicate n none),
    length-replicate {A = Option A} n none,
    construct_all-eq (replicate n none) 0 xs,
    length-zero xs,
  )

  moved-Holds : (n : ℕ) → b.size < n → Holds (moved n) xs
  moved-Holds n fits = record {
    ends =
        ground
          (arith, length-write_all (replicate n none) 0 xs, length-replicate {A = Option A} n none);
    head_in = omega arith;
    tail_in = omega arith;
    size_in = omega arith;
    counted = omega arith;
    tail_at = ground arith;
    reads = λ i lt. ground (
      arith,
      get_elem?-write_all (replicate n none) 0 xs i,
      length-replicate {A = Option A} n none,
      get_elem?-replicate {A = Option A} n none i,
      get_elem?-none xs i,
      ap (get_elem? xs) {x = i - 0} {y = i} (omega arith),
    );
  }

  -- Resizing to more room than the elements need keeps them all, in order, in a buffer of that
  -- capacity.
  pub resize_refines :
      (n : ℕ)
      → b.size < n
      → (b' : CircularBuffer A) × (resize b n ≡ some b') × Holds b' xs × (b'.data_end ≡ n)
  resize_refines n fits = elim (Bool-cases (n == b.data_end)) [
    | inl e ↦ (b, unfold resize in ground arith, h, ground arith)
    | inr e ↦ (moved n, resize-eq n (omega arith) (ground arith), moved-Holds n fits, refl)
  ]

  -- Resizing to less room than the elements need constructs objects past the end of the new storage.
  pub resize_short : (n : ℕ) → n < b.size → resize b n ≡ none
  unfolding resize
  resize_short n short = ground (
    arith,
    transfer-eq b h (replicate n none),
    length-replicate {A = Option A} n none,
    construct_all-none (replicate n none) 0 xs,
  )

  -- `shrink_to_fit` on a buffer that is not full returns, and leaves `m_tail` one past the end of
  -- the storage; the next `push_back` then writes there, which is undefined, for every element.
  pub shrink_to_fit_lem :
      (x : A)
      → b.size ≢ b.data_end
      → (b' : CircularBuffer A) × (shrink_to_fit b ≡ some b')
        × (b'.tail ≡ b'.data_end)
        × (emplace_back b' x ≡ none)
  unfolding shrink_to_fit emplace_back load
  shrink_to_fit_lem x ne = (
    moved b.size,
    resize-eq b.size (omega arith) ne,
    refl,
    ground (
      arith,
      length-write_all (replicate b.size none) 0 xs,
      length-replicate {A = Option A} b.size none,
      get_elem?-none (write_all (replicate b.size none) 0 xs) b.size,
    ),
  )
