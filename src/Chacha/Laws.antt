-- ===== src/Chacha/Laws.antt =====
-- What `discard`, `set_counter` and `operator==` of include/mclo/random/chacha.hpp promise, in terms of
-- calls of `operator()`.
use mclo.Common.{ℕ, zero, suc, ◌+◌, ◌≡◌, refl, sym, ap, ◌∙◌, List, [], ◌∷◌, true, drop, arith}
use mclo.Chacha.{Chacha, word, generate_block, refill, next, list_eq, equal}

-- What `operator==` compares.
pub record Same (g h : Chacha) : Type 0 where
  pub states : g.state ≡ h.state
  pub indices : g.keystream_index ≡ h.keystream_index
  pub ahead : drop g.keystream_index g.keystream ≡ drop g.keystream_index h.keystream

list_eq_refl : (xs : List ℕ) → list_eq xs xs ≡ true
unfolding list_eq
list_eq_refl [] = refl
list_eq_refl (x ∷ xs) = ground (arith, list_eq_refl xs)

list_eq→eq : (xs ys : List ℕ) → list_eq xs ys ≡ true → xs ≡ ys
unfolding list_eq
list_eq→eq [] [] e = refl
list_eq→eq [] (y ∷ ys) e = absurd (ground arith)
list_eq→eq (x ∷ xs) [] e = absurd (ground arith)
list_eq→eq (x ∷ xs) (y ∷ ys) e = let r = list_eq→eq xs ys in ground (arith, r)

pub Same→equal : (g h : Chacha) → Same g h → equal g h ≡ true
unfolding equal
Same→equal g h s = ground (
  arith,
  s.states,
  s.indices,
  s.ahead,
  list_eq_refl g.state,
  list_eq_refl (drop g.keystream_index g.keystream),
)

pub equal→Same : (g h : Chacha) → equal g h ≡ true → Same g h
unfolding equal
equal→Same g h e = record {
  states = list_eq→eq g.state h.state (ground arith);
  indices = ground arith;
  ahead =
      list_eq→eq (drop g.keystream_index g.keystream) (drop g.keystream_index h.keystream)
        (ground arith);
}

drop-drop_one : (n : ℕ) (xs : List ℕ) → drop (n + 1) xs ≡ drop 1 (drop n xs)
drop-drop_one zero xs = refl
drop-drop_one (suc n) [] = let e : suc n + 1 ≡ suc (n + 1) = omega arith in ap (λ k. drop k []) e
drop-drop_one (suc n) (x ∷ xs) =
    let e : suc n + 1 ≡ suc (n + 1) = omega arith in
    ap (λ k. drop k (x ∷ xs)) e ∙ drop-drop_one n xs

word-drop : (n : ℕ) (xs : List ℕ) → word xs n ≡ word (drop n xs) 0
word-drop zero xs = refl
word-drop (suc n) [] = refl
word-drop (suc n) (x ∷ xs) = word-drop n xs

read-Same :
    (g h : Chacha)
    → Same g h
    → (word g.keystream g.keystream_index ≡ word h.keystream h.keystream_index)
      × Same
          (record g { keystream_index = g.keystream_index + 1 })
          (record h { keystream_index = h.keystream_index + 1 })
read-Same g h s = (
  word-drop g.keystream_index g.keystream
      ∙ ap (λ xs. word xs 0) s.ahead
      ∙ sym (word-drop g.keystream_index h.keystream)
      ∙ ap (word h.keystream) s.indices,
  record {
    states = s.states;
    indices = ap (λ i. i + 1) s.indices;
    ahead =
        drop-drop_one g.keystream_index g.keystream
        ∙ ap (drop 1) s.ahead
        ∙ sym (drop-drop_one g.keystream_index h.keystream);
  },
)

module _ (rounds : ℕ) where
  -- The next `n` values.
  unfoldable pub outputs : ℕ → Chacha → List ℕ
  outputs zero g = []
  outputs (suc n) g = (next rounds g).0 ∷ outputs n (next rounds g).1

  refill-Same : (g h : Chacha) → Same g h → Same (refill rounds g) (refill rounds h)
  unfolding refill generate_block
  refill-Same g h s = record {
    states = ground (arith, s.states, s.indices);
    indices = ground (arith, s.states, s.indices);
    ahead = ground (arith, s.states, s.indices, s.ahead);
  }

  next-Same :
      (g h : Chacha)
      → Same g h
      → ((next rounds g).0 ≡ (next rounds h).0) × Same (next rounds g).1 (next rounds h).1
  unfolding next
  next-Same g h s = read-Same (refill rounds g) (refill rounds h) (refill-Same g h s)

  pub outputs-Same : (n : ℕ) (g h : Chacha) → Same g h → outputs n g ≡ outputs n h
  unfolding outputs
  outputs-Same zero g h s = refl
  outputs-Same (suc n) g h s =
      let step = next-Same g h s in
      ground (arith, step.0, outputs-Same n (next rounds g).1 (next rounds h).1 step.1)

  -- Two generators that compare as equal give the same values, as many as are asked for.
  pub equal-outputs : (n : ℕ) (g h : Chacha) → equal g h ≡ true → outputs n g ≡ outputs n h
  equal-outputs n g h e = outputs-Same n g h (equal→Same g h e)
