-- ===== src/Chacha/Discard.antt =====
-- `discard` and `set_counter` of include/mclo/random/chacha.hpp against calls of `operator()`.
use mclo.Common.{
  ℕ, zero, suc, ◌+◌, ◌-◌, ◌*◌, ◌/◌, ◌%◌, ◌^◌, ◌<◌, ◌≡◌, refl, sym, ap, ◌∙◌, subst, List, true, ltb,
  length, set, set-set, drop, get_or, length-drop, length-zero, Bool-cases, inl, inr, arith,
}
use mclo.Chacha.{
  Chacha, keystream_max, word, advance_counter, generate_block, refill, next, discard, set_counter,
  get_counter, equal, seeded, seed, load_words,
}
use mclo.Chacha.Skip.{
  IsValid, length-block, skip, skip-add, skip-within, skip-at_end, skip_blocks,
  length-advance_counter, word-advance_counter,
}
use mclo.Chacha.Laws.{Same, Same→equal, outputs, outputs-Same}

Same-refl : (g h : Chacha) → g ≡ h → Same g h
Same-refl g h e = record {
  states = ap (λ x. x.state) e;
  indices = ap (λ x. x.keystream_index) e;
  ahead =
      subst (λ x. drop g.keystream_index g.keystream ≡ drop g.keystream_index x.keystream) e refl;
}

Same-ends : {g g' h h' : Chacha} → g ≡ g' → h ≡ h' → Same g' h' → Same g h
Same-ends {g} {g'} {h} {h'} p q s = subst (λ x. Same x h) (sym p) (subst (λ y. Same g' y) (sym q) s)

-- At the end of a block the values that are left do not count.
Same-at_end :
    (state xs ys : List ℕ)
    → length xs ≡ 8
    → length ys ≡ 8
    → Same
        (record { state = state; keystream = xs; keystream_index = 8 })
        (record { state = state; keystream = ys; keystream_index = 8 })
Same-at_end state xs ys p q = record {
  states = refl;
  indices = refl;
  ahead =
      length-zero (drop 8 xs) (omega (arith, length-drop 8 xs))
      ∙ sym (length-zero (drop 8 ys) (omega (arith, length-drop 8 ys)));
}

advance_counter-mod :
    (q : ℕ) (state : List ℕ) → advance_counter (q % 2 ^ 32) state ≡ advance_counter q state
unfolding advance_counter
advance_counter-mod q state = ap (set state 12) (omega arith)

drop-outputs :
    (rounds n k : ℕ) (g : Chacha)
    → drop n (outputs rounds (n + k) g) ≡ outputs rounds k (skip rounds n g)
unfolding outputs skip
drop-outputs rounds zero k g = let e : 0 + k ≡ k = omega arith in ap (λ m. outputs rounds m g) e
drop-outputs rounds (suc n) k g =
    let e : suc n + k ≡ suc (n + k) = omega arith in
    ap (λ m. drop (suc n) (outputs rounds m g)) e ∙ drop-outputs rounds n k (next rounds g).1

module _ (rounds : ℕ) (g : Chacha) (v : IsValid g) where
  abbrev buffered : ℕ
  buffered = keystream_max - g.keystream_index

  abbrev at_end : Chacha
  at_end = record g { keystream_index = keystream_max }

  -- To the end of the block.
  skip-buffered : skip rounds buffered g ≡ at_end
  skip-buffered =
      skip-within rounds buffered g (omega (arith, v.within))
      ∙ ap (λ i. record g { keystream_index = i }) (omega (arith, v.within))

  -- Whole blocks, and then `r` values.
  skip-past :
      (n q r : ℕ)
      → n ≡ buffered + (q * 8 + r)
      → skip rounds n g ≡ skip rounds r (skip rounds (q * 8) at_end)
  skip-past n q r e =
      ap (λ k. skip rounds k g) e
      ∙ skip-add rounds buffered (q * 8 + r) g
      ∙ ap (skip rounds (q * 8 + r)) skip-buffered
      ∙ skip-add rounds (q * 8) r at_end

  moved :
      (q : ℕ)
      → (values : List ℕ) × (length values ≡ 8)
        × (skip rounds (q * 8) at_end ≡ record {
          state = advance_counter q g.state;
          keystream = values;
          keystream_index = keystream_max;
        })
  moved q = skip_blocks rounds q at_end refl v.sixteen v.counter v.eight

  discard-boundary :
      (n q : ℕ)
      → n ≡ buffered + q * 8
      → discard rounds g n ≡ record at_end { state = advance_counter q g.state }
  unfolding discard
  discard-boundary n q e =
      let quotient : (n - buffered) / 8 ≡ q = omega arith in
      let here : discard rounds g n
          ≡ record at_end { state = advance_counter ((n - buffered) / 8 % 2 ^ 32) g.state } =
        ground arith in
      here
      ∙ ap (λ k. record at_end { state = advance_counter (k % 2 ^ 32) g.state }) quotient
      ∙ ap (λ s. record at_end { state = s }) (advance_counter-mod q g.state)

  discard-inside :
      (n q r : ℕ)
      → n ≡ buffered + (q * 8 + suc r)
      → suc r < 8
      → discard rounds g n
        ≡ record (generate_block rounds (record g { state = advance_counter q g.state })) {
          keystream_index = suc r;
        }
  unfolding discard
  discard-inside n q r e lt =
      let quotient : (n - buffered) / 8 ≡ q = omega arith in
      let left : (n - buffered) % 8 ≡ suc r = omega arith in
      let here : discard rounds g n
          ≡ record (generate_block rounds
              (record g { state = advance_counter ((n - buffered) / 8 % 2 ^ 32) g.state })) {
                keystream_index = (n - buffered) % 8;
              } =
        ground arith in
      here
      ∙ ap
          (λ i.
            record (generate_block rounds
              (record g { state = advance_counter ((n - buffered) / 8 % 2 ^ 32) g.state })) {
                keystream_index = i;
              })
          left
      ∙ ap
          (λ s. record (generate_block rounds (record g { state = s })) { keystream_index = suc r })
          (ap (λ k. advance_counter (k % 2 ^ 32) g.state) quotient ∙ advance_counter-mod q g.state)

  discard-past :
      (n q r : ℕ) → n ≡ buffered + (q * 8 + r) → r < 8 → Same (discard rounds g n) (skip rounds n g)
  unfolding skip generate_block
  discard-past n q zero e lt =
      let here = skip-past n q 0 e ∙ (moved q).2 in
      Same-ends (discard-boundary n q (omega arith)) here
        (Same-at_end (advance_counter q g.state) g.keystream (moved q).0 v.eight (moved q).1)
  discard-past n q (suc r) e lt = Same-refl (discard rounds g n) (skip rounds n g) (
      discard-inside n q r e lt
      ∙ sym (
          skip-past n q (suc r) e
          ∙ ap (skip rounds (suc r)) (moved q).2
          ∙ skip-at_end rounds r
              (record {
                state = advance_counter q g.state;
                keystream = (moved q).0;
                keystream_index = keystream_max;
              })
              refl (omega arith)))

  discard-Same : (n : ℕ) → Same (discard rounds g n) (skip rounds n g)
  unfolding discard
  discard-Same n = elim (Bool-cases (ltb n buffered)) [
    | inl e ↦
        Same-refl (discard rounds g n) (skip rounds n g)
          (ground (arith, skip-within rounds n g, v.within))
    | inr e ↦ discard-past n ((n - buffered) / 8) ((n - buffered) % 8) (ground arith) (omega arith)
  ]

  -- Discarding any number of values leaves a generator that compares as equal to the one that is left
  -- by as many calls.
  pub discard_lem : (n : ℕ) → equal (discard rounds g n) (skip rounds n g) ≡ true
  discard_lem n = Same→equal (discard rounds g n) (skip rounds n g) (discard-Same n)

  -- After discarding `n` values the generator gives the values that it would have given from the `n`th
  -- on.
  pub discard-outputs :
      (n k : ℕ) → outputs rounds k (discard rounds g n) ≡ drop n (outputs rounds (n + k) g)
  discard-outputs n k =
      outputs-Same rounds k (discard rounds g n) (skip rounds n g) (discard-Same n)
      ∙ sym (drop-outputs rounds n k g)

-- A call changes nothing of the state but the counter.
next-state : (rounds : ℕ) (g : Chacha) (w : ℕ) → set (next rounds g).1.state 12 w ≡ set g.state 12 w
unfolding next refill generate_block advance_counter
next-state rounds g w = ground (arith, set-set g.state 12 ((word g.state 12 + 1) % 2 ^ 32) w)

next-eight :
    (rounds : ℕ) (g : Chacha) → length g.keystream ≡ 8 → length (next rounds g).1.keystream ≡ 8
unfolding next refill generate_block
next-eight rounds g e = ground (arith, length-block rounds g.state)

pub seeded-IsValid : (key nonce : List ℕ) → IsValid (seeded key nonce)
unfolding seeded seed load_words
seeded-IsValid key nonce = record {
  sixteen = refl;
  eight = refl;
  counter = omega arith;
  within = omega arith;
}

module _ (rounds : ℕ) (key nonce : List ℕ) where
  abbrev new : Chacha
  new = seeded key nonce

  new-blocks :
      (q : ℕ)
      → (values : List ℕ) × (length values ≡ 8)
        × (skip rounds (q * 8) new ≡ record {
          state = advance_counter q new.state;
          keystream = values;
          keystream_index = keystream_max;
        })
  unfolding seeded seed
  new-blocks q =
      let v = seeded-IsValid key nonce in skip_blocks rounds q new refl v.sixteen v.counter v.eight

  new-counter : word new.state 12 ≡ 0
  unfolding seeded seed load_words
  new-counter = refl

  -- After any calls the state is that of the new generator but for the counter.
  counter-state : (m : ℕ) (g : Chacha) (w : ℕ) → set (skip rounds m g).state 12 w ≡ set g.state 12 w
  unfolding skip
  counter-state zero g w = refl
  counter-state (suc m) g w = counter-state m (next rounds g).1 w ∙ next-state rounds g w

  called-eight :
      (m : ℕ) (g : Chacha) → length g.keystream ≡ 8 → length (skip rounds m g).keystream ≡ 8
  unfolding skip
  called-eight zero g e = e
  called-eight (suc m) g e = called-eight m (next rounds g).1 (next-eight rounds g e)

  set_counter-called :
      (m n : ℕ)
      → n < 2 ^ 32
      → set_counter (skip rounds m new) n ≡ record {
        state = advance_counter n new.state;
        keystream = (skip rounds m new).keystream;
        keystream_index = keystream_max;
      }
  unfolding set_counter advance_counter
  set_counter-called m n lt =
      ap
        (λ s. record {
          state = s;
          keystream = (skip rounds m new).keystream;
          keystream_index = keystream_max;
        })
        (counter-state m new n ∙ ap (set new.state 12) (omega (arith, new-counter)))

  -- In a newly seeded generator, after any number of calls, moving to a block gives the values that the
  -- new generator gives from eight times the block's number on.
  pub set_counter-outputs :
      (m n k : ℕ)
      → n < 2 ^ 32
      → outputs rounds k (set_counter (skip rounds m new) n)
        ≡ drop (n * 8) (outputs rounds (n * 8 + k) new)
  set_counter-outputs m n k lt =
      outputs-Same rounds k (set_counter (skip rounds m new) n) (skip rounds (n * 8) new) (
        Same-ends (set_counter-called m n lt) (new-blocks n).2 (
          Same-at_end (advance_counter n new.state) (skip rounds m new).keystream (new-blocks n).0
            (called-eight m new (seeded-IsValid key nonce).eight) (new-blocks n).1))
      ∙ sym (drop-outputs rounds (n * 8) k new)

  -- After any positive number of values from a newly seeded generator, the counter is the number of
  -- blocks begun, which is one more than the number of the block that the last value is from.
  pub counter_lem : (n : ℕ) → get_counter (skip rounds (n + 1) new) ≡ (n / 8 + 1) % 2 ^ 32
  unfolding get_counter generate_block
  counter_lem n =
      let e : n + 1 ≡ n / 8 * 8 + suc (n % 8) = omega arith in
      let sixteen = (seeded-IsValid key nonce).sixteen in
      let begun = advance_counter (n / 8) new.state in
      ap (λ k. get_or (skip rounds k new).state 12 0) e
      ∙ ap (λ g. get_or g.state 12 0)
          (skip-add rounds (n / 8 * 8) (suc (n % 8)) new
            ∙ ap (skip rounds (suc (n % 8))) (new-blocks (n / 8)).2
            ∙ skip-at_end rounds (n % 8)
                (record {
                  state = begun;
                  keystream = (new-blocks (n / 8)).0;
                  keystream_index = keystream_max;
                })
                refl (omega arith))
      ∙ word-advance_counter 1 (advance_counter (n / 8) new.state)
          (length-advance_counter (n / 8) new.state ∙ sixteen)
      ∙ omega (arith, new-counter, word-advance_counter (n / 8) new.state sixteen)
