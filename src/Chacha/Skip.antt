-- ===== src/Chacha/Skip.antt =====
-- Calling `chacha::operator()` of include/mclo/random/chacha.hpp many times: what it does to the state,
-- block by block.
use mclo.Common.{
  ℕ, zero, suc, ◌+◌, ◌*◌, ◌/◌, ◌%◌, ◌^◌, ◌≤◌, ◌<◌, ◌≡◌, refl, sym, ap, ◌∙◌, List, length, set,
  length-set, get_or-set, set-set, set-get_or, arith,
}
use mclo.Chacha.{
  Chacha, keystream_max, word, block, advance_counter, generate_block, refill, next, join_words,
  add_state, mix_rounds,
}

-- The generator's arrays have their sizes, the counter is a word, and the keystream's index is no
-- further than its end.
pub record IsValid (g : Chacha) : Type 0 where
  pub sixteen : length g.state ≡ 16
  pub eight : length g.keystream ≡ 8
  pub counter : word g.state 12 < 2 ^ 32
  pub within : g.keystream_index ≤ keystream_max

length-join_words : (xs : List ℕ) (n i : ℕ) → length (join_words xs n i) ≡ n
unfolding join_words
length-join_words xs zero i = refl
length-join_words xs (suc n) i = ap suc (length-join_words xs n (i + 1))

pub length-block : (rounds : ℕ) (state : List ℕ) → length (block rounds state) ≡ 8
unfolding block
length-block rounds state = length-join_words (add_state (mix_rounds (rounds / 2) state) state) 8 0

pub length-advance_counter :
    (n : ℕ) (state : List ℕ) → length (advance_counter n state) ≡ length state
unfolding advance_counter
length-advance_counter n state = length-set state 12 ((word state 12 + n) % 2 ^ 32)

pub word-advance_counter :
    (n : ℕ) (state : List ℕ)
    → length state ≡ 16
    → word (advance_counter n state) 12 ≡ (word state 12 + n) % 2 ^ 32
unfolding advance_counter
word-advance_counter n state e =
    ground (arith, get_or-set state 12 12 ((word state 12 + n) % 2 ^ 32) 0)

pub advance_counter-add :
    (m n : ℕ) (state : List ℕ)
    → length state ≡ 16
    → advance_counter n (advance_counter m state) ≡ advance_counter (m + n) state
unfolding advance_counter
advance_counter-add m n state e =
    ap (λ w. set (set state 12 ((word state 12 + m) % 2 ^ 32)) 12 ((w + n) % 2 ^ 32))
      (word-advance_counter m state e)
    ∙ set-set state 12 ((word state 12 + m) % 2 ^ 32) (((word state 12 + m) % 2 ^ 32 + n) % 2 ^ 32)
    ∙ ap (set state 12) (omega arith)

pub advance_counter-zero :
    (state : List ℕ) → word state 12 < 2 ^ 32 → advance_counter 0 state ≡ state
unfolding advance_counter
advance_counter-zero state lt = ap (set state 12) (omega arith) ∙ set-get_or state 12 0

module _ (rounds : ℕ) where
  -- The generator after `n` calls.
  unfoldable pub skip : ℕ → Chacha → Chacha
  skip zero g = g
  skip (suc n) g = skip n (next rounds g).1

  pub skip-add : (m n : ℕ) (g : Chacha) → skip (m + n) g ≡ skip n (skip m g)
  unfolding skip
  skip-add zero n g = let e : 0 + n ≡ n = omega arith in ap (λ k. skip k g) e
  skip-add (suc m) n g =
      let e : suc m + n ≡ suc (m + n) = omega arith in
      ap (λ k. skip k g) e ∙ skip-add m n (next rounds g).1

  next-within :
      (g : Chacha)
      → g.keystream_index < keystream_max
      → (next rounds g).1 ≡ record g { keystream_index = g.keystream_index + 1 }
  unfolding next refill
  next-within g lt = ground arith

  -- Within a block only the index moves.
  pub skip-within :
      (n : ℕ) (g : Chacha)
      → g.keystream_index + n ≤ keystream_max
      → skip n g ≡ record g { keystream_index = g.keystream_index + n }
  unfolding skip
  skip-within zero g le = ap (λ i. record g { keystream_index = i }) (omega arith)
  skip-within (suc n) g le =
      ap (skip n) (next-within g (omega arith))
      ∙ skip-within n (record g { keystream_index = g.keystream_index + 1 }) (omega arith)
      ∙ ap (λ i. record g { keystream_index = i }) (omega arith)

  next-at_end :
      (g : Chacha)
      → g.keystream_index ≡ keystream_max
      → (next rounds g).1 ≡ record (generate_block rounds g) { keystream_index = 1 }
  unfolding next refill generate_block
  next-at_end g e = ground arith

  -- At the end of a block, the next calls are served from a new one.
  pub skip-at_end :
      (n : ℕ) (g : Chacha)
      → g.keystream_index ≡ keystream_max
      → suc n ≤ keystream_max
      → skip (suc n) g ≡ record (generate_block rounds g) { keystream_index = suc n }
  unfolding skip
  skip-at_end n g e le =
      ap (skip n) (next-at_end g e)
      ∙ skip-within n (record (generate_block rounds g) { keystream_index = 1 }) (omega arith)
      ∙ ap (λ i. record (generate_block rounds g) { keystream_index = i }) (omega arith)

  -- From the end of a block on, eight calls for each block raise the counter by the number of blocks.
  pub skip_blocks :
      (q : ℕ) (g : Chacha)
      → g.keystream_index ≡ keystream_max
      → length g.state ≡ 16
      → word g.state 12 < 2 ^ 32
      → length g.keystream ≡ 8
      → (values : List ℕ) × (length values ≡ 8)
        × (skip (q * 8) g ≡ record {
          state = advance_counter q g.state;
          keystream = values;
          keystream_index = keystream_max;
        })
  unfolding skip generate_block
  skip_blocks zero g e sixteen lt eight = (
    g.keystream,
    eight,
    ap (λ s. record g { state = s }) (sym (advance_counter-zero g.state lt))
        ∙ ap
            (λ i. record {
              state = advance_counter 0 g.state;
              keystream = g.keystream;
              keystream_index = i;
            })
            e,
  )
  skip_blocks (suc q) g e sixteen lt eight =
      let later =
        skip_blocks q (record (generate_block rounds g) { keystream_index = 8 }) refl
          (length-advance_counter 1 g.state ∙ sixteen)
          (ground (arith, word-advance_counter 1 g.state sixteen)) (length-block rounds g.state) in
      let eights : suc q * 8 ≡ 8 + q * 8 = omega arith in
      (
        later.0,
        later.1,
        ap (λ n. skip n g) eights
            ∙ skip-add 8 (q * 8) g
            ∙ ap (skip (q * 8)) (skip-at_end 7 g e (omega arith))
            ∙ later.2
            ∙ ap (λ s. record { state = s; keystream = later.0; keystream_index = keystream_max })
                (advance_counter-add 1 q g.state sixteen
                  ∙ ap (λ k. advance_counter k g.state) (omega arith)),
      )
