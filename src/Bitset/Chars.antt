-- ===== src/Bitset/Chars.antt =====
-- `to_string` and the construction from a string in include/mclo/container/detail/bitset_base.hpp.
use mclo.Common.{
  ℕ, zero, suc, ◌+◌, ◌-◌, ◌<◌, ◌≡◌, ◌≢◌, refl, sym, ap, ◌∙◌, some, List, [], ◌∷◌, Bool, true, false,
  ◌||◌, ltb, ◌==◌, if◌then◌else◌, length, length-replicate, length-set, get_or, get_or-set,
  get_or-cons, set, take, drop, replicate, has, arith,
}
use mclo.Bitset.{
  Bitset, num_values, mark, to_string, fill, read_bits, init_from_range, init_from_string, equal,
}
use mclo.Bitset.Words.{member, IsBitset}
use mclo.Bitset.Text.{init_from_range_lem}
use mclo.Bitset.Query.{equal_lem}
use mclo.Bitset.Each.{for_each_set_lem}

get_or-fill : (n a p : ℕ) → p < n → get_or (replicate n a) p a ≡ a
get_or-fill zero a p lt = absurd (omega arith)
get_or-fill (suc n) a zero lt = refl
get_or-fill (suc n) a (suc p) lt = get_or-fill n a p (omega arith)

mark_lem :
    (set_char unset_char n : ℕ) (ps result : List ℕ)
    → length result ≡ n
    → ((i : ℕ) → has i ps ≡ true → i < n)
    → (str : List ℕ) × (mark set_char n ps result ≡ some str)
      × (length str ≡ n)
      × ((i : ℕ)
          → i < n
          → get_or str (n - 1 - i) unset_char
            ≡ (if has i ps then set_char else get_or result (n - 1 - i) unset_char))
unfolding mark
mark_lem set_char unset_char n [] result e below = (result, refl, e, λ i lt. refl)
mark_lem set_char unset_char n (p ∷ ps) result e below =
    let at = below p (ground arith) in
    let next = set result (n - 1 - p) set_char in
    let rest =
      mark_lem set_char unset_char n ps next (length-set result (n - 1 - p) set_char ∙ e)
        (λ i h. below i (ground arith)) in
    (
      rest.0,
      ground (arith, rest.1, at),
      rest.2,
      λ i lt.
          rest.3 i lt
          ∙ ground (arith, get_or-set result (n - 1 - p) (n - 1 - i) set_char unset_char, e, at),
    )

-- The bits of a string from its end on.
abbrev bits_onto : ℕ → List ℕ → List Bool → List Bool
bits_onto set_char [] bs = bs
bits_onto set_char (x ∷ str) bs = bits_onto set_char str ((x == set_char) ∷ bs)

read_bits_lem :
    (unset_char set_char : ℕ) (str : List ℕ) (bs : List Bool)
    → ((k : ℕ)
        → k < length str
        → (get_or str k unset_char == set_char || get_or str k unset_char == unset_char) ≡ true)
    → read_bits unset_char set_char str bs ≡ some (bits_onto set_char str bs)
unfolding read_bits
read_bits_lem unset_char set_char [] bs valid = refl
read_bits_lem unset_char set_char (x ∷ str) bs valid = ground (
  arith,
  valid 0 (omega arith),
  read_bits_lem unset_char set_char str ((x == set_char) ∷ bs)
      (λ k lt. valid (suc k) (omega arith)),
)

get_or-bits_onto :
    (set_char unset_char : ℕ) (str : List ℕ) (bs : List Bool) (i : ℕ)
    → get_or (bits_onto set_char str bs) i false ≡ (
        if ltb i (length str)
        then get_or str (length str - 1 - i) unset_char == set_char
        else get_or bs (i - length str) false)
get_or-bits_onto set_char unset_char [] bs i =
    ground (arith, ap (λ k. get_or bs k false) {x = i} {y = i - 0})
get_or-bits_onto set_char unset_char (x ∷ str) bs i =
    let n = length str in
    let rest = get_or-bits_onto set_char unset_char str ((x == set_char) ∷ bs) i in
    let step = get_or-cons (x == set_char) bs false (i - n) in
    let head = get_or-cons x str unset_char (n - i) in
    let a : suc n - 1 - i ≡ n - i = omega arith in
    let b : n - i - 1 ≡ n - 1 - i = omega arith in
    let c : i - n - 1 ≡ i - suc n = omega arith in
    rest
    ∙ ground (
      arith,
      step,
      head,
      ap (λ k. get_or (x ∷ str) k unset_char) a,
      ap (λ k. get_or str k unset_char) b,
      ap (λ k. get_or bs k false) c,
    )

-- What `to_string` writes: a character for each position, the highest first.
to_string_lem :
    (w unset_char set_char : ℕ) (s : Bitset)
    → IsBitset w s
    → (str : List ℕ) × (to_string w unset_char set_char s ≡ some str)
      × (length str ≡ s.size)
      × ((i : ℕ)
          → i < s.size
          → get_or str (s.size - 1 - i) unset_char
            ≡ (if member w s.container i then set_char else unset_char))
unfolding to_string
to_string_lem w unset_char set_char s v =
    let n = s.size in
    let each = for_each_set_lem w s v in
    let r =
      mark_lem set_char unset_char n each.0 (replicate n unset_char) (length-replicate n unset_char)
        (λ i h. ground (arith, h, each.4 i, v.rest i)) in
    (
      r.0,
      ground (arith, each.1, r.1),
      r.2,
      λ i lt. r.3 i lt ∙ ground (arith, each.4 i, get_or-fill n unset_char (n - 1 - i)),
    )

take-whole {ℓ} : {A : Type ℓ} (n : ℕ) (xs : List A) → length xs ≡ n → take n xs ≡ xs
take-whole zero [] e = refl
take-whole zero (x ∷ xs) e = absurd (omega (arith, e))
take-whole (suc n) [] e = refl
take-whole (suc n) (x ∷ xs) e = ap (◌∷◌ x) (take-whole n xs (omega (arith, e)))

drop-whole : (n : ℕ) (xs : List ℕ) → length xs ≡ n → drop n xs ≡ []
drop-whole zero [] e = refl
drop-whole zero (x ∷ xs) e = absurd (omega (arith, e))
drop-whole (suc n) [] e = refl
drop-whole (suc n) (x ∷ xs) e = drop-whole n xs (omega (arith, e))

length-bits_onto :
    (set_char : ℕ) (str : List ℕ) (bs : List Bool)
    → length (bits_onto set_char str bs) ≡ length str + length bs
length-bits_onto set_char [] bs = omega arith
length-bits_onto set_char (x ∷ str) bs =
    omega (arith, length-bits_onto set_char str ((x == set_char) ∷ bs))

-- A valid set that is written with two different characters and read again, into a set of the same size,
-- is the same set.
pub to_string-init_from_string :
    (w unset_char set_char : ℕ) (s : Bitset)
    → IsBitset w s
    → unset_char ≢ set_char
    → (str : List ℕ) × (t : Bitset) × (to_string w unset_char set_char s ≡ some str)
      × (init_from_string w unset_char set_char
            (record { size = s.size; container = replicate (num_values w s.size) 0 })
            str
          ≡ some t)
      × IsBitset w t
      × (equal t s ≡ true)
unfolding init_from_string init_from_range read_bits
to_string-init_from_string w unset_char set_char s v ne =
    let n = s.size in
    let r = to_string_lem w unset_char set_char s v in
    let str = r.0 in
    let bs = bits_onto set_char str [] in
    let whole : take n str ≡ str = take-whole n str r.2 in
    let none_left : drop n str ≡ [] = drop-whole n str r.2 in
    let valid : (k : ℕ)
        → k < length str
        → (get_or str k unset_char == set_char || get_or str k unset_char == unset_char) ≡ true =
      λ k lt.
        let e : n - 1 - (n - 1 - k) ≡ k = omega (arith, r.2) in
        ground (arith, r.3 (n - 1 - k), r.2, ap (λ j. get_or str j unset_char) e) in
    let bits = read_bits_lem unset_char set_char str [] valid in
    let made = init_from_range_lem w n bs v.some_bits in
    let t = made.0 in
    let same : (i : ℕ) → member w t.container i ≡ member w s.container i = λ i.
      let b = get_or-bits_onto set_char unset_char str [] i in
      made.4 i
      ∙ ground
          (arith, b, r.2, r.3 i, v.rest i, ne, ap (λ k. get_or str (k - 1 - i) unset_char) r.2) in
    let all_bits : take n bs ≡ bs =
      take-whole n bs (length-bits_onto set_char str [] ∙ omega (arith, r.2)) in
    let built : record { size = n; container = fill w bs 0 0 0 (replicate (num_values w n) 0) }
        ≡ t =
      ap (λ cs. record { size = n; container = fill w cs 0 0 0 (replicate (num_values w n) 0) })
        (sym all_bits)
      ∙ made.1 in
    (
      str,
      t,
      r.1,
      ground (arith, whole, none_left, bits, built),
      made.2,
      (equal_lem w t s made.2 v).1 made.3 same,
    )
