-- ===== src/Storage/Laws.antt =====
-- The algorithms on raw storage, by what they read and write.
use mclo.Common.{
  ℕ, zero, suc, ◌+◌, ◌-◌, ◌≤◌, ◌<◌, ◌≡◌, ◌∙◌, inl, inr, Option-cases, refl, ap, none, some, Option,
  List, [], ◌∷◌, ◌++◌, ltb, leb, ◌&&◌, if◌then◌else◌, ◌>>=◌, length, get_elem?, get_elem?-set,
  get_elem?-set_ne, get_elem?-cons, set, arith, length-set,
}
use mclo.Storage.{construct, read_n, construct_all, destroy_n}

module _ {A : Type 0} where
  -- Writing a list of objects from an address on, and destroying `n` of them.
  abbrev pub write_all : List (Option A) → ℕ → List A → List (Option A)
  write_all cells p [] = cells
  write_all cells p (x ∷ xs) = write_all (set cells p (some x)) (p + 1) xs

  abbrev pub wipe : List (Option A) → ℕ → ℕ → List (Option A)
  wipe cells p zero = cells
  wipe cells p (suc n) = wipe (set cells p none) (p + 1) n

  pub length-write_all :
      (cells : List (Option A)) (p : ℕ) (xs : List A) → length (write_all cells p xs) ≡ length cells
  length-write_all cells p [] = refl
  length-write_all cells p (x ∷ xs) =
      length-write_all (set cells p (some x)) (p + 1) xs ∙ length-set cells p (some x)

  pub length-wipe : (cells : List (Option A)) (p n : ℕ) → length (wipe cells p n) ≡ length cells
  length-wipe cells p zero = refl
  length-wipe cells p (suc n) = length-wipe (set cells p none) (p + 1) n ∙ length-set cells p none

  pub get_elem?-write_all :
      (cells : List (Option A)) (p : ℕ) (xs : List A) (j : ℕ)
      → p + length xs ≤ length cells
      → get_elem? (write_all cells p xs) j ≡ (
          if leb p j && ltb j (p + length xs)
          then some (get_elem? xs (j - p))
          else get_elem? cells j)
  get_elem?-write_all cells p [] j h = ground arith
  get_elem?-write_all cells p (x ∷ xs) j h = ground (
    arith,
    length-set cells p (some x),
    get_elem?-write_all (set cells p (some x)) (p + 1) xs j,
    get_elem?-set cells p j (some x),
    get_elem?-cons x xs (j - p),
    ap (get_elem? xs) {x = j - (p + 1)} {y = j - p - 1} (omega arith),
  )

  pub get_elem?-wipe :
      (cells : List (Option A)) (p n j : ℕ)
      → p + n ≤ length cells
      → get_elem? (wipe cells p n) j
        ≡ (if leb p j && ltb j (p + n) then some none else get_elem? cells j)
  get_elem?-wipe cells p zero j h = ground arith
  get_elem?-wipe cells p (suc n) j h = ground (
    arith,
    length-set cells p none,
    get_elem?-wipe (set cells p none) (p + 1) n j,
    get_elem?-set cells p j none,
  )

  -- A range whose cells hold the elements of a list is read as that list.
  pub read_n-eq :
      (cells : List (Option A)) (p : ℕ) (xs : List A)
      → ((i : ℕ) → i < length xs → get_elem? cells (p + i) ≡ some (get_elem? xs i))
      → read_n cells p (length xs) ≡ some xs
  unfolding read_n
  read_n-eq cells p [] h = refl
  read_n-eq cells p (x ∷ xs) h = ground (
    arith,
    h 0 (omega arith),
    ap (get_elem? cells) {x = p + 0} {y = p} (omega arith),
    read_n-eq cells (p + 1) xs
        (λ i lt. ap (get_elem? cells) (omega arith) ∙ h (suc i) (omega arith)),
  )

  -- Construction succeeds where the list fits, and is undefined where it does not.
  pub construct_all-eq :
      (cells : List (Option A)) (p : ℕ) (xs : List A)
      → p + length xs ≤ length cells
      → construct_all cells p xs ≡ some (write_all cells p xs)
  unfolding construct_all
  construct_all-eq cells p [] h = refl
  construct_all-eq cells p (x ∷ xs) h =
      ground
        (arith, length-set cells p (some x), construct_all-eq (set cells p (some x)) (p + 1) xs)

  pub construct_all-append :
      (cells : List (Option A)) (p : ℕ) (xs ys : List A)
      → construct_all cells p (xs ++ ys)
        ≡ (construct_all cells p xs >>= λ cells'. construct_all cells' (p + length xs) ys)
  unfolding construct_all
  construct_all-append cells p [] ys = ap (λ q. construct_all cells q ys) (omega arith)
  construct_all-append cells p (x ∷ xs) ys = elim (Option-cases (construct cells p x)) [
    | inl e ↦ rw e
    | inr (cells', e) ↦ rw e (
        construct_all-append cells' (p + 1) xs ys
        ∙ ap (λ q. construct_all cells' (p + 1) xs >>= λ c. construct_all c q ys) (omega arith))
  ]

  pub construct_all-none :
      (cells : List (Option A)) (p : ℕ) (xs : List A)
      → p ≤ length cells
      → length cells < p + length xs
      → construct_all cells p xs ≡ none
  unfolding construct_all
  construct_all-none cells p [] le h = absurd (omega arith)
  construct_all-none cells p (x ∷ xs) le h =
      ground
        (arith, length-set cells p (some x), construct_all-none (set cells p (some x)) (p + 1) xs)

  -- Destroying a range of objects that are alive.
  pub destroy_n-eq :
      (cells : List (Option A)) (p n : ℕ)
      → ((i : ℕ) → i < n → (x : A) × (get_elem? cells (p + i) ≡ some (some x)))
      → destroy_n cells p n ≡ some (wipe cells p n)
  unfolding destroy_n
  destroy_n-eq cells p zero h = refl
  destroy_n-eq cells p (suc n) h = ground (
    arith,
    h 0 (omega arith),
    ap (get_elem? cells) {x = p + 0} {y = p} (omega arith),
    destroy_n-eq (set cells p none) (p + 1) n λ i lt.
        let (x, e) = h (suc i) (omega arith) in
        (
          x,
          get_elem?-set_ne cells p (p + 1 + i) none (omega arith)
              ∙ ap (get_elem? cells) (omega arith)
              ∙ e,
        ),
  )
