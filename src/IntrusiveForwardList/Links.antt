-- ===== src/IntrusiveForwardList/Links.antt =====
-- What list the hooks of include/mclo/container/intrusive_forward_list.hpp hold from an address on.
use mclo.Common.{
  ◌≢◌, ℕ, ◌≡◌, ◌∙◌, Option, none, some, List, [], ◌∷◌, ◌++◌, true, has, Distinct, arith,
}
use mclo.IntrusiveForwardList.{Hooks}

-- The hooks lead from `p` through `xs` to `stop`.
abbrev pub Links : Hooks → ℕ → List ℕ → Option ℕ → Type 0
Links h p [] stop = h p ≡ stop
Links h p (x ∷ xs) stop = (h p ≡ some x) × Links h x xs stop

-- A list object holds a list of elements.
pub record IsList (h : Hooks) (l : ℕ) (xs : List ℕ) : Type 0 where
  pub links : Links h l xs none
  pub distinct : Distinct (l ∷ xs)

-- The last of some addresses, or the one before them.
abbrev pub last_of : ℕ → List ℕ → ℕ
last_of p [] = p
last_of p (x ∷ xs) = last_of x xs

abbrev pub first_of : List ℕ → Option ℕ → Option ℕ
first_of [] stop = stop
first_of (x ∷ xs) stop = some x

-- The hooks of other addresses do not matter.
pub Links-frame :
    (h g : Hooks) (p : ℕ) (xs : List ℕ) (stop : Option ℕ)
    → Links h p xs stop
    → ((a : ℕ) → has a (p ∷ xs) ≡ true → g a ≡ h a)
    → Links g p xs stop
Links-frame h g p [] stop l same = ground (arith, same p)
Links-frame h g p (x ∷ xs) stop l same =
    (ground (arith, same p, l.0), Links-frame h g x xs stop l.1 (λ a i. same a (ground arith)))

-- A list can be read from another address that points where the first does.
pub Links-from :
    (h g : Hooks) (p q : ℕ) (xs : List ℕ) (stop : Option ℕ)
    → Links h p xs stop
    → g q ≡ h p
    → ((a : ℕ) → has a xs ≡ true → g a ≡ h a)
    → Links g q xs stop
Links-from h g p q [] stop l e same = e ∙ l
Links-from h g p q (x ∷ xs) stop l e same = (e ∙ l.0, Links-frame h g x xs stop l.1 same)

pub Links-split :
    (h : Hooks) (p : ℕ) (xs ys : List ℕ) (stop : Option ℕ)
    → Links h p (xs ++ ys) stop
    → Links h p xs (first_of ys stop) × Links h (last_of p xs) ys stop
Links-split h p [] [] stop l = (l, l)
Links-split h p [] (y ∷ ys) stop l = (l.0, l)
Links-split h p (x ∷ xs) ys stop l =
    let rest = Links-split h x xs ys stop l.1 in ((l.0, rest.0), rest.1)

pub Links-join :
    (h : Hooks) (p : ℕ) (xs ys : List ℕ) (stop : Option ℕ)
    → Links h p xs (first_of ys stop)
    → Links h (last_of p xs) ys stop
    → Links h p (xs ++ ys) stop
Links-join h p [] ys stop l m = m
Links-join h p (x ∷ xs) ys stop l m = (l.0, Links-join h x xs ys stop l.1 m)

pub has-last_of : (x : ℕ) (xs : List ℕ) → has (last_of x xs) (x ∷ xs) ≡ true
has-last_of x [] = ground arith
has-last_of x (y ∷ ys) = ground (arith, has-last_of y ys)

pub Links-first :
    (h : Hooks) (p : ℕ) (xs : List ℕ) (stop : Option ℕ) → Links h p xs stop → h p ≡ first_of xs stop
Links-first h p [] stop l = l
Links-first h p (x ∷ xs) stop l = l.0

pub Links-last :
    (h : Hooks) (p : ℕ) (xs : List ℕ) (stop : Option ℕ)
    → Links h p xs stop
    → h (last_of p xs) ≡ stop
Links-last h p [] stop l = l
Links-last h p (x ∷ xs) stop l = Links-last h x xs stop l.1

-- Only the last hook is written.
pub Links-relink :
    (h g : Hooks) (p : ℕ) (xs : List ℕ) (stop q : Option ℕ)
    → Links h p xs stop
    → Distinct (p ∷ xs)
    → ((a : ℕ) → has a (p ∷ xs) ≡ true → a ≢ last_of p xs → g a ≡ h a)
    → g (last_of p xs) ≡ q
    → Links g p xs q
Links-relink h g p [] stop q l d same e = e
Links-relink h g p (x ∷ xs) stop q l d same e = (
  ground (arith, same p, l.0, d.0, has-last_of x xs),
  Links-relink h g x xs stop q l.1 d.1 (λ a i ne. same a (ground arith) ne) e,
)
