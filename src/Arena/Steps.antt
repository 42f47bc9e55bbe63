-- ===== src/Arena/Steps.antt =====
-- Requests to the arena of source/allocator/arena_allocator.cpp one after another, and its other
-- operations.
use mclo.Common.{ℕ, ◌+◌, ◌^◌, ◌<◌, ◌≡◌, subst, some, true, List, [], ◌∷◌}
use mclo.Arena.{Chunk, Arena, header_size, is_alignment, allocated, allocate}
use mclo.Arena.Inv.{Block, IsFresh, IsValid, IsTaken, IsApart}
use mclo.Arena.Allocate.{Served, grown_size, allocate_lem}

-- What a request asks for: an alignment that is a power of two, and sizes that do not overflow; and that
-- `operator new` returns memory apart from all chunks.
pub record IsRequest (new_at : ℕ) (a : Arena) (size alignment : ℕ) : Type 0 where
  pub aligned : is_alignment alignment ≡ true
  pub small :
      (c : Chunk) → a.current_chunk ≡ some c → header_size + grown_size c size alignment < 2 ^ 64
  pub fresh :
      (c : Chunk)
      → a.current_chunk ≡ some c
      → IsFresh new_at (header_size + grown_size c size alignment) a.chunks

-- Requests that are served, the blocks that they got, and the arena after them.
pub data Runs : Arena → List Block → Arena → Type 0 where
  done : {a : Arena} → Runs a [] a
  request :
      {a a' last : Arena} {bs : List Block} (new_at size alignment p : ℕ)
      → IsRequest new_at a size alignment
      → allocate new_at a size alignment ≡ some (allocated p a')
      → Runs a' bs last
      → Runs a (record { at = p; size = size } ∷ bs) last

unfoldable pub ApartFromAll : Block → List Block → Type 0
ApartFromAll b [] = Unit
ApartFromAll b (d ∷ ds) = IsApart b d × ApartFromAll b ds

unfoldable pub AllApart : List Block → Type 0
AllApart [] = Unit
AllApart (b ∷ bs) = ApartFromAll b bs × AllApart bs

serve :
    (new_at size alignment p : ℕ) (a a' : Arena) (c : Chunk) (cs : List Chunk)
    → IsRequest new_at a size alignment
    → allocate new_at a size alignment ≡ some (allocated p a')
    → IsValid a c cs
    → (c' : Chunk) × (cs' : List Chunk) × Served a c cs size alignment p a' c' cs'
serve new_at size alignment p a a' c cs r e v =
    let got = allocate_lem new_at a c cs v size alignment r.aligned (r.small c v.first) (
      subst (IsFresh new_at (header_size + grown_size c size alignment)) v.all
        (r.fresh c v.first)) in
    let same_p : got.0 ≡ p = cc in
    let same_a : got.1 ≡ a' = cc in
    (
      got.2,
      got.3,
      subst (λ q. Served a c cs size alignment q a' got.2 got.3) same_p
          (subst (λ x. Served a c cs size alignment got.0 x got.2 got.3) same_a got.5),
    )

-- However many requests are served, the arena stays valid, and the blocks that they got are apart from
-- one another and from all that was handed out before.
pub runs_lem :
    {a last : Arena} {bs : List Block} (c : Chunk) (cs : List Chunk)
    → IsValid a c cs
    → Runs a bs last
    → (c' : Chunk) × (cs' : List Chunk) × IsValid last c' cs'
      × AllApart bs
      × ((b : Block) → IsTaken a c cs b → ApartFromAll b bs × IsTaken last c' cs' b)
unfolding ApartFromAll AllApart
runs_lem c cs v done = (c, cs, v, tt, λ b t. (tt, t))
runs_lem c cs v (request {a} {a'} new_at size alignment p r e more) =
    let step = serve new_at size alignment p a a' c cs r e v in
    let s = step.2 in
    let rest = runs_lem step.0 step.1 s.valid more in
    (
      rest.0,
      rest.1,
      rest.2,
      ((rest.4 (record { at = p; size = size }) s.taken).0, rest.3),
      λ b t. let after = rest.4 b (s.kept b t) in ((s.apart b t, after.0), after.1),
    )
