-- ===== src/Chacha/Tests.antt =====
-- include/mclo/random/chacha.hpp at a concrete key, and the theorems at it.
use mclo.Common.{ℕ, ◌≡◌, refl, List, [], ◌∷◌, drop, replicate, arith}
use mclo.Chacha.{quarter_round, discard, set_counter, seeded}
use mclo.Chacha.Laws.{outputs}
use mclo.Chacha.Skip.{skip}
use mclo.Chacha.Discard.{seeded-IsValid, discard-outputs, set_counter-outputs}

-- The quarter round of RFC 8439, section 2.1.1.
quarter_round_vector :
    quarter_round (0x11111111 ∷ 0x01020304 ∷ 0x9b8d6f43 ∷ 0x01234567 ∷ []) 0 1 2 3
    ≡ 0xea2a92f4 ∷ 0xcb1cf8ce ∷ 0x4581472e ∷ 0x5881c4bb ∷ []
unfolding quarter_round
quarter_round_vector = refl

abbrev key : List ℕ
key = 1 ∷ 2 ∷ 3 ∷ replicate 29 0

abbrev nonce : List ℕ
nonce = replicate 12 7

discard-outputs_example :
    outputs 8 3 (discard 8 (seeded key nonce) 20) ≡ drop 20 (outputs 8 23 (seeded key nonce))
discard-outputs_example = discard-outputs 8 (seeded key nonce) (seeded-IsValid key nonce) 20 3

set_counter-outputs_example :
    outputs 8 3 (set_counter (skip 8 5 (seeded key nonce)) 2)
    ≡ drop 16 (outputs 8 19 (seeded key nonce))
set_counter-outputs_example = set_counter-outputs 8 key nonce 5 2 3 (omega arith)
