-- ===== src/Splitmix/Tests.antt =====
-- source/random/splitmix64.cpp at a concrete seed, and the theorem at it.
use mclo.Common.{◌≡◌, refl, drop, arith}
use mclo.Splitmix.{next, discard}
use mclo.Splitmix.Discard.{outputs, skip, discard_skips}

-- The first value that the published algorithm gives from the seed 0.
first_value : (next 0).0 ≡ 0xe220a8397b1dcdaf
unfolding next
first_value = refl

discard_skips_example :
    (discard 12345 7 ≡ skip 7 12345) × (outputs 3 (discard 12345 7) ≡ drop 7 (outputs 10 12345))
discard_skips_example = discard_skips 7 3 12345 (omega arith)
