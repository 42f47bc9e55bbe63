-- ===== src/Arithmetic/Tests.antt =====
-- Eight bits: include/mclo/numeric/checked_math.hpp and saturated_math.hpp at concrete values.
use mclo.Common.{◌≡◌, ◌≢◌, refl, none, some, true, pos, negsuc, arith}
use mclo.Arithmetic.{checked}
use mclo.Arithmetic.Signed
use mclo.Arithmetic.Signed.{InRange}
use mclo.Arithmetic.Exact.{checked_signed_lem}
use mclo.Arithmetic.Clamped.{nearest, saturating_signed_lem}

checked_signed_lem_example :
    (checked (Signed.add 128 (negsuc 127) (negsuc 0)) ≡ none)
    × (checked (Signed.sub 128 (negsuc 127) (negsuc 0)) ≡ some (negsuc 126))
    × (checked (Signed.mul 128 (negsuc 127) (negsuc 0)) ≡ none)
    × (negsuc 0 ≢ pos 0 → checked (Signed.div 128 (negsuc 127) (negsuc 0)) ≡ none)
checked_signed_lem_example =
    checked_signed_lem 128 (negsuc 127) (negsuc 0) (omega arith) (omega arith)

saturating_signed_lem_example :
    (Signed.saturating_add 128 (negsuc 127) (negsuc 0) ≡ negsuc 127)
    × (Signed.saturating_sub 128 (negsuc 127) (negsuc 0) ≡ negsuc 126)
    × (Signed.saturating_mul 128 (negsuc 127) (negsuc 0) ≡ pos 127)
    × (negsuc 0 ≢ pos 0 → Signed.saturating_div 128 (negsuc 127) (negsuc 0) ≡ pos 127)
unfolding nearest
saturating_signed_lem_example =
    saturating_signed_lem 128 (negsuc 127) (negsuc 0) (omega arith) (omega arith)

-- The flag of a quotient that overflows comes with the value 0.
div_overflows : Signed.div 128 (negsuc 127) (negsuc 0) ≡ (pos 0, true)
unfolding Signed.div
div_overflows = refl
