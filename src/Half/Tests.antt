-- ===== src/Half/Tests.antt =====
-- Halves.
use dilithium.Base.{◌+◌, ◌%◌, ◌^◌, ◌≡◌, ◌↔◌, refl, arith}
use dilithium.Half.{half_of_float, float_of_half, half_neg, float_pack, pos_inf}
use dilithium.Half.RoundTrip.{half_of_float-float_of_half, half_neg_iff}

half_of_float-float_of_half_example : half_of_float (float_of_half 0x3c01) ≡ 0x3c01
half_of_float-float_of_half_example = half_of_float-float_of_half 0x3c01 (omega arith) (omega arith)

half_neg_iff_example : (half_neg 0x3c00 ≡ (0x3c00 + 2 ^ 15) % 2 ^ 16) ↔ (0x3c00 % 2 ^ 15 ≡ 2 ^ 14)
half_neg_iff_example = half_neg_iff 0x3c00 (omega arith)

-- The float for zero has the exponent 112, that of 2 ^ -15, and the one for infinity the exponent
-- 143, that of 2 ^ 16.
zero_as_float : float_of_half 0 ≡ 0x3800_0000
unfolding float_of_half float_pack
zero_as_float = refl

infinity_as_float : float_of_half pos_inf ≡ 0x4780_0000
unfolding float_of_half float_pack
infinity_as_float = refl
