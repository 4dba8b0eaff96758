-- ===== src/BitcodeReader/Values/Signed.antt =====
-- DecodeSignRotatedValue of Src/BitcodeReader.cpp and the numbers that are stored for it.
use dilithium.Base.{ℕ, ◌+◌, ◌-◌, ◌*◌, ◌/◌, ◌%◌, ◌^◌, ◌<◌, ◌≡◌, arith, ◌⊎◌}
use dilithium.Base.{if◌then◌else◌, ltb, bit_and, bit_and_mask}
use dilithium.BitcodeReader.Values.{decode_sign_rotated_value}

-- The form of a signed number of 64 bits, in two's complement: its size above the bit of its sign.
-- The size of the least number, 2 ^ 63, is left out by the wrap-around.
abbrev pub sign_rotated : ℕ → ℕ
sign_rotated v = if ltb v (2 ^ 63) then v * 2 else ((2 ^ 64 - v) * 2 + 1) % 2 ^ 64

-- The last bit of a form is the sign.
decode_sign_rotated_value_lem :
    (r : ℕ)
    → r < 2 ^ 64
    → ((r % 2 ≡ 0) × (decode_sign_rotated_value r ≡ r / 2))
      ⊎ (((r % 2 ≡ 1) × (1 < r) × (decode_sign_rotated_value r ≡ 2 ^ 64 - r / 2))
          ⊎ ((r ≡ 1) × (decode_sign_rotated_value r ≡ 2 ^ 63)))
unfolding decode_sign_rotated_value
decode_sign_rotated_value_lem r small =
    let low : bit_and r 1 ≡ r % 2 = bit_and_mask 1 r in ground (arith, low)

sign_rotated_lem :
    (v : ℕ)
    → v < 2 ^ 64
    → ((v < 2 ^ 63) × (sign_rotated v ≡ v * 2))
      ⊎ (((2 ^ 63 < v) × (sign_rotated v ≡ (2 ^ 64 - v) * 2 + 1))
          ⊎ ((v ≡ 2 ^ 63) × (sign_rotated v ≡ 1)))
sign_rotated_lem v small = ground arith

-- A number below 2 ^ 64 is read back from the form it is stored in, and every number below 2 ^ 64 is
-- the form of the number that is read from it.
pub decode_sign_rotated_value-sign_rotated :
    (v : ℕ)
    → v < 2 ^ 64
    → (decode_sign_rotated_value (sign_rotated v) ≡ v)
      × (sign_rotated (decode_sign_rotated_value v) ≡ v)
decode_sign_rotated_value-sign_rotated v small = (from_form v small, to_form v small)
  where
    from_form : (v : ℕ) → v < 2 ^ 64 → decode_sign_rotated_value (sign_rotated v) ≡ v
    from_form v small =
        let form = sign_rotated_lem v small in
        let value = decode_sign_rotated_value_lem (sign_rotated v) (omega arith) in omega arith

    to_form : (r : ℕ) → r < 2 ^ 64 → sign_rotated (decode_sign_rotated_value r) ≡ r
    to_form r small =
        let value = decode_sign_rotated_value_lem r small in
        let form = sign_rotated_lem (decode_sign_rotated_value r) (omega arith) in omega arith
