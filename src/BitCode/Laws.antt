-- ===== src/BitCode/Laws.antt =====
-- The characters of Include/Dilithium/BitCodes.hpp.
use dilithium.Base.{ℕ, ◌+◌, ◌-◌, ◌≤◌, ◌<◌, ◌≡◌, arith, ◌⊎◌, inl, inr}
use dilithium.Base.{some}
use dilithium.BitCode.{decode_char6}

-- [a-zA-Z0-9._]
abbrev pub IsChar6 : ℕ → Type 0
IsChar6 c =
    ((b'a' ≤ c) × (c ≤ b'z'))
    ⊎ ((b'A' ≤ c) × (c ≤ b'Z'))
    ⊎ ((b'0' ≤ c) × (c ≤ b'9'))
    ⊎ (c ≡ b'.')
    ⊎ (c ≡ b'_')

pub decode_char6-IsChar6 : (v c : ℕ) → decode_char6 v ≡ some c → IsChar6 c
unfolding decode_char6
decode_char6-IsChar6 v c h = ground (arith, h)

-- Two numbers with the same character are the same.
pub decode_char6-injective : (v w c : ℕ) → decode_char6 v ≡ some c → decode_char6 w ≡ some c → v ≡ w
unfolding decode_char6
decode_char6-injective v w c h k = ground (arith, h, k)

-- Every character of [a-zA-Z0-9._] is that of some 6-bit number.
pub decode_char6-surjective : (c : ℕ) → IsChar6 c → (v : ℕ) × (v < 64) × (decode_char6 v ≡ some c)
unfolding decode_char6
decode_char6-surjective c (inl h) = (c - b'a', omega arith, ground (arith, h))
decode_char6-surjective c (inr (inl h)) = (c - b'A' + 26, omega arith, ground (arith, h))
decode_char6-surjective c (inr (inr (inl h))) = (c - b'0' + 52, omega arith, ground (arith, h))
decode_char6-surjective c (inr (inr (inr (inl h)))) = (62, omega arith, ground (arith, h))
decode_char6-surjective c (inr (inr (inr (inr h)))) = (63, omega arith, ground (arith, h))
