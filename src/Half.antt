-- ===== src/Half.antt =====
-- Src/Half.cpp: 16-bit floats. A half is its bit pattern, below 2 ^ 16, and a float its pattern,
-- below 2 ^ 32; the arithmetic of float itself is not modelled. The exponent `e` of the source is
-- kept with the bias of float, as `e + 112`, so that it is never negative.
pub mod RoundTrip
mod Tests
use dilithium.Base.{ℕ, zero, suc, ◌+◌, ◌-◌, ◌*◌, ◌/◌, ◌%◌, ◌^◌, bit_and, bit_or}
use dilithium.Base.{Bool, true, false, if◌then◌else◌, ltb, leb, ◌==◌, not, ◌&&◌}

-- half(float): results of `e <= 0`.
unfoldable pub half_small : ℕ → ℕ → ℕ → ℕ
half_small s biased m =
    if ltb biased 102
    then 0
    else (let shifted = bit_or m 0x0080_0000 / 2 ^ (113 - biased) in
        let rounded = if bit_and shifted 0x1000 == 0 then shifted else shifted + 0x2000 in
        bit_or s (rounded / 2 ^ 13) % 2 ^ 16)

-- The value for an exponent above 0, here without the bias.
unfoldable pub half_pack : ℕ → ℕ → ℕ → ℕ
half_pack s e m = bit_or s (bit_or (e * 2 ^ 10) (m / 2 ^ 13)) % 2 ^ 16

unfoldable pub half_normal : ℕ → ℕ → ℕ → ℕ
unfolding half_pack
half_normal s e m =
    if bit_and m 0x1000 == 0
    then half_pack s e m
    else if bit_and (m + 0x2000) 0x0080_0000 == 0
    then half_pack s e (m + 0x2000)
    else half_pack s (e + 1) 0

unfoldable pub half_of_float : ℕ → ℕ
unfolding half_small half_normal half_pack
half_of_float i =
    let s = bit_and (i / 2 ^ 16) 0x8000 in
    let biased = bit_and (i / 2 ^ 23) 0xff in
    let m = bit_and i 0x007f_ffff in
    if leb biased 112
    then half_small s biased m
    else if biased == 255
    then half_pack s 31 m
    else half_normal s (biased - 112) m

-- while (!(m & 0x400)) { m <<= 1; e -= 1; }, with `e` biased. A nonzero significand takes ten
-- rounds at most.
unfoldable pub renormalize : ℕ → ℕ → ℕ → ℕ × ℕ
renormalize zero biased m = (biased, m)
renormalize (suc fuel) biased m = elim (bit_and m 0x400 == 0) [
  | true ↦ renormalize fuel (biased - 1) (m * 2)
  | false ↦ (biased, m)
]

-- ret = s | (e << 23) | m, after m <<= 13.
unfoldable pub float_pack : ℕ → ℕ → ℕ → ℕ
float_pack s biased m = bit_or s (bit_or (biased * 2 ^ 23) (m * 2 ^ 13))

unfoldable pub float_of_half : ℕ → ℕ
unfolding renormalize float_pack
float_of_half v =
    let s = bit_and v 0x8000 / 2 ^ 15 * 2 ^ 31 in
    let e = bit_and v 0x7c00 / 2 ^ 10 in
    let m = bit_and v 0x03ff in
    if e == 0
    then (if m == 0
        then float_pack s 112 0
        else (let (biased, m') = renormalize 10 112 m in float_pack s (biased + 1) (m' - 0x400)))
    else if e == 31 && not (m == 0)
    then float_pack s 255 m
    else float_pack s (e + 112) m

-- temp.value_ = -temp.value_
unfoldable pub half_neg : ℕ → ℕ
half_neg v = (2 ^ 16 - v) % 2 ^ 16

-- operator== compares the patterns.
unfoldable pub half_eq : ℕ → ℕ → Bool
half_eq a b = a == b

abbrev pub pos_inf : ℕ
pos_inf = 0x7c00

abbrev pub neg_inf : ℕ
neg_inf = 0xfc00

abbrev pub q_nan : ℕ
q_nan = 0x7fff

abbrev pub s_nan : ℕ
s_nan = 0x7dff
