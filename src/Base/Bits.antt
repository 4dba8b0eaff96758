-- ===== src/Base/Bits.antt =====
-- `&` with a mask of low bits and `|` of disjoint fields as arithmetic, for every width.
use Prim.Native.Nat.{ℕ, zero, suc, ◌+◌, ◌-◌, ◌*◌, ◌/◌, ◌%◌, ◌^◌, ◌≤◌, ◌<◌, min, max}
use Prim.Native.Nat.{
  bit_and, bit_or, bit_xor, digits, differ, bit_and-bitwise, bit_or-bitwise, bit_xor-bitwise,
}
use mathlib.Core.Path.{◌≡◌, refl, ap, sym, ◌∙◌}
use native.Mathlib.Omega.{arith}
use native.Mathlib.Nat.{zero-div, div-div-eq-div-mul, div-eq_of_lt-le}
use dilithium.Base.Powers.{two_pow_pos, two_pow-suc, two_pow-add, mod-mul}

digits_mask : (n k a : ℕ) → a ≤ n → digits (λ _. 0) min n a (2 ^ k - 1) ≡ a % 2 ^ k
digits_mask zero k zero h = omega arith
digits_mask zero k (suc a) h = absurd (omega arith)
digits_mask (suc n) k zero h = omega arith
digits_mask (suc n) zero (suc a) h = omega (arith, digits_mask n zero (suc a / 2) (omega arith))
digits_mask (suc n) (suc k) (suc a) h =
    let half : (2 ^ suc k - 1) / 2 ≡ 2 ^ k - 1 = omega (arith, two_pow-suc k, two_pow_pos k) in
    rw half (
      omega (
        arith,
        two_pow-suc k,
        two_pow_pos k,
        mod-mul (suc a) 2 (2 ^ k),
        ap (λ (t : ℕ). suc a % t) (two_pow-suc k),
        digits_mask n k (suc a / 2) (omega arith),
      ))

-- A mask of `k` ones keeps the remainder by `2 ^ k`.
pub bit_and_mask : (k a : ℕ) → bit_and a (2 ^ k - 1) ≡ a % 2 ^ k
bit_and_mask k a = bit_and-bitwise a (2 ^ k - 1) ∙ digits_mask a k a (omega arith)

digits_fields :
    (n k r q : ℕ) → r ≤ n → r < 2 ^ k → digits (λ b. b) max n r (q * 2 ^ k) ≡ r + q * 2 ^ k
digits_fields zero k zero q h fits = omega arith
digits_fields zero k (suc r) q h fits = absurd (omega arith)
digits_fields (suc n) k zero q h fits = omega arith
digits_fields (suc n) zero (suc r) q h fits = absurd (omega arith)
digits_fields (suc n) (suc k) (suc r) q h fits =
    let twice : q * 2 ^ suc k ≡ 2 * (q * 2 ^ k) =
      omega (arith, ap (λ (t : ℕ). q * t) (two_pow-suc k)) in
    let half : q * 2 ^ suc k / 2 ≡ q * 2 ^ k = omega (arith, twice) in
    rw half (
      omega (
        arith,
        twice,
        digits_fields n k (suc r / 2) q (omega arith) (omega (arith, two_pow-suc k)),
      ))

-- `r | (q << k)` is a sum where `r` fits in `k` bits.
pub bit_or_fields : (k r q : ℕ) → r < 2 ^ k → bit_or r (q * 2 ^ k) ≡ r + q * 2 ^ k
bit_or_fields k r q fits = bit_or-bitwise r (q * 2 ^ k) ∙ digits_fields r k r q (omega arith) fits

digits_bit : (n k a : ℕ) → a ≤ n → digits (λ _. 0) min n a (2 ^ k) ≡ a / 2 ^ k % 2 * 2 ^ k
digits_bit zero k zero h = rw (zero-div (2 ^ k)) (omega arith)
digits_bit zero k (suc a) h = absurd (omega arith)
digits_bit (suc n) k zero h = rw (zero-div (2 ^ k)) (omega arith)
digits_bit (suc n) zero (suc a) h = omega (arith, digits_mask n zero (suc a / 2) (omega arith))
digits_bit (suc n) (suc k) (suc a) h =
    let half : 2 ^ suc k / 2 ≡ 2 ^ k = omega (arith, two_pow-suc k) in
    let quotient : suc a / 2 ^ suc k ≡ suc a / 2 / 2 ^ k =
      ap (λ (t : ℕ). suc a / t) (two_pow-suc k) ∙ sym (div-div-eq-div-mul (suc a) 2 (2 ^ k)) in
    rw (half, quotient, digits_bit n k (suc a / 2) (omega arith))
      (omega (arith, two_pow-suc k, ap (λ (t : ℕ). suc a / 2 / 2 ^ k % 2 * t) (two_pow-suc k)))

-- The test of bit `k` alone.
pub bit_and_bit : (k a : ℕ) → bit_and a (2 ^ k) ≡ a / 2 ^ k % 2 * 2 ^ k
bit_and_bit k a = bit_and-bitwise a (2 ^ k) ∙ digits_bit a k a (omega arith)

pub pred_mul-div : (a b : ℕ) → 0 < b → (suc a * b - 1) / b ≡ a
pred_mul-div a b h = div-eq_of_lt-le b (omega arith) (omega arith)

-- 64 ones, shifted right until `n` are left.
pub low_bits-eq : (n : ℕ) → n ≤ 64 → (2 ^ 64 - 1) / 2 ^ (64 - n) ≡ 2 ^ n - 1
low_bits-eq n h =
    let parts : n + (64 - n) ≡ 64 = omega arith in
    let whole : 2 ^ n * 2 ^ (64 - n) ≡ 2 ^ 64 =
      sym (two_pow-add n (64 - n)) ∙ ap (λ (t : ℕ). 2 ^ t) parts in
    let above : 2 ^ n ≡ suc (2 ^ n - 1) = omega (arith, two_pow_pos n) in
    ap (λ (t : ℕ). (t - 1) / 2 ^ (64 - n)) (sym whole)
    ∙ ap (λ (t : ℕ). (t * 2 ^ (64 - n) - 1) / 2 ^ (64 - n)) above
    ∙ pred_mul-div (2 ^ n - 1) (2 ^ (64 - n)) (two_pow_pos (64 - n))

differ_one : (d : ℕ) → d < 2 → differ d 1 ≡ 1 - d
differ_one zero h = refl
differ_one (suc zero) h = refl
differ_one (suc (suc d)) h = absurd (omega arith)

digits_flip :
    (n k a : ℕ) → a ≤ n → a < 2 ^ k → digits (λ b. b) differ n a (2 ^ k - 1) ≡ 2 ^ k - 1 - a
digits_flip zero k zero h fits = omega arith
digits_flip zero k (suc a) h fits = absurd (omega arith)
digits_flip (suc n) k zero h fits = omega arith
digits_flip (suc n) zero (suc a) h fits = absurd (omega arith)
digits_flip (suc n) (suc k) (suc a) h fits =
    let half : (2 ^ suc k - 1) / 2 ≡ 2 ^ k - 1 = omega (arith, two_pow-suc k, two_pow_pos k) in
    let odd : (2 ^ suc k - 1) % 2 ≡ 1 = omega (arith, two_pow-suc k, two_pow_pos k) in
    let bit : suc a % 2 < 2 = omega arith in
    rw (half, odd, differ_one (suc a % 2) bit)
      (omega (
        arith,
        two_pow-suc k,
        two_pow_pos k,
        digits_flip n k (suc a / 2) (omega arith) (omega (arith, two_pow-suc k)),
      ))

-- `^` with a mask of `k` ones, of a number of at most `k` bits.
pub bit_xor_mask : (k a : ℕ) → a < 2 ^ k → bit_xor a (2 ^ k - 1) ≡ 2 ^ k - 1 - a
bit_xor_mask k a fits = bit_xor-bitwise a (2 ^ k - 1) ∙ digits_flip a k a (omega arith) fits
