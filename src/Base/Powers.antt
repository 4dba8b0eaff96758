-- ===== src/Base/Powers.antt =====
-- Powers of two, and the bits of a number: `slice v p n` is the number that the `n` bits of `v`
-- from position `p` on stand for.
use Prim.Native.Nat.{ℕ, zero, suc, ◌+◌, ◌-◌, ◌*◌, ◌/◌, ◌%◌, ◌^◌, ◌≤◌, ◌<◌}
use mathlib.Core.Path.{◌≡◌, ap, sym, ◌∙◌}
use native.Mathlib.Nat.{pow-suc, one-le-pow, div-div-eq-div-mul, mod-lt, div-add-mod}
use native.Mathlib.Nat.{mod-mod, add-zero, add-suc, mod-eq_of_lt, add-mul-mod_self_left}
use native.Mathlib.Nat.{add-mul-div_left, div-eq_of_lt}
use native.Mathlib.Omega.{arith}

pub two_pow_pos : (n : ℕ) → 0 < 2 ^ n
two_pow_pos n = one-le-pow n 2 (omega arith)

pub two_pow-suc : (n : ℕ) → 2 ^ suc n ≡ 2 * 2 ^ n
two_pow-suc n = omega (arith, pow-suc 2 n)

pub two_pow-add : (m n : ℕ) → 2 ^ (m + n) ≡ 2 ^ m * 2 ^ n
two_pow-add m zero = rw add-zero (omega arith)
two_pow-add m (suc n) =
    rw add-suc (
      omega
        (arith, two_pow-suc (m + n), two_pow-add m n, ap (λ (t : ℕ). 2 ^ m * t) (two_pow-suc n)))

unfoldable pub slice : ℕ → ℕ → ℕ → ℕ
slice v p n = v / 2 ^ p % 2 ^ n

pub slice-lt : (v p n : ℕ) → slice v p n < 2 ^ n
unfolding slice
slice-lt v p n = mod-lt _ (two_pow_pos n)

-- The remainder by a product.
pub mod-mul : (x m n : ℕ) → x % (m * n) ≡ x % m + m * (x / m % n)
mod-mul x m n = omega (
  arith,
  div-add-mod x m,
  div-add-mod x (m * n),
  ap (λ (t : ℕ). m * t) (div-add-mod (x / m) n),
  ap (λ (t : ℕ). m * n * t) (div-div-eq-div-mul x m n),
)

-- The bits from `p` on are the first `a` of them below the next `b`.
pub slice-add : (v p a b : ℕ) → slice v p (a + b) ≡ slice v p a + 2 ^ a * slice v (p + a) b
unfolding slice
slice-add v p a b =
    rw (two_pow-add a b, two_pow-add p a, ← div-div-eq-div-mul v (2 ^ p) (2 ^ a))
      (mod-mul (v / 2 ^ p) (2 ^ a) (2 ^ b))

-- The lowest `n` of `n + m` bits, and those above them.
slice-add_mod : (v p n m : ℕ) → slice v p (n + m) % 2 ^ n ≡ slice v p n
slice-add_mod v p n m =
    rw (slice-add v p n m, add-mul-mod_self_left (slice v p n) (2 ^ n) (slice v (p + n) m))
      (mod-eq_of_lt (slice-lt v p n))

slice-add_div : (v p n m : ℕ) → slice v p (n + m) / 2 ^ n ≡ slice v (p + n) m
slice-add_div v p n m =
    rw (slice-add v p n m, add-mul-div_left (slice v p n) (slice v (p + n) m) (two_pow_pos n))
      (rw (div-eq_of_lt (slice-lt v p n)) (omega arith))

pub slice-mod : (v p b n : ℕ) → n ≤ b → slice v p b % 2 ^ n ≡ slice v p n
slice-mod v p b n h =
    let split : b ≡ n + (b - n) = omega arith in rw split (slice-add_mod v p n (b - n))

pub slice-div : (v p b n : ℕ) → n ≤ b → slice v p b / 2 ^ n ≡ slice v (p + n) (b - n)
slice-div v p b n h =
    let split : b ≡ n + (b - n) = omega arith in
    ap (λ (t : ℕ). slice v p t / 2 ^ n) split ∙ slice-add_div v p n (b - n)

pub slice-zero : (v p : ℕ) → slice v p 0 ≡ 0
slice-zero v p = omega (arith, slice-lt v p 0)

-- A number taken in 64 bits and then in fewer.
pub mod_64-mod : (x w : ℕ) → w ≤ 64 → x % 2 ^ 64 % 2 ^ w ≡ x % 2 ^ w
mod_64-mod x w h =
    let parts : w + (64 - w) ≡ 64 = omega arith in
    let whole : 2 ^ 64 ≡ 2 ^ w * 2 ^ (64 - w) =
      ap (λ (t : ℕ). 2 ^ t) (sym parts) ∙ two_pow-add w (64 - w) in
    ap (λ (t : ℕ). x % t % 2 ^ w) whole
    ∙ ap (λ (t : ℕ). t % 2 ^ w) (mod-mul x (2 ^ w) (2 ^ (64 - w)))
    ∙ add-mul-mod_self_left (x % 2 ^ w) (2 ^ w) (x / 2 ^ w % 2 ^ (64 - w))
    ∙ mod-mod x (2 ^ w)
