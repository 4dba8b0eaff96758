-- ===== src/MpInt/Laws.antt =====
-- The arithmetic of Src/MPInt.cpp against numbers modulo 2 ^ width.
use dilithium.Base.{ℕ, suc, ◌+◌, ◌-◌, ◌*◌, ◌%◌, ◌^◌, ◌≤◌, ◌<◌, ◌≡◌, ap, sym, ◌∙◌, arith, subst}
use dilithium.Base.{bit_and, bit_and_mask, low_bits-eq, mod_64-mod, two_pow_pos, two_pow-add}
use dilithium.Base.{Option, some}
use native.Mathlib.Nat.{mod-lt, pow-le-pow_right, add-mul-mod_self_left}
use dilithium.MpInt

-- What every constructed integer is.
pub record IsMpInt (a : MpInt.MpInt) : Type 0 where
  pub pos : 0 < a.bit_width
  pub small : a.bit_width ≤ 64
  pub fits : a.val < 2 ^ a.bit_width

-- The integer of `w` bits for the number `v`.
abbrev pub of_nat : ℕ → ℕ → MpInt.MpInt
of_nat w v = record { bit_width = w; val = v % 2 ^ w }

pub clear_unused_bits-eq : (w v : ℕ) → 0 < w → w ≤ 64 → MpInt.clear_unused_bits w v ≡ v % 2 ^ w
unfolding MpInt.clear_unused_bits
clear_unused_bits-eq w v pos small =
    ground (arith, ap (bit_and v) (low_bits-eq w small) ∙ bit_and_mask w v)

pub make-eq : (w v : ℕ) → 0 < w → w ≤ 64 → MpInt.make w v ≡ some (of_nat w v)
unfolding MpInt.make
make-eq w v pos small =
    ground (arith, clear_unused_bits-eq w (v % 2 ^ 64) pos small ∙ mod_64-mod v w small)

-- A number below a power of two of at most 64 bits.
pub of_nat-IsMpInt : (w v : ℕ) → 0 < w → w ≤ 64 → IsMpInt (of_nat w v)
of_nat-IsMpInt w v p s = record { pos = p; small = s; fits = mod-lt v (two_pow_pos w) }

same_width-eq :
    (a b : MpInt.MpInt) (r : Option MpInt.MpInt)
    → a.bit_width ≡ b.bit_width
    → MpInt.same_width a b r ≡ r
same_width-eq a b r h = ground arith

pub add_eq :
    (a b : MpInt.MpInt)
    → IsMpInt a
    → a.bit_width ≡ b.bit_width
    → MpInt.add a b ≡ some (of_nat a.bit_width (a.val + b.val))
unfolding MpInt.add
add_eq a b ok h = same_width-eq a b _ h ∙ make-eq a.bit_width (a.val + b.val) ok.pos ok.small

pub mul_eq :
    (a b : MpInt.MpInt)
    → IsMpInt a
    → a.bit_width ≡ b.bit_width
    → MpInt.mul a b ≡ some (of_nat a.bit_width (a.val * b.val))
unfolding MpInt.mul
mul_eq a b ok h = same_width-eq a b _ h ∙ make-eq a.bit_width (a.val * b.val) ok.pos ok.small

pub two_pow_64 : (w : ℕ) → w ≤ 64 → 2 ^ 64 ≡ 2 ^ w * 2 ^ (64 - w)
two_pow_64 w h =
    let parts : w + (64 - w) ≡ 64 = omega arith in
    ap (λ (t : ℕ). 2 ^ t) (sym parts) ∙ two_pow-add w (64 - w)

pub two_pow_le : (w : ℕ) → w ≤ 64 → 2 ^ w ≤ 2 ^ 64
two_pow_le w h = pow-le-pow_right (omega arith) h

-- `2 ^ 64` more is the same as `2 ^ w` more.
pub sub-mod :
    (w x y : ℕ) → w ≤ 64 → y < 2 ^ w → (x + 2 ^ 64 - y) % 2 ^ w ≡ (x + (2 ^ w - y)) % 2 ^ w
sub-mod w x y h lt =
    let above : 2 ^ (64 - w) ≡ suc (2 ^ (64 - w) - 1) = omega (arith, two_pow_pos (64 - w)) in
    let whole : x + 2 ^ 64 - y ≡ x + (2 ^ w - y) + 2 ^ w * (2 ^ (64 - w) - 1) =
      omega (arith, two_pow_64 w h, ap (λ (t : ℕ). 2 ^ w * t) above) in
    ap (λ (t : ℕ). t % 2 ^ w) whole
    ∙ add-mul-mod_self_left (x + (2 ^ w - y)) (2 ^ w) (2 ^ (64 - w) - 1)

pub sub_eq :
    (a b : MpInt.MpInt)
    → IsMpInt a
    → IsMpInt b
    → a.bit_width ≡ b.bit_width
    → MpInt.sub a b ≡ some (of_nat a.bit_width (a.val + (2 ^ a.bit_width - b.val)))
unfolding MpInt.sub
sub_eq a b ok ok_b h =
    let fits : b.val < 2 ^ a.bit_width = subst (λ (t : ℕ). b.val < 2 ^ t) (sym h) ok_b.fits in
    same_width-eq a b _ h
    ∙ make-eq a.bit_width (a.val + 2 ^ 64 - b.val) ok.pos ok.small
    ∙ ap (λ (t : ℕ). some (record { bit_width = a.bit_width; val = t }))
        (sub-mod a.bit_width a.val b.val ok.small fits)
