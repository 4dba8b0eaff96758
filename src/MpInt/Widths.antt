-- ===== src/MpInt/Widths.antt =====
-- The changes of width of Src/MPInt.cpp.
use dilithium.Base.{
  ℕ, ◌+◌, ◌-◌, ◌*◌, ◌/◌, ◌%◌, ◌^◌, ◌≤◌, ◌<◌, ◌≡◌, refl, ap, sym, ◌∙◌, arith, subst,
}
use dilithium.Base.{two_pow_pos, two_pow-add}
use dilithium.Base.{some}
use native.Mathlib.Nat.{
  mod-eq_of_lt, pow-le-pow_right, mul-div_left, div-div-eq-div-mul, mul-lt-mul_of_pos_right,
}
use dilithium.MpInt
use dilithium.MpInt.Laws.{IsMpInt, make-eq}

-- A product with a power of two stays below a power of two.
pub mul-two_pow_lt : (v m k : ℕ) → v < 2 ^ m → v * 2 ^ k < 2 ^ (m + k)
mul-two_pow_lt v m k h = rw (two_pow-add m k) (mul-lt-mul_of_pos_right h (two_pow_pos k))

-- The bits of a value moved to the top of the word.
pub top_eq : (w v : ℕ) → w ≤ 64 → v < 2 ^ w → v * 2 ^ (64 - w) % 2 ^ 64 ≡ v * 2 ^ (64 - w)
top_eq w v h fits =
    let parts : w + (64 - w) ≡ 64 = omega arith in
    mod-eq_of_lt
      (subst (λ (t : ℕ). v * 2 ^ (64 - w) < 2 ^ t) parts (mul-two_pow_lt v w (64 - w) fits))

sext_bits : (w w' v : ℕ) → w ≤ w' → w' ≤ 64 → v * 2 ^ (64 - w) / 2 ^ (w' - w) / 2 ^ (64 - w') ≡ v
sext_bits w w' v h h' =
    let parts : w' - w + (64 - w') ≡ 64 - w = omega arith in
    div-div-eq-div-mul (v * 2 ^ (64 - w)) (2 ^ (w' - w)) (2 ^ (64 - w'))
    ∙ ap (λ (t : ℕ). v * 2 ^ (64 - w) / t)
        (sym (two_pow-add (w' - w) (64 - w')) ∙ ap (λ (t : ℕ). 2 ^ t) parts)
    ∙ mul-div_left v (two_pow_pos (64 - w))

-- Whatever the sign of a constructed integer, SExt to a width of at most 64 bits is ZExt: the bits
-- that it adds are zeros.
pub sext-zext :
    (a : MpInt.MpInt) (width : ℕ)
    → IsMpInt a
    → a.bit_width < width
    → width ≤ 64
    → MpInt.sext a width ≡ MpInt.zext a width
unfolding MpInt.sext MpInt.zext
sext-zext a width ok h small =
    let bits : a.val
          * 2 ^ (64 - a.bit_width)
          % 2 ^ 64
          / 2 ^ (width - a.bit_width)
          / 2 ^ (64 - width)
        ≡ a.val =
      ap (λ (t : ℕ). t / 2 ^ (width - a.bit_width) / 2 ^ (64 - width))
        (top_eq a.bit_width a.val ok.small ok.fits)
      ∙ sext_bits a.bit_width width a.val (omega arith) small in
    ground (arith, ap (λ (t : ℕ). MpInt.make width t) bits)

zext_eq :
    (a : MpInt.MpInt) (width : ℕ)
    → IsMpInt a
    → a.bit_width < width
    → width ≤ 64
    → MpInt.zext a width ≡ some (record { bit_width = width; val = a.val })
unfolding MpInt.zext
zext_eq a width ok h small =
    let more : 2 ^ a.bit_width ≤ 2 ^ width = pow-le-pow_right (omega arith) (omega arith) in
    let kept : a.val % 2 ^ width ≡ a.val = mod-eq_of_lt (omega (arith, ok.fits)) in
    ground (
      arith,
      make-eq width a.val (omega arith) small
          ∙ ap (λ (t : ℕ). some (record { bit_width = width; val = t })) kept,
    )

trunc_back :
    (a : MpInt.MpInt) (width : ℕ)
    → IsMpInt a
    → a.bit_width < width
    → MpInt.trunc (record { bit_width = width; val = a.val }) a.bit_width ≡ some a
unfolding MpInt.trunc
trunc_back a width ok h = ground (
  arith,
  make-eq a.bit_width a.val ok.pos ok.small
      ∙ ap (λ (t : ℕ). some (record { bit_width = a.bit_width; val = t })) (mod-eq_of_lt ok.fits),
  ok.pos,
)

-- A constructed integer, extended with zeros to a width of at most 64 bits, keeps its value, and
-- truncated to its old width it is the integer again.
pub zext-trunc :
    (a : MpInt.MpInt) (width : ℕ)
    → IsMpInt a
    → a.bit_width < width
    → width ≤ 64
    → (b : MpInt.MpInt) × (MpInt.zext a width ≡ some b)
      × (b.val ≡ a.val)
      × (MpInt.trunc b a.bit_width ≡ some a)
zext-trunc a width ok h small = (
  record { bit_width = width; val = a.val },
  zext_eq a width ok h small,
  refl,
  trunc_back a width ok h,
)
