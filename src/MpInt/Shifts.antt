-- ===== src/MpInt/Shifts.antt =====
-- The shifts of Src/MPInt.cpp.
use dilithium.Base.{
  ℕ, zero, suc, ◌+◌, ◌-◌, ◌*◌, ◌/◌, ◌%◌, ◌^◌, ◌≤◌, ◌<◌, ◌≡◌, ap, sym, ◌∙◌, arith, subst, ◌⊎◌, inl,
  inr,
}
use dilithium.Base.{two_pow_pos, two_pow-add, two_pow-suc, pred_mul-div}
use dilithium.Base.{if◌then◌else◌, ltb, some}
use native.Mathlib.Nat.{
  mod-eq_of_lt, pow-le-pow_right, mul-div_left, mul-mod_left, div-eq_of_lt, div-le_self,
  add-mul-mod_self_left, mul-le-mul_right,
}
use dilithium.MpInt
use dilithium.MpInt.Laws.{IsMpInt, of_nat, make-eq, two_pow_64}
use dilithium.MpInt.Widths.{mul-two_pow_lt, top_eq}

shl_low :
    (a : MpInt.MpInt) (s : ℕ)
    → IsMpInt a
    → s < a.bit_width
    → MpInt.shl a s ≡ some (of_nat a.bit_width (a.val * 2 ^ s))
unfolding MpInt.shl
shl_low a s ok h = ground (arith, make-eq a.bit_width (a.val * 2 ^ s) ok.pos ok.small)

shl_all :
    (a : MpInt.MpInt)
    → IsMpInt a
    → MpInt.shl a a.bit_width ≡ some (of_nat a.bit_width (a.val * 2 ^ a.bit_width))
unfolding MpInt.shl
shl_all a ok =
    rw (mul-mod_left a.val (2 ^ a.bit_width))
      (ground (arith, make-eq a.bit_width 0 ok.pos ok.small))

lshr_low :
    (a : MpInt.MpInt) (s : ℕ)
    → IsMpInt a
    → s < a.bit_width
    → MpInt.lshr a s ≡ some (of_nat a.bit_width (a.val / 2 ^ s))
unfolding MpInt.lshr
lshr_low a s ok h = ground (arith, make-eq a.bit_width (a.val / 2 ^ s) ok.pos ok.small)

lshr_all :
    (a : MpInt.MpInt) (s : ℕ)
    → IsMpInt a
    → a.bit_width ≤ s
    → MpInt.lshr a s ≡ some (of_nat a.bit_width (a.val / 2 ^ s))
unfolding MpInt.lshr
lshr_all a s ok h =
    let more : 2 ^ a.bit_width ≤ 2 ^ s = pow-le-pow_right (omega arith) h in
    let small : a.val < 2 ^ s = omega (arith, ok.fits) in
    rw (div-eq_of_lt small) (ground (arith, make-eq a.bit_width 0 ok.pos ok.small))

-- A signed value of `w` bits, shifted right with its sign kept.
abbrev pub arithmetic_shift : ℕ → ℕ → ℕ → ℕ
arithmetic_shift w v s =
    if ltb v (2 ^ (w - 1)) then v / 2 ^ s else 2 ^ w - 1 - (2 ^ w - 1 - v) / 2 ^ s

-- `>>` of the 64-bit pattern that stands for minus one minus `m`.
asr64_minus :
    (m s : ℕ) → m < 2 ^ 63 → MpInt.asr64 (MpInt.uint64_max - m) s ≡ MpInt.uint64_max - m / 2 ^ s
asr64_minus m s h =
    let back : MpInt.uint64_max - (MpInt.uint64_max - m) ≡ m = omega arith in
    ground (arith, ap (λ (t : ℕ). MpInt.uint64_max - t / 2 ^ s) back)

asr64_plus : (x s : ℕ) → x < 2 ^ 63 → MpInt.asr64 x s ≡ x / 2 ^ s
asr64_plus x s h = ground arith

pub half_pow : (w : ℕ) → 0 < w → 2 ^ w ≡ 2 * 2 ^ (w - 1)
half_pow zero h = absurd (omega arith)
half_pow (suc w) h =
    let back : suc w - 1 ≡ w = omega arith in two_pow-suc w ∙ ap (λ (t : ℕ). 2 * 2 ^ t) (sym back)

-- Of a value with its sign bit clear, the top of the word is positive.
sign_clear : (w v : ℕ) → 0 < w → w ≤ 64 → v < 2 ^ (w - 1) → v * 2 ^ (64 - w) < 2 ^ 63
sign_clear w v pos small h =
    let parts : w - 1 + (64 - w) ≡ 63 = omega arith in
    subst (λ (t : ℕ). v * 2 ^ (64 - w) < 2 ^ t) parts (mul-two_pow_lt v (w - 1) (64 - w) h)

sign_set : (w v : ℕ) → 0 < w → w ≤ 64 → 2 ^ (w - 1) ≤ v → 2 ^ 63 ≤ v * 2 ^ (64 - w)
sign_set w v pos small h =
    let parts : w - 1 + (64 - w) ≡ 63 = omega arith in
    subst (λ (t : ℕ). 2 ^ t ≤ v * 2 ^ (64 - w)) parts
      (rw (two_pow-add (w - 1) (64 - w)) (mul-le-mul_right (2 ^ (64 - w)) h))

-- What is above a value at the top of the word, shifted back.
above-div :
    (w v : ℕ)
    → w ≤ 64
    → v < 2 ^ w
    → (MpInt.uint64_max - v * 2 ^ (64 - w)) / 2 ^ (64 - w) ≡ 2 ^ w - 1 - v
above-div w v small fits =
    let parts : 2 ^ w ≡ v + suc (2 ^ w - 1 - v) = omega arith in
    let rest : MpInt.uint64_max - v * 2 ^ (64 - w) ≡ suc (2 ^ w - 1 - v) * 2 ^ (64 - w) - 1 =
      omega (arith, two_pow_64 w small, ap (λ (t : ℕ). t * 2 ^ (64 - w)) parts) in
    ap (λ (t : ℕ). t / 2 ^ (64 - w)) rest
    ∙ pred_mul-div (2 ^ w - 1 - v) (2 ^ (64 - w)) (two_pow_pos (64 - w))

-- The whole word is ones above a value of `w` bits.
pub ones_minus-mod : (w q : ℕ) → w ≤ 64 → q < 2 ^ w → (MpInt.uint64_max - q) % 2 ^ w ≡ 2 ^ w - 1 - q
ones_minus-mod w q small h =
    let parts : 2 ^ (64 - w) ≡ suc (2 ^ (64 - w) - 1) = omega (arith, two_pow_pos (64 - w)) in
    let split : MpInt.uint64_max - q ≡ 2 ^ w - 1 - q + 2 ^ w * (2 ^ (64 - w) - 1) =
      omega (arith, two_pow_64 w small, ap (λ (t : ℕ). 2 ^ w * t) parts) in
    let low : 2 ^ w - 1 - q < 2 ^ w = omega arith in
    ap (λ (t : ℕ). t % 2 ^ w) split
    ∙ add-mul-mod_self_left (2 ^ w - 1 - q) (2 ^ w) (2 ^ (64 - w) - 1)
    ∙ mod-eq_of_lt low

-- The two shifts of AShr, on a value with its sign bit clear.
ashr_clear :
    (w v s : ℕ)
    → 0 < w
    → w ≤ 64
    → v < 2 ^ (w - 1)
    → MpInt.asr64 (MpInt.asr64 (v * 2 ^ (64 - w)) (64 - w)) s ≡ v / 2 ^ s
ashr_clear w v s pos small h =
    let exponent : w - 1 ≤ 63 = omega arith in
    let half : 2 ^ (w - 1) ≤ 2 ^ 63 = pow-le-pow_right (omega arith) exponent in
    let fits : v < 2 ^ 63 = omega arith in
    ap (λ (t : ℕ). MpInt.asr64 t s)
      (asr64_plus (v * 2 ^ (64 - w)) (64 - w) (sign_clear w v pos small h)
        ∙ mul-div_left v (two_pow_pos (64 - w)))
    ∙ asr64_plus v s fits

ashr_set :
    (w v s : ℕ)
    → 0 < w
    → w ≤ 64
    → v < 2 ^ w
    → 2 ^ (w - 1) ≤ v
    → MpInt.asr64 (MpInt.asr64 (v * 2 ^ (64 - w)) (64 - w)) s
      ≡ MpInt.uint64_max - (2 ^ w - 1 - v) / 2 ^ s
ashr_set w v s pos small fits h =
    let first : MpInt.asr64 (v * 2 ^ (64 - w)) (64 - w) ≡ MpInt.uint64_max - (2 ^ w - 1 - v) =
      ground (
        arith,
        sign_set w v pos small h,
        ap (λ (t : ℕ). MpInt.uint64_max - t) (above-div w v small fits),
      ) in
    let exponent : w - 1 ≤ 63 = omega arith in
    let half : 2 ^ (w - 1) ≤ 2 ^ 63 = pow-le-pow_right (omega arith) exponent in
    let low : 2 ^ w - 1 - v < 2 ^ 63 = omega (arith, half_pow w pos) in
    ap (λ (t : ℕ). MpInt.asr64 t s) first ∙ asr64_minus (2 ^ w - 1 - v) s low

lt_or_le : (a b : ℕ) → (a < b) ⊎ (b ≤ a)
lt_or_le a b = omega arith

-- The word that AShr makes, taken in `w` bits.
ashr_word :
    (w v s : ℕ)
    → 0 < w
    → w ≤ 64
    → v < 2 ^ w
    → MpInt.asr64 (MpInt.asr64 (v * 2 ^ (64 - w) % 2 ^ 64) (64 - w)) s % 2 ^ w
      ≡ arithmetic_shift w v s
ashr_word w v s pos small fits =
    let top =
      ap (λ (t : ℕ). MpInt.asr64 (MpInt.asr64 t (64 - w)) s % 2 ^ w) (top_eq w v small fits) in
    let below : v / 2 ^ s < 2 ^ w = omega (arith, div-le_self v (2 ^ s)) in
    let rest : (2 ^ w - 1 - v) / 2 ^ s < 2 ^ w =
      omega (arith, div-le_self (2 ^ w - 1 - v) (2 ^ s)) in
    top ∙ elim (lt_or_le v (2 ^ (w - 1))) [
      | inl h ↦
          ap (λ (t : ℕ). t % 2 ^ w) (ashr_clear w v s pos small h)
          ∙ mod-eq_of_lt below
          ∙ ground arith
      | inr h ↦
          ap (λ (t : ℕ). t % 2 ^ w) (ashr_set w v s pos small fits h)
          ∙ ones_minus-mod w ((2 ^ w - 1 - v) / 2 ^ s) small rest
          ∙ ground arith
    ]

ashr_zero : (w v : ℕ) → v < 2 ^ w → arithmetic_shift w v 0 ≡ v
ashr_zero w v fits = ground arith

ashr-arithmetic_shift :
    (a : MpInt.MpInt) (s : ℕ)
    → IsMpInt a
    → s < a.bit_width
    → MpInt.ashr a s
      ≡ some (record { bit_width = a.bit_width; val = arithmetic_shift a.bit_width a.val s })
unfolding MpInt.ashr
ashr-arithmetic_shift a s ok h = ground (
  arith,
  ashr_zero a.bit_width a.val ok.fits,
  make-eq a.bit_width
      (MpInt.asr64 (MpInt.asr64 (a.val * 2 ^ (64 - a.bit_width) % 2 ^ 64) (64 - a.bit_width)) s)
      ok.pos ok.small,
  ashr_word a.bit_width a.val s ok.pos ok.small ok.fits,
)

ashr_all : (a : MpInt.MpInt) → IsMpInt a → MpInt.ashr a a.bit_width ≡ some (of_nat a.bit_width 0)
unfolding MpInt.ashr
ashr_all a ok = ground (arith, ok.pos, make-eq a.bit_width 0 ok.pos ok.small)

shl_eq :
    (a : MpInt.MpInt) (s : ℕ)
    → IsMpInt a
    → s ≤ a.bit_width
    → MpInt.shl a s ≡ some (of_nat a.bit_width (a.val * 2 ^ s))
shl_eq a s ok h = elim (lt_or_le s a.bit_width) [
  | inl lt ↦ shl_low a s ok lt
  | inr le ↦
      (let same : a.bit_width ≡ s = omega arith in
        subst (λ (t : ℕ). MpInt.shl a t ≡ some (of_nat a.bit_width (a.val * 2 ^ t))) same
          (shl_all a ok))
]

lshr_eq :
    (a : MpInt.MpInt) (s : ℕ)
    → IsMpInt a
    → MpInt.lshr a s ≡ some (of_nat a.bit_width (a.val / 2 ^ s))
lshr_eq a s ok = elim (lt_or_le s a.bit_width) [
  | inl lt ↦ lshr_low a s ok lt
  | inr le ↦ lshr_all a s ok le
]

-- A constructed integer of w bits, shifted by `s` bits where s < w: Shl multiplies by 2 ^ s modulo
-- 2 ^ w, LShr divides by 2 ^ s, and AShr divides the signed value that the bits stand for, which
-- rounds down.
pub shifts-modular :
    (a : MpInt.MpInt) (s : ℕ)
    → IsMpInt a
    → s < a.bit_width
    → (MpInt.shl a s ≡ some (of_nat a.bit_width (a.val * 2 ^ s)))
      × (MpInt.lshr a s ≡ some (of_nat a.bit_width (a.val / 2 ^ s)))
      × (MpInt.ashr a s
          ≡ some (record { bit_width = a.bit_width; val = arithmetic_shift a.bit_width a.val s }))
shifts-modular a s ok h =
    let most : s ≤ a.bit_width = omega arith in
    (shl_eq a s ok most, lshr_eq a s ok, ashr-arithmetic_shift a s ok h)
