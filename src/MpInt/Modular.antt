-- ===== src/MpInt/Modular.antt =====
-- The operators of Src/MPInt.cpp as arithmetic modulo 2 ^ width, and FromString as a number.
use dilithium.Base.{ℕ, zero, suc, ◌+◌, ◌-◌, ◌*◌, ◌%◌, ◌^◌, ◌≤◌, ◌<◌, ◌≡◌, refl, ap, sym, ◌∙◌, arith}
use dilithium.Base.{two_pow_pos, bit_xor_mask, length, List, [], ◌∷◌}
use dilithium.Base.{true, Option, none, some}
use native.Mathlib.Nat.{mod-lt, add-mod_right, mod-eq_of_lt}
use dilithium.MpInt
use dilithium.MpInt.Text.{
  digit, width_suffices, is_radix, radix_shift, read_digits, from_digits, from_string,
}
use dilithium.MpInt.Laws.{
  IsMpInt, of_nat, of_nat-IsMpInt, make-eq, add_eq, mul_eq, sub_eq, sub-mod, two_pow_le,
}
use dilithium.MpInt.Numerals.{
  set_val-eq, AreRead, AreDigits, IsRadix, read_value, horner, read_value-horner, add_assign_eq,
  read_digits-read_value,
}
use dilithium.MpInt.Shifts.{ones_minus-mod, half_pow}

neg_eq :
    (a : MpInt.MpInt)
    → IsMpInt a
    → MpInt.neg a ≡ some (of_nat a.bit_width (2 ^ a.bit_width - a.val))
unfolding MpInt.neg
neg_eq a ok =
    let plain : 0 + (2 ^ a.bit_width - a.val) ≡ 2 ^ a.bit_width - a.val = omega arith in
    let zero_value : MpInt.make a.bit_width 0 ≡ some (record { bit_width = a.bit_width; val = 0 }) =
      make-eq a.bit_width 0 ok.pos ok.small
      ∙ ap (λ (t : ℕ). some (record { bit_width = a.bit_width; val = t }))
          (mod-eq_of_lt (two_pow_pos a.bit_width)) in
    ap (λ (o : Option MpInt.MpInt). elim o [ none ↦ none | some z ↦ MpInt.sub z a ]) zero_value
    ∙ sub_eq (record { bit_width = a.bit_width; val = 0 }) a
        (record { pos = ok.pos; small = ok.small; fits = two_pow_pos a.bit_width }) ok refl
    ∙ ap (λ (t : ℕ). some (of_nat a.bit_width t)) plain

inc_eq : (a : MpInt.MpInt) → IsMpInt a → MpInt.inc a ≡ of_nat a.bit_width (a.val + 1)
unfolding MpInt.inc
inc_eq a ok = set_val-eq a (a.val + 1) ok.pos ok.small

dec_eq :
    (a : MpInt.MpInt) → IsMpInt a → MpInt.dec a ≡ of_nat a.bit_width (a.val + (2 ^ a.bit_width - 1))
unfolding MpInt.dec
dec_eq a ok =
    let one : 1 < 2 ^ a.bit_width =
      omega (arith, half_pow a.bit_width ok.pos, two_pow_pos (a.bit_width - 1)) in
    let moved : a.val + MpInt.uint64_max ≡ a.val + 2 ^ 64 - 1 = omega arith in
    set_val-eq a (a.val + MpInt.uint64_max) ok.pos ok.small
    ∙ ap (λ (t : ℕ). of_nat a.bit_width t) moved
    ∙ ap (λ (t : ℕ). record { bit_width = a.bit_width; val = t })
        (sub-mod a.bit_width a.val 1 ok.small one)

flip_eq :
    (a : MpInt.MpInt)
    → IsMpInt a
    → MpInt.flip_all_bits a ≡ of_nat a.bit_width (2 ^ a.bit_width - 1 - a.val)
unfolding MpInt.flip_all_bits
flip_eq a ok =
    let word : a.val < 2 ^ 64 = omega (arith, ok.fits, two_pow_le a.bit_width ok.small) in
    let low : 2 ^ a.bit_width - 1 - a.val < 2 ^ a.bit_width =
      omega (arith, two_pow_pos a.bit_width) in
    set_val-eq a _ ok.pos ok.small
    ∙ ap (λ (t : ℕ). of_nat a.bit_width t) (bit_xor_mask 64 a.val word)
    ∙ ap (λ (t : ℕ). record { bit_width = a.bit_width; val = t })
        (ones_minus-mod a.bit_width a.val ok.small ok.fits ∙ sym (mod-eq_of_lt low))

-- For two constructed integers of one width of w bits, + - and * give the sum, the difference and
-- the product modulo 2 ^ w, unary - the negative, ++ and -- one more and one less, and ~ the
-- complement 2 ^ w - 1 - value; no assertion fails.
pub operators-modular :
    (a b : MpInt.MpInt)
    → IsMpInt a
    → IsMpInt b
    → a.bit_width ≡ b.bit_width
    → (MpInt.add a b ≡ some (of_nat a.bit_width (a.val + b.val)))
      × (MpInt.sub a b ≡ some (of_nat a.bit_width (a.val + (2 ^ a.bit_width - b.val))))
      × (MpInt.mul a b ≡ some (of_nat a.bit_width (a.val * b.val)))
      × (MpInt.neg a ≡ some (of_nat a.bit_width (2 ^ a.bit_width - a.val)))
      × (MpInt.inc a ≡ of_nat a.bit_width (a.val + 1))
      × (MpInt.dec a ≡ of_nat a.bit_width (a.val + (2 ^ a.bit_width - 1)))
      × (MpInt.flip_all_bits a ≡ of_nat a.bit_width (2 ^ a.bit_width - 1 - a.val))
operators-modular a b ok ok_b h = (
  add_eq a b ok h,
  sub_eq a b ok ok_b h,
  mul_eq a b ok h,
  neg_eq a ok,
  inc_eq a ok,
  dec_eq a ok,
  flip_eq a ok,
)

digit_alone :
    (w radix c : ℕ)
    → digit c radix < radix
    → 0 < w
    → w ≤ 64
    → width_suffices w 1 radix ≡ true
    → from_digits w radix (c ∷ []) ≡ some (of_nat w (digit c radix))
unfolding read_digits
digit_alone w radix c ok pos small suffices =
    let sum = add_assign_eq (record { bit_width = w; val = 0 }) w (digit c radix) refl pos small in
    grind (arith, ok, suffices, sum)

shift_fits :
    (w slen radix : ℕ)
    → IsRadix radix
    → width_suffices w slen radix ≡ true
    → 1 < slen
    → radix_shift radix ≤ w
unfolding width_suffices radix_shift
shift_fits w slen radix r h more = ground (arith, r, h, more)

-- A text without a sign.
from_digits-read_value :
    (w radix : ℕ) (cs : List ℕ)
    → IsRadix radix
    → 0 < w
    → w ≤ 64
    → 0 < length cs
    → width_suffices w (length cs) radix ≡ true
    → AreRead radix cs
    → from_digits w radix cs ≡ some (of_nat w (read_value radix 0 cs))
unfolding read_value
from_digits-read_value w radix [] r pos small some_digit suffices ok = absurd (omega arith)
from_digits-read_value w radix (c ∷ []) r pos small some_digit suffices ok =
    let plain : digit c radix ≡ 0 * radix + digit c radix = omega arith in
    digit_alone w radix c ok.0 pos small suffices ∙ ap (λ (t : ℕ). some (of_nat w t)) plain
from_digits-read_value w radix (c ∷ d ∷ cs) r pos small some_digit suffices ok =
    let two : 1 < length (c ∷ d ∷ cs) = omega arith in
    let fits = shift_fits w (length (c ∷ d ∷ cs)) radix r suffices two in
    let start : of_nat w 0 ≡ record { bit_width = w; val = 0 } =
      ap (λ (t : ℕ). record { bit_width = w; val = t }) (mod-eq_of_lt (two_pow_pos w)) in
    let loop =
      read_digits-read_value w radix (length (c ∷ d ∷ cs)) (c ∷ d ∷ cs) 0 r fits pos small two ok in
    ground (
      arith,
      suffices,
      ap (read_digits radix (length (c ∷ d ∷ cs)) (c ∷ d ∷ cs)) (sym start) ∙ loop,
    )

complement-mod : (m x : ℕ) → x < m → (m - 1 - (x + (m - 1)) % m) % m ≡ (m - x) % m
complement-mod m zero h =
    let low : m - 1 < m = omega arith in
    let none_left : m - 1 - (m - 1) ≡ 0 = omega arith in
    let same : m - 0 ≡ 0 + m = omega arith in
    let whole : (m - 0) % m ≡ 0 % m = ap (λ (t : ℕ). t % m) same ∙ add-mod_right 0 m in
    let start : 0 + (m - 1) ≡ m - 1 = omega arith in
    ap (λ (t : ℕ). (m - 1 - t % m) % m) start
    ∙ ap (λ (t : ℕ). (m - 1 - t) % m) (mod-eq_of_lt low)
    ∙ ap (λ (t : ℕ). t % m) none_left
    ∙ sym whole
complement-mod m (suc x) h =
    let low : x < m = omega arith in
    let shifted : suc x + (m - 1) ≡ x + m = omega arith in
    let rest : m - 1 - x ≡ m - suc x = omega arith in
    ap (λ (t : ℕ). (m - 1 - t % m) % m) shifted
    ∙ ap (λ (t : ℕ). (m - 1 - t) % m) (add-mod_right x m ∙ mod-eq_of_lt low)
    ∙ ap (λ (t : ℕ). t % m) rest

-- One less and then the complement is the negative.
minus_mod :
    (w n : ℕ)
    → 0 < w
    → w ≤ 64
    → MpInt.flip_all_bits (MpInt.dec (of_nat w n)) ≡ of_nat w (2 ^ w - n % 2 ^ w)
minus_mod w n pos small =
    let ok = of_nat-IsMpInt w n pos small in
    let less : ℕ = n % 2 ^ w + (2 ^ w - 1) in
    ap MpInt.flip_all_bits (dec_eq (of_nat w n) ok)
    ∙ flip_eq (of_nat w less) (of_nat-IsMpInt w less pos small)
    ∙ ap (λ (t : ℕ). record { bit_width = w; val = t })
        (complement-mod (2 ^ w) (n % 2 ^ w) (mod-lt n (two_pow_pos w)))

-- For a width of 1 to 64 bits, a radix of 2, 8, 10 or 16 and a non-empty text that spells digits of
-- that radix, the ones above 9 by letters of either case, and for which the width suffices by the test
-- of the code, FromString reads the text with '-' before it as the negative, and with '+' before it as
-- the value, of the number of these digits, modulo 2 ^ width.
pub from_string-horner :
    (w radix : ℕ) (cs ds : List ℕ)
    → IsRadix radix
    → 0 < w
    → w ≤ 64
    → 0 < length cs
    → width_suffices w (length cs) radix ≡ true
    → AreDigits radix cs ds
    → (from_string w (45 ∷ cs) radix ≡ some (of_nat w (2 ^ w - horner radix 0 ds % 2 ^ w)))
      × (from_string w (43 ∷ cs) radix ≡ some (of_nat w (horner radix 0 ds)))
unfolding from_string is_radix
from_string-horner w radix cs ds r pos small some_digit suffices are =
    let (number, ok) = read_value-horner radix 0 cs ds r are in
    let value : from_digits w radix cs ≡ some (of_nat w (horner radix 0 ds)) =
      from_digits-read_value w radix cs r pos small some_digit suffices ok
      ∙ ap (λ (t : ℕ). some (of_nat w t)) number in
    (grind (arith, r, value, minus_mod w (horner radix 0 ds) pos small), grind (arith, r, value))
