-- ===== src/MpInt/Numerals.antt =====
-- FromString of Src/MPInt.cpp against the number that its digits stand for.
use dilithium.Base.{
  ℕ, ◌+◌, ◌-◌, ◌*◌, ◌/◌, ◌%◌, ◌^◌, ◌≤◌, ◌<◌, ◌≡◌, refl, ap, sym, ◌∙◌, arith, subst, ◌⊎◌, inl, inr,
}
use dilithium.Base.{mod_64-mod, All, List, [], ◌∷◌}
use dilithium.Base.{Option, none, some}
use native.Mathlib.Nat.{
  mod-mod, mod-add-mod, div-add-mod, add-mul-mod_self_left, mul-mod_left, zero-mod,
}
use dilithium.MpInt
use dilithium.MpInt.Updates.{mul_assign, add_assign}
use dilithium.MpInt.Text.{digit, radix_shift, next_place, read_digits}
use dilithium.MpInt.Laws.{of_nat, make-eq, clear_unused_bits-eq}

-- The number that a text stands for by the digits that the code takes its bytes for.
unfoldable pub read_value : ℕ → ℕ → List ℕ → ℕ
unfolding digit
read_value radix acc [] = acc
read_value radix acc (c ∷ cs) = read_value radix (acc * radix + digit c radix) cs

abbrev pub AreRead : ℕ → List ℕ → Type 0
AreRead radix cs = All (λ c. digit c radix < radix) cs

-- The radixes that the code admits.
abbrev pub IsRadix : ℕ → Type 0
IsRadix radix = (radix ≡ 2) ⊎ (radix ≡ 8) ⊎ (radix ≡ 10) ⊎ (radix ≡ 16)

-- The bytes of a digit in a radix: '0' to '9', and for 10 and above the letters of either case.
abbrev pub IsDigit : ℕ → ℕ → ℕ → Type 0
IsDigit radix c d =
    (d < radix)
    × (((c ≡ b'0' + d) × (d < 10))
        ⊎ (((c ≡ b'A' + (d - 10)) × (10 ≤ d)) ⊎ ((c ≡ b'a' + (d - 10)) × (10 ≤ d))))

-- A text that spells digits.
abbrev pub AreDigits : ℕ → List ℕ → List ℕ → Type 0
AreDigits radix [] [] = Unit {0}
AreDigits radix (c ∷ cs) (d ∷ ds) = IsDigit radix c d × AreDigits radix cs ds
AreDigits radix _ _ = ⊥

-- The number of the digits `ds` behind those of `acc`.
abbrev pub horner : ℕ → ℕ → List ℕ → ℕ
horner radix acc [] = acc
horner radix acc (d ∷ ds) = horner radix (acc * radix + d) ds

digit-IsDigit : (radix c d : ℕ) → IsRadix radix → IsDigit radix c d → digit c radix ≡ d
unfolding digit
digit-IsDigit radix c d r is = ground (arith, r, is)

pub read_value-horner :
    (radix acc : ℕ) (cs ds : List ℕ)
    → IsRadix radix
    → AreDigits radix cs ds
    → (read_value radix acc cs ≡ horner radix acc ds) × AreRead radix cs
unfolding read_value
read_value-horner radix acc [] [] r are = (refl, tt)
read_value-horner radix acc [] (d ∷ ds) r are = elim are [ ]
read_value-horner radix acc (c ∷ cs) [] r are = elim are [ ]
read_value-horner radix acc (c ∷ cs) (d ∷ ds) r (is, are) =
    let same = digit-IsDigit radix c d r is in
    let (value, read) = read_value-horner radix (acc * radix + d) cs ds r are in
    (
      ap (λ (t : ℕ). read_value radix (acc * radix + t) cs) same ∙ value,
      (omega (arith, same, is.0), read),
    )

pub set_val-eq :
    (a : MpInt.MpInt) (v : ℕ)
    → 0 < a.bit_width
    → a.bit_width ≤ 64
    → MpInt.set_val a v ≡ of_nat a.bit_width v
set_val-eq a v pos small =
    ap (λ (t : ℕ). record { bit_width = a.bit_width; val = t })
      (clear_unused_bits-eq a.bit_width (v % 2 ^ 64) pos small ∙ mod_64-mod v a.bit_width small)

mul-mod_right_mod : (x r m : ℕ) → x * (r % m) % m ≡ x * r % m
mul-mod_right_mod x r m =
    let split : x * r ≡ x * (r % m) + m * (x * (r / m)) =
      omega (arith, ap (λ (t : ℕ). x * t) (div-add-mod r m)) in
    sym (ap (λ (t : ℕ). t % m) split ∙ add-mul-mod_self_left (x * (r % m)) m (x * (r / m)))

mul-mod_left_mod : (x r m : ℕ) → x % m * r % m ≡ x * r % m
mul-mod_left_mod x r m =
    let one : x % m * r ≡ r * (x % m) = omega arith in
    let two : r * x ≡ x * r = omega arith in
    ap (λ (t : ℕ). t % m) one ∙ mul-mod_right_mod r x m ∙ ap (λ (t : ℕ). t % m) two

-- A place further, as a number modulo 2 ^ width.
IsPlaced : ℕ → ℕ → ℕ → Option MpInt.MpInt → Type 0
IsPlaced w x radix o =
    (b : MpInt.MpInt) × (o ≡ some b) × (b.bit_width ≡ w) × (b.val % 2 ^ w ≡ x * radix % 2 ^ w)

shl_assign-IsPlaced :
    (w x s : ℕ)
    → s ≤ w
    → w ≤ 64
    → IsPlaced w x (2 ^ s) (MpInt.shl_assign (record { bit_width = w; val = x }) s)
unfolding IsPlaced MpInt.shl_assign
shl_assign-IsPlaced w x s h small = elim (lt-or-eq w s h) [
  | inl lt ↦ (
    record { bit_width = w; val = x * 2 ^ s % 2 ^ 64 },
    ground arith,
    refl,
    mod_64-mod (x * 2 ^ s) w small,
  )
  | inr eq ↦ (
    record { bit_width = w; val = 0 },
    ground arith,
    refl,
    zero-mod (2 ^ w) ∙ sym (ap (λ (t : ℕ). x * 2 ^ t % 2 ^ w) eq ∙ mul-mod_left x (2 ^ w)),
  )
]
  where
    lt-or-eq : (w s : ℕ) → s ≤ w → (s < w) ⊎ (s ≡ w)
    lt-or-eq w s h = omega arith

mul_assign-IsPlaced :
    (w x radix : ℕ)
    → 0 < w
    → w ≤ 64
    → IsPlaced w x radix (mul_assign (record { bit_width = w; val = x }) (of_nat w radix))
unfolding IsPlaced mul_assign
mul_assign-IsPlaced w x radix pos small = (
  of_nat w (x * (radix % 2 ^ w)),
  ground (arith, set_val-eq (record { bit_width = w; val = x }) (x * (radix % 2 ^ w)) pos small),
  refl,
  mod-mod (x * (radix % 2 ^ w)) (2 ^ w) ∙ mul-mod_right_mod x radix (2 ^ w),
)

-- What a step of one radix has to do.
Steps : ℕ → ℕ → ℕ → Type 0
unfolding next_place radix_shift
Steps w x radix =
    radix_shift radix ≤ w
    → IsPlaced w x radix (next_place radix (record { bit_width = w; val = x }))

Steps-ten : (w x : ℕ) → 0 < w → w ≤ 64 → Steps w x 10
unfolding Steps next_place radix_shift
Steps-ten w x pos small h =
    let made = make-eq w 10 pos small in
    subst
      (λ (o : Option MpInt.MpInt). IsPlaced w x 10 (elim o [
        | none ↦ none
        | some mp_radix ↦ mul_assign (record { bit_width = w; val = x }) mp_radix
      ]))
      (sym made) (mul_assign-IsPlaced w x 10 pos small)

next_place-IsPlaced : (w x radix : ℕ) → IsRadix radix → 0 < w → w ≤ 64 → Steps w x radix
unfolding Steps next_place radix_shift
next_place-IsPlaced w x radix r pos small = elim r [
  | inl two ↦ subst (Steps w x) (sym two) (λ h. shl_assign-IsPlaced w x 1 h small)
  | inr (inl eight) ↦ subst (Steps w x) (sym eight) (λ h. shl_assign-IsPlaced w x 3 h small)
  | inr (inr (inl ten)) ↦ subst (Steps w x) (sym ten) (Steps-ten w x pos small)
  | inr (inr (inr sixteen)) ↦
      subst (Steps w x) (sym sixteen) (λ h. shl_assign-IsPlaced w x 4 h small)
]

-- The sum with the next digit.
pub add_assign_eq :
    (b : MpInt.MpInt) (w d : ℕ)
    → b.bit_width ≡ w
    → 0 < w
    → w ≤ 64
    → add_assign b (record { bit_width = w; val = d }) ≡ some (of_nat w (b.val + d))
unfolding add_assign
add_assign_eq b w d h pos small = ground (
  arith,
  set_val-eq b (b.val + d) (omega arith) (omega arith),
  ap (λ (t : ℕ). some (of_nat t (b.val + d))) h,
)

IsPlaced-add :
    (w v radix d : ℕ) (b : MpInt.MpInt)
    → b.val % 2 ^ w ≡ v % 2 ^ w * radix % 2 ^ w
    → of_nat w (b.val + d) ≡ of_nat w (v * radix + d)
IsPlaced-add w v radix d b h =
    ap (λ (t : ℕ). record { bit_width = w; val = t })
      (sym (mod-add-mod b.val (2 ^ w) d)
        ∙ ap (λ (t : ℕ). (t + d) % 2 ^ w) (h ∙ mul-mod_left_mod v radix (2 ^ w))
        ∙ mod-add-mod (v * radix) (2 ^ w) d)

-- The loop, from a number that is known modulo 2 ^ width.
pub read_digits-read_value :
    (w radix slen : ℕ) (cs : List ℕ) (v : ℕ)
    → IsRadix radix
    → radix_shift radix ≤ w
    → 0 < w
    → w ≤ 64
    → 1 < slen
    → AreRead radix cs
    → read_digits radix slen cs (of_nat w v) ≡ some (of_nat w (read_value radix v cs))
unfolding read_digits read_value Steps IsPlaced
read_digits-read_value w radix slen [] v r h pos small more ok = refl
read_digits-read_value w radix slen (c ∷ cs) v r h pos small more ok =
    let (b, made, width, value) = next_place-IsPlaced w (v % 2 ^ w) radix r pos small h in
    let d = digit c radix in
    let sum : add_assign b (record { bit_width = w; val = d }) ≡ some (of_nat w (v * radix + d)) =
      add_assign_eq b w d width pos small ∙ ap some (IsPlaced-add w v radix d b value) in
    let rest = read_digits-read_value w radix slen cs (v * radix + d) r h pos small more ok.1 in
    grind (arith, made, sum, rest, ok.0)
