-- ===== src/MpInt/Tests.antt =====
-- Runs of the code of Src/MPInt.cpp.
use dilithium.Base.{◌+◌, ◌-◌, ◌*◌, ◌/◌, ◌%◌, ◌^◌, ◌≡◌, refl, arith, inl, inr, [], ◌∷◌}
use dilithium.Base.{some, true, false}
use dilithium.MpInt
use dilithium.MpInt.Laws.{IsMpInt, of_nat}
use dilithium.MpInt.Text.{width_suffices, from_string, to_string}
use dilithium.MpInt.Updates.{splat}
use dilithium.MpInt.Modular.{operators-modular, from_string-horner}
use dilithium.MpInt.Numerals.{horner}
use dilithium.MpInt.Shifts.{arithmetic_shift, shifts-modular}
use dilithium.MpInt.Widths.{sext-zext}

abbrev minus_two : MpInt.MpInt
minus_two = record { bit_width = 8; val = 254 }

abbrev three : MpInt.MpInt
three = record { bit_width = 8; val = 3 }

minus_two-IsMpInt : IsMpInt minus_two
minus_two-IsMpInt = record { pos = omega arith; small = omega arith; fits = omega arith }

three-IsMpInt : IsMpInt three
three-IsMpInt = record { pos = omega arith; small = omega arith; fits = omega arith }

sum_runs : MpInt.add minus_two three ≡ some (record { bit_width = 8; val = 1 })
unfolding MpInt.add
sum_runs = refl

-- A negative value loses its sign when it is extended.
sext_runs : MpInt.sext minus_two 16 ≡ some (record { bit_width = 16; val = 254 })
unfolding MpInt.sext
sext_runs = refl

-- A shift by the width gives zero and not minus one.
ashr_runs : MpInt.ashr minus_two 8 ≡ some (record { bit_width = 8; val = 0 })
unfolding MpInt.ashr
ashr_runs = refl

-- `<<=` leaves bits above the width.
shl_assign_runs : MpInt.shl_assign minus_two 4 ≡ some (record { bit_width = 8; val = 4064 })
unfolding MpInt.shl_assign
shl_assign_runs = refl

-- "-12" and "7F"
from_string_runs : from_string 8 (45 ∷ 49 ∷ 50 ∷ []) 10 ≡ some (record { bit_width = 8; val = 244 })
unfolding from_string
from_string_runs = refl

from_string_hex : from_string 8 (55 ∷ 70 ∷ []) 16 ≡ some (record { bit_width = 8; val = 127 })
unfolding from_string
from_string_hex = refl

-- "-2" and "0xFE"
to_string_runs : to_string minus_two 10 true false ≡ some (45 ∷ 50 ∷ [])
unfolding to_string
to_string_runs = refl

to_string_hex : to_string minus_two 16 false true ≡ some (48 ∷ 120 ∷ 70 ∷ 69 ∷ [])
unfolding to_string
to_string_hex = refl

splat_runs : splat 32 three ≡ some (record { bit_width = 32; val = 50529027 })
unfolding splat
splat_runs = refl

operators-modular_example :
    (MpInt.add minus_two three ≡ some (of_nat 8 (254 + 3)))
    × (MpInt.sub minus_two three ≡ some (of_nat 8 (254 + (2 ^ 8 - 3))))
    × (MpInt.mul minus_two three ≡ some (of_nat 8 (254 * 3)))
    × (MpInt.neg minus_two ≡ some (of_nat 8 (2 ^ 8 - 254)))
    × (MpInt.inc minus_two ≡ of_nat 8 (254 + 1))
    × (MpInt.dec minus_two ≡ of_nat 8 (254 + (2 ^ 8 - 1)))
    × (MpInt.flip_all_bits minus_two ≡ of_nat 8 (2 ^ 8 - 1 - 254))
operators-modular_example = operators-modular minus_two three minus_two-IsMpInt three-IsMpInt refl

-- "-7f" and "+7f"
from_string-horner_example :
    (from_string 8 (45 ∷ 55 ∷ 102 ∷ []) 16
      ≡ some (of_nat 8 (2 ^ 8 - horner 16 0 (7 ∷ 15 ∷ []) % 2 ^ 8)))
    × (from_string 8 (43 ∷ 55 ∷ 102 ∷ []) 16 ≡ some (of_nat 8 (horner 16 0 (7 ∷ 15 ∷ []))))
unfolding width_suffices
from_string-horner_example =
    from_string-horner 8 16 (55 ∷ 102 ∷ []) (7 ∷ 15 ∷ []) (inr (inr (inr refl))) (omega arith)
      (omega arith) (omega arith) refl
      (
        (omega arith, inl (omega arith, omega arith)),
        ((omega arith, inr (inr (omega arith, omega arith))), tt),
      )

sext-zext_example : MpInt.sext minus_two 16 ≡ MpInt.zext minus_two 16
sext-zext_example = sext-zext minus_two 16 minus_two-IsMpInt (omega arith) (omega arith)

shifts-modular_example :
    (MpInt.shl minus_two 3 ≡ some (of_nat 8 (254 * 2 ^ 3)))
    × (MpInt.lshr minus_two 3 ≡ some (of_nat 8 (254 / 2 ^ 3)))
    × (MpInt.ashr minus_two 3 ≡ some (record { bit_width = 8; val = arithmetic_shift 8 254 3 }))
shifts-modular_example = shifts-modular minus_two 3 minus_two-IsMpInt (omega arith)
