-- ===== src/MpInt/Text.antt =====
-- FromString and ToString of Src/MPInt.cpp. A text is the list of its bytes; `none` is an assertion
-- that fails.
use dilithium.Base.{ℕ, zero, suc, ◌+◌, ◌-◌, ◌*◌, ◌/◌, ◌%◌, ◌^◌}
use dilithium.Base.{
  Bool, true, false, not, ◌&&◌, ◌||◌, if◌then◌else◌, ltb, leb, ◌==◌, Option, none, some,
}
use dilithium.Base.{List, [], ◌∷◌, ◌++◌, length}
use dilithium.MpInt.{MpInt, make, dec, flip_all_bits, shl_assign, sext_value}
use dilithium.MpInt.Updates.{add_assign, mul_assign}

-- A `char` is signed; it is widened to 32 bits.
abbrev pub char_bits : ℕ → ℕ
char_bits c = if ltb c 128 then c else c + 2 ^ 32 - 256

-- c_digit - c, as a uint32_t
abbrev pub char_minus : ℕ → ℕ → ℕ
char_minus c_digit c = (char_bits c_digit + 2 ^ 32 - c) % 2 ^ 32

abbrev pub decimal_digit : ℕ → ℕ → ℕ
decimal_digit c_digit radix = let r = char_minus c_digit 48 in if ltb r radix then r else 2 ^ 32 - 1

-- Digit: '0', 'A' and 'a' are 48, 65 and 97.
unfoldable pub digit : ℕ → ℕ → ℕ
digit c_digit radix =
    if radix == 16
    then (if leb (char_minus c_digit 48) 9
        then char_minus c_digit 48
        else if leb (char_minus c_digit 65) 5
        then char_minus c_digit 65 + 10
        else if leb (char_minus c_digit 97) 5
        then char_minus c_digit 97 + 10
        else decimal_digit c_digit 10)
    else decimal_digit c_digit radix

unfoldable pub is_radix : ℕ → Bool
is_radix radix = radix == 2 || radix == 8 || radix == 10 || radix == 16

-- The four assertions on the length, for a text with a digit.
unfoldable pub width_suffices : ℕ → ℕ → ℕ → Bool
width_suffices num_bits slen radix =
    (leb slen num_bits || not (radix == 2))
    && (leb ((slen - 1) * 3) num_bits || not (radix == 8))
    && (leb ((slen - 1) * 4) num_bits || not (radix == 16))
    && (leb ((slen - 1) * 64 / 22) num_bits || not (radix == 10))

unfoldable pub radix_shift : ℕ → ℕ
radix_shift radix = if radix == 16 then 4 else if radix == 8 then 3 else if radix == 2 then 1 else 0

-- The step to the next digit, for a text of more than one digit.
unfoldable pub next_place : ℕ → MpInt → Option MpInt
unfolding radix_shift make shl_assign mul_assign
next_place radix a =
    if radix_shift radix == 0
    then (elim (make a.bit_width radix) [ none ↦ none | some mp_radix ↦ mul_assign a mp_radix ])
    else shl_assign a (radix_shift radix)

-- The loop of FromString.
unfoldable pub read_digits : ℕ → ℕ → List ℕ → MpInt → Option MpInt
unfolding digit next_place add_assign
read_digits radix slen [] a = some a
read_digits radix slen (c ∷ cs) a =
    if ltb (digit c radix) radix
    then elim (if ltb 1 slen then next_place radix a else some a) [
      | none ↦ none
      | some a' ↦ elim (add_assign a' (record { bit_width = a.bit_width; val = digit c radix })) [
        | none ↦ none
        | some a'' ↦ read_digits radix slen cs a''
      ]
    ]
    else none

abbrev pub from_digits : ℕ → ℕ → List ℕ → Option MpInt
from_digits num_bits radix cs =
    if length cs == 0
      || not (width_suffices num_bits (length cs) radix)
      || num_bits == 0
      || ltb 64 num_bits
    then none
    else read_digits radix (length cs) cs (record { bit_width = num_bits; val = 0 })

-- FromString, and the constructor that calls it; '-' is 45 and '+' is 43.
unfoldable pub from_string : ℕ → List ℕ → ℕ → Option MpInt
unfolding is_radix width_suffices read_digits dec flip_all_bits
from_string num_bits [] radix = none
from_string num_bits (c ∷ cs) radix =
    if not (is_radix radix)
    then none
    else if c == 45
    then (elim (from_digits num_bits radix cs) [
      | none ↦ none
      | some a ↦ some (flip_all_bits (dec a))
    ])
    else if c == 43
    then from_digits num_bits radix cs
    else from_digits num_bits radix (c ∷ cs)

-- The entry of the table "0123456789ABCDEF".
abbrev pub digit_char : ℕ → ℕ
digit_char d = if ltb d 10 then d + 48 else d + 55

-- The loop of ToString, which fills its buffer from the end.
unfoldable pub write_digits : ℕ → ℕ → ℕ → List ℕ → Option (List ℕ)
write_digits zero radix n buff = none
write_digits (suc fuel) radix n buff =
    if n == 0
    then some buff
    else write_digits fuel radix (n / radix) (digit_char (n % radix) ∷ buff)

unfoldable pub literal_prefix : Bool → ℕ → List ℕ
literal_prefix false radix = []
literal_prefix true radix =
    if radix == 2
    then 48 ∷ 98 ∷ []
    else if radix == 8
    then 48 ∷ []
    else if radix == 16
    then 48 ∷ 120 ∷ []
    else []

-- ToString, for an empty `str`; 64 digits are the most that a value has.
unfoldable pub to_string : MpInt → ℕ → Bool → Bool → Option (List ℕ)
unfolding is_radix write_digits literal_prefix sext_value
to_string a radix is_signed format_as_c_literal =
    if not (is_radix radix)
    then none
    else if a.val == 0
    then some (literal_prefix format_as_c_literal radix ++ 48 ∷ [])
    else if is_signed && leb (2 ^ 63) (sext_value a)
    then (elim (write_digits 65 radix (2 ^ 64 - sext_value a) []) [
      | none ↦ none
      | some ds ↦ some (45 ∷ literal_prefix format_as_c_literal radix ++ ds)
    ])
    else (elim (write_digits 65 radix (if is_signed then sext_value a else a.val) []) [
      | none ↦ none
      | some ds ↦ some (literal_prefix format_as_c_literal radix ++ ds)
    ])
