-- ===== src/DataLayout/Words.antt =====
-- Split, ToInt and InBytes of Src/DataLayout.cpp. A text is the list of its bytes.
use dilithium.Base.{ℕ, ◌+◌, ◌-◌, ◌*◌, ◌/◌, ◌%◌, ◌^◌}
use dilithium.Base.{
  Bool, true, false, ◌&&◌, ◌||◌, if◌then◌else◌, ltb, leb, ◌==◌, Option, none, some, List, [], ◌∷◌,
}
use dilithium.DataLayout.{
  Result, ok, error, fault, trailing_separator, missing_token, not_byte_multiple, invalid_argument,
  out_of_range,
}

abbrev pub is_empty : List ℕ → Bool
is_empty [] = true
is_empty (c ∷ cs) = false

-- The texts before and behind the first separator, if there is one.
unfoldable pub cut : ℕ → List ℕ → Option (List ℕ × List ℕ)
cut separator [] = none
cut separator (c ∷ cs) = elim (c == separator) [
  | true ↦ some ([], cs)
  | false ↦ elim (cut separator cs) [ none ↦ none | some (a, b) ↦ some (c ∷ a, b) ]
]

-- Split; a first text before a separator is not the whole text.
unfoldable pub split : ℕ → List ℕ → Result (List ℕ × List ℕ)
unfolding cut
split separator [] = fault
split separator (c ∷ cs) = elim (cut separator (c ∷ cs)) [
  | none ↦ ok (c ∷ cs, [])
  | some (a, b) ↦
      if is_empty b
      then error trailing_separator
      else if is_empty a
      then error missing_token
      else ok (a, b)
]

abbrev pub is_space : ℕ → Bool
is_space c = c == 32 || leb 9 c && leb c 13

abbrev pub is_decimal : ℕ → Bool
is_decimal c = leb 48 c && leb c 57

unfoldable pub skip_space : List ℕ → List ℕ
skip_space [] = []
skip_space (c ∷ cs) = elim (is_space c) [ true ↦ skip_space cs | false ↦ c ∷ cs ]

-- The value of the decimal digits that a text starts with.
unfoldable pub leading_digits : ℕ → List ℕ → ℕ
leading_digits acc [] = acc
leading_digits acc (c ∷ cs) = elim (is_decimal c) [
  | true ↦ leading_digits (acc * 10 + (c - 48)) cs
  | false ↦ acc
]

unfoldable pub starts_with_digit : List ℕ → Bool
starts_with_digit [] = false
starts_with_digit (c ∷ cs) = is_decimal c

unfoldable pub read_positive : List ℕ → Result ℕ
unfolding starts_with_digit leading_digits
read_positive cs =
    if starts_with_digit cs
    then (let v = leading_digits 0 cs in if ltb v (2 ^ 31) then ok v else error out_of_range)
    else error invalid_argument

unfoldable pub read_negative : List ℕ → Result ℕ
unfolding starts_with_digit leading_digits
read_negative cs =
    if starts_with_digit cs
    then (let v = leading_digits 0 cs in
        if leb v (2 ^ 31) then ok ((2 ^ 32 - v) % 2 ^ 32) else error out_of_range)
    else error invalid_argument

-- After spaces, a sign: '-' is 45 and '+' is 43.
unfoldable pub read_signed : List ℕ → Result ℕ
unfolding read_positive read_negative
read_signed [] = error invalid_argument
read_signed (c ∷ cs) =
    if c == 45
    then read_negative cs
    else if c == 43
    then read_positive cs
    else read_positive (c ∷ cs)

-- ToInt: std::stoi, and the conversion of its int to a uint32_t.
unfoldable pub to_int : List ℕ → Result ℕ
unfolding skip_space read_signed
to_int cs = read_signed (skip_space cs)

unfoldable pub in_bytes : ℕ → Result ℕ
in_bytes bits = if bits % 8 == 0 then ok (bits / 8) else error not_byte_multiple
