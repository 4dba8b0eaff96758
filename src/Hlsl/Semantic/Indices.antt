-- ===== src/Hlsl/Semantic/Indices.antt =====
-- Names of semantics with an index, in Src/HLSL/DxilSemantic.cpp.
use dilithium.Base.{
  ℕ, zero, suc, ◌+◌, ◌-◌, ◌*◌, ◌%◌, ◌^◌, ◌<◌, ◌≤◌, ◌≡◌, refl, sym, ap, ◌∙◌, arith, true, false,
  if◌then◌else◌, ltb, Option, none, some, List, [], ◌∷◌, ◌++◌, length, get_elem?, take, drop, All,
  map, ◌⊎◌, length-append,
}
use dilithium.Hlsl.Semantic.{
  is_decimal_digit, ends_in_digit, name_end, digits_value, atoi, decompose_name_and_index,
}

-- The number that bytes stand for, each one taken for a decimal digit.
abbrev bytes_value : ℕ → List ℕ → ℕ
bytes_value acc [] = acc
bytes_value acc (c ∷ cs) = bytes_value (acc * 10 + (c - b'0')) cs

-- The number of decimal digits, and the bytes that they are written in.
abbrev pub decimal_value : ℕ → List ℕ → ℕ
decimal_value acc [] = acc
decimal_value acc (d ∷ ds) = decimal_value (acc * 10 + d) ds

abbrev pub written : List ℕ → List ℕ
written ds = map (λ d. b'0' + d) ds

abbrev pub IsNoDigit : Option ℕ → Type 0
IsNoDigit none = Unit
IsNoDigit (some c) = (c < b'0') ⊎ (b'9' < c)

abbrev pub first_byte : List ℕ → Option ℕ
first_byte [] = none
first_byte (c ∷ cs) = some c

abbrev pub last_byte : List ℕ → Option ℕ
last_byte name = get_elem? name (length name - 1)

abbrev pub AreDecimal : List ℕ → Type 0
AreDecimal ds = All (λ d. is_decimal_digit d ≡ true) ds

digits_value-bytes_value :
    (acc : ℕ) (ds behind : List ℕ)
    → AreDecimal ds
    → ends_in_digit (first_byte behind) ≡ false
    → digits_value acc (ds ++ behind) ≡ bytes_value acc ds
unfolding digits_value
digits_value-bytes_value acc [] [] are stop = refl
digits_value-bytes_value acc [] (b ∷ behind) are stop = rw (digits_value, stop) refl
digits_value-bytes_value acc (d ∷ ds) behind are stop =
    rw (digits_value, are.0) (digits_value-bytes_value (acc * 10 + (d - b'0')) ds behind are.1 stop)

get_elem?-behind :
    (name ds : List ℕ) (i : ℕ) → get_elem? (name ++ ds) (length name + i) ≡ get_elem? ds i
get_elem?-behind [] ds i = ap (get_elem? ds) (omega arith)
get_elem?-behind (c ∷ name) ds i =
    let shift : suc (length name) + i ≡ suc (length name + i) = omega arith in
    ap (get_elem? (c ∷ (name ++ ds))) shift ∙ get_elem?-behind name ds i

get_elem?-before :
    (name ds : List ℕ) (i : ℕ) → i < length name → get_elem? (name ++ ds) i ≡ get_elem? name i
get_elem?-before [] ds i h = absurd (omega arith)
get_elem?-before (c ∷ name) ds zero h = refl
get_elem?-before (c ∷ name) ds (suc i) h = get_elem?-before name ds i (omega arith)

AreDecimal-get_elem? :
    (ds : List ℕ) (i : ℕ) → AreDecimal ds → i < length ds → ends_in_digit (get_elem? ds i) ≡ true
AreDecimal-get_elem? [] i are h = absurd (omega arith)
AreDecimal-get_elem? (d ∷ ds) zero are h = are.0
AreDecimal-get_elem? (d ∷ ds) (suc i) are h = AreDecimal-get_elem? ds i are.1 (omega arith)

name_end-digit :
    (full_name : List ℕ) (i : ℕ)
    → ends_in_digit (get_elem? full_name i) ≡ true
    → name_end full_name (suc i) ≡ name_end full_name i
unfolding name_end
name_end-digit full_name i e = rw (name_end, e) refl

name_end-other :
    (full_name : List ℕ) (i : ℕ)
    → ends_in_digit (get_elem? full_name i) ≡ false
    → name_end full_name (suc i) ≡ suc i
unfolding name_end
name_end-other full_name i e = rw (name_end, e) refl

-- The end of the name among digits, and at a byte that is none.
name_end-digits :
    (name ds : List ℕ) (n : ℕ)
    → AreDecimal ds
    → n ≤ length ds
    → name_end (name ++ ds) (length name + n) ≡ name_end (name ++ ds) (length name)
unfolding name_end
name_end-digits name ds zero are le = ap (name_end (name ++ ds)) (omega arith)
name_end-digits name ds (suc n) are le =
    let shift : length name + suc n ≡ suc (length name + n) = omega arith in
    let digit : ends_in_digit (get_elem? (name ++ ds) (length name + n)) ≡ true =
      ap ends_in_digit (get_elem?-behind name ds n)
      ∙ AreDecimal-get_elem? ds n are (omega (arith, le)) in
    ap (name_end (name ++ ds)) shift
    ∙ name_end-digit (name ++ ds) (length name + n) digit
    ∙ name_end-digits name ds n are (omega (arith, le))

name_end-name :
    (name ds : List ℕ)
    → ends_in_digit (last_byte name) ≡ false
    → name_end (name ++ ds) (length name) ≡ length name
unfolding name_end
name_end-name [] ds last = refl
name_end-name (c ∷ cs) ds last =
    let at : suc (length cs) - 1 ≡ length cs = omega arith in
    name_end-other (c ∷ (cs ++ ds)) (length cs) (
      ap ends_in_digit
        (get_elem?-before (c ∷ cs) ds (length cs) (omega arith) ∙ ap (get_elem? (c ∷ cs)) (sym at))
      ∙ last)

take-name : (name ds : List ℕ) → take (length name) (name ++ ds) ≡ name
take-name [] ds = refl
take-name (c ∷ cs) ds = ap (λ z. c ∷ z) (take-name cs ds)

drop-name : (name ds : List ℕ) → drop (length name) (name ++ ds) ≡ ds
drop-name [] ds = refl
drop-name (c ∷ cs) ds = drop-name cs ds

atoi-bytes_value :
    (ds behind : List ℕ)
    → AreDecimal ds
    → ends_in_digit (first_byte behind) ≡ false
    → bytes_value 0 ds < 2 ^ 31
    → atoi (ds ++ behind) ≡ some (bytes_value 0 ds)
unfolding atoi
atoi-bytes_value ds behind are stop small =
    rw (atoi, digits_value-bytes_value 0 ds behind are stop) (ground (arith, small))

index_of :
    (name ds behind : List ℕ)
    → AreDecimal ds
    → ends_in_digit (first_byte behind) ≡ false
    → bytes_value 0 ds < 2 ^ 31
    → (if ltb (length name) (length (name ++ ds)) then atoi (ds ++ behind) else some 0)
      ≡ some (bytes_value 0 ds)
index_of name [] behind are stop small = ground (arith, length-append name [])
index_of name (d ∷ ds) behind are stop small =
    ground (arith, length-append name (d ∷ ds), atoi-bytes_value (d ∷ ds) behind are stop small)

IsNoDigit-other : (o : Option ℕ) → IsNoDigit o → ends_in_digit o ≡ false
IsNoDigit-other none is = refl
IsNoDigit-other (some c) is = ground (arith, is)

written-AreDecimal : (ds : List ℕ) → All (λ d. d < 10) ds → AreDecimal (written ds)
written-AreDecimal [] are = tt
written-AreDecimal (d ∷ ds) (is, are) = (ground (arith, is), written-AreDecimal ds are)

bytes_value-written : (acc : ℕ) (ds : List ℕ) → bytes_value acc (written ds) ≡ decimal_value acc ds
bytes_value-written acc [] = refl
bytes_value-written acc (d ∷ ds) =
    let plain : b'0' + d - b'0' ≡ d = omega arith in
    ap (λ z. bytes_value (acc * 10 + z) (written ds)) plain ∙ bytes_value-written (acc * 10 + d) ds

-- A text of less than 2 ^ 32 bytes, of a name that is empty or does not end in a digit and behind it
-- decimal digits of a number of less than 2 ^ 31, is taken apart into the name and the number, or 0
-- where there are no digits; if no digit follows the text in the memory, where the number is read on.
pub decompose_name_and_index-decimal_value :
    (name ds behind : List ℕ)
    → length (name ++ written ds) < 2 ^ 32
    → IsNoDigit (last_byte name)
    → All (λ d. d < 10) ds
    → IsNoDigit (first_byte behind)
    → decimal_value 0 ds < 2 ^ 31
    → decompose_name_and_index (name ++ written ds) behind ≡ (name, some (decimal_value 0 ds))
unfolding decompose_name_and_index atoi
decompose_name_and_index-decimal_value name ds behind short last are stop small =
    let text = written ds in
    let dec = written-AreDecimal ds are in
    let whole : length (name ++ text) % 2 ^ 32 ≡ length (name ++ text) = omega arith in
    let end : name_end (name ++ text) (length (name ++ text)) ≡ length name =
      ap (name_end (name ++ text)) (length-append name text)
      ∙ name_end-digits name text (length text) dec (omega arith)
      ∙ name_end-name name text (IsNoDigit-other (last_byte name) last) in
    rw (decompose_name_and_index, whole, end, take-name name text, drop-name name text)
      (ap (λ z. (name, z))
        (index_of name text behind dec (IsNoDigit-other (first_byte behind) stop)
            (omega (arith, bytes_value-written 0 ds, small))
          ∙ ap some (bytes_value-written 0 ds)))
