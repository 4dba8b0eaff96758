-- ===== src/BitcodeReader/TypeTable/Valid.antt =====
-- What the types are like that Src/BitcodeReader.cpp reads.
use dilithium.Base.{
  ℕ, zero, suc, ◌-◌, ◌^◌, ◌≤◌, ◌≡◌, ◌≢◌, arith, Bool, true, Option, some, List, [], ◌∷◌, get_elem?,
  All, map, subst,
}
use dilithium.Types
use dilithium.Types.{Ty, Types, no_types, and_type, FunctionTypes}
use dilithium.Types.Interned.{AreKeyed}
use dilithium.BitcodeReader.TypeTable.{
  parsed, TypeTable, TypeCode, type_code, num_entry_code, start_table,
}
use dilithium.BitcodeReader.TypeTable.Denotes.{
  Record, Denotes, DenoteAll, parse_type_records, no_records, name_record, a_void, a_half, a_float,
  a_double, a_label, a_metadata, an_integer, a_pointer, a_function, a_wrapped_function,
}
use dilithium.BitcodeReader.TypeTable.Denotes
use dilithium.BitcodeReader.TypeTable.Sound.{IsFrom}
use dilithium.BitcodeReader.TypeTable.Reading.{IsTypeRecord, parse_type_records-Denote}

-- What a pointer can point to: no void, label or metadata.
abbrev pub IsPointee : Ty → Type 0
IsPointee Types.void_ty = ⊥
IsPointee Types.label_ty = ⊥
IsPointee Types.metadata_ty = ⊥
IsPointee _ = Unit {0}

-- What a function can return: no function, label or metadata.
abbrev pub IsReturned : Ty → Type 0
IsReturned (Types.function_ty v r ps) = ⊥
IsReturned Types.label_ty = ⊥
IsReturned Types.metadata_ty = ⊥
IsReturned _ = Unit {0}

-- What a function can take: no function and no void.
abbrev pub IsTaken : Ty → Type 0
IsTaken (Types.function_ty v r ps) = ⊥
IsTaken Types.void_ty = ⊥
IsTaken _ = Unit {0}

abbrev pub AreTaken : Types → Type 0
AreTaken no_types = Unit {0}
AreTaken (and_type t ts) = IsTaken t × AreTaken ts

-- A type that the table can hold.
unfoldable pub IsValidType : Ty → Type 0
IsValidType Types.void_ty = Unit {0}
IsValidType Types.half_ty = Unit {0}
IsValidType Types.float_ty = Unit {0}
IsValidType Types.double_ty = Unit {0}
IsValidType Types.label_ty = Unit {0}
IsValidType Types.metadata_ty = Unit {0}
IsValidType (Types.integer_ty n) = (1 ≤ n) × (n ≤ 2 ^ 23 - 1) × (n ≢ 128)
IsValidType (Types.pointer_ty t a) = IsPointee t
IsValidType (Types.function_ty v r ps) = IsReturned r × AreTaken ps
IsValidType _ = ⊥

is_valid_pointee-IsPointee : (t : Ty) → Types.is_valid_pointee t ≡ true → IsPointee t
unfolding Types.is_valid_pointee Types.type_id
is_valid_pointee-IsPointee t h = ground (arith, h)

is_valid_return_type-IsReturned : (t : Ty) → Types.is_valid_return_type t ≡ true → IsReturned t
unfolding Types.is_valid_return_type Types.type_id
is_valid_return_type-IsReturned t h = ground (arith, h)

is_valid_argument_type-IsTaken : (t : Ty) → Types.is_valid_argument_type t ≡ true → IsTaken t
unfolding Types.is_valid_argument_type Types.type_id
is_valid_argument_type-IsTaken t h = ground (arith, h)

are_valid_arguments-AreTaken : (ts : Types) → Types.are_valid_arguments ts ≡ true → AreTaken ts
are_valid_arguments-AreTaken no_types h = tt
are_valid_arguments-AreTaken (and_type t ts) h = (
  is_valid_argument_type-IsTaken t (ground (arith, h)),
  are_valid_arguments-AreTaken ts (ground (arith, h)),
)

module _ (hash : Ty → Types → Bool → ℕ) where
  Denotes-IsValidType :
      {ts : List Ty} {c : TypeCode} {ops : List ℕ} {t : Ty}
      → Denotes (IsFrom hash) ts c ops t
      → IsValidType t
  unfolding IsValidType
  Denotes-IsValidType a_void = tt
  Denotes-IsValidType a_half = tt
  Denotes-IsValidType a_float = tt
  Denotes-IsValidType a_double = tt
  Denotes-IsValidType a_label = tt
  Denotes-IsValidType a_metadata = tt
  Denotes-IsValidType (an_integer low high other) = (low, high, other)
  Denotes-IsValidType (a_pointer {p} {ops} {t} at valid) = is_valid_pointee-IsPointee t valid
  Denotes-IsValidType (a_function at short args (v, (r, (ps, is, key, ret, valid)))) =
      rw is (is_valid_return_type-IsReturned r ret, are_valid_arguments-AreTaken ps valid)
  Denotes-IsValidType (a_wrapped_function at one_more args (v, (r, (ps, is, key, ret, valid)))) =
      rw is (is_valid_return_type-IsReturned r ret, are_valid_arguments-AreTaken ps valid)

  DenoteAll-IsValidType :
      {ts us : List Ty} {rs : List Record} → DenoteAll (IsFrom hash) ts rs us → All IsValidType us
  DenoteAll-IsValidType no_records = tt
  DenoteAll-IsValidType (name_record c ds) = DenoteAll-IsValidType ds
  DenoteAll-IsValidType (Denotes.type_record d ds) =
      (Denotes-IsValidType d, DenoteAll-IsValidType ds)

  get_elem?-map :
      (us : List Ty) (i : ℕ) (found : Option Ty)
      → All IsValidType us
      → get_elem? (map some us) i ≡ some found
      → (t : Ty) × (found ≡ some t) × IsValidType t
  get_elem?-map [] i found valid e = absurd (ground (arith, e))
  get_elem?-map (u ∷ us) zero found valid e = (u, ground (arith, e), valid.0)
  get_elem?-map (u ∷ us) (suc i) found valid e = get_elem?-map us i found valid.1 e

  -- Of a type table whose first record gives the number of its types, and no other does, every entry
  -- that the reader gets is a type, no null pointer, and one that keeps the rules of its class: an
  -- integer has 1 to 2 ^ 23 - 1 bits and not 128, a pointer points to no void, label or metadata, and
  -- a function returns no function, label or metadata and takes no function and no void.
  pub parse_type_records-IsValidType :
      (code n i : ℕ) (ops : List ℕ) (rs : List Record) (fs : FunctionTypes) (table : TypeTable)
      (found : Option Ty)
      → type_code code ≡ num_entry_code
      → All IsTypeRecord rs
      → AreKeyed hash fs
      → parse_type_records hash ((code, n ∷ ops) ∷ rs) (start_table [] fs) ≡ parsed table
      → get_elem? table.type_list i ≡ some found
      → (t : Ty) × (found ≡ some t) × IsValidType t
  parse_type_records-IsValidType code n i ops rs fs table found first types keyed e at =
      let (us, d, len, is) =
        parse_type_records-Denote hash code n ops rs fs table first types keyed e in
      get_elem?-map us i found (DenoteAll-IsValidType d)
        (subst (λ z. get_elem? z i ≡ some found) is at)
