-- ===== src/BitcodeReader/TypeTable/Denotes.antt =====
-- What the records of a type table of Src/BitcodeReader.cpp stand for, by rules.
use dilithium.Base.{
  ℕ, ◌-◌, ◌<◌, take, ◌%◌, ◌^◌, ◌≤◌, ◌≡◌, ◌≢◌, Bool, true, not, ◌==◌, Option, none, some, List, [],
  ◌∷◌, ◌++◌, length, get_elem?, replicate, map,
}
use dilithium.Types
use dilithium.Types.{Ty, Types, no_types, and_type, FunctionTypes}
use dilithium.BitcodeReader.TypeTable.Parse.{add_type_record}
use dilithium.BitcodeReader.TypeTable.{
  Parsed, parsed, ◌>>=◌, TypeTable, TypeCode, address_space_operand, end_types, type_code,
  void_code, half_code, float_code, double_code, label_code, metadata_code, integer_code,
  pointer_code, function_code, struct_name_code,
}

-- A code and its operands.
abbrev pub Record : Type 0
Record = ℕ × List ℕ

-- The types that operands name, each one that an argument can have.
pub data AreArguments (ts : List Ty) : List ℕ → Types → Type 0 where
  no_arguments : AreArguments ts [] no_types
  argument :
      {p : ℕ} {ps : List ℕ} {t : Ty} {us : Types}
      → get_elem? ts (p % 2 ^ 32) ≡ some t
      → Types.is_valid_argument_type t ≡ true
      → AreArguments ts ps us
      → AreArguments ts (p ∷ ps) (and_type t us)

-- `Is r us v t` tells what the function type `t` is that the context gives for its parts, and `ts` the
-- types that were read before.
module _ (Is : Ty → Types → Bool → Ty → Type 0) where
  pub data Denotes (ts : List Ty) : TypeCode → List ℕ → Ty → Type 0 where
    a_void : {ops : List ℕ} → Denotes ts void_code ops Types.void_ty
    a_half : {ops : List ℕ} → Denotes ts half_code ops Types.half_ty
    a_float : {ops : List ℕ} → Denotes ts float_code ops Types.float_ty
    a_double : {ops : List ℕ} → Denotes ts double_code ops Types.double_ty
    a_label : {ops : List ℕ} → Denotes ts label_code ops Types.label_ty
    a_metadata : {ops : List ℕ} → Denotes ts metadata_code ops Types.metadata_ty
    an_integer :
        {n : ℕ} {ops : List ℕ}
        → 1 ≤ n
        → n ≤ Types.max_int_bits
        → n ≢ 128
        → Denotes ts integer_code (n ∷ ops) (Types.integer_ty n)
    a_pointer :
        {p : ℕ} {ops : List ℕ} {t : Ty}
        → get_elem? ts (p % 2 ^ 32) ≡ some t
        → Types.is_valid_pointee t ≡ true
        → Denotes ts pointer_code (p ∷ ops) (Types.pointer_ty t (address_space_operand ops))
    a_function :
        {v r : ℕ} {ps : List ℕ} {t f : Ty} {us : Types}
        → get_elem? ts (r % 2 ^ 32) ≡ some t
        → length ps < 2 ^ 32 - 1
        → AreArguments ts ps us
        → Is t us (not (v == 0)) f
        → Denotes ts function_code (v ∷ r ∷ ps) f
    -- With 2 ^ 32 + 1 operands the counter of the loop comes back to the first for the last.
    a_wrapped_function :
        {v r : ℕ} {ps : List ℕ} {t f : Ty} {us : Types}
        → get_elem? ts (r % 2 ^ 32) ≡ some t
        → length ps ≡ 2 ^ 32 - 1
        → AreArguments ts (take (2 ^ 32 - 2) ps ++ (v ∷ [])) us
        → Is t us (not (v == 0)) f
        → Denotes ts function_code (v ∷ r ∷ ps) f

  -- Records one after another, with the names of structs between them, after the types `ts`.
  pub data DenoteAll : List Ty → List Record → List Ty → Type 0 where
    no_records : {ts : List Ty} → DenoteAll ts [] []
    name_record :
        {ts us : List Ty} {code : ℕ} {ops : List ℕ} {rs : List Record}
        → type_code code ≡ struct_name_code
        → DenoteAll ts rs us
        → DenoteAll ts ((code, ops) ∷ rs) us
    type_record :
        {ts us : List Ty} {t : Ty} {code : ℕ} {ops : List ℕ} {rs : List Record}
        → Denotes ts (type_code code) ops t
        → DenoteAll (ts ++ (t ∷ [])) rs us
        → DenoteAll ts ((code, ops) ∷ rs) (t ∷ us)

-- The list of the reader when `ts` are read and `k` places are free.
unfoldable pub filled : List Ty → ℕ → List (Option Ty)
filled ts k = map some ts ++ replicate k none

abbrev pub table_of : List Ty → ℕ → List ℕ → FunctionTypes → TypeTable
table_of ts k name fs = record {
  type_list = filled ts k;
  num_records = length ts % 2 ^ 32;
  type_name = name;
  function_types = fs;
}

-- The loop of ParseTypeTableBody on the records of the block.
unfoldable pub add_type_records :
    (Ty → Types → Bool → ℕ) → List Record → TypeTable → Parsed TypeTable
add_type_records hash [] table = parsed table
add_type_records hash ((code, ops) ∷ rs) table =
    add_type_record hash code ops table >>= λ t. add_type_records hash rs t

unfoldable pub parse_type_records :
    (Ty → Types → Bool → ℕ) → List Record → TypeTable → Parsed TypeTable
unfolding add_type_records
parse_type_records hash rs table = add_type_records hash rs table >>= end_types
