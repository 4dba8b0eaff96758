-- ===== src/BitcodeReader/TypeTable.antt =====
-- Src/BitcodeReader.cpp: ParseTypeTable and what it uses.
pub mod Parse
pub mod Visited
pub mod Gives
pub mod Denotes
pub mod Lookups
pub mod Sound
pub mod Entering
pub mod Reading
pub mod Complete
pub mod Supplied
pub mod Read
pub mod Valid
mod Tests
use dilithium.Base.{
  ℕ, zero, suc, ◌+◌, ◌-◌, ◌%◌, ◌^◌, Bool, true, false, not, ◌||◌, if◌then◌else◌, ltb, leb, ◌==◌,
}
use dilithium.Base.{
  Option, none, some, List, [], ◌∷◌, ◌++◌, length, get_elem?, set, take, drop, replicate, map,
}
use dilithium.Types
use dilithium.Types.{Ty, Types, no_types, and_type, FunctionTypes}
use dilithium.Cursor.State.{Fault, unreachable, undefined, exhausted, Outcome, ok, fail, Cursor}
use dilithium.Cursor.Record.{read_record}
use dilithium.Cursor.Block.{enter_sub_block}
use dilithium.Cursor.Entry.{error, end_block, sub_block, an_record, advance_skipping_subblocks}

-- The messages of Error, which throws CorruptedBitcode.
pub data Message : Type 0 where
  invalid_record invalid_multiple_blocks malformed_block bit_width_out_of_range : Message
  invalid_type invalid_function_argument_type invalid_type_table : Message
  invalid_vector_length only_named_structs_can_be_forward_referenced invalid_value : Message

-- How a method of the reader ends: a result, Error, or a fault of the code that it calls.
pub data Parsed {ℓ} (A : Type ℓ) : Type ℓ where
  parsed : A → Parsed A
  corrupted : Message → Parsed A
  faulty : Fault → Parsed A

infixl 5 ◌>>=◌ ◌>>◌
abbrev pub ◌>>=◌ {ℓ κ} : {A : Type ℓ} {B : Type κ} → Parsed A → (A → Parsed B) → Parsed B
parsed a >>= f = f a
corrupted e >>= f = corrupted e
faulty e >>= f = faulty e

abbrev pub ◌>>◌ {κ} : {B : Type κ} → Parsed (Unit {0}) → Parsed B → Parsed B
m >> n = m >>= λ _. n

-- if (b) Error(message)
abbrev pub corrupted_if : Bool → Message → Parsed (Unit {0})
corrupted_if b message = if b then corrupted message else parsed tt

abbrev pub from_outcome {ℓ} : {A : Type ℓ} → Outcome A → Parsed A
from_outcome (ok a) = parsed a
from_outcome (fail e) = faulty e

-- BitCode::BlockId::Type
abbrev pub type_block_id : ℕ
type_block_id = 17

-- BitCode::TypeCode
pub data TypeCode : Type 0 where
  num_entry_code void_code float_code double_code label_code opaque_code integer_code : TypeCode
  pointer_code function_old_code half_code array_code vector_code x86_fp80_code : TypeCode
  fp128_code ppc_fp128_code metadata_code x86_mmx_code struct_anon_code : TypeCode
  struct_name_code struct_named_code function_code unknown_code : TypeCode

abbrev type_codes : List TypeCode
type_codes =
    unknown_code ∷ num_entry_code ∷ void_code ∷ float_code ∷ double_code ∷ label_code ∷ opaque_code
    ∷ integer_code ∷ pointer_code ∷ function_old_code ∷ half_code ∷ array_code ∷ vector_code
    ∷ x86_fp80_code ∷ fp128_code ∷ ppc_fp128_code ∷ metadata_code ∷ x86_mmx_code ∷ struct_anon_code
    ∷ struct_name_code ∷ struct_named_code ∷ function_code ∷ []

-- The case of the switch that a code goes to.
unfoldable pub type_code : ℕ → TypeCode
type_code code = elim (get_elem? type_codes code) [ none ↦ unknown_code | some c ↦ c ]

-- The operands that a loop over a record goes through, whose counter starts at `idx` and goes up in 32
-- bits to the number of operands in 32 bits.
unfoldable pub visited : ℕ → List ℕ → List ℕ
visited idx operands =
    take ((length operands - idx) % 2 ^ 32) (drop idx (take (2 ^ 32) operands) ++ operands)

-- ConvertToString; `none` is `true`, an error.
unfoldable pub convert_to_string : List ℕ → ℕ → List ℕ → Option (List ℕ)
unfolding visited
convert_to_string operands idx result =
    if ltb (length operands) idx
    then none
    else some (result ++ map (λ v. v % 2 ^ 8) (visited idx operands))

-- `type_list_`, whose null pointers are `none`, the local variables of ParseTypeTableBody, and the
-- function types of the context.
pub record TypeTable : Type 0 where
  pub type_list : List (Option Ty)
  pub num_records : ℕ
  pub type_name : List ℕ
  pub function_types : FunctionTypes

-- Before the first record.
abbrev pub start_table : List (Option Ty) → FunctionTypes → TypeTable
start_table type_list fs = record {
  type_list = type_list;
  num_records = 0;
  type_name = [];
  function_types = fs;
}

-- std::vector::resize
unfoldable pub resize : ℕ → List (Option Ty) → List (Option Ty)
resize n list = take n list ++ replicate (n - length list) none

-- TypeByID on a uint32_t; `none` is nullptr. A null pointer of the list is to become a struct.
unfoldable pub type_by_id : List (Option Ty) → ℕ → Parsed (Option Ty)
type_by_id list id = elim (get_elem? list (id % 2 ^ 32)) [
  | none ↦ parsed none
  | some none ↦ from_outcome Types.struct_create >>= λ t. parsed (some t)
  | some (some t) ↦ parsed (some t)
]

-- The loops over the operands of a function and of a struct, up to the first that is no type.
unfoldable pub add_argument : Option Ty → Parsed Types → Parsed Types
add_argument none rest = parsed no_types
add_argument (some t) rest = elim (Types.is_valid_argument_type t) [
  | false ↦ corrupted invalid_function_argument_type
  | true ↦ rest >>= λ ts. parsed (and_type t ts)
]

unfoldable pub argument_types : List (Option Ty) → List ℕ → Parsed Types
unfolding type_by_id add_argument
argument_types list [] = parsed no_types
argument_types list (operand ∷ operands) =
    let rest = argument_types list operands in type_by_id list operand >>= λ t. add_argument t rest

abbrev add_element : Option Ty → Parsed Types → Parsed Types
add_element none rest = parsed no_types
add_element (some t) rest = rest >>= λ ts. parsed (and_type t ts)

unfoldable pub element_types : List (Option Ty) → List ℕ → Parsed Types
unfolding type_by_id
element_types list [] = parsed no_types
element_types list (operand ∷ operands) =
    let rest = element_types list operands in type_by_id list operand >>= λ t. add_element t rest

abbrev pub num_types : Types → ℕ
num_types no_types = 0
num_types (and_type t ts) = suc (num_types ts)

-- `!result_ty`
abbrev pub or_invalid_type : Option Ty → Parsed Ty
or_invalid_type none = corrupted invalid_type
or_invalid_type (some t) = parsed t

-- What the switch leads to: `continue` with a table, or the type that is read and the function types.
pub data Switched : Type 0 where
  continued : TypeTable → Switched
  has_read : Ty → FunctionTypes → Switched

unfoldable pub integer_record : ℕ → Parsed Ty
integer_record num_bits = do
  corrupted_if (ltb num_bits Types.min_int_bits || ltb Types.max_int_bits num_bits)
      bit_width_out_of_range
  from_outcome (Types.integer_get (num_bits % 2 ^ 32))

abbrev pub address_space_operand : List ℕ → ℕ
address_space_operand (addr_space ∷ []) = addr_space % 2 ^ 32
address_space_operand _ = 0

unfoldable pub pointer_record : List (Option Ty) → ℕ → List ℕ → Parsed Ty
unfolding type_by_id
pointer_record list pointee operands = do
  found ← type_by_id list pointee
  t ← or_invalid_type found
  corrupted_if (not (Types.is_valid_pointee t)) invalid_type
  from_outcome (Types.pointer_get t (address_space_operand operands))

-- What follows the switch. The count of the records has 32 bits.
unfoldable pub enter_type : Switched → TypeTable → Parsed TypeTable
enter_type (continued table') table = parsed table'
enter_type (has_read t fs) table = do
  corrupted_if (leb (length table.type_list) table.num_records) invalid_type_table
  elim (get_elem? table.type_list table.num_records) [
    | some (some _) ↦ corrupted only_named_structs_can_be_forward_referenced
    | _ ↦ parsed (record table {
      type_list = set table.type_list table.num_records (some t);
      num_records = suc table.num_records % 2 ^ 32;
      function_types = fs;
    })
  ]

-- The end of the block.
unfoldable pub end_types : TypeTable → Parsed TypeTable
end_types table = do
  corrupted_if (not (table.num_records == length table.type_list)) malformed_block
  parsed table

unfoldable pub struct_record : List (Option Ty) → ℕ → List ℕ → Parsed Ty
unfolding element_types visited
struct_record list is_packed elements = do
  elt_tys ← element_types list (visited 1 (is_packed ∷ elements))
  corrupted_if (not (num_types elt_tys == length elements)) invalid_type
  from_outcome (Types.struct_get (not (is_packed == 0)) elt_tys)

-- StructNamed and Opaque
unfoldable pub named_struct_record : TypeTable → Parsed Ty
named_struct_record table = do
  corrupted_if (leb (length table.type_list) table.num_records) invalid_type_table
  faulty unreachable

-- ArrayType::IsValidElementType and StructType::IsValidElementType are not implemented.
unfoldable pub array_record : List (Option Ty) → ℕ → Parsed Ty
unfolding type_by_id
array_record list element = do
  found ← type_by_id list element
  t ← or_invalid_type found
  faulty unreachable

unfoldable pub vector_record : List (Option Ty) → ℕ → ℕ → Parsed Ty
unfolding type_by_id
vector_record list num_elements element = do
  corrupted_if (num_elements == 0) invalid_vector_length
  found ← type_by_id list element
  t ← or_invalid_type found
  faulty unreachable
