-- ===== src/Types.antt =====
-- Src/Type.cpp, Src/DerivedType.cpp and their headers: the types of a module. A type object is
-- unique in its context, so that a pointer to it is the type itself.
pub mod Interned
mod Tests
use dilithium.Base.{
  ℕ, zero, suc, ◌-◌, ◌*◌, ◌%◌, ◌^◌, Bool, true, false, ◌&&◌, ◌||◌, not, if◌then◌else◌, leb, ltb,
  ◌==◌, Option, none, some, List, [], ◌∷◌, ◌++◌,
}
use dilithium.Cursor.State.{Outcome, ok, fail, assertion, unreachable}

-- The classes of types by their fields. `types` are the contained types of a function behind its
-- return type, or those of a struct.
mutual
  pub data Ty : Type 0 where
    void_ty half_ty float_ty double_ty x86_fp80_ty fp128_ty ppc_fp128_ty : Ty
    label_ty metadata_ty x86_mmx_ty : Ty
    integer_ty : ℕ → Ty
    function_ty : Bool → Ty → Types → Ty
    struct_ty : Bool → Types → Ty
    array_ty : ℕ → Ty → Ty
    pointer_ty : Ty → ℕ → Ty
    vector_ty : ℕ → Ty → Ty

  pub data Types : Type 0 where
    no_types : Types
    and_type : Ty → Types → Types

-- GetTypeId
unfoldable pub type_id : Ty → ℕ
type_id void_ty = 0
type_id half_ty = 1
type_id float_ty = 2
type_id double_ty = 3
type_id x86_fp80_ty = 4
type_id fp128_ty = 5
type_id ppc_fp128_ty = 6
type_id label_ty = 7
type_id metadata_ty = 8
type_id x86_mmx_ty = 9
type_id (integer_ty n) = 10
type_id (function_ty v r ps) = 11
type_id (struct_ty p es) = 12
type_id (array_ty n e) = 13
type_id (pointer_ty e a) = 14
type_id (vector_ty n e) = 15

abbrev pub is_void_type : Ty → Bool
is_void_type t = type_id t == 0

abbrev pub is_label_type : Ty → Bool
is_label_type t = type_id t == 7

abbrev pub is_metadata_type : Ty → Bool
is_metadata_type t = type_id t == 8

abbrev pub is_function_type : Ty → Bool
is_function_type t = type_id t == 11

abbrev pub is_floating_point_type : Ty → Bool
is_floating_point_type t =
    type_id t == 1
    || type_id t == 2
    || type_id t == 3
    || type_id t == 4
    || type_id t == 5
    || type_id t == 6

-- IsFirstClassType
abbrev pub is_first_class_type : Ty → Bool
is_first_class_type t = not (is_function_type t) && not (is_void_type t)

-- FunctionType::IsValidReturnType and IsValidArgumentType
unfoldable pub is_valid_return_type : Ty → Bool
unfolding type_id
is_valid_return_type t =
    not (is_function_type t) && not (is_label_type t) && not (is_metadata_type t)

unfoldable pub is_valid_argument_type : Ty → Bool
unfolding type_id
is_valid_argument_type t = is_first_class_type t

-- PointerType::IsValidElementType
unfoldable pub is_valid_pointee : Ty → Bool
unfolding type_id
is_valid_pointee t = not (is_void_type t) && not (is_label_type t) && not (is_metadata_type t)

-- PointerType::IsLoadableOrStorableType
unfoldable pub is_loadable_or_storable : Ty → Bool
unfolding type_id is_valid_pointee
is_loadable_or_storable t = is_valid_pointee t && not (is_function_type t)

abbrev pub min_int_bits : ℕ
min_int_bits = 1

abbrev pub max_int_bits : ℕ
max_int_bits = 2 ^ 23 - 1

-- IntegerType::Get: the built-in types and those of the table of the context are one for each width.
unfoldable pub integer_get : ℕ → Outcome Ty
integer_get num_bits =
    if not (leb min_int_bits num_bits)
    then fail assertion
    else if not (leb num_bits max_int_bits)
    then fail assertion
    else if num_bits == 128
    then fail unreachable
    else ok (integer_ty num_bits)

-- PointerType::Get: the tables of the context have one type for each element and address space.
unfoldable pub pointer_get : Ty → ℕ → Outcome Ty
unfolding is_valid_pointee
pointer_get elem_type address_space =
    if is_valid_pointee elem_type then ok (pointer_ty elem_type address_space) else fail assertion

-- AddressSpace: the field for it has 24 bits. `none` is a failed cast.
unfoldable pub address_space_of : Ty → Option ℕ
address_space_of (pointer_ty e a) = some (a % 2 ^ 24)
address_space_of _ = none

-- The other classes' Get, and StructType::Create.
abbrev pub struct_get : Bool → Types → Outcome Ty
struct_get is_packed elements = fail unreachable

abbrev pub struct_create : Outcome Ty
struct_create = fail unreachable

-- The table `function_types` of the context, by the hash of what a type is asked for with.
abbrev pub FunctionTypes : Type 0
FunctionTypes = List (ℕ × Ty)

unfoldable pub find_function : ℕ → FunctionTypes → Option Ty
find_function h [] = none
find_function h ((k, t) ∷ fs) = elim (k == h) [ true ↦ some t | false ↦ find_function h fs ]

abbrev pub are_valid_arguments : Types → Bool
are_valid_arguments no_types = true
are_valid_arguments (and_type t ts) = is_valid_argument_type t && are_valid_arguments ts

-- The constructor of FunctionType.
unfoldable pub new_function : Ty → Types → Bool → Outcome Ty
unfolding is_valid_return_type is_valid_argument_type
new_function return_type params is_var_args =
    if not (is_valid_return_type return_type)
    then fail assertion
    else if not (are_valid_arguments params)
    then fail assertion
    else ok (function_ty is_var_args return_type params)

abbrev pub keep_function : ℕ → FunctionTypes → Outcome Ty → Outcome (Ty × FunctionTypes)
keep_function h fs (fail e) = fail e
keep_function h fs (ok t) = ok (t, fs ++ ((h, t) ∷ []))

-- FunctionType::Get, over what the hash functions of boost make of the three arguments.
unfoldable pub function_get :
    (Ty → Types → Bool → ℕ) → Ty → Types → Bool → FunctionTypes → Outcome (Ty × FunctionTypes)
unfolding find_function new_function
function_get hash return_type params is_var_args fs =
    let h = hash return_type params is_var_args in
    elim (find_function h fs) [
      | some t ↦ ok (t, fs)
      | none ↦ keep_function h fs (new_function return_type params is_var_args)
    ]

-- IsSized, on fuel: for a struct it calls itself on the struct again.
unfoldable pub type_is_sized : ℕ → Ty → Option Bool
unfolding type_id
type_is_sized zero t = none
type_is_sized (suc fuel) (array_ty n e) = type_is_sized fuel e
type_is_sized (suc fuel) (vector_ty n e) = type_is_sized fuel e
type_is_sized (suc fuel) (struct_ty p es) = type_is_sized fuel (struct_ty p es)
type_is_sized (suc fuel) t =
    some (type_id t == 10 || is_floating_point_type t || type_id t == 14 || type_id t == 9)

-- PrimitiveSizeInBits
unfoldable pub primitive_size_in_bits : Ty → ℕ
primitive_size_in_bits half_ty = 16
primitive_size_in_bits float_ty = 32
primitive_size_in_bits double_ty = 64
primitive_size_in_bits x86_fp80_ty = 80
primitive_size_in_bits fp128_ty = 128
primitive_size_in_bits ppc_fp128_ty = 128
primitive_size_in_bits x86_mmx_ty = 64
primitive_size_in_bits (integer_ty n) = n
primitive_size_in_bits (vector_ty n e) = n * primitive_size_in_bits e % 2 ^ 32
primitive_size_in_bits _ = 0

-- IsEmptyType
unfoldable mutual
  pub is_empty_type : Ty → Bool
  is_empty_type (array_ty n e) = n == 0 || is_empty_type e
  is_empty_type (struct_ty p es) = are_empty_types es
  is_empty_type _ = false

  pub are_empty_types : Types → Bool
  are_empty_types no_types = true
  are_empty_types (and_type t ts) = is_empty_type t && are_empty_types ts
