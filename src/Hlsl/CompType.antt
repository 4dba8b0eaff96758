-- ===== src/Hlsl/CompType.antt =====
-- Src/HLSL/DxilCompType.cpp: the scalar types of signature elements and resources.
pub mod Laws
use dilithium.Base.{ℕ, Bool, true, false, ◌||◌, ◌==◌, Option, none, some}

-- ComponentType, without its end marker.
pub data ComponentType : Type 0 where
  invalid i1 i16 u16 i32 u32 i64 u64 f16 f32 f64 : ComponentType
  snorm_f16 unorm_f16 snorm_f32 unorm_f32 snorm_f64 unorm_f64 : ComponentType

abbrev pub number : ComponentType → ℕ
number invalid = 0
number i1 = 1
number i16 = 2
number u16 = 3
number i32 = 4
number u32 = 5
number i64 = 6
number u64 = 7
number f16 = 8
number f32 = 9
number f64 = 10
number snorm_f16 = 11
number unorm_f16 = 12
number snorm_f32 = 13
number unorm_f32 = 14
number snorm_f64 = 15
number unorm_f64 = 16

abbrev pub is : ComponentType → ComponentType → Bool
is a b = number a == number b

unfoldable pub is_float_ty : ComponentType → Bool
is_float_ty k = is k f16 || is k f32 || is k f64

unfoldable pub is_s_int_ty : ComponentType → Bool
is_s_int_ty k = is k i16 || is k i32 || is k i64

unfoldable pub is_u_int_ty : ComponentType → Bool
is_u_int_ty k = is k u16 || is k u32 || is k u64

unfoldable pub is_int_ty : ComponentType → Bool
unfolding is_s_int_ty is_u_int_ty
is_int_ty k = is_s_int_ty k || is_u_int_ty k

unfoldable pub is_bool_ty : ComponentType → Bool
is_bool_ty k = is k i1

unfoldable pub is_snorm : ComponentType → Bool
is_snorm k = is k snorm_f16 || is k snorm_f32 || is k snorm_f64

unfoldable pub is_unorm : ComponentType → Bool
is_unorm k = is k unorm_f16 || is k unorm_f32 || is k unorm_f64

unfoldable pub is_64bit : ComponentType → Bool
is_64bit f64 = true
is_64bit snorm_f64 = true
is_64bit unorm_f64 = true
is_64bit i64 = true
is_64bit u64 = true
is_64bit _ = false

-- `none` is DILITHIUM_UNREACHABLE, here and below.
unfoldable pub get_base_comp_type : ComponentType → Option ComponentType
get_base_comp_type invalid = none
get_base_comp_type i1 = some i1
get_base_comp_type i16 = some i32
get_base_comp_type i32 = some i32
get_base_comp_type i64 = some i64
get_base_comp_type u16 = some u32
get_base_comp_type u32 = some u32
get_base_comp_type u64 = some u64
get_base_comp_type f64 = some f64
get_base_comp_type snorm_f64 = some f64
get_base_comp_type unorm_f64 = some f64
get_base_comp_type _ = some f32

unfoldable pub has_min_prec : ComponentType → Option Bool
has_min_prec invalid = none
has_min_prec i16 = some true
has_min_prec u16 = some true
has_min_prec f16 = some true
has_min_prec snorm_f16 = some true
has_min_prec unorm_f16 = some true
has_min_prec _ = some false

-- The types of an LLVMContext that GetLLVMType and GetCompType name; `other` is any other type.
pub data LlvmType : Type 0 where
  int1 int16 int32 int64 half float double other : LlvmType

unfoldable pub get_llvm_type : ComponentType → Option LlvmType
get_llvm_type invalid = none
get_llvm_type i1 = some int1
get_llvm_type i16 = some int16
get_llvm_type u16 = some int16
get_llvm_type i32 = some int32
get_llvm_type u32 = some int32
get_llvm_type i64 = some int64
get_llvm_type u64 = some int64
get_llvm_type f16 = some half
get_llvm_type snorm_f16 = some half
get_llvm_type unorm_f16 = some half
get_llvm_type f32 = some float
get_llvm_type snorm_f32 = some float
get_llvm_type unorm_f32 = some float
get_llvm_type f64 = some double
get_llvm_type snorm_f64 = some double
get_llvm_type unorm_f64 = some double

unfoldable pub get_llvm_base_type : ComponentType → Option LlvmType
unfolding get_base_comp_type get_llvm_type
get_llvm_base_type k = elim (get_base_comp_type k) [ none ↦ none | some b ↦ get_llvm_type b ]

unfoldable pub get_comp_type : LlvmType → Option ComponentType
get_comp_type int1 = some i1
get_comp_type int16 = some i16
get_comp_type int32 = some i32
get_comp_type int64 = some i64
get_comp_type half = some f16
get_comp_type float = some f32
get_comp_type double = some f64
get_comp_type other = none
