-- ===== src/Hlsl/CompType/Laws.antt =====
-- How the predicates and conversions of Src/HLSL/DxilCompType.cpp fit together.
use dilithium.Base.{◌≡◌, refl, arith, ◌↔◌, ◌⊎◌, inl, inr, true, false, ◌||◌, some}
use dilithium.Hlsl.CompType.{
  ComponentType, LlvmType, is_float_ty, is_s_int_ty, is_u_int_ty, is_bool_ty, is_snorm, is_unorm,
  is_64bit, get_base_comp_type, has_min_prec, get_llvm_type, get_comp_type, is, invalid, i1, i16,
  u16, i32, u32, i64, u64, f16, f32, f64, snorm_f16, unorm_f16, snorm_f32, unorm_f32, snorm_f64,
  unorm_f64,
}

-- How a type `b` that GetBaseCompType gives for `k` relates to `k`.
abbrev pub IsBaseOf : ComponentType → ComponentType → Type 0
IsBaseOf k b =
    (get_base_comp_type b ≡ some b)
    × (has_min_prec b ≡ some false)
    × (is_64bit b ≡ is_64bit k)
    × (is_s_int_ty b ≡ is_s_int_ty k)
    × (is_u_int_ty b ≡ is_u_int_ty k)
    × (is_bool_ty b ≡ is_bool_ty k)
    × (is_float_ty b ≡ (is_float_ty k || is_snorm k || is_unorm k))

-- Every component type but `invalid` has a base type: one that is its own base and has no minimal
-- precision, with the type's own answers to Is64Bit, IsSIntTy, IsUIntTy and IsBoolTy, and a float
-- type exactly when the type is a float type or a normalized one.
pub get_base_comp_type-IsBaseOf :
    (k : ComponentType)
    → (is k invalid ≡ true) ⊎ ((b : ComponentType) × (get_base_comp_type k ≡ some b) × IsBaseOf k b)
unfolding get_base_comp_type has_min_prec is_64bit is_s_int_ty is_u_int_ty is_bool_ty is_float_ty
    is_snorm is_unorm
get_base_comp_type-IsBaseOf invalid = inl refl
get_base_comp_type-IsBaseOf i1 = inr (_, refl, (refl, refl, refl, refl, refl, refl, refl))
get_base_comp_type-IsBaseOf i16 = inr (_, refl, (refl, refl, refl, refl, refl, refl, refl))
get_base_comp_type-IsBaseOf u16 = inr (_, refl, (refl, refl, refl, refl, refl, refl, refl))
get_base_comp_type-IsBaseOf i32 = inr (_, refl, (refl, refl, refl, refl, refl, refl, refl))
get_base_comp_type-IsBaseOf u32 = inr (_, refl, (refl, refl, refl, refl, refl, refl, refl))
get_base_comp_type-IsBaseOf i64 = inr (_, refl, (refl, refl, refl, refl, refl, refl, refl))
get_base_comp_type-IsBaseOf u64 = inr (_, refl, (refl, refl, refl, refl, refl, refl, refl))
get_base_comp_type-IsBaseOf f16 = inr (_, refl, (refl, refl, refl, refl, refl, refl, refl))
get_base_comp_type-IsBaseOf f32 = inr (_, refl, (refl, refl, refl, refl, refl, refl, refl))
get_base_comp_type-IsBaseOf f64 = inr (_, refl, (refl, refl, refl, refl, refl, refl, refl))
get_base_comp_type-IsBaseOf snorm_f16 = inr (_, refl, (refl, refl, refl, refl, refl, refl, refl))
get_base_comp_type-IsBaseOf unorm_f16 = inr (_, refl, (refl, refl, refl, refl, refl, refl, refl))
get_base_comp_type-IsBaseOf snorm_f32 = inr (_, refl, (refl, refl, refl, refl, refl, refl, refl))
get_base_comp_type-IsBaseOf unorm_f32 = inr (_, refl, (refl, refl, refl, refl, refl, refl, refl))
get_base_comp_type-IsBaseOf snorm_f64 = inr (_, refl, (refl, refl, refl, refl, refl, refl, refl))
get_base_comp_type-IsBaseOf unorm_f64 = inr (_, refl, (refl, refl, refl, refl, refl, refl, refl))

-- The component types that an LLVM type comes back to: no unsigned one, and no normalized one.
abbrev pub IsPlain : ComponentType → Type 0
IsPlain k = (is_u_int_ty k ≡ false) × (is_snorm k ≡ false) × (is_unorm k ≡ false)

-- GetCompType gives for an LLVM type a component type exactly when GetLLVMType gives the LLVM type for
-- it and it is neither unsigned nor normalized.
pub get_comp_type_iff :
    (t : LlvmType) (k : ComponentType)
    → (get_comp_type t ≡ some k) ↔ ((get_llvm_type k ≡ some t) × IsPlain k)
unfolding get_comp_type get_llvm_type is_u_int_ty is_snorm is_unorm
get_comp_type_iff t k = ground arith
