-- ===== src/Types/Tests.antt =====
-- Runs of the code of Src/Type.cpp and Src/DerivedType.cpp.
use dilithium.Base.{◌≡◌, refl, true, false, none, some, [], ◌∷◌}
use dilithium.Cursor.State.{ok, fail, unreachable}
use dilithium.Types.{
  no_types, void_ty, float_ty, integer_ty, function_ty, struct_ty, array_ty, vector_ty,
  type_is_sized, label_ty, primitive_size_in_bits, is_empty_type, integer_get, function_get,
  address_space_of, pointer_ty,
}

i128_runs : integer_get 128 ≡ fail unreachable
unfolding integer_get
i128_runs = refl

size_runs : primitive_size_in_bits (vector_ty 4 float_ty) ≡ 128
unfolding primitive_size_in_bits
size_runs = refl

empty_runs : is_empty_type (struct_ty false no_types) ≡ true
unfolding is_empty_type
empty_runs = refl

-- The address space keeps 24 bits.
address_space_runs : address_space_of (pointer_ty float_ty 0x100_0003) ≡ some 3
unfolding address_space_of
address_space_runs = refl

-- Where two hashes are the same, the type that was asked for first is answered.
collision_runs :
    function_get (λ r ps v. 7) float_ty no_types true ((7, function_ty false void_ty no_types) ∷ [])
    ≡ ok (function_ty false void_ty no_types, (7, function_ty false void_ty no_types) ∷ [])
unfolding function_get
collision_runs = refl

sized_runs : type_is_sized 2 (array_ty 3 (integer_ty 8)) ≡ some true
unfolding type_is_sized
sized_runs = refl

label_runs : type_is_sized 1 label_ty ≡ some false
unfolding type_is_sized
label_runs = refl

-- On a struct IsSized calls itself again.
struct_runs : type_is_sized 100 (struct_ty false no_types) ≡ none
unfolding type_is_sized
struct_runs = refl
