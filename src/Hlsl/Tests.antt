-- ===== src/Hlsl/Tests.antt =====
-- Entries of the tables of Src/HLSL.
use dilithium.Base.{◌≡◌, ◌↔◌, refl, arith, true, false, some}
use dilithium.Hlsl.InterpolationMode.{mode_of_flags, mode_of_number}
use dilithium.Hlsl.InterpolationMode.Laws.{
  AgreesWithFlags, described_mode, mode_of_flags-described_mode,
}
use dilithium.Hlsl.ShaderModel.{get_model, shader_models, count}
use dilithium.Hlsl.ShaderModel.Lookup.{IsFound, get_model-IsFound}
use dilithium.Hlsl.CompType.{get_comp_type, get_llvm_type}
use dilithium.Hlsl.CompType.{int16, i16}
use dilithium.Hlsl.CompType.Laws.{IsPlain, get_comp_type_iff}

mode_of_flags-described_mode_example :
    (mode_of_flags false true true true true ≡ some (described_mode false true true true true))
    × (false ≡ false
        → AgreesWithFlags true true true true (described_mode false true true true true))
mode_of_flags-described_mode_example = mode_of_flags-described_mode false true true true true

get_model-IsFound_example : IsFound (get_model 20)
unfolding count shader_models
get_model-IsFound_example = get_model-IsFound 20 (omega arith)

get_comp_type_iff_example :
    (get_comp_type int16 ≡ some i16) ↔ ((get_llvm_type i16 ≡ some int16) × IsPlain i16)
get_comp_type_iff_example = get_comp_type_iff int16 i16

-- The cast to the underlying uint8_t comes before the check: 256 is Undefined, 255 Invalid.
truncated : mode_of_number 256 ≡ 0
unfolding mode_of_number
truncated = refl
