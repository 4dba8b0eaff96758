-- ===== src/Hlsl/SigPoint/Tests.antt =====
-- Runs of the code of Src/HLSL/DxilSigPoint.cpp.
use dilithium.Base.{◌≡◌, refl, arith, true, false}
use dilithium.Hlsl.ShaderModel
use dilithium.Hlsl.SigPoint.{
  get_kind, get_sig_point, recover_kind, get_signature_kind_with_fallback, input, hs_in, pc_in,
  gs_in, gsv_in, ps_in, primitive_id_sem, sample_index_sem, na,
}
use dilithium.Hlsl.SigPoint.Interpretation.{get_interpretation}
use dilithium.Hlsl.SigPoint.Kinds.{Fits, get_kind-Fits, get_kind-get_sig_point}

interpretation_runs : get_interpretation sample_index_sem ps_in 4 0 ≡ na
unfolding get_interpretation
interpretation_runs = refl

recover_runs : recover_kind primitive_id_sem gsv_in ≡ gs_in
unfolding recover_kind
recover_runs = refl

get_kind-Fits_example : Fits ShaderModel.hull input hs_in
unfolding get_kind
get_kind-Fits_example = get_kind-Fits ShaderModel.hull input false true

get_kind-get_sig_point_example : get_kind ShaderModel.hull input true true ≡ pc_in
unfolding get_sig_point get_signature_kind_with_fallback
get_kind-get_sig_point_example =
    get_kind-get_sig_point pc_in (λ e. absurd (ground (arith, e))) (λ e. absurd (ground (arith, e)))
