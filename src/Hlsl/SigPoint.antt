-- ===== src/Hlsl/SigPoint.antt =====
-- Src/HLSL/DxilSigPoint.cpp and the enumerations of Include/Dilithium/dxc/HLSL/DxilConstants.hpp that it
-- uses. A value of an enumeration is one of its names.
pub mod Interpretation
pub mod Kinds
pub mod Versions
mod Tests
use dilithium.Base.{
  ℕ, Bool, true, false, ◌&&◌, ◌||◌, if◌then◌else◌, ltb, leb, ◌==◌, Option, none, some, List, [],
  ◌∷◌, length, get_elem?,
}
use dilithium.Hlsl.ShaderModel
use dilithium.Hlsl.ShaderModel.{ShaderKind}

pub data SignatureKind : Type 0 where
  no_signature input output patch_constant : SignatureKind

pub data SigPointKind : Type 0 where
  vs_in vs_out pc_in hs_in hscp_in hscp_out pc_out ds_in dscp_in : SigPointKind
  ds_out gsv_in gs_in gs_out ps_in ps_out cs_in no_sig_point : SigPointKind

pub data PackingKind : Type 0 where
  none_packing input_assembler vertex_packing patch_constant_packing target_packing : PackingKind
  no_packing : PackingKind

pub data SemanticInterpretationKind : Type 0 where
  na sv sgv arb not_in_sig not_packed target tess_factor shadow : SemanticInterpretationKind
  no_interpretation : SemanticInterpretationKind

pub data SemanticKind : Type 0 where
  arbitrary_sem vertex_id_sem instance_id_sem position_sem render_target_array_index_sem :
      SemanticKind
  viewport_array_index_sem clip_distance_sem cull_distance_sem output_control_point_id_sem
        domain_location_sem :
      SemanticKind
  primitive_id_sem gs_instance_id_sem sample_index_sem is_front_face_sem coverage_sem : SemanticKind
  inner_coverage_sem target_sem depth_sem depth_less_equal_sem depth_greater_equal_sem :
      SemanticKind
  stencil_ref_sem dispatch_thread_id_sem group_id_sem group_index_sem group_thread_id_sem :
      SemanticKind
  tess_factor_sem inside_tess_factor_sem no_semantic : SemanticKind

-- The numbers of the enumerations.
abbrev pub sig_point_no : SigPointKind → ℕ
sig_point_no vs_in = 0
sig_point_no vs_out = 1
sig_point_no pc_in = 2
sig_point_no hs_in = 3
sig_point_no hscp_in = 4
sig_point_no hscp_out = 5
sig_point_no pc_out = 6
sig_point_no ds_in = 7
sig_point_no dscp_in = 8
sig_point_no ds_out = 9
sig_point_no gsv_in = 10
sig_point_no gs_in = 11
sig_point_no gs_out = 12
sig_point_no ps_in = 13
sig_point_no ps_out = 14
sig_point_no cs_in = 15
sig_point_no no_sig_point = 16

abbrev pub semantic_no : SemanticKind → ℕ
semantic_no arbitrary_sem = 0
semantic_no vertex_id_sem = 1
semantic_no instance_id_sem = 2
semantic_no position_sem = 3
semantic_no render_target_array_index_sem = 4
semantic_no viewport_array_index_sem = 5
semantic_no clip_distance_sem = 6
semantic_no cull_distance_sem = 7
semantic_no output_control_point_id_sem = 8
semantic_no domain_location_sem = 9
semantic_no primitive_id_sem = 10
semantic_no gs_instance_id_sem = 11
semantic_no sample_index_sem = 12
semantic_no is_front_face_sem = 13
semantic_no coverage_sem = 14
semantic_no inner_coverage_sem = 15
semantic_no target_sem = 16
semantic_no depth_sem = 17
semantic_no depth_less_equal_sem = 18
semantic_no depth_greater_equal_sem = 19
semantic_no stencil_ref_sem = 20
semantic_no dispatch_thread_id_sem = 21
semantic_no group_id_sem = 22
semantic_no group_index_sem = 23
semantic_no group_thread_id_sem = 24
semantic_no tess_factor_sem = 25
semantic_no inside_tess_factor_sem = 26
semantic_no no_semantic = 27

-- DxilSigPoint, less its name, which is its kind as a text.
pub record SigPoint : Type 0 where
  pub kind : SigPointKind
  pub related_kind : SigPointKind
  pub shader_kind : ShaderKind
  pub signature_kind : SignatureKind
  pub packing_kind : PackingKind

abbrev sig_point : SigPointKind → SigPointKind → ShaderKind → PackingKind → SignatureKind → SigPoint
sig_point spk rspk shk pk sigk = record {
  kind = spk;
  related_kind = rspk;
  shader_kind = shk;
  signature_kind = sigk;
  packing_kind = pk;
}

abbrev invalid_sig_point : SigPoint
invalid_sig_point = sig_point no_sig_point no_sig_point ShaderModel.invalid no_packing no_signature

-- SIG_POINTS
unfoldable pub sig_points : List SigPoint
sig_points =
    sig_point vs_in no_sig_point ShaderModel.vertex input_assembler input
    ∷ sig_point vs_out no_sig_point ShaderModel.vertex vertex_packing output
    ∷ sig_point pc_in hscp_in ShaderModel.hull none_packing no_signature
    ∷ sig_point hs_in hscp_in ShaderModel.hull none_packing no_signature
    ∷ sig_point hscp_in no_sig_point ShaderModel.hull vertex_packing input
    ∷ sig_point hscp_out no_sig_point ShaderModel.hull vertex_packing output
    ∷ sig_point pc_out no_sig_point ShaderModel.hull patch_constant_packing patch_constant
    ∷ sig_point ds_in no_sig_point ShaderModel.domain patch_constant_packing patch_constant
    ∷ sig_point dscp_in no_sig_point ShaderModel.domain vertex_packing input
    ∷ sig_point ds_out no_sig_point ShaderModel.domain vertex_packing output
    ∷ sig_point gsv_in no_sig_point ShaderModel.geometry vertex_packing input
    ∷ sig_point gs_in gsv_in ShaderModel.geometry none_packing no_signature
    ∷ sig_point gs_out no_sig_point ShaderModel.geometry vertex_packing output
    ∷ sig_point ps_in no_sig_point ShaderModel.pixel vertex_packing input
    ∷ sig_point ps_out no_sig_point ShaderModel.pixel target_packing output
    ∷ sig_point cs_in no_sig_point ShaderModel.compute none_packing no_signature
    ∷ invalid_sig_point
    ∷ []

-- GetSigPoint
unfoldable pub get_sig_point : SigPointKind → SigPoint
unfolding sig_points
get_sig_point kind = elim (get_elem? sig_points (sig_point_no kind)) [
  | none ↦ invalid_sig_point
  | some sp ↦ sp
]

-- GetSignatureKindWithFallback
abbrev fall_back : SignatureKind → SigPointKind → SignatureKind
fall_back no_signature no_sig_point = no_signature
fall_back no_signature rk = (get_sig_point rk).signature_kind
fall_back sig_kind rk = sig_kind

unfoldable pub get_signature_kind_with_fallback : SigPoint → SignatureKind
unfolding get_sig_point
get_signature_kind_with_fallback sp = fall_back sp.signature_kind sp.related_kind

-- GetKind: the switch on special inputs, and the switch that follows it.
unfoldable pub special_kind : ShaderKind → SignatureKind → Bool → Option SigPointKind
special_kind ShaderModel.hull input is_patch_constant_function =
    some (if is_patch_constant_function then pc_in else hs_in)
special_kind ShaderModel.geometry input is_patch_constant_function = some gs_in
special_kind shader_kind sig_kind is_patch_constant_function = none

unfoldable pub general_kind : ShaderKind → SignatureKind → SigPointKind
general_kind ShaderModel.vertex input = vs_in
general_kind ShaderModel.vertex output = vs_out
general_kind ShaderModel.hull input = hscp_in
general_kind ShaderModel.hull output = hscp_out
general_kind ShaderModel.hull patch_constant = pc_out
general_kind ShaderModel.domain input = dscp_in
general_kind ShaderModel.domain output = ds_out
general_kind ShaderModel.domain patch_constant = ds_in
general_kind ShaderModel.geometry input = gsv_in
general_kind ShaderModel.geometry output = gs_out
general_kind ShaderModel.pixel input = ps_in
general_kind ShaderModel.pixel output = ps_out
general_kind ShaderModel.compute input = cs_in
general_kind shader_kind sig_kind = no_sig_point

unfoldable pub get_kind : ShaderKind → SignatureKind → Bool → Bool → SigPointKind
unfolding special_kind general_kind
get_kind shader_kind sig_kind is_patch_constant_function false = general_kind shader_kind sig_kind
get_kind shader_kind sig_kind is_patch_constant_function true =
    elim (special_kind shader_kind sig_kind is_patch_constant_function) [
      | some kind ↦ kind
      | none ↦ general_kind shader_kind sig_kind
    ]

-- RecoverKind
unfoldable pub recover_kind : SemanticKind → SigPointKind → SigPointKind
recover_kind primitive_id_sem gsv_in = gs_in
recover_kind sk kind = kind
