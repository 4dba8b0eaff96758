-- ===== src/Hlsl/SigPoint/Interpretation.antt =====
-- The interpretation of semantics in Src/HLSL/DxilSigPoint.cpp.
use dilithium.Base.{
  ℕ, Bool, true, false, ◌&&◌, ◌||◌, if◌then◌else◌, ltb, leb, ◌==◌, none, some, List, [], ◌∷◌,
  get_elem?, map,
}
use dilithium.Hlsl.SigPoint.{
  SigPointKind, SemanticKind, SemanticInterpretationKind, sig_point_no, arbitrary_sem,
  vertex_id_sem, instance_id_sem, position_sem, render_target_array_index_sem,
  viewport_array_index_sem, clip_distance_sem, cull_distance_sem, output_control_point_id_sem,
  domain_location_sem, primitive_id_sem, gs_instance_id_sem, sample_index_sem, is_front_face_sem,
  coverage_sem, inner_coverage_sem, target_sem, depth_sem, depth_less_equal_sem,
  depth_greater_equal_sem, stencil_ref_sem, dispatch_thread_id_sem, group_id_sem, group_index_sem,
  group_thread_id_sem, tess_factor_sem, inside_tess_factor_sem, no_semantic, na, sv, sgv, arb,
  not_in_sig, not_packed, target, tess_factor, shadow,
}

-- VersionedSemanticInterpretation
pub record VersionedInterpretation : Type 0 where
  pub kind : SemanticInterpretationKind
  pub major : ℕ
  pub minor : ℕ

abbrev always : SemanticInterpretationKind → VersionedInterpretation
always k = record { kind = k; major = 0; minor = 0 }

-- The columns of a row whose entries hold for every version.
abbrev all_versions : List SemanticInterpretationKind → List VersionedInterpretation
all_versions ks = map always ks

abbrev from_41 : SemanticInterpretationKind → VersionedInterpretation
from_41 k = record { kind = k; major = 4; minor = 1 }

abbrev from_50 : SemanticInterpretationKind → VersionedInterpretation
from_50 k = record { kind = k; major = 5; minor = 0 }

-- A row of SEMANTIC_INTERPRETATION_TABLE, the sig points in the order of their numbers.
unfoldable pub interpretation_row : SemanticKind → List VersionedInterpretation
interpretation_row arbitrary_sem =
    all_versions (
      arb ∷ arb ∷ na ∷ na ∷ arb ∷ arb ∷ arb ∷ arb ∷ arb ∷ arb ∷ arb ∷ na ∷ arb ∷ arb ∷ na ∷ na ∷ [])
interpretation_row vertex_id_sem =
    all_versions
      (sv ∷ na ∷ na ∷ na ∷ na ∷ na ∷ na ∷ na ∷ na ∷ na ∷ na ∷ na ∷ na ∷ na ∷ na ∷ na ∷ [])
interpretation_row instance_id_sem =
    all_versions
      (sv ∷ arb ∷ na ∷ na ∷ arb ∷ arb ∷ na ∷ na ∷ arb ∷ arb ∷ arb ∷ na ∷ arb ∷ arb ∷ na ∷ na ∷ [])
interpretation_row position_sem =
    all_versions
      (arb ∷ sv ∷ na ∷ na ∷ sv ∷ sv ∷ arb ∷ arb ∷ sv ∷ sv ∷ sv ∷ na ∷ sv ∷ sv ∷ na ∷ na ∷ [])
interpretation_row render_target_array_index_sem =
    all_versions
      (arb ∷ sv ∷ na ∷ na ∷ sv ∷ sv ∷ arb ∷ arb ∷ sv ∷ sv ∷ sv ∷ na ∷ sv ∷ sv ∷ na ∷ na ∷ [])
interpretation_row viewport_array_index_sem =
    all_versions
      (arb ∷ sv ∷ na ∷ na ∷ sv ∷ sv ∷ arb ∷ arb ∷ sv ∷ sv ∷ sv ∷ na ∷ sv ∷ sv ∷ na ∷ na ∷ [])
interpretation_row clip_distance_sem =
    all_versions
      (arb ∷ sv ∷ na ∷ na ∷ sv ∷ sv ∷ arb ∷ arb ∷ sv ∷ sv ∷ sv ∷ na ∷ sv ∷ sv ∷ na ∷ na ∷ [])
interpretation_row cull_distance_sem =
    all_versions
      (arb ∷ sv ∷ na ∷ na ∷ sv ∷ sv ∷ arb ∷ arb ∷ sv ∷ sv ∷ sv ∷ na ∷ sv ∷ sv ∷ na ∷ na ∷ [])
interpretation_row output_control_point_id_sem =
    all_versions
      (na ∷ na ∷ na ∷ not_in_sig ∷ na ∷ na ∷ na ∷ na ∷ na ∷ na ∷ na ∷ na ∷ na ∷ na ∷ na ∷ na ∷ [])
interpretation_row domain_location_sem =
    all_versions
      (na ∷ na ∷ na ∷ na ∷ na ∷ na ∷ na ∷ not_in_sig ∷ na ∷ na ∷ na ∷ na ∷ na ∷ na ∷ na ∷ na ∷ [])
interpretation_row primitive_id_sem = all_versions (
    na ∷ na ∷ not_in_sig ∷ not_in_sig ∷ na ∷ na ∷ na ∷ not_in_sig ∷ na ∷ na ∷ na ∷ shadow ∷ sgv
    ∷ sgv ∷ na ∷ na ∷ [])
interpretation_row gs_instance_id_sem =
    all_versions
      (na ∷ na ∷ na ∷ na ∷ na ∷ na ∷ na ∷ na ∷ na ∷ na ∷ na ∷ not_in_sig ∷ na ∷ na ∷ na ∷ na ∷ [])
interpretation_row sample_index_sem =
    always na
    ∷ always na
    ∷ always na
    ∷ always na
    ∷ always na
    ∷ always na
    ∷ always na
    ∷ always na
    ∷ always na
    ∷ always na
    ∷ always na
    ∷ always na
    ∷ always na
    ∷ from_41 shadow
    ∷ always na
    ∷ always na
    ∷ []
interpretation_row is_front_face_sem =
    all_versions
      (na ∷ na ∷ na ∷ na ∷ na ∷ na ∷ na ∷ na ∷ na ∷ na ∷ na ∷ na ∷ sgv ∷ sgv ∷ na ∷ na ∷ [])
interpretation_row coverage_sem =
    always na
    ∷ always na
    ∷ always na
    ∷ always na
    ∷ always na
    ∷ always na
    ∷ always na
    ∷ always na
    ∷ always na
    ∷ always na
    ∷ always na
    ∷ always na
    ∷ always na
    ∷ from_50 not_in_sig
    ∷ from_41 not_packed
    ∷ always na
    ∷ []
interpretation_row inner_coverage_sem =
    always na
    ∷ always na
    ∷ always na
    ∷ always na
    ∷ always na
    ∷ always na
    ∷ always na
    ∷ always na
    ∷ always na
    ∷ always na
    ∷ always na
    ∷ always na
    ∷ always na
    ∷ from_50 not_in_sig
    ∷ always na
    ∷ always na
    ∷ []
interpretation_row target_sem =
    all_versions
      (na ∷ na ∷ na ∷ na ∷ na ∷ na ∷ na ∷ na ∷ na ∷ na ∷ na ∷ na ∷ na ∷ na ∷ target ∷ na ∷ [])
interpretation_row depth_sem =
    all_versions
      (na ∷ na ∷ na ∷ na ∷ na ∷ na ∷ na ∷ na ∷ na ∷ na ∷ na ∷ na ∷ na ∷ na ∷ not_packed ∷ na ∷ [])
interpretation_row depth_less_equal_sem =
    always na
    ∷ always na
    ∷ always na
    ∷ always na
    ∷ always na
    ∷ always na
    ∷ always na
    ∷ always na
    ∷ always na
    ∷ always na
    ∷ always na
    ∷ always na
    ∷ always na
    ∷ always na
    ∷ from_50 not_packed
    ∷ always na
    ∷ []
interpretation_row depth_greater_equal_sem =
    always na
    ∷ always na
    ∷ always na
    ∷ always na
    ∷ always na
    ∷ always na
    ∷ always na
    ∷ always na
    ∷ always na
    ∷ always na
    ∷ always na
    ∷ always na
    ∷ always na
    ∷ always na
    ∷ from_50 not_packed
    ∷ always na
    ∷ []
interpretation_row stencil_ref_sem =
    always na
    ∷ always na
    ∷ always na
    ∷ always na
    ∷ always na
    ∷ always na
    ∷ always na
    ∷ always na
    ∷ always na
    ∷ always na
    ∷ always na
    ∷ always na
    ∷ always na
    ∷ always na
    ∷ from_50 not_packed
    ∷ always na
    ∷ []
interpretation_row dispatch_thread_id_sem =
    all_versions
      (na ∷ na ∷ na ∷ na ∷ na ∷ na ∷ na ∷ na ∷ na ∷ na ∷ na ∷ na ∷ na ∷ na ∷ na ∷ not_in_sig ∷ [])
interpretation_row group_id_sem =
    all_versions
      (na ∷ na ∷ na ∷ na ∷ na ∷ na ∷ na ∷ na ∷ na ∷ na ∷ na ∷ na ∷ na ∷ na ∷ na ∷ not_in_sig ∷ [])
interpretation_row group_index_sem =
    all_versions
      (na ∷ na ∷ na ∷ na ∷ na ∷ na ∷ na ∷ na ∷ na ∷ na ∷ na ∷ na ∷ na ∷ na ∷ na ∷ not_in_sig ∷ [])
interpretation_row group_thread_id_sem =
    all_versions
      (na ∷ na ∷ na ∷ na ∷ na ∷ na ∷ na ∷ na ∷ na ∷ na ∷ na ∷ na ∷ na ∷ na ∷ na ∷ not_in_sig ∷ [])
interpretation_row tess_factor_sem = all_versions (
    na ∷ na ∷ na ∷ na ∷ na ∷ na ∷ tess_factor ∷ tess_factor ∷ na ∷ na ∷ na ∷ na ∷ na ∷ na ∷ na ∷ na
    ∷ [])
interpretation_row inside_tess_factor_sem = all_versions (
    na ∷ na ∷ na ∷ na ∷ na ∷ na ∷ tess_factor ∷ tess_factor ∷ na ∷ na ∷ na ∷ na ∷ na ∷ na ∷ na ∷ na
    ∷ [])
interpretation_row no_semantic = []

-- GetInterpretation
abbrev is_na : SemanticInterpretationKind → Bool
is_na na = true
is_na _ = false

unfoldable pub is_from : VersionedInterpretation → ℕ → ℕ → Bool
is_from vsi major minor = ltb vsi.major major || (major == vsi.major && leb vsi.minor minor)

abbrev pub interpretation_of : VersionedInterpretation → ℕ → ℕ → SemanticInterpretationKind
interpretation_of vsi major minor =
    if is_na vsi.kind then na else if is_from vsi major minor then vsi.kind else na

-- An invalid semantic has no row, and an invalid sig point no column.
unfoldable pub get_interpretation : SemanticKind → SigPointKind → ℕ → ℕ → SemanticInterpretationKind
unfolding interpretation_row is_from
get_interpretation sk kind major minor =
    elim (get_elem? (interpretation_row sk) (sig_point_no kind)) [
      | none ↦ na
      | some vsi ↦ interpretation_of vsi major minor
    ]
