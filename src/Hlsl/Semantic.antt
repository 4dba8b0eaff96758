-- ===== src/Hlsl/Semantic.antt =====
-- Src/HLSL/DxilSemantic.cpp. A text is the list of its bytes.
pub mod Names
pub mod Indices
mod Tests
use Prim.Native.String
use Prim.Native.String.{String}
use Prim.Native.Char.{code}
use dilithium.Base.{
  ℕ, zero, suc, ◌+◌, ◌-◌, ◌*◌, ◌%◌, ◌^◌, min, Bool, true, false, ◌&&◌, ◌||◌, not, if◌then◌else◌,
  ltb, leb, ◌==◌, Option, none, some, List, [], ◌∷◌, ◌++◌, length, get_elem?, take, drop,
}
use dilithium.Hlsl.SigPoint.{
  SemanticKind, SigPointKind, no_sig_point, semantic_no, SemanticInterpretationKind, na, arb,
  arbitrary_sem, vertex_id_sem, instance_id_sem, position_sem, render_target_array_index_sem,
  viewport_array_index_sem, clip_distance_sem, cull_distance_sem, output_control_point_id_sem,
  domain_location_sem, primitive_id_sem, gs_instance_id_sem, sample_index_sem, is_front_face_sem,
  coverage_sem, inner_coverage_sem, target_sem, depth_sem, depth_less_equal_sem,
  depth_greater_equal_sem, stencil_ref_sem, dispatch_thread_id_sem, group_id_sem, group_index_sem,
  group_thread_id_sem, tess_factor_sem, inside_tess_factor_sem, no_semantic,
}
use dilithium.Hlsl.SigPoint.Interpretation.{get_interpretation}

-- The bytes of an ASCII text.
abbrev pub codes : String → List ℕ
codes String.[] = []
codes (String.◌∷◌ c s) = code c ∷ codes s

-- DxilSemantic; no name is a null pointer.
pub record Semantic : Type 0 where
  pub kind : SemanticKind
  pub name : Option (List ℕ)

abbrev pub semantic : SemanticKind → List ℕ → Semantic
semantic kind name = record { kind = kind; name = some name }

abbrev pub arbitrary_semantic : Semantic
arbitrary_semantic = record { kind = arbitrary_sem; name = none }

abbrev pub invalid_semantic : Semantic
invalid_semantic = record { kind = no_semantic; name = none }

-- SEMANTIC_TABLE, less its first and its last entry.
unfoldable pub named_semantics : List Semantic
named_semantics =
    semantic vertex_id_sem (codes "SV_VertexID")
    ∷ semantic instance_id_sem (codes "SV_InstanceID")
    ∷ semantic position_sem (codes "SV_Position")
    ∷ semantic render_target_array_index_sem (codes "SV_RenderTargetArrayIndex")
    ∷ semantic viewport_array_index_sem (codes "SV_ViewportArrayIndex")
    ∷ semantic clip_distance_sem (codes "SV_ClipDistance")
    ∷ semantic cull_distance_sem (codes "SV_CullDistance")
    ∷ semantic output_control_point_id_sem (codes "SV_OutputControlPointID")
    ∷ semantic domain_location_sem (codes "SV_DomainLocation")
    ∷ semantic primitive_id_sem (codes "SV_PrimitiveID")
    ∷ semantic gs_instance_id_sem (codes "SV_GSInstanceID")
    ∷ semantic sample_index_sem (codes "SV_SampleIndex")
    ∷ semantic is_front_face_sem (codes "SV_IsFrontFace")
    ∷ semantic coverage_sem (codes "SV_Coverage")
    ∷ semantic inner_coverage_sem (codes "SV_InnerCoverage")
    ∷ semantic target_sem (codes "SV_Target")
    ∷ semantic depth_sem (codes "SV_Depth")
    ∷ semantic depth_less_equal_sem (codes "SV_DepthLessEqual")
    ∷ semantic depth_greater_equal_sem (codes "SV_DepthGreaterEqual")
    ∷ semantic stencil_ref_sem (codes "SV_StencilRef")
    ∷ semantic dispatch_thread_id_sem (codes "SV_DispatchThreadID")
    ∷ semantic group_id_sem (codes "SV_GroupID")
    ∷ semantic group_index_sem (codes "SV_GroupIndex")
    ∷ semantic group_thread_id_sem (codes "SV_GroupThreadID")
    ∷ semantic tess_factor_sem (codes "SV_TessFactor")
    ∷ semantic inside_tess_factor_sem (codes "SV_InsideTessFactor")
    ∷ []

unfoldable pub semantic_table : List Semantic
unfolding named_semantics
semantic_table = arbitrary_semantic ∷ (named_semantics ++ (invalid_semantic ∷ []))

abbrev pub tolower : ℕ → ℕ
tolower c = if leb b'A' c && leb c b'Z' then c + 32 else c

-- The results -1, 0 and 1.
pub data Compared : Type 0 where
  below same above : Compared

-- ascii_strncasecmp on texts of that length at least.
unfoldable pub ascii_strncasecmp : ℕ → List ℕ → List ℕ → Compared
ascii_strncasecmp (suc n) (l ∷ lhs) (r ∷ rhs) =
    let rest = ascii_strncasecmp n lhs rhs in
    if tolower l == tolower r then rest else if ltb (tolower l) (tolower r) then below else above
ascii_strncasecmp _ lhs rhs = same

abbrev pub compare_length : ℕ → ℕ → Compared
compare_length l r = if l == r then same else if ltb l r then below else above

unfoldable pub compare_lower : List ℕ → List ℕ → Compared
unfolding ascii_strncasecmp
compare_lower lhs rhs = elim (ascii_strncasecmp (min (length lhs) (length rhs)) lhs rhs) [
  | same ↦ compare_length (length lhs) (length rhs)
  | res ↦ res
]

-- HasSVPrefix
unfoldable pub has_sv_prefix : List ℕ → Bool
has_sv_prefix (s ∷ v ∷ u ∷ _) = (s == b'S' || s == b's') && (v == b'V' || v == b'v') && u == b'_'
has_sv_prefix _ = false

abbrev is_same : Compared → Bool
is_same same = true
is_same _ = false

-- The test of the loop of GetByName, whose semantics have names.
abbrev pub has_name : List ℕ → Option (List ℕ) → Bool
has_name name none = false
has_name name (some n) = is_same (compare_lower name n)

unfoldable pub find_semantic : List ℕ → List Semantic → Semantic
unfolding compare_lower
find_semantic name [] = invalid_semantic
find_semantic name (s ∷ ss) =
    let rest = find_semantic name ss in if has_name name s.name then s else rest

-- GetByName(name)
unfoldable pub get_semantic_by_name : List ℕ → Semantic
unfolding has_sv_prefix find_semantic named_semantics
get_semantic_by_name name =
    if has_sv_prefix name then find_semantic name named_semantics else arbitrary_semantic

-- Get(kind)
unfoldable pub get_semantic : SemanticKind → Semantic
unfolding semantic_table
get_semantic kind = elim (get_elem? semantic_table (semantic_no kind)) [
  | none ↦ invalid_semantic
  | some s ↦ s
]

abbrev pub interpreted : SemanticInterpretationKind → Semantic → Semantic
interpreted na s = invalid_semantic
interpreted arb s = arbitrary_semantic
interpreted si s = s

-- Get(kind, sig_point_kind, major_version, minor_version)
unfoldable pub get_semantic_at : SemanticKind → SigPointKind → ℕ → ℕ → Semantic
unfolding get_semantic get_interpretation
get_semantic_at kind no_sig_point major minor = invalid_semantic
get_semantic_at kind sig_point_kind major minor =
    let s = get_semantic kind in
    interpreted (get_interpretation s.kind sig_point_kind major minor) s

-- GetByName(name, sig_point_kind, major_version, minor_version)
unfoldable pub get_semantic_by_name_at : List ℕ → SigPointKind → ℕ → ℕ → Semantic
unfolding get_semantic_by_name get_semantic_at
get_semantic_by_name_at name sig_point_kind major minor =
    get_semantic_at (get_semantic_by_name name).kind sig_point_kind major minor

abbrev pub is_decimal_digit : ℕ → Bool
is_decimal_digit c = leb b'0' c && leb c b'9'

abbrev pub ends_in_digit : Option ℕ → Bool
ends_in_digit none = false
ends_in_digit (some d) = is_decimal_digit d

-- The loop of DecomposeNameAndIndex: from `i` on there are digits only.
unfoldable pub name_end : List ℕ → ℕ → ℕ
name_end full_name zero = zero
name_end full_name (suc i) =
    let rest = name_end full_name i in if ends_in_digit (get_elem? full_name i) then rest else suc i

-- The digits that atoi reads, after those with the value `acc`.
unfoldable pub digits_value : ℕ → List ℕ → ℕ
digits_value acc [] = acc
digits_value acc (c ∷ cs) = elim (is_decimal_digit c) [
  | true ↦ digits_value (acc * 10 + (c - b'0')) cs
  | false ↦ acc
]

-- atoi of a text that starts with a digit; a value that is no int is undefined.
unfoldable pub atoi : List ℕ → Option ℕ
unfolding digits_value
atoi text = let v = digits_value 0 text in if ltb v (2 ^ 31) then some v else none

-- DecomposeNameAndIndex: the name, and the index where it is defined. The length is taken in 32 bits.
-- `behind` are the bytes behind the text, into which atoi reads on.
unfoldable pub decompose_name_and_index : List ℕ → List ℕ → List ℕ × Option ℕ
unfolding name_end atoi
decompose_name_and_index full_name behind =
    let len = length full_name % 2 ^ 32 in
    let i = name_end full_name len in
    (take i full_name, if ltb i len then atoi (drop i full_name ++ behind) else some 0)
