-- ===== src/Hlsl/Semantic/Tests.antt =====
-- Runs of the code of Src/HLSL/DxilSemantic.cpp.
use dilithium.Base.{inl, inr, ◌≡◌, ◌↔◌, refl, arith, some, [], ◌∷◌}
use dilithium.Hlsl.SigPoint.{depth_sem, vs_in}
use dilithium.Hlsl.Semantic.{
  codes, get_semantic, get_semantic_by_name, get_semantic_by_name_at, invalid_semantic,
  arbitrary_semantic, decompose_name_and_index, compare_lower, below,
}
use dilithium.Hlsl.Semantic.Names.{lower, get_semantic_by_name_iff}
use dilithium.Hlsl.Semantic.Indices.{decompose_name_and_index-decimal_value}

compare_runs : compare_lower (codes "SV_depth") (codes "sv_DepthLessEqual") ≡ below
unfolding compare_lower
compare_runs = refl

by_name_runs : get_semantic_by_name (codes "sv_DEPTH") ≡ get_semantic depth_sem
unfolding get_semantic_by_name get_semantic
by_name_runs = refl

-- A name that no semantic has, behind the prefix.
unknown_runs : get_semantic_by_name (codes "SV_Colour") ≡ invalid_semantic
unfolding get_semantic_by_name
unknown_runs = refl

-- At the input of a vertex shader a position is like any other element.
at_runs : get_semantic_by_name_at (codes "SV_Position") vs_in 5 0 ≡ arbitrary_semantic
unfolding get_semantic_by_name_at
at_runs = refl

-- The index reads on behind the text.
read_on_runs :
    decompose_name_and_index (codes "TEXCOORD1") (codes "23") ≡ (codes "TEXCOORD", some 123)
unfolding decompose_name_and_index
read_on_runs = refl

get_semantic_by_name_iff_example :
    (get_semantic_by_name (codes "sv_DEPTH") ≡ get_semantic depth_sem)
    ↔ (lower (codes "sv_DEPTH") ≡ lower (codes "SV_Depth"))
unfolding get_semantic
get_semantic_by_name_iff_example =
    get_semantic_by_name_iff depth_sem (codes "sv_DEPTH") (codes "SV_Depth") refl

decompose_name_and_index-decimal_value_example :
    decompose_name_and_index (codes "TEXCOORD12") (0 ∷ []) ≡ (codes "TEXCOORD", some 12)
decompose_name_and_index-decimal_value_example =
    decompose_name_and_index-decimal_value (codes "TEXCOORD") (1 ∷ 2 ∷ []) (0 ∷ []) (omega arith)
      (inr (omega arith)) (omega arith, (omega arith, tt)) (inl (omega arith)) (omega arith)
