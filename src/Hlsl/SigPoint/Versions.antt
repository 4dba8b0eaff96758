-- ===== src/Hlsl/SigPoint/Versions.antt =====
-- The versions in the interpretation of semantics of Src/HLSL/DxilSigPoint.cpp.
use dilithium.Base.{ℕ, ◌<◌, ◌≤◌, ◌≡◌, ◌≢◌, refl, arith, ◌⊎◌, true, Option, none, some, get_elem?}
use dilithium.Hlsl.SigPoint.{
  SigPointKind, SemanticKind, SemanticInterpretationKind, sig_point_no, na,
}
use dilithium.Hlsl.SigPoint.Interpretation.{
  VersionedInterpretation, is_from, interpretation_of, interpretation_row, get_interpretation,
}

-- The order of versions.
abbrev pub IsLater : ℕ → ℕ → ℕ → ℕ → Type 0
IsLater major minor major' minor' = (major < major') ⊎ (major ≡ major') × (minor ≤ minor')

is_from-later :
    (vsi : VersionedInterpretation) (major minor major' minor' : ℕ)
    → IsLater major minor major' minor'
    → is_from vsi major minor ≡ true
    → is_from vsi major' minor' ≡ true
unfolding is_from
is_from-later vsi major minor major' minor' later e = ground (arith, later, e)

interpretation_of-later :
    (vsi : VersionedInterpretation) (major minor major' minor' : ℕ)
    → IsLater major minor major' minor'
    → interpretation_of vsi major minor ≢ na
    → interpretation_of vsi major' minor' ≡ interpretation_of vsi major minor
interpretation_of-later vsi major minor major' minor' later some_kind =
    ground (arith, is_from-later vsi major minor major' minor' later)

-- A semantic that has an interpretation at a sig point in a version of the shader model has the same
-- in every later version.
pub get_interpretation-later :
    (sk : SemanticKind) (kind : SigPointKind) (major minor major' minor' : ℕ)
    → IsLater major minor major' minor'
    → get_interpretation sk kind major minor ≢ na
    → get_interpretation sk kind major' minor' ≡ get_interpretation sk kind major minor
unfolding get_interpretation
get_interpretation-later sk kind major minor major' minor' later other =
    go (get_elem? (interpretation_row sk) (sig_point_no kind)) other
  where
    at : Option VersionedInterpretation → ℕ → ℕ → SemanticInterpretationKind
    at found major minor = elim found [ none ↦ na | some vsi ↦ interpretation_of vsi major minor ]

    go :
        (found : Option VersionedInterpretation)
        → at found major minor ≢ na
        → at found major' minor' ≡ at found major minor
    go none other = refl
    go (some vsi) other = interpretation_of-later vsi major minor major' minor' later other
