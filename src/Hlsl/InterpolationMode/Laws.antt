-- ===== src/Hlsl/InterpolationMode/Laws.antt =====
-- What the modes are that Src/HLSL/DxilInterpolationMode.cpp makes of flags, against the code that a
-- comment beside the table has for it, and against the predicates of a mode.
use dilithium.Base.{ℕ, ◌≡◌, arith, Bool, false, ◌&&◌, ◌||◌, not, some, if◌then◌else◌}
use dilithium.Hlsl.InterpolationMode.{mode_of_flags, mode_table, mode_mask, is_any_linear}
use dilithium.Hlsl.InterpolationMode.{is_any_no_perspective, is_any_centroid, is_any_sample}
use dilithium.Hlsl.InterpolationMode.{
  undefined_mode, constant, linear, linear_centroid, linear_noperspective,
  linear_noperspective_centroid, linear_sample, linear_noperspective_sample, invalid_mode,
}

-- The code in the comment behind the table. Its test of no_interpolation under `sample` never holds.
abbrev pub commented_mode : (ni l np c s : Bool) → ℕ
commented_mode ni l np c s =
    if ni
    then if l || np || c || s then invalid_mode else constant
    else if not (l || np || c || s)
    then undefined_mode
    else if s
    then if ni then linear_noperspective_sample else linear_sample
    else if not np && not c
    then linear
    else if not np && c
    then linear_centroid
    else if np && not c
    then linear_noperspective
    else linear_noperspective_centroid

-- The mode of the table.
abbrev pub described_mode : (ni l np c s : Bool) → ℕ
described_mode ni l np c s =
    if not ni && np && s then linear_noperspective_sample else commented_mode ni l np c s

-- What the flags ask for, on modes with interpolation.
abbrev pub AgreesWithFlags : (l np c s : Bool) → ℕ → Type 0
AgreesWithFlags l np c s k =
    (is_any_linear k ≡ (l || np || c || s))
    × (is_any_no_perspective k ≡ np)
    × (is_any_sample k ≡ s)
    × (is_any_centroid k ≡ (c && not s))

-- The mode that is made of flags is, whatever the flags, that of the code which the comment beside the
-- table gives for it; except for interpolation with the sample and the no_perspective flag, where it is
-- LinearNoperspectiveSample and the comment has LinearSample. With interpolation on, the predicates of
-- the mode give the flags back, with two exceptions: a sample flag overrides the centroid flag, and
-- any of the flags makes the mode linear.
pub mode_of_flags-described_mode :
    (ni l np c s : Bool)
    → (mode_of_flags ni l np c s ≡ some (described_mode ni l np c s))
      × (ni ≡ false → AgreesWithFlags l np c s (described_mode ni l np c s))
unfolding mode_of_flags mode_table mode_mask is_any_linear is_any_no_perspective is_any_centroid
    is_any_sample
mode_of_flags-described_mode ni l np c s = ground arith
