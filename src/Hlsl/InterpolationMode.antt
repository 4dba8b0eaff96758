-- ===== src/Hlsl/InterpolationMode.antt =====
-- Src/HLSL/DxilInterpolationMode.cpp and its header. A value of the enumeration, which has an
-- underlying `uint8_t`, is its number.
pub mod Laws
use dilithium.Base.{ℕ, ◌+◌, ◌*◌, ◌%◌, ◌^◌, Bool, true, false, ◌&&◌, ◌||◌, not, ltb, leb, ◌==◌}
use dilithium.Base.{List, [], ◌∷◌, Option, none, some, if◌then◌else◌, get_elem?}

-- InterpolationMode. The prefix Linear is spelled out, as in the source.
abbrev pub undefined_mode : ℕ
undefined_mode = 0

abbrev pub constant : ℕ
constant = 1

abbrev pub linear : ℕ
linear = 2

abbrev pub linear_centroid : ℕ
linear_centroid = 3

abbrev pub linear_noperspective : ℕ
linear_noperspective = 4

abbrev pub linear_noperspective_centroid : ℕ
linear_noperspective_centroid = 5

abbrev pub linear_sample : ℕ
linear_sample = 6

abbrev pub linear_noperspective_sample : ℕ
linear_noperspective_sample = 7

abbrev pub invalid_mode : ℕ
invalid_mode = 8

-- The constructor from a number: the cast keeps the low byte.
unfoldable pub mode_of_number : ℕ → ℕ
mode_of_number kind = let k = kind % 2 ^ 8 in if leb invalid_mode k then invalid_mode else k

abbrev pub bit : Bool → ℕ
bit true = 1
bit false = 0

-- no_interpolation, linear, no_perspective, centroid, sample, from the highest bit down.
unfoldable pub mode_mask : Bool → Bool → Bool → Bool → Bool → ℕ
mode_mask ni l np c s = bit ni * 16 + bit l * 8 + bit np * 4 + bit c * 2 + bit s

-- interp_mode_tab
unfoldable pub mode_table : List ℕ
mode_table =
    undefined_mode ∷ linear_sample ∷ linear_centroid ∷ linear_sample ∷ linear_noperspective
    ∷ linear_noperspective_sample ∷ linear_noperspective_centroid ∷ linear_noperspective_sample
    ∷ linear ∷ linear_sample ∷ linear_centroid ∷ linear_sample ∷ linear_noperspective
    ∷ linear_noperspective_sample ∷ linear_noperspective_centroid ∷ linear_noperspective_sample
    ∷ constant ∷ invalid_mode ∷ invalid_mode ∷ invalid_mode ∷ invalid_mode ∷ invalid_mode
    ∷ invalid_mode ∷ invalid_mode ∷ invalid_mode ∷ invalid_mode ∷ invalid_mode ∷ invalid_mode
    ∷ invalid_mode ∷ invalid_mode ∷ invalid_mode ∷ invalid_mode ∷ []

-- The constructor from flags; `none` is a read outside the table.
unfoldable pub mode_of_flags : Bool → Bool → Bool → Bool → Bool → Option ℕ
unfolding mode_table mode_mask
mode_of_flags ni l np c s = get_elem? mode_table (mode_mask ni l np c s)

unfoldable pub is_any_linear : ℕ → Bool
is_any_linear k = ltb k invalid_mode && not (k == undefined_mode) && not (k == constant)

unfoldable pub is_any_no_perspective : ℕ → Bool
is_any_no_perspective k =
    k == linear_noperspective
    || k == linear_noperspective_centroid
    || k == linear_noperspective_sample

unfoldable pub is_any_centroid : ℕ → Bool
is_any_centroid k = k == linear_centroid || k == linear_noperspective_centroid

unfoldable pub is_any_sample : ℕ → Bool
is_any_sample k = k == linear_sample || k == linear_noperspective_sample
