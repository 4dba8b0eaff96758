-- ===== src/Hlsl/ShaderModel/Lookup.antt =====
-- The look-ups of Src/HLSL/DxilShaderModel.cpp by index, by version and by name.
use dilithium.Base.{ℕ, zero, suc, ◌<◌, ◌≡◌, refl, arith, ◌⊎◌, inl, inr, true}
use dilithium.Base.{
  List, [], ◌∷◌, All, take, subst, sym, get_elem?-some, get_elem?, none, some, Bool-cases,
}
use dilithium.Hlsl.ShaderModel.{
  ShaderKind, ShaderModel, shader_models, count, get_model, has_version,
}
use dilithium.Hlsl.ShaderModel.{
  find_model, get_version, get_by_name, kind_of_letter, major_of_digit,
}
use dilithium.Hlsl.ShaderModel.{minor_of_digit, invalid_model}

-- The two look-ups find the model itself.
abbrev pub IsFound : ShaderModel → Type 0
IsFound sm = (get_version sm.kind sm.major sm.minor ≡ sm) × (get_by_name sm.name ≡ some sm)

table-IsFound : All IsFound (take 26 shader_models)
unfolding get_version get_by_name find_model shader_models kind_of_letter major_of_digit
    minor_of_digit
table-IsFound = (
  (refl, refl),
  (
    (refl, refl),
    (
      (refl, refl),
      (
        (refl, refl),
        (
          (refl, refl),
          (
            (refl, refl),
            (
              (refl, refl),
              (
                (refl, refl),
                (
                  (refl, refl),
                  (
                    (refl, refl),
                    (
                      (refl, refl),
                      (
                        (refl, refl),
                        (
                          (refl, refl),
                          (
                            (refl, refl),
                            (
                              (refl, refl),
                              (
                                (refl, refl),
                                (
                                  (refl, refl),
                                  (
                                    (refl, refl),
                                    (
                                      (refl, refl),
                                      (
                                        (refl, refl),
                                        (
                                          (refl, refl),
                                          (
                                            (refl, refl),
                                            (
                                              (refl, refl),
                                              ((refl, refl), ((refl, refl), ((refl, refl), tt))),
                                            ),
                                          ),
                                        ),
                                      ),
                                    ),
                                  ),
                                ),
                              ),
                            ),
                          ),
                        ),
                      ),
                    ),
                  ),
                ),
              ),
            ),
          ),
        ),
      ),
    ),
  ),
)

none≢some : (a : ShaderModel) → none ≡ some a → ⊥
none≢some a h = cc

some-injective : (a b : ShaderModel) → some a ≡ some b → a ≡ b
some-injective a b h = cc

-- What the look-up by index gives is one of the first entries of a list.
nth-All :
    (P : ShaderModel → Type 0) (n i : ℕ) (sms : List ShaderModel)
    → All P (take n sms)
    → i < n
    → (sm : ShaderModel) → get_elem? sms i ≡ some sm
    → P sm
nth-All P zero i sms h lt sm at = absurd (omega arith)
nth-All P (suc n) i [] h lt sm at = absurd (none≢some sm at)
nth-All P (suc n) zero (x ∷ xs) (p, ps) lt sm at = subst P (some-injective x sm at) p
nth-All P (suc n) (suc i) (x ∷ xs) (p, ps) lt sm at = nth-All P n i xs ps (omega arith) sm at

get_model-some :
    (i : ℕ) (sm : ShaderModel) → i < count → get_elem? shader_models i ≡ some sm → get_model i ≡ sm
unfolding get_model
get_model-some i sm lt at = ground (arith, at)

-- The model at each index below the number of models is what the look-up by its kind and version
-- gives, and what the look-up by its name gives.
pub get_model-IsFound : (i : ℕ) → i < count → IsFound (get_model i)
unfolding get_model count shader_models
get_model-IsFound i lt =
    let (sm, at) = get_elem?-some shader_models i (omega arith) in
    let found = nth-All IsFound 26 i shader_models table-IsFound lt sm at in
    subst IsFound (sym (get_model-some i sm lt at)) found

find_model-has_version :
    (kind : ShaderKind) (major minor : ℕ) (sms : List ShaderModel)
    → (find_model kind major minor sms ≡ invalid_model)
      ⊎ (has_version kind major minor (find_model kind major minor sms) ≡ true)
unfolding find_model
find_model-has_version kind major minor [] = inl refl
find_model-has_version kind major minor (sm ∷ sms) =
    elim (Bool-cases (has_version kind major minor sm)) [
      | inl hit ↦ inr (ground (arith, hit))
      | inr miss ↦ ground (arith, miss, find_model-has_version kind major minor sms)
    ]

-- The version that is looked up is the one found, if it is not the invalid model.
pub get_version-has_version :
    (kind : ShaderKind) (major minor : ℕ)
    → (get_version kind major minor ≡ invalid_model)
      ⊎ (has_version kind major minor (get_version kind major minor) ≡ true)
unfolding get_version
get_version-has_version kind major minor = find_model-has_version kind major minor shader_models
