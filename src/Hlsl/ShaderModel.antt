-- ===== src/Hlsl/ShaderModel.antt =====
-- Src/HLSL/DxilShaderModel.cpp and its header: the table of shader models and the look-ups in it.
-- A name is the list of its bytes; the models of the table are values, not pointers.
pub mod Lookup
use dilithium.Base.{ℕ, ◌+◌, ◌-◌, Bool, true, false, ◌&&◌, ◌||◌, not, ltb, leb, ◌==◌}
use dilithium.Base.{List, [], ◌∷◌, length, Option, none, some, if◌then◌else◌, get_elem?}

pub data ShaderKind : Type 0 where
  pixel vertex geometry hull domain compute invalid : ShaderKind

-- The number of a kind in the enumeration.
abbrev pub kind_no : ShaderKind → ℕ
kind_no pixel = 0
kind_no vertex = 1
kind_no geometry = 2
kind_no hull = 3
kind_no domain = 4
kind_no compute = 5
kind_no invalid = 6

pub record ShaderModel : Type 0 where
  pub kind : ShaderKind
  pub major : ℕ
  pub minor : ℕ
  pub name : List ℕ
  pub num_input_regs : ℕ
  pub num_output_regs : ℕ
  pub supports_uavs : Bool
  pub supports_typed_uavs : Bool
  pub num_uav_regs : ℕ

-- The constructor of the class, on a name of the form `xs_M_m`.
abbrev pub model : ShaderKind → ℕ → ℕ → ℕ → ℕ → ℕ → Bool → Bool → ℕ → ShaderModel
model kind major minor letter ir or uavs typed regs = record {
  kind = kind;
  major = major;
  minor = minor;
  name = letter ∷ b's' ∷ b'_' ∷ (b'0' + major) ∷ b'_' ∷ (b'0' + minor) ∷ [];
  num_input_regs = ir;
  num_output_regs = or;
  supports_uavs = uavs;
  supports_typed_uavs = typed;
  num_uav_regs = regs;
}

abbrev pub uint_max : ℕ
uint_max = 0xffff_ffff

abbrev pub invalid_model : ShaderModel
invalid_model = record {
  kind = invalid;
  major = 0;
  minor = 0;
  name = b'i' ∷ b'n' ∷ b'v' ∷ b'a' ∷ b'l' ∷ b'i' ∷ b'd' ∷ [];
  num_input_regs = 0;
  num_output_regs = 0;
  supports_uavs = false;
  supports_typed_uavs = false;
  num_uav_regs = 0;
}

-- SHADER_MODELS
unfoldable pub shader_models : List ShaderModel
shader_models =
    model compute 4 0 b'c' 0 0 true false 1
    ∷ model compute 4 1 b'c' 0 0 true false 1
    ∷ model compute 5 0 b'c' 0 0 true true 64
    ∷ model compute 5 1 b'c' 0 0 true true uint_max
    ∷ model compute 6 0 b'c' 0 0 true true uint_max
    ∷ model domain 5 0 b'd' 32 32 true true 64
    ∷ model domain 5 1 b'd' 32 32 true true uint_max
    ∷ model domain 6 0 b'd' 32 32 true true uint_max
    ∷ model geometry 4 0 b'g' 16 32 false false 0
    ∷ model geometry 4 1 b'g' 32 32 false false 0
    ∷ model geometry 5 0 b'g' 32 32 true true 64
    ∷ model geometry 5 1 b'g' 32 32 true true uint_max
    ∷ model geometry 6 0 b'g' 32 32 true true uint_max
    ∷ model hull 5 0 b'h' 32 32 true true 64
    ∷ model hull 5 1 b'h' 32 32 true true uint_max
    ∷ model hull 6 0 b'h' 32 32 true true uint_max
    ∷ model pixel 4 0 b'p' 32 8 false false 0
    ∷ model pixel 4 1 b'p' 32 8 false false 0
    ∷ model pixel 5 0 b'p' 32 8 true true 64
    ∷ model pixel 5 1 b'p' 32 8 true true uint_max
    ∷ model pixel 6 0 b'p' 32 8 true true uint_max
    ∷ model vertex 4 0 b'v' 16 16 false false 0
    ∷ model vertex 4 1 b'v' 32 32 false false 0
    ∷ model vertex 5 0 b'v' 32 32 true true 64
    ∷ model vertex 5 1 b'v' 32 32 true true uint_max
    ∷ model vertex 6 0 b'v' 32 32 true true uint_max
    ∷ invalid_model
    ∷ []

-- DxilShaderModel::Count
unfoldable pub count : ℕ
unfolding shader_models
count = length shader_models - 1

-- DxilShaderModel::GetInvalid and Get(idx)
unfoldable pub get_model : ℕ → ShaderModel
unfolding shader_models count
get_model idx =
    if ltb idx count
    then (elim (get_elem? shader_models idx) [ some sm ↦ sm | none ↦ invalid_model ])
    else invalid_model

abbrev pub has_version : ShaderKind → ℕ → ℕ → ShaderModel → Bool
has_version kind major minor sm =
    kind_no sm.kind == kind_no kind && sm.major == major && sm.minor == minor

-- The loop of Get(kind, major, minor).
unfoldable pub find_model : ShaderKind → ℕ → ℕ → List ShaderModel → ShaderModel
find_model kind major minor [] = invalid_model
find_model kind major minor (sm ∷ sms) =
    let rest = find_model kind major minor sms in
    if has_version kind major minor sm then sm else rest

unfoldable pub get_version : ShaderKind → ℕ → ℕ → ShaderModel
unfolding find_model shader_models
get_version kind major minor = find_model kind major minor shader_models

-- The switches of GetByName.
unfoldable pub kind_of_letter : ℕ → Option ShaderKind
kind_of_letter c =
    if c == b'p'
    then some pixel
    else if c == b'v'
    then some vertex
    else if c == b'g'
    then some geometry
    else if c == b'h'
    then some hull
    else if c == b'd'
    then some domain
    else if c == b'c'
    then some compute
    else none

unfoldable pub major_of_digit : ℕ → Option ℕ
major_of_digit c =
    if c == b'4' then some 4 else if c == b'5' then some 5 else if c == b'6' then some 6 else none

unfoldable pub minor_of_digit : ℕ → Option ℕ
minor_of_digit c = if c == b'0' then some 0 else if c == b'1' then some 1 else none

-- The reads of `name[i]`; `none` is a read past the end of the name.
abbrev byte_at : List ℕ → ℕ → (ℕ → Option ShaderModel) → Option ShaderModel
byte_at name i k = elim (get_elem? name i) [ none ↦ none | some c ↦ k c ]

-- A switch, whose default returns GetInvalid().
abbrev or_invalid : {A : Type 0} → Option A → (A → Option ShaderModel) → Option ShaderModel
or_invalid none k = some invalid_model
or_invalid (some a) k = k a

abbrev expect : Bool → Option ShaderModel → Option ShaderModel
expect true k = k
expect false k = some invalid_model

-- GetByName. What follows the first six bytes of the name is not read.
unfoldable pub get_by_name : List ℕ → Option ShaderModel
unfolding get_version kind_of_letter major_of_digit minor_of_digit
get_by_name name = byte_at name 0 (λ c0. or_invalid (kind_of_letter c0) (λ kind.
    byte_at name 1 (λ c1. expect (c1 == b's') (
      byte_at name 2 (λ c2. expect (c2 == b'_') (
        byte_at name 3 (λ c3. or_invalid (major_of_digit c3) (λ major. byte_at name 4 (λ c4.
          expect (c4 == b'_') (
            byte_at name 5 (λ c5.
              or_invalid (minor_of_digit c5)
                (λ minor. some (get_version kind major minor)))))))))))))

unfoldable pub is_valid : ShaderModel → Bool
is_valid sm = not (kind_no sm.kind == kind_no invalid)

unfoldable pub is_sm50_plus : ShaderModel → Bool
is_sm50_plus sm = leb 5 sm.major

unfoldable pub is_sm51_plus : ShaderModel → Bool
is_sm51_plus sm = ltb 5 sm.major || (sm.major == 5 && leb 1 sm.minor)
