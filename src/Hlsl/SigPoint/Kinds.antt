-- ===== src/Hlsl/SigPoint/Kinds.antt =====
-- The sig points of Src/HLSL/DxilSigPoint.cpp by their shaders and signatures.
use dilithium.Base.{◌≡◌, ◌≢◌, refl, ◌⊎◌, inl, inr, Bool, true, false}
use dilithium.Hlsl.ShaderModel
use dilithium.Hlsl.ShaderModel.{ShaderKind}
use dilithium.Hlsl.SigPoint.{
  SigPointKind, SignatureKind, get_kind, general_kind, get_sig_point,
  get_signature_kind_with_fallback, pc_in, hs_in, gs_in, cs_in, no_sig_point, input, output,
  patch_constant,
}

-- The arguments by which GetKind finds a kind.
abbrev pub is_patch_constant_kind : SigPointKind → Bool
is_patch_constant_kind pc_in = true
is_patch_constant_kind kind = false

abbrev pub is_special_kind : SigPointKind → Bool
is_special_kind pc_in = true
is_special_kind hs_in = true
is_special_kind gs_in = true
is_special_kind kind = false

-- A kind that fits a shader and a signature.
abbrev pub Fits : ShaderKind → SignatureKind → SigPointKind → Type 0
Fits shader sig kind =
    (kind ≡ no_sig_point)
    ⊎ ((get_sig_point kind).kind ≡ kind)
      × ((get_sig_point kind).shader_kind ≡ shader)
      × ((get_signature_kind_with_fallback (get_sig_point kind) ≡ sig) ⊎ (kind ≡ cs_in))

general_kind-Fits :
    (shader : ShaderKind) (sig : SignatureKind) → Fits shader sig (general_kind shader sig)
unfolding general_kind get_sig_point get_signature_kind_with_fallback
general_kind-Fits ShaderModel.vertex input = inr (refl, refl, inl refl)
general_kind-Fits ShaderModel.vertex output = inr (refl, refl, inl refl)
general_kind-Fits ShaderModel.hull input = inr (refl, refl, inl refl)
general_kind-Fits ShaderModel.hull output = inr (refl, refl, inl refl)
general_kind-Fits ShaderModel.hull patch_constant = inr (refl, refl, inl refl)
general_kind-Fits ShaderModel.domain input = inr (refl, refl, inl refl)
general_kind-Fits ShaderModel.domain output = inr (refl, refl, inl refl)
general_kind-Fits ShaderModel.domain patch_constant = inr (refl, refl, inl refl)
general_kind-Fits ShaderModel.geometry input = inr (refl, refl, inl refl)
general_kind-Fits ShaderModel.geometry output = inr (refl, refl, inl refl)
general_kind-Fits ShaderModel.pixel input = inr (refl, refl, inl refl)
general_kind-Fits ShaderModel.pixel output = inr (refl, refl, inl refl)
general_kind-Fits ShaderModel.compute input = inr (refl, refl, inr refl)
general_kind-Fits shader sig = inl refl

-- What GetKind answers fits what it was asked for: no sig point at all, or one of the table that is for
-- the shader and whose signature, or else that of the sig point it is related to, is the one asked
-- for; only the input of a compute shader has no signature in the table.
pub get_kind-Fits :
    (shader : ShaderKind) (sig : SignatureKind) (is_patch_constant is_special : Bool)
    → Fits shader sig (get_kind shader sig is_patch_constant is_special)
unfolding get_kind get_sig_point get_signature_kind_with_fallback
get_kind-Fits shader sig is_patch_constant false = general_kind-Fits shader sig
get_kind-Fits ShaderModel.hull input false true = inr (refl, refl, inl refl)
get_kind-Fits ShaderModel.hull input true true = inr (refl, refl, inl refl)
get_kind-Fits ShaderModel.geometry input is_patch_constant true = inr (refl, refl, inl refl)
get_kind-Fits shader sig is_patch_constant true = general_kind-Fits shader sig

-- GetKind finds every sig point of the table again by its shader, its signature or that of the sig
-- point it is related to, and two flags, which tell the inputs that are no elements of a signature;
-- except the input of a compute shader, which has no signature in the table.
pub get_kind-get_sig_point :
    (kind : SigPointKind)
    → kind ≢ cs_in
    → kind ≢ no_sig_point
    → get_kind
        (get_sig_point kind).shader_kind
        (get_signature_kind_with_fallback (get_sig_point kind))
        (is_patch_constant_kind kind)
        (is_special_kind kind)
      ≡ kind
unfolding get_kind get_sig_point get_signature_kind_with_fallback
get_kind-get_sig_point cs_in other no_other = absurd (other refl)
get_kind-get_sig_point no_sig_point other no_other = absurd (no_other refl)
get_kind-get_sig_point kind other no_other = refl
