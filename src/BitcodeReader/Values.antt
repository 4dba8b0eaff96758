-- ===== src/BitcodeReader/Values.antt =====
-- The fields of the records of values in Src/BitcodeReader.cpp: signed numbers, linkage, visibility
-- and storage class.
pub mod Signed
mod Linkage
mod Tests
use dilithium.Base.{
  ℕ, ◌-◌, ◌/◌, ◌%◌, ◌^◌, bit_and, Bool, true, false, if◌then◌else◌, not, ◌==◌, List, [], ◌∷◌,
}

-- DecodeSignRotatedValue. The negation of a number below 2 ^ 63 in 64 bits.
unfoldable pub decode_sign_rotated_value : ℕ → ℕ
decode_sign_rotated_value v =
    if bit_and v 1 == 0 then v / 2 else if not (v == 1) then (2 ^ 64 - v / 2) % 2 ^ 64 else 2 ^ 63

-- A switch: what stands for the number in a list of cases, or the default.
unfoldable pub switch {ℓ} : {A : Type ℓ} → ℕ → A → List (ℕ × A) → A
switch val otherwise [] = otherwise
switch val otherwise ((code, a) ∷ cases) =
    let rest = switch val otherwise cases in if val == code then a else rest

-- LinkageTypes of Include/Dilithium/GlobalValue.hpp.
pub data LinkageType : Type 0 where
  external_linkage available_externally_linkage link_once_any_linkage : LinkageType
  link_once_odr_linkage weak_any_linkage weak_odr_linkage appending_linkage : LinkageType
  internal_linkage private_linkage external_weak_linkage common_linkage : LinkageType

-- VisibilityTypes
pub data VisibilityType : Type 0 where
  default_visibility hidden_visibility protected_visibility : VisibilityType

-- DLLStorageClassTypes
pub data DllStorageClassType : Type 0 where
  default_storage_class dll_import_storage_class dll_export_storage_class : DllStorageClassType

unfoldable pub has_implicit_comdat : ℕ → Bool
unfolding switch
has_implicit_comdat val = switch val false ((1, true) ∷ (4, true) ∷ (10, true) ∷ (11, true) ∷ [])

unfoldable pub decoded_linkage : ℕ → LinkageType
unfolding switch
decoded_linkage val = switch val external_linkage (
    (0, external_linkage)
    ∷ (2, appending_linkage)
    ∷ (3, internal_linkage)
    ∷ (5, external_linkage)
    ∷ (6, external_linkage)
    ∷ (7, external_weak_linkage)
    ∷ (8, common_linkage)
    ∷ (9, private_linkage)
    ∷ (12, available_externally_linkage)
    ∷ (13, private_linkage)
    ∷ (14, private_linkage)
    ∷ (15, external_linkage)
    ∷ (1, weak_any_linkage)
    ∷ (16, weak_any_linkage)
    ∷ (10, weak_odr_linkage)
    ∷ (17, weak_odr_linkage)
    ∷ (4, link_once_any_linkage)
    ∷ (18, link_once_any_linkage)
    ∷ (11, link_once_odr_linkage)
    ∷ (19, link_once_odr_linkage)
    ∷ [])

unfoldable pub decoded_visibility : ℕ → VisibilityType
unfolding switch
decoded_visibility val =
    switch val default_visibility ((1, hidden_visibility) ∷ (2, protected_visibility) ∷ [])

unfoldable pub decoded_dll_storage_class : ℕ → DllStorageClassType
unfolding switch
decoded_dll_storage_class val =
    switch val default_storage_class
      ((1, dll_import_storage_class) ∷ (2, dll_export_storage_class) ∷ [])

-- UpgradeDLLImportExportLinkage, on the storage class of the value.
unfoldable pub upgrade_dll_import_export_linkage : DllStorageClassType → ℕ → DllStorageClassType
unfolding switch
upgrade_dll_import_export_linkage storage val =
    switch val storage ((5, dll_import_storage_class) ∷ (6, dll_export_storage_class) ∷ [])
