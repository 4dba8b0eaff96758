-- ===== src/BitcodeReader/Values/Tests.antt =====
-- Runs of the decoders of Src/BitcodeReader.cpp.
use dilithium.Base.{◌-◌, ◌^◌, ◌≡◌, refl, arith}
use dilithium.BitcodeReader.Values.{
  decode_sign_rotated_value, decoded_linkage, link_once_odr_linkage, external_linkage,
  upgrade_dll_import_export_linkage, default_storage_class, dll_export_storage_class, switch,
}
use dilithium.BitcodeReader.Values.Signed.{sign_rotated, decode_sign_rotated_value-sign_rotated}

minus_three_runs : decode_sign_rotated_value 7 ≡ 2 ^ 64 - 3
unfolding decode_sign_rotated_value
minus_three_runs = refl

min_int_runs : decode_sign_rotated_value 1 ≡ 2 ^ 63
unfolding decode_sign_rotated_value
min_int_runs = refl

link_once_runs : decoded_linkage 11 ≡ link_once_odr_linkage
unfolding decoded_linkage switch
link_once_runs = refl

unknown_linkage_runs : decoded_linkage 20 ≡ external_linkage
unfolding decoded_linkage switch
unknown_linkage_runs = refl

upgrade_runs : upgrade_dll_import_export_linkage default_storage_class 6 ≡ dll_export_storage_class
unfolding upgrade_dll_import_export_linkage switch
upgrade_runs = refl

decode_sign_rotated_value-sign_rotated_example :
    (decode_sign_rotated_value (sign_rotated (2 ^ 64 - 3)) ≡ 2 ^ 64 - 3)
    × (sign_rotated (decode_sign_rotated_value (2 ^ 64 - 3)) ≡ 2 ^ 64 - 3)
decode_sign_rotated_value-sign_rotated_example =
    decode_sign_rotated_value-sign_rotated (2 ^ 64 - 3) (omega arith)
