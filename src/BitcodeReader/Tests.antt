-- ===== src/BitcodeReader/Tests.antt =====
-- Runs of the code of Src/BitcodeReader.cpp.
use dilithium.Base.{ℕ, ◌≤◌, ◌≡◌, refl, arith, true, some, List, [], ◌∷◌, read_le}
use dilithium.BitcodeReader.{is_bitcode_wrapper, skip_bitcode_wrapper_header}
use dilithium.BitcodeReader.Wrapper.{skip_bitcode_wrapper_header-inside}

-- A header with offset 16 and size 4, and four bytes.
abbrev wrapped : List ℕ
wrapped =
    0xDE ∷ 0xC0 ∷ 0x17 ∷ 0x0B ∷ 0 ∷ 0 ∷ 0 ∷ 0 ∷ 16 ∷ 0 ∷ 0 ∷ 0 ∷ 4 ∷ 0 ∷ 0 ∷ 0 ∷ 1 ∷ 2 ∷ 3 ∷ 4 ∷ []

wrapper_runs : is_bitcode_wrapper wrapped 0 20 ≡ some true
unfolding is_bitcode_wrapper read_le
wrapper_runs = refl

skip_runs : skip_bitcode_wrapper_header wrapped 0 20 true ≡ some (some (16, 20))
unfolding skip_bitcode_wrapper_header read_le
skip_runs = refl

-- Offset 16 and size 2 ^ 32 - 8 wrap to 8.
abbrev too_long : List ℕ
too_long =
    0xDE ∷ 0xC0 ∷ 0x17 ∷ 0x0B ∷ 0 ∷ 0 ∷ 0 ∷ 0 ∷ 16 ∷ 0 ∷ 0 ∷ 0 ∷ 0xF8 ∷ 0xFF ∷ 0xFF ∷ 0xFF ∷ []

skip_wraps : skip_bitcode_wrapper_header too_long 0 16 true ≡ some (some (16, 4294967304))
unfolding skip_bitcode_wrapper_header read_le
skip_wraps = refl

skip_bitcode_wrapper_header-inside_example : (0 ≤ 16) × (16 ≤ 20) × (20 ≤ 20)
unfolding skip_bitcode_wrapper_header read_le
skip_bitcode_wrapper_header-inside_example =
    skip_bitcode_wrapper_header-inside wrapped 0 20 16 4 16 20 (omega arith) (omega arith) refl refl
      (omega arith) refl
