-- ===== src/Container/Tests.antt =====
-- A container with one part, a program whose bitcode has four bytes.
use dilithium.Base.{ℕ, ◌+◌, ◌/◌, ◌%◌, ◌^◌, ◌<◌, ◌≤◌, ◌≡◌, refl, arith, Bool, true, ◌&&◌, ltb}
use dilithium.Base.{some, List, [], ◌∷◌, ◌++◌, replicate, All, IsByte, read_le, le_value}
use dilithium.Container.{
  is_valid_dxil_container, header_fits, size_fits, table_fits, parts_fit, part_fits,
  is_valid_dxil_program_header, is_valid_dxil_bitcode_header, get_dxil_program_bitcode,
}
use dilithium.Container.Parts.{IsReadable, is_valid_dxil_container-IsReadable}
use dilithium.Container.Programs.{is_valid_dxil_program_header-bitcode}
use dilithium.Container.Disasm.{Located, locate_bitcode}
use dilithium.Container.Disasm.Safety.{IsInside, locate_bitcode-IsInside}

-- Four bytes of a number below 2 ^ 32.
abbrev u32 : ℕ → List ℕ
u32 v = v % 256 ∷ v / 2 ^ 8 % 256 ∷ v / 2 ^ 16 % 256 ∷ v / 2 ^ 24 % 256 ∷ []

abbrev program : List ℕ
program =
    u32 0x1_0060
    ++ u32 7
    ++ (b'D' ∷ b'X' ∷ b'I' ∷ b'L' ∷ [])
    ++ u32 256
    ++ u32 16
    ++ u32 4
    ++ (b'B' ∷ b'C' ∷ 0xc0 ∷ 0xde ∷ [])

abbrev container : List ℕ
container =
    (b'D' ∷ b'X' ∷ b'B' ∷ b'C' ∷ [])
    ++ replicate 16 0
    ++ (1 ∷ 0 ∷ 0 ∷ 0 ∷ [])
    ++ u32 72
    ++ u32 1
    ++ u32 36
    ++ (b'D' ∷ b'X' ∷ b'I' ∷ b'L' ∷ [])
    ++ u32 28
    ++ program

all_bytes : List ℕ → Bool
all_bytes [] = true
all_bytes (x ∷ xs) = ltb x 256 && all_bytes xs

all_bytes-All : (xs : List ℕ) → all_bytes xs ≡ true → All IsByte xs
unfolding all_bytes
all_bytes-All [] h = tt
all_bytes-All (x ∷ xs) h = (ground (arith, h), all_bytes-All xs (ground (arith, h)))

container-IsByte : All IsByte container
unfolding all_bytes
container-IsByte = all_bytes-All container refl

container_valid : is_valid_dxil_container container (some 0) 72 ≡ some true
unfolding is_valid_dxil_container header_fits size_fits table_fits parts_fit part_fits read_le
    le_value
container_valid = refl

is_valid_dxil_container-IsReadable_example : IsReadable container 0 72
is_valid_dxil_container-IsReadable_example =
    is_valid_dxil_container-IsReadable container 0 72 container_valid

program_valid : is_valid_dxil_program_header container 44 28 ≡ some true
unfolding is_valid_dxil_program_header is_valid_dxil_bitcode_header read_le le_value
program_valid = refl

is_valid_dxil_program_header-bitcode_example :
    (start : ℕ) × (size : ℕ) × (get_dxil_program_bitcode container 44 ≡ some (start, size))
    × (52 ≤ start)
    × (0 < size)
    × (start + size ≤ 72)
is_valid_dxil_program_header-bitcode_example =
    is_valid_dxil_program_header-bitcode container 44 28 container-IsByte (omega arith)
      program_valid

locate_bitcode-IsInside_example :
    (l : Located) × (locate_bitcode container ≡ some l) × IsInside 72 l
locate_bitcode-IsInside_example = locate_bitcode-IsInside container container-IsByte
