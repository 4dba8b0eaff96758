-- ===== src/Container.antt =====
-- Src/HLSL/DxilContainer.cpp and the structs of Include/Dilithium/dxc/HLSL/DxilContainer.hpp, over a
-- memory of bytes; and how Tools/DilithiumDisasm/DilithiumDisasm.cpp finds the bitcode in a program.
-- A pointer is an offset into the memory; `none` is a read outside it. `size_t` has 64 bits.
pub mod Parts
pub mod Programs
pub mod Disasm
mod Tests
use dilithium.Base.{ℕ, zero, suc, ◌+◌, ◌-◌, ◌*◌, ◌%◌, ◌^◌, bit_and, ◌/◌}
use dilithium.Base.{Bool, true, false, not, if◌then◌else◌, ltb, leb, ◌==◌}
use dilithium.Base.{Option, none, some, List, read_le}

-- MakeFourCC<...>::value
abbrev pub make_four_cc : ℕ → ℕ → ℕ → ℕ → ℕ
make_four_cc a b c d = a + b * 2 ^ 8 + c * 2 ^ 16 + d * 2 ^ 24

abbrev pub dfcc_container : ℕ
dfcc_container = make_four_cc b'D' b'X' b'B' b'C'

abbrev pub dfcc_dxil : ℕ
dfcc_dxil = make_four_cc b'D' b'X' b'I' b'L'

abbrev pub dfcc_shader_debug_info_dxil : ℕ
dfcc_shader_debug_info_dxil = make_four_cc b'I' b'L' b'D' b'B'

abbrev pub container_version_major : ℕ
container_version_major = 1

abbrev pub container_max_size : ℕ
container_max_size = 0x8000_0000

-- The packed sizes of DxilContainerHeader, DxilPartHeader, DxilBitcodeHeader, DxilProgramHeader.
abbrev pub container_header_size : ℕ
container_header_size = 32

abbrev pub part_header_size : ℕ
part_header_size = 8

abbrev pub bitcode_header_size : ℕ
bitcode_header_size = 16

abbrev pub program_header_size : ℕ
program_header_size = 24

-- The fields, by their offsets in the packed structs.
abbrev pub header_four_cc : List ℕ → ℕ → Option ℕ
header_four_cc mem header = read_le 4 mem header

abbrev pub version_major : List ℕ → ℕ → Option ℕ
version_major mem header = read_le 2 mem (header + 20)

abbrev pub container_size_in_bytes : List ℕ → ℕ → Option ℕ
container_size_in_bytes mem header = read_le 4 mem (header + 24)

abbrev pub part_count : List ℕ → ℕ → Option ℕ
part_count mem header = read_le 4 mem (header + 28)

abbrev pub part_offset : List ℕ → ℕ → ℕ → Option ℕ
part_offset mem header i = read_le 4 mem (header + container_header_size + 4 * i)

abbrev pub part_four_cc : List ℕ → ℕ → Option ℕ
part_four_cc mem part = read_le 4 mem part

abbrev pub part_size : List ℕ → ℕ → Option ℕ
part_size mem part = read_le 4 mem (part + 4)

infixl 5 ◌>>=◌
abbrev pub ◌>>=◌ : {A B : Type 0} → Option A → (A → Option B) → Option B
none >>= f = none
some a >>= f = f a

unfoldable pub is_dxil_container_like : List ℕ → Option ℕ → ℕ → Option (Option ℕ)
is_dxil_container_like mem none len = some none
is_dxil_container_like mem (some ptr) len = if ltb len 4 then some none else (do
  four_cc ← read_le 4 mem ptr
  if four_cc == dfcc_container then some (some ptr) else some none)

-- One round of the loop over the parts, of a container of `size` bytes.
unfoldable pub part_fits : List ℕ → ℕ → ℕ → ℕ → Option Bool
part_fits mem header size i = do
  offset ← part_offset mem header i
  if ltb ((size + 2 ^ 64 - part_header_size) % 2 ^ 64) offset then some false else (do
    data_size ← part_size mem (header + offset)
    some (leb (offset + part_header_size + data_size) size))

-- The rounds from `i` on, of which `n` are left.
unfoldable pub parts_fit : List ℕ → ℕ → ℕ → ℕ → ℕ → Option Bool
parts_fit mem header size zero i = some true
parts_fit mem header size (suc n) i = part_fits mem header size i >>= λ fits. elim fits [
  | true ↦ parts_fit mem header size n (i + 1)
  | false ↦ some false
]

-- The count of offsets, and each part.
unfoldable pub table_fits : List ℕ → ℕ → ℕ → Option Bool
unfolding parts_fit
table_fits mem header size = do
  count ← part_count mem header
  if ltb size (4 * count + container_header_size)
      then some false
      else parts_fit mem header size count 0

-- The size of the container.
unfoldable pub size_fits : List ℕ → ℕ → ℕ → Option Bool
size_fits mem header len = do
  size ← container_size_in_bytes mem header
  if ltb len size
      then some false
      else if ltb container_max_size size
      then some false
      else table_fits mem header size

-- The checks behind that of the length.
unfoldable pub header_fits : List ℕ → ℕ → ℕ → Option Bool
header_fits mem header len = do
  four_cc ← header_four_cc mem header
  if not (four_cc == dfcc_container) then some false else (do
    major ← version_major mem header
    if not (major == container_version_major) then some false else size_fits mem header len)

unfoldable pub is_valid_dxil_container : List ℕ → Option ℕ → ℕ → Option Bool
unfolding header_fits size_fits table_fits
is_valid_dxil_container mem none len = some false
is_valid_dxil_container mem (some header) len =
    if ltb len container_header_size then some false else header_fits mem header len

-- The offset of the part's header.
unfoldable pub get_dxil_container_part : List ℕ → ℕ → ℕ → Option ℕ
get_dxil_container_part mem header i = do offset ← part_offset mem header i; some (header + offset)

unfoldable pub get_dxil_part_data : ℕ → ℕ
get_dxil_part_data part = part + part_header_size

-- DxilBitcodeHeader: the sums are uint32_t.
unfoldable pub is_valid_dxil_bitcode_header : List ℕ → ℕ → ℕ → Option Bool
is_valid_dxil_bitcode_header mem header len =
    if leb len bitcode_header_size then some false else (do
      offset ← read_le 4 mem (header + 8)
      size ← read_le 4 mem (header + 12)
      magic ← read_le 4 mem header
      let sum = (offset + size) % 2 ^ 32
      if leb sum offset
          then some false
          else if ltb len sum
          then some false
          else some (magic == dfcc_dxil))

-- `len` is a uint32_t.
unfoldable pub is_valid_dxil_program_header : List ℕ → ℕ → ℕ → Option Bool
unfolding is_valid_dxil_bitcode_header
is_valid_dxil_program_header mem header len =
    if ltb len program_header_size then some false else (do
      size_in_uint32 ← read_le 4 mem (header + 4)
      if ltb len (size_in_uint32 * 4)
          then some false
          else is_valid_dxil_bitcode_header mem (header + 8) (len - 8))

-- The bitcode and its length.
unfoldable pub get_dxil_program_bitcode : List ℕ → ℕ → Option (ℕ × ℕ)
get_dxil_program_bitcode mem header = do
  offset ← read_le 4 mem (header + 16)
  size ← read_le 4 mem (header + 20)
  some (header + 8 + offset, size)

-- (program_version & 0xFFFF0000U) >> 16
unfoldable pub get_version_shader_type : ℕ → ℕ
get_version_shader_type program_version = bit_and program_version 0xffff_0000 / 2 ^ 16
