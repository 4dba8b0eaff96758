-- ===== src/Container/Programs.antt =====
-- IsValidDxilProgramHeader and IsValidDxilBitcodeHeader of Src/HLSL/DxilContainer.cpp: what they
-- read, and what they accept.
use dilithium.Base.{ℕ, ◌+◌, ◌-◌, ◌*◌, ◌%◌, ◌^◌, ◌≤◌, ◌<◌, ◌≡◌, arith, inl, inr}
use dilithium.Base.{Bool, true, false, ◌&&◌, ◌==◌, ltb, leb, List, length, some, All, IsByte}
use dilithium.Base.{if◌then◌else◌, read_le, read_le-some, read_le-lt}
use dilithium.Container.{
  is_valid_dxil_program_header, is_valid_dxil_bitcode_header, get_dxil_program_bitcode, dfcc_dxil,
  ◌>>=◌,
}
use dilithium.Container.Parts.{bind-eq-some, le_or_lt}

bitcode_header-fits :
    (mem : List ℕ) (header len : ℕ)
    → All IsByte mem
    → len < 2 ^ 32
    → is_valid_dxil_bitcode_header mem header len ≡ some true
    → (offset : ℕ) × (size : ℕ) × (read_le 4 mem (header + 8) ≡ some offset)
      × (read_le 4 mem (header + 12) ≡ some size)
      × (0 < size)
      × (offset + size ≤ len)
unfolding is_valid_dxil_bitcode_header
bitcode_header-fits mem header len bytes small e =
    let (offset, at_offset, rest) =
      bind-eq-some (read_le 4 mem (header + 8))
        (λ offset. do
          size ← read_le 4 mem (header + 12)
          magic ← read_le 4 mem header
          if leb ((offset + size) % 2 ^ 32) offset
              then some false
              else if ltb len ((offset + size) % 2 ^ 32)
              then some false
              else some (magic == dfcc_dxil))
        {b = true} (ground (arith, e)) in
    let (size, at_size, rest') = bind-eq-some (read_le 4 mem (header + 12)) _ rest in
    let (magic, at_magic, rest'') = bind-eq-some (read_le 4 mem header) _ rest' in
    let offset_lt = read_le-lt 4 mem (header + 8) bytes at_offset in
    let size_lt = read_le-lt 4 mem (header + 12) bytes at_size in
    (
      offset,
      size,
      at_offset,
      at_size,
      ground (arith, rest'', offset_lt, size_lt),
      ground (arith, rest'', offset_lt, size_lt),
    )

-- The bitcode of an accepted program header of `len` bytes (a uint32_t) is not empty and lies
-- within these bytes, behind the program's version and size.
pub is_valid_dxil_program_header-bitcode :
    (mem : List ℕ) (header len : ℕ)
    → All IsByte mem
    → len < 2 ^ 32
    → is_valid_dxil_program_header mem header len ≡ some true
    → (start : ℕ) × (size : ℕ) × (get_dxil_program_bitcode mem header ≡ some (start, size))
      × (header + 8 ≤ start)
      × (0 < size)
      × (start + size ≤ header + len)
unfolding is_valid_dxil_program_header get_dxil_program_bitcode
is_valid_dxil_program_header-bitcode mem header len bytes small e =
    let (words, at_words, rest) =
      bind-eq-some (read_le 4 mem (header + 4))
        (λ words.
          if ltb len (words * 4)
          then some false
          else is_valid_dxil_bitcode_header mem (header + 8) (len - 8))
        {b = true} (ground (arith, e)) in
    let (offset, size, at_offset, at_size, some_size, fits) =
      bitcode_header-fits mem (header + 8) (len - 8) bytes (omega arith) (ground (arith, rest)) in
    (
      header + 8 + offset,
      size,
      ground (arith, at_offset, at_size),
      omega arith,
      some_size,
      ground (arith, e, fits),
    )

bitcode_header-some :
    (mem : List ℕ) (header len : ℕ)
    → header + 16 ≤ length mem
    → (b : Bool) × (is_valid_dxil_bitcode_header mem header len ≡ some b)
unfolding is_valid_dxil_bitcode_header
bitcode_header-some mem header len room =
    let (magic, at_magic) = read_le-some 4 mem header (omega arith) in
    let (offset, at_offset) = read_le-some 4 mem (header + 8) (omega arith) in
    let (size, at_size) = read_le-some 4 mem (header + 12) (omega arith) in
    (
      ltb 16 len
          && ltb offset ((offset + size) % 2 ^ 32)
          && leb ((offset + size) % 2 ^ 32) len
          && magic == dfcc_dxil,
      ground (arith, at_magic, at_offset, at_size),
    )

-- The check of a program header reads only its `len` bytes.
pub is_valid_dxil_program_header-some :
    (mem : List ℕ) (header len : ℕ)
    → header + len ≤ length mem
    → (b : Bool) × (is_valid_dxil_program_header mem header len ≡ some b)
unfolding is_valid_dxil_program_header
is_valid_dxil_program_header-some mem header len room = elim (le_or_lt 24 len) [
  | inr short ↦ (false, ground arith)
  | inl here ↦
      let (words, at_words) = read_le-some 4 mem (header + 4) (omega arith) in
      let (b, e) = bitcode_header-some mem (header + 8) (len - 8) (omega arith) in
      (leb (words * 4) len && b, ground (arith, at_words, e))
]
