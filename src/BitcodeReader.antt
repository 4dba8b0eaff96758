-- ===== src/BitcodeReader.antt =====
-- Src/BitcodeReader.cpp: the wrapper that a bitcode file may have, over a memory of bytes in which a
-- pointer is an offset and a read outside is `none`.
pub mod Wrapper
pub mod TypeTable
pub mod Values
mod Tests
use dilithium.Base.{
  ℕ, ◌+◌, ◌-◌, ◌*◌, ◌%◌, ◌^◌, Bool, true, false, ◌&&◌, if◌then◌else◌, ltb, ◌==◌, Option, none, some,
  List, [], ◌∷◌, read_le,
}

abbrev pub known_header_size : ℕ
known_header_size = 4 * 4

abbrev pub offset_field : ℕ
offset_field = 2 * 4

abbrev pub size_field : ℕ
size_field = 3 * 4

-- The bytes are compared in order, up to the first that differs.
unfoldable pub bytes_match : List ℕ → ℕ → List ℕ → Option Bool
bytes_match mem at [] = some true
bytes_match mem at (v ∷ vs) = elim (read_le 1 mem at) [
  | none ↦ none
  | some b ↦ elim (b == v) [ true ↦ bytes_match mem (at + 1) vs | false ↦ some false ]
]

-- IsBitcodeWrapper
unfoldable pub is_bitcode_wrapper : List ℕ → ℕ → ℕ → Option Bool
unfolding bytes_match
is_bitcode_wrapper mem buf_beg buf_end =
    if buf_beg == buf_end
    then some false
    else bytes_match mem buf_beg (0xDE ∷ 0xC0 ∷ 0x17 ∷ 0x0B ∷ [])

-- The ranges that are answered where the fields of the header are read: `none` is `true`, an error.
abbrev pub wrapped_range : ℕ → ℕ → Bool → ℕ → ℕ → Option (ℕ × ℕ)
wrapped_range buf_beg buf_end verify_buff_size offset size =
    if verify_buff_size && ltb ((buf_end - buf_beg) % 2 ^ 32) ((offset + size) % 2 ^ 32)
    then none
    else some (buf_beg + offset, buf_beg + offset + size)

-- SkipBitcodeWrapperHeader
unfoldable pub skip_bitcode_wrapper_header : List ℕ → ℕ → ℕ → Bool → Option (Option (ℕ × ℕ))
skip_bitcode_wrapper_header mem buf_beg buf_end verify_buff_size =
    if ltb (buf_end - buf_beg) known_header_size
    then some none
    else elim (read_le 4 mem (buf_beg + offset_field)) [
      | none ↦ none
      | some offset ↦ elim (read_le 4 mem (buf_beg + size_field)) [
        | none ↦ none
        | some size ↦ some (wrapped_range buf_beg buf_end verify_buff_size offset size)
      ]
    ]
