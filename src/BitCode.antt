-- ===== src/BitCode.antt =====
-- Include/Dilithium/BitCodes.hpp: the fixed codes of a bitstream, and abbreviation operands.
pub mod Laws
use dilithium.Base.{ℕ, ◌+◌, ◌-◌, Bool, true, false, if◌then◌else◌, ltb, ◌==◌}
use dilithium.Base.{Option, none, some, List}

abbrev pub block_id_width : ℕ
block_id_width = 8

abbrev pub code_len_width : ℕ
code_len_width = 4

abbrev pub block_size_width : ℕ
block_size_width = 32

-- FixedAbbrevId
abbrev pub end_block_id : ℕ
end_block_id = 0

abbrev pub enter_subblock_id : ℕ
enter_subblock_id = 1

abbrev pub define_abbrev_id : ℕ
define_abbrev_id = 2

abbrev pub unabbrev_record_id : ℕ
unabbrev_record_id = 3

abbrev pub first_application_abbrev : ℕ
first_application_abbrev = 4

-- StandardBlockId
abbrev pub block_info_block_id : ℕ
block_info_block_id = 0

-- BlockInfoCode
abbrev pub set_block_id_code : ℕ
set_block_id_code = 1

abbrev pub block_name_code : ℕ
block_name_code = 2

abbrev pub set_record_name_code : ℕ
set_record_name_code = 3

pub data Encoding : Type 0 where
  fixed vbr array char6 blob : Encoding

-- The enumerator that a number stands for; HasEncodingData does not return at any other number.
unfoldable pub encoding_of : ℕ → Option Encoding
encoding_of n =
    if n == 1
    then some fixed
    else if n == 2
    then some vbr
    else if n == 3
    then some array
    else if n == 4
    then some char6
    else if n == 5
    then some blob
    else none

-- BitCodeAbbrevOp: a literal, or an encoding with its data (0 where it has none).
pub data AbbrevOp : Type 0 where
  literal : ℕ → AbbrevOp
  encoded : Encoding → ℕ → AbbrevOp

unfoldable pub is_literal : AbbrevOp → Bool
is_literal (literal v) = true
is_literal (encoded e d) = false

unfoldable pub has_encoding_data : Encoding → Bool
has_encoding_data fixed = true
has_encoding_data vbr = true
has_encoding_data array = false
has_encoding_data char6 = false
has_encoding_data blob = false

-- `none` is the assertion, or the unreachable end.
unfoldable pub decode_char6 : ℕ → Option ℕ
decode_char6 v =
    if ltb v 26
    then some (v + b'a')
    else if ltb v (26 + 26)
    then some (v - 26 + b'A')
    else if ltb v (26 + 26 + 10)
    then some (v - 26 - 26 + b'0')
    else if v == 62
    then some b'.'
    else if v == 63
    then some b'_'
    else none

-- BitCodeAbbrev: its operand list. `Add` appends.
abbrev pub Abbrev : Type 0
Abbrev = List AbbrevOp
