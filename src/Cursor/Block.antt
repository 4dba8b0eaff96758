-- ===== src/Cursor/Block.antt =====
-- Src/BitstreamReader.cpp: the block infos of the reader, and entering, leaving and skipping a
-- block.
use dilithium.Base.{ℕ, ◌+◌, ◌-◌, ◌*◌, ◌/◌, ◌%◌, ◌^◌}
use dilithium.Base.{Bool, true, false, not, ◌||◌, if◌then◌else◌, ltb, ◌==◌}
use dilithium.Base.{Option, none, some, List, [], ◌∷◌, ◌++◌, length, get_elem?}
use dilithium.BitCode.{Abbrev, code_len_width, block_size_width, block_id_width}
use dilithium.Cursor.State.{Cursor, BlockInfo, Block, M, ◌>>=◌, ◌>>◌, pure, throw, get, modify}
use dilithium.Cursor.State.{undefined, can_skip_to_pos, curr_bit_no}
use dilithium.Cursor.Word.{read, at_end_of_stream, jump_to_bit, skip_to_four_byte_boundary}
use dilithium.Cursor.Vbr.{read_vbr}

abbrev pub has_block_info_records : Cursor → Bool
has_block_info_records c = not (length c.reader.block_infos == 0)

-- The first record of the block, counted from `i`.
unfoldable pub find_block_info : List BlockInfo → ℕ → ℕ → Option ℕ
find_block_info [] block_id i = none
find_block_info (b ∷ bs) block_id i =
    if b.block_id == block_id then some i else find_block_info bs block_id (i + 1)

-- block_info_records_.back() is of the block.
abbrev pub is_last_block_info : List BlockInfo → ℕ → Bool
is_last_block_info infos block_id = elim (get_elem? infos (length infos - 1)) [
  | none ↦ false
  | some b ↦ b.block_id == block_id
]

-- The pointer that GetBlockInfo returns, as an index.
unfoldable pub get_block_info : List BlockInfo → ℕ → Option ℕ
unfolding find_block_info
get_block_info infos block_id =
    if is_last_block_info infos block_id
    then some (length infos - 1)
    else find_block_info infos block_id 0

unfoldable pub get_or_create_block_info : List BlockInfo → ℕ → ℕ × List BlockInfo
unfolding get_block_info
get_or_create_block_info infos block_id = elim (get_block_info infos block_id) [
  | some i ↦ (i, infos)
  | none ↦ (length infos, infos ++ (record { block_id = block_id; abbrevs = [] } ∷ []))
]

-- The abbreviations that a block's info gives it at its start.
abbrev pub info_abbrevs : List BlockInfo → ℕ → List Abbrev
info_abbrevs infos block_id = elim (get_block_info infos block_id) [
  | none ↦ []
  | some i ↦ elim (get_elem? infos i) [ none ↦ [] | some b ↦ b.abbrevs ]
]

unfoldable pub push_block_scope : ℕ → Cursor → Cursor
unfolding get_block_info
push_block_scope block_id c = record c {
  block_scope =
      record { prev_code_size = c.curr_code_size; prev_abbrevs = c.curr_abbrevs } ∷ c.block_scope;
  curr_abbrevs = info_abbrevs c.reader.block_infos block_id;
}

-- `true` is the error; the second part is what is written through `num_words_ptr`, if anything.
unfoldable pub enter_sub_block : ℕ → M (Bool × Option ℕ)
unfolding push_block_scope
enter_sub_block block_id = do
  modify (push_block_scope block_id)
  width ← read_vbr code_len_width
  modify (λ c. record c { curr_code_size = width })
  if ltb 64 width then pure (true, none) else (do
    skip_to_four_byte_boundary
    v ← read block_size_width
    let num_words = v % 2 ^ 32
    if width == 0
        then pure (true, some num_words)
        else (do at_end ← at_end_of_stream; pure (at_end, some num_words)))

abbrev pop_scope : List Block → M (Unit {0})
pop_scope [] = throw undefined
pop_scope (b ∷ bs) = modify λ c. record c {
  curr_code_size = b.prev_code_size;
  curr_abbrevs = b.prev_abbrevs;
  block_scope = bs;
}

unfoldable pub pop_block_scope : M (Unit {0})
pop_block_scope c = pop_scope c.block_scope c

unfoldable pub read_block_end : M Bool
unfolding pop_block_scope
read_block_end = do
  c ← get
  if length c.block_scope == 0
      then pure true
      else (do skip_to_four_byte_boundary; pop_block_scope; pure false)

-- CurrBitNo() + num_four_bytes * 4 * 8, whose product is a uint32_t.
abbrev pub skip_target : ℕ → ℕ → ℕ
skip_target bit_pos num_four_bytes = (bit_pos + num_four_bytes * 4 * 8 % 2 ^ 32) % 2 ^ 64

unfoldable pub skip_block : M Bool
skip_block = do
  read_vbr code_len_width
  skip_to_four_byte_boundary
  v ← read block_size_width
  c ← get
  let skip_to = skip_target (curr_bit_no c) (v % 2 ^ 32)
  at_end ← at_end_of_stream
  c' ← get
  if at_end || not (can_skip_to_pos c' (skip_to / 8))
      then pure true
      else (do jump_to_bit skip_to; pure false)

unfoldable pub read_code : M ℕ
read_code = do c ← get; v ← read c.curr_code_size; pure (v % 2 ^ 32)

unfoldable pub read_sub_block_id : M ℕ
read_sub_block_id = read_vbr block_id_width
