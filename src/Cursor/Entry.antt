-- ===== src/Cursor/Entry.antt =====
-- Src/BitstreamReader.cpp: Advance, AdvanceSkippingSubblocks and ReadBlockInfoBlock.
use dilithium.Base.{ℕ, zero, suc, ◌-◌, ◌%◌, ◌^◌, bit_and}
use dilithium.Base.{Bool, true, false, not, ◌&&◌, ◌||◌, if◌then◌else◌, ◌==◌}
use dilithium.Base.{Option, none, some, List, [], ◌∷◌, ◌++◌, length, get_elem?, set, take}
use dilithium.BitCode.{Abbrev, end_block_id, enter_subblock_id, define_abbrev_id}
use dilithium.BitCode.{
  block_info_block_id, set_block_id_code, block_name_code, set_record_name_code,
}
use dilithium.Cursor.State.{BlockInfo, M, ◌>>=◌, ◌>>◌, pure, throw}
use dilithium.Cursor.State.{ok, fail, undefined, exhausted}
use dilithium.Cursor.Vbr.{bits_left}
use dilithium.Cursor.Abbrev.{read_abbrev_record}
use dilithium.Cursor.Record.{read_record}
use dilithium.Cursor.Block.{enter_sub_block, read_block_end, skip_block, read_code}
use dilithium.Cursor.Block.{read_sub_block_id, has_block_info_records, get_or_create_block_info}

-- BitStreamEntry
pub data Entry : Type 0 where
  error end_block : Entry
  sub_block : ℕ → Entry
  an_record : ℕ → Entry

-- AF_DontPopBlockAtEnd and AF_DontAutoprocessAbbrevs
abbrev pub dont_pop_block_at_end : ℕ
dont_pop_block_at_end = 1

abbrev pub dont_autoprocess_abbrevs : ℕ
dont_autoprocess_abbrevs = 2

abbrev pub has_flag : ℕ → ℕ → Bool
has_flag flags f = not (bit_and flags f == 0)

-- What Advance does with a code that ends its loop.
unfoldable pub entry_of : ℕ → ℕ → M Entry
entry_of flags code =
    if code == end_block_id
    then (if has_flag flags dont_pop_block_at_end
        then pure end_block
        else (do failed ← read_block_end; if failed then pure error else pure end_block))
    else if code == enter_subblock_id
    then (do id ← read_sub_block_id; pure (sub_block id))
    else pure (an_record code)

-- The loop goes on after an abbreviation definition that it takes in itself.
abbrev pub is_auto_abbrev : ℕ → ℕ → Bool
is_auto_abbrev flags code =
    code == define_abbrev_id && not (has_flag flags dont_autoprocess_abbrevs)

unfoldable pub advance_loop : ℕ → ℕ → M Entry
unfolding entry_of
advance_loop zero flags = throw exhausted
advance_loop (suc fuel) flags = do
  code ← read_code
  if is_auto_abbrev flags code
      then (read_abbrev_record >>= λ _. advance_loop fuel flags)
      else entry_of flags code

-- A round that goes on takes a bit at least.
unfoldable pub advance : ℕ → M Entry
unfolding advance_loop
advance flags c = advance_loop (suc (bits_left c)) flags c

unfoldable pub advance_skipping_loop : ℕ → ℕ → M Entry
advance_skipping_loop zero flags = throw exhausted
advance_skipping_loop (suc fuel) flags = do
  entry ← advance flags
  elim entry [
    | error ↦ pure error
    | end_block ↦ pure end_block
    | an_record id ↦ pure (an_record id)
    | sub_block id ↦ skip_block >>= λ failed c. elim failed [
      | true ↦ ok (error, c)
      | false ↦ advance_skipping_loop fuel flags c
    ]
  ]

unfoldable pub advance_skipping_subblocks : ℕ → M Entry
unfolding advance_skipping_loop
advance_skipping_subblocks flags c = advance_skipping_loop (suc (bits_left c)) flags c

-- curr_block_info->abbrevs.push_back(std::move(curr_abbrevs_.back())); curr_abbrevs_.pop_back()
abbrev add_to_info : List BlockInfo → ℕ → Abbrev → List BlockInfo
add_to_info infos i a = elim (get_elem? infos i) [
  | none ↦ infos
  | some b ↦ set infos i (record b { abbrevs = b.abbrevs ++ (a ∷ []) })
]

unfoldable pub move_abbrev_to_info : ℕ → M (Unit {0})
move_abbrev_to_info i c = elim (get_elem? c.curr_abbrevs (length c.curr_abbrevs - 1)) [
  | none ↦ fail undefined
  | some a ↦ ok (
    tt,
    record c {
      reader = record c.reader { block_infos = add_to_info c.reader.block_infos i a };
      curr_abbrevs = take (length c.curr_abbrevs - 1) c.curr_abbrevs;
    },
  )
]

-- The switch on a record of the block: the new `curr_block_info`, or `none` for `return true`.
unfoldable pub block_info_record : ℕ → List ℕ → Option ℕ → M (Option (Option ℕ))
block_info_record code vals curr c =
    if code == set_block_id_code
    then elim (get_elem? vals 0) [
      | none ↦ ok (none, c)
      | some id ↦
          let (i, infos) = get_or_create_block_info c.reader.block_infos (id % 2 ^ 32) in
          ok (some (some i), record c { reader = record c.reader { block_infos = infos } })
    ]
    else if code == block_name_code || code == set_record_name_code
    then ok (elim curr [ none ↦ none | some i ↦ some (some i) ], c)
    else ok (some curr, c)

unfoldable pub block_info_loop : ℕ → Option ℕ → M Bool
unfolding move_abbrev_to_info block_info_record
block_info_loop zero curr = throw exhausted
block_info_loop (suc fuel) curr = do
  entry ← advance_skipping_subblocks dont_autoprocess_abbrevs
  elim entry [
    | error ↦ pure true
    | sub_block id ↦ pure true
    | end_block ↦ pure false
    | an_record id ↦
        if id == define_abbrev_id
        then (λ c. elim curr [
          | none ↦ ok (true, c)
          | some i ↦
              ((read_abbrev_record >> move_abbrev_to_info i) >>= λ _. block_info_loop fuel (some i))
                c
        ])
        else ((read_record id [] >>= λ r. block_info_record r.0 r.1 curr) >>= λ next c. elim next [
          | none ↦ ok (true, c)
          | some curr' ↦ block_info_loop fuel curr' c
        ])
  ]

unfoldable pub read_block_info_block : M Bool
unfolding block_info_loop
read_block_info_block c =
    if has_block_info_records c
    then skip_block c
    else elim (enter_sub_block block_info_block_id c) [
      | fail e ↦ fail e
      | ok ((true, _), c') ↦ ok (true, c')
      | ok ((false, _), c') ↦ block_info_loop (suc (bits_left c')) none c'
    ]
