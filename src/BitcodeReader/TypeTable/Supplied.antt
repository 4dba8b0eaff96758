-- ===== src/BitcodeReader/TypeTable/Supplied.antt =====
-- ParseTypeTable of Src/BitcodeReader.cpp on the records that the cursor reads for it.
use dilithium.Base.{ℕ, zero, suc, ◌<◌, ◌≡◌, refl, arith, Bool, false, Option, List, [], ◌∷◌, length}
use dilithium.Types.{Ty, Types, FunctionTypes}
use dilithium.Cursor.State.{Cursor, ok}
use dilithium.Cursor.Record.{read_record}
use dilithium.Cursor.Block.{enter_sub_block}
use dilithium.Cursor.Entry.{end_block, an_record, advance_skipping_subblocks}
use dilithium.BitcodeReader.TypeTable.Parse.{
  add_type_record, type_table_loop, parse_type_table_body, parse_type_table,
}
use dilithium.BitcodeReader.TypeTable.{
  Parsed, parsed, corrupted, faulty, ◌>>=◌, TypeTable, end_types, start_table, type_block_id,
}
use dilithium.BitcodeReader.TypeTable.Denotes.{Record, add_type_records, parse_type_records}

-- From `c` on the block has these records and ends, with the cursor `c'` behind it.
pub data Supplies : Cursor → List Record → Cursor → Type 0 where
  ends : {c c' : Cursor} → advance_skipping_subblocks 0 c ≡ ok (end_block, c') → Supplies c [] c'
  gives :
      {c c1 c2 c' : Cursor} {id code : ℕ} {ops : List ℕ} {rs : List Record}
      → advance_skipping_subblocks 0 c ≡ ok (an_record id, c1)
      → read_record id [] c1 ≡ ok ((code, ops), c2)
      → Supplies c2 rs c'
      → Supplies c ((code, ops) ∷ rs) c'

-- The result with the cursor.
abbrev pub with_cursor : Cursor → Parsed TypeTable → Parsed (TypeTable × Cursor)
with_cursor c m = m >>= λ t. parsed (t, c)

module _ (hash : Ty → Types → Bool → ℕ) where
  type_table_loop-Supplies :
      {c c' : Cursor} {rs : List Record} (fuel : ℕ) (table : TypeTable)
      → Supplies c rs c'
      → length rs < fuel
      → type_table_loop hash fuel table c ≡ with_cursor c' (parse_type_records hash rs table)
  unfolding type_table_loop parse_type_records add_type_records
  type_table_loop-Supplies zero table s enough = absurd (omega arith)
  type_table_loop-Supplies (suc fuel) table (ends e) enough = rw e refl
  type_table_loop-Supplies (suc fuel) table (gives {c} {c1} {c2} {c'} {id} {code} {ops} {rs} e r s)
        enough =
      rw (e, r)
        (rest (add_type_record hash code ops table)
          λ t. type_table_loop-Supplies fuel t s (omega arith))
    where
      rest :
          (m : Parsed TypeTable)
          → ((t : TypeTable)
              → type_table_loop hash fuel t c2 ≡ with_cursor c' (parse_type_records hash rs t))
          → (m >>= λ t. type_table_loop hash fuel t c2)
            ≡ with_cursor c' ((m >>= λ t. add_type_records hash rs t) >>= end_types)
      rest (parsed t) k = k t
      rest (corrupted e) k = refl
      rest (faulty e) k = refl

  -- ParseTypeTable on a block that can be entered and whose records the cursor reads up to its end
  -- does with them, one after another, what the switch on a record does, and the checks at the end;
  -- one round for each record and one for the end are enough, and the cursor is left behind the block.
  pub parse_type_table-Supplies :
      {c1 c' : Cursor} {rs : List Record} (c : Cursor) (n : Option ℕ) (fuel : ℕ)
      (fs : FunctionTypes)
      → enter_sub_block type_block_id c ≡ ok ((false, n), c1)
      → Supplies c1 rs c'
      → length rs < fuel
      → parse_type_table hash fuel [] fs c
        ≡ with_cursor c' (parse_type_records hash rs (start_table [] fs))
  unfolding parse_type_table parse_type_table_body
  parse_type_table-Supplies c n fuel fs entered s enough =
      rw entered (type_table_loop-Supplies fuel (start_table [] fs) s enough)
